-- ===== src/Collector.antt =====
-- src/veronica/collector.py: the outcome of a step, from the engine's snapshot. The records of the
-- engine have the fields that the code reads or passes; the clock and the text of a number are
-- arguments.
use Prim.Native.String.{◌++◌}
use veronica.Prelude.{ℕ, String, Bool, ◌==◌, Option, none, some, List, [], ◌∷◌, if◌then◌else◌}
use veronica.Prelude.Int.{ℤ, pos_part}
use veronica.Prelude.Result.{Result, ok, err, overflow_error, ◌>>=◌}
use veronica.Prelude.Dict.{Dict, get}
use veronica.Float.{Float}
use veronica.Types.{StepKind, system, Status, ok_status, halted, error, timeout, StepOutcome}
use veronica.Values.{Value, boolean, int, float, text, Conversions, of_bool}

-- A node of the engine. Nothing stands in `partial_buffer` when it is absent or when reading its
-- metadata raises.
pub record NodeRecord (F : Type 0) : Type 0 where
  pub node_id : String
  pub kind : StepKind
  pub status : String
  pub cost_usd : F
  pub partial_buffer : Option (Dict (Value F))

pub record ContextSnapshot (F : Type 0) : Type 0 where
  pub chain_id : String
  pub request_id : String
  pub step_count : ℕ
  pub cost_usd_accumulated : F
  pub retries_used : ℕ
  pub aborted : Bool
  pub abort_reason : Option String
  pub elapsed_ms : F
  pub nodes : List (NodeRecord F)

-- `last_node.status if last_node.status in _VALID_STATUSES else "error"`
abbrev pub valid_status : String → Status
valid_status s =
    if s == "ok"
    then ok_status
    else if s == "halted"
    then halted
    else if s == "timeout"
    then timeout
    else error

abbrev or_zero : Option ℤ → ℕ
or_zero none = 0
or_zero (some n) = pos_part n

module _ {F : Type 0} ⦃fl : Float F⦄ ⦃conv : Conversions F⦄ where
  -- `max(0, int(v or 0))`, or 0 when that raises TypeError or ValueError. An infinity raises
  -- OverflowError, which is not caught; a NaN does not equal itself.
  unfoldable pub token_count : Option (Value F) → Result ℕ
  token_count none = ok 0
  token_count (some (int n)) = ok (pos_part n)
  token_count (some (boolean b)) = ok (pos_part (of_bool b))
  token_count (some (text s)) = ok (or_zero (conv.parse_int s))
  token_count (some (float x)) =
      if fl.is_finite x
      then ok (or_zero (conv.truncate x))
      else if fl.le x x
      then err overflow_error
      else ok 0
  token_count (some _) = ok 0

  -- _extract_tokens
  unfoldable pub extract_tokens : NodeRecord F → Result (ℕ × ℕ)
  unfolding token_count
  extract_tokens node = elim node.partial_buffer [
    | none ↦ ok (0, 0)
    | some meta ↦ (do
      tokens_in ← token_count (get "tokens_in" meta)
      tokens_out ← token_count (get "tokens_out" meta)
      ok (tokens_in, tokens_out))
  ]

  abbrev last : NodeRecord F → List (NodeRecord F) → NodeRecord F
  last node [] = node
  last node (next ∷ nodes) = last next nodes

  -- the synthetic outcome of a snapshot without nodes
  abbrev pub idle_outcome : (ℕ → String) → ℕ → ContextSnapshot F → StepOutcome F
  idle_outcome show now_ms snapshot = record {
    step_id = snapshot.chain_id ++ "-" ++ show snapshot.step_count;
    request_id = snapshot.request_id;
    chain_id = snapshot.chain_id;
    kind = system;
    status = ok_status;
    cost_usd = snapshot.cost_usd_accumulated;
    tokens_in = 0;
    tokens_out = 0;
    elapsed_ms = snapshot.elapsed_ms;
    model = none;
    timestamp_ms = now_ms;
  }

  abbrev pub node_outcome : ℕ → ContextSnapshot F → NodeRecord F → ℕ → ℕ → StepOutcome F
  node_outcome now_ms snapshot last_node tokens_in tokens_out = record {
    step_id = last_node.node_id;
    request_id = snapshot.request_id;
    chain_id = snapshot.chain_id;
    kind = last_node.kind;
    status = valid_status last_node.status;
    cost_usd = last_node.cost_usd;
    tokens_in = tokens_in;
    tokens_out = tokens_out;
    elapsed_ms = snapshot.elapsed_ms;
    model = none;
    timestamp_ms = now_ms;
  }

  abbrev pub collect_nodes :
      (ℕ → String) → ℕ → ContextSnapshot F → List (NodeRecord F) → Result (StepOutcome F)
  collect_nodes show now_ms snapshot [] = ok (idle_outcome show now_ms snapshot)
  collect_nodes show now_ms snapshot (node ∷ nodes) = do
    (tokens_in, tokens_out) ← extract_tokens (last node nodes)
    ok (node_outcome now_ms snapshot (last node nodes) tokens_in tokens_out)

  -- SimpleCollector.collect
  unfoldable pub collect : (ℕ → String) → ℕ → ContextSnapshot F → Result (StepOutcome F)
  unfolding extract_tokens
  collect show now_ms snapshot = collect_nodes show now_ms snapshot snapshot.nodes
