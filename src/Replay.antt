-- ===== src/Replay.antt =====
-- src/veronica/replay/engine.py and models.py: recorded events decided again under another policy.
-- The engine reads a snapshot of the store, an argument here. A float that is asked of an integer
-- is `float(n)`. Raising is a `Result`; the text of `summary` is not modelled.
pub mod Override
pub mod Diffs
pub mod Steps
use Prim.Native.String.{compare}
use Prim.Native.Nat.{Ordering}
use veronica.Prelude.{
  ℕ, ◌+◌, String, Bool, true, false, not, ◌&&◌, ◌||◌, ◌==◌, Option, none, some, List, [], ◌∷◌,
  length, take, select, if◌then◌else◌,
}
use veronica.Prelude.Int.{ℤ, pos, ltb_ℤ}
use veronica.Prelude.Result.{Result, ok, err, Exn, value_error, overflow_error}
use veronica.Float.{fits_float, Float, finite_or_zero}
use veronica.Types.{PolicyConfig}
use veronica.Distributor.{Distributor, validate, holds}
use veronica.Events.{Event}
use veronica.Simulation.{exceeds}
use veronica.Values.{Conversions, Value}
use veronica.Prelude.Dict.{Dict}
use Override.{build_override_policy}

-- ReplayRequest, with bounds that its constructor has found finite and in order.
pub record ReplayRequest (F : Type 0) : Type 0 where
  pub chain_id : String
  pub from_timestamp : F
  pub to_timestamp : F
  pub override_policy : Option (Dict (Value F))

pub record DecisionDiff : Type 0 where
  pub step_id : String
  pub original_decision : String
  pub replayed_decision : String
  pub changed : Bool

pub record ReplayResult : Type 0 where
  pub chain_id : String
  pub event_count : ℕ
  pub diffs : List DecisionDiff
  pub changed_count : ℕ

abbrev pub max_replay_events : ℕ
max_replay_events = 100000

-- s < t, by code points
abbrev pub string_ltb : String → String → Bool
string_ltb s t = elim (compare s t) [ Ordering.lt ↦ true | _ ↦ false ]

module _ {F : Type 0} ⦃fl : Float F⦄ where
  -- ReplayRequest.__post_init__
  unfoldable pub new_request : String → F → F → Option (Dict (Value F)) → Result (ReplayRequest F)
  new_request chain_id from to override =
      if not (fl.is_finite from) || not (fl.is_finite to)
      then err value_error
      else if fl.lt to from
      then err value_error
      else ok (record {
        chain_id = chain_id;
        from_timestamp = from;
        to_timestamp = to;
        override_policy = override;
      })

  -- (timestamp, step_id) < (timestamp, step_id)
  abbrev pub before : Event F → Event F → Bool
  before e f =
      fl.lt e.timestamp f.timestamp
      || not (fl.lt f.timestamp e.timestamp) && string_ltb e.step_id f.step_id

  -- `events.sort`, which is stable
  unfoldable pub insert : Event F → List (Event F) → List (Event F)
  insert e [] = e ∷ []
  insert e (f ∷ fs) = let rest = insert e fs in if before f e then f ∷ rest else e ∷ f ∷ fs

  unfoldable pub sort : List (Event F) → List (Event F)
  unfolding insert
  sort [] = []
  sort (e ∷ es) = insert e (sort es)

  abbrev pub in_range : ReplayRequest F → Event F → Bool
  in_range request e =
      (e.chain_id == request.chain_id)
      && fl.le request.from_timestamp e.timestamp
      && fl.le e.timestamp request.to_timestamp

  -- _replay_decision
  unfoldable pub replay_decision : Event F → ℕ → F → PolicyConfig F → String
  replay_decision event step_index cumulative_cost policy =
      let projected_cost = fl.add cumulative_cost (finite_or_zero event.cost_usd) in
      let projected_steps = step_index + 1 in
      if fl.lt policy.ceiling_usd projected_cost
      then policy.on_exceed
      else if holds (λ limit. ltb_ℤ limit (pos projected_steps)) policy.ceiling_steps
      then policy.on_exceed
      else if holds (λ limit. exceeds event.tokens limit) policy.ceiling_tokens_out
      then policy.on_exceed
      else "allow"

  -- whether `math.isfinite` of the tokens raises OverflowError, where the tests before it pass
  unfoldable pub tokens_raise : Event F → ℕ → F → PolicyConfig F → Bool
  tokens_raise event step_index cumulative_cost policy =
      let projected_cost = fl.add cumulative_cost (finite_or_zero event.cost_usd) in
      let projected_steps = step_index + 1 in
      not (fl.lt policy.ceiling_usd projected_cost)
      && not (holds (λ limit. ltb_ℤ limit (pos projected_steps)) policy.ceiling_steps)
      && not (fits_float event.tokens)

  abbrev pub replayed : Option (PolicyConfig F) → Event F → ℕ → F → String
  replayed none event idx cumulative_cost = event.decision
  replayed (some policy) event idx cumulative_cost =
      replay_decision event idx cumulative_cost policy

  abbrev pub diff_of : Event F → String → DecisionDiff
  diff_of event decision = record {
    step_id = event.step_id;
    original_decision = event.decision;
    replayed_decision = decision;
    changed = not (decision == event.decision);
  }

  -- the loop over the events: the differences and `changed_count`
  unfoldable pub replay_events :
      Option (PolicyConfig F) → ℕ → F → List (Event F) → List DecisionDiff × ℕ
  unfolding replay_decision
  replay_events policy idx cumulative_cost [] = ([], 0)
  replay_events policy idx cumulative_cost (event ∷ events) =
      let diff = diff_of event (replayed policy event idx cumulative_cost) in
      let (diffs, changed_count) =
        replay_events policy (idx + 1) (fl.add cumulative_cost (finite_or_zero event.cost_usd))
          events in
      (diff ∷ diffs, if diff.changed then changed_count + 1 else changed_count)

  -- whether the loop raises, which it does at the first event whose tokens do
  unfoldable pub replay_raises : Option (PolicyConfig F) → ℕ → F → List (Event F) → Bool
  unfolding tokens_raise
  replay_raises none idx cumulative_cost events = false
  replay_raises (some policy) idx cumulative_cost [] = false
  replay_raises (some policy) idx cumulative_cost (event ∷ events) =
      tokens_raise event idx cumulative_cost policy
      || replay_raises (some policy) (idx + 1)
          (fl.add cumulative_cost (finite_or_zero event.cost_usd)) events

  abbrev pub selected : ReplayRequest F → List (Event F) → List (Event F)
  selected request snapshot =
      take max_replay_events (sort (select (λ e. in_range request e) snapshot))

  abbrev pub result_for : ReplayRequest F → Option (PolicyConfig F) → List (Event F) → ReplayResult
  result_for request policy events =
      let (diffs, changed_count) = replay_events policy 0 (fl.dec 0 0) events in
      record {
        chain_id = request.chain_id;
        event_count = length events;
        diffs = diffs;
        changed_count = changed_count;
      }

module _ {F : Type 0} ⦃fl : Float F⦄ ⦃conv : Conversions F⦄ where
  -- the override policy, built and validated
  unfoldable pub override_for :
      Distributor → F → Option (Dict (Value F)) → Result (Option (PolicyConfig F))
  override_for distributor now none = ok none
  override_for distributor now (some override) = elim (build_override_policy now override) [
    | err Exn.value_error ↦ err value_error
    | err e ↦ err e
    | ok policy ↦ elim (validate distributor policy) [
      | err Exn.policy_validation ↦ err value_error
      | err e ↦ err e
      | ok _ ↦ ok (some policy)
    ]
  ]

  -- ReplayEngine.replay
  unfoldable pub replay : Distributor → F → List (Event F) → ReplayRequest F → Result ReplayResult
  unfolding override_for replay_raises
  replay distributor now snapshot request =
      elim (override_for distributor now request.override_policy) [
        | err e ↦ err e
        | ok policy ↦
            if replay_raises policy 0 (fl.dec 0 0) (selected request snapshot)
            then err overflow_error
            else ok (result_for request policy (selected request snapshot))
      ]
