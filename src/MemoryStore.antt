-- ===== src/MemoryStore.antt =====
-- src/veronica/store.py: the outcomes of steps, by chain. `is_safe` is the match of a chain's name
-- with `_SAFE_CHAIN_RE`. Each method holds the lock while it uses the dictionary.
pub mod Chains
pub mod Streaks
use mathlib.Core.List.{reverse}
use veronica.Prelude.{
  ℕ, zero, suc, ◌+◌, String, Bool, true, false, not, ◌&&◌, Option, none, some, List, [], ◌∷◌, ◌++◌,
  map, length, last_n, leb, ltb, is_some, if◌then◌else◌,
}
use veronica.Prelude.Int.{ℤ, pos, negsuc, pos_part}
use veronica.Prelude.Result.{Result, ok, err, value_error}
use veronica.Prelude.Dict.{Dict, get, put}
use veronica.Float.{Float, finite_or_zero}
use veronica.Types.{StepOutcome, Status, ok_status, HistoryView, or_default}

abbrev pub max_outcomes_per_chain : ℕ
max_outcomes_per_chain = 50000

abbrev pub max_chains : ℕ
max_chains = 10000

abbrev pub Store : Type 0 → Type 0
Store F = Dict (List (StepOutcome F))

-- o.status == "ok"
abbrev pub is_ok : {F : Type 0} → StepOutcome F → Bool
is_ok o = elim o.status [ ok_status ↦ true | _ ↦ false ]

-- `chain[-_MAX_OUTCOMES_PER_CHAIN:]` when it is longer
abbrev pub trim : {F : Type 0} → List (StepOutcome F) → List (StepOutcome F)
trim chain =
    if ltb max_outcomes_per_chain (length chain) then last_n max_outcomes_per_chain chain else chain

module _ {F : Type 0} (is_safe : String → Bool) where
  -- MemoryStore.commit, with the argument that it stores
  unfoldable pub commit : Store F → StepOutcome F → Store F × Result (Unit {0})
  commit s outcome =
      if not (is_safe outcome.chain_id)
      then (s, err value_error)
      else if not (is_some (get outcome.chain_id s)) && leb max_chains (length s)
      then (s, err value_error)
      else (
        put outcome.chain_id (trim (or_default (get outcome.chain_id s) [] ++ outcome ∷ [])) s,
        ok tt,
      )

-- max(1, min(limit, _MAX_OUTCOMES_PER_CHAIN))
abbrev pub clamp_limit : ℤ → ℕ
clamp_limit (negsuc n) = 1
clamp_limit (pos zero) = 1
clamp_limit (pos (suc n)) = if leb (suc n) 50000 then suc n else 50000

-- the loop over the reversed outcomes
unfoldable pub count_failures : {F : Type 0} → List (StepOutcome F) → ℕ
count_failures [] = 0
count_failures (o ∷ os) = let rest = count_failures os in if is_ok o then 0 else rest + 1

module _ {F : Type 0} ⦃fl : Float F⦄ where
  -- the view of the outcomes shown; the fields behind `loop_score` have their defaults
  abbrev pub history_of : String → List (StepOutcome F) → HistoryView F
  history_of chain_id outcomes = record {
    chain_id = chain_id;
    last_n = outcomes;
    rolling_cost_usd = fl.sum (map (λ o. finite_or_zero o.cost_usd) outcomes);
    failure_streak = count_failures (reverse outcomes);
    depth = length outcomes;
    loop_score = fl.dec 0 0;
    success_streak = 0;
    cost_per_step_ema = fl.dec 0 0;
    cost_per_step_ema_by_model = [];
    latency_ema_ms = [];
    budget_headroom_ratio = fl.dec 1 0;
  }

  -- MemoryStore.build_history
  unfoldable pub build_history : (String → Bool) → Store F → String → ℤ → Result (HistoryView F)
  build_history is_safe s chain_id limit =
      if not (is_safe chain_id)
      then err value_error
      else ok (history_of chain_id (last_n (clamp_limit limit) (or_default (get chain_id s) [])))
