-- ===== src/Arbiters.antt =====
-- src/veronica/arbiter.py and proportional_arbiter.py: what each chain may spend, from what the
-- planners desire. The clock is an argument. Where two desires name one chain, a later entry of a
-- dictionary overwrites an earlier one, as in the code.
pub mod Keys
use veronica.Prelude.{
  ℕ, String, Bool, true, false, not, ◌&&◌, ◌||◌, Option, none, some, List, [], ◌∷◌, ◌++◌, length,
  select, map, if◌then◌else◌,
}
use veronica.Prelude.Int.{ℤ, pos, ◌+ℤ◌, ltb_ℤ}
use veronica.Prelude.Dict.{Dict, get, put, values}
use veronica.Float.{Float, fmin, fmax}
use veronica.Types.{DesiredPolicy, PolicyConfig, int, or_default}

-- sum(d.priority for d in desires)
abbrev pub total_priority : {F : Type 0} → List (DesiredPolicy F) → ℤ
total_priority [] = pos 0
total_priority (d ∷ ds) = d.priority +ℤ total_priority ds

module _ {F : Type 0} where
  -- the policy for a desire, with the ceiling that an arbiter grants
  abbrev pub policy_for : DesiredPolicy F → F → F → String → PolicyConfig F
  policy_for d ceiling_usd now version = record {
    chain_id = d.chain_id;
    ceiling_usd = ceiling_usd;
    on_exceed = d.on_exceed;
    issued_at = now;
    ceiling_tokens_out = some (int d.ceiling_tokens_out);
    ceiling_steps = some d.ceiling_steps;
    fallback_model = d.fallback_model;
    timeout_ms = some (int d.timeout_ms);
    rate_window_seconds = none;
    rate_ceiling_calls = none;
    priority = int d.priority;
    deadline_ts = none;
    expires_at = none;
    planner_version = some version;
  }

  -- `{k: f(v) for k, v in d.items()}`
  abbrev pub map_values : (F → F) → Dict F → Dict F
  map_values f [] = []
  map_values f ((k, v) ∷ d) = (k, f v) ∷ map_values f d

  -- `{d.chain_id: d for d in desires}`
  unfoldable pub index_from :
      Dict (DesiredPolicy F) → List (DesiredPolicy F) → Dict (DesiredPolicy F)
  index_from m [] = m
  index_from m (d ∷ ds) = index_from (put d.chain_id d m) ds

  abbrev pub is_eligible : DesiredPolicy F → Bool
  is_eligible d = ltb_ℤ (pos 0) d.priority

-- The local variables of the first pass.
pub record Shares (F : Type 0) : Type 0 where
  pub allocations : Dict F
  pub surplus : F
  pub uncapped : List (DesiredPolicy F)

module _ {F : Type 0} ⦃fl : Float F⦄ where
  abbrev pub passthrough_scale : List (DesiredPolicy F) → F → F
  passthrough_scale desires budget =
      let total = fl.sum (map (λ d. d.ceiling_usd) desires) in
      if fl.lt budget total && fl.lt (fl.dec 0 0) total then fl.div budget total else fl.dec 1 0

  -- the loop of PassthroughArbiter.arbitrate
  unfoldable pub passthrough_from :
      F → F → Dict (PolicyConfig F) → List (DesiredPolicy F) → Dict (PolicyConfig F)
  passthrough_from scale now result [] = result
  passthrough_from scale now result (d ∷ ds) =
      passthrough_from scale now
        (put d.chain_id (policy_for d (fl.mul d.ceiling_usd scale) now "0.1.0") result) ds

  -- PassthroughArbiter.arbitrate; no desires give no policies
  unfoldable pub passthrough : List (DesiredPolicy F) → F → F → Dict (PolicyConfig F)
  unfolding passthrough_from
  passthrough desires budget now =
      passthrough_from (passthrough_scale desires budget) now [] desires

  -- (d.priority / total_weight) * amount
  abbrev pub weighted : DesiredPolicy F → ℤ → F → F
  weighted d total_weight amount =
      fl.mul (fl.div (fl.of_int d.priority) (fl.of_int total_weight)) amount

  -- the first pass: a share beyond the desired ceiling goes to the surplus
  unfoldable pub first_pass : ℤ → F → Shares F → List (DesiredPolicy F) → Shares F
  first_pass total_weight budget s [] = s
  first_pass total_weight budget s (d ∷ ds) =
      let share = weighted d total_weight budget in
      let s' : Shares F =
        if fl.lt d.ceiling_usd share
        then record s {
          surplus = fl.add s.surplus (fl.sub share d.ceiling_usd);
          allocations = put d.chain_id d.ceiling_usd s.allocations;
        }
        else record s {
          allocations = put d.chain_id share s.allocations;
          uncapped = s.uncapped ++ d ∷ [];
        } in
      first_pass total_weight budget s' ds

  -- the second pass: the surplus is shared out among the uncapped
  unfoldable pub second_pass : ℤ → F → Dict F → List (DesiredPolicy F) → Dict F
  second_pass weight surplus allocations [] = allocations
  second_pass weight surplus allocations (d ∷ ds) =
      let new_alloc =
        fl.add (or_default (get d.chain_id allocations) (fl.dec 0 0)) (weighted d weight surplus) in
      second_pass weight surplus (put d.chain_id (fmin new_alloc d.ceiling_usd) allocations) ds

  abbrev pub epsilon : F
  epsilon = fl.dec 1 12

  abbrev pub min_allocation : F
  min_allocation = fl.dec 1 2

  abbrev pub redistribute : Shares F → Dict F
  redistribute s =
      let weight = total_priority s.uncapped in
      if fl.lt epsilon s.surplus && fl.lt epsilon (fl.of_int weight)
      then second_pass weight s.surplus s.allocations s.uncapped
      else s.allocations

  -- a budget that allows it gives everybody the minimum
  abbrev pub raise_to_minimum : ℕ → F → Dict F → Dict F
  raise_to_minimum n budget allocations =
      if fl.le (fl.mul (fl.of_int (pos n)) min_allocation) budget
      then map_values (λ v. fmax v min_allocation) allocations
      else allocations

  -- a total beyond the budget is scaled down
  abbrev pub scale_down : F → Dict F → Dict F
  scale_down budget allocations =
      let total = fl.sum (values allocations) in
      if fl.lt (fl.add budget epsilon) total
      then map_values (λ v. fl.mul v (fl.div budget total)) allocations
      else allocations

  -- the loop that builds the policies
  unfoldable pub policies_for : Dict (DesiredPolicy F) → F → Dict F → Dict (PolicyConfig F)
  policies_for desire_map now [] = []
  policies_for desire_map now ((chain_id, alloc) ∷ allocations) =
      let rest = policies_for desire_map now allocations in
      elim (get chain_id desire_map) [
        | none ↦ rest
        | some d ↦ (chain_id, policy_for d alloc now "0.2.0") ∷ rest
      ]

  abbrev pub allocate : List (DesiredPolicy F) → F → Dict F
  allocate eligible budget =
      let start : Shares F = record { allocations = []; surplus = fl.dec 0 0; uncapped = [] } in
      scale_down budget (
        raise_to_minimum (length eligible) budget
          (redistribute (first_pass (total_priority eligible) budget start eligible)))

  -- `arbitrate` with the eligible desires
  abbrev pub proportional_among : List (DesiredPolicy F) → F → F → Dict (PolicyConfig F)
  proportional_among [] budget now = []
  proportional_among (d ∷ ds) budget now =
      if fl.lt (fl.of_int (total_priority (d ∷ ds))) epsilon
      then []
      else policies_for (index_from [] (d ∷ ds)) now (allocate (d ∷ ds) budget)

  -- ProportionalArbiter.arbitrate
  unfoldable pub proportional : List (DesiredPolicy F) → F → F → Dict (PolicyConfig F)
  unfolding first_pass second_pass index_from policies_for
  proportional desires budget now = proportional_among (select is_eligible desires) budget now
