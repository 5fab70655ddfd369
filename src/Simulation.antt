-- ===== src/Simulation.antt =====
-- src/veronica/api/routes/simulate.py: a scenario evaluated against a policy, step by step. The
-- endpoint takes what `_build_policy` returned or raised. `clock` gives what `time.time()` returns
-- at a step. An integer is compared with a float through `float(n)`, which is exact up to 2 ** 53.
pub mod Accounting
pub mod Ceiling
use veronica.Prelude.{
  ℕ, ◌+◌, ◌-◌, String, Bool, true, false, ◌==◌, Option, none, some, List, [], ◌∷◌, ◌++◌, length,
  if◌then◌else◌,
}
use veronica.Prelude.Int.{ℤ, pos, ◌+ℤ◌, ltb_ℤ}
use veronica.Prelude.Result.{Result, ok, err, Exn, http_422, overflow_error}
use veronica.Float.{Float}
use veronica.Types.{Number, int, float, boolean, PolicyConfig}
use veronica.PolicyAudit.{Json, compute_policy_hash}
use veronica.Distributor.{Distributor, validate, holds}

-- SimulationStep, without the fields that the evaluation does not read.
pub record SimulationStep (F : Type 0) : Type 0 where
  pub kind : String
  pub cost_usd : F
  pub tokens_out : ℤ
  pub elapsed_ms : F

-- The reasons that `_evaluate_step` prints, with the numbers that they show.
pub data Reason (F : Type 0) : Type 0 where
  cost_ceiling : F → F → Reason F
  token_ceiling : ℤ → Number F → Reason F
  step_ceiling : ℕ → ℤ → Reason F
  deadline : F → Reason F
  expired : F → Reason F
  within_budget : Reason F

pub record StepResult (F : Type 0) : Type 0 where
  pub step_index : ℕ
  pub kind : String
  pub cost_usd : F
  pub tokens_out : ℤ
  pub elapsed_ms : F
  pub cumulative_cost_usd : F
  pub decision : String
  pub reason : Reason F

-- The local variables of the loop.
pub record Tally (F : Type 0) : Type 0 where
  pub cumulative_cost : F
  pub cumulative_tokens_out : ℤ
  pub steps_allowed : ℕ
  pub steps_halted : ℕ
  pub final_decision : String
  pub step_results : List (StepResult F)

pub record SimulateResponse (F : Type 0) : Type 0 where
  pub policy_hash : String
  pub total_steps : ℕ
  pub steps_allowed : ℕ
  pub steps_halted : ℕ
  pub total_cost_usd : F
  pub final_decision : String
  pub step_results : List (StepResult F)

module _ {F : Type 0} ⦃fl : Float F⦄ where
  -- n > limit
  abbrev pub exceeds : ℤ → Number F → Bool
  exceeds n (int limit) = ltb_ℤ limit n
  exceeds n (float limit) = fl.lt limit (fl.of_int n)
  exceeds n (boolean limit) = ltb_ℤ (if limit then pos 1 else pos 0) n

  -- the deadline and the expiry, with one reading of the clock
  abbrev pub evaluate_time : PolicyConfig F → F → String × Reason F
  evaluate_time policy now =
      if holds (λ t. fl.lt t now) policy.deadline_ts
      then ("halt", elim policy.deadline_ts [ none ↦ within_budget | some t ↦ deadline t ])
      else if holds (λ t. fl.lt t now) policy.expires_at
      then ("halt", elim policy.expires_at [ none ↦ within_budget | some t ↦ expired t ])
      else ("allow", within_budget)

  abbrev pub evaluate_steps : ℕ → PolicyConfig F → F → String × Reason F
  evaluate_steps projected_steps policy now = elim policy.ceiling_steps [
    | none ↦ evaluate_time policy now
    | some limit ↦
        if ltb_ℤ limit (pos projected_steps)
        then (policy.on_exceed, step_ceiling projected_steps limit)
        else evaluate_time policy now
  ]

  abbrev pub evaluate_tokens : ℤ → ℕ → PolicyConfig F → F → String × Reason F
  evaluate_tokens projected_tokens projected_steps policy now = elim policy.ceiling_tokens_out [
    | none ↦ evaluate_steps projected_steps policy now
    | some limit ↦
        if exceeds projected_tokens limit
        then (policy.on_exceed, token_ceiling projected_tokens limit)
        else evaluate_steps projected_steps policy now
  ]

  -- _evaluate_step, without the arguments that it ignores
  unfoldable pub evaluate_step : F → ℤ → F → ℕ → ℤ → PolicyConfig F → F → String × Reason F
  evaluate_step step_cost step_tokens_out cumulative_cost cumulative_steps cumulative_tokens_out
        policy now =
      let projected_cost = fl.add cumulative_cost step_cost in
      if fl.lt policy.ceiling_usd projected_cost
      then (policy.on_exceed, cost_ceiling projected_cost policy.ceiling_usd)
      else evaluate_tokens (cumulative_tokens_out +ℤ step_tokens_out) (cumulative_steps + 1) policy
          now

  abbrev pub start : Tally F
  start = record {
    cumulative_cost = fl.dec 0 0;
    cumulative_tokens_out = pos 0;
    steps_allowed = 0;
    steps_halted = 0;
    final_decision = "allow";
    step_results = [];
  }

  abbrev pub result_of : ℕ → SimulationStep F → F → String → Reason F → StepResult F
  result_of idx step cumulative_cost decision reason = record {
    step_index = idx;
    kind = step.kind;
    cost_usd = step.cost_usd;
    tokens_out = step.tokens_out;
    elapsed_ms = step.elapsed_ms;
    cumulative_cost_usd = cumulative_cost;
    decision = decision;
    reason = reason;
  }

  abbrev pub allow_step : ℕ → SimulationStep F → String → Reason F → Tally F → Tally F
  allow_step idx step decision reason t =
      let cost = fl.add t.cumulative_cost step.cost_usd in
      record t {
        cumulative_cost = cost;
        cumulative_tokens_out = t.cumulative_tokens_out +ℤ step.tokens_out;
        steps_allowed = t.steps_allowed + 1;
        final_decision = decision;
        step_results = t.step_results ++ result_of idx step cost decision reason ∷ [];
      }

  -- the step that ends the loop, and the steps behind it, count as halted
  abbrev pub stop_step : ℕ → ℕ → SimulationStep F → String → Reason F → Tally F → Tally F
  stop_step total idx step decision reason t = record t {
    steps_halted = t.steps_halted + 1 + (total - idx - 1);
    final_decision = decision;
    step_results = t.step_results ++ result_of idx step t.cumulative_cost decision reason ∷ [];
  }

  -- the `for` loop, from step `idx` on
  unfoldable pub run_steps :
      PolicyConfig F → (ℕ → F) → ℕ → ℕ → List (SimulationStep F) → Tally F → Tally F
  run_steps policy clock total idx [] t = t
  run_steps policy clock total idx (step ∷ steps) t =
      let (decision, reason) =
        evaluate_step step.cost_usd step.tokens_out t.cumulative_cost idx t.cumulative_tokens_out
          policy (clock idx) in
      let rest =
        run_steps policy clock total (idx + 1) steps (allow_step idx step decision reason t) in
      if decision == "allow" then rest else stop_step total idx step decision reason t

module _ {F : Type 0} ⦃fl : Float F⦄ (digest : List (String × Json F) → String) where
  abbrev pub respond : PolicyConfig F → ℕ → Tally F → SimulateResponse F
  respond policy total t = record {
    policy_hash = compute_policy_hash digest policy;
    total_steps = total;
    steps_allowed = t.steps_allowed;
    steps_halted = t.steps_halted;
    total_cost_usd = t.cumulative_cost;
    final_decision = t.final_decision;
    step_results = t.step_results;
  }

  -- POST /simulate
  unfoldable pub simulate :
      Distributor
      → Result (PolicyConfig F)
      → List (SimulationStep F)
      → (ℕ → F)
      → Result (SimulateResponse F)
  simulate distributor (err e) steps clock = err http_422
  simulate distributor (ok policy) steps clock = elim (validate distributor policy) [
    | err Exn.overflow_error ↦ err overflow_error
    | err e ↦ err http_422
    | ok _ ↦
        ok (respond policy (length steps) (run_steps policy clock (length steps) 0 steps start))
  ]
