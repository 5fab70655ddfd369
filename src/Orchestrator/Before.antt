-- ===== src/Orchestrator/Before.antt =====
-- `before_step`: what is decided before a step runs. The section that the lock guards is
-- `finish_step`; `begin_step` is what precedes it, and other threads may run in between.
use veronica.Prelude.{String, ◌||◌, ◌==◌, Option, none, some, [], ◌∷◌, if◌then◌else◌}
use veronica.Prelude.Int.{pos}
use veronica.Prelude.Result.{Result, ok, err, ◌>>=◌}
use veronica.Prelude.Dict.{Dict, get}
use veronica.Float.{Float}
use veronica.Types.{
  StepIntent, AnalysisResult, CostEstimate, BudgetState, DesiredPolicy, PolicyConfig, or_default,
}
use veronica.OrgPolicy.{Denial, validate, clamp}
use veronica.Orchestrator.{
  StepHandle, step_denied, Stages, Config, Ambient, Os, chain_spent, Timed, timed,
}
use veronica.Orchestrator.Handles.{
  bare_policy, denied_handle, fallback_cost, fallback_desired, risk_or_nominal,
  recommendation_or_continue, denial_event,
}

-- What `before_step` knows when it takes the lock.
pub record Begun (F : Type 0) : Type 0 where
  pub last_analysis : Option AnalysisResult
  pub cost : Timed F (CostEstimate F)

module _ {F : Type 0} ⦃fl : Float F⦄ (cfg : Config F) (amb : Ambient F) where
  -- step 0: the organisation's objection
  unfoldable pub denial_of : StepIntent → Option Denial
  denial_of intent = elim cfg.org_policy [
    | none ↦ none
    | some org ↦ validate amb.casefold org intent
  ]

  -- steps 4.5: the organisation's clamp, and the chain that the planner left empty
  abbrev pub clamp_desired : DesiredPolicy F → DesiredPolicy F
  clamp_desired desired = elim cfg.org_policy [
    | none ↦ desired
    | some org ↦ clamp amb.casefold org desired
  ]

  unfoldable pub restrict : StepIntent → DesiredPolicy F → DesiredPolicy F
  restrict intent desired =
      let d = clamp_desired desired in
      record d { chain_id = if d.chain_id == "" then intent.chain_id else d.chain_id }

  -- the handle that is returned: the arbiter's policy for the chain, or a default one
  unfoldable pub handle_of :
      Begun F
      → StepIntent
      → Timed F (DesiredPolicy F)
      → DesiredPolicy F
      → Timed F (Dict (PolicyConfig F))
      → StepHandle F
  handle_of begun intent planned desired granted = record {
    intent = intent;
    policy =
        or_default (get intent.chain_id granted.value)
          (bare_policy intent.chain_id (fl.dec 10 1) amb.now);
    desired = desired;
    cost = begun.cost.value;
    decision_meta = record {
      risk_level = risk_or_nominal begun.last_analysis;
      recommendation = recommendation_or_continue begun.last_analysis;
      degraded = begun.cost.late || planned.late || granted.late;
      stage_time_ms =
          ("cost_model", begun.cost.elapsed)
          ∷ ("planner", planned.elapsed)
          ∷ ("arbiter", granted.elapsed)
          ∷ [];
      org_denial = none;
    };
  }

module _ {F Pl Ar St Em : Type 0} ⦃fl : Float F⦄ (cfg : Config F) (amb : Ambient F)
    (stages : Stages F Pl Ar St Em) where
  -- steps 1 and 2: the history and the estimate
  unfoldable pub begin_step : Os F Pl Ar St Em → StepIntent → Result (Begun F)
  unfolding timed
  begin_step s intent = do
    history ← stages.build_history s.store intent.chain_id
    cost ←
        timed cfg amb "cost_model" (fl.dec 10 0) (stages.estimate intent history s.last_analysis)
          fallback_cost
    ok (record { last_analysis = s.last_analysis; cost = cost })

  -- self._request_budget_usd - total_spent
  abbrev pub remaining : Os F Pl Ar St Em → F
  remaining s = fl.sub cfg.request_budget_usd s.total_spent_usd

  -- step 3
  unfoldable pub budget_of : Os F Pl Ar St Em → String → BudgetState F
  budget_of s chain_id = record {
    request_remaining_usd = remaining s;
    chain_remaining_usd = fl.sub cfg.request_budget_usd (chain_spent s chain_id);
    window_remaining_steps = pos 100;
  }

  -- step 4
  unfoldable pub plan_stage :
      Begun F
      → Os F Pl Ar St Em
      → StepIntent
      → Os F Pl Ar St Em × Result (Timed F (DesiredPolicy F))
  unfolding timed budget_of
  plan_stage begun s intent =
      let (planner, planned) =
        stages.plan s.planner begun.last_analysis begun.cost.value (budget_of s intent.chain_id) in
      (
        record s { planner = planner },
        timed cfg amb "planner" (fl.dec 30 0) planned (fallback_desired intent (remaining s)),
      )

  abbrev pub with_context : Ar → StepIntent → Ar
  with_context arbiter intent = elim stages.set_arbitration_context [
    | none ↦ arbiter
    | some set ↦ set arbiter intent.request_id intent.step_id
  ]

  -- step 5
  unfoldable pub arbitrate_stage :
      Os F Pl Ar St Em
      → StepIntent
      → DesiredPolicy F
      → Os F Pl Ar St Em × Result (Timed F (Dict (PolicyConfig F)))
  unfolding timed
  arbitrate_stage s intent desired =
      let (arbiter, configs) =
        stages.arbitrate (with_context s.arbiter intent) (desired ∷ []) (remaining s) in
      (
        record s { arbiter = arbiter },
        timed cfg amb "arbiter" (fl.dec 20 0) configs
            ((intent.chain_id, bare_policy intent.chain_id desired.ceiling_usd amb.now) ∷ []),
      )

  -- step 5 and what follows it
  unfoldable pub grant :
      Begun F
      → Os F Pl Ar St Em
      → StepIntent
      → Timed F (DesiredPolicy F)
      → Os F Pl Ar St Em × Result (StepHandle F)
  grant begun s intent planned =
      let desired = restrict cfg amb intent planned.value in
      let (s', granted) = arbitrate_stage s intent desired in
      (s', do configs ← granted; ok (handle_of cfg amb begun intent planned desired configs))

  -- the section under the lock, and what follows it
  unfoldable pub finish_step :
      Begun F → Os F Pl Ar St Em → StepIntent → Os F Pl Ar St Em × Result (StepHandle F)
  finish_step begun s intent =
      let (s', planned) = plan_stage begun s intent in
      elim planned [ err e ↦ (s', err e) | ok p ↦ grant begun s' intent p ]

  -- VeronicaOS.before_step; what the emitter raises is swallowed
  unfoldable pub before_step :
      Os F Pl Ar St Em → StepIntent → Os F Pl Ar St Em × Result (StepHandle F)
  before_step s intent = elim (denial_of cfg amb intent) [
    | some denial ↦ (
      record s { emitter = (stages.emit s.emitter (step_denied (denial_event intent denial))).0 },
      ok (denied_handle intent denial amb.now),
    )
    | none ↦ elim (begin_step s intent) [
      | err e ↦ (s, err e)
      | ok begun ↦ finish_step begun s intent
    ]
  ]
