-- ===== src/Orchestrator/Overspent.antt =====
-- Steps of a chain that has spent more than its budget, with the default stages.
use veronica.Prelude.{true, false, ◌≡◌, ◌⊎◌, refl, ap, none, inl, inr, arith}
use veronica.Prelude.Result.{Exn, Result, ok, err, value_error, Result-cases}
use veronica.Prelude.Dict.{get}
use veronica.Float.{Float, FloatLaws, fmin, fmax}
use veronica.TimeGuard.{elapsed_ms, run_with_budget}
use veronica.Values.{Conversions}
use veronica.Types.{StepIntent, DesiredPolicy, PolicyConfig, or_default, to_exec_config}
use veronica.MemoryStore
use veronica.MemoryStore.{Store}
use veronica.Planner
use veronica.Planner.{Planner}
use veronica.Orchestrator.{StepHandle, Config, Ambient, Os, Timed, timed, chain_spent}
use veronica.Orchestrator.Before.{
  Begun, denial_of, begin_step, finish_step, plan_stage, before_step, budget_of,
}
use veronica.Orchestrator.Execution.{Engine, step}
use veronica.Orchestrator.Spending.{records, finish_step-records}
use veronica.Orchestrator.Wiring.{Wiring, default_stages}
use veronica.Orchestrator.Refused.{is_refused, fmin-refused, grant-refused, stages}

module _ {F Em : Type 0} ⦃fl : Float F⦄ ⦃laws : FloatLaws F⦄ ⦃conv : Conversions F⦄ (cfg : Config F)
    (amb : Ambient F) (wiring : Wiring F Em) (unorganised : cfg.org_policy ≡ none)
    (punctual : fl.lt
        (or_default (get "planner" cfg.budgets) (fl.dec 30 0))
        (elapsed_ms (amb.reading "planner"))
      ≡ false) where
  abbrev planned :
      Begun F → Os F (Planner F) Unit (Store F) Em → StepIntent → Timed F (DesiredPolicy F)
  planned begun s intent = record {
    value =
        (Planner.plan s.planner begun.last_analysis begun.cost.value
          (budget_of cfg amb (stages amb wiring) s intent.chain_id)).1;
    elapsed = elapsed_ms (amb.reading "planner");
    late = false;
  }

  plan_stage-planned :
      (begun : Begun F) (s : Os F (Planner F) Unit (Store F) Em) (intent : StepIntent)
      → (plan_stage cfg amb (stages amb wiring) begun s intent).1 ≡ ok (planned begun s intent)
  unfolding plan_stage timed run_with_budget default_stages
  plan_stage-planned begun s intent = ground arith

  planned-refused :
      (begun : Begun F) (s : Os F (Planner F) Unit (Store F) Em) (intent : StepIntent)
      → fl.lt (fl.sub cfg.request_budget_usd (chain_spent s intent.chain_id)) (fl.dec 0 0) ≡ true
      → ((planned begun s intent).value.chain_id ≡ "")
        × (is_refused (planned begun s intent).value.ceiling_usd ≡ true)
  unfolding Planner.plan budget_of
  planned-refused begun s intent overspent = (
    refl,
    fmin-refused
        (fmax s.planner.min_ceiling_usd (
          fmin s.planner.max_ceiling_usd
            (Planner.adjust begun.last_analysis s.planner.effective_ceiling)))
        (fl.sub cfg.request_budget_usd (chain_spent s intent.chain_id)) overspent,
  )

  finish_step-refused :
      (begun : Begun F) (s : Os F (Planner F) Unit (Store F) Em) (intent : StepIntent)
      → fl.lt (fl.sub cfg.request_budget_usd (chain_spent s intent.chain_id)) (fl.dec 0 0) ≡ true
      → (handle : StepHandle F) × ((finish_step cfg amb (stages amb wiring) begun s intent).1
          ≡ ok handle)
        × (is_refused handle.policy.ceiling_usd ≡ true)
  unfolding finish_step
  finish_step-refused begun s intent overspent =
      let (empty, refused) = planned-refused begun s intent overspent in
      let (handle, granted, high) =
        grant-refused cfg amb wiring unorganised begun
          (plan_stage cfg amb (stages amb wiring) begun s intent).0 intent (planned begun s intent)
          empty refused in
      (handle, rw (plan_stage-planned begun s intent, finish_step) granted, high)

  undenied : (intent : StepIntent) → denial_of cfg amb intent ≡ none
  unfolding denial_of
  undenied intent = rw unorganised

  begin_step-err :
      (s : Os F (Planner F) Unit (Store F) Em) (intent : StepIntent) (e : Exn)
      → begin_step cfg amb (stages amb wiring) s intent ≡ err e
      → e ≡ value_error
  unfolding begin_step timed run_with_budget default_stages MemoryStore.build_history
  begin_step-err s intent e h = ground arith

  before_step-refused :
      (s : Os F (Planner F) Unit (Store F) Em) (intent : StepIntent)
      → fl.lt (fl.sub cfg.request_budget_usd (chain_spent s intent.chain_id)) (fl.dec 0 0) ≡ true
      → let begun = (before_step cfg amb (stages amb wiring) s intent).1 in
        (begun ≡ err value_error)
        ⊎ ((handle : StepHandle F) × (begun ≡ ok handle)
            × (is_refused handle.policy.ceiling_usd ≡ true))
  unfolding before_step
  before_step-refused s intent overspent =
      elim (Result-cases (begin_step cfg amb (stages amb wiring) s intent)) [
        | inr (e, failed) ↦
            inl (
              rw (undenied intent, failed, before_step) (ap err (begin_step-err s intent e failed)))
        | inl (begun, started) ↦
            let (handle, granted, high) = finish_step-refused begun s intent overspent in
            inr (handle, rw (undenied intent, started, before_step) granted, high)
      ]

  before_step-records :
      (s : Os F (Planner F) Unit (Store F) Em) (intent : StepIntent)
      → records (before_step cfg amb (stages amb wiring) s intent).0 ≡ records s
  unfolding before_step
  before_step-records s intent =
      elim (Result-cases (begin_step cfg amb (stages amb wiring) s intent)) [
        | inr (e, failed) ↦ rw (undenied intent, failed, before_step)
        | inl (begun, started) ↦
            rw (undenied intent, started, before_step)
              (finish_step-records cfg amb (stages amb wiring) begun s intent)
      ]

  config-refused :
      (p : PolicyConfig F) → is_refused p.ceiling_usd ≡ true → to_exec_config p ≡ err value_error
  unfolding to_exec_config
  config-refused p h = rw h

  -- With the default stages and no limits of an organisation, once a chain has spent more than
  -- the budget, and while the planner is in time, every step of it raises ValueError whatever
  -- its body: nothing is stored or charged, no event is emitted, and so it stays.
  pub step-overspent :
      {X Fn T : Type 0} (engine : Engine F X Fn T) (s : Os F (Planner F) Unit (Store F) Em)
      → (intent : StepIntent) (body : StepHandle F → X → X × Result T)
      → fl.lt (fl.sub cfg.request_budget_usd (chain_spent s intent.chain_id)) (fl.dec 0 0) ≡ true
      → let (s', result) = step cfg amb (stages amb wiring) engine s intent body in
        (result ≡ err value_error) × (records s' ≡ records s)
  unfolding step
  step-overspent engine s intent body overspent =
      let kept = before_step-records s intent in
      elim (before_step-refused s intent overspent) [
        | inl failed ↦ rw (failed, step) (refl, kept)
        | inr (handle, granted, high) ↦
            rw (granted, config-refused handle.policy high, step) (refl, kept)
      ]
