-- ===== src/Orchestrator/After.antt =====
-- `after_step`: what is recorded once a step has run. `account` is the section under the lock.
use veronica.Prelude.{
  String, Bool, not, ◌&&◌, ◌==◌, Option, none, some, List, [], ◌∷◌, select, any, if◌then◌else◌,
}
use veronica.Prelude.Result.{Result, ok, err, ◌>>=◌}
use veronica.Prelude.Dict.{Dict, get, put}
use veronica.Float.{Float, finite_or_zero}
use veronica.TimeGuard.{within, exceeded, raised, run_with_budget, elapsed_ms}
use veronica.Types.{nominal, continue, StepOutcome, AnalysisResult, or_default}
use veronica.Collector.{ContextSnapshot}
use veronica.Orchestrator.{
  StepHandle, StepCompleted, step_completed, Stages, Config, Ambient, Os, chain_spent, Timed, timed,
}

-- the stages whose times are reported
abbrev pub known_stages : List String
known_stages =
    "collector" ∷ "analyzer" ∷ "cost_model" ∷ "planner" ∷ "arbiter" ∷ "store" ∷ "emit" ∷ []

abbrev pub fallback_analysis : AnalysisResult
fallback_analysis = record { signals = []; risk_level = nominal; recommendation = continue }

module _ {F : Type 0} ⦃fl : Float F⦄ where
  -- one stage over its budget, which counts when it is positive
  abbrev pub over_budget : Dict F → String × F → Bool
  over_budget budgets stage =
      let budget = or_default (get stage.0 budgets) (fl.dec 0 0) in
      fl.lt (fl.dec 0 0) budget && fl.lt budget stage.1

  -- VeronicaOS._degrade_reason
  unfoldable pub degrade_reason : Config F → StepHandle F → Option String
  degrade_reason cfg handle =
      if not handle.decision_meta.degraded then none else elim handle.policy.fallback_model [
        | some model ↦ some "fallback_model"
        | none ↦
            if any (over_budget cfg.budgets) handle.decision_meta.stage_time_ms
            then some "time_budget"
            else some "other"
      ]

  -- steps 6 and 7: the times of both halves of the step that are reported
  unfoldable pub reported_times : StepHandle F → F → F → F → Dict F
  reported_times handle collector analyzer store =
      select (λ stage. any (λ known. known == stage.0) known_stages)
        (put "store" store
          (put "analyzer" analyzer (put "collector" collector handle.decision_meta.stage_time_ms)))

module _ {F Pl Ar St Em : Type 0} ⦃fl : Float F⦄ (cfg : Config F) (amb : Ambient F)
    (stages : Stages F Pl Ar St Em) where
  -- step 7: the event that is emitted
  unfoldable pub completed :
      StepHandle F → StepOutcome F → AnalysisResult → Dict F → StepCompleted F
  unfolding degrade_reason
  completed handle outcome analysis times = record {
    request_id = outcome.request_id;
    step_id = outcome.step_id;
    chain_id = outcome.chain_id;
    kind = outcome.kind;
    status = outcome.status;
    cost_usd = outcome.cost_usd;
    tokens_in = outcome.tokens_in;
    tokens_out = outcome.tokens_out;
    elapsed_ms = outcome.elapsed_ms;
    risk_level = analysis.risk_level;
    recommendation = analysis.recommendation;
    degraded = handle.decision_meta.degraded;
    degrade_reason = degrade_reason cfg handle;
    signals = analysis.signals;
    stage_time_ms = times;
    policy_hash = amb.policy_hash handle.policy;
    audit_id = amb.fresh_id;
  }

  -- steps 2 and 3
  unfoldable pub analyze_stage :
      Os F Pl Ar St Em → StepHandle F → StepOutcome F → Result (Timed F AnalysisResult)
  unfolding timed
  analyze_stage s handle outcome = do
    history ← stages.build_history s.store outcome.chain_id
    timed cfg amb "analyzer" (fl.dec 20 0) (stages.analyze handle.intent outcome history)
        fallback_analysis

  -- step 4
  unfoldable pub account : Os F Pl Ar St Em → StepOutcome F → AnalysisResult → Os F Pl Ar St Em
  account s outcome analysis =
      let cost_to_add = finite_or_zero outcome.cost_usd in
      record s {
        last_analysis = some analysis;
        total_spent_usd = fl.add s.total_spent_usd cost_to_add;
        chain_spent_usd =
            put outcome.chain_id (fl.add (chain_spent s outcome.chain_id) cost_to_add)
              s.chain_spent_usd;
      }

  abbrev pub with_budget_context : St → F → St
  with_budget_context store budget_remaining = elim stages.set_budget_context [
    | none ↦ store
    | some set ↦ set store cfg.request_budget_usd budget_remaining
  ]

  -- step 5
  unfoldable pub commit_stage :
      Os F Pl Ar St Em
      → F
      → StepHandle F
      → StepOutcome F
      → AnalysisResult
      → Os F Pl Ar St Em × Result (Unit {0})
  commit_stage s budget_remaining handle outcome analysis =
      let (store, committed) =
        stages.commit (with_budget_context s.store budget_remaining) outcome analysis handle.cost
          handle.desired handle.policy handle.decision_meta in
      (record s { store = store }, committed)

  -- step 5b
  unfoldable pub settle_stage :
      Os F Pl Ar St Em → StepHandle F → StepOutcome F → Os F Pl Ar St Em × Result (Unit {0})
  settle_stage s handle outcome = elim stages.settle [
    | none ↦ (s, ok tt)
    | some settle ↦
        let (arbiter, settled) =
          settle s.arbiter handle.intent.request_id handle.intent.step_id outcome.cost_usd in
        (record s { arbiter = arbiter }, settled)
  ]

  -- step 7; what the emitter raises is swallowed
  unfoldable pub emit_stage :
      Os F Pl Ar St Em → StepHandle F → StepOutcome F → AnalysisResult → Dict F → Os F Pl Ar St Em
  unfolding completed
  emit_stage s handle outcome analysis times = record s {
    emitter = (stages.emit s.emitter (step_completed (completed handle outcome analysis times))).0;
  }

  -- steps 5 to 7, with the remaining budget that was read under the lock and the time of the
  -- collector
  unfoldable pub publish :
      Os F Pl Ar St Em
      → F
      → StepHandle F
      → StepOutcome F
      → F
      → Timed F AnalysisResult
      → Os F Pl Ar St Em × Result (Unit {0})
  unfolding commit_stage settle_stage reported_times emit_stage
  publish s budget_remaining handle outcome collector analysis =
      let (s1, committed) = commit_stage s budget_remaining handle outcome analysis.value in
      elim committed [
        | err e ↦ (s1, err e)
        | ok _ ↦
            let (s2, settled) = settle_stage s1 handle outcome in
            elim settled [
              | err e ↦ (s2, err e)
              | ok _ ↦
                  let store = elapsed_ms (amb.reading "store") in
                  let times = reported_times handle collector analysis.elapsed store in
                  (emit_stage s2 handle outcome analysis.value times, ok tt)
            ]
      ]

  -- steps 2 to 7
  unfoldable pub record_outcome :
      Os F Pl Ar St Em → StepHandle F → StepOutcome F → F → Os F Pl Ar St Em × Result (Unit {0})
  record_outcome s handle outcome collector = elim (analyze_stage s handle outcome) [
    | err e ↦ (s, err e)
    | ok analysis ↦
        let s' = account s outcome analysis.value in
        let left = fl.sub cfg.request_budget_usd s'.total_spent_usd in
        publish s' left handle outcome collector analysis
  ]

  -- VeronicaOS.after_step
  unfoldable pub after_step :
      Os F Pl Ar St Em → StepHandle F → ContextSnapshot F → Os F Pl Ar St Em × Result (Unit {0})
  after_step s handle snapshot =
      elim (run_with_budget (amb.reading "collector")
        (or_default (get "collector" cfg.budgets) (fl.dec 5 0)) (stages.collect snapshot)) [
          | raised e ↦ (s, err e)
          | exceeded elapsed ↦ (s, ok tt)
          | within outcome elapsed ↦ record_outcome s handle outcome elapsed
        ]
