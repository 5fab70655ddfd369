-- ===== src/Orchestrator/Calls.antt =====
-- Sequences of calls of the orchestrator, and the outcomes that they record. The calls of different
-- steps may be interleaved: a step that is begun need not be recorded before the next begins.
use veronica.Prelude.{String, ◌==◌, List, [], ◌∷◌, ◌++◌, select}
use veronica.Prelude.Result.{Result, ok, err}
use veronica.Prelude.Dict.{get}
use veronica.Float.{Float, finite_or_zero}
use veronica.TimeGuard.{within, exceeded, raised, run_with_budget}
use veronica.Types.{StepIntent, StepOutcome, or_default}
use veronica.Collector.{ContextSnapshot}
use veronica.Orchestrator.{StepHandle, Stages, Config, Ambient, Os}
use veronica.Orchestrator.Before.{before_step}
use veronica.Orchestrator.After.{after_step, analyze_stage}

pub data Call (F : Type 0) : Type 0 where
  before : Ambient F → StepIntent → Call F
  after : Ambient F → StepHandle F → ContextSnapshot F → Call F

-- an outcome, when its analysis did not raise
abbrev pub if_ok : {A O : Type 0} → Result A → O → List O
if_ok (err e) outcome = []
if_ok (ok analysis) outcome = outcome ∷ []

module _ {F Pl Ar St Em : Type 0} ⦃fl : Float F⦄ (cfg : Config F)
    (stages : Stages F Pl Ar St Em) where
  unfoldable pub call : Os F Pl Ar St Em → Call F → Os F Pl Ar St Em
  call s (before amb intent) = (before_step cfg amb stages s intent).0
  call s (after amb handle snapshot) = (after_step cfg amb stages s handle snapshot).0

  unfoldable pub run : Os F Pl Ar St Em → List (Call F) → Os F Pl Ar St Em
  run s [] = s
  run s (c ∷ calls) = run (call s c) calls

  -- The outcome that a call charges: the collector must return one in time, and its analysis must
  -- not raise.
  unfoldable pub charged : Os F Pl Ar St Em → Call F → List (StepOutcome F)
  charged s (before amb intent) = []
  charged s (after amb handle snapshot) =
      elim (run_with_budget (amb.reading "collector")
        (or_default (get "collector" cfg.budgets) (fl.dec 5 0)) (stages.collect snapshot)) [
          | raised e ↦ []
          | exceeded elapsed ↦ []
          | within outcome elapsed ↦ if_ok (analyze_stage cfg amb stages s handle outcome) outcome
        ]

  -- All outcomes that a sequence of calls charges, in order.
  unfoldable pub all_charged : Os F Pl Ar St Em → List (Call F) → List (StepOutcome F)
  all_charged s [] = []
  all_charged s (c ∷ calls) = charged s c ++ all_charged (call s c) calls

module _ {F : Type 0} ⦃fl : Float F⦄ where
  -- The costs of outcomes added up, first to last; one that is not finite counts as nothing.
  unfoldable pub spend : F → List (StepOutcome F) → F
  spend total [] = total
  spend total (o ∷ outcomes) = spend (fl.add total (finite_or_zero o.cost_usd)) outcomes

  abbrev pub of_chain : String → List (StepOutcome F) → List (StepOutcome F)
  of_chain chain_id outcomes = select (λ o. o.chain_id == chain_id) outcomes
