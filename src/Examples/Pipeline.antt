-- ===== src/Examples/Pipeline.antt =====
-- Examples for the analyzers and the planners.
use veronica.Prelude.{◌≡◌, refl, Option, none, some, List, [], ◌∷◌, arith}
use veronica.Prelude.Int.{pos}
use veronica.Prelude.Result.{ok}
use veronica.Prelude.Dict.{get}
use veronica.Float.Sample.{Micro, micro, micro_float, micro_laws}
use veronica.Types.{
  StepOutcome, AnalysisResult, CostEstimate, BudgetState, halt, tighten, critical_risk, elevated,
  fallback,
}
use veronica.Types.{timeout}
use veronica.HistoryAnalyzer
use veronica.HistoryAnalyzer.Rules.{rule, analyze-rule}
use veronica.AdaptivePlanner.{
  AdaptivePlanner, new_planner, clamp_ceiling, scaled, factor_for, tighten_factor,
}
use veronica.AdaptivePlanner.Cooldown.{Question, plans, asked, plan_pauses}
use veronica.Examples.Data.{fine, intent, always_safe}
use veronica.MemoryStore.{Store, build_history, history_of}
use veronica.Analyzer.{analyze}
use veronica.Analyzer.Depth.{analyze-build_history}

abbrev eight : List (StepOutcome Micro)
eight = fine ∷ fine ∷ fine ∷ fine ∷ fine ∷ fine ∷ fine ∷ fine ∷ []

abbrev eight_stored : Store Micro
eight_stored = ("a", eight) ∷ []

eight_shown : build_history always_safe eight_stored "a" (pos 50) ≡ ok (history_of "a" eight)
unfolding build_history get
eight_shown = refl

analyze-build_history_example :
    ((analyze intent fine (history_of "a" eight)).recommendation ≡ halt)
    × ((analyze intent fine (history_of "a" eight)).risk_level ≡ critical_risk)
unfolding get
analyze-build_history_example =
    analyze-build_history always_safe eight_stored "a" (history_of "a" eight) intent fine
      eight_shown (omega arith)

abbrev cost : CostEstimate Micro
cost = record {
  estimated_usd = micro 10;
  confidence = micro 1000000;
  model_used = "m";
  basis = fallback;
}

abbrev budget : BudgetState Micro
budget = record {
  request_remaining_usd = micro 500000;
  chain_remaining_usd = micro 500000;
  window_remaining_steps = pos 100;
}

abbrev tightened : Option AnalysisResult
tightened = some (record { signals = []; risk_level = elevated; recommendation = tighten })

analyze-rule_example :
    (HistoryAnalyzer.analyze intent fine (history_of "a" eight)).recommendation
    ≡ rule fine (history_of "a" eight)
analyze-rule_example = analyze-rule intent fine (history_of "a" eight)

abbrev late : StepOutcome Micro
late = record fine { status = timeout }

abbrev adaptive : AdaptivePlanner Micro
adaptive = new_planner (micro 1000000) (micro 10000000) (micro 100000) (pos 30000) "halt" none

abbrev question : Question Micro
question = record { analysis = tightened; cost = cost; budget = budget }

plan_pauses_example :
    let p1 = plans adaptive (question ∷ []) in
    let p2 = plans adaptive (question ∷ question ∷ []) in
    let p3 = plans adaptive (question ∷ question ∷ question ∷ []) in
    let p4 = plans adaptive (question ∷ question ∷ question ∷ question ∷ []) in
    (asked adaptive question
      ≡ clamp_ceiling adaptive cost budget
          (micro_float.mul adaptive.effective_ceiling (micro 900000)))
    × (asked p1 question ≡ clamp_ceiling adaptive cost budget (asked adaptive question))
    × (asked p2 question ≡ clamp_ceiling adaptive cost budget (asked p1 question))
    × (asked p3 question ≡ clamp_ceiling adaptive cost budget (asked p2 question))
    × (asked p4 question
        ≡ clamp_ceiling adaptive cost budget (scaled (asked p3 question) (factor_for tightened)))
unfolding get tighten_factor
plan_pauses_example =
    plan_pauses adaptive question question question question question (micro 900000) refl refl
