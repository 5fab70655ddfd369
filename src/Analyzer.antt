-- ===== src/Analyzer.antt =====
-- src/veronica/analyzer.py: the risk and the recommendation after a step.
pub mod Depth
use veronica.Prelude.{
  ℕ, ◌+◌, Bool, true, false, not, ◌&&◌, List, [], ◌∷◌, ◌++◌, leb, eqb, if◌then◌else◌,
}
use veronica.Types.{
  StepKind, llm, tool, system, Severity, warning, critical, RiskLevel, nominal, elevated,
  critical_risk, Recommendation, continue, tighten, loosen, halt, StepIntent, StepOutcome,
  HistoryView, Signal, AnalysisResult,
}
use veronica.MemoryStore.{is_ok}

abbrev pub depth_threshold : ℕ
depth_threshold = 8

abbrev pub failure_streak_elevated : ℕ
failure_streak_elevated = 2

abbrev pub failure_streak_critical : ℕ
failure_streak_critical = 5

-- intent.kind == outcome.kind
abbrev pub same_kind : StepKind → StepKind → Bool
same_kind llm llm = true
same_kind tool tool = true
same_kind system system = true
same_kind _ _ = false

module _ {F : Type 0} where
  -- the current outcome counts towards the streak
  abbrev pub streak : StepOutcome F → HistoryView F → ℕ
  streak outcome history =
      if is_ok outcome then history.failure_streak else history.failure_streak + 1

  abbrev pub kind_signals : StepIntent → StepOutcome F → List Signal
  kind_signals intent outcome =
      if same_kind intent.kind outcome.kind
      then []
      else record { kind = "intent_deviation"; severity = warning } ∷ []

abbrev pub streak_signals : ℕ → List Signal
streak_signals n =
    if leb failure_streak_critical n
    then record { kind = "repeated_failure"; severity = critical } ∷ []
    else if leb failure_streak_elevated n
    then record { kind = "repeated_failure"; severity = warning } ∷ []
    else []

abbrev pub streak_risk : ℕ → RiskLevel
streak_risk n =
    if leb failure_streak_critical n
    then critical_risk
    else if leb failure_streak_elevated n
    then elevated
    else nominal

abbrev pub at_least_elevated : RiskLevel → RiskLevel
at_least_elevated nominal = elevated
at_least_elevated risk = risk

module _ {F : Type 0} where
  -- the recommendation rules, for a chain that is not too deep
  abbrev pub recommend : List Signal → RiskLevel → StepOutcome F → HistoryView F → AnalysisResult
  recommend signals risk outcome history =
      if not (is_ok outcome)
      then record {
        signals = signals;
        risk_level = at_least_elevated risk;
        recommendation = tighten;
      }
      else record {
        signals = signals;
        risk_level = risk;
        recommendation = if eqb history.failure_streak 0 then loosen else continue;
      }

  -- RuleAnalyzer.analyze
  unfoldable pub analyze : StepIntent → StepOutcome F → HistoryView F → AnalysisResult
  analyze intent outcome history =
      let n = streak outcome history in
      let signals = kind_signals intent outcome ++ streak_signals n in
      if leb depth_threshold history.depth
      then record {
        signals = signals ++ record { kind = "depth_anomaly"; severity = critical } ∷ [];
        risk_level = critical_risk;
        recommendation = halt;
      }
      else recommend signals (streak_risk n) outcome history
