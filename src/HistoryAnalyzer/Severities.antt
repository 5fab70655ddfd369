-- ===== src/HistoryAnalyzer/Severities.antt =====
-- The risk of HistoryAnalyzer, and how its signals reach the planner.
use veronica.Prelude.{◌≡◌, true, false, ◌||◌, leb, Bool, not, if◌then◌else◌, arith}
use veronica.Float.{Float}
use veronica.Types.{
  RiskLevel, nominal, elevated, critical_risk, Status, halted, StepIntent, StepOutcome, HistoryView,
}
use veronica.MemoryStore.{is_ok}
use veronica.HistoryAnalyzer.{analyze, is_cost_spike, is_loop}

abbrev pub is_halted : Status → Bool
is_halted halted = true
is_halted _ = false

module _ {F : Type 0} ⦃fl : Float F⦄ where
  -- The risk by rules.
  abbrev pub risk_rule : StepOutcome F → HistoryView F → RiskLevel
  risk_rule outcome history =
      if is_halted outcome.status || leb 10 history.depth
      then critical_risk
      else if not (is_ok outcome)
          || leb 6 history.depth
          || is_cost_spike outcome history
          || is_loop history
      then elevated
      else nominal

  -- The risk is critical exactly when the step was halted or its chain has ten steps, and
  -- otherwise elevated exactly when it failed, its chain has six steps, or cost or loop patterns
  -- match.
  pub analyze-risk :
      (intent : StepIntent) (outcome : StepOutcome F) (history : HistoryView F)
      → (analyze intent outcome history).risk_level ≡ risk_rule outcome history
  unfolding analyze
  analyze-risk intent outcome history = ground arith
