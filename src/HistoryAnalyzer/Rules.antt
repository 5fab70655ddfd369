-- ===== src/HistoryAnalyzer/Rules.antt =====
-- What HistoryAnalyzer recommends, as a table of rules in the order of their priority.
use veronica.Prelude.{◌≡◌, not, ◌||◌, leb, if◌then◌else◌, arith}
use veronica.Float.{Float}
use veronica.Types.{
  Recommendation, continue, tighten, loosen, halt, StepIntent, StepOutcome, HistoryView,
}
use veronica.MemoryStore.{is_ok}
use veronica.HistoryAnalyzer.{is_clean, is_cost_spike, is_loop, analyze}

module _ {F : Type 0} ⦃fl : Float F⦄ where
  -- The rules: a chain of ten steps halts; a failed step, a chain of six, a cost spike or a loop
  -- tightens; a clean step loosens.
  abbrev pub rule : StepOutcome F → HistoryView F → Recommendation
  rule outcome history =
      if leb 10 history.depth
      then halt
      else if not (is_ok outcome)
          || leb 6 history.depth
          || is_cost_spike outcome history
          || is_loop history
      then tighten
      else if is_clean outcome history
      then loosen
      else continue

  -- The recommendation composed from the patterns is the one of the rules, in the order of their
  -- priority: halt, tighten, loosen, continue.
  pub analyze-rule :
      (intent : StepIntent) (outcome : StepOutcome F) (history : HistoryView F)
      → (analyze intent outcome history).recommendation ≡ rule outcome history
  unfolding analyze
  analyze-rule intent outcome history = ground arith
