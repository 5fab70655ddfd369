-- ===== src/AdaptivePlanner/Factors.antt =====
-- The factor that AdaptivePlanner applies to an analysis of HistoryAnalyzer.
use veronica.Prelude.{◌≡◌, ◌≢◌, arith}
use veronica.Float.{Float}
use veronica.Types.{Status, ok_status, halted, StepIntent, StepOutcome, HistoryView}
use veronica.HistoryAnalyzer
use veronica.AdaptivePlanner.{tighten_factor}

module _ {F : Type 0} ⦃fl : Float F⦄ where
  -- the factor after a step that failed
  abbrev pub failure_factor : Status → F
  failure_factor halted = fl.dec 50 2
  failure_factor _ = fl.dec 85 2

  -- Whatever else HistoryAnalyzer finds, the factor for a failed step is 0.50 after a halt and
  -- 0.85 after an error, and after a timeout too.
  pub tighten_factor-analyze :
      (intent : StepIntent) (outcome : StepOutcome F) (history : HistoryView F)
      → outcome.status ≢ ok_status
      → tighten_factor (HistoryAnalyzer.analyze intent outcome history)
        ≡ failure_factor outcome.status
  unfolding tighten_factor HistoryAnalyzer.analyze
  tighten_factor-analyze intent outcome history failed = ground arith
