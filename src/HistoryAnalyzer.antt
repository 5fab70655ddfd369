-- ===== src/HistoryAnalyzer.antt =====
-- src/veronica/history_analyzer.py: six patterns over a step's outcome and the statistics of its
-- chain. The text of a signal is left out.
pub mod Rules
pub mod Severities
use veronica.Prelude.{
  ℕ, Bool, true, false, not, ◌&&◌, Option, none, some, List, [], ◌∷◌, ◌++◌, leb, ltb, if◌then◌else◌,
}
use veronica.Prelude.Dict.{get}
use veronica.Float.{Float}
use veronica.Types.{
  Status, ok_status, halted, error, timeout, Severity, info, warning, critical, RiskLevel, nominal,
  elevated, critical_risk, Recommendation, continue, tighten, loosen, halt, StepIntent, StepOutcome,
  HistoryView, Signal, AnalysisResult,
}
use veronica.MemoryStore.{is_ok}
use veronica.CostModels.{name_or}

abbrev pub severity_rank : Severity → ℕ
severity_rank info = 0
severity_rank warning = 1
severity_rank critical = 2

abbrev pub recommendation_rank : Recommendation → ℕ
recommendation_rank continue = 0
recommendation_rank loosen = 1
recommendation_rank tighten = 2
recommendation_rank halt = 3

-- What a pattern adds: signals and recommendations.
pub record Found : Type 0 where
  pub signals : List Signal
  pub recommendations : List Recommendation

abbrev pub nothing : Found
nothing = record { signals = []; recommendations = [] }

-- the signals and recommendations of two patterns, in order
infixr 60 ◌and_then◌
abbrev pub ◌and_then◌ : Found → Found → Found
a and_then b = record {
  signals = a.signals ++ b.signals;
  recommendations = a.recommendations ++ b.recommendations;
}

-- Pattern 1
abbrev pub halt_tighten : Status → Found
halt_tighten ok_status = nothing
halt_tighten halted = record {
  signals = record { kind = "halt_tighten"; severity = critical } ∷ [];
  recommendations = tighten ∷ [];
}
halt_tighten _ = record {
  signals = record { kind = "halt_tighten"; severity = warning } ∷ [];
  recommendations = tighten ∷ [];
}

-- Pattern 3
abbrev pub depth_guard : ℕ → Found
depth_guard depth =
    if leb 10 depth
    then record {
      signals = record { kind = "depth_guard"; severity = critical } ∷ [];
      recommendations = halt ∷ [];
    }
    else if leb 6 depth
    then record {
      signals = record { kind = "depth_guard"; severity = warning } ∷ [];
      recommendations = tighten ∷ [];
    }
    else nothing

module _ {F : Type 0} ⦃fl : Float F⦄ where
  abbrev pub is_clean : StepOutcome F → HistoryView F → Bool
  is_clean outcome history =
      is_ok outcome
      && leb 3 history.success_streak
      && fl.le (fl.dec 5 1) history.budget_headroom_ratio

  -- Pattern 2
  abbrev pub clean_loosen : StepOutcome F → HistoryView F → Found
  clean_loosen outcome history =
      if is_clean outcome history
      then record {
        signals = record { kind = "clean_loosen"; severity = info } ∷ [];
        recommendations = loosen ∷ [];
      }
      else nothing

  abbrev pub is_cost_spike : StepOutcome F → HistoryView F → Bool
  is_cost_spike outcome history =
      leb 5 history.depth
      && fl.lt (fl.dec 1 12) history.cost_per_step_ema
      && fl.lt (fl.mul history.cost_per_step_ema (fl.dec 20 1)) outcome.cost_usd

  -- Pattern 4
  abbrev pub cost_acceleration : StepOutcome F → HistoryView F → Found
  cost_acceleration outcome history =
      if is_cost_spike outcome history
      then record {
        signals = record { kind = "cost_acceleration"; severity = warning } ∷ [];
        recommendations = tighten ∷ [];
      }
      else nothing

  abbrev pub is_loop : HistoryView F → Bool
  is_loop history = fl.le (fl.dec 7 1) history.loop_score

  -- Pattern 5
  abbrev pub loop_detection : HistoryView F → Found
  loop_detection history =
      if is_loop history
      then record {
        signals = record { kind = "loop_detection"; severity = warning } ∷ [];
        recommendations = tighten ∷ [];
      }
      else nothing

  abbrev pub is_slow : F → Option F → Bool
  is_slow elapsed none = false
  is_slow elapsed (some latency) =
      fl.lt (fl.dec 1 12) latency && fl.lt (fl.mul latency (fl.dec 30 1)) elapsed

  -- Pattern 6, which recommends nothing
  abbrev pub latency_anomaly : StepOutcome F → HistoryView F → Found
  latency_anomaly outcome history =
      if is_slow outcome.elapsed_ms (get (name_or "unknown" outcome.model) history.latency_ema_ms)
      then record {
        signals = record { kind = "latency_anomaly"; severity = info } ∷ [];
        recommendations = [];
      }
      else nothing

  abbrev pub patterns : StepOutcome F → HistoryView F → Found
  patterns outcome history =
      halt_tighten outcome.status
      and_then clean_loosen outcome history
      and_then depth_guard history.depth
      and_then cost_acceleration outcome history
      and_then loop_detection history
      and_then latency_anomaly outcome history

abbrev pub more_severe : Severity → Severity → Severity
more_severe a b = if ltb (severity_rank a) (severity_rank b) then b else a

-- max(severity ranks), at least that of the accumulator
unfoldable pub worst : Severity → List Signal → Severity
worst best [] = best
worst best (s ∷ signals) = worst (more_severe best s.severity) signals

abbrev pub risk_of : Severity → RiskLevel
risk_of info = nominal
risk_of warning = elevated
risk_of critical = critical_risk

-- the composed risk; a lack of signals is nominal, like a signal of the lowest severity
abbrev pub compose_risk : List Signal → RiskLevel
compose_risk [] = nominal
compose_risk (s ∷ signals) = risk_of (worst s.severity signals)

-- `max(recommendations, key=rank)` keeps the first of equal rank
unfoldable pub strongest : Recommendation → List Recommendation → Recommendation
strongest best [] = best
strongest best (r ∷ rs) =
    strongest (if ltb (recommendation_rank best) (recommendation_rank r) then r else best) rs

abbrev pub compose_recommendation : List Recommendation → Recommendation
compose_recommendation [] = continue
compose_recommendation (r ∷ rs) = strongest r rs

module _ {F : Type 0} ⦃fl : Float F⦄ where
  -- HistoryAnalyzer.analyze; the intent is not read
  unfoldable pub analyze : StepIntent → StepOutcome F → HistoryView F → AnalysisResult
  unfolding worst strongest
  analyze intent outcome history =
      let found = patterns outcome history in
      record {
        signals = found.signals;
        risk_level = compose_risk found.signals;
        recommendation = compose_recommendation found.recommendations;
      }
