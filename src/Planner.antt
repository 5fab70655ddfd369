-- ===== src/Planner.antt =====
-- src/veronica/planner.py: a ceiling that drifts with the analyzer's recommendations.
pub mod Bounds
use veronica.Prelude.{String, Option, none, some}
use veronica.Prelude.Int.{ℤ, pos, ltb_ℤ}
use veronica.Prelude.{if◌then◌else◌}
use veronica.Float.{Float, fmin, fmax}
use veronica.Types.{
  Recommendation, tighten, loosen, halt, AnalysisResult, CostEstimate, BudgetState, DesiredPolicy,
}

pub record Planner (F : Type 0) : Type 0 where
  pub max_ceiling_usd : F
  pub min_ceiling_usd : F
  pub timeout_ms : ℤ
  pub default_on_exceed : String
  pub fallback_model : Option String
  pub effective_ceiling : F

abbrev min_ℤ : ℤ → ℤ → ℤ
min_ℤ a b = if ltb_ℤ b a then b else a

abbrev pub on_exceed_for : Option AnalysisResult → String → String
on_exceed_for none default = default
on_exceed_for (some analysis) default = elim analysis.recommendation [ halt ↦ "halt" | _ ↦ default ]

module _ {F : Type 0} ⦃fl : Float F⦄ where
  -- SimplePlanner.__init__
  abbrev pub new_planner : F → F → F → ℤ → String → Option String → Planner F
  new_planner base max min timeout on_exceed fallback = record {
    max_ceiling_usd = max;
    min_ceiling_usd = min;
    timeout_ms = timeout;
    default_on_exceed = on_exceed;
    fallback_model = fallback;
    effective_ceiling = base;
  }

  abbrev pub adjust : Option AnalysisResult → F → F
  adjust none ceiling = ceiling
  adjust (some analysis) ceiling = elim analysis.recommendation [
    | tighten ↦ fl.mul ceiling (fl.dec 90 2)
    | loosen ↦ fl.mul ceiling (fl.dec 105 2)
    | _ ↦ ceiling
  ]

  -- the ceiling of a plan
  abbrev pub planned_ceiling : Planner F → Option AnalysisResult → BudgetState F → F
  planned_ceiling p analysis budget =
      fmin (fmax p.min_ceiling_usd (fmin p.max_ceiling_usd (adjust analysis p.effective_ceiling)))
        budget.chain_remaining_usd

  -- SimplePlanner.plan; the cost estimate is not read
  unfoldable pub plan :
      Planner F
      → Option AnalysisResult
      → CostEstimate F
      → BudgetState F
      → Planner F × DesiredPolicy F
  plan p analysis cost budget =
      let ceiling = planned_ceiling p analysis budget in
      (
        record p { effective_ceiling = ceiling },
        record {
          chain_id = "";
          ceiling_usd = ceiling;
          ceiling_steps = min_ℤ (pos 100) budget.window_remaining_steps;
          ceiling_tokens_out = pos 50000;
          on_exceed = on_exceed_for analysis p.default_on_exceed;
          fallback_model = p.fallback_model;
          timeout_ms = p.timeout_ms;
          priority = pos 50;
        },
      )
