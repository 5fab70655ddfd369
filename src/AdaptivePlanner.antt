-- ===== src/AdaptivePlanner.antt =====
-- src/veronica/adaptive_planner.py: a ceiling that is tightened by the class of the error, with a
-- pause of three plans after every change. Every access to `_cooldowns` uses the key "".
pub mod Cooldown
pub mod Factors
use veronica.Prelude.{
  ℕ, ◌-◌, String, Bool, true, false, ◌==◌, ◌&&◌, Option, none, some, List, [], ◌∷◌, any, eqb,
  is_some, if◌then◌else◌,
}
use veronica.Prelude.Int.{ℤ, pos, ltb_ℤ}
use veronica.Prelude.Dict.{Dict, get, put}
use veronica.Float.{Float, fmin, fmax}
use veronica.Types.{
  Severity, critical, Recommendation, tighten, loosen, halt, Signal, AnalysisResult, CostEstimate,
  BudgetState, DesiredPolicy, or_default,
}

pub record AdaptivePlanner (F : Type 0) : Type 0 where
  pub max_ceiling_usd : F
  pub min_ceiling_usd : F
  pub timeout_ms : ℤ
  pub default_on_exceed : String
  pub fallback_model : Option String
  pub effective_ceiling : F
  pub cooldowns : Dict ℕ

abbrev pub cooldown_steps : ℕ
cooldown_steps = 3

abbrev pub is_critical : Signal → Bool
is_critical s = elim s.severity [ critical ↦ true | _ ↦ false ]

-- the first "halt_tighten" signal
abbrev pub find_halt_tighten : List Signal → Option Signal
find_halt_tighten [] = none
find_halt_tighten (s ∷ signals) =
    let rest = find_halt_tighten signals in if s.kind == "halt_tighten" then some s else rest

abbrev min_ℤ : ℤ → ℤ → ℤ
min_ℤ a b = if ltb_ℤ b a then b else a

-- "halt" was the recommendation
abbrev pub on_exceed_for : Option AnalysisResult → String → String
on_exceed_for none default = default
on_exceed_for (some analysis) default = elim analysis.recommendation [ halt ↦ "halt" | _ ↦ default ]

module _ {F : Type 0} ⦃fl : Float F⦄ where
  -- the factor when there is no "halt_tighten" signal
  abbrev pub severity_factor : List Signal → F
  severity_factor [] = fl.dec 90 2
  severity_factor (s ∷ signals) = if any is_critical (s ∷ signals) then fl.dec 50 2 else fl.dec 85 2

  -- AdaptivePlanner._tighten_factor
  unfoldable pub tighten_factor : AnalysisResult → F
  tighten_factor analysis = elim (find_halt_tighten analysis.signals) [
    | none ↦ severity_factor analysis.signals
    | some s ↦ if is_critical s then fl.dec 50 2 else fl.dec 85 2
  ]

  -- the factor that an analysis asks for, if it asks for one
  abbrev pub factor_for : Option AnalysisResult → Option F
  factor_for none = none
  factor_for (some analysis) = elim analysis.recommendation [
    | tighten ↦ some (tighten_factor analysis)
    | loosen ↦ some (fl.dec 103 2)
    | _ ↦ none
  ]

  -- AdaptivePlanner.__init__
  abbrev pub new_planner : F → F → F → ℤ → String → Option String → AdaptivePlanner F
  new_planner base max min timeout on_exceed fallback = record {
    max_ceiling_usd = max;
    min_ceiling_usd = min;
    timeout_ms = timeout;
    default_on_exceed = on_exceed;
    fallback_model = fallback;
    effective_ceiling = base;
    cooldowns = [];
  }

  abbrev pub cooldown : AdaptivePlanner F → ℕ
  cooldown p = or_default (get "" p.cooldowns) 0

  -- the factor that is applied: none during a cooldown
  abbrev pub adjustment : AdaptivePlanner F → Option AnalysisResult → Option F
  adjustment p analysis = if eqb (cooldown p) 0 then factor_for analysis else none

  abbrev pub scaled : F → Option F → F
  scaled ceiling none = ceiling
  scaled ceiling (some factor) = fl.mul ceiling factor

  -- the guard on the estimated cost, and the two clamps
  abbrev pub clamp_ceiling : AdaptivePlanner F → CostEstimate F → BudgetState F → F → F
  clamp_ceiling p cost budget ceiling =
      let guarded = fmax ceiling (fl.mul cost.estimated_usd (fl.dec 15 1)) in
      fmin (fmax p.min_ceiling_usd (fmin p.max_ceiling_usd guarded)) budget.chain_remaining_usd

  -- AdaptivePlanner.plan
  unfoldable pub plan :
      AdaptivePlanner F
      → Option AnalysisResult
      → CostEstimate F
      → BudgetState F
      → AdaptivePlanner F × DesiredPolicy F
  plan p analysis cost budget =
      let adjusted = adjustment p analysis in
      let ceiling = clamp_ceiling p cost budget (scaled p.effective_ceiling adjusted) in
      (
        record p {
          effective_ceiling = ceiling;
          cooldowns =
              put "" (if is_some adjusted then cooldown_steps else cooldown p - 1) p.cooldowns;
        },
        record {
          chain_id = "";
          ceiling_usd = ceiling;
          ceiling_steps = min_ℤ (pos 100) budget.window_remaining_steps;
          ceiling_tokens_out = pos 50000;
          on_exceed = on_exceed_for analysis p.default_on_exceed;
          fallback_model = p.fallback_model;
          timeout_ms = p.timeout_ms;
          priority = pos 50;
        },
      )
