-- ===== src/CostModels.antt =====
-- src/veronica/cost_model.py and regression_cost_model.py: what a step may cost, before it runs.
-- The engine's PRICING_TABLE and estimate_cost_usd are the argument `pricing`.
use veronica.Prelude.{ℕ, String, Bool, true, false, ◌==◌, Option, none, some, ltb, if◌then◌else◌}
use veronica.Prelude.Dict.{get}
use veronica.Prelude.Int.{ℤ, pos}
use veronica.Float.{Float}
use veronica.Types.{
  StepKind, tool, historical, pricing_table, fallback, StepIntent, HistoryView, CostEstimate,
}

pub record Pricing (F : Type 0) : Type 0 where
  pub lists : String → Bool
  pub estimate_cost_usd : String → ℤ → ℤ → F

abbrev pub is_tool : StepKind → Bool
is_tool tool = true
is_tool _ = false

-- `name or default`
abbrev pub name_or : String → Option String → String
name_or default none = default
name_or default (some name) = if name == "" then default else name

module _ {F : Type 0} ⦃fl : Float F⦄ where
  -- the estimate of both models for a tool
  abbrev pub tool_estimate : StepIntent → CostEstimate F
  tool_estimate intent = record {
    estimated_usd = fl.dec 0 0;
    confidence = fl.dec 1 0;
    model_used = name_or "tool" intent.tool_name;
    basis = pricing_table;
  }

pub record TableCostModel (F : Type 0) : Type 0 where
  pub default_tokens_in : ℤ
  pub default_tokens_out : ℤ
  pub fallback_cost_usd : F

module _ {F : Type 0} ⦃fl : Float F⦄ (pricing : Pricing F) where
  -- a model that the table lists
  abbrev known_model : Option String → Option String
  known_model none = none
  known_model (some model) = if pricing.lists model then some model else none

  -- TableCostModel.estimate
  unfoldable pub estimate : TableCostModel F → StepIntent → CostEstimate F
  estimate m intent =
      if is_tool intent.kind then tool_estimate intent else elim (known_model intent.model) [
        | none ↦ record {
          estimated_usd = m.fallback_cost_usd;
          confidence = fl.dec 3 1;
          model_used = name_or "unknown" intent.model;
          basis = fallback;
        }
        | some model ↦ record {
          estimated_usd = pricing.estimate_cost_usd model m.default_tokens_in m.default_tokens_out;
          confidence = fl.dec 7 1;
          model_used = model;
          basis = pricing_table;
        }
      ]

  -- _graduated_confidence
  abbrev pub graduated_confidence : ℕ → F
  graduated_confidence depth =
      if ltb depth 5 then fl.dec 60 2 else if ltb depth 20 then fl.dec 75 2 else fl.dec 85 2

  -- the average that is used: known, and above _EPS
  abbrev pub usable_average : Option F → Option F
  usable_average none = none
  usable_average (some ema) = if fl.lt (fl.dec 1 12) ema then some ema else none

  abbrev pub table_or_fallback : String → F
  table_or_fallback model =
      if pricing.lists model
      then pricing.estimate_cost_usd model (pos 500) (pos 200)
      else fl.dec 1 2

  -- RegressionCostModel.estimate
  unfoldable pub estimate_by_average : StepIntent → HistoryView F → CostEstimate F
  estimate_by_average intent history =
      let model_key = name_or "unknown" intent.model in
      if is_tool intent.kind
      then tool_estimate intent
      else elim (usable_average (get model_key history.cost_per_step_ema_by_model)) [
        | some ema ↦ record {
          estimated_usd = ema;
          confidence = graduated_confidence history.depth;
          model_used = model_key;
          basis = historical;
        }
        | none ↦ record {
          estimated_usd = table_or_fallback model_key;
          confidence = fl.dec 2 1;
          model_used = model_key;
          basis = pricing_table;
        }
      ]
