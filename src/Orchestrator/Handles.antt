-- ===== src/Orchestrator/Handles.antt =====
-- The handles, the policies and the events that `before_step` makes of its own, without its stages.
use veronica.Prelude.{String, true, Option, none, some, [], ◌∷◌}
use veronica.Prelude.Int.{pos}
use veronica.Float.{Float, fmin}
use veronica.Types.{
  RiskLevel, nominal, critical_risk, Recommendation, continue, halt, fallback, int, StepIntent,
  AnalysisResult, CostEstimate, DesiredPolicy, PolicyConfig,
}
use veronica.OrgPolicy.{Denial}
use veronica.CostModels.{name_or}
use veronica.Orchestrator.{StepHandle, StepDenied}

module _ {F : Type 0} ⦃fl : Float F⦄ where
  -- a PolicyConfig of which the code gives four fields; the others have their defaults
  abbrev pub bare_policy : String → F → F → PolicyConfig F
  bare_policy chain_id ceiling_usd now = record {
    chain_id = chain_id;
    ceiling_usd = ceiling_usd;
    on_exceed = "halt";
    issued_at = now;
    ceiling_tokens_out = none;
    ceiling_steps = none;
    fallback_model = none;
    timeout_ms = none;
    rate_window_seconds = none;
    rate_ceiling_calls = none;
    priority = int (pos 50);
    deadline_ts = none;
    expires_at = none;
    planner_version = none;
  }

  -- the handle of a step that the organisation denies
  abbrev pub denied_handle : StepIntent → Denial → F → StepHandle F
  denied_handle intent denial now = record {
    intent = intent;
    policy = bare_policy intent.chain_id (fl.dec 0 0) now;
    desired = record {
      chain_id = intent.chain_id;
      ceiling_usd = fl.dec 0 0;
      ceiling_steps = pos 0;
      ceiling_tokens_out = pos 0;
      on_exceed = "halt";
      fallback_model = none;
      timeout_ms = intent.timeout_ms;
      priority = pos 0;
    };
    cost = record {
      estimated_usd = fl.dec 0 0;
      confidence = fl.dec 1 0;
      model_used = name_or "unknown" intent.model;
      basis = fallback;
    };
    decision_meta = record {
      risk_level = critical_risk;
      recommendation = halt;
      degraded = true;
      stage_time_ms = ("org_policy", fl.dec 0 0) ∷ [];
      org_denial = some denial;
    };
  }

  abbrev pub fallback_cost : CostEstimate F
  fallback_cost = record {
    estimated_usd = fl.dec 1 2;
    confidence = fl.dec 1 1;
    model_used = "fallback";
    basis = fallback;
  }

  abbrev pub fallback_desired : StepIntent → F → DesiredPolicy F
  fallback_desired intent remaining = record {
    chain_id = intent.chain_id;
    ceiling_usd = fmin (fl.dec 1 0) remaining;
    ceiling_steps = pos 100;
    ceiling_tokens_out = pos 50000;
    on_exceed = "halt";
    fallback_model = none;
    timeout_ms = intent.timeout_ms;
    priority = pos 50;
  }

abbrev pub risk_or_nominal : Option AnalysisResult → RiskLevel
risk_or_nominal none = nominal
risk_or_nominal (some analysis) = analysis.risk_level

abbrev pub recommendation_or_continue : Option AnalysisResult → Recommendation
recommendation_or_continue none = continue
recommendation_or_continue (some analysis) = analysis.recommendation

abbrev pub denial_event : StepIntent → Denial → StepDenied
denial_event intent denial = record {
  request_id = intent.request_id;
  step_id = intent.step_id;
  chain_id = intent.chain_id;
  kind = intent.kind;
  reason = denial;
  model = intent.model;
  tool_name = intent.tool_name;
}
