-- ===== src/Types.antt =====
-- The data types of src/veronica/types.py, generic in the type `F` of floats.
-- `StepOutcome.events` is carried along and never read by the code modelled here, so it is left
-- out; `metadata` maps names to the text of their values.
use veronica.Prelude.{
  ℕ, String, Bool, true, false, not, ◌||◌, Option, none, some, List, if◌then◌else◌,
}
use veronica.Prelude.Int.{ℤ, pos, ltb_ℤ}
use veronica.Prelude.Result.{Result, Exn, ok, err, value_error, overflow_error, raise_if}
use veronica.Prelude.Dict.{Dict}
use veronica.Float.{Float, fits_float}

-- A Python number; `bool` is a subclass of `int`.
pub data Number (F : Type 0) : Type 0 where
  int : ℤ → Number F
  float : F → Number F
  boolean : Bool → Number F

module _ {F : Type 0} ⦃fl : Float F⦄ where
  -- math.isfinite(n), where it returns True; of an integer it is True or raises OverflowError
  abbrev pub number_finite : Number F → Bool
  number_finite (int n) = fits_float n
  number_finite (float x) = fl.is_finite x
  number_finite (boolean b) = true

  -- `if not math.isfinite(n): raise e`
  abbrev pub check_finite : Number F → Exn → Result (Unit {0})
  check_finite (int n) e = raise_if (not (fits_float n)) overflow_error
  check_finite (float x) e = raise_if (not (fl.is_finite x)) e
  check_finite (boolean b) e = ok tt

  -- n < 0
  abbrev pub number_negative : Number F → Bool
  number_negative (int n) = ltb_ℤ n (pos 0)
  number_negative (float x) = fl.lt x (fl.dec 0 0)
  number_negative (boolean b) = false

-- isinstance(n, int) and not isinstance(n, bool)
abbrev pub is_proper_int : {F : Type 0} → Number F → Bool
is_proper_int (int n) = true
is_proper_int (float x) = false
is_proper_int (boolean b) = false

pub data StepKind : Type 0 where
  llm tool system : StepKind

pub data Status : Type 0 where
  ok_status halted error timeout : Status

pub data Severity : Type 0 where
  info warning critical : Severity

pub data RiskLevel : Type 0 where
  nominal elevated critical_risk : RiskLevel

pub data Recommendation : Type 0 where
  continue tighten loosen halt : Recommendation

pub data Basis : Type 0 where
  historical pricing_table fallback : Basis

pub record StepIntent : Type 0 where
  pub step_id : String
  pub request_id : String
  pub chain_id : String
  pub kind : StepKind
  pub model : Option String
  pub tool_name : Option String
  pub timeout_ms : ℤ
  pub metadata : Dict String

pub record StepOutcome (F : Type 0) : Type 0 where
  pub step_id : String
  pub request_id : String
  pub chain_id : String
  pub kind : StepKind
  pub status : Status
  pub cost_usd : F
  pub tokens_in : ℕ
  pub tokens_out : ℕ
  pub elapsed_ms : F
  pub model : Option String
  pub timestamp_ms : ℕ

pub record HistoryView (F : Type 0) : Type 0 where
  pub chain_id : String
  pub last_n : List (StepOutcome F)
  pub rolling_cost_usd : F
  pub failure_streak : ℕ
  pub depth : ℕ
  pub loop_score : F
  pub success_streak : ℕ
  pub cost_per_step_ema : F
  pub cost_per_step_ema_by_model : Dict F
  pub latency_ema_ms : Dict F
  pub budget_headroom_ratio : F

-- The text of `detail` is left out.
pub record Signal : Type 0 where
  pub kind : String
  pub severity : Severity

pub record AnalysisResult : Type 0 where
  pub signals : List Signal
  pub risk_level : RiskLevel
  pub recommendation : Recommendation

pub record CostEstimate (F : Type 0) : Type 0 where
  pub estimated_usd : F
  pub confidence : F
  pub model_used : String
  pub basis : Basis

pub record BudgetState (F : Type 0) : Type 0 where
  pub request_remaining_usd : F
  pub chain_remaining_usd : F
  pub window_remaining_steps : ℤ

pub record DesiredPolicy (F : Type 0) : Type 0 where
  pub chain_id : String
  pub ceiling_usd : F
  pub ceiling_steps : ℤ
  pub ceiling_tokens_out : ℤ
  pub on_exceed : String
  pub fallback_model : Option String
  pub timeout_ms : ℤ
  pub priority : ℤ

pub record PolicyConfig (F : Type 0) : Type 0 where
  pub chain_id : String
  pub ceiling_usd : F
  pub on_exceed : String
  pub issued_at : F
  pub ceiling_tokens_out : Option (Number F)
  pub ceiling_steps : Option ℤ
  pub fallback_model : Option String
  pub timeout_ms : Option (Number F)
  pub rate_window_seconds : Option F
  pub rate_ceiling_calls : Option ℤ
  pub priority : Number F
  pub deadline_ts : Option F
  pub expires_at : Option F
  pub planner_version : Option String

-- The arguments with which `to_exec_config` calls the engine's `ExecutionConfig`.
pub record ExecutionConfig (F : Type 0) : Type 0 where
  pub max_cost_usd : F
  pub max_steps : ℤ
  pub max_retries_total : ℕ
  pub timeout_ms : Number F

abbrev pub or_default {ℓ} : {A : Type ℓ} → Option A → A → A
or_default none d = d
or_default (some a) d = a

module _ {F : Type 0} where
  abbrev pub exec_config_of : PolicyConfig F → ExecutionConfig F
  exec_config_of policy = record {
    max_cost_usd = policy.ceiling_usd;
    max_steps = or_default policy.ceiling_steps (pos 100);
    max_retries_total = 10;
    timeout_ms = or_default policy.timeout_ms (int (pos 0));
  }

module _ {F : Type 0} ⦃fl : Float F⦄ where
  -- PolicyConfig.to_exec_config
  unfoldable pub to_exec_config : PolicyConfig F → Result (ExecutionConfig F)
  to_exec_config policy =
      if not (fl.is_finite policy.ceiling_usd) || fl.lt policy.ceiling_usd (fl.dec 0 0)
      then err value_error
      else ok (exec_config_of policy)
