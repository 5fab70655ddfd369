-- ===== src/OrgPolicy.antt =====
-- `OrgPolicy` of src/veronica/types.py: organisation-wide limits on what a planner may decide.
-- `str.casefold` is the argument `casefold`; nothing is assumed of it.
pub mod Limits
use veronica.Prelude.{
  String, Bool, true, false, not, ◌||◌, ◌==◌, Option, none, some, List, any, if◌then◌else◌,
}
use veronica.Prelude.Int.{ℤ, ltb_ℤ}
use veronica.Float.{Float}
use veronica.Types.{StepIntent, DesiredPolicy, or_default}

-- A frozenset is a list, of which only membership is read.
pub record OrgPolicy (F : Type 0) : Type 0 where
  pub max_ceiling_usd : Option F
  pub max_timeout_ms : Option ℤ
  pub blocked_models : List String
  pub blocked_tools : List String
  pub max_priority : Option ℤ

pub data Denial : Type 0 where
  model_blocked tool_blocked : String → Denial

module _ (casefold : String → String) where
  -- `name and name.casefold() in blocked_cf`, with blocked_cf the casefolded names
  unfoldable pub is_blocked : List String → Option String → Bool
  is_blocked blocked none = false
  is_blocked blocked (some name) =
      if name == "" then false else any (λ b. casefold b == casefold name) blocked

module _ {F : Type 0} (casefold : String → String) where
  -- OrgPolicy.validate
  unfoldable pub validate : OrgPolicy F → StepIntent → Option Denial
  validate org intent =
      if is_blocked casefold org.blocked_models intent.model
      then some (model_blocked (or_default intent.model ""))
      else if is_blocked casefold org.blocked_tools intent.tool_name
      then some (tool_blocked (or_default intent.tool_name ""))
      else none

module _ {F : Type 0} ⦃fl : Float F⦄ where
  unfoldable pub clamp_ceiling : Option F → F → F
  clamp_ceiling none ceiling = ceiling
  clamp_ceiling (some top) ceiling =
      if not (fl.is_finite ceiling) || fl.lt top ceiling then top else ceiling

unfoldable pub clamp_int : Option ℤ → ℤ → ℤ
clamp_int none n = n
clamp_int (some top) n = if ltb_ℤ top n then top else n

module _ {F : Type 0} ⦃fl : Float F⦄ (casefold : String → String) where
  -- OrgPolicy.clamp
  unfoldable pub clamp : OrgPolicy F → DesiredPolicy F → DesiredPolicy F
  clamp org desired = record desired {
    ceiling_usd = clamp_ceiling org.max_ceiling_usd desired.ceiling_usd;
    timeout_ms = clamp_int org.max_timeout_ms desired.timeout_ms;
    priority = clamp_int org.max_priority desired.priority;
    fallback_model =
        if is_blocked casefold org.blocked_models desired.fallback_model
        then none
        else desired.fallback_model;
  }
