-- ===== src/OrgPolicy/Limits.antt =====
-- What `clamp` and `validate` of `OrgPolicy` guarantee.
use veronica.Prelude.{String, ◌≡◌, refl, ◌↔◌, false, Option, none, some, arith}
use veronica.Prelude.Int.{ℤ, ◌≤ℤ◌}
use veronica.Float.{Float, FloatLaws}
use veronica.Types.{StepIntent, DesiredPolicy}
use veronica.OrgPolicy.{OrgPolicy, is_blocked, validate, clamp_ceiling, clamp_int, clamp}

abbrev pub AtMostInt : Option ℤ → ℤ → Type 0
AtMostInt none n = Unit
AtMostInt (some top) n = n ≤ℤ top

module _ {F : Type 0} ⦃fl : Float F⦄ where
  abbrev pub AtMost : Option F → F → Type 0
  AtMost none x = Unit
  AtMost (some top) x = fl.lt top x ≡ false

  -- A desire within the organisation's limits.
  pub record IsWithin (casefold : String → String) (org : OrgPolicy F) (d : DesiredPolicy F)
      : Type 0 where
    pub ceiling : AtMost org.max_ceiling_usd d.ceiling_usd
    pub timeout : AtMostInt org.max_timeout_ms d.timeout_ms
    pub priority : AtMostInt org.max_priority d.priority
    pub model : is_blocked casefold org.blocked_models d.fallback_model ≡ false

clamp_int-AtMostInt : (top : Option ℤ) (n : ℤ) → AtMostInt top (clamp_int top n)
unfolding clamp_int
clamp_int-AtMostInt none n = tt
clamp_int-AtMostInt (some top) n = ground arith

clamp_int_idem : (top : Option ℤ) (n : ℤ) → clamp_int top (clamp_int top n) ≡ clamp_int top n
unfolding clamp_int
clamp_int_idem none n = refl
clamp_int_idem (some top) n = ground arith

module _ {F : Type 0} ⦃fl : Float F⦄ ⦃laws : FloatLaws F⦄ where
  clamp_ceiling-AtMost : (top : Option F) (x : F) → AtMost top (clamp_ceiling top x)
  unfolding clamp_ceiling
  clamp_ceiling-AtMost none x = tt
  clamp_ceiling-AtMost (some top) x = ground (arith, laws.lt_irrefl top)

  clamp_ceiling_idem :
      (top : Option F) (x : F) → clamp_ceiling top (clamp_ceiling top x) ≡ clamp_ceiling top x
  unfolding clamp_ceiling
  clamp_ceiling_idem none x = refl
  clamp_ceiling_idem (some top) x = ground (arith, laws.lt_irrefl top)

module _ (casefold : String → String) {F : Type 0} ⦃fl : Float F⦄ ⦃laws : FloatLaws F⦄ where
  -- Whatever the planner asks for, infinite and NaN ceilings included, the clamped desire is
  -- within every limit that the organisation sets.
  pub clamp-IsWithin :
      (org : OrgPolicy F) (d : DesiredPolicy F) → IsWithin casefold org (clamp casefold org d)
  unfolding clamp is_blocked
  clamp-IsWithin org d = record {
    ceiling = clamp_ceiling-AtMost org.max_ceiling_usd d.ceiling_usd;
    timeout = clamp_int-AtMostInt org.max_timeout_ms d.timeout_ms;
    priority = clamp_int-AtMostInt org.max_priority d.priority;
    model = ground arith;
  }

  -- Clamping twice is clamping once.
  pub clamp_idem :
      (org : OrgPolicy F) (d : DesiredPolicy F)
      → clamp casefold org (clamp casefold org d) ≡ clamp casefold org d
  unfolding clamp is_blocked
  clamp_idem org d = ground (
    arith,
    clamp_ceiling_idem org.max_ceiling_usd d.ceiling_usd,
    clamp_int_idem org.max_timeout_ms d.timeout_ms,
    clamp_int_idem org.max_priority d.priority,
  )

  -- An intent passes exactly when neither its model nor its tool is blocked.
  pub validate-eq-none :
      (org : OrgPolicy F) (intent : StepIntent)
      → (validate casefold org intent ≡ none)
        ↔ (is_blocked casefold org.blocked_models intent.model ≡ false)
          × (is_blocked casefold org.blocked_tools intent.tool_name ≡ false)
  unfolding validate
  validate-eq-none org intent = (λ h. ground arith, λ h. ground arith)
