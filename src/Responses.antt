-- ===== src/Responses.antt =====
-- The response models of a policy: PolicyResponse of src/veronica/api/schemas.py and
-- EffectivePolicyResponse of src/veronica/api/routes/tenants.py. A response is the policy with its
-- integer fields read as integers. pydantic's reading of a float as an integer is the argument
-- `whole`; where it refuses one, the response raises a ValidationError that no handler catches. The
-- web framework's encoder refuses an infinity or a NaN with a ValueError.
use veronica.Prelude.{Bool, true, not, ◌&&◌, Option, none, some}
use veronica.Prelude.Int.{ℤ}
use veronica.Prelude.Result.{Result, ok, err, value_error, validation_error, raise_if, ◌>>=◌, ◌>>◌}
use veronica.Float.{Float}
use veronica.Types.{Number, int, float, boolean, PolicyConfig}
use veronica.Values.{of_bool}

module _ {F : Type 0} (whole : F → Option ℤ) where
  abbrev pub to_integer : Number F → Result (Number F)
  to_integer (int n) = ok (int n)
  to_integer (boolean b) = ok (int (of_bool b))
  to_integer (float x) = elim (whole x) [ none ↦ err validation_error | some n ↦ ok (int n) ]

  abbrev pub to_optional_integer : Option (Number F) → Result (Option (Number F))
  to_optional_integer none = ok none
  to_optional_integer (some n) = do i ← to_integer n; ok (some i)

module _ {F : Type 0} ⦃fl : Float F⦄ where
  abbrev pub encodable : Option F → Bool
  encodable none = true
  encodable (some x) = fl.is_finite x

  -- every float of the response is finite
  abbrev pub all_encodable : PolicyConfig F → Bool
  all_encodable p =
      fl.is_finite p.ceiling_usd
      && fl.is_finite p.issued_at
      && encodable p.rate_window_seconds
      && encodable p.deadline_ts
      && encodable p.expires_at

  -- the response of a policy whose `on_exceed` has been validated
  unfoldable pub policy_response : (F → Option ℤ) → PolicyConfig F → Result (PolicyConfig F)
  policy_response whole p = do
    tokens ← to_optional_integer whole p.ceiling_tokens_out
    timeout ← to_optional_integer whole p.timeout_ms
    priority ← to_integer whole p.priority
    raise_if (not (all_encodable p)) value_error
    ok (record p { ceiling_tokens_out = tokens; timeout_ms = timeout; priority = priority })
