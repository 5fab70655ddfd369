-- ===== src/Distributor/Checks.antt =====
-- What `validate` of src/veronica/distribution/policy_distributor.py raises.
use veronica.Prelude.{
  is_some, ◌&&◌, ◌||◌, not, Option, none, Bool-cases, ◌≡◌, refl, ◌⊎◌, inl, inr, Bool, true, false,
  some, arith,
}
use veronica.Prelude.Int.{pos, ltb_ℤ}
use veronica.Prelude.Result.{Result, ok, err, policy_validation, overflow_error, raise_if, ◌>>◌}
use veronica.Float.{Float, fits_float}
use veronica.Types.{Number, number_negative, is_proper_int, int, float, boolean, PolicyConfig}
use veronica.Distributor.{Distributor, holds, allowed_on_exceed, check_given, validate}
use veronica.Distributor.Validation.{IsTooLarge}

-- A check passes, or raises PolicyValidationError, or OverflowError for a reason.
abbrev pub Checked : Type 0 → Result (Unit {0}) → Type 0
Checked R r = (r ≡ ok tt) ⊎ ((r ≡ err policy_validation) ⊎ (R × (r ≡ err overflow_error)))

both-Checked :
    {R : Type 0} {r next : Result (Unit {0})} → Checked R r → Checked R next → Checked R (r >> next)
both-Checked (inr (inl e)) k = inr (inl (ground arith))
both-Checked (inr (inr (reason, e))) k = inr (inr (reason, ground arith))
both-Checked (inl e) (inl k) = inl (ground arith)
both-Checked (inl e) (inr (inl k)) = inr (inl (ground arith))
both-Checked (inl e) (inr (inr (reason, k))) = inr (inr (reason, ground arith))

raise_if-Checked : {R : Type 0} (b : Bool) → Checked R (raise_if b policy_validation)
raise_if-Checked true = inr (inl refl)
raise_if-Checked false = inl refl

module _ {F : Type 0} ⦃fl : Float F⦄ where
  check_given-Checked :
      {R : Type 0} (o : Option (Number F)) → (IsTooLarge o → R) → Checked R (check_given o)
  check_given-Checked none h = inl refl
  check_given-Checked (some (float x)) h = raise_if-Checked (not (fl.is_finite x))
  check_given-Checked (some (boolean b)) h = inl refl
  check_given-Checked (some (int n)) h = elim (Bool-cases (fits_float n)) [
    | inl fits ↦ inl (rw fits)
    | inr large ↦ inr (inr (h large, rw large))
  ]

  -- `validate` passes, or raises PolicyValidationError, or OverflowError for a limit that is too
  -- large.
  pub validate_cases :
      (d : Distributor) (p : PolicyConfig F)
      → Checked (IsTooLarge p.ceiling_tokens_out ⊎ IsTooLarge p.timeout_ms) (validate d p)
  unfolding validate
  validate_cases d p =
      let raise = λ (b : Bool).
        raise_if-Checked {R = IsTooLarge p.ceiling_tokens_out ⊎ IsTooLarge p.timeout_ms} b in
      both-Checked (raise (not (fl.is_finite p.ceiling_usd))) (
        both-Checked (raise (fl.lt p.ceiling_usd (fl.dec 0 0))) (
          both-Checked (raise (not (allowed_on_exceed p.on_exceed))) (
            both-Checked (raise (holds (λ n. ltb_ℤ n (pos 0)) p.ceiling_steps)) (
              both-Checked (check_given-Checked p.ceiling_tokens_out (λ h. inl h)) (
                both-Checked (raise (holds number_negative p.ceiling_tokens_out)) (
                  both-Checked (check_given-Checked p.timeout_ms (λ h. inr h)) (
                    both-Checked (raise (holds number_negative p.timeout_ms)) (
                      both-Checked (raise (not (is_proper_int p.priority))) (
                        raise (
                          d.strict
                          && (not (is_some p.ceiling_steps)
                              || not (is_some p.ceiling_tokens_out)
                              || not (is_some p.timeout_ms))))))))))))
