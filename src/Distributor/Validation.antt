-- ===== src/Distributor/Validation.antt =====
-- What a policy that passes `validate` is, and that such a policy is always distributed.
use veronica.Prelude.{
  ◌&&◌, ◌||◌, refl, is_some, ◌≡◌, ◌≢◌, ◌↔◌, Bool, true, false, Option, none, some, not, arith,
}
use veronica.Prelude.Int.{ℤ, pos, ◌≤ℤ◌, ltb_ℤ}
use veronica.Prelude.Result.{
  ok, err, overflow_error, raise_if, policy_validation, raise_if-eq-ok, Result, ◌>>◌,
}
use veronica.Float.{Float, fits_float}
use veronica.Types.{int, Number, PolicyConfig, number_finite, number_negative, is_proper_int}
use veronica.Distributor.{Distributor, validate, check_given, allowed_on_exceed, holds}

abbrev pub NonNegative : Option ℤ → Type 0
NonNegative none = Unit
NonNegative (some n) = pos 0 ≤ℤ n

NonNegative-test : (o : Option ℤ) → holds (λ n. ltb_ℤ n (pos 0)) o ≡ false → NonNegative o
NonNegative-test none h = tt
NonNegative-test (some n) h = ground arith

NonNegative-given : (o : Option ℤ) → NonNegative o → holds (λ n. ltb_ℤ n (pos 0)) o ≡ false
NonNegative-given none h = refl
NonNegative-given (some n) h = ground arith

-- Both parts of a chain that succeeds.
both_ok : (r next : Result (Unit {0})) → (r >> next) ≡ ok tt → (r ≡ ok tt) × (next ≡ ok tt)
both_ok r next h = ground arith

not-false : (b : Bool) → not b ≡ false → b ≡ true
not-false true h = refl
not-false false h = cc

module _ {F : Type 0} ⦃fl : Float F⦄ where
  -- A limit that is absent, or finite and not negative.
  abbrev pub Bounded : Option (Number F) → Type 0
  Bounded none = Unit
  Bounded (some n) = (number_finite n ≡ true) × (number_negative n ≡ false)

  -- A limit is an integer that is too large for a float.
  abbrev pub IsTooLarge : Option (Number F) → Type 0
  IsTooLarge none = ⊥
  IsTooLarge (some (int n)) = fits_float n ≡ false
  IsTooLarge (some _) = ⊥

  -- in strict mode no limit may be absent
  abbrev pub IsComplete : Bool → PolicyConfig F → Type 0
  IsComplete false p = Unit
  IsComplete true p =
      (p.ceiling_steps ≢ none) × (p.ceiling_tokens_out ≢ none) × (p.timeout_ms ≢ none)

  -- The policies that the executor can enforce.
  pub record IsAdmissible (strict : Bool) (p : PolicyConfig F) : Type 0 where
    pub finite : fl.is_finite p.ceiling_usd ≡ true
    pub nonneg : fl.lt p.ceiling_usd (fl.dec 0 0) ≡ false
    pub on_exceed : allowed_on_exceed p.on_exceed ≡ true
    pub steps : NonNegative p.ceiling_steps
    pub tokens : Bounded p.ceiling_tokens_out
    pub timeout : Bounded p.timeout_ms
    pub priority : is_proper_int p.priority ≡ true
    pub complete : IsComplete strict p

  Bounded-test :
      (o : Option (Number F)) → check_given o ≡ ok tt → holds number_negative o ≡ false → Bounded o
  Bounded-test none h k = tt
  Bounded-test (some n) h k = ground arith

  Bounded-given :
      (o : Option (Number F))
      → Bounded o
      → (check_given o ≡ ok tt) × (holds number_negative o ≡ false)
  Bounded-given none h = (refl, refl)
  Bounded-given (some n) h = (ground arith, h.1)

  IsComplete-given :
      (strict : Bool) (p : PolicyConfig F)
      → IsComplete strict p
      → (strict
          && (not (is_some p.ceiling_steps)
              || not (is_some p.ceiling_tokens_out)
              || not (is_some p.timeout_ms)))
        ≡ false
  IsComplete-given false p h = refl
  IsComplete-given true p h = ground arith

  IsComplete-test :
      (strict : Bool) (p : PolicyConfig F)
      → raise_if
          (strict
            && (not (is_some p.ceiling_steps)
                || not (is_some p.ceiling_tokens_out)
                || not (is_some p.timeout_ms)))
          policy_validation
        ≡ ok tt
      → IsComplete strict p
  IsComplete-test false p h = tt
  IsComplete-test true p h = ground arith

  IsAdmissible-validate :
      (d : Distributor) (p : PolicyConfig F) → IsAdmissible d.strict p → validate d p ≡ ok tt
  unfolding validate
  IsAdmissible-validate d p h =
      let (tokens, tokens') = Bounded-given p.ceiling_tokens_out h.tokens in
      let (timeout, timeout') = Bounded-given p.timeout_ms h.timeout in
      rw (
        h.finite,
        h.nonneg,
        h.on_exceed,
        NonNegative-given p.ceiling_steps h.steps,
        tokens,
        tokens',
        timeout,
        timeout',
        h.priority,
        IsComplete-given d.strict p h.complete,
      )

  -- `validate` accepts exactly the admissible policies.
  pub validate-IsAdmissible :
      (d : Distributor) (p : PolicyConfig F) → (validate d p ≡ ok tt) ↔ IsAdmissible d.strict p
  unfolding validate
  validate-IsAdmissible d p = (
    λ h.
        let (finite, h) = raise_if-eq-ok _ policy_validation _ h in
        let (nonneg, h) = raise_if-eq-ok _ policy_validation _ h in
        let (on_exceed, h) = raise_if-eq-ok _ policy_validation _ h in
        let (steps, h) = raise_if-eq-ok _ policy_validation _ h in
        let (tokens, h) = both_ok (check_given p.ceiling_tokens_out) _ h in
        let (tokens', h) = raise_if-eq-ok _ policy_validation _ h in
        let (timeout, h) = both_ok (check_given p.timeout_ms) _ h in
        let (timeout', h) = raise_if-eq-ok _ policy_validation _ h in
        let (priority, h) = raise_if-eq-ok _ policy_validation _ h in
        record {
          finite = not-false _ finite;
          nonneg = nonneg;
          on_exceed = not-false _ on_exceed;
          steps = NonNegative-test p.ceiling_steps steps;
          tokens = Bounded-test p.ceiling_tokens_out tokens tokens';
          timeout = Bounded-test p.timeout_ms timeout timeout';
          priority = not-false _ priority;
          complete = IsComplete-test d.strict p h;
        },
    IsAdmissible-validate d p,
  )

  given-IsTooLarge : (o : Option (Number F)) → IsTooLarge o → check_given o ≡ err overflow_error
  given-IsTooLarge none h = absurd h
  given-IsTooLarge (some (int n)) h = ground arith
  given-IsTooLarge (some (Number.float x)) h = absurd h
  given-IsTooLarge (some (Number.boolean b)) h = absurd h

  -- An integer that is too large, where the tests before it pass, makes `validate` raise
  -- OverflowError.
  pub IsTooLarge-validate :
      (d : Distributor) (p : PolicyConfig F)
      → fl.is_finite p.ceiling_usd ≡ true
      → fl.lt p.ceiling_usd (fl.dec 0 0) ≡ false
      → allowed_on_exceed p.on_exceed ≡ true
      → NonNegative p.ceiling_steps
      → IsTooLarge p.ceiling_tokens_out
      → validate d p ≡ err overflow_error
  unfolding validate
  IsTooLarge-validate d p finite nonneg on_exceed steps large = rw (
    finite,
    nonneg,
    on_exceed,
    NonNegative-given p.ceiling_steps steps,
    given-IsTooLarge p.ceiling_tokens_out large,
  )
