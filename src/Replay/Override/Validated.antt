-- ===== src/Replay/Override/Validated.antt =====
-- What the validation makes of a policy that was built from an override.
use veronica.Prelude.{
  ◌≡◌, refl, sym, subst, ◌⊎◌, inl, inr, Bool-cases, String, true, false, Option, none, some, arith,
}
use veronica.Prelude.Int.{ℤ}
use veronica.Prelude.Result.{
  Result, ok, err, value_error, overflow_error, raise_if, >>=-eq-ok, >>-eq-ok, ok-injective,
}
use veronica.Prelude.Dict.{Dict, get}
use veronica.Float.{Float, fits_float}
use veronica.Types.{PolicyConfig}
use veronica.Distributor.{Distributor, validate, allowed_on_exceed}
use veronica.Distributor.Validation.{
  IsAdmissible, NonNegative, Bounded, IsTooLarge, IsTooLarge-validate, validate-IsAdmissible,
}
use veronica.Values.{Value, Conversions, null, boolean, int, float, text, other, to_float}
use veronica.Replay.Override.{
  check_on_exceed, to_limit, read_chain_id, finite_nonneg, read_number, read_ceiling, is_no_number,
  read_on_exceed, read_limit, present, read_timeout, read_priority, read_issued_at, to_timeout,
  build_override_policy,
}

check_on_exceed-allowed :
    (s : String) {t : String} → check_on_exceed s ≡ ok t → allowed_on_exceed t ≡ true
check_on_exceed-allowed s h = ground arith

-- A limit that is not negative can be tested, unless it is too large for a float.
to_limit-cases :
    {F : Type 0} (fl : Float F) (l : Option ℤ)
    → NonNegative l
    → Bounded ⦃fl = fl⦄ (to_limit l) ⊎ IsTooLarge ⦃fl = fl⦄ (to_limit l)
to_limit-cases fl none h = inl tt
to_limit-cases fl (some n) h = elim (Bool-cases (fits_float n)) [
  | inl fits ↦ inl (fits, ground arith)
  | inr large ↦ inr large
]

module _ {F : Type 0} ⦃fl : Float F⦄ ⦃conv : Conversions F⦄ where
  read_on_exceed-allowed :
      (o : Option (Value F)) {t : String} → read_on_exceed o ≡ ok t → allowed_on_exceed t ≡ true
  read_on_exceed-allowed none h = check_on_exceed-allowed "halt" h
  read_on_exceed-allowed (some (text s)) h = check_on_exceed-allowed s h
  read_on_exceed-allowed (some other) h = cc
  read_on_exceed-allowed (some null) h = cc
  read_on_exceed-allowed (some (boolean b)) h = cc
  read_on_exceed-allowed (some (int n)) h = cc
  read_on_exceed-allowed (some (float x)) h = cc

  finite_nonneg-ok :
      (r : Result F) {x : F}
      → finite_nonneg r ≡ ok x
      → (fl.is_finite x ≡ true) × (fl.lt x (fl.dec 0 0) ≡ false)
  finite_nonneg-ok r h = (ground arith, ground arith)

  read_number-ok :
      (v : Value F) {x : F}
      → read_number v ≡ ok x
      → (fl.is_finite x ≡ true) × (fl.lt x (fl.dec 0 0) ≡ false)
  read_number-ok (boolean b) h = cc
  read_number-ok (int n) h = finite_nonneg-ok (to_float (int n)) h
  read_number-ok (float x) h = finite_nonneg-ok (to_float (float x)) h
  read_number-ok (text s) h = finite_nonneg-ok (to_float (text s)) h
  read_number-ok null h = cc
  read_number-ok other h = cc

  read_ceiling-ok :
      (o : Option (Value F)) {x : F}
      → read_ceiling o ≡ ok x
      → (fl.is_finite x ≡ true) × (fl.lt x (fl.dec 0 0) ≡ false)
  read_ceiling-ok none h = cc
  read_ceiling-ok (some v) h = read_number-ok v h

  read_limit-NonNegative :
      (o : Option (Value F)) {l : Option ℤ} → read_limit o ≡ ok l → NonNegative l
  read_limit-NonNegative o h = ground arith

  read_timeout-Bounded :
      (o : Option (Value F)) {l : Option F} → read_timeout o ≡ ok l → Bounded (to_timeout l)
  read_timeout-Bounded none h = ground arith
  read_timeout-Bounded (some v) h =
      let (x, e, same) = >>=-eq-ok (read_number v) _ h in ground (arith, read_number-ok v e)

  -- What `validate` makes of a policy: it passes, or its token ceiling is too large for a float.
  abbrev pub Validated : Distributor → PolicyConfig F → Type 0
  Validated d p =
      (IsAdmissible false p × (validate d p ≡ ok tt))
      ⊎ (IsTooLarge p.ceiling_tokens_out × (validate d p ≡ err overflow_error))

  admitted :
      (d : Distributor) (p : PolicyConfig F)
      → d.strict ≡ false
      → IsAdmissible false p
      → Validated d p
  admitted d p lax a =
      inl (a, (validate-IsAdmissible d p).1 (subst (λ strict. IsAdmissible strict p) (sym lax) a))

  -- A policy that is built from an override passes the validation of a distributor that is not
  -- strict; only where its token ceiling is an integer that is too large for a float does the
  -- validation raise, and then OverflowError.
  pub build_override_policy-validate :
      (now : F) (override : Dict (Value F)) (p : PolicyConfig F) (d : Distributor)
      → d.strict ≡ false
      → build_override_policy now override ≡ ok p
      → Validated d p
  unfolding build_override_policy
  build_override_policy-validate now override p d lax h =
      let (_, _, h) = >>=-eq-ok (read_chain_id (get "chain_id" override)) _ h in
      let h = >>-eq-ok (raise_if (is_no_number (get "ceiling_usd" override)) value_error) _ h in
      let (_, on_exceed, h) = >>=-eq-ok (read_on_exceed (get "on_exceed" override)) _ h in
      let (_, ceiling, h) = >>=-eq-ok (read_ceiling (get "ceiling_usd" override)) _ h in
      let (steps, e, h) = >>=-eq-ok (read_limit (get "ceiling_steps" override)) _ h in
      let (tokens, f, h) = >>=-eq-ok (read_limit (get "ceiling_tokens_out" override)) _ h in
      let (timeout, g, h) = >>=-eq-ok (read_timeout (present (get "timeout_ms" override))) _ h in
      let (_, _, h) = >>=-eq-ok (read_priority (get "priority" override)) _ h in
      let (_, _, h) = >>=-eq-ok (read_issued_at now (get "issued_at" override)) _ h in
      let (finite, nonneg) = read_ceiling-ok (get "ceiling_usd" override) ceiling in
      let steps' = read_limit-NonNegative (get "ceiling_steps" override) e in
      let tokens' = read_limit-NonNegative (get "ceiling_tokens_out" override) f in
      let on_exceed = read_on_exceed-allowed (get "on_exceed" override) on_exceed in
      let timeout' = read_timeout-Bounded (present (get "timeout_ms" override)) g in
      subst (λ q. Validated d q) (ok-injective h)
        (elim (to_limit-cases fl tokens tokens') [
          | inr large ↦ inr (large, IsTooLarge-validate d _ finite nonneg on_exceed steps' large)
          | inl bounded ↦ admitted d _ lax (record {
            finite = finite;
            nonneg = nonneg;
            on_exceed = on_exceed;
            steps = steps';
            tokens = bounded;
            timeout = timeout';
            priority = refl;
            complete = tt;
          })
        ])
