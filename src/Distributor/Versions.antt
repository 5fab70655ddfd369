-- ===== src/Distributor/Versions.antt =====
-- The two outcomes of `distribute`, the numbering of bundles, and their signatures.
use veronica.Prelude.{
  subst, ℕ, ◌+◌, ◌≡◌, refl, ◌⊎◌, inl, inr, Bool, true, false, String, eq_iff, some, List, [], ◌∷◌,
  arith,
}
use veronica.Prelude.Result.{Result, Exn, ok, err, policy_validation, overflow_error, ok-injective}
use veronica.Float.{Float}
use veronica.Types.{PolicyConfig, to_exec_config, exec_config_of}
use veronica.PolicyAudit.{Json}
use veronica.Distributor.{
  Distributor, PolicyBundle, Turn, collect, result_of, validate, issue, distribute, distribute_each,
  distribute_many, verify_signature,
}
use veronica.Distributor.Checks.{validate_cases}
use veronica.Distributor.Validation.{IsTooLarge, IsAdmissible, validate-IsAdmissible}

module _ {F : Type 0} ⦃fl : Float F⦄ where
  to_exec_config-IsAdmissible :
      (strict : Bool) (p : PolicyConfig F)
      → IsAdmissible strict p
      → to_exec_config p ≡ ok (exec_config_of p)
  unfolding to_exec_config
  to_exec_config-IsAdmissible strict p a = ground arith

module _ {F : Type 0} ⦃fl : Float F⦄ (digest : List (String × Json F) → String)
    (hmac : String → String → String) where
  -- A bundle that the next version number was spent on.
  pub record IsIssued (d : Distributor) (p : PolicyConfig F) (b : PolicyBundle F) : Type 0 where
    pub policy : b.policy ≡ p
    pub config : to_exec_config p ≡ ok b.exec_config
    pub version : b.version ≡ d.version + 1

  -- The outcomes: an issued bundle for an admissible policy; otherwise the distributor as it was,
  -- with OverflowError, which takes a limit that is too large, or PolicyValidationError.
  abbrev pub Outcome : Distributor → PolicyConfig F → Distributor × Result (PolicyBundle F) → Type 0
  Outcome d p result =
      (IsAdmissible d.strict p
        × ((b : PolicyBundle F) × (result ≡ (record d { version = d.version + 1 }, ok b))
            × IsIssued d p b))
      ⊎ ((¬ IsAdmissible d.strict p)
          × ((result ≡ (d, err policy_validation))
              ⊎ ((IsTooLarge p.ceiling_tokens_out ⊎ IsTooLarge p.timeout_ms)
                  × (result ≡ (d, err overflow_error)))))

  pub distribute_accepts :
      (d : Distributor) (p : PolicyConfig F) (now : F)
      → IsAdmissible d.strict p
      → (b : PolicyBundle F) × (distribute digest hmac d p now
          ≡ (record d { version = d.version + 1 }, ok b))
        × IsIssued d p b
  unfolding distribute
  distribute_accepts d p now a =
      let e = to_exec_config-IsAdmissible d.strict p a in
      let v : validate d p ≡ ok tt = (validate-IsAdmissible d p).1 a in
      (
        (issue digest hmac d p now (exec_config_of p)).1,
        ground arith,
        record { policy = refl; config = e; version = refl },
      )

  distribute_fails :
      (d : Distributor) (p : PolicyConfig F) (now : F) (e : Exn)
      → validate d p ≡ err e
      → distribute digest hmac d p now ≡ (d, err e)
  unfolding distribute
  distribute_fails d p now e v = ground arith

  not-IsAdmissible :
      (d : Distributor) (p : PolicyConfig F) (e : Exn)
      → validate d p ≡ err e
      → ¬ IsAdmissible d.strict p
  not-IsAdmissible d p e v = λ a. cc (v, (validate-IsAdmissible d p).1 a)

  -- An admissible policy is always distributed, under the next version number with its own
  -- execution config. Any other raises PolicyValidationError, or OverflowError, which it only does
  -- where its token ceiling or its timeout is an integer that is too large for a float; it spends no
  -- number.
  pub distribute_cases :
      (d : Distributor) (p : PolicyConfig F) (now : F)
      → Outcome d p (distribute digest hmac d p now)
  distribute_cases d p now = elim (validate_cases d p) [
    | inl v ↦ let a = (validate-IsAdmissible d p).0 v in inl (a, distribute_accepts d p now a)
    | inr (inl v) ↦ inr (
      not-IsAdmissible d p policy_validation v,
      inl (distribute_fails d p now policy_validation v),
    )
    | inr (inr (large, v)) ↦ inr (
      not-IsAdmissible d p overflow_error v,
      inr (large, distribute_fails d p now overflow_error v),
    )
  ]

  -- A bundle that was distributed under a signing key verifies under that key.
  pub verify_signature-distribute :
      (d d' : Distributor) (p : PolicyConfig F) (now : F) (b : PolicyBundle F) (key : String)
      → d.signing_key ≡ some key
      → distribute digest hmac d p now ≡ (d', ok b)
      → verify_signature hmac b key ≡ ok true
  unfolding verify_signature distribute
  verify_signature-distribute d d' p now b key k e =
      ground (arith, eq_iff (hmac key b.policy_hash) (hmac key b.policy_hash))

  abbrev pub Numbered : ℕ → List (PolicyBundle F) → List (Turn F) → Type 0
  Numbered v [] [] = Unit
  Numbered v (b ∷ bs) (t ∷ turns) =
      (b.policy ≡ t.policy)
      × (to_exec_config t.policy ≡ ok b.exec_config)
      × (b.version ≡ v + t.drawn + 1)
      × Numbered (v + t.drawn + 1) bs turns
  Numbered v _ _ = ⊥

  -- what a loop that succeeded with no failure has
  abbrev pub NumberedResult :
      ℕ → List (Turn F) → Distributor × Result (Bool × List (PolicyBundle F)) → Type 0
  NumberedResult v turns (d, ok (false, bs)) = Numbered v bs turns
  NumberedResult v turns _ = Unit

  collect-Numbered :
      (v : ℕ) (d : Distributor) (t : Turn F) (turns : List (Turn F)) (b : PolicyBundle F)
      → (rest : Distributor × Result (Bool × List (PolicyBundle F))) → b.policy ≡ t.policy
      → to_exec_config t.policy ≡ ok b.exec_config
      → b.version ≡ v + t.drawn + 1
      → NumberedResult (v + t.drawn + 1) turns rest
      → NumberedResult v (t ∷ turns) (collect d (ok b) rest)
  collect-Numbered v d t turns b (d', ok (false, bs)) p c n h = (p, c, n, h)
  collect-Numbered v d t turns b (d', ok (true, bs)) p c n h = tt
  collect-Numbered v d t turns b (d', err e) p c n h = tt

  collect-failed :
      (v : ℕ) (d : Distributor) (turns : List (Turn F))
      → (rest : Distributor × Result (Bool × List (PolicyBundle F)))
      → NumberedResult v turns (collect d (err policy_validation) rest)
  collect-failed v d turns (d', ok (failed, bs)) = tt
  collect-failed v d turns (d', err e) = tt

  distribute_each-Numbered :
      (d : Distributor) (turns : List (Turn F))
      → NumberedResult d.version turns (distribute_each digest hmac d turns)
  unfolding distribute_each
  distribute_each-Numbered d [] = tt
  distribute_each-Numbered d (t ∷ turns) =
      let drawn : Distributor = record d { version = d.version + t.drawn } in
      elim (distribute_cases drawn t.policy t.now) [
        | inl (_, (b, e, i)) ↦ rw e (
            collect-Numbered d.version (record d { version = d.version + t.drawn + 1 }) t turns b
              (distribute_each digest hmac (record d { version = d.version + t.drawn + 1 }) turns)
              i.policy i.config i.version
              (distribute_each-Numbered (record d { version = d.version + t.drawn + 1 }) turns))
        | inr (_, (inl e)) ↦ rw e (
            collect-failed d.version (record d { version = d.version + t.drawn }) (t ∷ turns)
              (distribute_each digest hmac (record d { version = d.version + t.drawn }) turns))
        | inr (_, (inr (_, e))) ↦ rw e tt
      ]

  result_of-Numbered :
      (v : ℕ) (turns : List (Turn F)) (bs : List (PolicyBundle F))
      → (looped : Distributor × Result (Bool × List (PolicyBundle F)))
      → NumberedResult v turns looped
      → (result_of looped).1 ≡ ok bs
      → Numbered v bs turns
  result_of-Numbered v turns bs (d, ok (false, bundles)) n h =
      subst (λ (xs : List (PolicyBundle F)). Numbered v xs turns) (ok-injective h) n
  result_of-Numbered v turns bs (d, ok (true, bundles)) n h = cc
  result_of-Numbered v turns bs (d, err e) n h = cc

  -- When `distribute_many` succeeds, whatever numbers other calls draw between its own, its bundles
  -- are those of the given policies, in their order, each with the execution config of its policy,
  -- and each has the version number after those that were drawn before it.
  pub distribute_many-Numbered :
      (d : Distributor) (turns : List (Turn F)) (bs : List (PolicyBundle F))
      → (distribute_many digest hmac d turns).1 ≡ ok bs
      → Numbered d.version bs turns
  unfolding distribute_many
  distribute_many-Numbered d turns bs h =
      result_of-Numbered d.version turns bs (distribute_each digest hmac d turns)
        (distribute_each-Numbered d turns) h
