-- ===== src/PolicyRegistry/Races.antt =====
-- What concurrent calls of the policy registry can and cannot do to each other.
use veronica.Prelude.{
  ℕ, ◌≤◌, ◌<◌, ◌∙◌, ◌≡◌, refl, sym, inl, inr, String, none, some, List, [], ◌∷◌, ◌++◌, All,
  All-mono, All-middle, eq_iff, arith,
}
use veronica.Prelude.Result.{ok, err, value_error}
use veronica.Prelude.Dict.{get, put, values, get-put, All-get}
use veronica.Float.{Float}
use veronica.Types.{PolicyConfig}
use veronica.PolicyAudit.{Json}
use veronica.Distributor.{PolicyBundle}
use veronica.PolicyRegistry.{Registry, finish_update, distribute_in}
use veronica.PolicyRegistry.Invariant.{
  Pending, World, Inv, IsDead, Differs, PendingDiffers, store_pending, finish_update_cases,
}
use veronica.PolicyRegistry.Concurrency.{
  begins_register, finishes, Steps, here, next, Steps-IsDead, distribute_in_version,
}

module _ {F : Type 0} where
  pending-Differs :
      (s : List (PolicyBundle F)) (us : List (Pending F)) (n : ℕ)
      → ((u : Pending F) → All (Differs u.bundle.version) s → n ≡ u.bundle.version → ⊥)
      → All (λ u. All (Differs u.bundle.version) s) us
      → All (PendingDiffers n) us
  pending-Differs s us n f a =
      All-mono (λ u. All (Differs u.bundle.version) s) (PendingDiffers n) us
        (λ u h e. f u h (sym e)) a

  -- Once an update that saw version `v` is stored, `v` is dead.
  finish_update-IsDead :
      (r r' : Registry F) (before after : List (Pending F)) (u : Pending F) (v : ℕ)
      → (b : PolicyBundle F) → Inv (record { registry = r; pending = before ++ u ∷ after })
      → finish_update r u.chain_id v u.bundle ≡ (r', ok b)
      → IsDead u.chain_id v (record { registry = r'; pending = before ++ after })
  finish_update-IsDead r r' before after u v b i won =
      elim (finish_update_cases r u.chain_id v u.bundle) [
        | inr failed ↦ absurd (ground (arith, failed, won))
        | inl (c, found, same, done) ↦
            let stored =
              All-get (λ b. b.version ≤ r.distributor.version) u.chain_id r.store c i.stored
                found in
            let (apart, rest) =
              All-middle (λ x. All (Differs x.bundle.version) (values r.store)) before after u
                i.apart in
            let new = All-get (Differs u.bundle.version) u.chain_id r.store c apart found in
            let e : r' ≡ record r { store = put u.chain_id u.bundle r.store } =
              ground (arith, done, won) in
            rw e (record {
              past = omega (arith, same);
              gone = λ d q.
                  let hit = get-put u.chain_id u.chain_id u.bundle r.store in
                  ground (arith, eq_iff u.chain_id u.chain_id, new, same);
              pending =
                  pending-Differs (values r.store) (before ++ after) v
                    (λ x h n.
                      All-get (Differs x.bundle.version) u.chain_id r.store c h found (same ∙ n))
                    rest;
            })
      ]

module _ {F : Type 0} ⦃fl : Float F⦄ (digest : List (String × Json F) → String)
    (hmac : String → String → String) where
  -- No lost update: in a world where each version number was drawn once, when an update that saw
  -- version `v` of a chain is stored, any other update of the chain that saw `v` raises ValueError
  -- and stores nothing, whatever its bundle and whatever calls are interleaved before it takes the
  -- lock.
  pub finish_update_loses :
      (w w' : World F) (r : Registry F) (before after : List (Pending F)) (u : Pending F)
      → (v : ℕ) (won lost : PolicyBundle F) → Inv w
      → w.pending ≡ before ++ u ∷ after
      → finish_update w.registry u.chain_id v u.bundle ≡ (r, ok won)
      → Steps digest hmac (record { registry = r; pending = before ++ after }) w'
      → finish_update w'.registry u.chain_id v lost ≡ (w'.registry, err value_error)
  finish_update_loses w w' r before after u v won lost i e first s =
      let i' = rw e at i in
      let dead =
        Steps-IsDead digest hmac s
          (finish_update-IsDead w.registry r before after u v won i' first) in
      elim (finish_update_cases w'.registry u.chain_id v lost) [
        | inr failed ↦ failed
        | inl (c, found, same, _) ↦ absurd (dead.gone c found same)
      ]

  -- Two accepted registrations of one chain: there is an interleaving after which both have
  -- finished and the live bundle is the one with the lower version number.
  pub register_stale :
      (r : Registry F) (p q : PolicyConfig F) (now later : F) (b c : PolicyBundle F)
      → q.chain_id ≡ p.chain_id
      → (distribute_in digest hmac r p now).1 ≡ ok b
      → (distribute_in digest hmac (distribute_in digest hmac r p now).0 q later).1 ≡ ok c
      → (w : World F) × Steps digest hmac (record { registry = r; pending = [] }) w
        × (w.pending ≡ [])
        × (get p.chain_id w.registry.store ≡ some b)
        × (b.version < c.version)
  unfolding store_pending
  register_stale r p q now later b c same e g =
      let r1 = (distribute_in digest hmac r p now).0 in
      let (old, number) = (distribute_in_version digest hmac r p now).1 b e in
      let (new, _) = (distribute_in_version digest hmac r1 q later).1 c g in
      let first : Pending F = record { chain_id = p.chain_id; expected = none; bundle = b } in
      let second : Pending F = record { chain_id = q.chain_id; expected = none; bundle = c } in
      (
        _,
        next
            (next (next (next here (begins_register p now e)) (begins_register q later g))
              (finishes [] (first ∷ []) second refl))
            (finishes [] [] first refl),
        refl,
        ground (
          arith,
          get-put p.chain_id p.chain_id b (put q.chain_id c r.store),
          eq_iff p.chain_id p.chain_id,
        ),
        omega arith,
      )
