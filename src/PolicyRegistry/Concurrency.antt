-- ===== src/PolicyRegistry/Concurrency.antt =====
-- Concurrent calls of the policy registry: the halves of any number of registrations and updates,
-- interleaved in any order.
use veronica.Prelude.{
  ℕ, ◌+◌, ◌≤◌, ◌≡◌, ◌≢◌, refl, inl, inr, String, ◌==◌, Option, none, some, List, ◌∷◌, ◌++◌,
  All-middle, Bool-cases, arith,
}
use veronica.Prelude.Result.{ok}
use veronica.Prelude.Dict.{get, get-put}
use veronica.Float.{Float}
use veronica.Types.{PolicyConfig}
use veronica.PolicyAudit.{Json}
use veronica.Distributor.{PolicyBundle, distribute}
use veronica.PolicyRegistry.{Registry, Fields, begin_update, distribute_in}
use veronica.PolicyRegistry.Invariant.{
  Pending, World, Inv, IsDead, PendingDiffers, store_pending, store_pending_cases, Inv-later,
  Inv-finish, Inv-draw,
}

module _ {F : Type 0} ⦃fl : Float F⦄ (digest : List (String × Json F) → String)
    (hmac : String → String → String) where
  pub distribute_in_version :
      (r : Registry F) (p : PolicyConfig F) (now : F)
      → let (r', result) = distribute_in digest hmac r p now in
        (r.distributor.version ≤ r'.distributor.version)
        × ((b : PolicyBundle F)
            → result ≡ ok b
            → (b.version ≡ r.distributor.version + 1)
              × (r'.distributor.version ≡ r.distributor.version + 1))
  unfolding distribute
  distribute_in_version r p now = (ground arith, λ b e. ground arith)

  -- A call draws a number and stores nothing (a policy that is refused, or the simulation of a
  -- rollout), begins a registration or an update, or takes the lock to finish what it began.
  pub data Step (w : World F) : World F → Type 0 where
    draws :
        (p : PolicyConfig F) (now : F)
        → Step w (record w { registry = (distribute_in digest hmac w.registry p now).0 })
    begins_register :
        (p : PolicyConfig F) (now : F) {b : PolicyBundle F}
        → (distribute_in digest hmac w.registry p now).1 ≡ ok b
        → Step w (record {
          registry = (distribute_in digest hmac w.registry p now).0;
          pending = record { chain_id = p.chain_id; expected = none; bundle = b } ∷ w.pending;
        })
    begins_update :
        (k : String) (v : ℕ) (f : Fields F) (now : F) {p : PolicyConfig F} {b : PolicyBundle F}
        → begin_update w.registry k v f now ≡ ok p
        → (distribute_in digest hmac w.registry p now).1 ≡ ok b
        → Step w (record {
          registry = (distribute_in digest hmac w.registry p now).0;
          pending = record { chain_id = k; expected = some v; bundle = b } ∷ w.pending;
        })
    finishes :
        (before after : List (Pending F)) (u : Pending F)
        → w.pending ≡ before ++ u ∷ after
        → Step w (record { registry = store_pending w.registry u; pending = before ++ after })

  begins-Inv :
      (w : World F) (p : PolicyConfig F) (now : F) (b : PolicyBundle F) (k : String)
      → (expected : Option ℕ) → (distribute_in digest hmac w.registry p now).1 ≡ ok b
      → Inv w
      → Inv (record {
        registry = (distribute_in digest hmac w.registry p now).0;
        pending = record { chain_id = k; expected = expected; bundle = b } ∷ w.pending;
      })
  begins-Inv w p now b k expected e i =
      let (_, issued) = distribute_in_version w.registry p now in
      Inv-draw w.registry w.pending _ _ i (issued b e).1 (issued b e).0

  -- Every interleaving keeps the invariant.
  pub Step-Inv : {w w' : World F} → Step w w' → Inv w → Inv w'
  Step-Inv {w} (draws p now) i =
      Inv-later w.registry w.pending _ i (distribute_in_version w.registry p now).0
  Step-Inv {w} (begins_register p now {b = b} e) i = begins-Inv w p now b p.chain_id none e i
  Step-Inv {w} (begins_update k v f now {p = p} {b = b} g e) i = begins-Inv w p now b k (some v) e i
  Step-Inv {w} (finishes before after u e) i = Inv-finish w.registry before after u (rw e at i)

  begins-IsDead :
      (w : World F) (j : String) (n : ℕ) (p : PolicyConfig F) (now : F) (b : PolicyBundle F)
      → (k : String) (expected : Option ℕ) → (distribute_in digest hmac w.registry p now).1 ≡ ok b
      → IsDead j n w
      → IsDead j n (record {
        registry = (distribute_in digest hmac w.registry p now).0;
        pending = record { chain_id = k; expected = expected; bundle = b } ∷ w.pending;
      })
  begins-IsDead w j n p now b k expected e d =
      let (grows, issued) = distribute_in_version w.registry p now in
      let (number, _) = issued b e in
      let past = d.past in
      record { past = omega arith; gone = d.gone; pending = (omega arith, d.pending) }

  store_pending-gone :
      (r : Registry F) (j : String) (n : ℕ) (u : Pending F)
      → ((b : PolicyBundle F) → get j r.store ≡ some b → b.version ≢ n)
      → u.bundle.version ≢ n
      → (store_pending r u).distributor ≡ r.distributor
        × ((b : PolicyBundle F) → get j (store_pending r u).store ≡ some b → b.version ≢ n)
  store_pending-gone r j n u gone other = elim (store_pending_cases r u) [
    | inr same ↦ rw same (refl, gone)
    | inl done ↦ rw done (
      refl,
      λ b e. elim (Bool-cases (u.chain_id == j)) [
        | inl hit ↦ ground (arith, get-put u.chain_id j u.bundle r.store, hit)
        | inr miss ↦ gone b (ground (arith, get-put u.chain_id j u.bundle r.store, miss))
      ],
    )
  ]

  -- A dead number stays dead.
  Step-IsDead : {w w' : World F} {j : String} {n : ℕ} → Step w w' → IsDead j n w → IsDead j n w'
  Step-IsDead {w} (draws p now) d =
      let (grows, _) = distribute_in_version w.registry p now in
      let past = d.past in record { past = omega arith; gone = d.gone; pending = d.pending }
  Step-IsDead {w} {j = j} {n = n} (begins_register p now {b = b} e) d =
      begins-IsDead w j n p now b p.chain_id none e d
  Step-IsDead {w} {j = j} {n = n} (begins_update k v f now {p = p} {b = b} g e) d =
      begins-IsDead w j n p now b k (some v) e d
  Step-IsDead {w} {j = j} {n = n} (finishes before after u e) d =
      let (other, rest) = All-middle (PendingDiffers n) before after u (rw e at d.pending) in
      let (same, gone) = store_pending-gone w.registry j n u d.gone other in
      record { past = rw same d.past; gone = gone; pending = rest }

  pub data Steps (w : World F) : World F → Type 0 where
    here : Steps w w
    next : {v u : World F} → Steps w v → Step v u → Steps w u

  pub Steps-Inv : {w w' : World F} → Steps w w' → Inv w → Inv w'
  Steps-Inv here i = i
  Steps-Inv (next s t) i = Step-Inv t (Steps-Inv s i)

  pub Steps-IsDead :
      {w w' : World F} {j : String} {n : ℕ} → Steps w w' → IsDead j n w → IsDead j n w'
  Steps-IsDead here d = d
  Steps-IsDead (next s t) d = Step-IsDead t (Steps-IsDead s d)
