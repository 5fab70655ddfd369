-- ===== src/PolicyRegistry/Invariant.antt =====
-- A policy registry with calls under way. `register` and `update` draw a version number first and
-- take the lock to store their bundle later, so between the two a bundle is pending.
use veronica.Prelude.{
  ℕ, ◌+◌, ◌≤◌, ◌≡◌, ◌≢◌, sym, ◌⊎◌, inl, inr, String, Option, none, some, List, [], ◌∷◌, ◌++◌, All,
  All-mono, All-middle, Bool-cases, Option-cases, eqb, arith,
}
use veronica.Prelude.Result.{ok, err, value_error}
use veronica.Prelude.Dict.{get, put, values, All-put}
use veronica.Distributor.{Distributor, PolicyBundle}
use veronica.PolicyRegistry.{Registry, finish_update}

-- A bundle that waits for the lock: of an update that has seen a version, or of a registration.
pub record Pending (F : Type 0) : Type 0 where
  pub chain_id : String
  pub expected : Option ℕ
  pub bundle : PolicyBundle F

pub record World (F : Type 0) : Type 0 where
  pub registry : Registry F
  pub pending : List (Pending F)

module _ {F : Type 0} where
  -- the write of a pending call
  unfoldable pub store_pending : Registry F → Pending F → Registry F
  unfolding finish_update
  store_pending r u = elim u.expected [
    | none ↦ record r { store = put u.chain_id u.bundle r.store }
    | some v ↦ (finish_update r u.chain_id v u.bundle).0
  ]

  abbrev pub Differs : ℕ → PolicyBundle F → Type 0
  Differs v b = b.version ≢ v

  abbrev pub PendingDiffers : ℕ → Pending F → Type 0
  PendingDiffers v u = u.bundle.version ≢ v

  abbrev pub Distinct : List (Pending F) → Type 0
  Distinct [] = Unit
  Distinct (u ∷ us) = All (PendingDiffers u.bundle.version) us × Distinct us

  -- No two bundles, stored or pending, share a number, and each number was drawn.
  pub record Inv (w : World F) : Type 0 where
    pub stored : All (λ b. b.version ≤ w.registry.distributor.version) (values w.registry.store)
    pub drawn : All (λ u. u.bundle.version ≤ w.registry.distributor.version) w.pending
    pub apart : All (λ u. All (Differs u.bundle.version) (values w.registry.store)) w.pending
    pub distinct : Distinct w.pending

  pub Distinct-middle :
      (xs ys : List (Pending F)) (u : Pending F)
      → Distinct (xs ++ u ∷ ys)
      → All (PendingDiffers u.bundle.version) (xs ++ ys) × Distinct (xs ++ ys)
  Distinct-middle [] ys u d = d
  Distinct-middle (x ∷ xs) ys u d =
      let (here, rest) = All-middle (PendingDiffers x.bundle.version) xs ys u d.0 in
      let (others, left) = Distinct-middle xs ys u d.1 in
      (((λ e. here (sym e)), others), (rest, left))

  -- A number of a chain that is replaced for good: nothing stored there or pending has it, and it
  -- will not be drawn again.
  pub record IsDead (k : String) (v : ℕ) (w : World F) : Type 0 where
    pub past : v ≤ w.registry.distributor.version
    pub gone : (b : PolicyBundle F) → get k w.registry.store ≡ some b → b.version ≢ v
    pub pending : All (PendingDiffers v) w.pending

  -- The second half of an update succeeds only on the version that the first half saw.
  pub finish_update_cases :
      (r : Registry F) (k : String) (v : ℕ) (b : PolicyBundle F)
      → ((c : PolicyBundle F) × (get k r.store ≡ some c)
          × (c.version ≡ v)
          × (finish_update r k v b ≡ (record r { store = put k b r.store }, ok b)))
        ⊎ (finish_update r k v b ≡ (r, err value_error))
  unfolding finish_update
  finish_update_cases r k v b = elim (Option-cases (get k r.store)) [
    | inl e ↦ inr (ground (arith, e))
    | inr (c, e) ↦ elim (Bool-cases (eqb c.version v)) [
      | inl same ↦ inl (c, e, ground arith, ground (arith, e, same))
      | inr other ↦ inr (ground (arith, e, other))
    ]
  ]

  -- A pending call stores its bundle, or changes nothing.
  pub store_pending_cases :
      (r : Registry F) (u : Pending F)
      → (store_pending r u ≡ record r { store = put u.chain_id u.bundle r.store })
        ⊎ (store_pending r u ≡ r)
  unfolding store_pending
  store_pending_cases r u = ground arith

  Inv-put :
      (r : Registry F) (us : List (Pending F)) (u : Pending F)
      → Inv (record { registry = r; pending = us })
      → u.bundle.version ≤ r.distributor.version
      → All (PendingDiffers u.bundle.version) us
      → Inv
          (record { registry = record r { store = put u.chain_id u.bundle r.store }; pending = us })
  Inv-put r us u i h others = record {
    stored =
        All-put (λ c. c.version ≤ r.distributor.version) u.chain_id u.bundle r.store h i.stored;
    drawn = i.drawn;
    apart = both us i.apart others;
    distinct = i.distinct;
  }
    where
      both :
          (xs : List (Pending F))
          → All (λ x. All (Differs x.bundle.version) (values r.store)) xs
          → All (PendingDiffers u.bundle.version) xs
          → All (λ x. All (Differs x.bundle.version) (values (put u.chain_id u.bundle r.store))) xs
      both [] a o = tt
      both (x ∷ xs) a o = (
        All-put (Differs x.bundle.version) u.chain_id u.bundle r.store (λ e. o.0 (sym e)) a.0,
        both xs a.1 o.1,
      )

  -- Taking the lock keeps the invariant, and the call is no longer pending.
  pub Inv-finish :
      (r : Registry F) (xs ys : List (Pending F)) (u : Pending F)
      → Inv (record { registry = r; pending = xs ++ u ∷ ys })
      → Inv (record { registry = store_pending r u; pending = xs ++ ys })
  Inv-finish r xs ys u i =
      let (drawn, drawn') =
        All-middle (λ x. x.bundle.version ≤ r.distributor.version) xs ys u i.drawn in
      let (_, apart) =
        All-middle (λ x. All (Differs x.bundle.version) (values r.store)) xs ys u i.apart in
      let (others, distinct) = Distinct-middle xs ys u i.distinct in
      let rest : Inv (record { registry = r; pending = xs ++ ys }) = record {
        stored = i.stored;
        drawn = drawn';
        apart = apart;
        distinct = distinct;
      } in
      elim (store_pending_cases r u) [
        | inl done ↦ rw done (Inv-put r (xs ++ ys) u rest drawn others)
        | inr failed ↦ rw failed rest
      ]

  -- Drawing a number keeps the invariant, whether or not the bundle becomes pending.
  pub Inv-later :
      (r : Registry F) (us : List (Pending F)) (d : Distributor)
      → Inv (record { registry = r; pending = us })
      → r.distributor.version ≤ d.version
      → Inv (record { registry = record r { distributor = d }; pending = us })
  Inv-later r us d i h = record {
    stored =
        All-mono (λ b. b.version ≤ r.distributor.version) (λ b. b.version ≤ d.version)
          (values r.store) (λ b p. omega arith) i.stored;
    drawn =
        All-mono (λ u. u.bundle.version ≤ r.distributor.version) (λ u. u.bundle.version ≤ d.version)
          us (λ u p. omega arith) i.drawn;
    apart = i.apart;
    distinct = i.distinct;
  }

  pub Inv-draw :
      (r : Registry F) (us : List (Pending F)) (d : Distributor) (u : Pending F)
      → Inv (record { registry = r; pending = us })
      → d.version ≡ r.distributor.version + 1
      → u.bundle.version ≡ r.distributor.version + 1
      → Inv (record { registry = record r { distributor = d }; pending = u ∷ us })
  Inv-draw r us d u i h e =
      let later = Inv-later r us d i (omega arith) in
      record {
        stored = later.stored;
        drawn = (omega arith, later.drawn);
        apart = (
          All-mono (λ b. b.version ≤ r.distributor.version) (Differs u.bundle.version)
              (values r.store) (λ b p. omega arith) i.stored,
          i.apart,
        );
        distinct = (
          All-mono (λ x. x.bundle.version ≤ r.distributor.version) (PendingDiffers u.bundle.version)
              us (λ x p. omega arith) i.drawn,
          i.distinct,
        );
      }
