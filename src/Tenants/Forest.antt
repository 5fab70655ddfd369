-- ===== src/Tenants/Forest.antt =====
-- The hierarchy as a forest: how far a tenant is from a root, and what the two loops over parents
-- return for such a distance.
use veronica.Prelude.{
  ℕ, zero, suc, ◌≤◌, ◌≡◌, refl, sym, subst, ◌∙◌, inl, inr, true, false, String, ◌==◌, eq_iff,
  Option, none, some, List, [], ◌∷◌, any, length, Bool-cases, arith,
}
use veronica.Prelude.Result.{ok, Result-cases}
use veronica.Prelude.Dict.{get, put, remove, values, get-put, get-remove}
use veronica.Tenants.{TenantNode, Registry, walk, climb, is_parent}

-- `Depth ts p n`: following parents from `p`, there are `n` tenants up to a root.
pub data Depth {F : Type 0} (ts : Registry F) : Option String → ℕ → Type 0 where
  root : Depth ts none 0
  up :
      {id : String} {n : ℕ} (node : TenantNode F)
      → get id ts ≡ some node
      → Depth ts node.parent_id n
      → Depth ts (some id) (suc n)

module _ {F : Type 0} where
  -- A list that starts at a tenant, follows parents, and ends at a root.
  abbrev pub IsLineage : Registry F → Option String → List (TenantNode F) → Type 0
  IsLineage ts none [] = Unit
  IsLineage ts none (x ∷ xs) = ⊥
  IsLineage ts (some id) [] = ⊥
  IsLineage ts (some id) (x ∷ xs) = (get id ts ≡ some x) × IsLineage ts x.parent_id xs

  pub climb-IsLineage :
      (ts : Registry F) {p : Option String} {n : ℕ} (d : Depth ts p n) (fuel : ℕ)
      → n ≤ fuel
      → (xs : List (TenantNode F)) × (climb ts fuel p ≡ ok xs) × IsLineage ts p xs × (length xs ≡ n)
  unfolding climb
  climb-IsLineage ts root zero h = ([], refl, tt, refl)
  climb-IsLineage ts root (suc fuel) h = ([], refl, tt, refl)
  climb-IsLineage ts (up node e d) zero h = absurd (omega arith)
  climb-IsLineage ts (up node e d) (suc fuel) h =
      let (xs, done, line, len) = climb-IsLineage ts d fuel (omega arith) in
      (node ∷ xs, ground (arith, e, done), (e, line), omega (arith, len))

  -- `walk` raises beyond 100 tenants, so what it accepts is not deeper.
  pub walk-bound :
      (ts : Registry F) {p : Option String} {n : ℕ} (d : Depth ts p n) (fuel : ℕ)
      → (visited : List String) → walk ts fuel p ≡ ok visited
      → n ≤ fuel
  unfolding walk
  walk-bound ts root fuel visited h = omega arith
  walk-bound ts (up node e d) zero visited h = absurd (ground arith)
  walk-bound ts (up node e d) (suc fuel) visited h =
      elim (Result-cases (walk ts fuel node.parent_id)) [
        | inl (rest, done) ↦ omega (arith, walk-bound ts d fuel rest done)
        | inr (x, failed) ↦ absurd (ground (arith, e, failed))
      ]

  -- The distance of a path does not change when a tenant that is not on it is added.
  pub Depth-put :
      (ts : Registry F) (k : String) (t : TenantNode F) {p : Option String} {n : ℕ}
      → get k ts ≡ none
      → Depth ts p n
      → Depth (put k t ts) p n
  Depth-put ts k t fresh root = root
  Depth-put ts k t fresh (up {id = id} node e d) =
      up node (ground (arith, get-put k id t ts, eq_iff k id, e, fresh)) (Depth-put ts k t fresh d)

  -- Nor when a tenant is changed in other fields than its parent.
  pub Depth-change :
      (ts : Registry F) (k : String) (old t : TenantNode F) {p : Option String} {n : ℕ}
      → get k ts ≡ some old
      → t.parent_id ≡ old.parent_id
      → Depth ts p n
      → Depth (put k t ts) p n
  Depth-change ts k old t found same root = root
  Depth-change ts k old t found same (up {id = id} {n = n} node e d) = elim (Bool-cases (k == id)) [
    | inl hit ↦ up t (rw (get-put k id t ts, hit)) (
        subst (λ q. Depth (put k t ts) q n) (sym (same ∙ parent hit))
          (Depth-change ts k old t found same d))
    | inr miss ↦ up node (rw (get-put k id t ts, miss) e) (Depth-change ts k old t found same d)
  ]
    where
      parent : (k == id) ≡ true → old.parent_id ≡ node.parent_id
      parent hit = ground (arith, eq_iff k id, found, e)

  -- No tenant has `k` for its parent.
  abbrev pub Childless : Registry F → String → Type 0
  Childless ts k =
      (id : String) (node : TenantNode F)
      → get id ts ≡ some node
      → is_parent k node.parent_id ≡ false

  -- Nor when a tenant without children is removed, for any path that does not start at it.
  pub Depth-remove :
      (ts : Registry F) (k : String) {p : Option String} {n : ℕ}
      → Childless ts k
      → is_parent k p ≡ false
      → Depth ts p n
      → Depth (remove k ts) p n
  Depth-remove ts k lone off root = root
  Depth-remove ts k lone off (up {id = id} node e d) =
      up node (ground (arith, get-remove k id ts, eq_iff k id, eq_iff id k, e))
        (Depth-remove ts k lone (lone id node e) d)

  pub Childless-any :
      (ts : Registry F) (k : String)
      → any (λ t. is_parent k t.parent_id) (values ts) ≡ false
      → Childless ts k
  unfolding get
  Childless-any [] k h id node e = cc
  Childless-any ((j, t) ∷ ts) k h id node e = elim (Bool-cases (j == id)) [
    | inl hit ↦ ground (arith, hit)
    | inr miss ↦ Childless-any ts k (ground arith) id node (ground (arith, miss))
  ]
