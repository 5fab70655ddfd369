-- ===== src/Tenants/Registrations.antt =====
-- The hierarchy under every sequence of the registry's calls: it stays a forest, so that looking
-- up ancestors never meets the limit on depth.
use veronica.Prelude.{
  ℕ, suc, ◌≤◌, ◌≡◌, sym, subst, ◌∙◌, inl, inr, true, false, String, ◌==◌, Option, none, some, List,
  [], ◌∷◌, length, Bool-cases, Option-cases, arith,
}
use mathlib.Core.List.{reverse}
use veronica.Prelude.Result.{ok, Result-cases}
use veronica.Prelude.Dict.{get, put, remove, get-put, get-remove}
use veronica.Tenants.{
  TenantNode, Registry, Updates, max_depth, walk, is_missing, register, update, has_children,
  delete, get_ancestors, set_name, set_overrides,
}
use veronica.Values.{Argument}
use veronica.Tenants.Forest.{
  Depth, root, up, IsLineage, climb-IsLineage, walk-bound, Depth-put, Depth-change, Depth-remove,
  Childless, Childless-any,
}

module _ {F : Type 0} where
  -- Every tenant has at most 100 ancestors, the last of which is a root.
  abbrev pub IsForest : Registry F → Type 0
  IsForest ts =
      (id : String) (node : TenantNode F)
      → get id ts ≡ some node
      → (n : ℕ) × Depth ts node.parent_id n × (n ≤ max_depth)

  IsForest-change :
      (ts : Registry F) (k : String) (old t : TenantNode F)
      → get k ts ≡ some old
      → t.parent_id ≡ old.parent_id
      → IsForest ts
      → IsForest (put k t ts)
  IsForest-change ts k old t found same f id node e = elim (Bool-cases (k == id)) [
    | inl hit ↦
        let (n, d, h) = f k old found in
        (
          n,
          subst (λ q. Depth (put k t ts) q n) (sym same ∙ parent hit)
              (Depth-change ts k old t found same d),
          h,
        )
    | inr miss ↦
        let (n, d, h) = f id node (ground (arith, get-put k id t ts, miss)) in
        (n, Depth-change ts k old t found same d, h)
  ]
    where
      parent : (k == id) ≡ true → t.parent_id ≡ node.parent_id
      parent hit = ground (arith, get-put k id t ts, hit)

  set_name-parent :
      (o : Option (Argument F)) (t t' : TenantNode F)
      → set_name o t ≡ ok t'
      → t'.parent_id ≡ t.parent_id
  set_name-parent o t t' e = ground arith

  set_overrides-parent :
      (o : Option (Argument F)) (t t' : TenantNode F)
      → set_overrides o t ≡ ok t'
      → t'.parent_id ≡ t.parent_id
  set_overrides-parent o t t' e = ground arith

  update-IsForest :
      (ts : Registry F) (id : String) (u : Updates F) → IsForest ts → IsForest (update ts id u).0
  unfolding update
  update-IsForest ts id u f = elim (Option-cases (get id ts)) [
    | inl e ↦ rw (e, update) f
    | inr (old, e) ↦ elim (Result-cases (set_name u.name old)) [
      | inr (x, failed) ↦ rw (e, update) (rw failed f)
      | inl (named, done) ↦
          let same = set_name-parent u.name old named done in
          elim (Result-cases (set_overrides u.policy_overrides named)) [
            | inr (x, failed) ↦
                rw (e, update) (rw (done, failed) (IsForest-change ts id old named e same f))
            | inl (t, done') ↦
                let same' = set_overrides-parent u.policy_overrides named t done' in
                rw (e, update) (rw (done, done') (IsForest-change ts id old t e (same' ∙ same) f))
          ]
    ]
  ]

  -- the parent of a new tenant, measured
  parent-Depth :
      (ts : Registry F) (p : Option String)
      → IsForest ts
      → is_missing ts p ≡ false
      → (n : ℕ) × Depth ts p n
  parent-Depth ts none f h = (0, root)
  parent-Depth ts (some id) f h = elim (Option-cases (get id ts)) [
    | inl e ↦ absurd (ground (arith, e))
    | inr (node, e) ↦ let (n, d, _) = f id node e in (suc n, up node e d)
  ]

  IsForest-put :
      (ts : Registry F) (t : TenantNode F) {n : ℕ}
      → get t.id ts ≡ none
      → Depth ts t.parent_id n
      → n ≤ max_depth
      → IsForest ts
      → IsForest (put t.id t ts)
  IsForest-put ts t {n} fresh d h f id node e = elim (Bool-cases (t.id == id)) [
    | inl hit ↦
        (n, subst (λ q. Depth (put t.id t ts) q n) (parent hit) (Depth-put ts t.id t fresh d), h)
    | inr miss ↦
        let (m, d', k) = f id node (ground (arith, get-put t.id id t ts, miss)) in
        (m, Depth-put ts t.id t fresh d', k)
  ]
    where
      parent : (t.id == id) ≡ true → t.parent_id ≡ node.parent_id
      parent hit = ground (arith, get-put t.id id t ts, hit)

  register-IsForest :
      (ts : Registry F) (t : TenantNode F) → IsForest ts → IsForest (register ts t).0
  unfolding register
  register-IsForest ts t f = elim (Option-cases (get t.id ts)) [
    | inr (old, e) ↦ rw (e, register) f
    | inl fresh ↦ elim (Bool-cases (is_missing ts t.parent_id)) [
      | inl missing ↦ rw (fresh, register) (rw missing f)
      | inr present ↦ elim (Result-cases (walk ts max_depth t.parent_id)) [
        | inr (x, failed) ↦ rw (fresh, register) (rw (present, failed) f)
        | inl (visited, done) ↦
            let (n, d) = parent-Depth ts t.parent_id f present in
            rw (fresh, register)
              (rw (present, done)
                (IsForest-put ts t fresh d (walk-bound ts d max_depth visited done) f))
      ]
    ]
  ]

  IsForest-remove :
      (ts : Registry F) (k : String) → Childless ts k → IsForest ts → IsForest (remove k ts)
  IsForest-remove ts k lone f id node e =
      let before : get id ts ≡ some node = ground (arith, get-remove k id ts) in
      let (n, d, h) = f id node before in (n, Depth-remove ts k lone (lone id node before) d, h)

  delete-IsForest : (ts : Registry F) (k : String) → IsForest ts → IsForest (delete ts k).0
  unfolding delete
  delete-IsForest ts k f = elim (Option-cases (get k ts)) [
    | inl e ↦ rw (e, delete) f
    | inr (old, e) ↦ elim (Bool-cases (has_children ts k)) [
      | inl parent ↦ rw (e, delete) (rw parent f)
      | inr lone ↦ rw (e, delete) (rw lone (IsForest-remove ts k (Childless-any ts k lone) f))
    ]
  ]

  get_ancestors-IsLineage :
      (ts : Registry F) (id : String) (node : TenantNode F)
      → IsForest ts
      → get id ts ≡ some node
      → (lineage : List (TenantNode F)) × (get_ancestors ts id ≡ ok (reverse lineage))
        × IsLineage ts node.parent_id lineage
        × (length lineage ≤ max_depth)
  unfolding get_ancestors
  get_ancestors-IsLineage ts id node f e =
      let (n, d, h) = f id node e in
      let (xs, done, line, len) = climb-IsLineage ts d max_depth h in
      (xs, ground (arith, e, done), line, omega (arith, len))

-- The methods that write.
pub data Call (F : Type 0) : Type 0 where
  registers : TenantNode F → Call F
  updates : String → Updates F → Call F
  deletes : String → Call F

module _ {F : Type 0} where
  unfoldable pub step : Registry F → Call F → Registry F
  step ts (registers t) = (register ts t).0
  step ts (updates id u) = (update ts id u).0
  step ts (deletes id) = (delete ts id).0

  unfoldable pub run : Registry F → List (Call F) → Registry F
  run ts [] = ts
  run ts (c ∷ cs) = run (step ts c) cs

  step-IsForest : (ts : Registry F) (c : Call F) → IsForest ts → IsForest (step ts c)
  unfolding step
  step-IsForest ts (registers t) f = register-IsForest ts t f
  step-IsForest ts (updates id u) f = update-IsForest ts id u f
  step-IsForest ts (deletes id) f = delete-IsForest ts id f

  -- Whatever calls are made, failed ones included, a forest stays one: parents are registered,
  -- there is no cycle, and nobody has more than 100 ancestors.
  pub run-IsForest : (ts : Registry F) (cs : List (Call F)) → IsForest ts → IsForest (run ts cs)
  unfolding run
  run-IsForest ts [] f = f
  run-IsForest ts (c ∷ cs) f = run-IsForest (step ts c) cs (step-IsForest ts c f)

  -- After any calls on an empty registry `get_ancestors` returns for every tenant, and what it
  -- returns, at most 100 tenants, read backwards leads from the tenant's parent up to a root.
  pub run-get_ancestors :
      (cs : List (Call F)) (id : String) (node : TenantNode F)
      → get id (run [] cs) ≡ some node
      → (lineage : List (TenantNode F)) × (get_ancestors (run [] cs) id ≡ ok (reverse lineage))
        × IsLineage (run [] cs) node.parent_id lineage
        × (length lineage ≤ max_depth)
  unfolding get
  run-get_ancestors cs id node e =
      get_ancestors-IsLineage (run [] cs) id node (run-IsForest [] cs (λ k t q. cc)) e
