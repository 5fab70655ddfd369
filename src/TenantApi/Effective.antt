-- ===== src/TenantApi/Effective.antt =====
-- The endpoint for effective policies, after any sequence of writes.
use mathlib.Core.List.{reverse}
use veronica.Prelude.{
  Option, ◌≡◌, sym, ap, subst, ◌∙◌, ◌⊎◌, refl, String, none, some, List, [], ◌∷◌, ◌++◌, inl, inr,
  Option-cases, arith, false,
}
use veronica.Prelude.Int.{ℤ}
use veronica.Types.{PolicyConfig}
use veronica.Prelude.Result.{
  Result, Exn, ok, err, value_error, overflow_error, http_404, http_422, Result-cases,
}
use veronica.Prelude.Dict.{Dict, get}
use veronica.Float.{Float, FloatLaws}
use veronica.Distributor.Validation.{IsAdmissible, IsTooLarge}
use veronica.Values.{Value}
use veronica.Tenants.{TenantNode, Registry, get_tenant, get_ancestors}
use veronica.Tenants.Registrations.{Call, registers, updates, deletes, step, run, run-get_ancestors}
use veronica.Resolver
use veronica.Resolver.{
  Field, chain_id_field, set_field, field_of, apply_overrides, apply_nodes, resolve,
}
use veronica.Resolver.Admissible.{IsResolved, IsResolved-cases, resolve-IsResolved}
use veronica.TenantApi.{
  CreateRequest, UpdateRequest, create_tenant, update_tenant, delete_tenant, get_effective_policy,
  policy_to_response, base_policy, node_of, validate_overrides, check_given, updates_of,
}

-- What the validation of an override raises.
abbrev pub IsRefusal : Exn → Type 0
IsRefusal x = (x ≡ value_error) ⊎ (x ≡ overflow_error)

-- The writing endpoints, each with its arguments.
pub data Request (F : Type 0) : Type 0 where
  creates : CreateRequest F → F → Request F
  changes : String → UpdateRequest F → Request F
  removes : String → Request F

module _ {F : Type 0} where
  unfoldable pub handle : Registry F → Request F → Registry F
  handle ts (creates body now) = (create_tenant ts body now).0
  handle ts (changes id body) = (update_tenant ts id body).0
  handle ts (removes id) = (delete_tenant ts id).0

  unfoldable pub handle_all : Registry F → List (Request F) → Registry F
  handle_all ts [] = ts
  handle_all ts (r ∷ requests) = handle_all (handle ts r) requests

  -- A request is one call of the registry, or none when it is refused before.
  handle-run :
      (ts : Registry F) (r : Request F) → (calls : List (Call F)) × (handle ts r ≡ run ts calls)
  unfolding handle run step create_tenant update_tenant delete_tenant
  handle-run ts (creates body now) =
      elim (Result-cases (validate_overrides body.policy_overrides)) [
        | inr (e, refused) ↦ ([], rw (refused, handle, create_tenant))
        | inl (done, accepted) ↦
            (registers (node_of body now) ∷ [], rw (accepted, handle, create_tenant))
      ]
  handle-run ts (changes id body) = elim (Result-cases (check_given body.policy_overrides)) [
    | inr (e, refused) ↦ ([], rw (refused, handle, update_tenant))
    | inl (done, accepted) ↦
        (updates id (updates_of body) ∷ [], rw (accepted, handle, update_tenant))
  ]
  handle-run ts (removes id) = (deletes id ∷ [], refl)

  run-append : (ts : Registry F) (xs ys : List (Call F)) → run ts (xs ++ ys) ≡ run (run ts xs) ys
  unfolding run
  run-append ts [] ys = refl
  run-append ts (x ∷ xs) ys = run-append (step ts x) xs ys

  handle_all-run :
      (ts : Registry F) (requests : List (Request F))
      → (calls : List (Call F)) × (handle_all ts requests ≡ run ts calls)
  unfolding handle_all run
  handle_all-run ts [] = ([], refl)
  handle_all-run ts (r ∷ requests) =
      let (first, same) = handle-run ts r in
      let (rest, later) = handle_all-run (handle ts r) requests in
      (
        first ++ rest,
        later ∙ ap (λ (s : Registry F). run s rest) same ∙ sym (run-append ts first rest),
      )

module _ {F : Type 0} ⦃fl : Float F⦄ where
  set_field-err :
      (f : Field) (v : Value F) (e : Resolver.Effective F) (x : Exn)
      → set_field f v e ≡ err x
      → IsRefusal x
  unfolding set_field
  set_field-err chain_id_field v e x h = ground arith
  set_field-err _ v e x h = ground arith

  apply_overrides-err :
      (overrides : Dict (Value F)) (e : Resolver.Effective F) (x : Exn)
      → apply_overrides overrides e ≡ err x
      → IsRefusal x
  unfolding apply_overrides
  apply_overrides-err [] e x h = ground arith
  apply_overrides-err ((key, v) ∷ overrides) e x h = elim (Option-cases (field_of key)) [
    | inl skipped ↦ apply_overrides-err overrides e x (ground arith)
    | inr (field, named) ↦ elim (Result-cases (set_field field v e)) [
      | inr (y, failed) ↦ set_field-err field v e x (ground arith)
      | inl (mid, done) ↦ apply_overrides-err overrides mid x (ground arith)
    ]
  ]

  apply_nodes-err :
      (nodes : List (TenantNode F)) (e : Resolver.Effective F) (x : Exn)
      → apply_nodes nodes e ≡ err x
      → IsRefusal x
  unfolding apply_nodes
  apply_nodes-err [] e x h = ground arith
  apply_nodes-err (node ∷ nodes) e x h =
      elim (Result-cases (apply_overrides node.policy_overrides e)) [
        | inr (y, failed) ↦ apply_overrides-err node.policy_overrides e x (ground arith)
        | inl (mid, done) ↦ apply_nodes-err nodes mid x (ground arith)
      ]

module _ {F : Type 0} ⦃fl : Float F⦄ ⦃laws : FloatLaws F⦄ where
  base_policy-IsAdmissible : (id : String) (now : F) → IsAdmissible false (base_policy id now)
  base_policy-IsAdmissible id now = record {
    finite = laws.dec_finite 100 1;
    nonneg = laws.dec_nonneg 100 1;
    on_exceed = refl;
    steps = tt;
    tokens = tt;
    timeout = tt;
    priority = refl;
    complete = tt;
  }

  base_policy-IsResolved : (id : String) (now : F) → IsResolved (base_policy id now)
  base_policy-IsResolved id now = record { rest = base_policy-IsAdmissible id now; tokens = inl tt }

  -- The endpoint for a registered tenant: an override is refused, or is too large for a float, or
  -- the resolved policy is answered if its response can be made.
  abbrev pub Answers : (F → Option ℤ) → Registry F → String → F → Result (PolicyConfig F) → Type 0
  Answers whole ts id now reply =
      (reply ≡ err http_422)
      ⊎ ((reply ≡ err overflow_error)
          ⊎ ((e : Resolver.Effective F) × (resolve ts id (base_policy id now) ≡ ok e)
              × (reply ≡ policy_to_response whole e)
              × (IsAdmissible false e.policy ⊎ IsTooLarge e.policy.ceiling_tokens_out)))

  found-cases :
      (whole : F → Option ℤ) (ts : Registry F) (id : String) (now : F)
      → (node : TenantNode F) (ancestors : List (TenantNode F)) → get_tenant ts id ≡ some node
      → get_ancestors ts id ≡ ok ancestors
      → Answers whole ts id now (get_effective_policy whole ts id now)
  unfolding get_effective_policy resolve
  found-cases whole ts id now node ancestors found up =
      let start : Resolver.Effective F = record { policy = base_policy id now; unissued = false } in
      elim (Result-cases (apply_nodes (ancestors ++ node ∷ []) start)) [
        | inr (x, failed) ↦ elim (apply_nodes-err (ancestors ++ node ∷ []) start x failed) [
          | inl refused ↦ inl (ground (arith, refused))
          | inr large ↦ inr (inl (ground (arith, large)))
        ]
        | inl (e, done) ↦ inr (
            inr (
              e,
              ground arith,
              ground arith,
              IsResolved-cases e.policy (
                  resolve-IsResolved ts id (base_policy id now) e (ground arith)
                    (base_policy-IsResolved id now)),
            ))
      ]

  -- After any requests on an empty registry, the effective policy of a tenant that is not registered
  -- is a 404. That of one that is registered is a 422, or OverflowError, or the response of the
  -- resolved policy, which raises where pydantic reads no integer in its timeout. The resolved
  -- policy can be distributed, unless its token ceiling is an integer that is too large for a float.
  pub get_effective_policy-cases :
      (whole : F → Option ℤ) (requests : List (Request F)) (id : String) (now : F)
      → let ts = handle_all [] requests in
        let reply = get_effective_policy whole ts id now in
        ((get_tenant ts id ≡ none) × (reply ≡ err http_404))
        ⊎ ((node : TenantNode F) × (get_tenant ts id ≡ some node) × Answers whole ts id now reply)
  unfolding get_effective_policy get_tenant
  get_effective_policy-cases whole requests id now =
      let (calls, same) = handle_all-run [] requests in
      let ts = handle_all [] requests in
      elim (Option-cases (get id ts)) [
        | inl missing ↦ inl (missing, rw (missing, get_effective_policy))
        | inr (node, found) ↦
            let (lineage, up, line, len) =
              run-get_ancestors calls id node
                (subst (λ (s : Registry F). get id s ≡ some node) same found) in
            inr (
              node,
              found,
              found-cases whole ts id now node (reverse lineage) found (
                  subst (λ (s : Registry F). get_ancestors s id ≡ ok (reverse lineage)) (sym same)
                    up),
            )
      ]
