-- ===== src/Resolver/Admissible.antt =====
-- A policy that overrides produce can be distributed.
use veronica.Prelude.{
  none, ◌⊎◌, ◌≡◌, String, false, List, [], ◌∷◌, ◌++◌, Option-cases, inl, inr, arith,
}
use veronica.Prelude.Result.{ok, Result-cases}
use veronica.Prelude.Dict.{Dict}
use veronica.Float.{Float}
use veronica.Types.{PolicyConfig}
use veronica.Distributor.Validation.{IsAdmissible, Bounded, IsTooLarge}
use veronica.Values.{Value}
use veronica.Tenants.{TenantNode, Registry, get_tenant, get_ancestors}
use veronica.Resolver.{
  Effective, set_field, apply_overrides, apply_nodes, resolve, Field, field_of, chain_id_field,
}

module _ {F : Type 0} ⦃fl : Float F⦄ where
  -- A policy that can be distributed, but for a token ceiling that may be too large for a float.
  pub record IsResolved (p : PolicyConfig F) : Type 0 where
    pub rest : IsAdmissible false (record p { ceiling_tokens_out = none })
    pub tokens : Bounded p.ceiling_tokens_out ⊎ IsTooLarge p.ceiling_tokens_out

  pub IsResolved-cases :
      (p : PolicyConfig F) → IsResolved p → IsAdmissible false p ⊎ IsTooLarge p.ceiling_tokens_out
  IsResolved-cases p r = elim r.tokens [
    | inr large ↦ inr large
    | inl bounded ↦ inl (record {
      finite = r.rest.finite;
      nonneg = r.rest.nonneg;
      on_exceed = r.rest.on_exceed;
      steps = r.rest.steps;
      tokens = bounded;
      timeout = r.rest.timeout;
      priority = r.rest.priority;
      complete = tt;
    })
  ]

  set_field-IsResolved :
      (field : Field) (v : Value F) (e e' : Effective F)
      → set_field field v e ≡ ok e'
      → IsResolved e.policy
      → IsResolved e'.policy
  unfolding set_field
  set_field-IsResolved chain_id_field v e e' h a = ground arith
  set_field-IsResolved _ v e e' h a = ground arith

  apply_overrides-IsResolved :
      (overrides : Dict (Value F)) (e e' : Effective F)
      → apply_overrides overrides e ≡ ok e'
      → IsResolved e.policy
      → IsResolved e'.policy
  unfolding apply_overrides
  apply_overrides-IsResolved [] e e' h a = ground arith
  apply_overrides-IsResolved ((key, v) ∷ overrides) e e' h a = elim (Option-cases (field_of key)) [
    | inl skipped ↦ apply_overrides-IsResolved overrides e e' (ground arith) a
    | inr (field, named) ↦ elim (Result-cases (set_field field v e)) [
      | inr (x, failed) ↦ absurd (ground arith)
      | inl (mid, done) ↦
          apply_overrides-IsResolved overrides mid e' (ground arith)
            (set_field-IsResolved field v e mid done a)
    ]
  ]

  apply_nodes-IsResolved :
      (nodes : List (TenantNode F)) (e e' : Effective F)
      → apply_nodes nodes e ≡ ok e'
      → IsResolved e.policy
      → IsResolved e'.policy
  unfolding apply_nodes
  apply_nodes-IsResolved [] e e' h a = ground arith
  apply_nodes-IsResolved (node ∷ nodes) e e' h a =
      elim (Result-cases (apply_overrides node.policy_overrides e)) [
        | inr (x, failed) ↦ absurd (ground arith)
        | inl (mid, done) ↦
            apply_nodes-IsResolved nodes mid e' (ground arith)
              (apply_overrides-IsResolved node.policy_overrides e mid done a)
      ]

  -- Whatever overrides the tenant and its ancestors have, when a policy is resolved from an
  -- admissible base it passes the validation of a distributor that is not strict.
  pub resolve-IsResolved :
      (registry : Registry F) (tenant_id : String) (base : PolicyConfig F) (e : Effective F)
      → resolve registry tenant_id base ≡ ok e
      → IsResolved base
      → IsResolved e.policy
  unfolding resolve
  resolve-IsResolved registry tenant_id base e h a =
      elim (Option-cases (get_tenant registry tenant_id)) [
        | inl missing ↦ ground arith
        | inr (tenant, found) ↦ elim (Result-cases (get_ancestors registry tenant_id)) [
          | inr (x, failed) ↦ absurd (ground arith)
          | inl (ancestors, up) ↦
              apply_nodes-IsResolved (ancestors ++ tenant ∷ [])
                (record { policy = base; unissued = false }) e (ground arith) a
        ]
      ]
