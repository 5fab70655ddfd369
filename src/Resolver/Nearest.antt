-- ===== src/Resolver/Nearest.antt =====
-- Which override decides on a field: the last one, so the nearest ancestor's, or the tenant's own.
use veronica.Prelude.{
  ◌≡◌, ◌≢◌, refl, sym, ap, ◌∙◌, String, false, Option, none, some, List, [], ◌∷◌, ◌++◌,
  Option-cases, inl, inr, if◌then◌else◌, arith,
}
use veronica.Prelude.Result.{ok, err, Result-cases}
use veronica.Prelude.Dict.{Dict}
use veronica.Float.{Float}
use veronica.Types
use veronica.Types.{PolicyConfig}
use veronica.PolicyAudit.{Json, null, number, text, json_float, json_option}
use veronica.Values.{Value}
use veronica.Tenants.{TenantNode, Registry, get_tenant, get_ancestors}
use veronica.Resolver.{
  Effective, Field, chain_id_field, ceiling_usd_field, on_exceed_field, issued_at_field,
  ceiling_tokens_out_field, ceiling_steps_field, fallback_model_field, timeout_ms_field,
  rate_window_seconds_field, rate_ceiling_calls_field, priority_field, deadline_ts_field,
  expires_at_field, planner_version_field, field_of, set_field, apply_overrides, apply_nodes,
  resolve,
}

pub Field-discrete : Discrete Field
Field-discrete = hlevel

module _ {F : Type 0} where
  -- the value of a field
  abbrev pub shown : Field → Effective F → Json F
  shown chain_id_field e = text e.policy.chain_id
  shown ceiling_usd_field e = json_float e.policy.ceiling_usd
  shown on_exceed_field e = text e.policy.on_exceed
  shown issued_at_field e = if e.unissued then null else json_float e.policy.issued_at
  shown ceiling_tokens_out_field e = json_option number e.policy.ceiling_tokens_out
  shown ceiling_steps_field e = json_option (λ n. number (Types.int n)) e.policy.ceiling_steps
  shown fallback_model_field e = json_option text e.policy.fallback_model
  shown timeout_ms_field e = json_option number e.policy.timeout_ms
  shown rate_window_seconds_field e = json_option json_float e.policy.rate_window_seconds
  shown rate_ceiling_calls_field e =
      json_option (λ n. number (Types.int n)) e.policy.rate_ceiling_calls
  shown priority_field e = number e.policy.priority
  shown deadline_ts_field e = json_option json_float e.policy.deadline_ts
  shown expires_at_field e = json_option json_float e.policy.expires_at
  shown planner_version_field e = json_option text e.policy.planner_version

  abbrev pub if_named : Option Field → Field → Value F → Option (Value F)
  if_named none f v = none
  if_named (some g) f v = elim (Field-discrete g f) [ yes h ↦ some v | no h ↦ none ]

  abbrev pub or_else : Option (Value F) → Option (Value F) → Option (Value F)
  or_else none second = second
  or_else (some v) second = some v

  -- The last override of a field.
  abbrev pub last_override : Field → Dict (Value F) → Option (Value F)
  last_override f [] = none
  last_override f ((key, v) ∷ overrides) =
      or_else (last_override f overrides) (if_named (field_of key) f v)

  -- All overrides of nodes, in order.
  abbrev pub all_overrides : List (TenantNode F) → Dict (Value F)
  all_overrides [] = []
  all_overrides (node ∷ nodes) = node.policy_overrides ++ all_overrides nodes

module _ {F : Type 0} ⦃fl : Float F⦄ where
  -- The field has the value that an override gives it, or that of the policy at the start.
  abbrev pub Decides : Field → Option (Value F) → Effective F → Effective F → Type 0
  Decides f none start e = shown f e ≡ shown f start
  Decides f (some v) start e =
      (from : Effective F) × (to : Effective F) × (set_field f v from ≡ ok to)
      × (shown f e ≡ shown f to)

  -- What an override gives a field does not depend on the policy that it is applied to.
  set_field-same :
      (f : Field) (v : Value F) (e e' d d' : Effective F)
      → set_field f v e ≡ ok e'
      → set_field f v d ≡ ok d'
      → shown f e' ≡ shown f d'
  unfolding set_field
  set_field-same chain_id_field v e e' d d' h k = ground arith
  set_field-same _ v e e' d d' h k = ground arith

  set_field-other :
      (g f : Field) (v : Value F) (e e' : Effective F)
      → set_field g v e ≡ ok e'
      → g ≢ f
      → shown f e' ≡ shown f e
  unfolding set_field
  set_field-other chain_id_field f v e e' h other = ground arith
  set_field-other _ f v e e' h other = ground arith

  apply_overrides-append :
      (xs ys : Dict (Value F)) (e : Effective F)
      → apply_overrides (xs ++ ys) e
        ≡ elim (apply_overrides xs e) [ err x ↦ err x | ok e' ↦ apply_overrides ys e' ]
  unfolding apply_overrides
  apply_overrides-append [] ys e = refl
  apply_overrides-append ((key, v) ∷ xs) ys e = elim (Option-cases (field_of key)) [
    | inl skipped ↦ ground (arith, apply_overrides-append xs ys e)
    | inr (field, named) ↦ elim (Result-cases (set_field field v e)) [
      | inr (x, failed) ↦ ground arith
      | inl (mid, done) ↦ ground (arith, apply_overrides-append xs ys mid)
    ]
  ]

  apply_nodes-all_overrides :
      (nodes : List (TenantNode F)) (e : Effective F)
      → apply_nodes nodes e ≡ apply_overrides (all_overrides nodes) e
  unfolding apply_nodes apply_overrides
  apply_nodes-all_overrides [] e = refl
  apply_nodes-all_overrides (node ∷ nodes) e =
      elim (Result-cases (apply_overrides node.policy_overrides e)) [
        | inr (x, failed) ↦
            ground (arith, apply_overrides-append node.policy_overrides (all_overrides nodes) e)
        | inl (mid, done) ↦ ground (
          arith,
          apply_overrides-append node.policy_overrides (all_overrides nodes) e,
          apply_nodes-all_overrides nodes mid,
        )
      ]

  -- One override before the others.
  Decides-cons :
      (f g : Field) (v : Value F) (later : Option (Value F)) (e mid e' : Effective F)
      → set_field g v e ≡ ok mid
      → Decides f later mid e'
      → Decides f (or_else later (if_named (some g) f v)) e e'
  Decides-cons f g v (some w) e mid e' done d = d
  Decides-cons f g v none e mid e' done d =
      elim (Field-discrete g f) as (λ t. Decides f (elim t [ yes h ↦ some v | no h ↦ none ]) e e') [
        | yes same ↦ (e, mid, ap (λ (h : Field). set_field h v e) (sym same) ∙ done, d)
        | no other ↦ d ∙ set_field-other g f v e mid done other
      ]

  or_else-none : (o : Option (Value F)) → or_else o none ≡ o
  or_else-none none = refl
  or_else-none (some v) = refl

  apply_overrides-Decides :
      (f : Field) (overrides : Dict (Value F)) (e e' : Effective F)
      → apply_overrides overrides e ≡ ok e'
      → Decides f (last_override f overrides) e e'
  unfolding apply_overrides
  apply_overrides-Decides f [] e e' h = ground arith
  apply_overrides-Decides f ((key, v) ∷ overrides) e e' h = elim (Option-cases (field_of key)) [
    | inl skipped ↦
        rw (skipped, or_else-none (last_override f overrides))
          (apply_overrides-Decides f overrides e e' (ground arith))
    | inr (field, named) ↦ elim (Result-cases (set_field field v e)) [
      | inr (x, failed) ↦ absurd (ground arith)
      | inl (mid, done) ↦ rw named (
          Decides-cons f field v (last_override f overrides) e mid e' done
            (apply_overrides-Decides f overrides mid e' (ground arith)))
    ]
  ]

  -- When a policy is resolved for a tenant with known ancestors, each field has the value of its last
  -- override, from the root down to the tenant, and that of the base policy when no node overrides it.
  pub resolve-Decides :
      (registry : Registry F) (id : String) (base : PolicyConfig F) (e : Effective F)
      → (tenant : TenantNode F) (ancestors : List (TenantNode F)) (f : Field)
      → get_tenant registry id ≡ some tenant
      → get_ancestors registry id ≡ ok ancestors
      → resolve registry id base ≡ ok e
      → Decides f
          (last_override f (all_overrides (ancestors ++ tenant ∷ [])))
          (record { policy = base; unissued = false })
          e
  unfolding resolve
  resolve-Decides registry id base e tenant ancestors f found up h =
      apply_overrides-Decides f (all_overrides (ancestors ++ tenant ∷ []))
        (record { policy = base; unissued = false }) e
        (sym (
            apply_nodes-all_overrides (ancestors ++ tenant ∷ [])
              (record { policy = base; unissued = false }))
          ∙ ground arith)
