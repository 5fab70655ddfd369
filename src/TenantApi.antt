-- ===== src/TenantApi.antt =====
-- src/veronica/api/routes/tenants.py: the endpoints over the tenant registry and the resolver. The
-- identifiers and names in a request have passed its schema. Errors that no handler catches are the
-- server's, and are returned as they are.
pub mod Effective
use Prim.Native.String.{count}
use veronica.Prelude.{
  ℕ, String, Bool, true, false, not, ◌==◌, Option, none, some, List, [], ◌∷◌, any, ltb, length,
  is_some, if◌then◌else◌,
}
use veronica.Prelude.Int.{ℤ, pos}
use veronica.Prelude.Result.{
  Result, ok, err, Exn, key_error, value_error, type_error, http_404, http_409, http_422, raise_if,
  ◌>>◌, ◌>>=◌, validation_error,
}
use veronica.Responses.{policy_response}
use veronica.Prelude.Dict.{Dict}
use veronica.Float.{Float}
use veronica.Types.{PolicyConfig, int}
use veronica.Values.{Value, text, plain, mapping}
use mathlib.Core.Option
use veronica.Tenants
use veronica.Tenants.{TenantNode, Registry, register, get_tenant, list_all, update, delete}
use veronica.Resolver.{resolve}
use veronica.Resolver

abbrev pub known_override_keys : List String
known_override_keys =
    "ceiling_usd" ∷ "on_exceed" ∷ "ceiling_tokens_out" ∷ "ceiling_steps" ∷ "fallback_model"
    ∷ "timeout_ms" ∷ "rate_window_seconds" ∷ "rate_ceiling_calls" ∷ "priority" ∷ "deadline_ts"
    ∷ "expires_at" ∷ "planner_version" ∷ []

abbrev pub is_known_key : String → Bool
is_known_key key = any (λ k. k == key) known_override_keys

module _ {F : Type 0} where
  -- _validate_overrides, which reads the keys
  unfoldable pub validate_overrides : Dict (Value F) → Result (Unit {0})
  validate_overrides overrides = do
    raise_if (ltb 20 (length overrides)) http_422
    raise_if (any (λ o. ltb 128 (count o.0)) overrides) http_422
    raise_if (any (λ o. not (is_known_key o.0)) overrides) http_422

pub record CreateRequest (F : Type 0) : Type 0 where
  pub id : String
  pub name : String
  pub parent_id : Option String
  pub policy_overrides : Dict (Value F)

pub record UpdateRequest (F : Type 0) : Type 0 where
  pub name : Option String
  pub policy_overrides : Option (Dict (Value F))

abbrev pub Reply : Type 0 → Type 0
Reply F = Registry F × Result (TenantNode F)

-- the handlers of the three endpoints that write
abbrev pub create_error : Exn → Exn
create_error value_error = http_422
create_error e = e

abbrev pub update_error : Exn → Exn
update_error key_error = http_404
update_error e = e

abbrev pub delete_error : Exn → Exn
delete_error key_error = http_404
delete_error value_error = http_409
delete_error e = e

abbrev pub map_error : {A : Type 0} → (Exn → Exn) → Result A → Result A
map_error f (ok a) = ok a
map_error f (err e) = err (f e)

module _ {F : Type 0} where
  unfoldable pub list_tenants : Registry F → List (TenantNode F)
  list_tenants ts = list_all ts

  unfoldable pub read_tenant : Registry F → String → Result (TenantNode F)
  read_tenant ts id = elim (get_tenant ts id) [ none ↦ err http_404 | some node ↦ ok node ]

  abbrev pub node_of : CreateRequest F → F → TenantNode F
  node_of body now = record {
    id = body.id;
    name = body.name;
    parent_id = body.parent_id;
    policy_overrides = body.policy_overrides;
    created_at = now;
  }

  unfoldable pub create_tenant : Registry F → CreateRequest F → F → Reply F
  create_tenant ts body now = elim (validate_overrides body.policy_overrides) [
    | err e ↦ (ts, err e)
    | ok _ ↦
        let (ts', result) = register ts (node_of body now) in (ts', map_error create_error result)
  ]

  abbrev pub check_given : Option (Dict (Value F)) → Result (Unit {0})
  check_given none = ok tt
  check_given (some overrides) = validate_overrides overrides

  abbrev pub updates_of : UpdateRequest F → Tenants.Updates F
  updates_of body = record {
    name = Option.map (λ s. plain (text s)) body.name;
    policy_overrides = Option.map (λ d. mapping d) body.policy_overrides;
  }

  unfoldable pub update_tenant : Registry F → String → UpdateRequest F → Reply F
  update_tenant ts id body = elim (check_given body.policy_overrides) [
    | err e ↦ (ts, err e)
    | ok _ ↦
        let (ts', result) = update ts id (updates_of body) in (ts', map_error update_error result)
  ]

  unfoldable pub delete_tenant : Registry F → String → Registry F × Result (Unit {0})
  delete_tenant ts id = let (ts', result) = delete ts id in (ts', map_error delete_error result)

-- the handler of ValueError and TypeError
abbrev pub resolve_error : Exn → Exn
resolve_error value_error = http_422
resolve_error type_error = http_422
resolve_error e = e

module _ {F : Type 0} ⦃fl : Float F⦄ where
  abbrev pub base_policy : String → F → PolicyConfig F
  base_policy tenant_id now = record {
    chain_id = tenant_id;
    ceiling_usd = fl.dec 100 1;
    on_exceed = "halt";
    issued_at = now;
    ceiling_tokens_out = none;
    ceiling_steps = none;
    fallback_model = none;
    timeout_ms = none;
    rate_window_seconds = none;
    rate_ceiling_calls = none;
    priority = int (pos 50);
    deadline_ts = none;
    expires_at = none;
    planner_version = none;
  }

  -- _policy_to_response, for which a float is asked as `issued_at`
  abbrev pub policy_to_response : (F → Option ℤ) → Resolver.Effective F → Result (PolicyConfig F)
  policy_to_response whole e =
      raise_if e.unissued validation_error >> policy_response whole e.policy

  unfoldable pub get_effective_policy :
      (F → Option ℤ) → Registry F → String → F → Result (PolicyConfig F)
  get_effective_policy whole ts id now = elim (get_tenant ts id) [
    | none ↦ err http_404
    | some node ↦
        map_error resolve_error (resolve ts id (base_policy id now)) >>= policy_to_response whole
  ]
