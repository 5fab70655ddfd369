-- ===== src/Tenants.antt =====
-- src/veronica/tenants/models.py and registry.py: the tenant hierarchy. Each method holds the lock
-- throughout, so it is one function of the registry; `deepcopy` is the identity on values. The two
-- `while` loops over parents take the 100 rounds that the code allows as fuel.
pub mod Forest
pub mod Registrations
use veronica.Prelude.{
  ℕ, zero, suc, String, Bool, true, false, not, ◌==◌, Option, none, some, List, [], ◌∷◌, select,
  any, is_some, if◌then◌else◌,
}
use mathlib.Core.List.{reverse}
use veronica.Prelude.Result.{
  Result, ok, err, Exn, key_error, value_error, type_error, runtime_error, ◌>>=◌,
}
use veronica.Prelude.Dict.{Dict, get, put, remove, values}
use veronica.Values.{Value, text, Argument, plain, mapping}

pub record TenantNode (F : Type 0) : Type 0 where
  pub id : String
  pub name : String
  pub parent_id : Option String
  pub policy_overrides : Dict (Value F)
  pub created_at : F

abbrev pub Registry : Type 0 → Type 0
Registry F = Dict (TenantNode F)

abbrev pub max_depth : ℕ
max_depth = 100

-- parent_id == tenant_id
abbrev pub is_parent : String → Option String → Bool
is_parent id none = false
is_parent id (some p) = p == id

-- The argument of `update`, as far as it is read: what stands under its two keys.
pub record Updates (F : Type 0) : Type 0 where
  pub name : Option (Argument F)
  pub policy_overrides : Option (Argument F)

module _ {F : Type 0} where
  -- the loop of `_walk_ancestors_unsafe`
  unfoldable pub walk : Registry F → ℕ → Option String → Result (List String)
  walk ts fuel none = ok []
  walk ts zero (some id) = err runtime_error
  walk ts (suc fuel) (some id) = elim (get id ts) [
    | none ↦ ok []
    | some node ↦ (do rest ← walk ts fuel node.parent_id; ok (id ∷ rest))
  ]

  -- the loop of `get_ancestors`
  unfoldable pub climb : Registry F → ℕ → Option String → Result (List (TenantNode F))
  climb ts fuel none = ok []
  climb ts zero (some id) = err runtime_error
  climb ts (suc fuel) (some id) = elim (get id ts) [
    | none ↦ ok []
    | some node ↦ (do rest ← climb ts fuel node.parent_id; ok (node ∷ rest))
  ]

  -- `parent_id is not None and parent_id not in self._tenants`
  abbrev pub is_missing : Registry F → Option String → Bool
  is_missing ts none = false
  is_missing ts (some p) = not (is_some (get p ts))

  -- TenantRegistry.register
  unfoldable pub register : Registry F → TenantNode F → Registry F × Result (TenantNode F)
  register ts tenant =
      if is_some (get tenant.id ts)
      then (ts, err value_error)
      else if is_missing ts tenant.parent_id
      then (ts, err value_error)
      else elim (walk ts max_depth tenant.parent_id) [
        | err e ↦ (ts, err e)
        | ok _ ↦ (put tenant.id tenant ts, ok tenant)
      ]

  unfoldable pub get_tenant : Registry F → String → Option (TenantNode F)
  get_tenant ts id = get id ts

  unfoldable pub list_all : Registry F → List (TenantNode F)
  list_all ts = values ts

  abbrev set_name : Option (Argument F) → TenantNode F → Result (TenantNode F)
  set_name none tenant = ok tenant
  set_name (some (plain (text s))) tenant = ok (record tenant { name = s })
  set_name (some _) tenant = err type_error

  abbrev set_overrides : Option (Argument F) → TenantNode F → Result (TenantNode F)
  set_overrides none tenant = ok tenant
  set_overrides (some (mapping d)) tenant = ok (record tenant { policy_overrides = d })
  set_overrides (some _) tenant = err type_error

  -- TenantRegistry.update: a name that was set stays set when the overrides are then refused
  unfoldable pub update : Registry F → String → Updates F → Registry F × Result (TenantNode F)
  update ts id updates = elim (get id ts) [
    | none ↦ (ts, err key_error)
    | some tenant ↦ elim (set_name updates.name tenant) [
      | err e ↦ (ts, err e)
      | ok named ↦ elim (set_overrides updates.policy_overrides named) [
        | err e ↦ (put id named ts, err e)
        | ok tenant' ↦ (put id tenant' ts, ok tenant')
      ]
    ]
  ]

  unfoldable pub get_children : Registry F → String → List (TenantNode F)
  get_children ts id = select (λ t. is_parent id t.parent_id) (values ts)

  abbrev has_children : Registry F → String → Bool
  has_children ts id = any (λ t. is_parent id t.parent_id) (values ts)

  -- TenantRegistry.delete
  unfoldable pub delete : Registry F → String → Registry F × Result (Unit {0})
  delete ts id =
      if not (is_some (get id ts))
      then (ts, err key_error)
      else if has_children ts id
      then (ts, err value_error)
      else (remove id ts, ok tt)

  -- TenantRegistry.get_ancestors, root first
  unfoldable pub get_ancestors : Registry F → String → Result (List (TenantNode F))
  get_ancestors ts id = elim (get id ts) [
    | none ↦ ok []
    | some current ↦ (do up ← climb ts max_depth current.parent_id; ok (reverse up))
  ]
