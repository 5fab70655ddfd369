-- ===== src/Resolver.antt =====
-- src/veronica/tenants/resolver.py: the policy of a tenant, from the overrides of its ancestors and
-- of its own. Where a float is wanted, an integer is converted first, as math.isfinite does. A value
-- of None for `issued_at`, which the field's type excludes and the endpoints refuse, is kept apart
-- from the policy.
pub mod Admissible
pub mod Nearest
use Prim.Native.String.{count}
use veronica.Prelude.{
  ℕ, String, Bool, true, false, not, ◌==◌, ◌&&◌, ◌||◌, Option, none, some, List, [], ◌∷◌, ◌++◌, any,
  ltb, if◌then◌else◌,
}
use veronica.Prelude.Int.{ℤ, pos, ltb_ℤ}
use veronica.Prelude.Result.{Result, ok, err, value_error, overflow_error, ◌>>=◌}
use veronica.Prelude.Dict.{Dict, get}
use veronica.Float.{Float, fits_float}
use veronica.Types
use veronica.Types.{Number, PolicyConfig}
use veronica.Distributor.{allowed_on_exceed}
use veronica.Values.{Value, null, boolean, int, float, text, other}
use veronica.Tenants.{TenantNode, Registry, get_tenant, get_ancestors}

-- The policy in the making, and whether its `issued_at` is None.
pub record Effective (F : Type 0) : Type 0 where
  pub policy : PolicyConfig F
  pub unissued : Bool

-- The fields of a PolicyConfig.
pub data Field : Type 0 where
  chain_id_field : Field
  ceiling_usd_field : Field
  on_exceed_field : Field
  issued_at_field : Field
  ceiling_tokens_out_field : Field
  ceiling_steps_field : Field
  fallback_model_field : Field
  timeout_ms_field : Field
  rate_window_seconds_field : Field
  rate_ceiling_calls_field : Field
  priority_field : Field
  deadline_ts_field : Field
  expires_at_field : Field
  planner_version_field : Field

-- the field that a key names
unfoldable pub field_of : String → Option Field
field_of key =
    if key == "chain_id"
    then some chain_id_field
    else if key == "ceiling_usd"
    then some ceiling_usd_field
    else if key == "on_exceed"
    then some on_exceed_field
    else if key == "issued_at"
    then some issued_at_field
    else if key == "ceiling_tokens_out"
    then some ceiling_tokens_out_field
    else if key == "ceiling_steps"
    then some ceiling_steps_field
    else if key == "fallback_model"
    then some fallback_model_field
    else if key == "timeout_ms"
    then some timeout_ms_field
    else if key == "rate_window_seconds"
    then some rate_window_seconds_field
    else if key == "rate_ceiling_calls"
    then some rate_ceiling_calls_field
    else if key == "priority"
    then some priority_field
    else if key == "deadline_ts"
    then some deadline_ts_field
    else if key == "expires_at"
    then some expires_at_field
    else if key == "planner_version"
    then some planner_version_field
    else none

module _ {F : Type 0} where
  -- `None`, or a value that is read
  abbrev pub optional : {A : Type 0} → (Value F → Result A) → Value F → Result (Option A)
  optional read null = ok none
  optional read v = do a ← read v; ok (some a)

  -- an int from 0 to 100
  abbrev pub read_priority : Value F → Result ℤ
  read_priority (int n) = if ltb_ℤ n (pos 0) || ltb_ℤ (pos 100) n then err value_error else ok n
  read_priority _ = err value_error

  -- an int that is not negative
  abbrev pub read_limit : Value F → Result ℤ
  read_limit (int n) = if ltb_ℤ n (pos 0) then err value_error else ok n
  read_limit _ = err value_error

  -- "halt", "degrade" or "queue"
  abbrev pub read_on_exceed : Value F → Result String
  read_on_exceed (text s) = if allowed_on_exceed s then ok s else err value_error
  read_on_exceed _ = err value_error

  -- a text of at most 1024 characters
  abbrev pub read_name : Value F → Result String
  read_name (text s) = if ltb 1024 (count s) then err value_error else ok s
  read_name _ = err value_error

module _ {F : Type 0} ⦃fl : Float F⦄ where
  abbrev pub check_number : F → Result F
  check_number x = if not (fl.is_finite x) || fl.lt x (fl.dec 0 0) then err value_error else ok x

  -- a number that is finite and not negative
  abbrev pub read_number : Value F → Result F
  read_number (int n) = if fits_float n then check_number (fl.of_int n) else err overflow_error
  read_number (float x) = check_number x
  read_number _ = err value_error

  -- the same, where an int stays one
  abbrev pub read_timeout : Value F → Result (Number F)
  read_timeout (int n) =
      if not (fits_float n)
      then err overflow_error
      else if ltb_ℤ n (pos 0)
      then err value_error
      else ok (Types.int n)
  read_timeout (float x) = do y ← check_number x; ok (Types.float y)
  read_timeout _ = err value_error

  abbrev to_tokens : Option ℤ → Option (Number F)
  to_tokens none = none
  to_tokens (some n) = some (Types.int n)

  abbrev pub set_issued_at : Effective F → Option F → Effective F
  set_issued_at e none = record e { unissued = true }
  set_issued_at e (some t) = record { policy = record e.policy { issued_at = t }; unissued = false }

  -- _validate_override_value for a field, with its new value in the policy; there is no rule for
  -- `chain_id`
  unfoldable pub set_field : Field → Value F → Effective F → Result (Effective F)
  set_field chain_id_field v e = err value_error
  set_field issued_at_field v e = do x ← optional read_number v; ok (set_issued_at e x)
  set_field ceiling_usd_field v e = do
    x ← read_number v
    ok (record e { policy = record e.policy { ceiling_usd = x } })
  set_field priority_field v e = do
    x ← read_priority v
    ok (record e { policy = record e.policy { priority = Types.int x } })
  set_field timeout_ms_field v e = do
    x ← optional read_timeout v
    ok (record e { policy = record e.policy { timeout_ms = x } })
  set_field ceiling_tokens_out_field v e = do
    x ← optional read_limit v
    ok (record e { policy = record e.policy { ceiling_tokens_out = to_tokens x } })
  set_field ceiling_steps_field v e = do
    x ← optional read_limit v
    ok (record e { policy = record e.policy { ceiling_steps = x } })
  set_field rate_ceiling_calls_field v e = do
    x ← optional read_limit v
    ok (record e { policy = record e.policy { rate_ceiling_calls = x } })
  set_field rate_window_seconds_field v e = do
    x ← optional read_number v
    ok (record e { policy = record e.policy { rate_window_seconds = x } })
  set_field on_exceed_field v e = do
    x ← read_on_exceed v
    ok (record e { policy = record e.policy { on_exceed = x } })
  set_field fallback_model_field v e = do
    x ← optional read_name v
    ok (record e { policy = record e.policy { fallback_model = x } })
  set_field planner_version_field v e = do
    x ← optional read_name v
    ok (record e { policy = record e.policy { planner_version = x } })
  set_field deadline_ts_field v e = do
    x ← optional read_number v
    ok (record e { policy = record e.policy { deadline_ts = x } })
  set_field expires_at_field v e = do
    x ← optional read_number v
    ok (record e { policy = record e.policy { expires_at = x } })

  -- the overrides of one node; a key that is no field is skipped
  unfoldable pub apply_overrides : Dict (Value F) → Effective F → Result (Effective F)
  apply_overrides [] e = ok e
  apply_overrides ((key, v) ∷ overrides) e = elim (field_of key) [
    | none ↦ apply_overrides overrides e
    | some field ↦ elim (set_field field v e) [
      | err x ↦ err x
      | ok e' ↦ apply_overrides overrides e'
    ]
  ]

  -- the loop over the ancestors and the tenant
  unfoldable pub apply_nodes : List (TenantNode F) → Effective F → Result (Effective F)
  apply_nodes [] e = ok e
  apply_nodes (node ∷ nodes) e = elim (apply_overrides node.policy_overrides e) [
    | err x ↦ err x
    | ok e' ↦ apply_nodes nodes e'
  ]

  -- PolicyResolver.resolve
  unfoldable pub resolve : Registry F → String → PolicyConfig F → Result (Effective F)
  unfolding apply_nodes
  resolve registry tenant_id base =
      let start : Effective F = record { policy = base; unissued = false } in
      elim (get_tenant registry tenant_id) [
        | none ↦ ok start
        | some tenant ↦ (do
          ancestors ← get_ancestors registry tenant_id
          apply_nodes (ancestors ++ tenant ∷ []) start)
      ]
