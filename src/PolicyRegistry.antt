-- ===== src/PolicyRegistry.antt =====
-- src/veronica/api/policy_registry.py: the live policy of each chain. `update` takes the lock
-- twice, so its two critical sections are functions of their own, between which other calls may
-- run. The router admits page numbers from 1 and page sizes from 1 only.
pub mod Invariant
pub mod Concurrency
pub mod Races
use veronica.Prelude.{
  ℕ, ◌+◌, ◌-◌, ◌*◌, String, Bool, not, Option, none, some, List, length, take, drop, eqb,
  if◌then◌else◌,
}
use veronica.Prelude.Int.{ℤ}
use veronica.Prelude.Result.{Result, ok, err, Exn, key_error, value_error, ◌>>=◌}
use veronica.Prelude.Dict.{Dict, get, put, values}
use veronica.Float.{Float}
use veronica.Types.{Number, PolicyConfig, or_default}
use veronica.PolicyAudit.{Json}
use veronica.Distributor.{Distributor, PolicyBundle, distribute}

pub record Registry (F : Type 0) : Type 0 where
  pub distributor : Distributor
  pub store : Dict (PolicyBundle F)

-- The keyword arguments of `update`; `chain_id` is not among them, and `issued_at` is overwritten.
pub record Fields (F : Type 0) : Type 0 where
  pub ceiling_usd : Option F
  pub on_exceed : Option String
  pub ceiling_tokens_out : Option (Number F)
  pub ceiling_steps : Option ℤ
  pub fallback_model : Option String
  pub timeout_ms : Option (Number F)
  pub rate_window_seconds : Option F
  pub rate_ceiling_calls : Option ℤ
  pub priority : Option (Number F)
  pub deadline_ts : Option F
  pub expires_at : Option F
  pub planner_version : Option String

-- a keyword that is None leaves the field as it is
abbrev pub override_with {ℓ} : {A : Type ℓ} → Option A → Option A → Option A
override_with none old = old
override_with (some a) old = some a

module _ {F : Type 0} where
  abbrev pub empty : Distributor → Registry F
  empty d = record { distributor = d; store = List.[] }

  -- `all_bundles[start:end], total`
  unfoldable pub list_policies : Registry F → ℕ → ℕ → List (PolicyBundle F) × ℕ
  list_policies r page per_page =
      let all_bundles = values r.store in
      (take per_page (drop ((page - 1) * per_page) all_bundles), length all_bundles)

  unfoldable pub get_policy : Registry F → String → Option (PolicyBundle F)
  get_policy r chain_id = get chain_id r.store

  -- `replace(existing.policy, **update_kwargs)`
  abbrev pub replace : PolicyConfig F → Fields F → F → PolicyConfig F
  replace p f now = record p {
    ceiling_usd = or_default f.ceiling_usd p.ceiling_usd;
    on_exceed = or_default f.on_exceed p.on_exceed;
    issued_at = now;
    ceiling_tokens_out = override_with f.ceiling_tokens_out p.ceiling_tokens_out;
    ceiling_steps = override_with f.ceiling_steps p.ceiling_steps;
    fallback_model = override_with f.fallback_model p.fallback_model;
    timeout_ms = override_with f.timeout_ms p.timeout_ms;
    rate_window_seconds = override_with f.rate_window_seconds p.rate_window_seconds;
    rate_ceiling_calls = override_with f.rate_ceiling_calls p.rate_ceiling_calls;
    priority = or_default f.priority p.priority;
    deadline_ts = override_with f.deadline_ts p.deadline_ts;
    expires_at = override_with f.expires_at p.expires_at;
    planner_version = override_with f.planner_version p.planner_version;
  }

  -- the first critical section of `update`
  unfoldable pub begin_update : Registry F → String → ℕ → Fields F → F → Result (PolicyConfig F)
  begin_update r chain_id current_version fields now = elim (get chain_id r.store) [
    | none ↦ err key_error
    | some existing ↦
        if eqb existing.version current_version
        then ok (replace existing.policy fields now)
        else err value_error
  ]

  -- the second critical section of `update`: re-check, then store
  unfoldable pub finish_update :
      Registry F → String → ℕ → PolicyBundle F → Registry F × Result (PolicyBundle F)
  finish_update r chain_id current_version bundle = elim (get chain_id r.store) [
    | none ↦ (r, err value_error)
    | some current ↦
        if eqb current.version current_version
        then (record r { store = put chain_id bundle r.store }, ok bundle)
        else (r, err value_error)
  ]

  -- what `register` and `update` do with the outcome of `distribute`
  abbrev pub store_bundle :
      String → Registry F × Result (PolicyBundle F) → Registry F × Result (PolicyBundle F)
  store_bundle chain_id (r, err e) = (r, err e)
  store_bundle chain_id (r, ok bundle) =
      (record r { store = put chain_id bundle r.store }, ok bundle)

  abbrev finish_with :
      String → ℕ → Registry F × Result (PolicyBundle F) → Registry F × Result (PolicyBundle F)
  finish_with chain_id current_version (r, err e) = (r, err e)
  finish_with chain_id current_version (r, ok bundle) =
      finish_update r chain_id current_version bundle

module _ {F : Type 0} ⦃fl : Float F⦄ (digest : List (String × Json F) → String)
    (hmac : String → String → String) where
  -- the registry's calls of its distributor
  abbrev pub distribute_in : Registry F → PolicyConfig F → F → Registry F × Result (PolicyBundle F)
  distribute_in r policy now =
      let (d, result) = distribute digest hmac r.distributor policy now in
      (record r { distributor = d }, result)

  -- PolicyRegistry.register
  unfoldable pub register : Registry F → PolicyConfig F → F → Registry F × Result (PolicyBundle F)
  register r policy now = store_bundle policy.chain_id (distribute_in r policy now)

  -- PolicyRegistry.update, with nothing between its critical sections
  unfoldable pub update :
      Registry F → String → ℕ → Fields F → F → Registry F × Result (PolicyBundle F)
  unfolding begin_update finish_update
  update r chain_id current_version fields now =
      elim (begin_update r chain_id current_version fields now) [
        | err e ↦ (r, err e)
        | ok policy ↦ finish_with chain_id current_version (distribute_in r policy now)
      ]
