-- ===== src/RolloutApi.antt =====
-- The endpoints of src/veronica/rollouts/router.py over the application's state: the policy
-- registry, with its distributor, and the rollout registry. A request that fails carries its HTTP
-- status. `_build_policy` is not modelled: `create_rollout` takes what it returned or raised.
pub mod Gates
pub mod Launch
use veronica.Prelude.{ℕ, String, Option, none, some, List, [], if◌then◌else◌}
use veronica.Prelude.Result.{
  Result, ok, err, Exn, key_error, value_error, invalid_transition, http_404, http_409, http_422,
}
use veronica.Prelude.Dict.{get}
use veronica.Float.{Float}
use veronica.Types.{PolicyConfig}
use veronica.PolicyAudit.{Json}
use veronica.Distributor.{PolicyBundle}
use veronica.PolicyRegistry
use veronica.PolicyRegistry.{distribute_in, register}
use veronica.Rollouts
use veronica.Rollouts.{Rollout, RolloutState, create, transition, simulate}

-- The simulation result that the endpoint stores.
pub record SimResult (F : Type 0) : Type 0 where
  pub policy_hash : String
  pub distributed_at : F
  pub version : ℕ

pub record App (F : Type 0) : Type 0 where
  pub policies : PolicyRegistry.Registry F
  pub rollouts : Rollouts.Registry F (SimResult F)

abbrev pub Reply : Type 0 → Type 0
Reply F = App F × Result (Rollout F (SimResult F))

-- the handlers of KeyError and InvalidTransitionError; any other error is the server's
abbrev pub http_error : Exn → Exn
http_error key_error = http_404
http_error invalid_transition = http_409
http_error e = e

module _ {F : Type 0} where
  -- a call of the rollout registry, with its errors as HTTP errors
  abbrev pub on_rollouts :
      App F → Rollouts.Registry F (SimResult F) × Result (Rollout F (SimResult F)) → Reply F
  on_rollouts app (rs, ok r) = (record app { rollouts = rs }, ok r)
  on_rollouts app (rs, err e) = (record app { rollouts = rs }, err (http_error e))

  -- _do_transition
  unfoldable pub do_transition : App F → String → RolloutState → String → ℕ → Reply F
  do_transition app id target actor time =
      on_rollouts app (transition app.rollouts id target actor time)

  unfoldable pub create_rollout : App F → Result (PolicyConfig F) → String → String → ℕ → Reply F
  create_rollout app (err e) created_by id time = (app, err http_422)
  create_rollout app (ok policy) created_by id time =
      let (rs, r) = create app.rollouts policy created_by id time in
      (record app { rollouts = rs }, ok r)

  unfoldable pub get_rollout : App F → String → Result (Rollout F (SimResult F))
  get_rollout app id = elim (get id app.rollouts) [ none ↦ err http_404 | some r ↦ ok r ]

  unfoldable pub approve_rollout : App F → String → String → ℕ → Reply F
  unfolding do_transition
  approve_rollout app id actor time = do_transition app id RolloutState.approved actor time

  unfoldable pub promote_rollout : App F → String → String → ℕ → Reply F
  unfolding do_transition
  promote_rollout app id actor time = do_transition app id RolloutState.promoted actor time

  unfoldable pub revoke_rollout : App F → String → String → ℕ → Reply F
  unfolding do_transition
  revoke_rollout app id actor time = do_transition app id RolloutState.revoked actor time

module _ {F : Type 0} ⦃fl : Float F⦄ (digest : List (String × Json F) → String)
    (hmac : String → String → String) (dumps_length : SimResult F → Option ℕ) where
  -- the rollout's policy is distributed, which draws a version number, before its state is tested
  unfoldable pub simulate_rollout : App F → String → F → ℕ → Reply F
  simulate_rollout app id now time = elim (get id app.rollouts) [
    | none ↦ (app, err http_404)
    | some r ↦
        let (policies, result) = distribute_in digest hmac app.policies r.policy_config now in
        let app' : App F = record app { policies = policies } in
        elim result [
          | err e ↦ (app', err http_422)
          | ok b ↦
              let sim_result : SimResult F = record {
                policy_hash = b.policy_hash;
                distributed_at = b.distributed_at;
                version = b.version;
              } in
              on_rollouts app' (simulate dumps_length app.rollouts id sim_result "system" time)
        ]
  ]

module _ {F : Type 0} ⦃fl : Float F⦄ (digest : List (String × Json F) → String)
    (hmac : String → String → String) where
  -- the policy is registered before the rollout's state is tested
  unfoldable pub activate_rollout : App F → String → String → F → ℕ → Reply F
  unfolding do_transition
  activate_rollout app id actor now time = elim (get id app.rollouts) [
    | none ↦ (app, err http_404)
    | some r ↦
        let (policies, result) = register digest hmac app.policies r.policy_config now in
        let app' : App F = record app { policies = policies } in
        elim result [
          | err e ↦ (app', err http_409)
          | ok b ↦ do_transition app' id RolloutState.active actor time
        ]
  ]
