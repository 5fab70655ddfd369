-- ===== src/RolloutApi/Gates.antt =====
-- The approval gates as the endpoints keep them, and where `activate_rollout` does not.
use veronica.Prelude.{ℕ, ◌≡◌, ◌≢◌, refl, inl, inr, String, some, List, arith}
use veronica.Prelude.Result.{ok, err, http_409, Result-cases}
use veronica.Prelude.Dict.{get, get-put_self}
use veronica.Float.{Float}
use veronica.Types.{PolicyConfig}
use veronica.PolicyAudit.{Json}
use veronica.Distributor.{PolicyBundle, distribute}
use veronica.Distributor.Validation.{IsAdmissible}
use veronica.Distributor.Versions.{distribute_accepts}
use veronica.PolicyRegistry
use veronica.PolicyRegistry.{register, get_policy}
use veronica.Rollouts.{Rollout, RolloutState, promoted, active, transition}
use veronica.Rollouts.Lifecycle.{Step}
use veronica.Rollouts.History.{transition_rollout_cases}
use veronica.RolloutApi.{App, SimResult, do_transition, activate_rollout}

Step-active : {s t : RolloutState} → Step s t → t ≡ active → s ≡ promoted
Step-active Step.activates e = refl
Step-active Step.simulates e = cc
Step-active Step.approves e = cc
Step-active Step.promotes e = cc
Step-active Step.redrafts e = cc
Step-active Step.reworks e = cc
Step-active Step.demotes e = cc
Step-active (Step.revokes h) e = cc

module _ {F : Type 0} ⦃fl : Float F⦄ (digest : List (String × Json F) → String)
    (hmac : String → String → String) where
  -- Registering an admissible policy makes it the live policy of its chain.
  pub register_live :
      (r : PolicyRegistry.Registry F) (p : PolicyConfig F) (now : F)
      → IsAdmissible r.distributor.strict p
      → (b : PolicyBundle F) × ((register digest hmac r p now).1 ≡ ok b)
        × (get_policy (register digest hmac r p now).0 p.chain_id ≡ some b)
        × (b.policy ≡ p)
  unfolding register get_policy
  register_live r p now a =
      let (b, e, issued) = distribute_accepts digest hmac r.distributor p now a in
      (b, ground (arith, e), ground (arith, e, get-put_self p.chain_id b r.store), issued.policy)

module _ {F : Type 0} where
  -- The transition to ACTIVE is refused in any other state than PROMOTED.
  transition-active-refused :
      (app : App F) (id actor : String) (time : ℕ) (r : Rollout F (SimResult F))
      → get id app.rollouts ≡ some r
      → r.state ≢ promoted
      → do_transition app id active actor time ≡ (app, err http_409)
  unfolding do_transition transition
  transition-active-refused app id actor time r e ne =
      elim (transition_rollout_cases r active actor time) [
        | inl (st, _, _) ↦ absurd (ne (Step-active st refl))
        | inr (_, failed) ↦ rw (e, transition) (rw failed)
      ]

  transition-active-ok :
      (app : App F) (id actor : String) (time : ℕ) (r r' : Rollout F (SimResult F))
      → get id app.rollouts ≡ some r
      → (do_transition app id active actor time).1 ≡ ok r'
      → (r.state ≡ promoted)
        × (r'.state ≡ active)
        × (get id (do_transition app id active actor time).0.rollouts ≡ some r')
        × ((do_transition app id active actor time).0.policies ≡ app.policies)
  unfolding do_transition transition
  transition-active-ok app id actor time r r' e h =
      elim (transition_rollout_cases r active actor time) [
        | inl (st, _, done) ↦ (
          Step-active st refl,
          ground (arith, e, done),
          ground (arith, e, done, get-put_self id r' app.rollouts),
          ground (arith, e, done),
        )
        | inr (_, failed) ↦ absurd (ground (arith, e, failed))
      ]

module _ {F : Type 0} ⦃fl : Float F⦄ (digest : List (String × Json F) → String)
    (hmac : String → String → String) where
  register-ok :
      (r : PolicyRegistry.Registry F) (p : PolicyConfig F) (now : F) (b : PolicyBundle F)
      → (register digest hmac r p now).1 ≡ ok b
      → (get_policy (register digest hmac r p now).0 p.chain_id ≡ some b) × (b.policy ≡ p)
  unfolding register distribute get_policy
  register-ok r p now b e = (ground (arith, get-put_self p.chain_id b r.store), ground arith)

  -- The approval gates can be passed by: activating a rollout in any state but PROMOTED, a fresh
  -- draft included, answers 409 and leaves the rollouts alone, and yet an admissible policy of it
  -- has become the live policy of its chain.
  pub activate_rollout-bypass :
      (app : App F) (id actor : String) (now : F) (time : ℕ) (r : Rollout F (SimResult F))
      → get id app.rollouts ≡ some r
      → r.state ≢ promoted
      → IsAdmissible app.policies.distributor.strict r.policy_config
      → let (app', reply) = activate_rollout digest hmac app id actor now time in
        (reply ≡ err http_409)
        × (app'.rollouts ≡ app.rollouts)
        × ((b : PolicyBundle F) × (get_policy app'.policies r.policy_config.chain_id ≡ some b)
            × (b.policy ≡ r.policy_config))
  unfolding activate_rollout
  activate_rollout-bypass app id actor now time r e ne a =
      let (b, done, live, same) = register_live digest hmac app.policies r.policy_config now a in
      let p' = (register digest hmac app.policies r.policy_config now).0 in
      let refused = transition-active-refused (record app { policies = p' }) id actor time r e ne in
      (
        ground (arith, done, refused),
        ground (arith, done, refused),
        (b, ground (arith, done, refused, live), same),
      )

  -- When activation succeeds, the rollout was PROMOTED, is ACTIVE now, and its policy is live.
  pub activate_rollout-ok :
      (app : App F) (id actor : String) (now : F) (time : ℕ) (r r' : Rollout F (SimResult F))
      → get id app.rollouts ≡ some r
      → (activate_rollout digest hmac app id actor now time).1 ≡ ok r'
      → (r.state ≡ promoted)
        × (r'.state ≡ active)
        × (get id (activate_rollout digest hmac app id actor now time).0.rollouts ≡ some r')
        × ((b : PolicyBundle F) × (get_policy
                (activate_rollout digest hmac app id actor now time).0.policies
                r.policy_config.chain_id
              ≡ some b)
            × (b.policy ≡ r.policy_config))
  unfolding activate_rollout
  activate_rollout-ok app id actor now time r r' e h =
      elim (Result-cases (register digest hmac app.policies r.policy_config now).1) [
        | inr (x, failed) ↦ absurd (ground (arith, e, failed))
        | inl (b, done) ↦
            let p' = (register digest hmac app.policies r.policy_config now).0 in
            let (live, same) = register-ok app.policies r.policy_config now b done in
            let (was, is, kept, rest) =
              transition-active-ok (record app { policies = p' }) id actor time r r' e
                (ground (arith, e, done)) in
            (was, is, ground (arith, e, done, kept), (b, ground (arith, e, done, rest, live), same))
      ]
