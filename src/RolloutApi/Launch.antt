-- ===== src/RolloutApi/Launch.antt =====
-- A rollout through all its gates: the endpoints lead from a policy to its live bundle.
use veronica.Prelude.{
  ℕ, ◌+◌, ◌≤◌, ◌<◌, ◌≡◌, refl, sym, ap, ◌∙◌, Bool, subst, inl, inr, String, Option, some, List,
  length, length-append, arith,
}
use veronica.Prelude.Result.{ok}
use veronica.Prelude.Dict.{get, get-put_self}
use veronica.Float.{Float}
use veronica.Types.{PolicyConfig}
use veronica.PolicyAudit.{Json}
use veronica.Distributor.{PolicyBundle}
use veronica.Distributor.Validation.{IsAdmissible}
use veronica.Distributor.Versions.{distribute_accepts}
use veronica.PolicyRegistry
use veronica.PolicyRegistry.{register, get_policy}
use veronica.Rollouts.{
  Rollout, RolloutState, draft, simulated, approved, promoted, active, transition, simulate, create,
  new_rollout, check_result, enter, clear_result, max_history_length, max_sim_result_size,
}
use veronica.Rollouts.Lifecycle.{Step}
use veronica.Rollouts.History.{transition_rollout_cases}
use veronica.RolloutApi.{
  App, SimResult, do_transition, create_rollout, simulate_rollout, approve_rollout, promote_rollout,
  activate_rollout,
}
use veronica.RolloutApi.Gates.{register_live}

module _ {F : Type 0} where
  -- A rollout of a policy in a state, with a number of history entries.
  abbrev pub At : App F → String → RolloutState → PolicyConfig F → ℕ → Type 0
  At app id state policy entries =
      (r : Rollout F (SimResult F)) × (get id app.rollouts ≡ some r)
      × (r.state ≡ state)
      × (r.policy_config ≡ policy)
      × (length r.history ≡ entries)

  do_transition-At :
      (app : App F) (id actor : String) (time : ℕ) (s t : RolloutState) (p : PolicyConfig F) (n : ℕ)
      → At app id s p n
      → Step s t
      → n < max_history_length
      → let app' = (do_transition app id t actor time).0 in
        At app' id t p (n + 1) × (app'.policies ≡ app.policies)
  unfolding do_transition transition
  do_transition-At app id actor time s t p n (r, found, state, policy, entries) st room =
      elim (transition_rollout_cases r t actor time) [
        | inr (inl no_step, failed) ↦
            absurd (no_step (subst (λ (x : RolloutState). Step x t) (sym state) st))
        | inr (inr full, failed) ↦ absurd (omega (arith, full, room, entries))
        | inl (step, below, done) ↦
            let r' : Rollout F (SimResult F) = record (enter r t actor time) {
              simulation_result = clear_result t r.simulation_result;
            } in
            (
              (
                r',
                ground (arith, found, done, get-put_self id r' app.rollouts),
                refl,
                policy,
                omega (arith, entries, length-append {0} r.history),
              ),
              ground (arith, found, done),
            )
      ]

module _ {F : Type 0} ⦃fl : Float F⦄ (digest : List (String × Json F) → String)
    (hmac : String → String → String) (dumps_length : SimResult F → Option ℕ) where
  -- The five requests of a launch.
  abbrev pub launch : App F → PolicyConfig F → String → String → F → ℕ → App F
  launch app policy actor id now time =
      let created = (create_rollout app (ok policy) actor id time).0 in
      let tested = (simulate_rollout digest hmac dumps_length created id now time).0 in
      let accepted = (approve_rollout tested id actor time).0 in
      let staged = (promote_rollout accepted id actor time).0 in
      (activate_rollout digest hmac staged id actor now time).0

module _ {F : Type 0} ⦃fl : Float F⦄ (digest : List (String × Json F) → String)
    (hmac : String → String → String) (dumps_length : SimResult F → Option ℕ)
    (fits : (result : SimResult F)
      → (n : ℕ) × (dumps_length result ≡ some n) × (n ≤ max_sim_result_size)) where
  simulate_rollout-At :
      (app : App F) (id : String) (now : F) (time : ℕ) (p : PolicyConfig F) (n : ℕ)
      → At app id draft p n
      → n < max_history_length
      → IsAdmissible app.policies.distributor.strict p
      → let app' = (simulate_rollout digest hmac dumps_length app id now time).0 in
        At app' id simulated p (n + 1)
        × (app'.policies.distributor.strict ≡ app.policies.distributor.strict)
  unfolding simulate_rollout simulate check_result
  simulate_rollout-At app id now time p n (r, found, state, policy, entries) room a =
      let (b, done, issued) =
        distribute_accepts digest hmac app.policies.distributor r.policy_config now (
          subst (λ (q : PolicyConfig F). IsAdmissible app.policies.distributor.strict q)
            (sym policy) a) in
      let sim_result : SimResult F = record {
        policy_hash = b.policy_hash;
        distributed_at = b.distributed_at;
        version = b.version;
      } in
      let r' : Rollout F (SimResult F) =
        enter (record r { simulation_result = some sim_result }) simulated "system" time in
      let (size, dumped, small) = fits sim_result in
      (
        (
          r',
          ground (arith, found, done, dumped, small, get-put_self id r' app.rollouts),
          refl,
          policy,
          omega (arith, entries, length-append {0} r.history),
        ),
        ground (arith, found, done),
      )

  activate_rollout-At :
      (app : App F) (id actor : String) (now : F) (time : ℕ) (p : PolicyConfig F) (n : ℕ)
      → At app id promoted p n
      → n < max_history_length
      → IsAdmissible app.policies.distributor.strict p
      → let app' = (activate_rollout digest hmac app id actor now time).0 in
        At app' id active p (n + 1)
        × ((b : PolicyBundle F) × (get_policy app'.policies p.chain_id ≡ some b) × (b.policy ≡ p))
  unfolding activate_rollout
  activate_rollout-At app id actor now time p n (r, found, state, policy, entries) room a =
      let (b, done, live, own) = register_live digest hmac app.policies r.policy_config now (
        subst (λ (q : PolicyConfig F). IsAdmissible app.policies.distributor.strict q) (sym policy)
          a) in
      let registered : App F = record app {
        policies = (register digest hmac app.policies r.policy_config now).0;
      } in
      let (moved, kept) =
        do_transition-At registered id actor time promoted active p n
          (r, found, state, policy, entries) Step.activates room in
      rw (found, done, activate_rollout) (moved, (b, rw kept (rw (sym policy) live), own ∙ policy))

  -- An admissible policy can go live: where simulation results are serialised within their limit,
  -- creating, simulating, approving, promoting and activating a rollout of it, in any state of the
  -- application, makes the rollout ACTIVE and a bundle of the policy the live one of its chain.
  pub launch-live :
      (app : App F) (policy : PolicyConfig F) (actor id : String) (now : F) (time : ℕ)
      → IsAdmissible app.policies.distributor.strict policy
      → let app' = launch digest hmac dumps_length app policy actor id now time in
        ((r : Rollout F (SimResult F)) × (get id app'.rollouts ≡ some r) × (r.state ≡ active))
        × ((b : PolicyBundle F) × (get_policy app'.policies policy.chain_id ≡ some b)
            × (b.policy ≡ policy))
  unfolding create_rollout create new_rollout approve_rollout promote_rollout activate_rollout
  launch-live app policy actor id now time a =
      let created = (create_rollout app (ok policy) actor id time).0 in
      let drafted : At created id draft policy 0 = (
        new_rollout policy actor id time,
        get-put_self id (new_rollout policy actor id time) app.rollouts,
        refl,
        refl,
        refl,
      ) in
      let (at_simulated, kept) =
        simulate_rollout-At created id now time policy 0 drafted (omega arith) a in
      let tested = (simulate_rollout digest hmac dumps_length created id now time).0 in
      let (at_approved, same) =
        do_transition-At tested id actor time simulated approved policy 1 at_simulated Step.approves
          (omega arith) in
      let accepted = (approve_rollout tested id actor time).0 in
      let (at_promoted, still) =
        do_transition-At accepted id actor time approved promoted policy 2 at_approved Step.promotes
          (omega arith) in
      let staged = (promote_rollout accepted id actor time).0 in
      let (launched, live) =
        activate_rollout-At staged id actor now time policy 3 at_promoted (omega arith) (
          subst (λ (strict : Bool). IsAdmissible strict policy)
            (sym
              (ap (λ (x : PolicyRegistry.Registry F). x.distributor.strict) (still ∙ same) ∙ kept))
            a) in
      ((launched.0, launched.1, launched.2), live)
