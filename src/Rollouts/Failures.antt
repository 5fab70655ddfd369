-- ===== src/Rollouts/Failures.antt =====
-- What the methods of the rollout registry leave behind when they raise.
use veronica.Prelude.{ℕ, ◌≤◌, ◌≡◌, inl, inr, String, Option, some, length, arith}
use veronica.Prelude.Result.{ok, err, Exn, invalid_transition}
use veronica.Prelude.Dict.{get, get-put_self}
use veronica.Rollouts.{
  RolloutState, Rollout, Registry, max_history_length, transition, check_result, simulate,
}
use veronica.Rollouts.History.{transition_rollout_cases}

module _ {F R : Type 0} where
  -- A transition that raises has written nothing.
  pub transition-err :
      (rs : Registry F R) (id : String) (t : RolloutState) (actor : String) (now : ℕ) (e : Exn)
      → (transition rs id t actor now).1 ≡ err e
      → (transition rs id t actor now).0 ≡ rs
  unfolding transition
  transition-err rs id t actor now e h = ground arith

  -- A rollout whose history is full can no longer be revoked, nor moved anywhere else: every
  -- transition raises InvalidTransitionError and leaves the registry as it was.
  pub transition-full :
      (rs : Registry F R) (id : String) (r : Rollout F R) (t : RolloutState) (actor : String)
      → (now : ℕ) → get id rs ≡ some r
      → max_history_length ≤ length r.history
      → transition rs id t actor now ≡ (rs, err invalid_transition)
  unfolding transition
  transition-full rs id r t actor now e full = elim (transition_rollout_cases r t actor now) [
    | inl (_, room, _) ↦ absurd (omega arith)
    | inr (_, failed) ↦ rw (e, transition) (rw failed)
  ]

  -- `simulate` is not atomic: on a rollout that passes its tests and whose history is full it
  -- raises InvalidTransitionError, and yet the rollout holds the new simulation result.
  pub simulate-full :
      (size : R → Option ℕ) (rs : Registry F R) (id : String) (r : Rollout F R) (result : R)
      → (actor : String) (now : ℕ) → get id rs ≡ some r
      → check_result size r result ≡ ok tt
      → max_history_length ≤ length r.history
      → let (rs', reply) = simulate size rs id result actor now in
        (reply ≡ err invalid_transition)
        × (get id rs' ≡ some (record r { simulation_result = some result }))
  unfolding simulate
  simulate-full size rs id r result actor now e passed full =
      ground (arith, get-put_self id (record r { simulation_result = some result }) rs)
