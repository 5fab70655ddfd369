-- ===== src/Rollouts/History.antt =====
-- The invariant of the rollout registry, kept by every method in any order of calls.
use veronica.Prelude.{
  ℕ, ◌≤◌, ◌<◌, ◌≡◌, refl, ◌⊎◌, inl, inr, String, Option, some, All, length, length-append,
  Bool-cases, Option-cases, leb, arith,
}
use veronica.Prelude.Result.{Result, ok, err, invalid_transition, Result-cases}
use veronica.Prelude.Dict.{get, values, All-put, All-get}
use veronica.Types.{PolicyConfig}
use veronica.Rollouts.{
  RolloutState, draft, simulated, Rollout, Registry, allowed, enter, clear_result,
  max_history_length, new_rollout, transition_rollout, transition, check_result,
  set_simulation_result, simulate,
}
use veronica.Rollouts.Lifecycle.{Step, IsPath, IsPath-append, allowed-iff-Step}

module _ {F R : Type 0} where
  -- The recorded history explains the state, and is within its limit.
  pub record IsWellFormed (r : Rollout F R) : Type 0 where
    pub path : IsPath draft r.history r.state
    pub bounded : length r.history ≤ max_history_length

  pub new_rollout-IsWellFormed :
      (p : PolicyConfig F) (by id : String) (now : ℕ)
      → IsWellFormed (new_rollout {R = R} p by id now)
  unfolding new_rollout
  new_rollout-IsWellFormed p by id now = record { path = refl; bounded = omega arith }

  enter-IsWellFormed :
      (r : Rollout F R) (t : RolloutState) (actor : String) (now : ℕ) (result : Option R)
      → IsWellFormed r
      → Step r.state t
      → length r.history < max_history_length
      → IsWellFormed (record (enter r t actor now) { simulation_result = result })
  enter-IsWellFormed r t actor now result w st h = record {
    path = IsPath-append draft r.state r.history _ w.path refl st;
    bounded = omega (arith, length-append {0} r.history);
  }

  -- The two outcomes of a transition.
  abbrev pub Moved : Rollout F R → RolloutState → String → ℕ → Result (Rollout F R) → Type 0
  Moved r t actor now result =
      (Step r.state t
        × (length r.history < max_history_length)
        × (result
            ≡ ok (record (enter r t actor now) {
              simulation_result = clear_result t r.simulation_result;
            })))
      ⊎ (((¬ Step r.state t) ⊎ (max_history_length ≤ length r.history))
          × (result ≡ err invalid_transition))

  -- A transition succeeds exactly along the lifecycle and below the history limit; then it appends
  -- one entry, and drops the simulation result when it goes back to DRAFT. Otherwise it raises
  -- InvalidTransitionError.
  pub transition_rollout_cases :
      (r : Rollout F R) (t : RolloutState) (actor : String) (now : ℕ)
      → Moved r t actor now (transition_rollout r t actor now)
  unfolding transition_rollout
  transition_rollout_cases r t actor now = elim (Bool-cases (allowed r.state t)) [
    | inr no_edge ↦ inr (inl (λ st. cc (no_edge, (allowed-iff-Step r.state t).1 st)), rw no_edge)
    | inl edge ↦ elim (Bool-cases (leb max_history_length (length r.history))) [
      | inl full ↦ inr (inr (ground arith), rw (edge, full))
      | inr room ↦ inl ((allowed-iff-Step r.state t).0 edge, ground arith, rw (edge, room))
    ]
  ]

  abbrev pub AllWellFormed : Registry F R → Type 0
  AllWellFormed rs = All IsWellFormed (values rs)

  pub transition-AllWellFormed :
      (rs : Registry F R) (id : String) (t : RolloutState) (actor : String) (now : ℕ)
      → AllWellFormed rs
      → AllWellFormed (transition rs id t actor now).0
  unfolding transition
  transition-AllWellFormed rs id t actor now w = elim (Option-cases (get id rs)) [
    | inl e ↦ rw (e, transition) w
    | inr (r, e) ↦ elim (transition_rollout_cases r t actor now) [
      | inl (st, room, done) ↦
          rw (e, transition)
            (rw done (
              All-put IsWellFormed id _ rs
                (enter-IsWellFormed r t actor now _ (All-get IsWellFormed id rs r w e) st room) w))
      | inr (_, failed) ↦ rw (e, transition) (rw failed w)
    ]
  ]

  result-IsWellFormed :
      (r : Rollout F R) (result : Option R)
      → IsWellFormed r
      → IsWellFormed (record r { simulation_result = result })
  result-IsWellFormed r result w = record { path = w.path; bounded = w.bounded }

  check_result-draft :
      (size : R → Option ℕ) (r : Rollout F R) (result : R) {u : Unit {0}}
      → check_result size r result ≡ ok u
      → r.state ≡ draft
  unfolding check_result
  check_result-draft size r result h = ground arith

  pub set_simulation_result-AllWellFormed :
      (size : R → Option ℕ) (rs : Registry F R) (id : String) (result : R)
      → AllWellFormed rs
      → AllWellFormed (set_simulation_result size rs id result).0
  unfolding set_simulation_result
  set_simulation_result-AllWellFormed size rs id result w = elim (Option-cases (get id rs)) [
    | inl e ↦ rw (e, set_simulation_result) w
    | inr (r, e) ↦ elim (Result-cases (check_result size r result)) [
      | inr (x, failed) ↦ rw (e, set_simulation_result) (rw failed w)
      | inl (_, passed) ↦
          rw (e, set_simulation_result)
            (rw passed (
              All-put IsWellFormed id _ rs
                (result-IsWellFormed r (some result) (All-get IsWellFormed id rs r w e)) w))
    ]
  ]

  pub simulate-AllWellFormed :
      (size : R → Option ℕ) (rs : Registry F R) (id : String) (result : R) (actor : String)
      (now : ℕ)
      → AllWellFormed rs
      → AllWellFormed (simulate size rs id result actor now).0
  unfolding simulate
  simulate-AllWellFormed size rs id result actor now w = elim (Option-cases (get id rs)) [
    | inl e ↦ rw (e, simulate) w
    | inr (r, e) ↦ elim (Result-cases (check_result size r result)) [
      | inr (x, failed) ↦ rw (e, simulate) (rw failed w)
      | inl (_, passed) ↦
          let wr = All-get IsWellFormed id rs r w e in
          let stored = result-IsWellFormed r (some result) wr in
          elim (Bool-cases (leb max_history_length (length r.history))) [
            | inl full ↦
                rw (e, simulate) (rw (passed, full) (All-put IsWellFormed id _ rs stored w))
            | inr room ↦
                rw (e, simulate)
                  (rw (passed, room)
                    (All-put IsWellFormed id _ rs
                      (enter-IsWellFormed (record r { simulation_result = some result }) simulated
                        actor now (some result) stored
                        (rw (check_result-draft size r result passed) Step.simulates)
                        (ground arith))
                      w))
          ]
    ]
  ]
