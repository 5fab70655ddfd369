-- ===== src/Rollouts/Runs.antt =====
-- The rollout registry under any sequence of calls.
use veronica.Prelude.{ℕ, ◌≡◌, true, String, Option, some, List, [], ◌∷◌}
use veronica.Prelude.Dict.{get, All-put, All-get}
use veronica.Types.{PolicyConfig}
use veronica.Rollouts.{
  RolloutState, simulated, approved, promoted, active, Rollout, Registry, new_rollout, create,
  transition, set_simulation_result, simulate,
}
use veronica.Rollouts.Lifecycle.{enters, IsPath-active}
use veronica.Rollouts.History.{
  IsWellFormed, AllWellFormed, new_rollout-IsWellFormed, transition-AllWellFormed,
  set_simulation_result-AllWellFormed, simulate-AllWellFormed,
}

-- The methods that write, with their arguments.
pub data Call (F R : Type 0) : Type 0 where
  creates : PolicyConfig F → String → String → ℕ → Call F R
  transitions : String → RolloutState → String → ℕ → Call F R
  sets_result : String → R → Call F R
  simulates : String → R → String → ℕ → Call F R

module _ {F R : Type 0} (size : R → Option ℕ) where
  unfoldable pub step : Registry F R → Call F R → Registry F R
  step rs (creates p by id now) = (create rs p by id now).0
  step rs (transitions id t actor now) = (transition rs id t actor now).0
  step rs (sets_result id result) = (set_simulation_result size rs id result).0
  step rs (simulates id result actor now) = (simulate size rs id result actor now).0

  -- the registry after calls, whether they returned or raised
  unfoldable pub run : Registry F R → List (Call F R) → Registry F R
  run rs [] = rs
  run rs (c ∷ cs) = run (step rs c) cs

  step-AllWellFormed :
      (rs : Registry F R) (c : Call F R) → AllWellFormed rs → AllWellFormed (step rs c)
  unfolding step create
  step-AllWellFormed rs (creates p by id now) w =
      All-put IsWellFormed id (new_rollout p by id now) rs (new_rollout-IsWellFormed p by id now) w
  step-AllWellFormed rs (transitions id t actor now) w =
      transition-AllWellFormed rs id t actor now w
  step-AllWellFormed rs (sets_result id result) w =
      set_simulation_result-AllWellFormed size rs id result w
  step-AllWellFormed rs (simulates id result actor now) w =
      simulate-AllWellFormed size rs id result actor now w

  -- Where each rollout's history is a lawful path from DRAFT to its state, of at most 1000 entries,
  -- it is so after any calls, failed ones included.
  pub run-AllWellFormed :
      (rs : Registry F R) (cs : List (Call F R)) → AllWellFormed rs → AllWellFormed (run rs cs)
  unfolding run
  run-AllWellFormed rs [] w = w
  run-AllWellFormed rs (c ∷ cs) w = run-AllWellFormed (step rs c) cs (step-AllWellFormed rs c w)

  -- A rollout that is ACTIVE after any calls on an empty registry has been simulated, approved
  -- and promoted.
  pub run-active-gates :
      (cs : List (Call F R)) (id : String) (r : Rollout F R)
      → get id (run [] cs) ≡ some r
      → r.state ≡ active
      → (enters simulated r.history ≡ true)
        × (enters approved r.history ≡ true)
        × (enters promoted r.history ≡ true)
  run-active-gates cs id r e s =
      let w = All-get IsWellFormed id (run [] cs) r (run-AllWellFormed [] cs tt) e in
      IsPath-active r.history (rw s at w.path)
