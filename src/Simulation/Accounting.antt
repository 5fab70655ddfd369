-- ===== src/Simulation/Accounting.antt =====
-- The counts of a simulation.
use veronica.Prelude.{
  ℕ, ◌+◌, ◌≡◌, refl, inl, inr, String, ◌==◌, eq_iff, List, [], ◌∷◌, length, Bool-cases, arith, ◌↔◌,
}
use veronica.Prelude.Result.{ok, Result-cases}
use veronica.Float.{Float}
use veronica.Types.{PolicyConfig}
use veronica.PolicyAudit.{Json}
use veronica.Distributor.{Distributor, validate}
use veronica.Simulation.{
  SimulationStep, Tally, SimulateResponse, evaluate_step, run_steps, start, respond, simulate,
  allow_step,
}

module _ {F : Type 0} ⦃fl : Float F⦄ where
  -- What the loop has added up when it has `n` steps to go.
  run_steps-counts :
      (p : PolicyConfig F) (clock : ℕ → F) (total idx : ℕ) (steps : List (SimulationStep F))
      → (t : Tally F) → total ≡ idx + length steps
      → let t' = run_steps p clock total idx steps t in
        t'.steps_allowed + t'.steps_halted ≡ t.steps_allowed + t.steps_halted + length steps
  unfolding run_steps
  run_steps-counts p clock total idx [] t h = omega arith
  run_steps-counts p clock total idx (s ∷ steps) t h =
      let (decision, reason) =
        evaluate_step s.cost_usd s.tokens_out t.cumulative_cost idx t.cumulative_tokens_out p
          (clock idx) in
      let more =
        run_steps-counts p clock total (idx + 1) steps (allow_step idx s decision reason t)
          (omega arith) in
      ground (arith, more)

  -- A loop that has halted nothing ends with "allow" exactly when it still has halted nothing.
  run_steps-verdict :
      (p : PolicyConfig F) (clock : ℕ → F) (total idx : ℕ) (steps : List (SimulationStep F))
      → (t : Tally F) → t.steps_halted ≡ 0
      → t.final_decision ≡ "allow"
      → let t' = run_steps p clock total idx steps t in
        (t'.final_decision ≡ "allow") ↔ (t'.steps_halted ≡ 0)
  unfolding run_steps
  run_steps-verdict p clock total idx [] t none allow = ((λ _. none), (λ _. allow))
  run_steps-verdict p clock total idx (s ∷ steps) t none allow =
      let (decision, reason) =
        evaluate_step s.cost_usd s.tokens_out t.cumulative_cost idx t.cumulative_tokens_out p
          (clock idx) in
      elim (Bool-cases (decision == "allow")) [
        | inl allowed ↦
            let same = (eq_iff decision "allow").0 allowed in
            let rest =
              run_steps-verdict p clock total (idx + 1) steps (allow_step idx s decision reason t)
                none same in
            rw allowed rest
        | inr other ↦
            rw other (ground (arith, other, eq_iff decision "allow"), λ h. absurd (omega arith))
      ]

module _ {F : Type 0} ⦃fl : Float F⦄ (digest : List (String × Json F) → String) where
  -- An answer is that of the loop, for a policy that the distributor accepts.
  pub simulate-eq-ok :
      (d : Distributor) (p : PolicyConfig F) (steps : List (SimulationStep F)) (clock : ℕ → F)
      → (r : SimulateResponse F) → simulate digest d (ok p) steps clock ≡ ok r
      → (validate d p ≡ ok tt)
        × (r ≡ respond digest p (length steps) (run_steps p clock (length steps) 0 steps start))
  unfolding simulate
  simulate-eq-ok d p steps clock r h = elim (Result-cases (validate d p)) [
    | inl (_, passed) ↦ (passed, ground (arith, passed, h))
    | inr (e, failed) ↦ absurd (ground (arith, failed, h))
  ]

  -- When the simulation answers, every step of the scenario is counted once, as allowed or as
  -- halted, and the final decision is "allow" exactly when no step is halted.
  pub simulate-counts :
      (d : Distributor) (p : PolicyConfig F) (steps : List (SimulationStep F)) (clock : ℕ → F)
      → (r : SimulateResponse F) → simulate digest d (ok p) steps clock ≡ ok r
      → (r.total_steps ≡ length steps)
        × (r.steps_allowed + r.steps_halted ≡ r.total_steps)
        × ((r.final_decision ≡ "allow") ↔ (r.steps_halted ≡ 0))
  simulate-counts d p steps clock r h =
      let counts = run_steps-counts p clock (length steps) 0 steps start (omega arith) in
      let verdict = run_steps-verdict p clock (length steps) 0 steps start refl refl in
      rw (simulate-eq-ok d p steps clock r h).1 (refl, omega (arith, counts), verdict)
