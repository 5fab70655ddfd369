-- ===== src/Simulation/Ceiling.antt =====
-- The ceilings of the policy bound what a simulation allows.
use veronica.Prelude.{
  ℕ, ◌+◌, ◌≡◌, ◌≢◌, refl, inl, inr, String, Bool, true, false, ◌==◌, eq_iff, Option, none, some,
  List, [], ◌∷◌, length, Bool-cases, Option-cases, arith,
}
use veronica.Prelude.Int.{ℤ, pos, ◌+ℤ◌, ltb_ℤ}
use veronica.Prelude.Result.{ok}
use veronica.Float.{Float, FloatLaws}
use veronica.Types.{Number, int, float, boolean, PolicyConfig}
use veronica.PolicyAudit.{Json}
use veronica.Distributor.{Distributor, allowed_on_exceed, holds}
use veronica.Distributor.Validation.{IsAdmissible, NonNegative, Bounded, validate-IsAdmissible}
use veronica.Simulation.{
  SimulationStep, Tally, SimulateResponse, exceeds, evaluate_steps, evaluate_tokens, evaluate_step,
  run_steps, start, simulate, allow_step,
}
use veronica.Simulation.Accounting.{simulate-eq-ok}

-- a policy that is enforced halts, degrades or queues
pub enforced : (s : String) → allowed_on_exceed s ≡ true → s ≢ "allow"
enforced s known e = let allowed : allowed_on_exceed "allow" ≡ true = rw e at known in cc

within_zero_steps : (o : Option ℤ) → NonNegative o → holds (λ limit. ltb_ℤ limit (pos 0)) o ≡ false
within_zero_steps none h = refl
within_zero_steps (some limit) h = ground arith

module _ {F : Type 0} ⦃fl : Float F⦄ ⦃laws : FloatLaws F⦄ where
  within_zero_tokens :
      (o : Option (Number F)) → Bounded o → holds (λ limit. exceeds (pos 0) limit) o ≡ false
  within_zero_tokens none h = refl
  within_zero_tokens (some (int n)) h = ground arith
  within_zero_tokens (some (float x)) h = ground (arith, laws.of_int_zero)
  within_zero_tokens (some (boolean b)) h = ground arith

module _ {F : Type 0} ⦃fl : Float F⦄ where
  -- What a run of `n` allowed steps has used is within the policy's ceilings.
  pub record IsWithin (p : PolicyConfig F) (spent : F) (used : ℤ) (n : ℕ) : Type 0 where
    pub cost : fl.lt p.ceiling_usd spent ≡ false
    pub tokens : holds (λ limit. exceeds used limit) p.ceiling_tokens_out ≡ false
    pub steps : holds (λ limit. ltb_ℤ limit (pos n)) p.ceiling_steps ≡ false

  evaluate_steps-allow :
      (p : PolicyConfig F) (n : ℕ) (now : F)
      → p.on_exceed ≢ "allow"
      → (evaluate_steps n p now).0 ≡ "allow"
      → holds (λ limit. ltb_ℤ limit (pos n)) p.ceiling_steps ≡ false
  evaluate_steps-allow p n now ne allow = elim (Option-cases p.ceiling_steps) [
    | inl e ↦ rw e
    | inr (limit, e) ↦ elim (Bool-cases (ltb_ℤ limit (pos n))) [
      | inr under ↦ rw e under
      | inl over ↦ absurd (ne (rw (e, over) at allow))
    ]
  ]

  evaluate_tokens-allow :
      (p : PolicyConfig F) (used : ℤ) (n : ℕ) (now : F)
      → p.on_exceed ≢ "allow"
      → (evaluate_tokens used n p now).0 ≡ "allow"
      → (holds (λ limit. exceeds used limit) p.ceiling_tokens_out ≡ false)
        × ((evaluate_steps n p now).0 ≡ "allow")
  evaluate_tokens-allow p used n now ne allow = elim (Option-cases p.ceiling_tokens_out) [
    | inl e ↦ (rw e, rw e at allow)
    | inr (limit, e) ↦ elim (Bool-cases (exceeds used limit)) [
      | inr under ↦ (rw e under, rw (e, under) at allow)
      | inl over ↦ absurd (ne (rw (e, over) at allow))
    ]
  ]

  -- A step is allowed only if what has then been used is within the ceilings.
  evaluate_step-IsWithin :
      (p : PolicyConfig F) (cost cumulative now : F) (tokens used : ℤ) (n : ℕ)
      → allowed_on_exceed p.on_exceed ≡ true
      → (evaluate_step cost tokens cumulative n used p now).0 ≡ "allow"
      → IsWithin p (fl.add cumulative cost) (used +ℤ tokens) (n + 1)
  unfolding evaluate_step
  evaluate_step-IsWithin p cost cumulative now tokens used n known allow =
      elim (Bool-cases (fl.lt p.ceiling_usd (fl.add cumulative cost))) [
        | inl over ↦ absurd (enforced p.on_exceed known (rw over at allow))
        | inr under ↦
            let ne = enforced p.on_exceed known in
            let (tokens', rest) =
              evaluate_tokens-allow p (used +ℤ tokens) (n + 1) now ne (rw under at allow) in
            record {
              cost = under;
              tokens = tokens';
              steps = evaluate_steps-allow p (n + 1) now ne rest;
            }
      ]

  run_steps-IsWithin :
      (p : PolicyConfig F) (clock : ℕ → F) (total idx : ℕ) (steps : List (SimulationStep F))
      → (t : Tally F) → allowed_on_exceed p.on_exceed ≡ true
      → t.steps_allowed ≡ idx
      → IsWithin p t.cumulative_cost t.cumulative_tokens_out idx
      → let t' = run_steps p clock total idx steps t in
        IsWithin p t'.cumulative_cost t'.cumulative_tokens_out t'.steps_allowed
  unfolding run_steps
  run_steps-IsWithin p clock total idx [] t known same w = rw same w
  run_steps-IsWithin p clock total idx (s ∷ steps) t known same w =
      let (decision, reason) =
        evaluate_step s.cost_usd s.tokens_out t.cumulative_cost idx t.cumulative_tokens_out p
          (clock idx) in
      elim (Bool-cases (decision == "allow")) [
        | inr other ↦ rw (other, same) w
        | inl allowed ↦ rw allowed (
            run_steps-IsWithin p clock total (idx + 1) steps (allow_step idx s decision reason t)
              known (omega arith)
              (evaluate_step-IsWithin p s.cost_usd t.cumulative_cost (clock idx) s.tokens_out
                t.cumulative_tokens_out idx known ((eq_iff decision "allow").0 allowed)))
      ]

  start-IsWithin :
      ⦃laws : FloatLaws F⦄ (strict : Bool) (p : PolicyConfig F)
      → IsAdmissible strict p
      → IsWithin p (fl.dec 0 0) (pos 0) 0
  start-IsWithin ⦃laws = laws⦄ strict p a = record {
    cost = a.nonneg;
    tokens = within_zero_tokens p.ceiling_tokens_out a.tokens;
    steps = within_zero_steps p.ceiling_steps a.steps;
  }

module _ {F : Type 0} ⦃fl : Float F⦄ ⦃laws : FloatLaws F⦄
    (digest : List (String × Json F) → String) where
  -- A simulation allows no more than its policy does: when it answers, the total cost is not
  -- above the ceiling, and the number of allowed steps is within the step ceiling.
  pub simulate-ceiling :
      (d : Distributor) (p : PolicyConfig F) (steps : List (SimulationStep F)) (clock : ℕ → F)
      → (r : SimulateResponse F) → simulate digest d (ok p) steps clock ≡ ok r
      → (fl.lt p.ceiling_usd r.total_cost_usd ≡ false)
        × (holds (λ limit. ltb_ℤ limit (pos r.steps_allowed)) p.ceiling_steps ≡ false)
  simulate-ceiling d p steps clock r h =
      let (passed, same) = simulate-eq-ok digest d p steps clock r h in
      let a = (validate-IsAdmissible d p).0 passed in
      let w =
        run_steps-IsWithin p clock (length steps) 0 steps start a.on_exceed refl
          (start-IsWithin d.strict p a) in
      rw same (w.cost, w.steps)
