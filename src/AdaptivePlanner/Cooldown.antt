-- ===== src/AdaptivePlanner/Cooldown.antt =====
-- The bounds of AdaptivePlanner, and its pause after a change.
use veronica.Prelude.{
  ap, ◌∙◌, ℕ, suc, ◌-◌, ◌≡◌, false, Option, none, some, List, [], ◌∷◌, is_some, if◌then◌else◌,
  arith,
}
use veronica.Prelude.Dict.{get-put_self}
use veronica.Float.{Float, FloatLaws, fmax}
use veronica.Float.Order.{fmin-not_above_right}
use veronica.Types.{AnalysisResult, CostEstimate, BudgetState}
use veronica.Planner.Bounds.{clamped}
use veronica.AdaptivePlanner.{
  AdaptivePlanner, adjustment, cooldown, cooldown_steps, factor_for, scaled, clamp_ceiling, plan,
}

-- What a planner is asked: an analysis, an estimate and a budget.
pub record Question (F : Type 0) : Type 0 where
  pub analysis : Option AnalysisResult
  pub cost : CostEstimate F
  pub budget : BudgetState F

module _ {F : Type 0} ⦃fl : Float F⦄ where
  -- A series of plans.
  abbrev pub plans : AdaptivePlanner F → List (Question F) → AdaptivePlanner F
  plans p [] = p
  plans p (q ∷ qs) = plans (plan p q.analysis q.cost q.budget).0 qs

  abbrev next : AdaptivePlanner F → Question F → AdaptivePlanner F
  next p q = (plan p q.analysis q.cost q.budget).0

  cooldown-plan :
      (p : AdaptivePlanner F) (a : Option AnalysisResult) (c : CostEstimate F) (b : BudgetState F)
      → cooldown (plan p a c b).0
        ≡ (if is_some (adjustment p a) then cooldown_steps else cooldown p - 1)
  unfolding plan
  cooldown-plan p a c b = ground (
    arith,
    get-put_self "" (if is_some (adjustment p a) then cooldown_steps else cooldown p - 1)
        p.cooldowns,
  )

  -- While it pauses, a planner does not read the analysis.
  waits :
      (p : AdaptivePlanner F) (q : Question F) (n : ℕ)
      → cooldown p ≡ suc n
      → (adjustment p q.analysis ≡ none) × (cooldown (next p q) ≡ n)
  waits p q n e =
      let quiet : adjustment p q.analysis ≡ none = ground arith in
      (quiet, ground (arith, cooldown-plan p q.analysis q.cost q.budget))

  starts :
      (p : AdaptivePlanner F) (q : Question F) (factor : F)
      → adjustment p q.analysis ≡ some factor
      → cooldown (next p q) ≡ 3
  starts p q factor e = ground (arith, cooldown-plan p q.analysis q.cost q.budget)

  wakes :
      (p : AdaptivePlanner F) (a : Option AnalysisResult)
      → cooldown p ≡ 0
      → adjustment p a ≡ factor_for a
  wakes p a e = rw e

  -- The ceiling that a plan asks for.
  abbrev pub asked : AdaptivePlanner F → Question F → F
  asked p q = (plan p q.analysis q.cost q.budget).1.ceiling_usd

  asked-waits :
      (p : AdaptivePlanner F) (q : Question F) (n : ℕ)
      → cooldown p ≡ suc n
      → asked p q ≡ clamp_ceiling p q.cost q.budget p.effective_ceiling
  unfolding plan
  asked-waits p q n e =
      ap (λ a. clamp_ceiling p q.cost q.budget (scaled p.effective_ceiling a)) (waits p q n e).0

  asked-wakes :
      (p : AdaptivePlanner F) (q : Question F)
      → cooldown p ≡ 0
      → asked p q
        ≡ clamp_ceiling p q.cost q.budget (scaled p.effective_ceiling (factor_for q.analysis))
  unfolding plan
  asked-wakes p q e =
      ap (λ a. clamp_ceiling p q.cost q.budget (scaled p.effective_ceiling a))
        (wakes p q.analysis e)

  -- When a planner that is not pausing is given an analysis that asks for a factor, it scales its
  -- ceiling by the factor. The next three plans start from the ceiling that was asked for before and
  -- scale nothing, whatever the analyses recommend; the fourth applies the factor that its analysis
  -- asks for. Every ceiling is raised to the guard on the estimated cost and clamped.
  pub plan_pauses :
      (p : AdaptivePlanner F) (q r s t u : Question F) (factor : F)
      → cooldown p ≡ 0
      → factor_for q.analysis ≡ some factor
      → let p1 = plans p (q ∷ []) in
        let p2 = plans p (q ∷ r ∷ []) in
        let p3 = plans p (q ∷ r ∷ s ∷ []) in
        let p4 = plans p (q ∷ r ∷ s ∷ t ∷ []) in
        (asked p q ≡ clamp_ceiling p q.cost q.budget (fl.mul p.effective_ceiling factor))
        × (asked p1 r ≡ clamp_ceiling p r.cost r.budget (asked p q))
        × (asked p2 s ≡ clamp_ceiling p s.cost s.budget (asked p1 r))
        × (asked p3 t ≡ clamp_ceiling p t.cost t.budget (asked p2 s))
        × (asked p4 u
            ≡ clamp_ceiling p u.cost u.budget (scaled (asked p3 t) (factor_for u.analysis)))
  unfolding plan
  plan_pauses p q r s t u factor ready e =
      let p1 = next p q in
      let applied : adjustment p q.analysis ≡ some factor = wakes p q.analysis ready ∙ e in
      let (_, two) = waits p1 r 2 (starts p q factor applied) in
      let (_, one) = waits (next p1 r) s 1 two in
      let (_, zero) = waits (next (next p1 r) s) t 0 one in
      (
        asked-wakes p q ready
            ∙ ap (λ a. clamp_ceiling p q.cost q.budget (scaled p.effective_ceiling a)) e,
        asked-waits p1 r 2 (starts p q factor applied),
        asked-waits (next p1 r) s 1 two,
        asked-waits (next (next p1 r) s) t 0 one,
        asked-wakes (next (next (next p1 r) s) t) u zero,
      )

module _ {F : Type 0} ⦃fl : Float F⦄ ⦃laws : FloatLaws F⦄ where
  -- When the minimum is above neither the maximum nor what remains for the chain, a plan asks for
  -- no more than what remains, no more than the maximum and no less than the minimum, whatever the
  -- analysis recommends and whatever the step is estimated to cost.
  pub plan-bounds :
      (p : AdaptivePlanner F) (q : Question F)
      → fl.lt p.max_ceiling_usd p.min_ceiling_usd ≡ false
      → fl.lt q.budget.chain_remaining_usd p.min_ceiling_usd ≡ false
      → let d = (plan p q.analysis q.cost q.budget).1 in
        (fl.lt q.budget.chain_remaining_usd d.ceiling_usd ≡ false)
        × (fl.lt p.max_ceiling_usd d.ceiling_usd ≡ false)
        × (fl.lt d.ceiling_usd p.min_ceiling_usd ≡ false)
  unfolding plan
  plan-bounds p q ordered room =
      let guarded =
        fmax (scaled p.effective_ceiling (adjustment p q.analysis))
          (fl.mul q.cost.estimated_usd (fl.dec 15 1)) in
      let (max, min) =
        clamped p.min_ceiling_usd p.max_ceiling_usd guarded q.budget.chain_remaining_usd ordered
          room in
      (fmin-not_above_right _ q.budget.chain_remaining_usd, max, min)
