-- ===== src/Planner/Bounds.antt =====
-- The bounds on what a planner asks for.
use veronica.Prelude.{◌≡◌, refl, false, Option, arith}
use veronica.Float.{Float, FloatLaws, fmin, fmax}
use veronica.Float.Order.{fmin-not_above_right}
use veronica.Types.{AnalysisResult, CostEstimate, BudgetState}
use veronica.Planner.{Planner, adjust, plan}

module _ {F : Type 0} ⦃fl : Float F⦄ ⦃laws : FloatLaws F⦄ where
  -- the two clamps on the drifted ceiling `x`
  pub clamped :
      (min max x left : F)
      → fl.lt max min ≡ false
      → fl.lt left min ≡ false
      → (fl.lt max (fmin (fmax min (fmin max x)) left) ≡ false)
        × (fl.lt (fmin (fmax min (fmin max x)) left) min ≡ false)
  clamped min max x left ordered room =
      let top = fmax min (fmin max x) in
      (
        ground (arith, laws.lt_irrefl max, laws.lt_asymm x max, laws.lt_trans max left top),
        ground (arith, laws.lt_irrefl min, laws.lt_asymm min (fmin max x)),
      )

  -- When the minimum is above neither the maximum nor what remains for the chain, a plan asks for
  -- no more than what remains, no more than the maximum and no less than the minimum, whatever the
  -- analysis recommends and however far the ceiling has drifted, and the next plan starts there.
  pub plan-bounds :
      (p : Planner F) (a : Option AnalysisResult) (cost : CostEstimate F) (b : BudgetState F)
      → fl.lt p.max_ceiling_usd p.min_ceiling_usd ≡ false
      → fl.lt b.chain_remaining_usd p.min_ceiling_usd ≡ false
      → let (p', d) = plan p a cost b in
        (fl.lt b.chain_remaining_usd d.ceiling_usd ≡ false)
        × (fl.lt p.max_ceiling_usd d.ceiling_usd ≡ false)
        × (fl.lt d.ceiling_usd p.min_ceiling_usd ≡ false)
        × (p'.effective_ceiling ≡ d.ceiling_usd)
  unfolding plan
  plan-bounds p a cost b ordered room =
      let (max, min) =
        clamped p.min_ceiling_usd p.max_ceiling_usd (adjust a p.effective_ceiling)
          b.chain_remaining_usd ordered room in
      (fmin-not_above_right _ b.chain_remaining_usd, max, min, refl)
