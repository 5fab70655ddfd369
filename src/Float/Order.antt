-- ===== src/Float/Order.antt =====
-- Lemmas on `min` and `max` of floats.
use veronica.Prelude.{◌≡◌, false, arith}
use veronica.Float.{Float, FloatLaws, fmin, fmax}

module _ {F : Type 0} ⦃fl : Float F⦄ ⦃laws : FloatLaws F⦄ where
  -- The smaller of two is not above the second, whatever they are.
  pub fmin-not_above_right : (a b : F) → fl.lt b (fmin a b) ≡ false
  fmin-not_above_right a b = ground (arith, laws.lt_irrefl b)

  pub fmax-not_below_right : (a b : F) → fl.lt (fmax a b) b ≡ false
  fmax-not_below_right a b = ground (arith, laws.lt_irrefl b)

  pub fmin-not_above_left : (a b : F) → fl.lt a (fmin a b) ≡ false
  fmin-not_above_left a b = ground (arith, laws.lt_irrefl a, laws.lt_asymm b a)

  pub fmax-not_below_left : (a b : F) → fl.lt (fmax a b) a ≡ false
  fmax-not_below_left a b = ground (arith, laws.lt_irrefl a, laws.lt_asymm a b)
