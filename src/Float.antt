-- ===== src/Float.antt =====
-- Python's `float`, which the program computes with. The model takes it as an interface: a type
-- with its operations, and the IEEE 754 facts that the theorems rely on as a record of laws. Code
-- is generic in the type, so it is translated operation by operation and nothing is rounded away.
pub mod Order
pub mod Sample
use veronica.Prelude.{
  ℕ, ltb, ◌+◌, ◌-◌, ◌^◌, ◌≡◌, Bool, true, false, not, List, [], ◌∷◌, if◌then◌else◌,
}
use veronica.Prelude.Int.{ℤ, pos, pos_part, neg_part}

pub record Float (F : Type 0) : Type 0 where
  -- x < y and x <= y, false when either is a NaN
  pub lt : F → F → Bool
  pub le : F → F → Bool
  pub add : F → F → F
  pub sub : F → F → F
  pub mul : F → F → F
  pub div : F → F → F
  -- the built-in `sum`, which compensates rounding since Python 3.12
  pub sum : List F → F
  -- math.isfinite
  pub is_finite : F → Bool
  -- the literal m * 10 ** -k, so 0.90 is `dec 90 2`
  pub dec : ℕ → ℕ → F
  -- float(n), where it returns
  pub of_int : ℤ → F

-- Whether float(n) and math.isfinite(n) return: from half a step above the largest double on they
-- raise OverflowError.
unfoldable pub fits_float : ℤ → Bool
fits_float n = ltb (pos_part n + neg_part n) (2 ^ 1024 - 2 ^ 970)

-- What the theorems use of the order. The values compared are mostly finite; a NaN is neither
-- below nor above anything.
pub record FloatLaws (F : Type 0) ⦃fl : Float F⦄ : Type 0 where
  pub lt_irrefl : (x : F) → fl.lt x x ≡ false
  pub lt_asymm : (x y : F) → fl.lt x y ≡ true → fl.lt y x ≡ false
  pub lt_trans : (x y z : F) → fl.lt x y ≡ true → fl.lt y z ≡ true → fl.lt x z ≡ true
  pub not_lt_trans :
      (x y z : F)
      → fl.is_finite y ≡ true
      → fl.lt y x ≡ false
      → fl.lt z y ≡ false
      → fl.lt z x ≡ false
  pub le_eq_not_lt :
      (x y : F) → fl.is_finite x ≡ true → fl.is_finite y ≡ true → fl.le x y ≡ not (fl.lt y x)
  pub of_int_zero : fl.of_int (pos 0) ≡ fl.dec 0 0
  pub dec_finite : (m k : ℕ) → fl.is_finite (fl.dec m k) ≡ true
  pub dec_nonneg : (m k : ℕ) → fl.lt (fl.dec m k) (fl.dec 0 0) ≡ false
  -- rounding is monotone: adding what is not negative does not go down
  pub add_grows :
      (x y : F)
      → fl.is_finite x ≡ true
      → fl.is_finite y ≡ true
      → fl.lt y (fl.dec 0 0) ≡ false
      → fl.lt (fl.add x y) x ≡ false
  -- a sum of one negative number, and products with 1.0 and with an infinity or a NaN
  pub sum_one : (x : F) → fl.is_finite x ≡ true → fl.lt x (fl.dec 0 0) ≡ true → fl.sum (x ∷ []) ≡ x
  pub mul_one : (x : F) → fl.is_finite x ≡ true → fl.mul x (fl.dec 1 0) ≡ x
  pub mul_infinite : (x y : F) → fl.is_finite x ≡ false → fl.is_finite (fl.mul x y) ≡ false

module _ {F : Type 0} ⦃fl : Float F⦄ where
  -- Python's two-argument `min` and `max`: the first argument unless the second is better.
  abbrev pub fmin : F → F → F
  fmin a b = if fl.lt b a then b else a

  abbrev pub fmax : F → F → F
  fmax a b = if fl.lt a b then b else a

  -- `x if math.isfinite(x) else 0.0`
  abbrev pub finite_or_zero : F → F
  finite_or_zero x = if fl.is_finite x then x else fl.dec 0 0
