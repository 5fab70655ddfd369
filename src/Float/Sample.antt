-- ===== src/Float/Sample.antt =====
-- A float with an exact six-digit finite part, for tests and witnesses: it meets the laws.
use veronica.Prelude.{
  ℕ, ◌+◌, ◌*◌, ◌/◌, ◌^◌, ◌≡◌, refl, ap, Bool, true, false, not, List, [], ◌∷◌, arith,
}
use veronica.Prelude.Int.{
  ℤ, pos, negsuc, sub_ℕ, ◌+ℤ◌, ◌-ℤ◌, ◌*ℤ◌, ltb_ℤ, leb_ℤ, eq_of_parts, int_laws,
}
use veronica.Float.{Float, FloatLaws}

pub data Micro : Type 0 where
  fin : ℤ → Micro
  inf minus_inf nan : Micro

abbrev pub ltb_micro : Micro → Micro → Bool
ltb_micro (fin a) (fin b) = ltb_ℤ a b
ltb_micro (fin a) inf = true
ltb_micro minus_inf (fin b) = true
ltb_micro minus_inf inf = true
ltb_micro _ _ = false

abbrev pub leb_micro : Micro → Micro → Bool
leb_micro (fin a) (fin b) = leb_ℤ a b
leb_micro (fin a) inf = true
leb_micro inf inf = true
leb_micro minus_inf (fin b) = true
leb_micro minus_inf inf = true
leb_micro minus_inf minus_inf = true
leb_micro _ _ = false

-- a quotient of the absolute values, with the sign of the dividend
abbrev divide : ℤ → ℕ → ℤ
divide (pos a) n = pos (a / n)
divide (negsuc a) n = sub_ℕ 0 ((a + 1) / n)

-- An infinite operand is treated coarsely, since the samples do not reach it.
abbrev pub combine : (ℤ → ℤ → ℤ) → Micro → Micro → Micro
combine f (fin a) (fin b) = fin (f a b)
combine f _ _ = nan

abbrev pub is_fin : Micro → Bool
is_fin (fin a) = true
is_fin _ = false

abbrev quotient : ℤ → ℤ → ℤ
quotient a (pos b) = divide (a *ℤ pos 1000000) b
quotient a (negsuc b) = divide (pos 0 -ℤ a *ℤ pos 1000000) (b + 1)

abbrev total : List Micro → Micro
total [] = fin (pos 0)
total (x ∷ xs) = combine (λ a b. a +ℤ b) x (total xs)

instance abbrev pub micro_float : Float Micro
micro_float = record {
  lt = ltb_micro;
  le = leb_micro;
  add = combine (λ a b. a +ℤ b);
  sub = combine (λ a b. a -ℤ b);
  mul = combine (λ a b. divide (a *ℤ b) 1000000);
  div = combine quotient;
  sum = total;
  is_finite = is_fin;
  dec = λ m k. fin (pos (m * 1000000 / 10 ^ k));
  of_int = λ n. fin (n *ℤ pos 1000000);
}

-- a literal number of micro-dollars
abbrev pub micro : ℕ → Micro
micro n = fin (pos n)

lt_irrefl : (x : Micro) → ltb_micro x x ≡ false
lt_irrefl (fin a) = ground arith
lt_irrefl inf = refl
lt_irrefl minus_inf = refl
lt_irrefl nan = refl

lt_asymm : (x y : Micro) → ltb_micro x y ≡ true → ltb_micro y x ≡ false
lt_asymm x y h = ground arith

lt_trans : (x y z : Micro) → ltb_micro x y ≡ true → ltb_micro y z ≡ true → ltb_micro x z ≡ true
lt_trans x y z h k = ground arith

not_lt_trans :
    (x y z : Micro)
    → is_fin y ≡ true
    → ltb_micro y x ≡ false
    → ltb_micro z y ≡ false
    → ltb_micro z x ≡ false
not_lt_trans x y z f h k = ground arith

le_eq_not_lt :
    (x y : Micro) → is_fin x ≡ true → is_fin y ≡ true → leb_micro x y ≡ not (ltb_micro y x)
le_eq_not_lt x y f g = ground arith

add_grows :
    (x y : Micro)
    → is_fin x ≡ true
    → is_fin y ≡ true
    → ltb_micro y (micro 0) ≡ false
    → ltb_micro (combine (λ a b. a +ℤ b) x y) x ≡ false
unfolding ◌+ℤ◌
add_grows x y f g h = ground arith

dec_nonneg :
    (m k : ℕ)
    → ltb_micro (fin (pos (m * 1000000 / 10 ^ k))) (fin (pos (0 * 1000000 / 10 ^ 0))) ≡ false
dec_nonneg m k = ground arith

sum_one : (x : Micro) → is_fin x ≡ true → ltb_micro x (micro 0) ≡ true → total (x ∷ []) ≡ x
sum_one (fin a) f h = ap fin (eq_of_parts (a +ℤ pos 0) a (omega int_laws))
sum_one inf f h = cc
sum_one minus_inf f h = cc
sum_one nan f h = cc

mul_one_int : (a : ℤ) → divide (a *ℤ pos 1000000) 1000000 ≡ a
unfolding ◌*ℤ◌
mul_one_int (pos a) = ground arith
mul_one_int (negsuc a) = ground arith

mul_one :
    (x : Micro)
    → is_fin x ≡ true
    → combine (λ a b. divide (a *ℤ b) 1000000) x (fin (pos (1 * 1000000 / 10 ^ 0))) ≡ x
mul_one (fin a) f = ap fin (mul_one_int a)
mul_one inf f = cc
mul_one minus_inf f = cc
mul_one nan f = cc

mul_infinite :
    (x y : Micro) → is_fin x ≡ false → is_fin (combine (λ a b. divide (a *ℤ b) 1000000) x y) ≡ false
mul_infinite (fin a) y f = cc
mul_infinite inf y f = refl
mul_infinite minus_inf y f = refl
mul_infinite nan y f = refl

of_int_zero : fin (pos 0 *ℤ pos 1000000) ≡ fin (pos 0)
unfolding ◌*ℤ◌
of_int_zero = refl

instance pub micro_laws : FloatLaws Micro
micro_laws = record {
  lt_irrefl = lt_irrefl;
  lt_asymm = lt_asymm;
  lt_trans = lt_trans;
  not_lt_trans = not_lt_trans;
  le_eq_not_lt = le_eq_not_lt;
  of_int_zero = of_int_zero;
  dec_finite = λ m k. refl;
  dec_nonneg = dec_nonneg;
  add_grows = add_grows;
  sum_one = sum_one;
  mul_one = mul_one;
  mul_infinite = mul_infinite;
}
