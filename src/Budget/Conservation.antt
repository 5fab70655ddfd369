-- ===== src/Budget/Conservation.antt =====
-- What is reserved and what remains never exceed the total budget of the scope.
use veronica.Prelude.{
  ℕ, ◌+◌, ◌≤◌, ◌≡◌, refl, inl, inr, String, true, false, Option, none, some, List, [], ◌∷◌, All,
  Bool-cases, Option-cases, arith,
}
use veronica.Prelude.Int.{ℤ, pos, pos_part, ◌+ℤ◌, ◌-ℤ◌, ◌≤ℤ◌, ltb_ℤ}
use veronica.Prelude.Dict.{Dict, get, put, remove, values, All-put, All-get, All-remove}
use veronica.Types.{or_default}
use veronica.Budget.{Budget, insufficient, reserve, settle, expire, at_least_zero, after_settling}

abbrev pub NonNegative : ℤ → Type 0
NonNegative n = pos 0 ≤ℤ n

-- the sum of the allocations, none of which is negative
abbrev pub outstanding : Dict ℤ → ℕ
outstanding [] = 0
outstanding ((k, v) ∷ d) = pos_part v + outstanding d

outstanding-put :
    (k : String) (v : ℤ) (d : Dict ℤ)
    → get k d ≡ none
    → outstanding (put k v d) ≡ outstanding d + pos_part v
unfolding get put
outstanding-put k v [] h = omega arith
outstanding-put k v ((j, w) ∷ d) h = ground (arith, outstanding-put k v d)

outstanding-remove_le : (k : String) (d : Dict ℤ) → outstanding (remove k d) ≤ outstanding d
unfolding remove
outstanding-remove_le k [] = omega arith
outstanding-remove_le k ((j, w) ∷ d) = ground (arith, outstanding-remove_le k d)

outstanding-remove :
    (k : String) (v : ℤ) (d : Dict ℤ)
    → get k d ≡ some v
    → outstanding (remove k d) + pos_part v ≤ outstanding d
unfolding get remove
outstanding-remove k v [] h = cc
outstanding-remove k v ((j, w) ∷ d) h =
    ground (arith, outstanding-remove k v d, outstanding-remove_le k d)

-- What remains, and what is reserved, within the total.
abbrev pub Fits : ℕ → Option ℤ → ℕ → Type 0
Fits total none out = out ≡ 0
Fits total (some r) out = NonNegative r × (pos_part r + out ≤ total)

pub record Inv (total : ℤ) (b : Budget) : Type 0 where
  pub nonneg : All NonNegative (values b.allocations)
  pub fits : Fits (pos_part total) b.remaining (outstanding b.allocations)

Fits-start :
    (total : ℤ) (o : Option ℤ) (n : ℕ)
    → NonNegative total
    → Fits (pos_part total) o n
    → Fits (pos_part total) (some (or_default o total)) n
Fits-start total none n t f = (t, omega arith)
Fits-start total (some r) n t f = f

Fits-take :
    (total n : ℕ) (r a : ℤ)
    → NonNegative a
    → ltb_ℤ r a ≡ false
    → Fits total (some r) n
    → Fits total (some (r -ℤ a)) (n + pos_part a)
unfolding ◌-ℤ◌
Fits-take total n r a h enough f = ground arith

Fits-charge :
    (total n : ℕ) (o : Option ℤ) (a : ℤ)
    → NonNegative a
    → Fits total o n
    → Fits total (some (at_least_zero (or_default o (pos 0) -ℤ a))) n
unfolding ◌-ℤ◌
Fits-charge total n none a h f = ground arith
Fits-charge total n (some r) a h f = ground arith

Fits-settle :
    (total n m : ℕ) (o : Option ℤ) (a b : ℤ)
    → NonNegative a
    → NonNegative b
    → m + pos_part a ≤ n
    → Fits total o n
    → Fits total (after_settling o (a -ℤ b)) m
unfolding ◌-ℤ◌ ◌+ℤ◌
Fits-settle total n m none a b h k l f = ground arith
Fits-settle total n m (some r) a b h k l f = ground arith

reserve-Inv :
    (total : ℤ) (b : Budget) (k : String) (amount : ℤ)
    → NonNegative total
    → NonNegative amount
    → Inv total b
    → Inv total (reserve total b k amount).0
unfolding reserve
reserve-Inv total b k amount t a i =
    let remaining = or_default b.remaining total in
    let fits = Fits-start total b.remaining (outstanding b.allocations) t i.fits in
    elim (Option-cases (get k b.allocations)) [
      | inr (existing, e) ↦ rw (e, reserve) i
      | inl fresh ↦ elim (Bool-cases (ltb_ℤ remaining amount)) [
        | inl short ↦ rw (fresh, reserve) (rw short (record { nonneg = i.nonneg; fits = fits }))
        | inr enough ↦
            rw (fresh, reserve)
              (rw enough (record {
                nonneg = All-put NonNegative k amount b.allocations a i.nonneg;
                fits = rw (outstanding-put k amount b.allocations fresh) (
                    Fits-take (pos_part total) (outstanding b.allocations) remaining amount a enough
                      fits);
              }))
      ]
    ]

settle-Inv :
    (total : ℤ) (b : Budget) (k : String) (actual : ℤ)
    → NonNegative actual
    → Inv total b
    → Inv total (settle b k actual).0
unfolding settle
settle-Inv total b k actual a i = elim (Option-cases (get k b.allocations)) [
  | inl e ↦
      rw (e, settle)
        (record {
          nonneg = i.nonneg;
          fits =
              Fits-charge (pos_part total) (outstanding b.allocations) b.remaining actual a i.fits;
        })
  | inr (v, e) ↦
      rw (e, settle)
        (record {
          nonneg = All-remove NonNegative k b.allocations i.nonneg;
          fits =
              Fits-settle (pos_part total) (outstanding b.allocations) _ b.remaining v actual
                (All-get NonNegative k b.allocations v i.nonneg e) a
                (outstanding-remove k v b.allocations e) i.fits;
        })
]

Fits-less : (total : ℕ) (o : Option ℤ) (m n : ℕ) → m ≤ n → Fits total o n → Fits total o m
Fits-less total none m n h f = omega arith
Fits-less total (some r) m n h f = (f.0, omega arith)

expire-Inv : (total : ℤ) (b : Budget) (k : String) → Inv total b → Inv total (expire b k)
unfolding expire
expire-Inv total b k i = record {
  nonneg = All-remove NonNegative k b.allocations i.nonneg;
  fits = Fits-less (pos_part total) b.remaining _ _ (outstanding-remove_le k b.allocations) i.fits;
}

-- What happens to a scope. The arbiter reserves and settles; allocations expire by themselves.
pub data Op : Type 0 where
  reserves : String → ℤ → Op
  settles : String → ℤ → Op
  expires : String → Op

abbrev pub amount_of : Op → ℤ
amount_of (reserves k amount) = amount
amount_of (settles k actual) = actual
amount_of (expires k) = pos 0

unfoldable pub step : ℤ → Budget → Op → Budget
step total b (reserves k amount) = (reserve total b k amount).0
step total b (settles k actual) = (settle b k actual).0
step total b (expires k) = expire b k

unfoldable pub run : ℤ → Budget → List Op → Budget
run total b [] = b
run total b (o ∷ os) = run total (step total b o) os

step-Inv :
    (total : ℤ) (b : Budget) (o : Op)
    → NonNegative total
    → NonNegative (amount_of o)
    → Inv total b
    → Inv total (step total b o)
unfolding step
step-Inv total b (reserves k amount) t a i = reserve-Inv total b k amount t a i
step-Inv total b (settles k actual) t a i = settle-Inv total b k actual a i
step-Inv total b (expires k) t a i = expire-Inv total b k i

abbrev pub untouched : Budget
untouched = record { remaining = none; allocations = [] }

run-Inv :
    (total : ℤ) (b : Budget) (os : List Op)
    → NonNegative total
    → All (λ o. NonNegative (amount_of o)) os
    → Inv total b
    → Inv total (run total b os)
unfolding run
run-Inv total b [] t a i = i
run-Inv total b (o ∷ os) t a i =
    run-Inv total (step total b o) os t a.1 (step-Inv total b o t a.0 i)

-- No over-allocation: after any reservations, settlements and expiries on an untouched scope, in
-- any order and with amounts that are not negative, what remains is not negative, and together
-- with everything that is reserved it is at most the total budget.
pub run-Fits :
    (total : ℤ) (os : List Op)
    → NonNegative total
    → All (λ o. NonNegative (amount_of o)) os
    → let b = run total untouched os in
      Fits (pos_part total) b.remaining (outstanding b.allocations)
run-Fits total os t a = (run-Inv total untouched os t a (record { nonneg = tt; fits = refl })).fits

-- A settlement of a cost that is not negative, when it reaches a scope before any reservation, uses
-- up its whole budget: right afterwards every reservation of a positive amount is refused, whatever
-- the total budget is.
pub settle-untouched :
    (total actual amount : ℤ) (k j : String)
    → NonNegative actual
    → ltb_ℤ (pos 0) amount ≡ true
    → (reserve total (settle untouched k actual).0 j amount).1 ≡ insufficient (pos 0) amount
unfolding reserve settle get ◌-ℤ◌
settle-untouched total actual amount k j a h = ground arith
