-- ===== src/Examples/Budgets.antt =====
-- Examples for the arbiters and the shared budget.
use veronica.Prelude.{ℕ, ◌≡◌, refl, String, none, some, List, [], ◌∷◌, arith}
use veronica.Prelude.Int.{ℤ, pos, ◌+ℤ◌, ◌-ℤ◌, ◌*ℤ◌}
use veronica.Prelude.Result.{Result, ok, err, value_error}
use veronica.Prelude.Dict.{get, put}
use veronica.Float.Sample.{Micro, micro, fin, micro_float}
use veronica.Types.{DesiredPolicy, PolicyConfig}
use veronica.Arbiters.{
  policy_for, passthrough, passthrough_from, proportional, first_pass, second_pass, index_from,
  policies_for,
}
use veronica.Budget.{Budget}
use veronica.Budget.Conservation.{
  Op, reserves, settles, expires, run, untouched, outstanding, Fits, run-Fits,
}
use veronica.RedisArbiter.{Settings, answers, alloc_key, arbitrate}
use veronica.RedisArbiter.Grants.{FirstOutcome, arbitrate_first}

abbrev desire_of : String → ℕ → ℕ → DesiredPolicy Micro
desire_of chain ceiling priority = record {
  chain_id = chain;
  ceiling_usd = micro ceiling;
  ceiling_steps = pos 10;
  ceiling_tokens_out = pos 100;
  on_exceed = "halt";
  fallback_model = none;
  timeout_ms = pos 1000;
  priority = pos priority;
}

abbrev desires : List (DesiredPolicy Micro)
desires = desire_of "a" 600000 30 ∷ desire_of "b" 900000 10 ∷ desire_of "c" 1 0 ∷ []

abbrev only_a : List (DesiredPolicy Micro)
only_a = desire_of "a" 600000 30 ∷ []

abbrev granted_a : PolicyConfig Micro
granted_a = policy_for (desire_of "a" 600000 30) (micro 600000) (micro 5) "0.1.0"

passed_a : get "a" (passthrough only_a (micro 1000000) (micro 5)) ≡ some granted_a
unfolding get passthrough passthrough_from put ◌+ℤ◌ ◌*ℤ◌
passed_a = refl

-- `a` gets what it desires of three quarters of a dollar, and `b` the rest
abbrev granted_b : PolicyConfig Micro
granted_b = policy_for (desire_of "b" 900000 10) (micro 400000) (micro 5) "0.2.0"

shared_b : get "b" (proportional desires (micro 1000000) (micro 5)) ≡ some granted_b
unfolding get proportional first_pass second_pass index_from policies_for put ◌+ℤ◌ ◌*ℤ◌ ◌-ℤ◌
shared_b = refl

abbrev ops : List Op
ops =
    reserves "x" (pos 700)
    ∷ reserves "y" (pos 400)
    ∷ settles "x" (pos 900)
    ∷ reserves "y" (pos 50)
    ∷ expires "y"
    ∷ []

run-Fits_example :
    Fits 1000
      (run (pos 1000) untouched ops).remaining
      (outstanding (run (pos 1000) untouched ops).allocations)
run-Fits_example =
    run-Fits (pos 1000) ops (omega arith)
      (omega arith, (omega arith, (omega arith, (omega arith, (omega arith, tt)))))

-- `round` of a dollar amount whose six digits are exact
abbrev round_micro : Micro → Result ℤ
round_micro (fin n) = ok n
round_micro _ = err value_error

abbrev settings : Settings
settings = record { scope = "s"; total_budget_micro = pos 1000000000000 }

abbrev fresh_budget : Budget
fresh_budget = record { remaining = none; allocations = [] }

abbrev big_a : DesiredPolicy Micro
big_a = desire_of "a" 600000 30

arbitrate_first_example :
    FirstOutcome round_micro
      (pos 1000000000000)
      fresh_budget
      (alloc_key "s" "r" "1")
      big_a
      (micro 5)
      (pos 600000000000)
      (arbitrate round_micro answers settings
        (record { request_id = some "r"; step_id = some "1" })
        fresh_budget
        (big_a ∷ [])
        (micro 9)
        (micro 5))
unfolding get ◌*ℤ◌
arbitrate_first_example =
    arbitrate_first round_micro settings fresh_budget "r" "1" big_a [] (micro 9) (micro 5)
      (pos 600000000000) refl refl

abbrev small_allocation : Budget
small_allocation = record {
  remaining = some (pos 999999999999);
  allocations = (alloc_key "s" "r" "1", pos 1) ∷ [];
}
