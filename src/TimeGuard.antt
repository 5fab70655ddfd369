-- ===== src/TimeGuard.antt =====
-- src/veronica/_timeguard.py: a stage runs to its end, and its result is thrown away when it took
-- longer than its budget. The two readings of the clock are arguments.
use veronica.Prelude.{◌≡◌, refl, ◌⊎◌, inl, inr, if◌then◌else◌}
use veronica.Prelude.Result.{Result, ok, err, Exn}
use veronica.Float.{Float}

-- time.monotonic() before and after the call, in seconds
pub record Reading (F : Type 0) : Type 0 where
  pub started : F
  pub stopped : F

-- What comes of a guarded call: its result with the time it took, TimeBudgetExceeded with that
-- time, or an exception of its own.
pub data Guarded (F A : Type 0) : Type 0 where
  within : A → F → Guarded F A
  exceeded : F → Guarded F A
  raised : Exn → Guarded F A

module _ {F : Type 0} ⦃fl : Float F⦄ where
  abbrev pub elapsed_ms : Reading F → F
  elapsed_ms clock = fl.mul (fl.sub clock.stopped clock.started) (fl.dec 1000 0)

module _ {F A : Type 0} ⦃fl : Float F⦄ where
  -- run_with_budget, with what the call gave
  unfoldable pub run_with_budget : Reading F → F → Result A → Guarded F A
  run_with_budget clock budget_ms (err e) = raised e
  run_with_budget clock budget_ms (ok result) =
      if fl.lt budget_ms (elapsed_ms clock)
      then exceeded (elapsed_ms clock)
      else within result (elapsed_ms clock)

module _ {F A : Type 0} where
  pub Guarded-cases :
      (g : Guarded F A)
      → ((a : A) × (t : F) × (g ≡ within a t))
        ⊎ (((t : F) × (g ≡ exceeded t)) ⊎ ((e : Exn) × (g ≡ raised e)))
  Guarded-cases (within a t) = inl (a, t, refl)
  Guarded-cases (exceeded t) = inr (inl (t, refl))
  Guarded-cases (raised e) = inr (inr (e, refl))
