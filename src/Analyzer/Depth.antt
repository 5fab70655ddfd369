-- ===== src/Analyzer/Depth.antt =====
-- What the analyzer recommends on the histories that the memory store builds.
use veronica.Prelude.{◌-◌, ◌≤◌, ◌≡◌, ap, [], String, Bool, length, last_n, length-drop, arith}
use veronica.Prelude.Int.{pos}
use veronica.Prelude.Result.{ok}
use veronica.Prelude.Dict.{get}
use veronica.Float.{Float}
use veronica.Types.{StepIntent, StepOutcome, HistoryView, halt, critical_risk, or_default}
use veronica.MemoryStore.{Store, build_history}
use veronica.MemoryStore.Streaks.{build_history-IsStreak}
use veronica.Analyzer.{analyze}

module _ {F : Type 0} ⦃fl : Float F⦄ (is_safe : String → Bool) where
  -- On a history that the memory store builds with the default limit of 50, for a chain with eight
  -- outcomes or more, every analysis is critical and recommends to halt, whatever the outcome.
  pub analyze-build_history :
      (s : Store F) (chain_id : String) (h : HistoryView F)
      → (intent : StepIntent) (outcome : StepOutcome F)
      → build_history is_safe s chain_id (pos 50) ≡ ok h
      → 8 ≤ length (or_default (get chain_id s) [])
      → ((analyze intent outcome h).recommendation ≡ halt)
        × ((analyze intent outcome h).risk_level ≡ critical_risk)
  unfolding analyze
  analyze-build_history s chain_id h intent outcome e deep =
      let chain = or_default (get chain_id s) [] in
      let (shown, depth, _, _) = build_history-IsStreak is_safe s chain_id (pos 50) h e in
      let size : length h.last_n ≡ length (last_n 50 chain) = ap (λ l. length l) shown in
      let far : 8 ≤ h.depth = omega (arith, depth, size, length-drop (length chain - 50) chain) in
      (ground (arith, far), ground (arith, far))
