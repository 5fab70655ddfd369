-- ===== src/MemoryStore/Streaks.antt =====
-- The history that the memory store builds.
use mathlib.Core.List.{reverse}
use veronica.Prelude.{
  ℕ, zero, suc, ◌+◌, ◌-◌, ◌≤◌, ◌≡◌, refl, subst, inl, inr, String, Bool, true, false, List, [], ◌∷◌,
  length, take, drop, last_n, All, length-drop, Bool-cases, arith,
}
use veronica.Prelude.Int.{ℤ, pos, negsuc}
use veronica.Prelude.Result.{ok, ok-injective}
use veronica.Prelude.Dict.{get}
use veronica.Float.{Float}
use veronica.Types.{StepOutcome, HistoryView, or_default}
use veronica.MemoryStore.{Store, is_ok, clamp_limit, count_failures, history_of, build_history}

module _ {F : Type 0} where
  -- A list that is empty or starts with an outcome that is "ok".
  abbrev pub StartsOk : List (StepOutcome F) → Type 0
  StartsOk [] = Unit
  StartsOk (o ∷ os) = is_ok o ≡ true

  -- `n` failures, and then none
  abbrev pub IsStreak : ℕ → List (StepOutcome F) → Type 0
  IsStreak n os = All (λ o. is_ok o ≡ false) (take n os) × StartsOk (drop n os)

  IsStreak-suc :
      (o : StepOutcome F) (os : List (StepOutcome F)) (n : ℕ)
      → is_ok o ≡ false
      → IsStreak n os
      → IsStreak (n + 1) (o ∷ os)
  IsStreak-suc o os n failed s =
      let next : suc n ≡ n + 1 = omega arith in
      subst (λ m. IsStreak m (o ∷ os)) next ((failed, s.0), s.1)

  count_failures-IsStreak : (os : List (StepOutcome F)) → IsStreak (count_failures os) os
  unfolding count_failures
  count_failures-IsStreak [] = (tt, tt)
  count_failures-IsStreak (o ∷ os) = elim (Bool-cases (is_ok o)) [
    | inl fine ↦ rw fine (tt, fine)
    | inr failed ↦
        rw failed (IsStreak-suc o os (count_failures os) failed (count_failures-IsStreak os))
  ]

clamp_limit-bounds : (limit : ℤ) → (1 ≤ clamp_limit limit) × (clamp_limit limit ≤ 50000)
clamp_limit-bounds (negsuc n) = (omega arith, omega arith)
clamp_limit-bounds (pos zero) = (omega arith, omega arith)
clamp_limit-bounds (pos (suc n)) = (ground arith, ground arith)

module _ {F : Type 0} ⦃fl : Float F⦄ (is_safe : String → Bool) where
  -- A history that is built shows the last outcomes of the chain, at most 50000 whatever limit is
  -- asked for, and its failure streak is the number of outcomes since the last one that was "ok".
  pub build_history-IsStreak :
      (s : Store F) (chain_id : String) (limit : ℤ) (h : HistoryView F)
      → build_history is_safe s chain_id limit ≡ ok h
      → (h.last_n ≡ last_n (clamp_limit limit) (or_default (get chain_id s) []))
        × (h.depth ≡ length h.last_n)
        × (h.depth ≤ 50000)
        × IsStreak h.failure_streak (reverse h.last_n)
  unfolding build_history
  build_history-IsStreak s chain_id limit h e = elim (Bool-cases (is_safe chain_id)) [
    | inr bad ↦ absurd (ground (arith, bad, e))
    | inl safe ↦
        let chain = or_default (get chain_id s) [] in
        let shown = last_n (clamp_limit limit) chain in
        let same : history_of chain_id shown ≡ h = ok-injective (ground (arith, safe, e)) in
        let (_, top) = clamp_limit-bounds limit in
        let depth : length shown ≤ 50000 =
          omega (arith, length-drop (length chain - clamp_limit limit) chain) in
        let streak = count_failures-IsStreak (reverse shown) in
        subst
          (λ h.
            (h.last_n ≡ shown)
            × (h.depth ≡ length h.last_n)
            × (h.depth ≤ 50000)
            × IsStreak h.failure_streak (reverse h.last_n))
          same (refl, refl, depth, streak)
  ]
