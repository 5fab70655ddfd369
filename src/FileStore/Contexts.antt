-- ===== src/FileStore/Contexts.antt =====
-- The budget context of the file store when two steps of different chains are recorded at once.
use veronica.Prelude.{
  String, Bool, true, false, ◌==◌, ◌||◌, ◌≡◌, refl, none, some, is_some, if◌then◌else◌, eq_iff,
  arith,
}
use veronica.Prelude.Dict.{get, get-put}
use veronica.Float.{Float}
use veronica.Types.{StepOutcome}
use veronica.FileStore.Stats.{ChainStats, update_averages, update_streaks}
use veronica.FileStore.Files.{append_line}
use veronica.FileStore.{
  FileStore, Faults, set_budget_context, commit, observe, settle_files, headroom, stats_of,
}

module _ {F : Type 0} ⦃fl : Float F⦄ where
  -- budget_headroom_ratio of a chain
  abbrev pub ratio : FileStore F → String → F
  ratio s chain_id = (stats_of s chain_id).budget_headroom_ratio

  settle_files-ratio :
      (faults : Faults) (s : FileStore F) (chain_id c : String) (stats : ChainStats F)
      → ratio (settle_files faults s chain_id stats) c
        ≡ (if chain_id == c then stats.budget_headroom_ratio else ratio s c)
  unfolding settle_files
  settle_files-ratio faults s chain_id c stats = grind (arith, get-put)

  settle_files-known :
      (faults : Faults) (s : FileStore F) (chain_id c : String) (stats : ChainStats F)
      → let s' = settle_files faults s chain_id stats in
        (is_some (get c s'.chain_stats) ≡ (chain_id == c || is_some (get c s.chain_stats)))
        × (s'.budget_ceiling ≡ s.budget_ceiling)
        × (s'.budget_remaining ≡ s.budget_remaining)
  unfolding settle_files
  settle_files-known faults s chain_id c stats = (grind (arith, get-put), refl, refl)

module _ {F : Type 0} ⦃fl : Float F⦄ (clip : String → String) (is_safe : String → Bool) where
  -- Of a known chain with a safe name, a commit that can write stores the outcome.
  abbrev Accepts : Faults → FileStore F → StepOutcome F → Type 0
  Accepts faults s o =
      (is_safe o.chain_id ≡ true)
      × (is_some (get o.chain_id s.chain_stats) ≡ true)
      × (faults.append_fails ≡ false)

  commit-ratio :
      (faults : Faults) (s : FileStore F) (o : StepOutcome F) (c : String)
      → Accepts faults s o
      → let s' = (commit clip is_safe faults s o).0 in
        (ratio s' c ≡ (
          if o.chain_id == c
          then headroom s.budget_ceiling s.budget_remaining (ratio s o.chain_id)
          else ratio s c))
        × (s'.budget_ceiling ≡ none)
        × (s'.budget_remaining ≡ none)
        × (is_some (get c s'.chain_stats) ≡ (o.chain_id == c || is_some (get c s.chain_stats)))
  unfolding commit observe update_streaks update_averages
  commit-ratio faults s o c accepted =
      let cleared : FileStore F = record s {
        files = append_line o s.files;
        budget_ceiling = none;
        budget_remaining = none;
      } in
      let stats = observe clip s o in
      ground (
        arith,
        settle_files-ratio faults cleared o.chain_id c stats,
        settle_files-known faults cleared o.chain_id c stats,
      )

  -- When the steps of two known chains are recorded at once, and both set their budget contexts
  -- before either commits, the first commit stores the ratio of the other step's context, and the
  -- second leaves its chain's ratio as it was.
  pub commit-context_leaks :
      (faults : Faults) (s : FileStore F) (a b : StepOutcome F) (ceiling left_a left_b : F)
      → Accepts faults s a
      → Accepts faults s b
      → (a.chain_id == b.chain_id) ≡ false
      → let set = set_budget_context (set_budget_context s ceiling left_a) ceiling left_b in
        let s' = (commit clip is_safe faults (commit clip is_safe faults set a).0 b).0 in
        (ratio s' a.chain_id ≡ headroom (some ceiling) (some left_b) (ratio s a.chain_id))
        × (ratio s' b.chain_id ≡ ratio s b.chain_id)
  unfolding set_budget_context
  commit-context_leaks faults s a b ceiling left_a left_b first second other =
      let set = set_budget_context (set_budget_context s ceiling left_a) ceiling left_b in
      let mid = (commit clip is_safe faults set a).0 in
      ground (
        arith,
        commit-ratio faults set a a.chain_id first,
        commit-ratio faults set a b.chain_id first,
        commit-ratio faults mid b a.chain_id,
        commit-ratio faults mid b b.chain_id,
        eq_iff a.chain_id a.chain_id,
        eq_iff b.chain_id b.chain_id,
        eq_iff a.chain_id b.chain_id,
        eq_iff b.chain_id a.chain_id,
      )
