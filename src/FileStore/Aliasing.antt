-- ===== src/FileStore/Aliasing.antt =====
-- Two chains that share a file: the rotated file of one is the active file of the other.
use Prim.Native.String
use text.Mathlib.TextLemmas.{append_assoc}
use mathlib.Core.List.{append-nil}
use veronica.Prelude.{
  ℕ, ◌+◌, ◌≤◌, String, Bool, ◌==◌, ◌≡◌, false, true, sym, ap, ◌∙◌, eq_iff, Bool-cases, inl, inr,
  arith, List, [], ◌∷◌, ◌++◌, last_n, leb, ltb,
}
use veronica.Prelude.Int.{ℤ}
use veronica.Prelude.Dict.{Dict}
use veronica.Prelude.Result.{ok}
use veronica.Float.{Float}
use veronica.Types.{StepOutcome, HistoryView}
use veronica.MemoryStore.{clamp_limit}
use veronica.FileStore.Files.{
  Line, stored, active_name, rotated_name, append_line, read_lines, cleaned, recent_outcomes,
}
use veronica.FileStore.Stats.{update_averages, update_streaks}
use veronica.FileStore.{FileStore, Faults, commit, observe, stats_of, build_history}
use veronica.FileStore.Tail.{contents, names-differ, append_line-contents, settle_files-stays}
use veronica.FileStore.History.{appended, commit-accepted}
use veronica.FileStore.Newest.{read_lines-append}

clamp_limit-pos : (limit : ℤ) → 1 ≤ clamp_limit limit
clamp_limit-pos limit = ground arith

-- The name of the rotated file of a chain is that of the active file of another chain.
rotated_name-active_name : (c d : String) → d ≡ String.◌++◌ c ".1" → active_name d ≡ rotated_name c
rotated_name-active_name c d named = ap active_name named ∙ append_assoc c ".1" ".jsonl"

module _ {F : Type 0} ⦃fl : Float F⦄ (clip : String → String) (as_float : ℕ → ℕ)
    (is_safe : String → Bool) where
  commit-files :
      (faults : Faults) (s : FileStore F) (o : StepOutcome F)
      → (commit clip is_safe faults s o).1 ≡ ok tt
      → leb s.max_lines ((stats_of s o.chain_id).commits_since_rotate + 1) ≡ false
      → (commit clip is_safe faults s o).0.files ≡ append_line o s.files
  unfolding observe update_averages update_streaks
  commit-files faults s o done early =
      rw (commit-accepted clip is_safe faults s o done)
        (settle_files-stays faults (appended clip is_safe s o) o.chain_id (observe clip s o)
          early).0

  recent_elsewhere :
      (files : Dict (List (Line F))) (o : StepOutcome F) (c : String) (limit : ℕ)
      → active_name o.chain_id ≡ rotated_name c
      → contents (active_name c) files ≡ []
      → 1 ≤ limit
      → recent_outcomes as_float (append_line o files) c limit
        ≡ last_n limit
            (read_lines as_float (contents (rotated_name c) files) ++ cleaned as_float o ∷ [])
  unfolding recent_outcomes read_lines
  recent_elsewhere files o c limit same empty some_shown =
      elim (Bool-cases (active_name o.chain_id == active_name c)) [
        | inl hit ↦
            absurd (
              names-differ c (sym ((eq_iff (active_name o.chain_id) (active_name c)).0 hit) ∙ same))
        | inr other ↦
            let own : contents (active_name c) (append_line o files) ≡ [] =
              append_line-contents o files (active_name c) ∙ rw other empty in
            let hit : (active_name o.chain_id == rotated_name c) ≡ true =
              (eq_iff (active_name o.chain_id) (rotated_name c)).1 same in
            let shared : contents (rotated_name c) (append_line o files)
                ≡ contents (rotated_name c) files ++ stored o ∷ [] =
              append_line-contents o files (rotated_name c) ∙ rw (hit, same) in
            let short : ltb 0 limit ≡ true = ground arith in
            rw (own, shared, short, append-nil)
              (ap (last_n limit)
                (read_lines-append as_float (contents (rotated_name c) files) (stored o ∷ [])))
      ]

  -- Where a chain has no outcomes in its own file, an outcome of the chain whose name has ".1" added,
  -- when it is committed and rotates nothing, is shown last in the history of the first chain.
  pub commit-shows_elsewhere :
      (faults : Faults) (s : FileStore F) (o : StepOutcome F) (c : String) (limit : ℤ)
      → (view : HistoryView F) → o.chain_id ≡ String.◌++◌ c ".1"
      → (commit clip is_safe faults s o).1 ≡ ok tt
      → contents (active_name c) s.files ≡ []
      → leb s.max_lines ((stats_of s o.chain_id).commits_since_rotate + 1) ≡ false
      → build_history as_float is_safe (commit clip is_safe faults s o).0 c limit ≡ ok view
      → view.last_n
        ≡ last_n
            (clamp_limit limit)
            (read_lines as_float (contents (rotated_name c) s.files) ++ cleaned as_float o ∷ [])
  unfolding build_history
  commit-shows_elsewhere faults s o c limit view named done empty early e =
      let shown =
        recent_elsewhere s.files o c (clamp_limit limit)
          (rotated_name-active_name c o.chain_id named) empty (clamp_limit-pos limit) in
      ground (arith, commit-files faults s o done early, shown)
