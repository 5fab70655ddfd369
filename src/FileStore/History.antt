-- ===== src/FileStore/History.antt =====
-- The history that the file store builds shows the newest outcomes of a chain.
use veronica.Prelude.{
  String, Bool, ◌==◌, ◌≡◌, ◌⊎◌, false, true, refl, sym, ap, ◌∙◌, subst, Option, none, some, eq_iff,
  Bool-cases, inl, inr, arith, List, [], ◌∷◌, ◌++◌, All, length-append,
}
use mathlib.Core.List.{append-nil, append_assoc, map-append}
use veronica.Prelude.Dict.{Dict, get, get-put, get-remove}
use veronica.Prelude.Result.{Exn, Result, ok, err, Result-cases}
use veronica.Float.{Float}
use veronica.Types.{StepOutcome}
use veronica.FileStore.Stats.{ChainStats, update_averages, update_streaks}
use veronica.FileStore.Files.{
  Line, stored, RotateFault, active_name, rotated_name, append_line, rotate,
}
use veronica.FileStore.{FileStore, Faults, commit, observe, settle_files}
use veronica.FileStore.Tail.{contents, disjoint, Holds, settle_files-Holds, names-differ}

module _ {F : Type 0} where
  -- A rotation touches only the two files of its chain.
  rotate-other :
      (fault : Option RotateFault) (files : Dict (List (Line F))) (d name : String)
      → (active_name d == name) ≡ false
      → (rotated_name d == name) ≡ false
      → get name (rotate fault files d).0 ≡ get name files
  unfolding rotate
  rotate-other fault files d name other_active other_rotated = grind (arith, get-put, get-remove)

module _ {F : Type 0} where
  -- Commits of the chain itself whose rotations meet no fault, and of chains with other files.
  abbrev pub Fair : String → List (Faults × StepOutcome F) → Type 0
  Fair c calls =
      All
        (λ call.
          ((call.1.chain_id ≡ c) × (call.0.rotation ≡ none)) ⊎ (disjoint c call.1.chain_id ≡ true))
        calls

module _ {F : Type 0} ⦃fl : Float F⦄ (clip : String → String) (is_safe : String → Bool) where
  -- the store when the line is appended and the context is consumed
  abbrev pub appended : FileStore F → StepOutcome F → FileStore F
  appended s o = record s {
    files = append_line o s.files;
    budget_ceiling = none;
    budget_remaining = none;
  }

  pub commit-accepted :
      (faults : Faults) (s : FileStore F) (o : StepOutcome F)
      → (commit clip is_safe faults s o).1 ≡ ok tt
      → (commit clip is_safe faults s o).0
        ≡ settle_files faults (appended s o) o.chain_id (observe clip s o)
  unfolding commit
  commit-accepted faults s o done = ground arith

  -- the appended line, and the rotated file, which is another
  pub append_line-own :
      (o : StepOutcome F) (files : Dict (List (Line F)))
      → (get (active_name o.chain_id) (append_line o files)
          ≡ some (contents (active_name o.chain_id) files ++ stored o ∷ []))
        × (contents (rotated_name o.chain_id) (append_line o files)
            ≡ contents (rotated_name o.chain_id) files)
  unfolding append_line
  append_line-own o files =
      let old = active_name o.chain_id in
      let new = rotated_name o.chain_id in
      elim (Bool-cases (old == new)) [
        | inl same ↦ absurd (names-differ o.chain_id ((eq_iff old new).0 same))
        | inr apart ↦ (grind (arith, get-put, eq_iff), grind (arith, get-put))
      ]

  commit-own :
      (faults : Faults) (s : FileStore F) (o : StepOutcome F) (log : List (StepOutcome F))
      → faults.rotation ≡ none
      → (commit clip is_safe faults s o).1 ≡ ok tt
      → Holds o.chain_id s log
      → Holds o.chain_id (commit clip is_safe faults s o).0 (log ++ o ∷ [])
  unfolding observe update_averages update_streaks
  commit-own faults s o log fine done holds =
      let c = o.chain_id in
      let act = contents (active_name c) s.files in
      let (grown, same) = append_line-own o s.files in
      rw (commit-accepted faults s o done) (
        settle_files-Holds faults (appended s o) c (observe clip s o) (log ++ o ∷ []) holds.older
          (act ++ stored o ∷ []) fine grown
          (rw same (
            sym (append_assoc _ act (stored o ∷ []))
            ∙ ap (λ (l : List (Line F)). l ++ stored o ∷ []) holds.kept
            ∙ sym (map-append stored log (o ∷ []))))
          (rw same holds.full) (omega (arith, length-append act (stored o ∷ []), holds.counted)))

  commit-refused :
      (faults : Faults) (s : FileStore F) (o : StepOutcome F) (e : Exn)
      → (commit clip is_safe faults s o).1 ≡ err e
      → (commit clip is_safe faults s o).0 ≡ s
  unfolding commit
  commit-refused faults s o e failed = ground arith

  settle_files-other :
      (faults : Faults) (s : FileStore F) (d c : String) (stats : ChainStats F)
      → disjoint c d ≡ true
      → let s' = settle_files faults s d stats in
        (get (active_name c) s'.files ≡ get (active_name c) s.files)
        × (get (rotated_name c) s'.files ≡ get (rotated_name c) s.files)
        × (get c s'.chain_stats ≡ get c s.chain_stats)
        × (s'.max_lines ≡ s.max_lines)
  unfolding settle_files
  settle_files-other faults s d c stats apart = (
    ground (arith, rotate-other faults.rotation s.files d (active_name c)),
    ground (arith, rotate-other faults.rotation s.files d (rotated_name c)),
    grind (arith, get-put),
    refl,
  )

  pub append_line-other :
      (o : StepOutcome F) (files : Dict (List (Line F))) (name : String)
      → (active_name o.chain_id == name) ≡ false
      → get name (append_line o files) ≡ get name files
  unfolding append_line
  append_line-other o files name apart = grind (arith, get-put)

  Holds-frame :
      (c : String) (s s' : FileStore F) (log : List (StepOutcome F))
      → get (active_name c) s'.files ≡ get (active_name c) s.files
      → get (rotated_name c) s'.files ≡ get (rotated_name c) s.files
      → get c s'.chain_stats ≡ get c s.chain_stats
      → s'.max_lines ≡ s.max_lines
      → Holds c s log
      → Holds c s' log
  Holds-frame c s s' log active rotated stats max holds = record {
    older = holds.older;
    kept = rw (active, rotated) holds.kept;
    full = rw (rotated, max) holds.full;
    counted = rw (active, stats) holds.counted;
  }

  commit-other :
      (faults : Faults) (s : FileStore F) (o : StepOutcome F) (c : String)
      → (log : List (StepOutcome F)) → disjoint c o.chain_id ≡ true
      → Holds c s log
      → Holds c (commit clip is_safe faults s o).0 log
  unfolding append_line
  commit-other faults s o c log apart holds =
      elim (Result-cases (commit clip is_safe faults s o).1) [
        | inr (e, failed) ↦ rw (commit-refused faults s o e failed) holds
        | inl (done, accepted) ↦
            let (active, rotated, stats, max) =
              settle_files-other faults (appended s o) o.chain_id c (observe clip s o) apart in
            rw (commit-accepted faults s o accepted) (
              Holds-frame c s (settle_files faults (appended s o) o.chain_id (observe clip s o)) log
                (active ∙ append_line-other o s.files (active_name c) (ground arith))
                (rotated ∙ append_line-other o s.files (rotated_name c) (ground arith)) stats max
                holds)
      ]

  -- An outcome that is accepted, when it is one of the chain.
  abbrev pub keep_if : Result (Unit {0}) → Bool → StepOutcome F → List (StepOutcome F)
  keep_if (ok _) true o = o ∷ []
  keep_if _ _ o = []

  keep_if-false : (r : Result (Unit {0})) (o : StepOutcome F) → keep_if r false o ≡ []
  keep_if-false (ok _) o = refl
  keep_if-false (err e) o = refl

  commit-keeps :
      (faults : Faults) (s : FileStore F) (o : StepOutcome F) (log : List (StepOutcome F))
      → faults.rotation ≡ none
      → Holds o.chain_id s log
      → Holds o.chain_id
          (commit clip is_safe faults s o).0
          (log ++ keep_if (commit clip is_safe faults s o).1 true o)
  commit-keeps faults s o log fine holds = elim (Result-cases (commit clip is_safe faults s o).1) [
    | inl (done, accepted) ↦ rw accepted (commit-own faults s o log fine accepted holds)
    | inr (e, failed) ↦ rw (failed, commit-refused faults s o e failed, append-nil) holds
  ]

  commit-Holds :
      (faults : Faults) (s : FileStore F) (o : StepOutcome F) (c : String)
      → (log : List (StepOutcome F))
      → ((o.chain_id ≡ c) × (faults.rotation ≡ none)) ⊎ (disjoint c o.chain_id ≡ true)
      → Holds c s log
      → Holds c
          (commit clip is_safe faults s o).0
          (log ++ keep_if (commit clip is_safe faults s o).1 (o.chain_id == c) o)
  commit-Holds faults s o c log (inr apart) holds =
      let other : (o.chain_id == c) ≡ false = ground arith in
      rw (other, keep_if-false (commit clip is_safe faults s o).1 o, append-nil)
        (commit-other faults s o c log apart holds)
  commit-Holds faults s o c log (inl (own, fine)) holds =
      let hit : (o.chain_id == c) ≡ true = (eq_iff o.chain_id c).1 own in
      rw hit (
        subst
          (λ d.
            Holds d (commit clip is_safe faults s o).0
              (log ++ keep_if (commit clip is_safe faults s o).1 true o))
          own (commit-keeps faults s o log fine (subst (λ d. Holds d s log) (sym own) holds)))

  -- Commits, each with what fails on the disk during it.
  abbrev pub commit_all : FileStore F → List (Faults × StepOutcome F) → FileStore F
  commit_all s [] = s
  commit_all s ((faults, o) ∷ calls) = commit_all (commit clip is_safe faults s o).0 calls

  -- The outcomes of a chain that are accepted.
  abbrev pub accepted : String → FileStore F → List (Faults × StepOutcome F) → List (StepOutcome F)
  accepted c s [] = []
  accepted c s ((faults, o) ∷ calls) =
      keep_if (commit clip is_safe faults s o).1 (o.chain_id == c) o
      ++ accepted c (commit clip is_safe faults s o).0 calls

  pub commit_all-Holds :
      (c : String) (s : FileStore F) (calls : List (Faults × StepOutcome F))
      → (log : List (StepOutcome F)) → Fair c calls
      → Holds c s log
      → Holds c (commit_all s calls) (log ++ accepted c s calls)
  commit_all-Holds c s [] log fair holds = rw append-nil holds
  commit_all-Holds c s ((faults, o) ∷ calls) log fair holds =
      let s' = (commit clip is_safe faults s o).0 in
      let new = keep_if (commit clip is_safe faults s o).1 (o.chain_id == c) o in
      subst (Holds c (commit_all s' calls)) (append_assoc log new (accepted c s' calls)) (
        commit_all-Holds c s' calls (log ++ new) fair.1
          (commit-Holds faults s o c log fair.0 holds))

  commit-max_lines :
      (faults : Faults) (s : FileStore F) (o : StepOutcome F)
      → (commit clip is_safe faults s o).0.max_lines ≡ s.max_lines
  unfolding commit settle_files
  commit-max_lines faults s o = ground arith

  pub commit_all-max_lines :
      (s : FileStore F) (calls : List (Faults × StepOutcome F))
      → (commit_all s calls).max_lines ≡ s.max_lines
  commit_all-max_lines s [] = refl
  commit_all-max_lines s ((faults, o) ∷ calls) =
      commit_all-max_lines (commit clip is_safe faults s o).0 calls ∙ commit-max_lines faults s o
