-- ===== src/FileStore/Tail.antt =====
-- The files of a chain keep the newest outcomes that were committed to it.
use Prim.Native.String.append.{cons}
use veronica.Prelude.{
  ◌+◌, ◌≤◌, String, Bool, ◌==◌, ◌&&◌, not, ◌≡◌, ◌≢◌, ◌⊎◌, false, true, refl, sym, ap, ◌∙◌, none,
  some, eq_iff, Bool-cases, inl, inr, arith, List, [], ◌∷◌, ◌++◌, map, length, leb, if◌then◌else◌,
}
use mathlib.Core.List.{append-nil}
use veronica.Prelude.Dict.{Dict, get, get-put, get-remove}
use veronica.Float.{Float}
use veronica.Types.{StepOutcome, or_default}
use veronica.FileStore.Stats.{ChainStats}
use veronica.FileStore.Files.{Line, stored, active_name, rotated_name, append_line, rotate}
use veronica.FileStore.{FileStore, Faults, settle_files, stats_of}

abbrev rest_of : String → String
rest_of String.[] = ""
rest_of (String.◌∷◌ x s) = s

-- A chain's two files have different names.
pub names-differ : (c : String) → active_name c ≢ rotated_name c
names-differ String.[] e = cc
names-differ (String.◌∷◌ x c) e =
    names-differ c (ap rest_of (sym (λ i. cons x c ".jsonl" i) ∙ e ∙ (λ i. cons x c ".1.jsonl" i)))

module _ {F : Type 0} where
  -- the lines of a file, none when it is missing
  abbrev pub contents : String → Dict (List (Line F)) → List (Line F)
  contents name files = or_default (get name files) []

  pub append_line-contents :
      (o : StepOutcome F) (files : Dict (List (Line F))) (name : String)
      → contents name (append_line o files) ≡ (
          if active_name o.chain_id == name
          then contents (active_name o.chain_id) files ++ stored o ∷ []
          else contents name files)
  unfolding append_line
  append_line-contents o files name = grind (arith, get-put)

  -- A rotation that meets no fault moves the lines of a file that is there.
  rotate-contents :
      (files : Dict (List (Line F))) (c name : String) (lines : List (Line F))
      → get (active_name c) files ≡ some lines
      → ((rotate none files c).1 ≡ true)
        × (contents name (rotate none files c).0 ≡ (
            if rotated_name c == name
            then lines
            else if active_name c == name
            then []
            else contents name files))
  unfolding rotate
  rotate-contents files c name lines h = elim (Bool-cases (rotated_name c == active_name c)) [
    | inl same ↦ absurd (names-differ c (sym ((eq_iff (rotated_name c) (active_name c)).0 same)))
    | inr apart ↦ grind (arith, get-put, get-remove)
  ]

module _ {F : Type 0} where
  -- After it the rotated file has the lines, and the active one is empty.
  rotated-contents :
      (files : Dict (List (Line F))) (c : String) (lines : List (Line F))
      → get (active_name c) files ≡ some lines
      → (contents (rotated_name c) (rotate none files c).0 ≡ lines)
        × (contents (active_name c) (rotate none files c).0 ≡ [])
  rotated-contents files c lines h =
      let old = active_name c in
      let new = rotated_name c in
      elim (Bool-cases (new == old)) [
        | inl same ↦ absurd (names-differ c (sym ((eq_iff new old).0 same)))
        | inr apart ↦ (
          ground (arith, (rotate-contents files c new lines h).1, eq_iff new new),
          ground (arith, (rotate-contents files c old lines h).1, eq_iff old old, apart),
        )
      ]

-- The files of two chains have different names.
abbrev pub disjoint : String → String → Bool
disjoint c d =
    not (d == c)
    && not (active_name d == active_name c)
    && not (active_name d == rotated_name c)
    && not (rotated_name d == active_name c)
    && not (rotated_name d == rotated_name c)

module _ {F : Type 0} ⦃fl : Float F⦄ where
  -- The two files of a chain end its log; unless they are all of it, the rotated one is full.
  pub record Holds (c : String) (s : FileStore F) (log : List (StepOutcome F)) : Type 0 where
    pub older : List (Line F)
    pub kept :
        older ++ contents (rotated_name c) s.files ++ contents (active_name c) s.files
        ≡ map stored log
    pub full : (older ≡ []) ⊎ (s.max_lines ≤ length (contents (rotated_name c) s.files))
    pub counted : (stats_of s c).commits_since_rotate ≡ length (contents (active_name c) s.files)

  pub settle_files-stays :
      (faults : Faults) (s : FileStore F) (c : String) (stats : ChainStats F)
      → leb s.max_lines (stats.commits_since_rotate + 1) ≡ false
      → let s' = settle_files faults s c stats in
        (s'.files ≡ s.files)
        × (s'.max_lines ≡ s.max_lines)
        × ((stats_of s' c).commits_since_rotate ≡ stats.commits_since_rotate + 1)
  unfolding settle_files
  settle_files-stays faults s c stats h = (rw h, refl, grind (arith, get-put, eq_iff))

  settle_files-rotates :
      (faults : Faults) (s : FileStore F) (c : String) (stats : ChainStats F)
      (lines : List (Line F))
      → faults.rotation ≡ none
      → get (active_name c) s.files ≡ some lines
      → leb s.max_lines (stats.commits_since_rotate + 1) ≡ true
      → let s' = settle_files faults s c stats in
        (s'.files ≡ (rotate none s.files c).0)
        × (s'.max_lines ≡ s.max_lines)
        × ((stats_of s' c).commits_since_rotate ≡ 0)
  unfolding settle_files
  settle_files-rotates faults s c stats lines fine h due =
      let moved = (rotate-contents s.files c "" lines h).0 in
      (rw (due, fine), refl, grind (arith, get-put, eq_iff))

  -- What a commit of the chain does with the files, from the state before its line is settled.
  pub settle_files-Holds :
      (faults : Faults) (s : FileStore F) (c : String) (stats : ChainStats F)
      → (log : List (StepOutcome F)) (older lines : List (Line F)) → faults.rotation ≡ none
      → get (active_name c) s.files ≡ some lines
      → older ++ contents (rotated_name c) s.files ++ lines ≡ map stored log
      → (older ≡ []) ⊎ (s.max_lines ≤ length (contents (rotated_name c) s.files))
      → stats.commits_since_rotate + 1 ≡ length lines
      → Holds c (settle_files faults s c stats) log
  settle_files-Holds faults s c stats log older lines fine h kept full counted =
      elim (Bool-cases (leb s.max_lines (stats.commits_since_rotate + 1))) [
        | inr early ↦
            let (files, max, count) = settle_files-stays faults s c stats early in
            record {
              older = older;
              kept = rw (files, h) kept;
              full = rw (files, max) full;
              counted = rw (files, h) (count ∙ counted);
            }
        | inl due ↦
            let (files, max, count) = settle_files-rotates faults s c stats lines fine h due in
            let (moved, emptied) = rotated-contents s.files c lines h in
            let reached : s.max_lines ≤ length lines = ground arith in
            record {
              older = older ++ contents (rotated_name c) s.files;
              kept = rw (files, moved, emptied, append-nil) kept;
              full = inr (rw (files, moved, max) reached);
              counted = rw (files, emptied) count;
            }
      ]
