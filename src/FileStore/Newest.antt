-- ===== src/FileStore/Newest.antt =====
-- The history that the file store builds of a chain, and another chain's outcomes in it.
use veronica.Prelude.{
  ℕ, suc, ◌+◌, ◌-◌, ◌≤◌, String, Bool, ◌≡◌, ◌⊎◌, refl, sym, ap, ◌∙◌, none, Bool-cases, inl, inr,
  arith, List, [], ◌∷◌, ◌++◌, map, length, last_n, drop, ltb, if◌then◌else◌, length-append,
}
use mathlib.Core.List.{append_assoc}
use veronica.Prelude.Dict.{get}
use veronica.Prelude.Int.{ℤ}
use veronica.Prelude.Result.{ok}
use veronica.Float.{Float}
use veronica.Types.{StepOutcome, HistoryView}
use veronica.FileStore.Files.{
  Line, stored, unreadable, active_name, rotated_name, read_lines, cleaned, recent_outcomes,
}
use veronica.FileStore.{FileStore, Faults, build_history}
use veronica.MemoryStore.{clamp_limit}
use veronica.FileStore.Tail.{contents, Holds}
use veronica.FileStore.History.{commit_all, accepted, Fair, commit_all-Holds, commit_all-max_lines}

module _ {F : Type 0} where
  -- A new store on an empty disk.
  abbrev pub new_store : ℕ → ℕ → FileStore F
  new_store flush_interval max_lines = record {
    flush_interval = flush_interval;
    max_lines = max_lines;
    chain_stats = [];
    budget_ceiling = none;
    budget_remaining = none;
    files = [];
    stats_files = [];
  }

module _ {ℓ} {A : Type ℓ} where
  drop-append : (xs ys : List A) (k : ℕ) → drop (length xs + k) (xs ++ ys) ≡ drop k ys
  drop-append [] ys k = ap (λ n. drop n ys) (omega arith)
  drop-append (x ∷ xs) ys k =
      let next : suc (length xs) + k ≡ suc (length xs + k) = omega arith in
      rw next (drop-append xs ys k)

  last_n-append : (n : ℕ) (xs ys : List A) → n ≤ length ys → last_n n (xs ++ ys) ≡ last_n n ys
  last_n-append n xs ys h =
      let cut : length (xs ++ ys) - n ≡ length xs + (length ys - n) =
        omega (arith, length-append xs ys) in
      rw cut (drop-append xs ys (length ys - n))

  -- the last elements of a list, read from its end `ys` or from `xs ++ ys`
  last_n-parts :
      (n : ℕ) (ws xs ys zs : List A)
      → (ws ≡ []) ⊎ (n ≤ length xs)
      → ws ++ xs ++ ys ≡ zs
      → last_n n (if ltb (length ys) n then xs ++ ys else ys) ≡ last_n n zs
  last_n-parts n ws xs ys zs full e = elim (Bool-cases (ltb (length ys) n)) [
    | inr long ↦
        let enough : n ≤ length ys = ground arith in
        rw long (sym (last_n-append n (ws ++ xs) ys enough) ∙ ap (last_n n) e)
    | inl short ↦ rw short (short_case full)
  ]
    where
      short_case : (ws ≡ []) ⊎ (n ≤ length xs) → last_n n (xs ++ ys) ≡ last_n n zs
      short_case (inl none_older) =
          ap (last_n n) (ap (λ (l : List A). l ++ xs ++ ys) (sym none_older) ∙ e)
      short_case (inr enough) =
          sym (last_n-append n ws (xs ++ ys) (omega (arith, length-append xs ys)))
          ∙ ap (last_n n) (sym (append_assoc ws xs ys) ∙ e)

length-map : {A B : Type 0} (f : A → B) (xs : List A) → length (map f xs) ≡ length xs
length-map f [] = refl
length-map f (x ∷ xs) = omega (arith, length-map f xs)

module _ {F : Type 0} ⦃fl : Float F⦄ (as_float : ℕ → ℕ) where
  pub read_lines-append :
      (xs ys : List (Line F))
      → read_lines as_float (xs ++ ys) ≡ read_lines as_float xs ++ read_lines as_float ys
  unfolding read_lines
  read_lines-append [] ys = refl
  read_lines-append (unreadable ∷ xs) ys = read_lines-append xs ys
  read_lines-append (stored o ∷ xs) ys = ap (◌∷◌ (cleaned as_float o)) (read_lines-append xs ys)

  read_lines-map :
      (log : List (StepOutcome F))
      → read_lines as_float (map stored log) ≡ map (cleaned as_float) log
  unfolding read_lines
  read_lines-map [] = refl
  read_lines-map (o ∷ log) = ap (◌∷◌ (cleaned as_float o)) (read_lines-map log)

  length-read_lines-le : (xs : List (Line F)) → length (read_lines as_float xs) ≤ length xs
  unfolding read_lines
  length-read_lines-le [] = omega arith
  length-read_lines-le (unreadable ∷ xs) = omega (arith, length-read_lines-le xs)
  length-read_lines-le (stored o ∷ xs) = omega (arith, length-read_lines-le xs)

  -- The lines of a log, read in three parts.
  read_parts :
      (older rotated active : List (Line F)) (log : List (StepOutcome F))
      → older ++ rotated ++ active ≡ map stored log
      → read_lines as_float older ++ read_lines as_float rotated ++ read_lines as_float active
        ≡ map (cleaned as_float) log
  read_parts older rotated active log e =
      sym (
        read_lines-append (older ++ rotated) active
        ∙ ap (λ (l : List (StepOutcome F)). l ++ read_lines as_float active)
            (read_lines-append older rotated))
      ∙ ap (read_lines as_float) e
      ∙ read_lines-map log

  -- Of lines that are all outcomes, none is skipped.
  all_read :
      (older rotated active : List (Line F)) (log : List (StepOutcome F))
      → older ++ rotated ++ active ≡ map stored log
      → length (read_lines as_float rotated) ≡ length rotated
  all_read older rotated active log e =
      let w = read_lines as_float older in
      let x = read_lines as_float rotated in
      let y = read_lines as_float active in
      omega (
        arith,
        ap (λ (l : List (Line F)). length l) e,
        ap (λ (l : List (StepOutcome F)). length l) (read_parts older rotated active log e),
        length-append (older ++ rotated) active,
        length-append older rotated,
        length-append (w ++ x) y,
        length-append w x,
        length-map stored log,
        length-map (cleaned as_float) log,
        length-read_lines-le older,
        length-read_lines-le rotated,
        length-read_lines-le active,
      )

  recent_outcomes-last_n :
      (c : String) (s : FileStore F) (log : List (StepOutcome F)) (limit : ℕ)
      → limit ≤ s.max_lines
      → Holds c s log
      → recent_outcomes as_float s.files c limit ≡ last_n limit (map (cleaned as_float) log)
  unfolding recent_outcomes read_lines
  recent_outcomes-last_n c s log limit bound holds =
      let rotated = contents (rotated_name c) s.files in
      let active = contents (active_name c) s.files in
      last_n-parts limit (read_lines as_float holds.older) (read_lines as_float rotated)
        (read_lines as_float active) (map (cleaned as_float) log) (room holds.full)
        (read_parts holds.older rotated active log holds.kept)
    where
      room :
          (holds.older ≡ []) ⊎ (s.max_lines ≤ length (contents (rotated_name c) s.files))
          → (read_lines as_float holds.older ≡ [])
            ⊎ (limit ≤ length (read_lines as_float (contents (rotated_name c) s.files)))
      room (inl none_older) = inl (ap (read_lines as_float) none_older)
      room (inr full) = inr (
          omega (
            arith,
            all_read holds.older (contents (rotated_name c) s.files)
                (contents (active_name c) s.files) log holds.kept,
          ))

module _ {F : Type 0} ⦃fl : Float F⦄ where
  new_store-Holds :
      (c : String) (flush_interval max_lines : ℕ)
      → Holds {F = F} c (new_store flush_interval max_lines) []
  unfolding get
  new_store-Holds c flush_interval max_lines = record {
    older = [];
    kept = refl;
    full = inl refl;
    counted = refl;
  }

module _ {F : Type 0} ⦃fl : Float F⦄ (clip : String → String) (as_float : ℕ → ℕ)
    (is_safe : String → Bool) where
  -- After any commits on a new store, where the rotations of a chain meet no fault and no other
  -- chain's files have the names of its own, a history that is built shows the newest outcomes
  -- that were accepted for the chain, as many as asked for, up to the number of lines at which
  -- files are rotated; other faults of the disk may happen.
  pub build_history-last_n :
      (flush_interval max_lines : ℕ) (calls : List (Faults × StepOutcome F)) (c : String)
      → (limit : ℤ) (view : HistoryView F) → Fair c calls
      → clamp_limit limit ≤ max_lines
      → let new = new_store flush_interval max_lines in
        build_history as_float is_safe (commit_all clip is_safe new calls) c limit ≡ ok view
        → view.last_n
          ≡ last_n (clamp_limit limit) (map (cleaned as_float) (accepted clip is_safe c new calls))
  unfolding build_history
  build_history-last_n flush_interval max_lines calls c limit view fair bound e =
      let new = new_store flush_interval max_lines in
      let holds =
        commit_all-Holds clip is_safe c new calls [] fair
          (new_store-Holds c flush_interval max_lines) in
      let shown =
        recent_outcomes-last_n as_float c (commit_all clip is_safe new calls)
          (accepted clip is_safe c new calls) (clamp_limit limit)
          (rw (commit_all-max_lines clip is_safe new calls) bound) holds in
      ground (arith, shown)
