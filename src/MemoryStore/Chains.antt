-- ===== src/MemoryStore/Chains.antt =====
-- A chain of the memory store against the list of everything committed to it.
use veronica.Prelude.{
  ℕ, zero, suc, ◌+◌, ◌-◌, ◌≤◌, ◌≡◌, refl, sym, ap, ◌∙◌, inl, inr, String, Bool, not, ◌==◌, eq_iff,
  ◌&&◌, ◌⊎◌, List, [], ◌∷◌, ◌++◌, length, drop, last_n, select, length-append, length-drop, leb,
  ltb, leb→le, is_some, Bool-cases, arith, if◌then◌else◌,
}
use mathlib.Core.List.{append_assoc, append-nil}
use veronica.Prelude.Result.{ok, err, value_error}
use veronica.Prelude.Dict.{get, put, get-put, length-put}
use veronica.Types.{StepOutcome, or_default}
use veronica.MemoryStore.{Store, trim, commit}

module _ {A : Type 0} where
  drop-append : (n : ℕ) (xs ys : List A) → n ≤ length xs → drop n (xs ++ ys) ≡ drop n xs ++ ys
  drop-append zero xs ys h = refl
  drop-append (suc n) [] ys h = absurd (omega arith)
  drop-append (suc n) (x ∷ xs) ys h = drop-append n xs ys (omega arith)

  drop-nil : (n : ℕ) → drop {A = A} n [] ≡ []
  drop-nil zero = refl
  drop-nil (suc n) = refl

  drop-drop : (m n : ℕ) (xs : List A) → drop m (drop n xs) ≡ drop (n + m) xs
  drop-drop m zero xs = ap (λ k. drop k xs) (omega arith)
  drop-drop m (suc n) [] = drop-nil m ∙ sym (drop-nil (suc n + m))
  drop-drop m (suc n) (x ∷ xs) =
      let same : suc (n + m) ≡ suc n + m = omega arith in
      drop-drop m n xs ∙ ap (λ k. drop k (x ∷ xs)) same

  -- a list that is not longer is kept whole
  last_n-whole : (n : ℕ) (xs : List A) → length xs ≤ n → last_n n xs ≡ xs
  last_n-whole n xs h = let zero : length xs - n ≡ 0 = omega arith in ap (λ k. drop k xs) zero

  -- Cutting before an element is pushed does not show in the last elements.
  last_n-last_n :
      (n : ℕ) (xs : List A) (x : A) → last_n n (last_n n xs ++ x ∷ []) ≡ last_n n (xs ++ x ∷ [])
  last_n-last_n n xs x = elim (Bool-cases (leb (length xs) n)) [
    | inl short ↦
        ap (λ ys. last_n n (ys ++ x ∷ [])) (last_n-whole n xs (leb→le (length xs) n short))
    | inr long ↦
        let k = length xs - n in
        let cut = drop k xs ++ x ∷ [] in
        let size = length-append (drop k xs) (x ∷ []) in
        let one : length cut - n ≡ 1 = ground (arith, size, length-drop k xs, long) in
        let total : k + 1 ≡ length (xs ++ x ∷ []) - n =
          ground (arith, length-append xs (x ∷ []), long) in
        ap (λ m. drop m cut) one
        ∙ ap (λ ys. drop 1 ys) (sym (drop-append k xs (x ∷ []) (omega arith)))
        ∙ drop-drop 1 k (xs ++ x ∷ [])
        ∙ ap (λ m. drop m (xs ++ x ∷ [])) total
  ]

trim-last_n : {F : Type 0} (xs : List (StepOutcome F)) → trim xs ≡ last_n 50000 xs
trim-last_n xs = elim (Bool-cases (ltb 50000 (length xs))) [
  | inl over ↦ rw over refl
  | inr within ↦ rw within (sym (last_n-whole 50000 xs (ground arith)))
]

module _ {F : Type 0} (is_safe : String → Bool) where
  -- commits in sequence, and the outcomes that were accepted
  unfoldable pub commit_all : Store F → List (StepOutcome F) → Store F × List (StepOutcome F)
  commit_all s [] = (s, [])
  commit_all s (o ∷ os) =
      let (s', reply) = commit is_safe s o in
      let (s'', accepted) = commit_all s' os in
      (s'', elim reply [ ok _ ↦ o ∷ accepted | err _ ↦ accepted ])

  abbrev pub chain_of : Store F → String → List (StepOutcome F)
  chain_of s k = or_default (get k s) []

  -- the outcomes of a chain
  abbrev pub of_chain : String → List (StepOutcome F) → List (StepOutcome F)
  of_chain k os = select (λ o. o.chain_id == k) os

  -- the chains after a write to one of them
  put-chain_of :
      (s : Store F) (o : StepOutcome F) (k : String)
      → chain_of (put o.chain_id (trim (chain_of s o.chain_id ++ o ∷ [])) s) k
        ≡ (if o.chain_id == k then last_n 50000 (chain_of s k ++ o ∷ []) else chain_of s k)
  put-chain_of s o k =
      let new = trim (chain_of s o.chain_id ++ o ∷ []) in
      let stored = get-put o.chain_id k new s in
      elim (Bool-cases (o.chain_id == k)) [
        | inr other ↦ rw (stored, other) refl
        | inl hit ↦
            rw (stored, hit)
              (trim-last_n (chain_of s o.chain_id ++ o ∷ [])
                ∙ ap (λ i. last_n 50000 (chain_of s i ++ o ∷ [])) ((eq_iff o.chain_id k).0 hit))
      ]

  -- A commit that is refused changes nothing. One that is accepted adds the outcome to its chain,
  -- where it leaves the last 50000, and to no other.
  pub commit-chain_of :
      (s : Store F) (o : StepOutcome F) (k : String)
      → (((commit is_safe s o).0 ≡ s) × ((commit is_safe s o).1 ≡ err value_error))
        ⊎ (((commit is_safe s o).1 ≡ ok tt)
            × (chain_of (commit is_safe s o).0 k
                ≡ (if o.chain_id == k then last_n 50000 (chain_of s k ++ o ∷ []) else chain_of s k))
            × (length s ≤ 10000 → length (commit is_safe s o).0 ≤ 10000))
  unfolding commit
  commit-chain_of s o k =
      let new = trim (chain_of s o.chain_id ++ o ∷ []) in
      let size = length-put o.chain_id new s in
      elim (Bool-cases (is_safe o.chain_id)) [
        | inr bad ↦ inl (rw bad refl, rw bad refl)
        | inl safe ↦ elim (Bool-cases (not (is_some (get o.chain_id s)) && leb 10000 (length s))) [
          | inl full ↦ inl (rw (safe, full) refl, rw (safe, full) refl)
          | inr room ↦ inr (
            rw (safe, room) refl,
            rw (safe, room) (put-chain_of s o k),
            rw (safe, room) (λ h. ground (arith, size, room)),
          )
        ]
      ]

  commit_all-last_n :
      (s : Store F) (past os : List (StepOutcome F)) (k : String)
      → chain_of s k ≡ last_n 50000 past
      → let (s', accepted) = commit_all s os in
        chain_of s' k ≡ last_n 50000 (past ++ of_chain k accepted)
  unfolding commit_all
  commit_all-last_n s past [] k e = e ∙ ap (λ l. last_n 50000 l) (sym (append-nil past))
  commit_all-last_n s past (o ∷ os) k e = elim (commit-chain_of s o k) [
    | inl (same, refused) ↦
        rw (refused, commit_all)
          (commit_all-last_n (commit is_safe s o).0 past os k (ap (λ s. chain_of s k) same ∙ e))
    | inr (accepted, chain, _) ↦ elim (Bool-cases (o.chain_id == k)) [
      | inr other ↦
          rw (accepted, commit_all)
            (rw other
              (commit_all-last_n (commit is_safe s o).0 past os k ((rw other at chain) ∙ e)))
      | inl hit ↦
          let pushed =
            (rw hit at chain)
            ∙ ap (λ l. last_n 50000 (l ++ o ∷ [])) e
            ∙ last_n-last_n 50000 past o in
          rw (accepted, commit_all)
            (rw hit (
              commit_all-last_n (commit is_safe s o).0 (past ++ o ∷ []) os k pushed
              ∙ ap (λ l. last_n 50000 l) (append_assoc past (o ∷ []) _)))
    ]
  ]

  commit_all-size :
      (s : Store F) (os : List (StepOutcome F))
      → length s ≤ 10000
      → length (commit_all s os).0 ≤ 10000
  unfolding commit_all
  commit_all-size s [] h = h
  commit_all-size s (o ∷ os) h = elim (commit-chain_of s o o.chain_id) [
    | inl (same, _) ↦
        let kept = ap (λ s. length s) same in
        commit_all-size (commit is_safe s o).0 os (omega (arith, kept))
    | inr (_, _, size) ↦ commit_all-size (commit is_safe s o).0 os (size h)
  ]

  -- After any commits on an empty store each chain holds the last 50000 of the outcomes that were
  -- accepted for it, in order, and there are at most 10000 chains.
  pub commit_all-chains :
      (os : List (StepOutcome F)) (k : String)
      → let (s, accepted) = commit_all [] os in
        (chain_of s k ≡ last_n 50000 (of_chain k accepted)) × (length s ≤ 10000)
  unfolding get
  commit_all-chains os k = (commit_all-last_n [] [] os k refl, commit_all-size [] os (omega arith))
