-- ===== src/Export/Complete.antt =====
-- The export misses nothing: the pages add up to all policies, and the events are the newest.
use mathlib.Core.List.{Permᴰ}
use veronica.Prelude.{
  ℕ, zero, suc, ◌+◌, ◌-◌, ◌*◌, ◌≤◌, ◌≡◌, refl, sym, ap, subst, ◌∙◌, ◌||◌, true, false, some, List,
  [], ◌∷◌, ◌++◌, length, take, drop, leb, length-take, length-drop, Bool, ◌⊎◌, Bool-cases, inl, inr,
  arith,
}
use veronica.Prelude.Dict.{values}
use veronica.Float.{Float, FloatLaws}
use veronica.Events.{Event}
use veronica.EventsApi.{newest_first}
use veronica.EventsApi.Pages.{IsNewestFirst, newest_first-Permᴰ, newest_first-IsNewestFirst}
use veronica.Distributor.{PolicyBundle}
use veronica.PolicyRegistry.{Registry, list_policies}
use veronica.Export.{is_empty, policy_page_size, collect_pages, export_data}

module _ {ℓ} {A : Type ℓ} where
  take-ge : (n : ℕ) (xs : List A) → length xs ≤ n → take n xs ≡ xs
  take-ge zero [] h = refl
  take-ge zero (x ∷ xs) h = absurd (omega arith)
  take-ge (suc n) [] h = refl
  take-ge (suc n) (x ∷ xs) h = ap (◌∷◌ x) (take-ge n xs (omega arith))

  take-plus : (m n : ℕ) (xs : List A) → take m xs ++ take n (drop m xs) ≡ take (m + n) xs
  take-plus zero n xs = let e : 0 + n ≡ n = omega arith in rw e
  take-plus (suc m) n [] = let e : suc m + n ≡ suc (m + n) = omega arith in rw e (nothing n)
    where
      nothing : (n : ℕ) → take {A = A} n [] ≡ []
      nothing zero = refl
      nothing (suc n) = refl
  take-plus (suc m) n (x ∷ xs) =
      let e : suc m + n ≡ suc (m + n) = omega arith in rw e (ap (◌∷◌ x) (take-plus m n xs))

  length-is_empty : (xs : List A) → is_empty xs ≡ true → length xs ≡ 0
  length-is_empty [] h = refl
  length-is_empty (x ∷ xs) h = absurd (ground arith)

leb-or : (a b : ℕ) (e : Bool) → (leb a b || e) ≡ true → (a ≤ b) ⊎ (e ≡ true)
leb-or a b e h = ground arith

module _ {F : Type 0} where
  -- the page after the first `k`, which extends what was read of them
  chunk-take :
      (k : ℕ) (r : Registry F)
      → (list_policies r (k + 1) policy_page_size).0
        ≡ take policy_page_size (drop (k * policy_page_size) (values r.store))
  unfolding list_policies
  chunk-take k r =
      let e : k + 1 - 1 ≡ k = omega arith in
      ap (λ (n : ℕ). take policy_page_size (drop (n * policy_page_size) (values r.store))) e

  extended-take :
      (k : ℕ) (r : Registry F)
      → take (k * policy_page_size) (values r.store) ++ (list_policies r (k + 1) policy_page_size).0
        ≡ take ((k + 1) * policy_page_size) (values r.store)
  extended-take k r =
      let e : k * policy_page_size + policy_page_size ≡ (k + 1) * policy_page_size = omega arith in
      rw (chunk-take k r) (
        take-plus (k * policy_page_size) policy_page_size (values r.store)
        ∙ ap (λ (n : ℕ). take n (values r.store)) e)

  -- The loop stops early only when there is no more.
  stopped-all :
      (k : ℕ) (all : List (PolicyBundle F))
      → (leb (length all) (length (take ((k + 1) * policy_page_size) all))
          || is_empty (take policy_page_size (drop (k * policy_page_size) all)))
        ≡ true
      → length all ≤ (k + 1) * policy_page_size
  stopped-all k all h =
      let chunk = take policy_page_size (drop (k * policy_page_size) all) in
      let long = length-take ((k + 1) * policy_page_size) all in
      let rest = length-drop (k * policy_page_size) all in
      let short = length-take policy_page_size (drop (k * policy_page_size) all) in
      elim (leb-or (length all) (length (take ((k + 1) * policy_page_size) all)) (is_empty chunk)
        h) [
          | inl enough ↦ omega (arith, long, enough)
          | inr none_left ↦ omega (arith, rest, short, length-is_empty chunk none_left)
        ]

  -- the loop once a page is read
  abbrev after_page :
      ℕ → Registry F → ℕ → List (PolicyBundle F) → List (PolicyBundle F) → List (PolicyBundle F)
  after_page left r page extended chunk =
      elim (leb (length (values r.store)) (length extended) || is_empty chunk) [
        | true ↦ extended
        | false ↦ collect_pages left r (page + 1) extended
      ]

  next_page :
      (left : ℕ) (r : Registry F) (page : ℕ) (read extended chunk : List (PolicyBundle F))
      → read ++ (list_policies r page policy_page_size).0 ≡ extended
      → (list_policies r page policy_page_size).0 ≡ chunk
      → collect_pages (suc left) r page read ≡ after_page left r page extended chunk
  unfolding collect_pages list_policies
  next_page left r page read extended chunk e c =
      subst
        (λ (x : List (PolicyBundle F)).
          collect_pages (suc left) r page read ≡ after_page left r page extended x)
        c
        (subst
          (λ (x : List (PolicyBundle F)).
            collect_pages (suc left) r page read
            ≡ after_page left r page x (list_policies r page policy_page_size).0)
          e refl)

  -- From any number of pages on, the loop collects the pages that are left.
  collect_pages-take :
      (left k : ℕ) (r : Registry F)
      → collect_pages left r (k + 1) (take (k * policy_page_size) (values r.store))
        ≡ take ((k + left) * policy_page_size) (values r.store)
  unfolding collect_pages
  collect_pages-take zero k r = let e : k + 0 ≡ k = omega arith in rw e
  collect_pages-take (suc left) k r =
      let all = values r.store in
      let extended = take ((k + 1) * policy_page_size) all in
      let chunk = take policy_page_size (drop (k * policy_page_size) all) in
      let stops = leb (length all) (length extended) || is_empty chunk in
      next_page left r (k + 1) (take (k * policy_page_size) all) extended chunk (extended-take k r)
        (chunk-take k r)
      ∙ elim (Bool-cases stops) [
        | inl over ↦
            rw (over, after_page)
              (sym (
                take-ge ((k + suc left) * policy_page_size) all
                  (omega (arith, stopped-all k all over))
                ∙ sym (take-ge ((k + 1) * policy_page_size) all (stopped-all k all over))))
        | inr more ↦
            let e : k + suc left ≡ k + 1 + left = omega arith in
            rw (more, e, after_page) (collect_pages-take left (k + 1) r)
      ]

module _ {F : Type 0} ⦃fl : Float F⦄ ⦃laws : FloatLaws F⦄ where
  -- When no other request comes between, the export has all policies when there are at most
  -- 1000000, each once and in their order, and of the events that are read the newest, as many as
  -- the limit; they are sorted from the newest on.
  pub export_data_complete :
      (r : Registry F) (outcomes : List (Event F)) (event_limit : ℕ) (now : F)
      → length (values r.store) ≤ 1000000
      → let exported = export_data r (some outcomes) event_limit now in
        (exported.policies ≡ values r.store)
        × ((sorted : List (Event F)) × Permᴰ sorted outcomes
            × IsNewestFirst sorted
            × (exported.events ≡ take event_limit sorted))
        × (exported.warnings ≡ [])
  unfolding export_data
  export_data_complete r outcomes event_limit now few = (
    collect_pages-take 1000 0 r ∙ take-ge 1000000 (values r.store) few,
    (newest_first outcomes, newest_first-Permᴰ outcomes, newest_first-IsNewestFirst outcomes, refl),
    refl,
  )
