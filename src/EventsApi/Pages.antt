-- ===== src/EventsApi/Pages.antt =====
-- What a page of events shows: a slice of the matching events, newest first.
use mathlib.Core.List.{Permᴰ}
use mathlib.Core.List.Permᴰ
use veronica.Prelude.{
  ℕ, zero, suc, Bool, true, false, ◌&&◌, ◌==◌, ◌≡◌, refl, sym, ap, subst, ◌∙◌, Option, none, some,
  List, [], ◌∷◌, any, length, select, take, drop, ltb, min, Bool-cases, inl, inr, arith,
}
use veronica.Prelude.Result.{Result, ok, err, ◌>>◌}
use veronica.Float.{Float, FloatLaws}
use veronica.Events.{Event}
use veronica.EventsApi.{
  check_decisions, check_hash, check_time, check_range, Query, Page, max_results_cap, filter_by,
  insert, newest_first, filtered, page_of, list_events,
}

-- A test that holds where its parameter is not given.
abbrev pub if_given : {A : Type 0} → Option A → (A → Bool) → Bool
if_given none test = true
if_given (some a) test = test a

select-all : {E : Type 0} (xs : List E) → xs ≡ select (λ o. true) xs
select-all [] = refl
select-all (x ∷ xs) = ap (◌∷◌ x) (select-all xs)

filter_by-select :
    {A E : Type 0} (a : Option A) (test : A → E → Bool) (xs : List E)
    → filter_by a test xs ≡ select (λ o. if_given a (λ b. test b o)) xs
filter_by-select none test xs = select-all xs
filter_by-select (some a) test xs = refl

select-select :
    {E : Type 0} (p q : E → Bool) (xs : List E)
    → select p (select q xs) ≡ select (λ o. q o && p o) xs
select-select p q [] = refl
select-select p q (x ∷ xs) = elim (Bool-cases (q x)) [
  | inr skipped ↦ rw skipped (select-select p q xs)
  | inl kept ↦ rw (kept, select-select p q xs) refl
]

>>-ok :
    {B : Type 0} (checked : Result (Unit {0})) (next : Result B) (b : B)
    → (checked >> next) ≡ ok b
    → next ≡ ok b
>>-ok (ok done) next b h = h
>>-ok (err x) next b h = absurd (ground (arith, h))

take-min : {E : Type 0} (n : ℕ) (xs : List E) → take (min (length xs) n) xs ≡ take n xs
take-min zero xs = let e : min (length xs) 0 ≡ 0 = omega arith in rw e
take-min (suc n) [] = let e : min 0 (suc n) ≡ 0 = omega arith in rw e
take-min (suc n) (x ∷ xs) =
    let e : min (suc (length xs)) (suc n) ≡ suc (min (length xs) n) = omega arith in
    rw e (ap (◌∷◌ x) (take-min n xs))

module _ {F : Type 0} ⦃fl : Float F⦄ where
  -- The events that a query asks for.
  abbrev pub matching : Query F → Event F → Bool
  matching q o =
      (((if_given q.chain_id (λ c. o.chain_id == c)
            && if_given q.decision (λ ds. any (λ d. d == o.decision) ds))
          && if_given q.policy_hash (λ h. o.policy_hash == h))
        && if_given q.since (λ t. fl.le t o.timestamp))
      && if_given q.until (λ t. fl.le o.timestamp t)

  -- No event is followed by a newer one.
  abbrev pub IsNewestFirst : List (Event F) → Type 0
  IsNewestFirst [] = Unit
  IsNewestFirst (e ∷ []) = Unit
  IsNewestFirst (e ∷ f ∷ fs) = (fl.lt e.timestamp f.timestamp ≡ false) × IsNewestFirst (f ∷ fs)

  insert-Permᴰ : (e : Event F) (fs : List (Event F)) → Permᴰ (insert e fs) (e ∷ fs)
  unfolding insert
  insert-Permᴰ e [] = Permᴰ.refl (e ∷ [])
  insert-Permᴰ e (f ∷ fs) = elim (Bool-cases (fl.lt e.timestamp f.timestamp)) [
    | inr first ↦ rw first (Permᴰ.refl (e ∷ f ∷ fs))
    | inl later ↦
        rw later (Permᴰ.trans (Permᴰ.cons refl (insert-Permᴰ e fs)) (Permᴰ.swap refl refl))
  ]

  pub newest_first-Permᴰ : (es : List (Event F)) → Permᴰ (newest_first es) es
  unfolding newest_first
  newest_first-Permᴰ [] = Permᴰ.nil
  newest_first-Permᴰ (e ∷ es) =
      Permᴰ.trans (insert-Permᴰ e (newest_first es)) (Permᴰ.cons refl (newest_first-Permᴰ es))

  filtered-matching :
      (q : Query F) (outcomes : List (Event F))
      → filtered q outcomes ≡ select (λ o. matching q o) outcomes
  filtered-matching q outcomes = simp (filter_by-select, select-select)

  length-insert : (e : Event F) (fs : List (Event F)) → length (insert e fs) ≡ suc (length fs)
  unfolding insert
  length-insert e [] = refl
  length-insert e (f ∷ fs) = ground (arith, length-insert e fs)

  length-newest_first : (es : List (Event F)) → length (newest_first es) ≡ length es
  unfolding newest_first
  length-newest_first [] = refl
  length-newest_first (e ∷ es) =
      omega (arith, length-insert e (newest_first es), length-newest_first es)

  -- when every check passes, the page is the one of the filtered events
  list_events-page_of :
      (outcomes : List (Event F)) (q : Query F) (page : Page F)
      → list_events outcomes q ≡ ok page
      → page_of q (filtered q outcomes) ≡ page
  unfolding list_events
  list_events-page_of outcomes q page e =
      let after_decisions = >>-ok (check_decisions q.decision) _ page e in
      let after_hash = >>-ok (check_hash q.policy_hash) _ page after_decisions in
      let after_since = >>-ok (check_time q.since) _ page after_hash in
      let after_until = >>-ok (check_time q.until) _ page after_since in
      let after_range = >>-ok (check_range q.since q.until) _ page after_until in
      ground (arith, after_range)

module _ {F : Type 0} ⦃fl : Float F⦄ ⦃laws : FloatLaws F⦄ where
  insert-IsNewestFirst :
      (e : Event F) (fs : List (Event F)) → IsNewestFirst fs → IsNewestFirst (insert e fs)
  unfolding insert
  insert-IsNewestFirst e [] h = tt
  insert-IsNewestFirst e (f ∷ []) h = elim (Bool-cases (fl.lt e.timestamp f.timestamp)) [
    | inr first ↦ rw first (first, tt)
    | inl later ↦ rw later (laws.lt_asymm e.timestamp f.timestamp later, tt)
  ]
  insert-IsNewestFirst e (f ∷ g ∷ fs) h = elim (Bool-cases (fl.lt e.timestamp f.timestamp)) [
    | inr first ↦ rw first (first, h)
    | inl later ↦
        let rest = insert-IsNewestFirst e (g ∷ fs) h.1 in
        rw later (elim (Bool-cases (fl.lt e.timestamp g.timestamp)) [
          | inr second ↦ rw second (laws.lt_asymm e.timestamp f.timestamp later, (second, h.1))
          | inl after ↦ rw after (h.0, rw after at rest)
        ])
  ]

  pub newest_first-IsNewestFirst : (es : List (Event F)) → IsNewestFirst (newest_first es)
  unfolding newest_first
  newest_first-IsNewestFirst [] = tt
  newest_first-IsNewestFirst (e ∷ es) =
      insert-IsNewestFirst e (newest_first es) (newest_first-IsNewestFirst es)

  -- When the endpoint answers, the events that it shows are a slice of the matching ones, each
  -- counted as often as it is stored, in an order in which none is followed by a newer one: those
  -- from the offset on, as many as the limit, among the first 10000, which are the total.
  pub list_events-page :
      (outcomes : List (Event F)) (q : Query F) (page : Page F)
      → list_events outcomes q ≡ ok page
      → (sorted : List (Event F)) × Permᴰ sorted (select (λ o. matching q o) outcomes)
        × IsNewestFirst sorted
        × (page.items ≡ take q.limit (drop q.offset (take max_results_cap sorted)))
        × (page.total ≡ min (length sorted) max_results_cap)
        × (page.truncated ≡ ltb max_results_cap (length sorted))
  unfolding list_events
  list_events-page outcomes q page e =
      let shown = filtered q outcomes in
      let sorted = newest_first shown in
      let same = list_events-page_of outcomes q page e in
      let long = length-newest_first shown in
      (
        sorted,
        subst (λ (xs : List (Event F)). Permᴰ sorted xs) (filtered-matching q outcomes)
            (newest_first-Permᴰ shown),
        newest_first-IsNewestFirst shown,
        sym (ap (λ (p : Page F). p.items) same)
            ∙ ap (λ (n : ℕ). take q.limit (drop q.offset (take (min n max_results_cap) sorted)))
                (sym long)
            ∙ ap (λ (xs : List (Event F)). take q.limit (drop q.offset xs))
                (take-min max_results_cap sorted),
        sym (ap (λ (p : Page F). p.total) same) ∙ ap (λ (n : ℕ). min n max_results_cap) (sym long),
        sym (ap (λ (p : Page F). p.truncated) same)
            ∙ ap (λ (n : ℕ). ltb max_results_cap n) (sym long),
      )
