-- ===== src/IncidentsApi/Timeline.antt =====
-- What an incident shows.
use mathlib.Core.List.{Permᴰ}
use mathlib.Core.List.Permᴰ
use veronica.Prelude.{
  String, Bool, true, false, ◌==◌, ◌≡◌, refl, ap, Option, none, some, List, [], ◌∷◌, ◌++◌, any, map,
  select, Bool-cases, Option-cases, inl, inr, ◌⊎◌,
}
use veronica.Prelude.Result.{ok, err, http_404}
use veronica.Float.{Float, FloatLaws}
use veronica.Events.{Event}
use veronica.IncidentsApi.{
  IncidentDetail, is_halt_decision, first, timeline_event, root_cause_of, insert, by_time, detail,
  is_target, get_incident,
}

-- What is found passes the test and none before it does; where nothing is found, none does.
abbrev pub IsFirst : {E : Type 0} → (E → Bool) → List E → Option E → Type 0
IsFirst test xs none = any test xs ≡ false
IsFirst {E = E} test xs (some x) =
    (front : List E) × (back : List E) × (xs ≡ front ++ x ∷ back)
    × (any test front ≡ false)
    × (test x ≡ true)

IsFirst-cons :
    {E : Type 0} (test : E → Bool) (x : E) (xs : List E) (found : Option E)
    → test x ≡ false
    → IsFirst test xs found
    → IsFirst test (x ∷ xs) found
IsFirst-cons test x xs none skipped h = rw skipped h
IsFirst-cons test x xs (some y) skipped (front, back, e, before, passes) =
    (x ∷ front, back, ap (◌∷◌ x) e, rw skipped before, passes)

first-IsFirst : {E : Type 0} (test : E → Bool) (xs : List E) → IsFirst test xs (first test xs)
unfolding first
first-IsFirst test [] = refl
first-IsFirst test (x ∷ xs) = elim (Bool-cases (test x)) [
  | inl found ↦ rw found ([], xs, refl, refl, found)
  | inr skipped ↦
      rw skipped (IsFirst-cons test x xs (first test xs) skipped (first-IsFirst test xs))
]

module _ {F : Type 0} ⦃fl : Float F⦄ where
  -- No event is followed by an older one.
  abbrev pub IsOldestFirst : List (Event F) → Type 0
  IsOldestFirst [] = Unit
  IsOldestFirst (e ∷ []) = Unit
  IsOldestFirst (e ∷ f ∷ fs) = (fl.lt f.timestamp e.timestamp ≡ false) × IsOldestFirst (f ∷ fs)

  insert-Permᴰ : (e : Event F) (fs : List (Event F)) → Permᴰ (insert e fs) (e ∷ fs)
  unfolding insert
  insert-Permᴰ e [] = Permᴰ.refl (e ∷ [])
  insert-Permᴰ e (f ∷ fs) = elim (Bool-cases (fl.lt f.timestamp e.timestamp)) [
    | inr stays ↦ rw stays (Permᴰ.refl (e ∷ f ∷ fs))
    | inl later ↦
        rw later (Permᴰ.trans (Permᴰ.cons refl (insert-Permᴰ e fs)) (Permᴰ.swap refl refl))
  ]

  by_time-Permᴰ : (es : List (Event F)) → Permᴰ (by_time es) es
  unfolding by_time
  by_time-Permᴰ [] = Permᴰ.nil
  by_time-Permᴰ (e ∷ es) =
      Permᴰ.trans (insert-Permᴰ e (by_time es)) (Permᴰ.cons refl (by_time-Permᴰ es))

module _ {F : Type 0} ⦃fl : Float F⦄ ⦃laws : FloatLaws F⦄ where
  -- An event goes in behind an older one, which stays in front.
  insert-IsOldestFirst :
      (e : Event F) (fs : List (Event F)) → IsOldestFirst fs → IsOldestFirst (insert e fs)
  unfolding insert
  insert-IsOldestFirst e [] h = tt
  insert-IsOldestFirst e (f ∷ []) h = elim (Bool-cases (fl.lt f.timestamp e.timestamp)) [
    | inr stays ↦ rw stays (stays, tt)
    | inl later ↦ rw later (laws.lt_asymm f.timestamp e.timestamp later, tt)
  ]
  insert-IsOldestFirst e (f ∷ g ∷ fs) h = elim (Bool-cases (fl.lt f.timestamp e.timestamp)) [
    | inr stays ↦ rw stays (stays, h)
    | inl later ↦
        let rest = insert-IsOldestFirst e (g ∷ fs) h.1 in
        rw later (elim (Bool-cases (fl.lt g.timestamp e.timestamp)) [
          | inr second ↦ rw second (laws.lt_asymm f.timestamp e.timestamp later, (second, h.1))
          | inl after ↦ rw after (h.0, rw after at rest)
        ])
  ]

  by_time-IsOldestFirst : (es : List (Event F)) → IsOldestFirst (by_time es)
  unfolding by_time
  by_time-IsOldestFirst [] = tt
  by_time-IsOldestFirst (e ∷ es) = insert-IsOldestFirst e (by_time es) (by_time-IsOldestFirst es)

  -- What the endpoint shows of a target.
  pub Shows : List (Event F) → String → Event F → IncidentDetail F → Type 0
  Shows outcomes chain_id target d =
      (sorted : List (Event F)) × (cause : Option (Event F)) × Permᴰ sorted
        (select (λ o. o.chain_id == chain_id) outcomes)
      × IsOldestFirst sorted
      × IsFirst (λ o. is_halt_decision o.decision) sorted cause
      × (d.timeline ≡ map timeline_event sorted)
      × (d.root_cause ≡ root_cause_of cause)
      × (d.decision ≡ target.decision)

  detail-Shows :
      (outcomes : List (Event F)) (chain_id step_id : String) (target : Event F)
      → Shows outcomes chain_id target
          (detail chain_id step_id target (by_time (select (λ o. o.chain_id == chain_id) outcomes)))
  unfolding Shows
  detail-Shows outcomes chain_id step_id target =
      let of_chain = select (λ o. o.chain_id == chain_id) outcomes in
      let sorted = by_time of_chain in
      (
        sorted,
        first (λ o. is_halt_decision o.decision) sorted,
        by_time-Permᴰ of_chain,
        by_time-IsOldestFirst of_chain,
        first-IsFirst (λ o. is_halt_decision o.decision) sorted,
        refl,
        refl,
        refl,
      )

  -- An incident is not found when no event has both identifiers. Otherwise the answer has the
  -- decision of the first such event; its timeline has all events of the chain, each as often as it is
  -- stored, and none is followed by an older one; and its root cause is the first of the timeline
  -- that was halted or degraded, or nothing where none was.
  pub get_incident_cases :
      (outcomes : List (Event F)) (chain_id step_id : String)
      → ((any (is_target chain_id step_id) outcomes ≡ false)
          × (get_incident outcomes chain_id step_id ≡ err http_404))
        ⊎ ((target : Event F) × (d : IncidentDetail F) × IsFirst
              (is_target chain_id step_id)
              outcomes
              (some target)
            × (get_incident outcomes chain_id step_id ≡ ok d)
            × Shows outcomes chain_id target d)
  unfolding get_incident
  get_incident_cases outcomes chain_id step_id =
      let found = first-IsFirst (is_target chain_id step_id) outcomes in
      elim (Option-cases (first (is_target chain_id step_id) outcomes)) [
        | inl missing ↦ inl (rw missing at found, rw missing refl)
        | inr (target, there) ↦ inr (
          target,
          _,
          rw there at found,
          rw there refl,
          detail-Shows outcomes chain_id step_id target,
        )
      ]
