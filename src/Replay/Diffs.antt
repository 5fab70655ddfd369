-- ===== src/Replay/Diffs.antt =====
-- What a replay reports: how many events it covers, and which decisions it finds changed.
use veronica.Prelude.{
  ℕ, suc, ◌+◌, ◌≡◌, refl, inl, inr, min, true, false, ◌==◌, eq_iff, Option, none, List, [], ◌∷◌,
  Bool-cases, length, select, All, length-take, arith,
}
use veronica.Prelude.Result.{ok, Result-cases, ok-injective}
use veronica.Float.{Float, finite_or_zero}
use veronica.Types.{PolicyConfig}
use veronica.Distributor.{Distributor}
use veronica.Events.{Event}
use veronica.Values.{Conversions}
use veronica.Replay.{
  ReplayRequest, DecisionDiff, ReplayResult, insert, sort, in_range, replay_events, selected,
  result_for, replay_raises, override_for, replay,
}

-- how many decisions are marked as changed
abbrev pub count_changed : List DecisionDiff → ℕ
count_changed diffs = length (select (λ d. d.changed) diffs)

-- A decision that is found unchanged.
abbrev pub IsUnchanged : DecisionDiff → Type 0
IsUnchanged d = (d.replayed_decision ≡ d.original_decision) × (d.changed ≡ false)

module _ {F : Type 0} ⦃fl : Float F⦄ where
  length-insert : (e : Event F) (es : List (Event F)) → length (insert e es) ≡ suc (length es)
  unfolding insert
  length-insert e [] = refl
  length-insert e (f ∷ fs) = ground (arith, length-insert e fs)

  length-sort : (es : List (Event F)) → length (sort es) ≡ length es
  unfolding sort
  length-sort [] = refl
  length-sort (e ∷ es) = omega (arith, length-insert e (sort es), length-sort es)

  replay_events-counts :
      (p : Option (PolicyConfig F)) (idx : ℕ) (cost : F) (es : List (Event F))
      → let (diffs, changed) = replay_events p idx cost es in
        (length diffs ≡ length es) × (changed ≡ count_changed diffs)
  unfolding replay_events
  replay_events-counts p idx cost [] = (refl, refl)
  replay_events-counts p idx cost (e ∷ es) =
      ground (arith, replay_events-counts p (idx + 1) (fl.add cost (finite_or_zero e.cost_usd)) es)

  replay_events-none :
      (idx : ℕ) (cost : F) (es : List (Event F))
      → let (diffs, changed) = replay_events none idx cost es in
        All IsUnchanged diffs × (changed ≡ 0)
  unfolding replay_events
  replay_events-none idx cost [] = (tt, refl)
  replay_events-none idx cost (e ∷ es) =
      let (rest, zero) =
        replay_events-none (idx + 1) (fl.add cost (finite_or_zero e.cost_usd)) es in
      let same : (e.decision == e.decision) ≡ true = (eq_iff e.decision e.decision).1 refl in
      rw same (((refl, refl), rest), zero)

module _ {F : Type 0} ⦃fl : Float F⦄ ⦃conv : Conversions F⦄ where
  pub replay-eq-ok :
      (d : Distributor) (now : F) (snapshot : List (Event F)) (q : ReplayRequest F)
      → (r : ReplayResult) → replay d now snapshot q ≡ ok r
      → (p : Option (PolicyConfig F)) × (override_for d now q.override_policy ≡ ok p)
        × (r ≡ result_for q p (selected q snapshot))
  unfolding replay
  replay-eq-ok d now snapshot q r h = elim (Result-cases (override_for d now q.override_policy)) [
    | inl (p, e) ↦ elim (Bool-cases (replay_raises p 0 (fl.dec 0 0) (selected q snapshot))) [
      | inl raised ↦ absurd (ground (arith, e, raised, h))
      | inr fine ↦ (p, e, ok-injective (ground (arith, e, fine, h)))
    ]
    | inr (x, e) ↦ absurd (ground (arith, e, h))
  ]

  -- A replay that returns covers every matching event, up to 100000 of them, reports one
  -- difference per event, and counts those that are marked as changed.
  pub replay-counts :
      (d : Distributor) (now : F) (snapshot : List (Event F)) (q : ReplayRequest F)
      → (r : ReplayResult) → replay d now snapshot q ≡ ok r
      → (r.event_count ≡ min 100000 (length (select (λ e. in_range q e) snapshot)))
        × (length r.diffs ≡ r.event_count)
        × (r.changed_count ≡ count_changed r.diffs)
  replay-counts d now snapshot q r h =
      let (p, _, same) = replay-eq-ok d now snapshot q r h in
      let (lengths, changed) = replay_events-counts p 0 (fl.dec 0 0) (selected q snapshot) in
      let matching = select (λ e. in_range q e) snapshot in
      rw same
        (omega (arith, length-take 100000 (sort matching), length-sort matching), lengths, changed)

  -- Without an override a replay returns, and every decision stays as it was recorded.
  pub replay-none :
      (d : Distributor) (now : F) (snapshot : List (Event F)) (q : ReplayRequest F)
      → q.override_policy ≡ none
      → (r : ReplayResult) × (replay d now snapshot q ≡ ok r)
        × All IsUnchanged r.diffs
        × (r.changed_count ≡ 0)
  unfolding replay override_for replay_raises
  replay-none d now snapshot q e =
      let (unchanged, zero) = replay_events-none 0 (fl.dec 0 0) (selected q snapshot) in
      (result_for q none (selected q snapshot), ground (arith, e), unchanged, zero)
