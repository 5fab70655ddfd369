-- ===== src/Replay/Steps.antt =====
-- The step ceiling of an override bounds the steps that a replay allows.
use veronica.Prelude.{
  ℕ, ◌+◌, ◌-◌, ◌≤◌, ◌≡◌, ◌≢◌, subst, inl, inr, true, false, ◌==◌, eq_iff, Option, none, some, List,
  [], ◌∷◌, length, select, Bool-cases, arith,
}
use veronica.Prelude.Int.{pos, ltb_ℤ}
use veronica.Prelude.Result.{ok, Result-cases, ok-injective}
use veronica.Float.{Float, finite_or_zero}
use veronica.Types.{PolicyConfig}
use veronica.Distributor.{Distributor, validate}
use veronica.Events.{Event}
use veronica.Values.{Conversions, Value}
use veronica.Prelude.Dict.{Dict}
use veronica.Distributor.Validation.{IsAdmissible, validate-IsAdmissible}
use veronica.Replay.{
  ReplayRequest, DecisionDiff, ReplayResult, replay_decision, replay_events, selected, replay,
  override_for,
}
use veronica.Replay.Override.{build_override_policy}
use veronica.Replay.Diffs.{replay-eq-ok}
use veronica.Simulation.Ceiling.{enforced}

-- how many steps the replay allows
abbrev pub count_allowed : List DecisionDiff → ℕ
count_allowed diffs = length (select (λ d. d.replayed_decision == "allow") diffs)

module _ {F : Type 0} ⦃fl : Float F⦄ where
  -- at or beyond the ceiling no step is allowed
  replay_decision-over :
      (e : Event F) (idx n : ℕ) (cost : F) (p : PolicyConfig F)
      → p.ceiling_steps ≡ some (pos n)
      → p.on_exceed ≢ "allow"
      → n ≤ idx
      → (replay_decision e idx cost p == "allow") ≡ false
  unfolding replay_decision
  replay_decision-over e idx n cost p limit ne h =
      let over : ltb_ℤ (pos n) (pos (idx + 1)) ≡ true = ground arith in
      let never : (p.on_exceed == "allow") ≡ false = ground (arith, eq_iff p.on_exceed "allow") in
      elim (Bool-cases (fl.lt p.ceiling_usd (fl.add cost (finite_or_zero e.cost_usd)))) [
        | inl dear ↦ rw dear never
        | inr cheap ↦ rw (cheap, limit) (rw over never)
      ]

  replay_events-allowed :
      (p : PolicyConfig F) (n idx : ℕ) (cost : F) (es : List (Event F))
      → p.ceiling_steps ≡ some (pos n)
      → p.on_exceed ≢ "allow"
      → count_allowed (replay_events (some p) idx cost es).0 ≤ n - idx
  unfolding replay_events
  replay_events-allowed p n idx cost [] limit ne = omega arith
  replay_events-allowed p n idx cost (e ∷ es) limit ne =
      let rest =
        replay_events-allowed p n (idx + 1) (fl.add cost (finite_or_zero e.cost_usd)) es limit ne in
      let over = replay_decision-over e idx n cost p limit ne in ground (arith, rest, over)

module _ {F : Type 0} ⦃fl : Float F⦄ ⦃conv : Conversions F⦄ where
  override_for-IsAdmissible :
      (d : Distributor) (now : F) (o : Option (Dict (Value F))) (p : PolicyConfig F)
      → override_for d now o ≡ ok (some p)
      → IsAdmissible d.strict p
  unfolding override_for
  override_for-IsAdmissible d now none p h = absurd (ground arith)
  override_for-IsAdmissible d now (some o) p h = elim (Result-cases (build_override_policy now o)) [
    | inr (x, e) ↦ absurd (ground (arith, e, h))
    | inl (q, e) ↦ elim (Result-cases (validate d q)) [
      | inr (x, failed) ↦ absurd (ground (arith, e, failed, h))
      | inl (_, passed) ↦
          let same : q ≡ p = ground (arith, e, passed, h) in
          subst (λ p. IsAdmissible d.strict p) same ((validate-IsAdmissible d q).0 passed)
    ]
  ]

  -- Under an override that is accepted and has a ceiling of `n` steps, a replay that returns allows
  -- at most `n` events, whatever the store holds.
  pub replay-ceiling_steps :
      (d : Distributor) (now : F) (snapshot : List (Event F)) (q : ReplayRequest F)
      → (r : ReplayResult) (p : PolicyConfig F) (n : ℕ)
      → override_for d now q.override_policy ≡ ok (some p)
      → p.ceiling_steps ≡ some (pos n)
      → replay d now snapshot q ≡ ok r
      → count_allowed r.diffs ≤ n
  replay-ceiling_steps d now snapshot q r p n e limit h =
      let (o, f, same) = replay-eq-ok d now snapshot q r h in
      let chosen : o ≡ some p = ok-injective (ground (arith, e, f)) in
      let a = override_for-IsAdmissible d now q.override_policy p e in
      let bound =
        replay_events-allowed p n 0 (fl.dec 0 0) (selected q snapshot) limit
          (enforced p.on_exceed a.on_exceed) in
      rw (same, chosen) (omega (arith, bound))
