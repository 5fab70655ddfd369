-- ===== src/Emitter/Accounting.antt =====
-- Where the emitted events are: drained, still buffered, or counted as dropped.
use veronica.Prelude.{
  ℕ, ◌+◌, ◌-◌, ◌≤◌, ◌≡◌, refl, sym, ap, ◌∙◌, inl, inr, String, Bool, false, min, List, [], ◌∷◌,
  ◌++◌, length, take, drop, last_n, eqb, length-append, length-take, length-drop, take-append-drop,
  Bool-cases, arith, if◌then◌else◌,
}
use mathlib.Core.List.{append_assoc}
use veronica.Emitter.{Emitter, new, buffer_event, emit, subscribe, unsubscribe, drain, settle_round}

-- The calls of an emitter.
pub data Call (E C : Type 0) : Type 0 where
  emits : (String → Bool) → E → Call E C
  subscribes : String → C → Call E C
  unsubscribes : String → Call E C
  drains : ℕ → Call E C

-- An emitter, what has been emitted, and what has been drained from it.
pub record World (E C : Type 0) : Type 0 where
  pub emitter : Emitter E C
  pub emitted : List E
  pub drained : List E

module _ {E : Type 0} where
  -- pushing onto a buffer that is not over its bound
  length-push :
      (n : ℕ) (xs : List E) (e : E)
      → length xs ≤ n
      → (length (last_n n (xs ++ e ∷ [])) ≤ n)
        × (length xs + 1 ≡ (if eqb (length xs) n then 1 else 0) + length (last_n n (xs ++ e ∷ [])))
  length-push n xs e h =
      let total = length-append xs (e ∷ []) in
      let kept = length-drop (length (xs ++ e ∷ []) - n) (xs ++ e ∷ []) in
      (omega (arith, total, kept), ground (arith, total, kept))

  push-room :
      (n : ℕ) (xs : List E) (e : E)
      → length xs ≤ n
      → eqb (length xs) n ≡ false
      → last_n n (xs ++ e ∷ []) ≡ xs ++ e ∷ []
  push-room n xs e h room =
      let zero : length (xs ++ e ∷ []) - n ≡ 0 = ground (arith, length-append xs (e ∷ [])) in
      ap (λ k. drop k (xs ++ e ∷ [])) zero

module _ {E C : Type 0} where
  unfoldable pub step : World E C → Call E C → World E C
  step w (emits succeeds e) = record w {
    emitter = emit succeeds w.emitter e;
    emitted = w.emitted ++ e ∷ [];
  }
  step w (subscribes name callback) = record w { emitter = subscribe w.emitter name callback }
  step w (unsubscribes name) = record w { emitter = unsubscribe w.emitter name }
  step w (drains n) =
      let (m, events) = drain w.emitter n in record w { emitter = m; drained = w.drained ++ events }

  unfoldable pub run : World E C → List (Call E C) → World E C
  run w [] = w
  run w (c ∷ cs) = run (step w c) cs

  abbrev pub start : ℕ → World E C
  start maxlen = record { emitter = new maxlen; emitted = []; drained = [] }

  pub record Inv (maxlen : ℕ) (w : World E C) : Type 0 where
    pub size : w.emitter.maxlen ≡ maxlen
    pub bounded : length w.emitter.buffer ≤ w.emitter.maxlen
    pub counted : length w.emitted ≡ w.emitter.dropped + length w.drained + length w.emitter.buffer
    pub ordered : w.emitter.dropped ≡ 0 → w.drained ++ w.emitter.buffer ≡ w.emitted

  emit-Inv :
      (maxlen : ℕ) (w : World E C) (succeeds : String → Bool) (e : E)
      → Inv maxlen w
      → Inv maxlen (record w { emitter = emit succeeds w.emitter e; emitted = w.emitted ++ e ∷ [] })
  unfolding emit buffer_event settle_round
  emit-Inv maxlen w succeeds e i =
      let (bounded, counted) = length-push w.emitter.maxlen w.emitter.buffer e i.bounded in
      let before = i.counted in
      record {
        size = i.size;
        bounded = bounded;
        counted = ground (arith, length-append w.emitted (e ∷ []));
        ordered = λ none. elim (Bool-cases (eqb (length w.emitter.buffer) w.emitter.maxlen)) [
          | inl full ↦ absurd (ground (arith, full, none))
          | inr room ↦
              ap (λ b. w.drained ++ b)
                (push-room w.emitter.maxlen w.emitter.buffer e i.bounded room)
              ∙ sym (append_assoc w.drained w.emitter.buffer (e ∷ []))
              ∙ ap (λ l. l ++ e ∷ []) (i.ordered (ground (arith, room, none)))
        ];
      }

  drain-Inv :
      (maxlen : ℕ) (w : World E C) (n : ℕ)
      → Inv maxlen w
      → Inv maxlen (record w {
        emitter = (drain w.emitter n).0;
        drained = w.drained ++ (drain w.emitter n).1;
      })
  unfolding drain
  drain-Inv maxlen w n i =
      let count = min n (length w.emitter.buffer) in
      let left = length-drop count w.emitter.buffer in
      let taken = length-take count w.emitter.buffer in
      let bounded = i.bounded in
      let before = i.counted in
      record {
        size = i.size;
        bounded = omega (arith, left);
        counted = omega (arith, left, taken, length-append w.drained (take count w.emitter.buffer));
        ordered = λ none.
            append_assoc w.drained (take count w.emitter.buffer) (drop count w.emitter.buffer)
            ∙ ap (λ b. w.drained ++ b) (take-append-drop count w.emitter.buffer)
            ∙ i.ordered none;
      }

  step-Inv : (maxlen : ℕ) (w : World E C) (c : Call E C) → Inv maxlen w → Inv maxlen (step w c)
  unfolding step subscribe unsubscribe
  step-Inv maxlen w (emits succeeds e) i = emit-Inv maxlen w succeeds e i
  step-Inv maxlen w (subscribes name callback) i = record {
    size = i.size;
    bounded = i.bounded;
    counted = i.counted;
    ordered = i.ordered;
  }
  step-Inv maxlen w (unsubscribes name) i = record {
    size = i.size;
    bounded = i.bounded;
    counted = i.counted;
    ordered = i.ordered;
  }
  step-Inv maxlen w (drains n) i = drain-Inv maxlen w n i

  run-Inv :
      (maxlen : ℕ) (w : World E C) (cs : List (Call E C)) → Inv maxlen w → Inv maxlen (run w cs)
  unfolding run
  run-Inv maxlen w [] i = i
  run-Inv maxlen w (c ∷ cs) i = run-Inv maxlen (step w c) cs (step-Inv maxlen w c i)

  -- No event is lost track of: after any calls on a new emitter, as many events have been emitted
  -- as are dropped, drained or still in the buffer, the buffer is within its bound, and as long as
  -- none is dropped, those drained and then those in the buffer are those emitted, in order.
  pub run-accounts :
      (maxlen : ℕ) (cs : List (Call E C))
      → let w = run (start maxlen) cs in
        (length w.emitted ≡ w.emitter.dropped + length w.drained + length w.emitter.buffer)
        × (length w.emitter.buffer ≤ maxlen)
        × (w.emitter.dropped ≡ 0 → w.drained ++ w.emitter.buffer ≡ w.emitted)
  run-accounts maxlen cs =
      let i = run-Inv maxlen (start maxlen) cs (record {
        size = refl;
        bounded = omega arith;
        counted = omega arith;
        ordered = λ e. refl;
      }) in
      let size = i.size in let bounded = i.bounded in (i.counted, omega arith, i.ordered)
