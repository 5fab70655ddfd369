-- ===== src/Ingest/Counts.antt =====
-- Every event that reaches the ingestor is accounted for.
use veronica.Prelude.{
  ℕ, ◌+◌, ◌-◌, ◌≤◌, ◌≡◌, refl, sym, ap, subst, inl, inr, Option, none, some, List, [], ◌∷◌, ◌++◌,
  length, take, min, eqb, leb, length-append, length-take, Bool-cases, Option-cases, arith,
}
use veronica.Ingest.{Ingestor, try_write, write, enqueue, write_if_due, ingest, flush}

pub data Call (E : Type 0) : Type 0 where
  ingests : Option E → Call E
  flushes : Call E

-- how many events a call brings
abbrev pub arrivals : {E : Type 0} → Call E → ℕ
arrivals (ingests event) = 1
arrivals flushes = 0

abbrev pub all_arrivals : {E : Type 0} → List (Call E) → ℕ
all_arrivals [] = 0
all_arrivals (c ∷ cs) = arrivals c + all_arrivals cs

module _ {E S : Type 0} where
  -- With `events` calls of `ingest` and `persisted` records written so far.
  pub record Inv (batch_size events persisted : ℕ) (g : Ingestor E S) : Type 0 where
    pub size : g.batch_size ≡ batch_size
    pub counted : events ≡ persisted + length g.batch + g.error_total
    pub pending : length g.batch ≤ g.batch_size - 1
    pub buried : length g.dead_letter ≤ 1000

module _ {E S : Type 0} (put_many : ℕ → S → List E → Option S) where
  write-Inv :
      (size events persisted : ℕ) (g : Ingestor E S) (outcomes : List E)
      → g.batch_size ≡ size
      → length g.batch ≤ g.batch_size - 1
      → events ≡ persisted + length outcomes + length g.batch + g.error_total
      → length g.dead_letter ≤ 1000
      → let (g', n) = write put_many g outcomes in Inv size events (persisted + n) g'
  unfolding write
  write-Inv size events persisted g outcomes s pending counted buried =
      elim (Option-cases (try_write put_many 3 0 g.store outcomes)) [
        | inr (store, e) ↦
            rw (e, write)
              (record { size = s; counted = omega arith; pending = pending; buried = buried })
        | inl e ↦
            let room = min (length outcomes) (1000 - length g.dead_letter) in
            let kept = length-append g.dead_letter (take room outcomes) in
            rw (e, write)
              (record {
                size = s;
                counted = omega arith;
                pending = pending;
                buried = omega (arith, kept, length-take room outcomes);
              })
      ]

  ingest-Inv :
      (size events persisted : ℕ) (g : Ingestor E S) (event : Option E)
      → Inv size events persisted g
      → let (g', n) = ingest put_many g event in Inv size (events + 1) (persisted + n) g'
  unfolding ingest
  ingest-Inv size events persisted g none i =
      let counted = i.counted in
      record { size = i.size; counted = omega arith; pending = i.pending; buried = i.buried }
  ingest-Inv size events persisted g (some e) i =
      let counted = i.counted in
      let pending = i.pending in
      let longer = length-append g.batch (e ∷ []) in
      let g' = record g { ingested_total = g.ingested_total + 1 } in
      let due : Ingestor E S × Option (List E) → Type 0 = λ q.
        Inv size (events + 1) (persisted + (write_if_due put_many q).1)
          (write_if_due put_many q).0 in
      elim (Bool-cases (eqb g.batch_size 0)) [
        | inl direct ↦
            let made : enqueue put_many g e ≡ (g', some (e ∷ [])) = rw direct refl in
            subst due (sym made) (
              write-Inv size (events + 1) persisted g' (e ∷ []) i.size i.pending (omega arith)
                i.buried)
        | inr batched ↦ elim (Bool-cases (leb g.batch_size (length (g.batch ++ e ∷ [])))) [
          | inl full ↦
              let made : enqueue put_many g e
                  ≡ (record g' { batch = [] }, some (g.batch ++ e ∷ [])) =
                rw (batched, full) refl in
              subst due (sym made) (
                write-Inv size (events + 1) persisted (record g' { batch = [] }) (g.batch ++ e ∷ [])
                  i.size (omega arith) (omega (arith, longer)) i.buried)
          | inr room ↦
              let made : enqueue put_many g e ≡ (record g' { batch = g.batch ++ e ∷ [] }, none) =
                rw (batched, room) refl in
              subst due (sym made) (record {
                size = i.size;
                counted = omega (arith, longer);
                pending = ground (arith, longer, room);
                buried = i.buried;
              })
        ]
      ]

  flush-Inv :
      (size events persisted : ℕ) (g : Ingestor E S)
      → Inv size events persisted g
      → let (g', n) = flush put_many g in Inv size events (persisted + n) g'
  unfolding flush
  flush-Inv size events persisted g i = go g.batch refl
    where
      go :
          (b : List E)
          → g.batch ≡ b
          → let (g', n) = flush put_many g in Inv size events (persisted + n) g'
      go [] e =
          let counted = i.counted in
          rw (e, flush)
            (record {
              size = i.size;
              counted = omega (arith, ap (λ b. length b) e);
              pending = omega arith;
              buried = i.buried;
            })
      go (x ∷ xs) e =
          let counted = i.counted in
          rw (e, flush)
            (write-Inv size events persisted (record g { batch = [] }) (x ∷ xs) i.size (omega arith)
              (omega (arith, ap (λ b. length b) e)) i.buried)

  -- a call, with the number of records that it persisted
  unfoldable pub step : Ingestor E S → Call E → Ingestor E S × ℕ
  step g (ingests event) = ingest put_many g event
  step g flushes = flush put_many g

  unfoldable pub run : Ingestor E S → ℕ → List (Call E) → Ingestor E S × ℕ
  run g persisted [] = (g, persisted)
  run g persisted (c ∷ cs) = let (g', n) = step g c in run g' (persisted + n) cs

  run-Inv :
      (size events persisted : ℕ) (g : Ingestor E S) (cs : List (Call E))
      → Inv size events persisted g
      → let (g', n) = run g persisted cs in Inv size (events + all_arrivals cs) n g'
  unfolding run step
  run-Inv size events persisted g [] i = subst (λ n. Inv size n persisted g) (omega arith) i
  run-Inv size events persisted g (ingests e ∷ cs) i =
      let (g', n) = ingest put_many g e in
      let (g'', total) = run g' (persisted + n) cs in
      subst (λ m. Inv size m total g'') (omega arith)
        (run-Inv size (events + 1) (persisted + n) g' cs (ingest-Inv size events persisted g e i))
  run-Inv size events persisted g (flushes ∷ cs) i =
      let (g', n) = flush put_many g in
      let (g'', total) = run g' (persisted + n) cs in
      subst (λ m. Inv size m total g'') (omega arith)
        (run-Inv size events (persisted + n) g' cs (flush-Inv size events persisted g i))

  abbrev pub new : ℕ → S → Ingestor E S
  new size store = record {
    store = store;
    batch_size = size;
    batch = [];
    ingested_total = 0;
    error_total = 0;
    dead_letter = [];
  }

  -- Whatever the store does, after any calls on a new ingestor the events that came in are those
  -- that were persisted, those that wait in the batch and those counted as errors; the batch
  -- holds fewer records than the batch size, or none when that is 0, and the dead-letter buffer holds at most 1000 records.
  pub run-counts :
      (size : ℕ) (store : S) (cs : List (Call E))
      → let (g, persisted) = run (new size store) 0 cs in
        (all_arrivals cs ≡ persisted + length g.batch + g.error_total)
        × (length g.batch ≤ size - 1)
        × (length g.dead_letter ≤ 1000)
  run-counts size store cs =
      let i =
        run-Inv size 0 0 (new size store) cs
          (record { size = refl; counted = refl; pending = omega arith; buried = omega arith }) in
      let size' = i.size in
      let pending = i.pending in let counted = i.counted in (omega arith, omega arith, i.buried)
