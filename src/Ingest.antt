-- ===== src/Ingest.antt =====
-- src/veronica/ingest/event_ingestor.py: kernel events become records in a store, in batches, with
-- retries and a dead-letter buffer. `ingest` takes what `_convert_event` returned, or nothing when
-- it raised; Ingest/Conversion models that function. The ingestor is generic in its store:
-- `put_many` is given the number of the attempt, and returns nothing when it raises. The locks are
-- taken for the parts between which the store is written, so the parts are functions of their own.
pub mod Counts
pub mod Conversion
pub mod Recorded
pub mod Store
use veronica.Prelude.{
  ℕ, zero, suc, ◌+◌, ◌-◌, Bool, true, false, Option, none, some, List, [], ◌∷◌, ◌++◌, length, take,
  last_n, min, max, eqb, leb, ltb, if◌then◌else◌,
}

-- CPStepOutcomeStore: `E` is the type of records.
pub record RecordStore (E : Type 0) : Type 0 where
  pub records : List E
  pub max_records : ℕ

module _ {E : Type 0} where
  abbrev pub new_store : ℕ → RecordStore E
  new_store max_records = record { records = []; max_records = max 1 max_records }

  -- _evict_if_needed
  unfoldable pub evict_if_needed : RecordStore E → RecordStore E
  evict_if_needed s =
      if ltb s.max_records (length s.records)
      then record s { records = last_n s.max_records s.records }
      else s

  -- CPStepOutcomeStore.put
  unfoldable pub put_record : RecordStore E → E → RecordStore E
  unfolding evict_if_needed
  put_record s outcome = evict_if_needed (record s { records = s.records ++ outcome ∷ [] })

  -- CPStepOutcomeStore.put_many
  unfoldable pub put_records : RecordStore E → List E → RecordStore E
  unfolding evict_if_needed
  put_records s outcomes = evict_if_needed (record s { records = s.records ++ outcomes })

pub record Ingestor (E S : Type 0) : Type 0 where
  pub store : S
  pub batch_size : ℕ
  pub batch : List E
  pub ingested_total : ℕ
  pub error_total : ℕ
  pub dead_letter : List E

abbrev pub dead_letter_max : ℕ
dead_letter_max = 1000

-- the first attempt and one for each of `_WRITE_RETRY_DELAYS`
abbrev pub write_attempts : ℕ
write_attempts = 3

module _ {E S : Type 0} (put_many : ℕ → S → List E → Option S) where
  -- the retry loop of `_write`, with the attempts that are left
  unfoldable pub try_write : ℕ → ℕ → S → List E → Option S
  try_write zero attempt store outcomes = none
  try_write (suc left) attempt store outcomes = elim (put_many attempt store outcomes) [
    | some store' ↦ some store'
    | none ↦ try_write left (attempt + 1) store outcomes
  ]

  -- what does not fit into the dead-letter buffer is lost
  abbrev pub bury : Ingestor E S → List E → Ingestor E S
  bury g outcomes =
      let actually_stored = min (length outcomes) (dead_letter_max - length g.dead_letter) in
      record g {
        error_total = g.error_total + length outcomes;
        dead_letter = g.dead_letter ++ take actually_stored outcomes;
      }

  -- EventIngestor._write, with the number of persisted records
  unfoldable pub write : Ingestor E S → List E → Ingestor E S × ℕ
  unfolding try_write
  write g outcomes = elim (try_write write_attempts 0 g.store outcomes) [
    | some store' ↦ (record g { store = store' }, length outcomes)
    | none ↦ (bury g outcomes, 0)
  ]

  -- the critical section of `ingest`: the outcomes to write, if any
  abbrev pub enqueue : Ingestor E S → E → Ingestor E S × Option (List E)
  enqueue g outcome =
      let g' = record g { ingested_total = g.ingested_total + 1 } in
      let batch = g.batch ++ outcome ∷ [] in
      if eqb g.batch_size 0
      then (g', some (outcome ∷ []))
      else if leb g.batch_size (length batch)
      then (record g' { batch = [] }, some batch)
      else (record g' { batch = batch }, none)

  -- the end of `ingest`
  abbrev pub write_if_due : Ingestor E S × Option (List E) → Ingestor E S × ℕ
  write_if_due (g, none) = (g, 0)
  write_if_due (g, some flush_now) = write g flush_now

  -- EventIngestor.ingest, with the number of records that its write persisted
  unfoldable pub ingest : Ingestor E S → Option E → Ingestor E S × ℕ
  ingest g none = (record g { error_total = g.error_total + 1 }, 0)
  ingest g (some outcome) = write_if_due (enqueue g outcome)

  -- EventIngestor.on_event: an event without a safety event is ignored
  unfoldable pub on_event : Ingestor E S → Option (Option E) → Ingestor E S × ℕ
  unfolding ingest
  on_event g none = (g, 0)
  on_event g (some converted) = ingest g converted

  -- EventIngestor.flush
  unfoldable pub flush : Ingestor E S → Ingestor E S × ℕ
  unfolding write
  flush g = elim g.batch [
    | [] ↦ (record g { batch = [] }, 0)
    | outcome ∷ rest ↦ write (record g { batch = [] }) (outcome ∷ rest)
  ]

  -- EventIngestor.ingest_many, with the number of records that its writes persisted
  unfoldable pub ingest_many : Ingestor E S → List (Option E) → Ingestor E S × ℕ
  unfolding ingest
  ingest_many g [] = (g, 0)
  ingest_many g (event ∷ events) =
      let (g', n) = ingest g event in let (g'', m) = ingest_many g' events in (g'', n + m)
