-- ===== src/Ingest/Store.antt =====
-- The record store keeps the newest records.
use veronica.Prelude.{
  ◌-◌, ◌≤◌, ◌≡◌, refl, sym, ap, inl, inr, List, ◌++◌, length, drop, last_n, ltb, length-drop,
  Bool-cases, arith,
}
use veronica.Ingest.{RecordStore, evict_if_needed, put_records}

module _ {E : Type 0} where
  -- After `put_many` the store holds the last records of the old and the new ones together, as many
  -- as it may hold, and keeps its bound.
  pub put_records-last_n :
      (s : RecordStore E) (outcomes : List E)
      → let s' = put_records s outcomes in
        (s'.records ≡ last_n s.max_records (s.records ++ outcomes))
        × (length s'.records ≤ s.max_records)
        × (s'.max_records ≡ s.max_records)
  unfolding put_records evict_if_needed
  put_records-last_n s outcomes =
      let all = s.records ++ outcomes in
      let kept = length-drop (length all - s.max_records) all in
      elim (Bool-cases (ltb s.max_records (length all))) [
        | inl over ↦ rw over (refl, omega (arith, kept), refl)
        | inr within ↦
            let zero : length all - s.max_records ≡ 0 = ground arith in
            rw within (ap (λ n. drop n all) (sym zero), ground arith, refl)
      ]
