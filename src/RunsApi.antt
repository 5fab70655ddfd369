-- ===== src/RunsApi.antt =====
-- src/veronica/api/routes/runs.py: the totals of one chain. The list is the ingestor's
-- `store.snapshot()`, and the chain's identifier has passed its pattern. heapq.nlargest(1, ...) is
-- `max`, which keeps the first of equals, as its documentation says.
use veronica.Prelude.{
  ℕ, String, ◌==◌, Option, none, some, List, [], ◌∷◌, length, map, select, if◌then◌else◌,
}
use veronica.Prelude.Int.{pos}
use veronica.Prelude.Result.{Result, ok, err, http_404}
use veronica.Float.{Float, fmin, fmax}
use veronica.Events.{Event}

abbrev pub active_window_seconds : ℕ
active_window_seconds = 300

pub record RunDetail (F : Type 0) : Type 0 where
  pub chain_id : String
  pub status : String
  pub total_cost : F
  pub total_steps : ℕ
  pub events_count : ℕ
  pub first_event_at : Option F
  pub last_event_at : Option F
  pub policy_hash : Option String

-- `s or None`
abbrev pub filled : String → Option String
filled s = if s == "" then none else some s

module _ {F : Type 0} ⦃fl : Float F⦄ where
  -- `min` and `max` of a list that is not empty
  unfoldable pub least : F → List F → F
  least best [] = best
  least best (x ∷ xs) = least (fmin best x) xs

  unfoldable pub greatest : F → List F → F
  greatest best [] = best
  greatest best (x ∷ xs) = greatest (fmax best x) xs

  -- `max` with the timestamp as its key
  unfoldable pub most_recent : Event F → List (Event F) → Event F
  most_recent best [] = best
  most_recent best (o ∷ os) = most_recent (if fl.lt best.timestamp o.timestamp then o else best) os

  abbrev pub run_detail : String → F → Event F → List (Event F) → List F → Result (RunDetail F)
  run_detail chain_id now o os [] = err http_404
  run_detail chain_id now o os (t ∷ ts) =
      let last = greatest t ts in
      ok (record {
        chain_id = chain_id;
        status =
            if fl.le (fl.sub now last) (fl.of_int (pos active_window_seconds))
            then "active"
            else "completed";
        total_cost =
            fl.sum (select (λ c. fl.is_finite c) (map (λ (e : Event F). e.cost_usd) (o ∷ os)));
        total_steps = length (o ∷ os);
        events_count = length (o ∷ os);
        first_event_at = some (least t ts);
        last_event_at = some last;
        policy_hash = filled (most_recent o os).policy_hash;
      })

  abbrev pub run_of : String → F → List (Event F) → Result (RunDetail F)
  run_of chain_id now [] = err http_404
  run_of chain_id now (o ∷ os) =
      run_detail chain_id now o os
        (select (λ t. fl.is_finite t) (map (λ (e : Event F). e.timestamp) (o ∷ os)))

  unfoldable pub get_run : List (Event F) → F → String → Result (RunDetail F)
  unfolding least greatest most_recent
  get_run outcomes now chain_id =
      run_of chain_id now (select (λ o. o.chain_id == chain_id) outcomes)
