-- ===== src/EventsApi.antt =====
-- src/veronica/api/routes/events.py: the log of recorded events, filtered and in pages. The list is
-- the ingestor's `store.snapshot()`. heapq.nlargest is a stable sort from the newest on, of which the
-- first are taken, as its documentation says.
pub mod Pages
use veronica.Prelude.{
  ℕ, String, Bool, true, not, ◌&&◌, ◌==◌, Option, none, some, List, [], ◌∷◌, any, length, select,
  take, drop, ltb, min, if◌then◌else◌,
}
use veronica.Prelude.Result.{Result, ok, http_400, raise_if, ◌>>◌}
use veronica.Float.{Float}
use veronica.Events.{Event, valid_decision}
use veronica.Ingest.Conversion.{matches, is_hex_char}

abbrev pub max_results_cap : ℕ
max_results_cap = 10000

-- The query parameters, which have passed their schema.
pub record Query (F : Type 0) : Type 0 where
  pub chain_id : Option String
  pub decision : Option (List String)
  pub policy_hash : Option String
  pub since : Option F
  pub until : Option F
  pub offset : ℕ
  pub limit : ℕ

pub record Page (F : Type 0) : Type 0 where
  pub items : List (Event F)
  pub total : ℕ
  pub offset : ℕ
  pub limit : ℕ
  pub truncated : Bool

-- the decisions that are asked for: at most 20, all valid
abbrev pub check_decisions : Option (List String) → Result (Unit {0})
check_decisions none = ok tt
check_decisions (some decisions) =
    raise_if (ltb 20 (length decisions)) http_400
    >> raise_if (any (λ d. not (valid_decision d)) decisions) http_400

abbrev pub check_hash : Option String → Result (Unit {0})
check_hash none = ok tt
check_hash (some policy_hash) = raise_if (not (matches is_hex_char 64 64 policy_hash)) http_400

-- a filter that is only applied when its parameter is given
abbrev pub filter_by : {A E : Type 0} → Option A → (A → E → Bool) → List E → List E
filter_by none test outcomes = outcomes
filter_by (some a) test outcomes = select (test a) outcomes

module _ {F : Type 0} ⦃fl : Float F⦄ where
  abbrev pub check_time : Option F → Result (Unit {0})
  check_time none = ok tt
  check_time (some t) = raise_if (not (fl.is_finite t)) http_400

  abbrev pub check_range : Option F → Option F → Result (Unit {0})
  check_range (some since) (some until) = raise_if (fl.lt until since) http_400
  check_range _ _ = ok tt

  -- sorted from the newest on; events of the same time keep their order
  unfoldable pub insert : Event F → List (Event F) → List (Event F)
  insert e [] = e ∷ []
  insert e (f ∷ fs) =
      let rest = insert e fs in if fl.lt e.timestamp f.timestamp then f ∷ rest else e ∷ f ∷ fs

  unfoldable pub newest_first : List (Event F) → List (Event F)
  unfolding insert
  newest_first [] = []
  newest_first (e ∷ es) = insert e (newest_first es)

  -- the filters, in the order of the code
  abbrev pub filtered : Query F → List (Event F) → List (Event F)
  filtered q outcomes =
      filter_by q.until (λ t o. fl.le o.timestamp t)
        (filter_by q.since (λ t o. fl.le t o.timestamp)
          (filter_by q.policy_hash (λ h o. o.policy_hash == h)
            (filter_by q.decision (λ ds o. any (λ d. d == o.decision) ds)
              (filter_by q.chain_id (λ c o. o.chain_id == c) outcomes))))

  abbrev pub page_of : Query F → List (Event F) → Page F
  page_of q outcomes =
      let actual_total = length outcomes in
      let bound = min actual_total max_results_cap in
      record {
        items = take q.limit (drop q.offset (take bound (newest_first outcomes)));
        total = bound;
        offset = q.offset;
        limit = q.limit;
        truncated = ltb max_results_cap actual_total;
      }

  unfoldable pub list_events : List (Event F) → Query F → Result (Page F)
  unfolding newest_first
  list_events outcomes q = do
    check_decisions q.decision
    check_hash q.policy_hash
    check_time q.since
    check_time q.until
    check_range q.since q.until
    ok (page_of q (filtered q outcomes))
