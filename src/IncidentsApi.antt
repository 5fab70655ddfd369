-- ===== src/IncidentsApi.antt =====
-- src/veronica/api/routes/incidents.py: one step of a chain, with the events around it. The list is
-- the ingestor's `store.snapshot()`, and the identifiers have passed their pattern.
pub mod Timeline
use Prim.Native.String
use veronica.Prelude.{
  String, Bool, ◌&&◌, ◌||◌, ◌==◌, Option, none, some, List, [], ◌∷◌, map, select, if◌then◌else◌,
}
use veronica.Prelude.Int.{ℤ}
use veronica.Prelude.Result.{Result, ok, err, http_404}
use veronica.Float.{Float}
use veronica.Events.{Event}

pub record TimelineEvent (F : Type 0) : Type 0 where
  pub step_id : String
  pub decision : String
  pub cost_usd : F
  pub tokens : ℤ
  pub duration_ms : F
  pub timestamp : F
  pub operation_name : String
  pub audit_id : String

pub record RootCause (F : Type 0) : Type 0 where
  pub step_id : String
  pub decision : String
  pub timestamp : F
  pub operation_name : String
  pub audit_id : String

pub record IncidentDetail (F : Type 0) : Type 0 where
  pub incident_id : String
  pub chain_id : String
  pub step_id : String
  pub decision : String
  pub reason_code : Option String
  pub policy_hash : Option String
  pub audit_id : String
  pub timeline : List (TimelineEvent F)
  pub root_cause : Option (RootCause F)

-- `decision in _HALT_DECISIONS`
abbrev pub is_halt_decision : String → Bool
is_halt_decision decision = decision == "halt" || decision == "degrade"

-- `next((x for x in xs if test(x)), None)`
unfoldable pub first : {E : Type 0} → (E → Bool) → List E → Option E
first test [] = none
first test (x ∷ xs) = let rest = first test xs in if test x then some x else rest

module _ {F : Type 0} where
  abbrev pub timeline_event : Event F → TimelineEvent F
  timeline_event o = record {
    step_id = o.step_id;
    decision = o.decision;
    cost_usd = o.cost_usd;
    tokens = o.tokens;
    duration_ms = o.duration_ms;
    timestamp = o.timestamp;
    operation_name = o.operation_name;
    audit_id = o.audit_id;
  }

  abbrev pub cause_of : Event F → RootCause F
  cause_of o = record {
    step_id = o.step_id;
    decision = o.decision;
    timestamp = o.timestamp;
    operation_name = o.operation_name;
    audit_id = o.audit_id;
  }

  abbrev pub root_cause_of : Option (Event F) → Option (RootCause F)
  root_cause_of none = none
  root_cause_of (some first_bad) = some (cause_of first_bad)

module _ {F : Type 0} ⦃fl : Float F⦄ where
  -- sorted by the timestamp; events of the same time keep their order
  unfoldable pub insert : Event F → List (Event F) → List (Event F)
  insert e [] = e ∷ []
  insert e (f ∷ fs) =
      let rest = insert e fs in if fl.lt f.timestamp e.timestamp then f ∷ rest else e ∷ f ∷ fs

  unfoldable pub by_time : List (Event F) → List (Event F)
  unfolding insert
  by_time [] = []
  by_time (e ∷ es) = insert e (by_time es)

  abbrev pub detail : String → String → Event F → List (Event F) → IncidentDetail F
  detail chain_id step_id target chain_outcomes = record {
    incident_id = String.◌++◌ (String.◌++◌ chain_id ":") step_id;
    chain_id = chain_id;
    step_id = step_id;
    decision = target.decision;
    reason_code = none;
    policy_hash = some target.policy_hash;
    audit_id = target.audit_id;
    timeline = map timeline_event chain_outcomes;
    root_cause = root_cause_of (first (λ o. is_halt_decision o.decision) chain_outcomes);
  }

  abbrev pub is_target : String → String → Event F → Bool
  is_target chain_id step_id o = o.chain_id == chain_id && o.step_id == step_id

  abbrev pub get_incident_of :
      List (Event F) → String → String → Option (Event F) → Result (IncidentDetail F)
  get_incident_of outcomes chain_id step_id none = err http_404
  get_incident_of outcomes chain_id step_id (some target) =
      ok (detail chain_id step_id target (by_time (select (λ o. o.chain_id == chain_id) outcomes)))

  unfoldable pub get_incident : List (Event F) → String → String → Result (IncidentDetail F)
  get_incident outcomes chain_id step_id =
      get_incident_of outcomes chain_id step_id (first (is_target chain_id step_id) outcomes)
