-- ===== src/Examples/Requests.antt =====
-- Examples for the key of a request, for an incident and for a run.
use veronica.Prelude.{◌≤◌, ◌≡◌, ◌⊎◌, refl, true, false, none, some, List, [], ◌∷◌}
use veronica.Auth.{Environ, Request, passed, dispatch, is_exempt, strip_slashes}
use veronica.Auth.Admission.{IsOpen, HasKey, IsDisabled, serve, serve_admits}
use veronica.Prelude.{any, ◌==◌}
use veronica.Prelude.Result.{ok, err, http_404}
use veronica.Float.Sample.{Micro, micro, micro_float, micro_laws}
use veronica.Events.{Event}
use veronica.Examples.Data.{event_of}
use veronica.IncidentsApi.{
  IncidentDetail, get_incident, is_target, by_time, insert, first, root_cause_of, cause_of,
}
use veronica.RunsApi.{get_run, least, greatest, most_recent}
use veronica.IncidentsApi.Timeline.{IsFirst, Shows, get_incident_cases}

abbrev open_environ : Environ
open_environ = record { api_key = none; auth_disabled = some "1" }

abbrev locked_environ : Environ
locked_environ = record { api_key = some "secret"; auth_disabled = none }

abbrev list_policies_request : Request
list_policies_request = record { path = "/policies"; key = some "secret" }

abbrev earlier : List (Environ × Request)
earlier = (open_environ, list_policies_request) ∷ (open_environ, list_policies_request) ∷ []

serve_admits_example :
    let (done, warnings) = serve false earlier in
    ((dispatch done locked_environ list_policies_request).0 ≡ passed
      → IsOpen list_policies_request.path
        ⊎ (HasKey locked_environ list_policies_request ⊎ IsDisabled locked_environ))
    × ((is_exempt list_policies_request.path ≡ true)
          ⊎ (HasKey locked_environ list_policies_request ⊎ IsDisabled locked_environ)
        → (dispatch done locked_environ list_policies_request).0 ≡ passed)
    × (warnings ≤ 1)
serve_admits_example = serve_admits earlier locked_environ list_policies_request

-- the page itself is stripped of its slash
ui_page : is_exempt "/ui/" ≡ false
unfolding is_exempt strip_slashes
ui_page = refl

-- one warning for two requests
one_warning : serve false earlier ≡ (true, 1)
unfolding serve dispatch is_exempt strip_slashes
one_warning = refl

abbrev halted : Event Micro
halted = record (event_of "third" 3) { decision = "halt" }

abbrev outcomes : List (Event Micro)
outcomes = halted ∷ event_of "first" 1 ∷ record (event_of "second" 2) { decision = "degrade" } ∷ []

get_incident_cases_example :
    ((any (is_target "a" "third") outcomes ≡ false)
      × (get_incident outcomes "a" "third" ≡ err http_404))
    ⊎ ((target : Event Micro) × (d : IncidentDetail Micro) × IsFirst
          (is_target "a" "third")
          outcomes
          (some target)
        × (get_incident outcomes "a" "third" ≡ ok d)
        × Shows outcomes "a" target d)
get_incident_cases_example = get_incident_cases outcomes "a" "third"

-- the step that was degraded before the one that is asked for
earlier_cause :
    root_cause_of (first (λ o. o.decision == "degrade") (by_time outcomes))
    ≡ some (cause_of (record (event_of "second" 2) { decision = "degrade" }))
unfolding first by_time insert
earlier_cause = refl

-- the totals of the chain, soon after its last event
run_totals :
    get_run outcomes (micro 9) "a"
    ≡ ok (record {
      chain_id = "a";
      status = "active";
      total_cost = micro 1200000;
      total_steps = 3;
      events_count = 3;
      first_event_at = some (micro 1);
      last_event_at = some (micro 3);
      policy_hash = none;
    })
unfolding get_run least greatest most_recent veronica.Prelude.Int.◌-ℤ◌ veronica.Prelude.Int.◌+ℤ◌
    veronica.Prelude.Int.◌*ℤ◌
run_totals = refl

no_run : get_run outcomes (micro 9) "b" ≡ err http_404
unfolding get_run
no_run = refl
