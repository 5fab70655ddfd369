-- ===== src/Examples/Engines.antt =====
-- Examples for simulations, recorded events and replays.
use veronica.Prelude.{ℕ, ◌≤◌, ◌≡◌, refl, false, Option, none, some, List, [], ◌∷◌}
use veronica.Prelude.Int.{pos, ltb_ℤ, ◌+ℤ◌}
use veronica.Prelude.Result.{ok}
use veronica.Prelude.Dict.{Dict, get}
use veronica.Float.{fits_float}
use veronica.Float.Sample.{Micro, micro, micro_float, micro_laws}
use veronica.Types.{PolicyConfig}
use veronica.Distributor.{validate, holds}
use veronica.Distributor.{Distributor}
use veronica.Values.{Value, text, float, int}
use veronica.Events.{Event}
use veronica.Simulation.{
  SimulationStep, SimulateResponse, simulate, run_steps, evaluate_step, start, respond,
}
use veronica.Simulation.Ceiling.{simulate-ceiling}
use veronica.Replay.{
  ReplayRequest, ReplayResult, override_for, replay, sort, insert, replay_events, selected,
  result_for, replay_decision, replay_raises, tokens_raise,
}
use veronica.Replay.Override.{build_override_policy}
use veronica.Replay.Override.Validated.{build_override_policy-validate, Validated}
use veronica.Replay.Steps.{count_allowed, replay-ceiling_steps}
use veronica.Examples.Data.{event_of, conversions, policy_a, signing, digest}
use mathlib.Core.List.{Permᴰ}
use veronica.Prelude.{length, take, drop, ltb, select, min}
use veronica.EventsApi.{Query, Page, list_events, newest_first}
use veronica.EventsApi.Pages.{matching, IsNewestFirst, list_events-page}

abbrev step_of : ℕ → SimulationStep Micro
step_of cost = record {
  kind = "llm";
  cost_usd = micro cost;
  tokens_out = pos 10;
  elapsed_ms = micro 0;
}

-- the second step is dear, and the third is not reached
abbrev scenario : List (SimulationStep Micro)
scenario = step_of 600000 ∷ step_of 600000 ∷ step_of 1 ∷ []

abbrev clock : ℕ → Micro
clock idx = micro 5

abbrev answer : SimulateResponse Micro
answer = respond digest policy_a 3 (run_steps policy_a clock 3 0 scenario start)

simulation : simulate digest signing (ok policy_a) scenario clock ≡ ok answer
unfolding simulate validate
simulation = refl

simulation_totals :
    (answer.steps_allowed ≡ 1) × (answer.steps_halted ≡ 2) × (answer.total_cost_usd ≡ micro 600000)
unfolding run_steps evaluate_step ◌+ℤ◌
simulation_totals = (refl, refl, refl)

simulate-ceiling_example :
    (micro_float.lt (micro 1000000) answer.total_cost_usd ≡ false)
    × (holds (λ limit. ltb_ℤ limit (pos answer.steps_allowed)) (some (pos 2)) ≡ false)
simulate-ceiling_example = simulate-ceiling digest signing policy_a scenario clock answer simulation

abbrev override_two_steps : Dict (Value Micro)
override_two_steps =
    ("chain_id", text "a")
    ∷ ("ceiling_usd", float (micro 1000000))
    ∷ ("ceiling_steps", int (pos 2))
    ∷ []

abbrev two_steps : PolicyConfig Micro
two_steps = record policy_a { issued_at = micro 9 }

override_built : build_override_policy (micro 9) override_two_steps ≡ ok two_steps
unfolding build_override_policy get
override_built = refl

abbrev lax : Distributor
lax = record { strict = false; version = 0; signing_key = none }

build_override_policy-validate_example : Validated lax two_steps
build_override_policy-validate_example =
    build_override_policy-validate (micro 9) override_two_steps two_steps lax refl override_built

abbrev snapshot : List (Event Micro)
snapshot = event_of "third" 3 ∷ event_of "first" 1 ∷ event_of "second" 2 ∷ event_of "late" 99 ∷ []

abbrev request_with : Option (Dict (Value Micro)) → ReplayRequest Micro
request_with override = record {
  chain_id = "a";
  from_timestamp = micro 0;
  to_timestamp = micro 50;
  override_policy = override;
}

override_accepted : override_for signing (micro 9) (some override_two_steps) ≡ ok (some two_steps)
unfolding override_for build_override_policy get validate
override_accepted = refl

abbrev halting : ReplayResult
halting =
    result_for (request_with (some override_two_steps)) (some two_steps)
      (selected (request_with (some override_two_steps)) snapshot)

replayed_halting :
    replay signing (micro 9) snapshot (request_with (some override_two_steps)) ≡ ok halting
unfolding replay replay_raises tokens_raise fits_float sort insert override_for
    build_override_policy get validate ◌+ℤ◌
replayed_halting = refl

halting_counts : (halting.event_count ≡ 3) × (halting.changed_count ≡ 1)
unfolding sort insert replay_events replay_decision ◌+ℤ◌
halting_counts = (refl, refl)

replay-ceiling_steps_example : count_allowed halting.diffs ≤ 2
replay-ceiling_steps_example =
    replay-ceiling_steps signing (micro 9) snapshot (request_with (some override_two_steps)) halting
      two_steps 2 override_accepted refl replayed_halting

-- the second page of the events up to the time 50, one on each page
abbrev recent : Query Micro
recent = record {
  chain_id = some "a";
  decision = some ("allow" ∷ []);
  policy_hash = none;
  since = none;
  until = some (micro 50);
  offset = 1;
  limit = 1;
}

abbrev second_page : Page Micro
second_page = record {
  items = event_of "second" 2 ∷ [];
  total = 3;
  offset = 1;
  limit = 1;
  truncated = false;
}

second_page_listed : list_events snapshot recent ≡ ok second_page
unfolding list_events veronica.EventsApi.insert
second_page_listed = refl

list_events-page_example :
    (sorted : List (Event Micro)) × Permᴰ sorted (select (λ o. matching recent o) snapshot)
    × IsNewestFirst sorted
    × (second_page.items ≡ take 1 (drop 1 (take 10000 sorted)))
    × (3 ≡ min (length sorted) 10000)
    × (false ≡ ltb 10000 (length sorted))
list_events-page_example = list_events-page snapshot recent second_page second_page_listed
