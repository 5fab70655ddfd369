-- ===== src/Examples/Policies.antt =====
-- Examples for policies: limits, validation, distribution and the registry.
use veronica.Prelude.{ℕ, ◌<◌, ◌≡◌, refl, none, some, [], ◌∷◌, arith}
use veronica.Prelude.Int.{pos}
use veronica.Prelude.Result.{ok, err, value_error}
use veronica.Prelude.Dict.{get, put}
use veronica.Float.Sample.{Micro, micro, nan, micro_float, micro_laws}
use veronica.Types.{DesiredPolicy, exec_config_of, to_exec_config}
use veronica.OrgPolicy.{OrgPolicy, clamp, is_blocked}
use veronica.PolicyAudit.{compute_policy_hash}
use veronica.Distributor.{Distributor, PolicyBundle, validate, distribute, distribute_many, Turn}
use veronica.Responses.{policy_response}
use veronica.Float.{fits_float}
use veronica.Types.{Number}
use veronica.Prelude.{◌^◌}
use veronica.Prelude.Result.{overflow_error, validation_error}
use veronica.Examples.Data.{whole}
use veronica.Distributor.Versions.{Numbered, Outcome, distribute_cases, distribute_many-Numbered}
use veronica.PolicyRegistry.{Registry, finish_update}
use veronica.PolicyRegistry.Invariant.{World, Inv}
use veronica.PolicyRegistry.Concurrency.{Steps, here}
use veronica.PolicyRegistry.Races.{finish_update_loses, register_stale}
use veronica.Examples.Data.{policy_a, signing, digest, hmac}
use veronica.Prelude.{ℕ}
use veronica.PolicyRegistry.{Fields}
use mathlib.Core.List.{Permᴰ}
use veronica.Prelude.{List, take, arith}
use veronica.Events.{Event}
use veronica.EventsApi.Pages.{IsNewestFirst}
use veronica.Export.{export_data, export_response, collect_pages}
use veronica.PolicyRegistry.{list_policies}
use veronica.Prelude.Result.{value_error}
use veronica.Export.Complete.{export_data_complete}

abbrev org : OrgPolicy Micro
org = record {
  max_ceiling_usd = some (micro 500000);
  max_timeout_ms = some (pos 1000);
  blocked_models = "gpt" ∷ [];
  blocked_tools = [];
  max_priority = none;
}

abbrev greedy : DesiredPolicy Micro
greedy = record {
  chain_id = "a";
  ceiling_usd = nan;
  ceiling_steps = pos 100;
  ceiling_tokens_out = pos 50000;
  on_exceed = "halt";
  fallback_model = some "gpt";
  timeout_ms = pos 30000;
  priority = pos 50;
}

clamp_nan : (clamp (λ s. s) org greedy).ceiling_usd ≡ micro 500000
unfolding clamp is_blocked veronica.OrgPolicy.clamp_ceiling
clamp_nan = refl

abbrev bundle_a : PolicyBundle Micro
bundle_a = record {
  policy = policy_a;
  exec_config = exec_config_of policy_a;
  policy_hash = "digest";
  distributed_at = micro 7;
  version = 1;
  policy_signature = some "key";
}

abbrev issued_once : Distributor
issued_once = record signing { version = 1 }

distribute_a : distribute digest hmac signing policy_a (micro 7) ≡ (issued_once, ok bundle_a)
unfolding distribute validate to_exec_config compute_policy_hash
distribute_a = refl

distribute_cases_example :
    Outcome digest hmac signing policy_a (distribute digest hmac signing policy_a (micro 7))
distribute_cases_example = distribute_cases digest hmac signing policy_a (micro 7)

-- another call draws three numbers between the two policies
abbrev turns : List (Turn Micro)
turns =
    record { policy = policy_a; drawn = 0; now = micro 7 }
    ∷ record { policy = policy_a; drawn = 3; now = micro 8 }
    ∷ []

abbrev later_bundle : PolicyBundle Micro
later_bundle = record bundle_a { distributed_at = micro 8; version = 5 }

distribute_many-Numbered_example : Numbered digest hmac 0 (bundle_a ∷ later_bundle ∷ []) turns
unfolding distribute_many distribute validate to_exec_config compute_policy_hash
distribute_many-Numbered_example =
    distribute_many-Numbered digest hmac signing turns (bundle_a ∷ later_bundle ∷ []) refl

-- an integer that math.isfinite cannot convert
large_ceiling :
    validate signing (record policy_a { ceiling_tokens_out = some (Number.int (pos (2 ^ 1024))) })
    ≡ err overflow_error
unfolding validate fits_float
large_ceiling = refl

-- a fractional timeout has no response
fractional_timeout :
    policy_response whole (record policy_a { timeout_ms = some (Number.float (micro 1500000)) })
    ≡ err validation_error
unfolding policy_response
fractional_timeout = refl

abbrev bundle_v : ℕ → PolicyBundle Micro
bundle_v n = record bundle_a { version = n }

-- chain `a` at version 1, and two updates that have seen it
abbrev two_updates : World Micro
two_updates = record {
  registry = record { distributor = record signing { version = 3 }; store = ("a", bundle_a) ∷ [] };
  pending =
      record { chain_id = "a"; expected = some 1; bundle = bundle_v 2 }
      ∷ record { chain_id = "a"; expected = some 1; bundle = bundle_v 3 }
      ∷ [];
}

abbrev second_stored : Registry Micro
second_stored = record {
  distributor = record signing { version = 3 };
  store = ("a", bundle_v 3) ∷ [];
}

abbrev first_left : World Micro
first_left = record {
  registry = second_stored;
  pending = record { chain_id = "a"; expected = some 1; bundle = bundle_v 2 } ∷ [];
}

two_updates-Inv : Inv two_updates
two_updates-Inv = record {
  stored = (omega arith, tt);
  drawn = (omega arith, (omega arith, tt));
  apart = ((λ e. omega arith, tt), ((λ e. omega arith, tt), tt));
  distinct = ((λ e. omega arith, tt), (tt, tt));
}

second_wins :
    finish_update two_updates.registry "a" 1 (bundle_v 3) ≡ (second_stored, ok (bundle_v 3))
unfolding finish_update get put
second_wins = refl

finish_update_loses_example :
    finish_update second_stored "a" 1 (bundle_v 2) ≡ (second_stored, err value_error)
finish_update_loses_example =
    finish_update_loses digest hmac two_updates first_left second_stored
      (record { chain_id = "a"; expected = some 1; bundle = bundle_v 2 } ∷ []) []
      (record { chain_id = "a"; expected = some 1; bundle = bundle_v 3 }) 1 (bundle_v 3)
      (bundle_v 2) two_updates-Inv refl second_wins here

abbrev issued_twice : Distributor
issued_twice = record signing { version = 2 }

distribute_again :
    distribute digest hmac issued_once policy_a (micro 7)
    ≡ (issued_twice, ok (record bundle_a { version = 2 }))
unfolding distribute validate to_exec_config compute_policy_hash
distribute_again = refl

register_stale_example :
    (w : World Micro) × Steps digest hmac
      (record { registry = record { distributor = signing; store = [] }; pending = [] })
      w
    × (w.pending ≡ [])
    × (get "a" w.registry.store ≡ some bundle_a)
    × (1 < 2)
unfolding distribute validate to_exec_config compute_policy_hash
register_stale_example =
    register_stale digest hmac (record { distributor = signing; store = [] }) policy_a policy_a
      (micro 7) (micro 7) bundle_a (bundle_v 2) refl refl refl

abbrev higher_ceiling : Fields Micro
higher_ceiling = record {
  ceiling_usd = some (micro 700000);
  on_exceed = none;
  ceiling_tokens_out = none;
  ceiling_steps = none;
  fallback_model = none;
  timeout_ms = none;
  rate_window_seconds = none;
  rate_ceiling_calls = none;
  priority = none;
  deadline_ts = none;
  expires_at = none;
  planner_version = none;
}

abbrev one_policy : Registry Micro
one_policy = record { distributor = issued_once; store = ("a", bundle_a) ∷ [] }

abbrev halted_at : ℕ → Event Micro
halted_at time = record {
  step_id = "s";
  chain_id = "a";
  operation_name = "call";
  decision = "halt";
  cost_usd = micro 0;
  tokens = pos 0;
  duration_ms = micro 0;
  policy_hash = "";
  audit_id = "";
  timestamp = micro time;
  schema_version = "1.0";
  reason_code = none;
}

export_data_complete_example :
    let outcomes = halted_at 1 ∷ halted_at 3 ∷ halted_at 2 ∷ [] in
    let exported = export_data one_policy (some outcomes) 2 (micro 9) in
    (exported.policies ≡ bundle_a ∷ [])
    × ((sorted : List (Event Micro)) × Permᴰ sorted outcomes
        × IsNewestFirst sorted
        × (exported.events ≡ take 2 sorted))
    × (exported.warnings ≡ [])
export_data_complete_example =
    export_data_complete one_policy (halted_at 1 ∷ halted_at 3 ∷ halted_at 2 ∷ []) 2 (micro 9)
      (omega arith)

-- a window that is not a number cannot be exported
unencodable_export :
    export_response
      (record one_policy {
        store =
            ("a", record bundle_a { policy = record policy_a { rate_window_seconds = some nan } })
            ∷ [];
      })
      none
      2
      (micro 9)
    ≡ err value_error
unfolding export_response export_data collect_pages list_policies
unencodable_export = refl
