-- ===== src/Examples/Streams.antt =====
-- Examples for the emitter, the ingestor and the memory store.
use veronica.Prelude.{
  ℕ, ◌+◌, ◌-◌, ◌≤◌, ◌≡◌, refl, String, Bool, ◌==◌, not, Option, none, some, List, [], ◌∷◌, ◌++◌,
  length, eqb, if◌then◌else◌,
}
use veronica.Prelude.Dict.{get}
use mathlib.Core.List.{reverse}
use veronica.Prelude.Int.{pos}
use veronica.Prelude.Result.{ok}
use veronica.Prelude.{last_n}
use veronica.Prelude.Dict.{put}
use veronica.Float.Sample.{Micro, micro, micro_float}
use veronica.Types.{StepOutcome, Status, ok_status, error, timeout, llm, HistoryView, or_default}
use veronica.MemoryStore.{commit, build_history, history_of}
use veronica.MemoryStore.Chains.{commit_all, chain_of, of_chain, commit_all-chains}
use veronica.MemoryStore.Streaks.{IsStreak, build_history-IsStreak}
use veronica.Emitter.Accounting.{Call, emits, subscribes, drains, World, run, start, run-accounts}
use veronica.Ingest.{RecordStore, put_records}
use veronica.Ingest.Counts
use veronica.Ingest.Counts.{ingests, flushes, all_arrivals, run-counts}
use veronica.Prelude.{true, false}
use veronica.Float.Sample.{micro_laws}
use veronica.Values.{text, int, float}
use veronica.Events.{Event, from_dict, to_dict}
use veronica.Ingest.Conversion.{
  SafetyEvent, degrade, convert_event, converted, matches, is_safe_char, derive_audit_id,
}
use veronica.Ingest.Recorded.{IsClean, convert_event-recorded}
use veronica.Examples.Data.{conversions}

-- the callback of `bad` fails
abbrev only_good : String → Bool
only_good name = not (name == "bad")

abbrev calls : List (Call ℕ ℕ)
calls =
    subscribes "bad" 0
    ∷ emits only_good 1
    ∷ emits only_good 2
    ∷ drains 1
    ∷ emits only_good 3
    ∷ emits only_good 4
    ∷ []

run-accounts_example :
    let w : World ℕ ℕ = run (start 2) calls in
    (length w.emitted ≡ w.emitter.dropped + length w.drained + length w.emitter.buffer)
    × (length w.emitter.buffer ≤ 2)
    × (w.emitter.dropped ≡ 0 → w.drained ++ w.emitter.buffer ≡ w.emitted)
run-accounts_example = run-accounts 2 calls

abbrev full_store : RecordStore ℕ
full_store = record { records = 1 ∷ 2 ∷ []; max_records = 2 }

-- a store whose second attempt works
abbrev flaky : ℕ → RecordStore ℕ → List ℕ → Option (RecordStore ℕ)
flaky attempt s outcomes = if eqb attempt 1 then some (put_records s outcomes) else none

run-counts_example :
    let (g, persisted) =
      Counts.run flaky
        (Counts.new flaky 2 full_store)
        0
        (ingests (some 5) ∷ ingests none ∷ ingests (some 6) ∷ ingests (some 7) ∷ []) in
    (4 ≡ persisted + length g.batch + g.error_total)
    × (length g.batch ≤ 2 - 1)
    × (length g.dead_letter ≤ 1000)
run-counts_example =
    run-counts flaky 2 full_store
      (ingests (some 5) ∷ ingests none ∷ ingests (some 6) ∷ ingests (some 7) ∷ [])

abbrev outcome_of : String → Status → StepOutcome Micro
outcome_of id status = record {
  step_id = id;
  request_id = "r";
  chain_id = "a";
  kind = llm;
  status = status;
  cost_usd = micro 10;
  tokens_in = 1;
  tokens_out = 1;
  elapsed_ms = micro 1;
  model = none;
  timestamp_ms = 0;
}

abbrev outcomes : List (StepOutcome Micro)
outcomes =
    outcome_of "1" ok_status
    ∷ record (outcome_of "2" ok_status) { chain_id = "bad" }
    ∷ outcome_of "3" error
    ∷ outcome_of "4" timeout
    ∷ []

-- the names but one are safe
abbrev is_safe : String → Bool
is_safe name = not (name == "bad")

commit_all-chains_example :
    let (s, accepted) = commit_all is_safe [] outcomes in
    (chain_of is_safe s "a" ≡ last_n 50000 (of_chain is_safe "a" accepted)) × (length s ≤ 10000)
commit_all-chains_example = commit_all-chains is_safe outcomes "a"

abbrev last_two : HistoryView Micro
last_two = history_of "a" (outcome_of "3" error ∷ outcome_of "4" timeout ∷ [])

history_built : build_history is_safe (commit_all is_safe [] outcomes).0 "a" (pos 2) ≡ ok last_two
unfolding build_history commit_all commit get put
history_built = refl

build_history-IsStreak_example :
    (last_two.last_n ≡ last_n 2 (or_default (get "a" (commit_all is_safe [] outcomes).0) []))
    × (last_two.depth ≡ length last_two.last_n)
    × (last_two.depth ≤ 50000)
    × IsStreak last_two.failure_streak (reverse last_two.last_n)
build_history-IsStreak_example =
    build_history-IsStreak is_safe (commit_all is_safe [] outcomes).0 "a" (pos 2) last_two
      history_built

-- an event of a tool, whose step has a name that is not clean
abbrev slow_tool : SafetyEvent Micro
slow_tool = record {
  event_type = "budget";
  decision = degrade;
  reason = some "too slow!";
  hook = "tool";
  request_id = none;
  ts = some (micro 5);
  metadata =
      ("step_id", text "step 1")
      ∷ ("cost_usd", float (micro 400000))
      ∷ ("tokens", int (pos 12))
      ∷ ("audit_id", text "audit\n")
      ∷ [];
}

abbrev slow_tool_outcome : Event Micro
slow_tool_outcome = record {
  step_id = "step_1";
  chain_id = "unknown";
  operation_name = "tool";
  decision = "degrade";
  cost_usd = micro 400000;
  tokens = pos 12;
  duration_ms = micro 0;
  policy_hash = "sha256";
  audit_id = "audit\n";
  timestamp = micro 5;
  schema_version = "1.0";
  reason_code = some "too_slow_";
}

-- the newline at the end of the audit identifier passes
slow_tool-converted :
    convert_event false (λ s. "sha256") none (micro 9) "s" "a" slow_tool ≡ ok slow_tool_outcome
unfolding convert_event get veronica.Ingest.Conversion.take_text veronica.Prelude.Int.◌+ℤ◌
    veronica.Ingest.Conversion.derive_policy_hash derive_audit_id
    veronica.Ingest.Conversion.sanitize veronica.Ingest.Conversion.all_chars
    veronica.Ingest.Conversion.drop_newline is_safe_char
slow_tool-converted = refl

convert_event-recorded_example :
    IsClean slow_tool_outcome.step_id
    × IsClean slow_tool_outcome.chain_id
    × IsClean slow_tool_outcome.operation_name
    × (from_dict (micro 9) (to_dict slow_tool_outcome) ≡ ok slow_tool_outcome)
convert_event-recorded_example =
    convert_event-recorded false (λ s. "sha256") none (micro 9) "s" "a" slow_tool slow_tool_outcome
      (micro 9) slow_tool-converted refl
