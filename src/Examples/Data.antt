-- ===== src/Examples/Data.antt =====
-- Sample values that the examples share.
use veronica.Events.{Event}
use veronica.Prelude.{
  ℕ, eqb, ◌%◌, ◌/◌, Option, if◌then◌else◌, refl, false, true, Bool, String, none, some, List, [],
  arith,
}
use veronica.Prelude.Int.{ℤ, pos}
use veronica.Float.Sample.{Micro, fin, micro, micro_float}
use veronica.Types.{int, PolicyConfig, StepIntent, StepOutcome, llm, ok_status}
use veronica.PolicyAudit.{Json}
use veronica.Values.{Conversions}
use veronica.Distributor.{Distributor}
use veronica.Distributor.Validation.{IsAdmissible}

-- an event of chain `a`
abbrev pub event_of : String → ℕ → Event Micro
event_of id time = record {
  step_id = id;
  chain_id = "a";
  operation_name = "call";
  decision = "allow";
  cost_usd = micro 400000;
  tokens = pos 12;
  duration_ms = micro 1;
  policy_hash = "";
  audit_id = "";
  timestamp = micro time;
  schema_version = "1.0";
  reason_code = none;
}

-- a policy for chain `a` with a ceiling of one dollar
abbrev pub policy_a : PolicyConfig Micro
policy_a = record {
  chain_id = "a";
  ceiling_usd = micro 1000000;
  on_exceed = "halt";
  issued_at = micro 0;
  ceiling_tokens_out = none;
  ceiling_steps = some (pos 2);
  fallback_model = none;
  timeout_ms = none;
  rate_window_seconds = none;
  rate_ceiling_calls = none;
  priority = int (pos 50);
  deadline_ts = none;
  expires_at = none;
  planner_version = none;
}

pub policy_a-IsAdmissible : IsAdmissible false policy_a
policy_a-IsAdmissible = record {
  finite = refl;
  nonneg = refl;
  on_exceed = refl;
  steps = omega arith;
  tokens = tt;
  timeout = tt;
  priority = refl;
  complete = tt;
}

abbrev pub signing : Distributor
signing = record { strict = false; version = 0; signing_key = some "key" }

-- stand-ins for SHA-256 over JSON and for HMAC
abbrev pub digest : List (String × Json Micro) → String
digest form = "digest"

abbrev pub hmac : String → String → String
hmac key message = key

abbrev pub fine : StepOutcome Micro
fine = record {
  step_id = "1";
  request_id = "r";
  chain_id = "a";
  kind = llm;
  status = ok_status;
  cost_usd = micro 10;
  tokens_in = 1;
  tokens_out = 1;
  elapsed_ms = micro 1;
  model = none;
  timestamp_ms = 0;
}

abbrev pub intent : StepIntent
intent = record {
  step_id = "1";
  request_id = "r";
  chain_id = "a";
  kind = llm;
  model = none;
  tool_name = none;
  timeout_ms = pos 1000;
  metadata = [];
}

abbrev pub always_safe : String → Bool
always_safe name = true

-- the integer that a float of millionths is, if it is one
abbrev pub whole : Micro → Option ℤ
whole (fin (pos n)) = if eqb (n % 1000000) 0 then some (pos (n / 1000000)) else none
whole _ = none

-- conversions that know no text
instance abbrev pub conversions : Conversions Micro
conversions = record {
  show = λ v. "";
  parse_float = λ s. none;
  parse_int = λ s. none;
  truncate = λ x. none;
  strip = λ s. s;
}
