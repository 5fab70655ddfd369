-- ===== src/Ingest/Conversion.antt =====
-- `_convert_event` of src/veronica/ingest/event_ingestor.py: a safety event of the engine becomes a
-- record of the control plane. SHA-256 over the encoded text is `sha256`. What `or` makes of a value
-- of a type that is not told apart is the argument `truthy_other`.
use Prim.Native.Char.{Char, char, code}
use Prim.Native.String.{count, ◌++◌}
use veronica.Prelude.{
  ℕ, zero, suc, String, Bool, true, false, not, ◌&&◌, ◌||◌, ◌==◌, Option, none, some, List, leb,
  eqb, if◌then◌else◌,
}
use veronica.Prelude.Int.{ℤ, pos, pos_part, ◌+ℤ◌, negsuc}
use veronica.Prelude.Result.{Result, ok, err, ◌>>=◌}
use veronica.Prelude.Dict.{Dict, get}
use veronica.Float.{Float, fmax}
use veronica.Values.{
  Value, null, boolean, int, float, text, other, Conversions, to_str, to_float, to_int,
}
use veronica.Events.{Event}
use veronica.Ingest.{Ingestor, ingest}
use veronica.Types.{or_default}

-- The members of the engine's Decision that the code names, and any other.
pub data Decision : Type 0 where
  allow halt degrade retry quarantine queue unmapped : Decision

pub record SafetyEvent (F : Type 0) : Type 0 where
  pub event_type : String
  pub decision : Decision
  pub reason : Option String
  pub hook : String
  pub request_id : Option String
  pub ts : Option F
  pub metadata : Dict (Value F)

-- _map_decision
abbrev pub map_decision : Decision → String
map_decision allow = "allow"
map_decision halt = "halt"
map_decision degrade = "degrade"
map_decision retry = "retry"
map_decision quarantine = "quarantine"
map_decision queue = "queue"
map_decision unmapped = "unknown"

abbrev between : ℕ → ℕ → ℕ → Bool
between low high n = leb low n && leb n high

-- [a-zA-Z0-9_:@.\-]
unfoldable pub is_safe_char : Char → Bool
is_safe_char c =
    let n = code c in
    between b'a' b'z' n
    || between b'A' b'Z' n
    || between b'0' b'9' n
    || eqb n b'_'
    || eqb n b':'
    || eqb n b'@'
    || eqb n b'.'
    || eqb n b'-'

-- [0-9a-f]
abbrev pub is_hex_char : Char → Bool
is_hex_char c = let n = code c in between b'0' b'9' n || between b'a' b'f' n

-- the first characters of a text
unfoldable pub take_text : ℕ → String → String
take_text zero s = ""
take_text (suc n) String.[] = ""
take_text (suc n) (String.◌∷◌ c s) = String.◌∷◌ c (take_text n s)

abbrev pub underscore : Char
underscore = char b'_' tt

-- re.sub with the complement of the safe characters
unfoldable pub sanitize : String → String
sanitize String.[] = ""
sanitize (String.◌∷◌ c s) = String.◌∷◌ (if is_safe_char c then c else underscore) (sanitize s)

abbrev pub clean : String → String
clean s = take_text 256 (sanitize s)

unfoldable pub all_chars : (Char → Bool) → String → Bool
all_chars p String.[] = true
all_chars p (String.◌∷◌ c s) = p c && all_chars p s

-- a text without the newline at its end
unfoldable pub drop_newline : String → String
drop_newline String.[] = ""
drop_newline (String.◌∷◌ c s) =
    let rest = drop_newline s in if eqb (code c) 10 && s == "" then "" else String.◌∷◌ c rest

-- the match of `^[…]{low,high}$`, whose `$` also holds before a newline at the end
abbrev pub matches : (Char → Bool) → ℕ → ℕ → String → Bool
matches p low high s = let t = drop_newline s in all_chars p t && between low high (count t)

-- `event.request_id or uuid4().hex`, and `operation_name or …`
abbrev some_text : Option String → String → String
some_text none default = default
some_text (some s) default = if s == "" then default else s

abbrev reason_code : Option String → Option String
reason_code none = none
reason_code (some reason) = if reason == "" then none else some (clean reason)

abbrev is_zero : ℤ → Bool
is_zero (pos n) = eqb n 0
is_zero (negsuc n) = false

module _ {F : Type 0} where
  -- f"{event.hook}:{event.event_type}"
  abbrev signature : SafetyEvent F → String
  signature event = event.hook ++ ":" ++ event.event_type

  -- _derive_policy_hash
  unfoldable pub derive_policy_hash : (String → String) → SafetyEvent F → String
  derive_policy_hash sha256 event = elim (get "policy_hash" event.metadata) [
    | some (text candidate) ↦
        if matches is_hex_char 64 64 candidate then candidate else sha256 (signature event)
    | _ ↦ sha256 (signature event)
  ]

  -- _derive_audit_id
  unfoldable pub derive_audit_id : String → SafetyEvent F → String
  derive_audit_id fresh_id event = elim (get "audit_id" event.metadata) [
    | some (text candidate) ↦ if matches is_safe_char 1 128 candidate then candidate else fresh_id
    | _ ↦ fresh_id
  ]

  -- `get(key, default)` for a default that is a text
  abbrev text_item : Dict (Value F) → String → String → Value F
  text_item meta key default = or_default (get key meta) (text default)

module _ {F : Type 0} ⦃fl : Float F⦄ where
  -- `max(0.0, x) if math.isfinite(x) else 0.0`
  abbrev pub nonnegative : F → F
  nonnegative x = if fl.is_finite x then fmax (fl.dec 0 0) x else fl.dec 0 0

module _ {F : Type 0} ⦃fl : Float F⦄ ⦃conv : Conversions F⦄ (sha256 : String → String)
    (operation_name : Option String) (now : F) (fresh_step fresh_audit : String) where
  -- the record of an event, once its numbers are read
  abbrev pub converted : SafetyEvent F → F → ℤ → ℤ → F → Event F
  converted event raw_cost tokens_in tokens_out raw_dur = record {
    step_id =
        clean (to_str (text_item event.metadata "step_id" (some_text event.request_id fresh_step)));
    chain_id = clean (to_str (text_item event.metadata "chain_id" "unknown"));
    operation_name =
        clean (
          some_text operation_name (to_str (text_item event.metadata "operation_name" event.hook)));
    decision = map_decision event.decision;
    cost_usd = nonnegative raw_cost;
    tokens = tokens_in +ℤ tokens_out;
    duration_ms = nonnegative raw_dur;
    policy_hash = derive_policy_hash sha256 event;
    audit_id = derive_audit_id fresh_audit event;
    timestamp = or_default event.ts now;
    schema_version = "1.0";
    reason_code = reason_code event.reason;
  }

module _ {F : Type 0} ⦃fl : Float F⦄ ⦃conv : Conversions F⦄ (truthy_other : Bool) where
  abbrev truthy : Value F → Bool
  truthy null = false
  truthy (boolean b) = b
  truthy (int n) = not (is_zero n)
  truthy (float x) = not (fl.le x (fl.dec 0 0) && fl.le (fl.dec 0 0) x)
  truthy (text s) = not (s == "")
  truthy other = truthy_other

  -- `max(0, int(v or 0))`
  abbrev pub natural : Value F → Result ℤ
  natural v = if truthy v then (do n ← to_int v; ok (pos (pos_part n))) else ok (pos 0)

  -- `float(v or 0.0)`
  abbrev pub float_or_zero : Value F → Result F
  float_or_zero v = if truthy v then to_float v else ok (fl.dec 0 0)

  -- _convert_event, with the override of the operation's name, the clock and two fresh identifiers
  unfoldable pub convert_event :
      (String → String) → Option String → F → String → String → SafetyEvent F → Result (Event F)
  convert_event sha256 operation_name now fresh_step fresh_audit event = do
    raw_cost ← to_float (or_default (get "cost_usd" event.metadata) (float (fl.dec 0 0)))
    tokens_in ← natural (
        or_default (get "tokens" event.metadata)
          (or_default (get "tokens_in" event.metadata) (int (pos 0))))
    tokens_out ← natural (or_default (get "tokens_out" event.metadata) (int (pos 0)))
    raw_dur ← float_or_zero (
        or_default (get "duration_ms" event.metadata)
          (or_default (get "elapsed_ms" event.metadata) (float (fl.dec 0 0))))
    ok (
        converted sha256 operation_name now fresh_step fresh_audit event raw_cost tokens_in
          tokens_out raw_dur)

  -- EventIngestor.ingest of a safety event: whatever the conversion raises is counted as an error
  unfoldable pub ingest_event :
      {S : Type 0}
      → (String → String)
      → Option String
      → F
      → String
      → String
      → (ℕ → S → List (Event F) → Option S)
      → Ingestor (Event F) S
      → SafetyEvent F
      → Ingestor (Event F) S × ℕ
  ingest_event sha256 operation_name now fresh_step fresh_audit put_many g event =
      elim (convert_event sha256 operation_name now fresh_step fresh_audit event) [
        | err e ↦ ingest put_many g none
        | ok outcome ↦ ingest put_many g (some outcome)
      ]
