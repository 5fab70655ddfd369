-- ===== src/Events.antt =====
-- src/veronica/schemas/events.py: the control plane's record of a step, and its form as a
-- dictionary. The record of a policy decision is not modelled.
use veronica.Prelude.{
  ◌≡◌, ap, String, Bool, true, not, ◌==◌, Option, none, some, [], ◌∷◌, any, arith,
}
use veronica.Prelude.Int.{ℤ, pos, negsuc, ◌≤ℤ◌}
use veronica.Prelude.Result.{Result, ok, key_error, value_error, or_raise, raise_if, ◌>>=◌, ◌>>◌}
use veronica.Prelude.Dict.{Dict, get}
use veronica.Float.{Float}
use veronica.Values.{Value, Conversions, null, int, float, text, to_str, to_float, to_int}

-- The control plane's StepOutcome.
pub record Event (F : Type 0) : Type 0 where
  pub step_id : String
  pub chain_id : String
  pub operation_name : String
  pub decision : String
  pub cost_usd : F
  pub tokens : ℤ
  pub duration_ms : F
  pub policy_hash : String
  pub audit_id : String
  pub timestamp : F
  pub schema_version : String
  pub reason_code : Option String

-- `decision in _VALID_DECISIONS`
abbrev pub valid_decision : String → Bool
valid_decision d =
    any (λ v. d == v)
      ("allow" ∷ "halt" ∷ "degrade" ∷ "retry" ∷ "quarantine" ∷ "queue" ∷ "unknown" ∷ [])

-- max(0, n)
abbrev clip : ℤ → ℤ
clip (pos n) = pos n
clip (negsuc n) = pos 0

clip-nonneg : (n : ℤ) → pos 0 ≤ℤ n → clip n ≡ n
clip-nonneg n h = ground arith

abbrev reason_value : {F : Type 0} → Option String → Value F
reason_value none = null
reason_value (some s) = text s

module _ {F : Type 0} where
  -- StepOutcome.to_dict
  unfoldable pub to_dict : Event F → Dict (Value F)
  to_dict e =
      ("step_id", text e.step_id)
      ∷ ("chain_id", text e.chain_id)
      ∷ ("operation_name", text e.operation_name)
      ∷ ("decision", text e.decision)
      ∷ ("cost_usd", float e.cost_usd)
      ∷ ("tokens", int e.tokens)
      ∷ ("duration_ms", float e.duration_ms)
      ∷ ("policy_hash", text e.policy_hash)
      ∷ ("audit_id", text e.audit_id)
      ∷ ("timestamp", float e.timestamp)
      ∷ ("schema_version", text e.schema_version)
      ∷ ("reason_code", reason_value e.reason_code)
      ∷ []

module _ {F : Type 0} ⦃fl : Float F⦄ ⦃conv : Conversions F⦄ where
  -- data[k]
  abbrev item : Dict (Value F) → String → Result (Value F)
  item data_ k = or_raise (get k data_) key_error

  -- str(data[k])
  abbrev str_item : Dict (Value F) → String → Result String
  str_item data_ k = (do v ← item data_ k; ok (to_str v))

  -- a value that is absent or None, or what `float` makes of it
  abbrev timestamp_or : F → Option (Value F) → Result F
  timestamp_or now none = ok now
  timestamp_or now (some null) = ok now
  timestamp_or now (some v) = to_float v

  abbrev reason_or_none : Option (Value F) → Option String
  reason_or_none none = none
  reason_or_none (some null) = none
  reason_or_none (some v) = some (to_str v)

  -- StepOutcome.from_dict
  unfoldable pub from_dict : F → Dict (Value F) → Result (Event F)
  from_dict now data_ = do
    decision ← str_item data_ "decision"
    raise_if (not (valid_decision decision)) value_error
    cost_usd ← (do v ← item data_ "cost_usd"; to_float v)
    duration_ms ← (do v ← item data_ "duration_ms"; to_float v)
    timestamp ← timestamp_or now (get "timestamp" data_)
    raise_if (not (fl.is_finite cost_usd)) value_error
    raise_if (not (fl.is_finite duration_ms)) value_error
    raise_if (not (fl.is_finite timestamp)) value_error
    step_id ← str_item data_ "step_id"
    chain_id ← str_item data_ "chain_id"
    operation_name ← str_item data_ "operation_name"
    tokens ← (do v ← item data_ "tokens"; to_int v)
    policy_hash ← str_item data_ "policy_hash"
    audit_id ← str_item data_ "audit_id"
    ok (record {
      step_id = step_id;
      chain_id = chain_id;
      operation_name = operation_name;
      decision = decision;
      cost_usd = cost_usd;
      tokens = clip tokens;
      duration_ms = duration_ms;
      policy_hash = policy_hash;
      audit_id = audit_id;
      timestamp = timestamp;
      schema_version = elim (get "schema_version" data_) [ none ↦ "1.0" | some v ↦ to_str v ];
      reason_code = reason_or_none (get "reason_code" data_);
    })

  -- The events that `from_dict` accepts.
  pub record IsRecordable (e : Event F) : Type 0 where
    pub decision : valid_decision e.decision ≡ true
    pub cost : fl.is_finite e.cost_usd ≡ true
    pub duration : fl.is_finite e.duration_ms ≡ true
    pub timestamp : fl.is_finite e.timestamp ≡ true
    pub tokens : pos 0 ≤ℤ e.tokens

  -- An event with a valid decision, finite numbers and no negative token count is read back as it
  -- was written, whatever the clock says.
  pub from_dict-to_dict :
      (e : Event F) (now : F) → IsRecordable e → from_dict now (to_dict e) ≡ ok e
  unfolding from_dict to_dict get
  from_dict-to_dict e now v =
      rw (v.decision, v.cost, v.duration, v.timestamp)
        (ap (λ r. ok r) (ground (arith, clip-nonneg e.tokens v.tokens)))
