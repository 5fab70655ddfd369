-- ===== src/Replay/Override.antt =====
-- `_build_override_policy` of src/veronica/replay/engine.py. A `fallback_model` of another type
-- than a text is read as None: nothing in a replay reads the field.
pub mod Validated
use veronica.Prelude.{
  ◌≡◌, refl, sym, subst, ◌⊎◌, inl, inr, Bool-cases, String, Bool, true, false, not, ◌||◌, ◌==◌,
  Option, none, some, arith, if◌then◌else◌,
}
use veronica.Prelude.Int.{ℤ, pos, ltb_ℤ}
use veronica.Prelude.Result.{
  Result, ok, err, value_error, type_error, overflow_error, raise_if, ◌>>=◌, ◌>>◌, >>=-eq-ok,
  >>-eq-ok, ok-injective,
}
use veronica.Prelude.Dict.{Dict, get}
use veronica.Float.{Float, fits_float}
use veronica.Types.{Number, PolicyConfig, is_proper_int}
use veronica.Types
use veronica.Distributor.{Distributor, validate, allowed_on_exceed}
use veronica.Distributor.Validation.{
  IsAdmissible, NonNegative, Bounded, IsTooLarge, IsTooLarge-validate, validate-IsAdmissible,
}
use veronica.Values.{Value, Conversions, null, boolean, int, float, text, other, to_float}

abbrev pub check_on_exceed : String → Result String
check_on_exceed s = if allowed_on_exceed s then ok s else err value_error

abbrev pub to_limit : {F : Type 0} → Option ℤ → Option (Number F)
to_limit none = none
to_limit (some n) = some (Types.int n)

module _ {F : Type 0} ⦃fl : Float F⦄ ⦃conv : Conversions F⦄ where
  -- a text that is not blank
  abbrev pub read_chain_id : Option (Value F) → Result String
  read_chain_id (some (text s)) = if conv.strip s == "" then err value_error else ok (conv.strip s)
  read_chain_id _ = err value_error

  -- a float that is finite and not negative, or ValueError; an OverflowError passes
  abbrev pub finite_nonneg : Result F → Result F
  finite_nonneg (err overflow_error) = err overflow_error
  finite_nonneg (err e) = err value_error
  finite_nonneg (ok x) =
      if not (fl.is_finite x) || fl.lt x (fl.dec 0 0) then err value_error else ok x

  abbrev pub read_number : Value F → Result F
  read_number (boolean b) = err value_error
  read_number v = finite_nonneg (to_float v)

  abbrev pub read_ceiling : Option (Value F) → Result F
  read_ceiling none = err value_error
  read_ceiling (some v) = read_number v

  -- absent, None or a bool
  abbrev pub is_no_number : Option (Value F) → Bool
  is_no_number none = true
  is_no_number (some null) = true
  is_no_number (some (boolean b)) = true
  is_no_number (some _) = false

  -- membership in a set hashes the value, which raises TypeError for a list or a dict
  abbrev pub read_on_exceed : Option (Value F) → Result String
  read_on_exceed none = check_on_exceed "halt"
  read_on_exceed (some (text s)) = check_on_exceed s
  read_on_exceed (some other) = err type_error
  read_on_exceed (some _) = err value_error

  -- an `int` that is not negative, or None
  abbrev pub read_limit : Option (Value F) → Result (Option ℤ)
  read_limit none = ok none
  read_limit (some null) = ok none
  read_limit (some (int n)) = if ltb_ℤ n (pos 0) then err value_error else ok (some n)
  read_limit (some _) = err value_error

  -- a value that is absent or None, or else the value
  abbrev pub present : Option (Value F) → Option (Value F)
  present (some null) = none
  present o = o

  abbrev pub read_timeout : Option (Value F) → Result (Option F)
  read_timeout none = ok none
  read_timeout (some v) = (do x ← read_number v; ok (some x))

  abbrev pub read_priority : Option (Value F) → Result ℤ
  read_priority none = ok (pos 50)
  read_priority (some (int n)) =
      if ltb_ℤ n (pos 0) || ltb_ℤ (pos 100) n then err value_error else ok n
  read_priority (some _) = err value_error

  -- the clock's value passes the same tests
  abbrev pub read_issued_at : F → Option (Value F) → Result F
  read_issued_at now none = finite_nonneg (ok now)
  read_issued_at now (some v) = read_number v

  abbrev pub read_model : Option (Value F) → Option String
  read_model (some (text s)) = some s
  read_model _ = none

  abbrev pub to_timeout : Option F → Option (Number F)
  to_timeout none = none
  to_timeout (some x) = some (Types.float x)

  -- _build_override_policy
  unfoldable pub build_override_policy : F → Dict (Value F) → Result (PolicyConfig F)
  build_override_policy now override = do
    chain_id ← read_chain_id (get "chain_id" override)
    -- the presence and the type of the ceiling are tested before `on_exceed`, its value after it
    raise_if (is_no_number (get "ceiling_usd" override)) value_error
    on_exceed ← read_on_exceed (get "on_exceed" override)
    ceiling_usd ← read_ceiling (get "ceiling_usd" override)
    ceiling_steps ← read_limit (get "ceiling_steps" override)
    ceiling_tokens_out ← read_limit (get "ceiling_tokens_out" override)
    timeout_ms ← read_timeout (present (get "timeout_ms" override))
    priority ← read_priority (get "priority" override)
    issued_at ← read_issued_at now (get "issued_at" override)
    ok (record {
      chain_id = chain_id;
      ceiling_usd = ceiling_usd;
      on_exceed = on_exceed;
      issued_at = issued_at;
      ceiling_tokens_out = to_limit ceiling_tokens_out;
      ceiling_steps = ceiling_steps;
      fallback_model = read_model (get "fallback_model" override);
      timeout_ms = to_timeout timeout_ms;
      rate_window_seconds = none;
      rate_ceiling_calls = none;
      priority = Types.int priority;
      deadline_ts = none;
      expires_at = none;
      planner_version = none;
    })
