-- ===== src/PolicyAudit.antt =====
-- src/veronica/policy_audit.py for a `PolicyConfig`: the canonical form that `compute_policy_hash`
-- serialises. `json.dumps` followed by SHA-256 is the argument `digest`; nothing is assumed of it.
use veronica.Prelude.{String, ◌≡◌, Option, none, some, List, [], ◌∷◌, arith}
use veronica.Types.{Number, int, float, PolicyConfig}

-- What `_serialize_value` returns for the fields of a policy.
pub data Json (F : Type 0) : Type 0 where
  null : Json F
  number : Number F → Json F
  text : String → Json F

module _ {F : Type 0} where
  abbrev pub json_float : F → Json F
  json_float x = number (float x)

  abbrev pub json_option : {A : Type 0} → (A → Json F) → Option A → Json F
  json_option f none = null
  json_option f (some a) = f a

  -- _to_canonical: the public fields, sorted by name
  unfoldable pub to_canonical : PolicyConfig F → List (String × Json F)
  to_canonical p =
      ("ceiling_steps", json_option (λ n. number (int n)) p.ceiling_steps)
      ∷ ("ceiling_tokens_out", json_option number p.ceiling_tokens_out)
      ∷ ("ceiling_usd", json_float p.ceiling_usd)
      ∷ ("chain_id", text p.chain_id)
      ∷ ("deadline_ts", json_option json_float p.deadline_ts)
      ∷ ("expires_at", json_option json_float p.expires_at)
      ∷ ("fallback_model", json_option text p.fallback_model)
      ∷ ("issued_at", json_float p.issued_at)
      ∷ ("on_exceed", text p.on_exceed)
      ∷ ("planner_version", json_option text p.planner_version)
      ∷ ("priority", number p.priority)
      ∷ ("rate_ceiling_calls", json_option (λ n. number (int n)) p.rate_ceiling_calls)
      ∷ ("rate_window_seconds", json_option json_float p.rate_window_seconds)
      ∷ ("timeout_ms", json_option number p.timeout_ms)
      ∷ []

module _ {F : Type 0} (digest : List (String × Json F) → String) where
  -- compute_policy_hash
  unfoldable pub compute_policy_hash : PolicyConfig F → String
  compute_policy_hash p = digest (to_canonical p)

module _ {F : Type 0} where
  -- Two policies with the same canonical form are the same policy: no field is left out of it.
  pub to_canonical-injective : (p q : PolicyConfig F) → to_canonical p ≡ to_canonical q → p ≡ q
  unfolding to_canonical
  to_canonical-injective p q e = ground arith
