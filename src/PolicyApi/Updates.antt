-- ===== src/PolicyApi/Updates.antt =====
-- Every answer of the endpoint that updates a policy, and what it leaves in the registry.
use veronica.Prelude.{Option, ℕ, ◌+◌, String, true, false, ◌≡◌, ◌⊎◌, some, List, eqb}
use veronica.Prelude.Int.{ℤ}
use veronica.Prelude.Result.{err, http_409, http_422, overflow_error}
use veronica.Float.{Float}
use veronica.PolicyAudit.{Json}
use veronica.Distributor.{PolicyBundle}
use veronica.Distributor.Validation.{IsAdmissible, IsTooLarge}
use veronica.PolicyRegistry.{Registry, Fields, replace, get_policy}
use veronica.PolicyApi.{update_policy, bundle_to_response}

module _ {F : Type 0} ⦃fl : Float F⦄ (digest : List (String × Json F) → String)
    (hmac : String → String → String) (whole : F → Option ℤ) where
  -- An update of a stored bundle: with a stale version, with fields that are refused, or done; then
  -- the reply is made from the bundle that is stored.
  abbrev pub Updated : Registry F → String → ℕ → Fields F → F → PolicyBundle F → Type 0
  Updated r chain_id current_version fields now old =
      let p = replace old.policy fields now in
      let (r', reply) =
        update_policy digest hmac whole false r chain_id current_version fields now in
      ((eqb old.version current_version ≡ false) × (reply ≡ err http_409) × (r' ≡ r))
      ⊎ ((eqb old.version current_version ≡ true)
          × (((¬ IsAdmissible r.distributor.strict p)
                × ((reply ≡ err http_422)
                    ⊎ ((IsTooLarge p.ceiling_tokens_out ⊎ IsTooLarge p.timeout_ms)
                        × (reply ≡ err overflow_error)))
                × (r' ≡ r))
              ⊎ (IsAdmissible r.distributor.strict p
                  × ((b : PolicyBundle F) × (reply ≡ bundle_to_response whole b)
                      × (b.policy ≡ p)
                      × (b.version ≡ r.distributor.version + 1)
                      × (get_policy r' chain_id ≡ some b)))))
