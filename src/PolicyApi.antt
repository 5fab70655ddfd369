-- ===== src/PolicyApi.antt =====
-- src/veronica/api/routes/policies.py: the endpoints over the policy registry. A response shows the
-- bundle, whose policy is then the one of its response; the summaries in a list are the bundles.
-- Errors that no handler catches are the server's.
pub mod Updates
use veronica.Prelude.{ℕ, String, Bool, true, false, ◌==◌, Option, none, some, List, [], ◌∷◌, any}
use veronica.Prelude.Result.{
  Result, ok, err, Exn, key_error, value_error, type_error, policy_validation, http_403, http_404,
  http_409, http_422, ◌>>=◌,
}
use veronica.Prelude.Int.{ℤ}
use veronica.Responses.{policy_response}
use veronica.Float.{Float}
use veronica.Types.{or_default}
use veronica.PolicyAudit.{Json}
use veronica.Distributor.{PolicyBundle}
use veronica.PolicyRegistry
use veronica.PolicyRegistry.{Registry, Fields, update}

-- the handlers of `update_policy`
abbrev pub update_error : Exn → Exn
update_error key_error = http_404
update_error policy_validation = http_422
update_error value_error = http_409
update_error type_error = http_409
update_error e = e

-- the environment variable in lower case, or an empty text
abbrev pub is_immutable_config : (String → String) → Option String → Bool
is_immutable_config lower variable =
    any (λ v. lower (or_default variable "") == v) ("1" ∷ "true" ∷ "yes" ∷ [])

module _ {F : Type 0} where
  unfoldable pub list_policies : Registry F → ℕ → ℕ → List (PolicyBundle F) × ℕ
  list_policies r page per_page = PolicyRegistry.list_policies r page per_page

module _ {F : Type 0} ⦃fl : Float F⦄ where
  -- _bundle_to_response
  abbrev pub bundle_to_response : (F → Option ℤ) → PolicyBundle F → Result (PolicyBundle F)
  bundle_to_response whole bundle = do
    policy ← policy_response whole bundle.policy
    ok (record bundle { policy = policy })

  unfoldable pub get_policy : (F → Option ℤ) → Registry F → String → Result (PolicyBundle F)
  get_policy whole r chain_id = elim (PolicyRegistry.get_policy r chain_id) [
    | none ↦ err http_404
    | some bundle ↦ bundle_to_response whole bundle
  ]

  abbrev pub reply_of :
      (F → Option ℤ) → Registry F × Result (PolicyBundle F) → Registry F × Result (PolicyBundle F)
  reply_of whole (r, ok bundle) = (r, bundle_to_response whole bundle)
  reply_of whole (r, err e) = (r, err (update_error e))

module _ {F : Type 0} ⦃fl : Float F⦄ (digest : List (String × Json F) → String)
    (hmac : String → String → String) (whole : F → Option ℤ) where
  unfoldable pub update_policy :
      Bool → Registry F → String → ℕ → Fields F → F → Registry F × Result (PolicyBundle F)
  update_policy true r chain_id current_version fields now = (r, err http_403)
  update_policy false r chain_id current_version fields now =
      reply_of whole (update digest hmac r chain_id current_version fields now)
