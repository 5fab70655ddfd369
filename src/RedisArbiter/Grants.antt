-- ===== src/RedisArbiter/Grants.antt =====
-- What the Redis arbiter grants, and what it takes from the budget.
use Prim.Native.String.{◌++◌}
use text.Mathlib.TextLemmas.{append_assoc}
use veronica.Prelude.{
  ◌≡◌, ap, subst, ◌∙◌, inl, inr, String, true, false, none, some, List, [], ◌∷◌, Bool-cases, arith,
}
use veronica.Prelude.Int.{ℤ, ltb_ℤ, ◌-ℤ◌}
use veronica.Prelude.Result.{Result, ok}
use veronica.Prelude.Dict.{Dict, get, put}
use veronica.Float.{Float}
use veronica.Types.{DesiredPolicy, PolicyConfig, or_default}
use veronica.Arbiters.{policy_for}
use veronica.Budget.{Budget, reserve}
use veronica.RedisArbiter.{
  Settings, answers, alloc_key, to_micro, from_micro, arbitrate, arbitrate_redis,
}

module _ {F : Type 0} ⦃fl : Float F⦄ (round : F → Result ℤ) where
  -- The reply of Redis to a request without an allocation of its own.
  pub data FirstOutcome (total : ℤ) (b : Budget) (key : String) (d : DesiredPolicy F) (now : F)
      (amount : ℤ) : Budget × Result (Dict (PolicyConfig F)) → Type 0 where
    takes :
        ltb_ℤ (or_default b.remaining total) amount ≡ false
        → FirstOutcome total b key d now amount (
          record {
            remaining = some (or_default b.remaining total -ℤ amount);
            allocations = put key amount b.allocations;
          },
          ok ((d.chain_id, policy_for d d.ceiling_usd now "0.3.0") ∷ []),
        )
    runs_short :
        ltb_ℤ (or_default b.remaining total) amount ≡ true
        → FirstOutcome total b key d now amount (
          record b { remaining = some (or_default b.remaining total) },
          ok (
              (
                d.chain_id,
                policy_for d (from_micro round (or_default b.remaining total)) now "0.3.0",
              )
              ∷ []),
        )

  -- A first request that Redis answers, for a ceiling that can be rounded, either takes the desired ceiling from the budget and grants
  -- it, or, when less remains, takes nothing and grants what remains.
  pub arbitrate_first :
      (settings : Settings) (b : Budget) (request step : String) (d : DesiredPolicy F)
      → (others : List (DesiredPolicy F)) (remaining now : F) (amount : ℤ)
      → to_micro round d.ceiling_usd ≡ ok amount
      → get (alloc_key settings.scope request step) b.allocations ≡ none
      → FirstOutcome settings.total_budget_micro b
          (alloc_key settings.scope request step)
          d
          now
          amount
          (arbitrate round answers settings
            (record { request_id = some request; step_id = some step })
            b
            (d ∷ others)
            remaining
            now)
  unfolding arbitrate arbitrate_redis reserve
  arbitrate_first settings b request step d others remaining now amount e fresh =
      let total = settings.total_budget_micro in
      let key = alloc_key settings.scope request step in
      let left = or_default b.remaining total in
      elim (Bool-cases (ltb_ℤ left amount)) [
        | inl short ↦
            subst (λ o. FirstOutcome total b key d now amount o) (ground (arith, e, fresh, short))
              (runs_short short)
        | inr enough ↦
            subst (λ o. FirstOutcome total b key d now amount o) (ground (arith, e, fresh, enough))
              (takes enough)
      ]

  -- A repeated request of a step, answered by Redis, takes nothing more, and grants whatever ceiling
  -- it now desires, if that can be rounded, however little was reserved.
  pub arbitrate_again :
      (settings : Settings) (b : Budget) (request step : String) (d : DesiredPolicy F)
      → (others : List (DesiredPolicy F)) (remaining now : F) (amount reserved : ℤ)
      → to_micro round d.ceiling_usd ≡ ok amount
      → get (alloc_key settings.scope request step) b.allocations ≡ some reserved
      → arbitrate round answers settings
          (record { request_id = some request; step_id = some step })
          b
          (d ∷ others)
          remaining
          now
        ≡ (b, ok ((d.chain_id, policy_for d d.ceiling_usd now "0.3.0") ∷ []))
  unfolding arbitrate arbitrate_redis reserve
  arbitrate_again settings b request step d others remaining now amount reserved e found =
      ground (arith, e, found)

-- Two steps of different requests can share one allocation: a colon in an identifier makes their
-- keys the same.
pub alloc_key_clash :
    (scope x y z : String) → alloc_key scope (x ++ ":" ++ y) z ≡ alloc_key scope x (y ++ ":" ++ z)
alloc_key_clash scope x y z =
    ap (λ s. "veronica:" ++ scope ++ ":alloc:" ++ s)
      (append_assoc x (":" ++ y) (":" ++ z) ∙ ap (λ s. x ++ s) (append_assoc ":" y (":" ++ z)))
