-- ===== src/RedisArbiter.antt =====
-- src/veronica/redis_arbiter.py: a budget that several processes share through Redis, and the
-- local arbiter when Redis fails. The two context variables are the argument `context`. Python's
-- `round`, which raises for a NaN or an infinity, is the argument `round`. A call that raises
-- RedisError may have been lost on the way to the server or on the way back. The fallback is the
-- default one.
pub mod Grants
use Prim.Native.String.{◌++◌}
use veronica.Prelude.{String, Option, none, some, List, [], ◌∷◌}
use veronica.Prelude.Int.{ℤ}
use veronica.Prelude.Result.{Result, ok, err, Exn}
use veronica.Prelude.Dict.{Dict, get}
use veronica.Float.{Float, finite_or_zero}
use veronica.Types.{DesiredPolicy, PolicyConfig}
use veronica.Arbiters.{policy_for, proportional}
use veronica.Budget.{Budget, ReserveReply, reserved, insufficient, reserve, settle}

-- The scope and the total budget, in micro-dollars.
pub record Settings : Type 0 where
  pub scope : String
  pub total_budget_micro : ℤ

-- What becomes of a call of Redis.
pub data Link : Type 0 where
  answers request_lost reply_lost : Link

pub record Context : Type 0 where
  pub request_id : Option String
  pub step_id : Option String

abbrev pub alloc_key : String → String → String → String
alloc_key scope request_id step_id =
    "veronica:" ++ scope ++ ":alloc:" ++ request_id ++ ":" ++ step_id

module _ {F : Type 0} ⦃fl : Float F⦄ (round : F → Result ℤ) where
  -- _to_micro
  abbrev pub to_micro : F → Result ℤ
  to_micro usd = round (fl.mul usd (fl.dec 1000000 0))

  -- _from_micro
  abbrev pub from_micro : ℤ → F
  from_micro micro = fl.div (fl.of_int micro) (fl.dec 1000000 0)

  -- RedisArbiter.settle, which swallows RedisError
  unfoldable pub settle_step :
      Link → Settings → Budget → String → String → F → Budget × Result (Unit {0})
  settle_step link settings b request_id step_id actual_cost_usd =
      elim (to_micro (finite_or_zero actual_cost_usd)) [
        | err e ↦ (b, err e)
        | ok actual_micro ↦ elim link [
          | Link.request_lost ↦ (b, ok tt)
          | _ ↦ ((settle b (alloc_key settings.scope request_id step_id) actual_micro).0, ok tt)
        ]
      ]

  -- the ceiling that a reply grants
  abbrev pub granted_ceiling : DesiredPolicy F → ReserveReply → F
  granted_ceiling desire (insufficient remaining requested) = from_micro remaining
  granted_ceiling desire (reserved amount) = desire.ceiling_usd

  abbrev pub policies_of : DesiredPolicy F → F → ReserveReply → Dict (PolicyConfig F)
  policies_of desire now reply =
      (desire.chain_id, policy_for desire (granted_ceiling desire reply) now "0.3.0") ∷ []

  -- `_arbitrate_redis`, with the fallback of `arbitrate` for RedisError; only the first desire is
  -- read
  unfoldable pub arbitrate_redis :
      Link
      → Settings
      → Budget
      → List (DesiredPolicy F)
      → F
      → F
      → String
      → String
      → Budget × Result (Dict (PolicyConfig F))
  arbitrate_redis link settings b [] remaining now request_id step_id = (b, ok [])
  arbitrate_redis link settings b (desire ∷ others) remaining now request_id step_id =
      elim (to_micro desire.ceiling_usd) [
        | err e ↦ (b, err e)
        | ok reserve_micro ↦
            let key = alloc_key settings.scope request_id step_id in
            let (b', reply) = reserve settings.total_budget_micro b key reserve_micro in
            let local = proportional (desire ∷ others) remaining now in
            elim link [
              | Link.answers ↦ (b', ok (policies_of desire now reply))
              | Link.request_lost ↦ (b, ok local)
              | Link.reply_lost ↦ (b', ok local)
            ]
      ]

  -- RedisArbiter.arbitrate
  unfoldable pub arbitrate :
      Link
      → Settings
      → Context
      → Budget
      → List (DesiredPolicy F)
      → F
      → F
      → Budget × Result (Dict (PolicyConfig F))
  unfolding arbitrate_redis
  arbitrate link settings context b desires remaining now = elim context.request_id [
    | none ↦ (b, ok (proportional desires remaining now))
    | some request_id ↦ elim context.step_id [
      | none ↦ (b, ok (proportional desires remaining now))
      | some step_id ↦ arbitrate_redis link settings b desires remaining now request_id step_id
    ]
  ]
