-- ===== src/Budget.antt =====
-- src/veronica/_redis_scripts.py: the two Lua scripts of the shared budget. Redis runs a script
-- without interleaving, so each is one function of the keys that it touches. Amounts are whole
-- micro-dollars, and are taken to be below 10 ** 14: Lua's `tostring` and cjson write 14 digits of a
-- double, so that larger amounts are rounded when they are stored. A record of an allocation is its
-- reserved amount; that it expires is a step of its own.
pub mod Conservation
use veronica.Prelude.{String, Bool, Option, none, some, List, [], if◌then◌else◌}
use veronica.Prelude.Int.{ℤ, pos, ◌+ℤ◌, ◌-ℤ◌, ltb_ℤ}
use veronica.Prelude.Dict.{Dict, get, put, remove}
use veronica.Types.{or_default}

-- The keys of one budget scope: what remains, and the allocations under their keys.
pub record Budget : Type 0 where
  pub remaining : Option ℤ
  pub allocations : Dict ℤ

pub data ReserveReply : Type 0 where
  reserved : ℤ → ReserveReply
  insufficient : ℤ → ℤ → ReserveReply

pub data SettleReply : Type 0 where
  expired : ℤ → SettleReply
  settled : ℤ → SettleReply

abbrev pub at_least_zero : ℤ → ℤ
at_least_zero n = if ltb_ℤ n (pos 0) then pos 0 else n

-- LUA_RESERVE
unfoldable pub reserve : ℤ → Budget → String → ℤ → Budget × ReserveReply
reserve total_budget b alloc_key amount = elim (get alloc_key b.allocations) [
  | some existing ↦ (b, reserved existing)
  | none ↦
      let remaining = or_default b.remaining total_budget in
      if ltb_ℤ remaining amount
      then (record b { remaining = some remaining }, insufficient remaining amount)
      else (
        record {
          remaining = some (remaining -ℤ amount);
          allocations = put alloc_key amount b.allocations;
        },
        reserved amount,
      )
]

-- what the refund or the extra charge leaves
abbrev pub after_settling : Option ℤ → ℤ → Option ℤ
after_settling stored diff =
    if ltb_ℤ (pos 0) diff
    then some (or_default stored (pos 0) +ℤ diff)
    else if ltb_ℤ diff (pos 0)
    then some (at_least_zero (or_default stored (pos 0) +ℤ diff))
    else stored

-- LUA_SETTLE
unfoldable pub settle : Budget → String → ℤ → Budget × SettleReply
settle b alloc_key actual = elim (get alloc_key b.allocations) [
  | none ↦ (
    record b { remaining = some (at_least_zero (or_default b.remaining (pos 0) -ℤ actual)) },
    expired actual,
  )
  | some allocated ↦
      let diff = allocated -ℤ actual in
      (
        record {
          remaining = after_settling b.remaining diff;
          allocations = remove alloc_key b.allocations;
        },
        settled diff,
      )
]

-- the time to live of an allocation runs out
unfoldable pub expire : Budget → String → Budget
expire b alloc_key = record b { allocations = remove alloc_key b.allocations }
