-- ===== src/Emitter.antt =====
-- src/veronica/buffered_emitter.py: a ring buffer of events, and subscribers that are told of each.
-- The lock is released while callbacks run, so the three critical sections of `emit` are functions
-- of their own; `emit` is their sequence. `succeeds` says of each subscriber whether its callback
-- returns. A callback that raises SystemExit or KeyboardInterrupt is not modelled.
pub mod Accounting
pub mod Subscribers
use veronica.Prelude.{
  ℕ, ◌+◌, ◌-◌, String, Bool, true, false, Option, none, some, List, [], ◌∷◌, ◌++◌, length, take,
  drop, last_n, min, eqb, leb, is_some, if◌then◌else◌,
}
use veronica.Prelude.Dict.{Dict, get, put, remove}
use veronica.Types.{or_default}

-- `E` is the type of events with their payloads, `C` that of callbacks.
pub record Emitter (E C : Type 0) : Type 0 where
  pub maxlen : ℕ
  pub buffer : List E
  pub subscribers : Dict C
  pub fail_counts : Dict ℕ
  pub dropped : ℕ

-- What the loop over the targets leaves: the failure counts, and the names to reset and to remove.
pub record Round : Type 0 where
  pub fail_counts : Dict ℕ
  pub resets : List String
  pub removals : List String

abbrev pub max_consecutive_failures : ℕ
max_consecutive_failures = 3

abbrev pub names : {C : Type 0} → Dict C → List String
names [] = []
names ((name, callback) ∷ d) = name ∷ names d

-- one callback
abbrev pub call_target : (String → Bool) → Round → String → Round
call_target succeeds r name =
    if succeeds name
    then record r { resets = r.resets ++ name ∷ [] }
    else let count = or_default (get name r.fail_counts) 0 + 1 in
      record {
        fail_counts = put name count r.fail_counts;
        resets = r.resets;
        removals =
            if leb max_consecutive_failures count then r.removals ++ name ∷ [] else r.removals;
      }

unfoldable pub call_targets : (String → Bool) → Round → List String → Round
call_targets succeeds r [] = r
call_targets succeeds r (name ∷ rest) = call_targets succeeds (call_target succeeds r name) rest

unfoldable pub reset_all : List String → Dict ℕ → Dict ℕ
reset_all [] counts = counts
reset_all (name ∷ rest) counts =
    reset_all rest (if is_some (get name counts) then put name 0 counts else counts)

unfoldable pub remove_all : {V : Type 0} → List String → Dict V → Dict V
remove_all [] d = d
remove_all (name ∷ rest) d = remove_all rest (remove name d)

module _ {E C : Type 0} where
  abbrev pub new : ℕ → Emitter E C
  new maxlen = record {
    maxlen = maxlen;
    buffer = [];
    subscribers = [];
    fail_counts = [];
    dropped = 0;
  }

  -- the first critical section of `emit`; a full deque drops its oldest entry
  unfoldable pub buffer_event : Emitter E C → E → Emitter E C
  buffer_event m event = record m {
    dropped = if eqb (length m.buffer) m.maxlen then m.dropped + 1 else m.dropped;
    buffer = last_n m.maxlen (m.buffer ++ event ∷ []);
  }

  -- the last critical section of `emit`
  unfoldable pub settle_round : Emitter E C → Round → Emitter E C
  unfolding reset_all remove_all
  settle_round m r = record m {
    fail_counts = remove_all r.removals (reset_all r.resets r.fail_counts);
    subscribers = remove_all r.removals m.subscribers;
  }

  -- BufferedEmitter.emit
  unfoldable pub emit : (String → Bool) → Emitter E C → E → Emitter E C
  unfolding buffer_event call_targets settle_round
  emit succeeds m event =
      let m' = buffer_event m event in
      let start : Round = record { fail_counts = m'.fail_counts; resets = []; removals = [] } in
      settle_round m' (call_targets succeeds start (names m'.subscribers))

  unfoldable pub subscribe : Emitter E C → String → C → Emitter E C
  subscribe m name callback = record m {
    subscribers = put name callback m.subscribers;
    fail_counts = put name 0 m.fail_counts;
  }

  unfoldable pub unsubscribe : Emitter E C → String → Emitter E C
  unsubscribe m name = record m {
    subscribers = remove name m.subscribers;
    fail_counts = remove name m.fail_counts;
  }

  -- BufferedEmitter.drain
  unfoldable pub drain : Emitter E C → ℕ → Emitter E C × List E
  drain m n =
      let count = min n (length m.buffer) in
      (record m { buffer = drop count m.buffer }, take count m.buffer)
