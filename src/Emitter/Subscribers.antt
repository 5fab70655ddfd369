-- ===== src/Emitter/Subscribers.antt =====
-- Which subscribers an emission keeps.
use veronica.Prelude.{
  ◌+◌, ◌≡◌, ◌∙◌, refl, inl, inr, String, Bool, true, false, ◌==◌, eq_iff, List, [], ◌∷◌, All,
  All-append, Bool-cases, leb, arith,
}
use veronica.Prelude.Dict.{Dict, get, remove, get-remove}
use veronica.Types.{or_default}
use veronica.Emitter.{
  Emitter, Round, names, call_target, call_targets, remove_all, settle_round, buffer_event, emit,
}

-- Every name that is up for removal is that of a callback that failed.
abbrev pub OnlyFailures : (String → Bool) → List String → Type 0
OnlyFailures succeeds = All (λ name. succeeds name ≡ false)

call_target-OnlyFailures :
    (succeeds : String → Bool) (r : Round) (name : String)
    → OnlyFailures succeeds r.removals
    → OnlyFailures succeeds (call_target succeeds r name).removals
call_target-OnlyFailures succeeds r name h = elim (Bool-cases (succeeds name)) [
  | inl fine ↦ rw fine h
  | inr failed ↦ elim (Bool-cases (leb 3 (or_default (get name r.fail_counts) 0 + 1))) [
    | inr few ↦ rw (failed, few) h
    | inl many ↦ rw (failed, many) (All-append _ r.removals (name ∷ []) h (failed, tt))
  ]
]

call_targets-OnlyFailures :
    (succeeds : String → Bool) (r : Round) (targets : List String)
    → OnlyFailures succeeds r.removals
    → OnlyFailures succeeds (call_targets succeeds r targets).removals
unfolding call_targets
call_targets-OnlyFailures succeeds r [] h = h
call_targets-OnlyFailures succeeds r (name ∷ rest) h =
    call_targets-OnlyFailures succeeds (call_target succeeds r name) rest
      (call_target-OnlyFailures succeeds r name h)

get-remove_all :
    {V : Type 0} (succeeds : String → Bool) (k : String) (removals : List String) (d : Dict V)
    → succeeds k ≡ true
    → OnlyFailures succeeds removals
    → get k (remove_all removals d) ≡ get k d
unfolding remove_all
get-remove_all succeeds k [] d fine h = refl
get-remove_all succeeds k (name ∷ rest) d fine h =
    let other : (name == k) ≡ false = ground (arith, eq_iff name k) in
    get-remove_all succeeds k rest (remove name d) fine h.1
    ∙ ground (arith, get-remove name k d, other)

module _ {E C : Type 0} where
  -- A subscriber whose callback returns stays subscribed, whatever the other callbacks do and
  -- however often it has failed before.
  pub emit-keeps :
      (succeeds : String → Bool) (m : Emitter E C) (event : E) (name : String)
      → succeeds name ≡ true
      → get name (emit succeeds m event).subscribers ≡ get name m.subscribers
  unfolding emit settle_round buffer_event
  emit-keeps succeeds m event name fine =
      get-remove_all succeeds name _ m.subscribers fine
        (call_targets-OnlyFailures succeeds _ (names m.subscribers) tt)
