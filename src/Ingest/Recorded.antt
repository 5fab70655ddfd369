-- ===== src/Ingest/Recorded.antt =====
-- What a converted event is: its texts are clean, and it is read back from its dictionary.
use Prim.Native.Char.{Char}
use Prim.Native.String.{count}
use Prim.Native.String.count
use veronica.Prelude.{
  ℕ, zero, suc, ◌≤◌, ◌≡◌, refl, subst, String, Bool, true, Option, Bool-cases, inl, inr, arith,
}
use veronica.Prelude.Int.{ℤ, pos, ◌+ℤ◌, ◌≤ℤ◌, int_laws}
use veronica.Prelude.Result.{Result, ok, err, ◌>>=◌}
use veronica.Float.{Float, FloatLaws}
use veronica.Types.{or_default}
use veronica.Prelude.Dict.{get}
use veronica.Values.{int, Value, Conversions}
use veronica.Events.{Event, valid_decision, IsRecordable, from_dict, to_dict, from_dict-to_dict}
use veronica.Ingest.Conversion.{
  Decision, SafetyEvent, map_decision, is_safe_char, take_text, sanitize, clean, all_chars,
  nonnegative, allow, halt, degrade, retry, quarantine, queue, unmapped, underscore, natural,
  converted, convert_event,
}

-- A text of at most 256 characters, all of them safe.
abbrev pub IsClean : String → Type 0
IsClean s = (all_chars is_safe_char s ≡ true) × (count s ≤ 256)

count-take_text : (n : ℕ) (s : String) → count (take_text n s) ≤ n
unfolding take_text
count-take_text zero s = omega arith
count-take_text (suc n) String.[] = omega arith
count-take_text (suc n) (String.◌∷◌ c s) =
    omega (arith, count.cons c (take_text n s), count-take_text n s)

all_chars-take_text :
    (p : Char → Bool) (n : ℕ) (s : String)
    → all_chars p s ≡ true
    → all_chars p (take_text n s) ≡ true
unfolding take_text all_chars
all_chars-take_text p zero s h = refl
all_chars-take_text p (suc n) String.[] h = refl
all_chars-take_text p (suc n) (String.◌∷◌ c s) h = ground (arith, all_chars-take_text p n s)

underscore-safe : is_safe_char underscore ≡ true
unfolding is_safe_char
underscore-safe = refl

all_chars-sanitize : (s : String) → all_chars is_safe_char (sanitize s) ≡ true
unfolding sanitize all_chars
all_chars-sanitize String.[] = refl
all_chars-sanitize (String.◌∷◌ c s) = elim (Bool-cases (is_safe_char c)) [
  | inl safe ↦ rw (safe, all_chars-sanitize s) (rw safe refl)
  | inr replaced ↦ rw (replaced, all_chars-sanitize s, underscore-safe) refl
]

clean-IsClean : (s : String) → IsClean (clean s)
clean-IsClean s = (
  all_chars-take_text is_safe_char 256 (sanitize s) (all_chars-sanitize s),
  count-take_text 256 (sanitize s),
)

map_decision-valid : (d : Decision) → valid_decision (map_decision d) ≡ true
map_decision-valid allow = refl
map_decision-valid halt = refl
map_decision-valid degrade = refl
map_decision-valid retry = refl
map_decision-valid quarantine = refl
map_decision-valid queue = refl
map_decision-valid unmapped = refl

-- Four results that are read one after another.
all_read :
    {A B C D E : Type 0} (a : Result A) (b : Result B) (c : Result C) (d : Result D)
    → (f : A → B → C → D → E) (e : E) → (do x ← a; y ← b; z ← c; w ← d; ok (f x y z w)) ≡ ok e
    → (x : A) × (y : B) × (z : C) × (w : D) × (b ≡ ok y) × (c ≡ ok z) × (f x y z w ≡ e)
all_read (ok x) (ok y) (ok z) (ok w) f e h = (x, y, z, w, refl, refl, ground (arith, h))
all_read (err x) b c d f e h = absurd (ground (arith, h))
all_read (ok x) (err y) c d f e h = absurd (ground (arith, h))
all_read (ok x) (ok y) (err z) d f e h = absurd (ground (arith, h))
all_read (ok x) (ok y) (ok z) (err w) f e h = absurd (ground (arith, h))

sum_nonneg : (n m : ℤ) → pos 0 ≤ℤ n → pos 0 ≤ℤ m → pos 0 ≤ℤ n +ℤ m
sum_nonneg n m h k = omega int_laws

module _ {F : Type 0} ⦃fl : Float F⦄ ⦃laws : FloatLaws F⦄ where
  nonnegative-finite : (x : F) → fl.is_finite (nonnegative x) ≡ true
  nonnegative-finite x = ground (arith, laws.dec_finite 0 0)

module _ {F : Type 0} ⦃fl : Float F⦄ ⦃laws : FloatLaws F⦄ ⦃conv : Conversions F⦄
    (truthy_other : Bool) where
  natural-nonneg : (v : Value F) (n : ℤ) → natural truthy_other v ≡ ok n → pos 0 ≤ℤ n
  natural-nonneg v n h = ground arith

  -- the event that is returned, from the numbers that were read
  convert_event-converted :
      (sha256 : String → String) (operation_name : Option String) (now : F) (step audit : String)
      → (event : SafetyEvent F) (e : Event F)
      → convert_event truthy_other sha256 operation_name now step audit event ≡ ok e
      → (raw_cost : F) × (n : ℤ) × (m : ℤ) × (raw_dur : F) × (pos 0 ≤ℤ n)
        × (pos 0 ≤ℤ m)
        × (converted sha256 operation_name now step audit event raw_cost n m raw_dur ≡ e)
  unfolding convert_event
  convert_event-converted sha256 operation_name now step audit event e h =
      let meta = event.metadata in
      let first =
        or_default (get "tokens" meta) (or_default (get "tokens_in" meta) (int (pos 0))) in
      let second = or_default (get "tokens_out" meta) (int (pos 0)) in
      let (raw_cost, n, m, raw_dur, read, read', same) =
        all_read _ (natural truthy_other first) (natural truthy_other second) _
          (converted sha256 operation_name now step audit event) e h in
      (raw_cost, n, m, raw_dur, natural-nonneg first n read, natural-nonneg second m read', same)

  -- A converted event, whose time is finite, has a clean step identifier, chain identifier and
  -- operation name, and is read back from its dictionary as it was written.
  pub convert_event-recorded :
      (sha256 : String → String) (operation_name : Option String) (now : F) (step audit : String)
      → (event : SafetyEvent F) (e : Event F) (later : F)
      → convert_event truthy_other sha256 operation_name now step audit event ≡ ok e
      → fl.is_finite (or_default event.ts now) ≡ true
      → IsClean e.step_id
        × IsClean e.chain_id
        × IsClean e.operation_name
        × (from_dict later (to_dict e) ≡ ok e)
  convert_event-recorded sha256 operation_name now step audit event e later h finite =
      let (raw_cost, n, m, raw_dur, low, low', same) =
        convert_event-converted sha256 operation_name now step audit event e h in
      let c = converted sha256 operation_name now step audit event raw_cost n m raw_dur in
      let recordable : IsRecordable c = record {
        decision = map_decision-valid event.decision;
        cost = nonnegative-finite raw_cost;
        duration = nonnegative-finite raw_dur;
        timestamp = finite;
        tokens = sum_nonneg n m low low';
      } in
      subst
        (λ (x : Event F).
          IsClean x.step_id
          × IsClean x.chain_id
          × IsClean x.operation_name
          × (from_dict later (to_dict x) ≡ ok x))
        same
        (clean-IsClean _, clean-IsClean _, clean-IsClean _, from_dict-to_dict c later recordable)
