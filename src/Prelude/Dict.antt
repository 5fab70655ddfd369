-- ===== src/Prelude/Dict.antt =====
-- Python's `dict` with string keys as an association list in insertion order. Assigning to a key
-- that is present keeps its place, and a new key goes to the end, as in CPython.
use Prim.Native.Nat.{◌+◌}
use Prim.Native.String.{String}
use mathlib.Core.Path.{◌≡◌, refl}
use mathlib.Core.Option.{Option, none, some}
use mathlib.Core.List.{List, [], ◌∷◌}
use native.Mathlib.Omega.{arith}
use text.Mathlib.Text.{◌==◌}
use text.Mathlib.TextEquality.{eq_iff}
use veronica.Prelude.Tests.{is_some, if◌then◌else◌}
use veronica.Prelude.Lists.{length, All}

abbrev pub Dict {ℓ} : Type ℓ → Type ℓ
Dict V = List (String × V)

module _ {ℓ} {V : Type ℓ} where
  -- `d.get(k)`
  unfoldable pub get : String → Dict V → Option V
  get k [] = none
  get k ((j, v) ∷ d) = if j == k then some v else get k d

  -- `d[k] = v`
  unfoldable pub put : String → V → Dict V → Dict V
  put k v [] = (k, v) ∷ []
  put k v ((j, w) ∷ d) = if j == k then (j, v) ∷ d else (j, w) ∷ put k v d

  -- `d.pop(k, None)`
  unfoldable pub remove : String → Dict V → Dict V
  remove k [] = []
  remove k ((j, v) ∷ d) = let rest = remove k d in if j == k then rest else (j, v) ∷ rest

  -- `d.values()`
  abbrev pub values : Dict V → List V
  values [] = []
  values ((j, v) ∷ d) = v ∷ values d

  pub get-put :
      (k j : String) (v : V) (d : Dict V) → get j (put k v d) ≡ (if k == j then some v else get j d)
  unfolding get put
  get-put k j v [] = refl
  get-put k j v ((i, w) ∷ d) = ground (arith, eq_iff k j, eq_iff i k, eq_iff i j, get-put k j v d)

  pub get-remove :
      (k j : String) (d : Dict V) → get j (remove k d) ≡ (if k == j then none else get j d)
  unfolding get remove
  get-remove k j [] = ground arith
  get-remove k j ((i, w) ∷ d) = ground (arith, eq_iff k j, eq_iff i k, eq_iff i j, get-remove k j d)

  pub get-put_self : (k : String) (v : V) (d : Dict V) → get k (put k v d) ≡ some v
  get-put_self k v d = ground (arith, get-put k k v d, eq_iff k k)

  -- A new key adds one entry, a known one none.
  pub length-put :
      (k : String) (v : V) (d : Dict V)
      → length (put k v d) ≡ (if is_some (get k d) then length d else length d + 1)
  unfolding get put
  length-put k v [] = omega arith
  length-put k v ((i, w) ∷ d) = ground (arith, length-put k v d)

  -- What holds of every stored value holds of the one that is read.
  pub All-get {κ} :
      (P : V → Type κ) (k : String) (d : Dict V) (v : V) → All P (values d) → get k d ≡ some v → P v
  unfolding get
  All-get P k [] v a e = cc
  All-get P k ((i, w) ∷ d) v a e = ground (arith, All-get P k d v a.1)

  pub All-put {κ} :
      (P : V → Type κ) (k : String) (v : V) (d : Dict V)
      → P v
      → All P (values d)
      → All P (values (put k v d))
  unfolding put
  All-put P k v [] p a = (p, tt)
  All-put P k v ((i, w) ∷ d) p a = ground (arith, All-put P k v d p a.1)

  pub All-remove {κ} :
      (P : V → Type κ) (k : String) (d : Dict V) → All P (values d) → All P (values (remove k d))
  unfolding remove
  All-remove P k [] a = tt
  All-remove P k ((i, w) ∷ d) a = ground (arith, All-remove P k d a.1)
