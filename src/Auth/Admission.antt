-- ===== src/Auth/Admission.antt =====
-- Who is let in, whatever was asked before.
use Prim.Native.Char.{Char, char, code}
use Prim.Native.String.append.{cons, nil}
use Prim.Native.String
use text.Mathlib.Text.{starts_with}
use text.Mathlib.TextEquality.{Char-path}
use veronica.Prelude.{
  ℕ, zero, suc, ◌+◌, ◌≤◌, ◌≡◌, refl, sym, ap, subst, ◌∙◌, String, Bool, true, false, ◌==◌, eq_iff,
  ◌&&◌, ◌||◌, Option, none, some, List, [], ◌∷◌, any, eqb, Bool-cases, ◌⊎◌, inl, inr, ◌≢◌, arith,
  if◌then◌else◌,
}
use veronica.Auth.{
  Environ, Request, passed, exempt_exact, exempt_prefixes, strip_slashes, is_exempt, check_key,
  dispatch,
}

abbrev slash : Char
slash = char b'/' tt

unfoldable pub slashes : ℕ → String
slashes zero = ""
slashes (suc n) = String.◌∷◌ slash (slashes n)

-- The path is one of the four, or is below one of the three, but for slashes at its end.
pub IsOpen : String → Type 0
IsOpen path =
    (stem : String) × (n : ℕ) × (path ≡ String.◌++◌ stem (slashes n))
    × ((any (λ e. e == stem) exempt_exact ≡ true)
        ⊎ (any (λ prefix. starts_with stem prefix) exempt_prefixes ≡ true))

-- The slash that goes is one more at the end.
strip_slashes-cons :
    (gone : Bool) (c : Char) (s rest : String) (n : ℕ)
    → s ≡ String.◌++◌ rest (slashes n)
    → (gone ≡ true → (c ≡ slash) × (rest ≡ ""))
    → (m : ℕ) × (String.◌∷◌ c s ≡ String.◌++◌ (if gone then "" else String.◌∷◌ c rest) (slashes m))
unfolding slashes
strip_slashes-cons true c s rest n e h =
    let (hc, hr) = h refl in
    let tail : s ≡ slashes n =
      e ∙ ap (λ r. String.◌++◌ r (slashes n)) hr ∙ (λ i. nil (slashes n) i) in
    (suc n, (λ i. String.◌∷◌ (hc i) (tail i)) ∙ sym (λ i. nil (slashes (suc n)) i))
strip_slashes-cons false c s rest n e h =
    (n, ap (λ t. String.◌∷◌ c t) e ∙ sym (cons c rest (slashes n)))

strip_slashes-append : (s : String) → (n : ℕ) × (s ≡ String.◌++◌ (strip_slashes s) (slashes n))
unfolding strip_slashes slashes
strip_slashes-append String.[] = (0, refl)
strip_slashes-append (String.◌∷◌ c s) =
    let (n, e) = strip_slashes-append s in
    strip_slashes-cons (eqb (code c) b'/' && strip_slashes s == "") c s (strip_slashes s) n e
      (λ h. (Char-path c slash (ground arith), (eq_iff (strip_slashes s) "").0 (ground arith)))

-- The root is not exempt.
stem-exempt :
    (root : Bool) (stem : String)
    → (let normalized = if root then "/" else stem in
        (any (λ e. e == normalized) exempt_exact
          || any (λ prefix. starts_with normalized prefix) exempt_prefixes)
        ≡ true)
    → (any (λ e. e == stem) exempt_exact ≡ true)
      ⊎ (any (λ prefix. starts_with stem prefix) exempt_prefixes ≡ true)
stem-exempt true stem h = absurd (cc)
stem-exempt false stem h = elim (Bool-cases (any (λ e. e == stem) exempt_exact)) [
  | inl exact ↦ inl exact
  | inr other ↦
      inr
        (subst (λ b. (b || any (λ prefix. starts_with stem prefix) exempt_prefixes) ≡ true) other h)
]

is_exempt-IsOpen : (path : String) → is_exempt path ≡ true → IsOpen path
unfolding is_exempt IsOpen
is_exempt-IsOpen path h =
    let stem = strip_slashes path in
    let (n, e) = strip_slashes-append path in (stem, n, e, stem-exempt (stem == "") stem h)

-- The header has the configured key, which is not empty.
pub HasKey : Environ → Request → Type 0
HasKey env req = (k : String) × (env.api_key ≡ some k) × (req.key ≡ some k) × (k ≢ "")

-- No key is configured, and the authentication is switched off.
pub IsDisabled : Environ → Type 0
IsDisabled env = (env.api_key ≡ none) × (env.auth_disabled ≡ some "1")

check_key-passed :
    (done : Bool) (api_key auth_disabled key : Option String)
    → (check_key done api_key auth_disabled key).0 ≡ passed
    → ((k : String) × (api_key ≡ some k) × (key ≡ some k) × (k ≢ ""))
      ⊎ ((api_key ≡ none) × (auth_disabled ≡ some "1"))
check_key-passed done none none key h = absurd (ground (arith, h))
check_key-passed done none (some s) key h =
    inr (refl, ap some ((eq_iff s "1").0 (ground (arith, h))))
check_key-passed done (some k) auth_disabled none h = absurd (ground (arith, h))
check_key-passed done (some k) auth_disabled (some p) h =
    let same : p ≡ k = (eq_iff p k).0 (ground (arith, h)) in
    inl (k, refl, ap some same, λ e. absurd (ground (arith, h, (eq_iff p "").1 (same ∙ e))))

check_key-admits :
    (done : Bool) (env : Environ) (req : Request)
    → HasKey env req ⊎ IsDisabled env
    → (check_key done env.api_key env.auth_disabled req.key).0 ≡ passed
unfolding HasKey IsDisabled
check_key-admits done env req (inl (k, configured, given, nonempty)) = elim (Bool-cases (k == "")) [
  | inl empty ↦ absurd (nonempty ((eq_iff k "").0 empty))
  | inr filled ↦ ground (arith, configured, given, filled, (eq_iff k k).1 refl)
]
check_key-admits done env req (inr (unset, off)) =
    ground (arith, unset, off, (eq_iff "1" "1").1 refl)

-- A request of a path that is not exempt is admitted by its key alone.
dispatch-check_key :
    (done : Bool) (env : Environ) (req : Request)
    → is_exempt req.path ≡ false
    → dispatch done env req ≡ check_key done env.api_key env.auth_disabled req.key
unfolding dispatch
dispatch-check_key done env req other =
    ap
      (λ b.
        if b then (passed, done, false) else check_key done env.api_key env.auth_disabled req.key)
      other

dispatch-exempt :
    (done : Bool) (env : Environ) (req : Request)
    → is_exempt req.path ≡ true
    → dispatch done env req ≡ (passed, done, false)
unfolding dispatch
dispatch-exempt done env req exempt =
    ap
      (λ b.
        if b then (passed, done, false) else check_key done env.api_key env.auth_disabled req.key)
      exempt

dispatch-passed :
    (done : Bool) (env : Environ) (req : Request)
    → (dispatch done env req).0 ≡ passed
    → IsOpen req.path ⊎ (HasKey env req ⊎ IsDisabled env)
unfolding HasKey IsDisabled
dispatch-passed done env req h = elim (Bool-cases (is_exempt req.path)) [
  | inl exempt ↦ inl (is_exempt-IsOpen req.path exempt)
  | inr other ↦ inr (
      check_key-passed done env.api_key env.auth_disabled req.key
        (ap (λ r. r.0) (sym (dispatch-check_key done env req other)) ∙ h))
]

dispatch-admits :
    (done : Bool) (env : Environ) (req : Request)
    → (is_exempt req.path ≡ true) ⊎ (HasKey env req ⊎ IsDisabled env)
    → (dispatch done env req).0 ≡ passed
dispatch-admits done env req (inl exempt) = ap (λ r. r.0) (dispatch-exempt done env req exempt)
dispatch-admits done env req (inr admitted) = elim (Bool-cases (is_exempt req.path)) [
  | inl exempt ↦ ap (λ r. r.0) (dispatch-exempt done env req exempt)
  | inr other ↦
      ap (λ r. r.0) (dispatch-check_key done env req other) ∙ check_key-admits done env req admitted
]

-- A run of the middleware: the flag after it and the warnings that were logged.
unfoldable pub serve : Bool → List (Environ × Request) → Bool × ℕ
serve done [] = (done, 0)
serve done ((env, req) ∷ calls) =
    let (answer, after, logged) = dispatch done env req in
    let (last, warnings) = serve after calls in (last, (if logged then 1 else 0) + warnings)

check_key-warns :
    (done : Bool) (api_key auth_disabled key : Option String)
    → let (answer, after, logged) = check_key done api_key auth_disabled key in
      (if done then 1 else 0) + (if logged then 1 else 0) ≡ (if after then 1 else 0)
check_key-warns done api_key auth_disabled key = ground arith

dispatch-warns :
    (done : Bool) (env : Environ) (req : Request)
    → let (answer, after, logged) = dispatch done env req in
      (if done then 1 else 0) + (if logged then 1 else 0) ≡ (if after then 1 else 0)
dispatch-warns done env req = elim (Bool-cases (is_exempt req.path)) [
  | inl exempt ↦ ground (arith, dispatch-exempt done env req exempt)
  | inr other ↦ ground (
    arith,
    dispatch-check_key done env req other,
    check_key-warns done env.api_key env.auth_disabled req.key,
  )
]

serve-warns :
    (done : Bool) (calls : List (Environ × Request))
    → let (last, warnings) = serve done calls in
      (if done then 1 else 0) + warnings ≡ (if last then 1 else 0)
unfolding serve
serve-warns done [] = ground arith
serve-warns done ((env, req) ∷ calls) =
    omega (arith, dispatch-warns done env req, serve-warns (dispatch done env req).1 calls)

-- After any requests, whatever the environments they met, a request that is passed on has an open
-- path or the configured key, which is not empty, or no key is configured and the authentication is
-- switched off; with the key, or where it is switched off, or on an exempt path every request is
-- passed on; and at most one warning has been logged.
pub serve_admits :
    (calls : List (Environ × Request)) (env : Environ) (req : Request)
    → let (done, warnings) = serve false calls in
      ((dispatch done env req).0 ≡ passed → IsOpen req.path ⊎ (HasKey env req ⊎ IsDisabled env))
      × ((is_exempt req.path ≡ true) ⊎ (HasKey env req ⊎ IsDisabled env)
          → (dispatch done env req).0 ≡ passed)
      × (warnings ≤ 1)
serve_admits calls env req =
    let (done, warnings) = serve false calls in
    let counted = serve-warns false calls in
    (dispatch-passed done env req, dispatch-admits done env req, ground (arith, counted))
