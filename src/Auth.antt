-- ===== src/Auth.antt =====
-- src/veronica/api/auth.py: the key that a request must carry. The environment variables are read
-- anew for each request. hmac.compare_digest is the equality of the texts, whose encoding does not
-- fail; the time it takes is not modelled.
pub mod Admission
use Prim.Native.Char.{code}
use text.Mathlib.Text.{starts_with}
use veronica.Prelude.{
  ℕ, String, Bool, true, false, not, ◌&&◌, ◌||◌, ◌==◌, Option, none, some, List, [], ◌∷◌, any, eqb,
  if◌then◌else◌,
}
use veronica.Types.{or_default}

-- os.environ, of which VERONICA_API_KEY and VERONICA_AUTH_DISABLED are read
pub record Environ : Type 0 where
  pub api_key : Option String
  pub auth_disabled : Option String

-- A request's path and its X-Veronica-Key header.
pub record Request : Type 0 where
  pub path : String
  pub key : Option String

-- The request is passed on, or answered with a status code.
pub data Answer : Type 0 where
  passed : Answer
  refused : ℕ → Answer

abbrev pub exempt_exact : List String
exempt_exact = "/health" ∷ "/docs" ∷ "/openapi.json" ∷ "/redoc" ∷ []

abbrev pub exempt_prefixes : List String
exempt_prefixes = "/docs/" ∷ "/redoc/" ∷ "/ui/" ∷ []

-- path.rstrip("/")
unfoldable pub strip_slashes : String → String
strip_slashes String.[] = ""
strip_slashes (String.◌∷◌ c s) =
    let rest = strip_slashes s in if eqb (code c) b'/' && rest == "" then "" else String.◌∷◌ c rest

unfoldable pub is_exempt : String → Bool
unfolding strip_slashes
is_exempt path =
    let stripped = strip_slashes path in
    let normalized = if stripped == "" then "/" else stripped in
    any (λ e. e == normalized) exempt_exact
    || any (λ prefix. starts_with normalized prefix) exempt_prefixes

abbrev pub is_auth_disabled : Option String → Bool
is_auth_disabled none = false
is_auth_disabled (some s) = s == "1"

-- a request of a path that is not exempt: the answer, the flag `_warn_once_done` and whether a
-- warning was logged
abbrev pub check_key : Bool → Option String → Option String → Option String → Answer × Bool × Bool
check_key done none auth_disabled key =
    if is_auth_disabled auth_disabled then (passed, true, not done) else (refused 503, done, false)
check_key done (some configured_key) auth_disabled key =
    let provided = or_default key "" in
    if provided == "" || not (provided == configured_key)
    then (refused 401, done, false)
    else (passed, done, false)

unfoldable pub dispatch : Bool → Environ → Request → Answer × Bool × Bool
dispatch done env req =
    if is_exempt req.path
    then (passed, done, false)
    else check_key done env.api_key env.auth_disabled req.key
