-- ===== src/Distributor.antt =====
-- src/veronica/distribution/policy_distributor.py: policies are validated, numbered, hashed and
-- signed. The clock is an argument of each call. `json.dumps` with SHA-256 is the argument
-- `digest`, and HMAC-SHA256 the argument `hmac`.
pub mod Versions
pub mod Validation
pub mod Checks
use Prim.Native.String.{count}
use veronica.Prelude.{
  ℕ, suc, ◌+◌, String, Bool, true, false, not, ◌&&◌, ◌||◌, ◌==◌, Option, none, some, List, [], ◌∷◌,
  ◌++◌, any, ltb, is_some, if◌then◌else◌,
}
use veronica.Prelude.Int.{ℤ, pos, ltb_ℤ}
use veronica.Prelude.Result.{
  Result, ok, err, Exn, value_error, policy_validation, raise_if, ◌>>=◌, ◌>>◌,
}
use veronica.Float.{Float}
use veronica.Types.{
  Number, PolicyConfig, ExecutionConfig, to_exec_config, check_finite, number_negative,
  is_proper_int,
}
use veronica.PolicyAudit.{Json, compute_policy_hash}

pub record Distributor : Type 0 where
  pub strict : Bool
  pub version : ℕ
  pub signing_key : Option String

pub record PolicyBundle (F : Type 0) : Type 0 where
  pub policy : PolicyConfig F
  pub exec_config : ExecutionConfig F
  pub policy_hash : String
  pub distributed_at : F
  pub version : ℕ
  pub policy_signature : Option String

-- A policy of `distribute_many`, the version numbers that other calls draw before its own, since the
-- lock is taken anew for each, and the clock's value then.
pub record Turn (F : Type 0) : Type 0 where
  pub policy : PolicyConfig F
  pub drawn : ℕ
  pub now : F

-- PolicyDistributor.__init__, with the value of VERONICA_POLICY_SIGNING_KEY
unfoldable pub new : Bool → String → Result Distributor
new strict key =
    if not (key == "") && ltb (count key) 32
    then err policy_validation
    else ok (record {
      strict = strict;
      version = 0;
      signing_key = if key == "" then none else some key;
    })

-- `x in {"halt", "degrade", "queue"}`
abbrev pub allowed_on_exceed : String → Bool
allowed_on_exceed s = any (λ t. s == t) ("halt" ∷ "degrade" ∷ "queue" ∷ [])

abbrev pub holds {ℓ} : {A : Type ℓ} → (A → Bool) → Option A → Bool
holds p none = false
holds p (some a) = p a

module _ {F : Type 0} ⦃fl : Float F⦄ where
  -- a limit that is given is finite
  abbrev pub check_given : Option (Number F) → Result (Unit {0})
  check_given none = ok tt
  check_given (some n) = check_finite n policy_validation

  -- PolicyDistributor.validate
  unfoldable pub validate : Distributor → PolicyConfig F → Result (Unit {0})
  validate d p = do
    raise_if (not (fl.is_finite p.ceiling_usd)) policy_validation
    raise_if (fl.lt p.ceiling_usd (fl.dec 0 0)) policy_validation
    raise_if (not (allowed_on_exceed p.on_exceed)) policy_validation
    raise_if (holds (λ n. ltb_ℤ n (pos 0)) p.ceiling_steps) policy_validation
    check_given p.ceiling_tokens_out
    raise_if (holds number_negative p.ceiling_tokens_out) policy_validation
    check_given p.timeout_ms
    raise_if (holds number_negative p.timeout_ms) policy_validation
    raise_if (not (is_proper_int p.priority)) policy_validation
    raise_if
        (d.strict
          && (not (is_some p.ceiling_steps)
              || not (is_some p.ceiling_tokens_out)
              || not (is_some p.timeout_ms)))
        policy_validation

-- verify_signature, with `hmac.compare_digest` as equality
unfoldable pub verify_signature :
    {F : Type 0} → (String → String → String) → PolicyBundle F → String → Result Bool
verify_signature hmac bundle key = elim bundle.policy_signature [
  | none ↦ err value_error
  | some signature ↦ ok (signature == hmac key bundle.policy_hash)
]

module _ {F : Type 0} where
  -- what the loop makes of a policy: the bundle is kept, PolicyValidationError is noted, and any
  -- other exception ends the loop
  abbrev pub collect :
      Distributor
      → Result (PolicyBundle F)
      → Distributor × Result (Bool × List (PolicyBundle F))
      → Distributor × Result (Bool × List (PolicyBundle F))
  collect d (ok b) (d', ok (failed, bundles)) = (d', ok (failed, b ∷ bundles))
  collect d (ok b) (d', err e) = (d', err e)
  collect d (err policy_validation) (d', ok (failed, bundles)) = (d', ok (true, bundles))
  collect d (err policy_validation) (d', err e) = (d', err e)
  collect d (err e) rest = (d, err e)

  abbrev pub result_of :
      Distributor × Result (Bool × List (PolicyBundle F))
      → Distributor × Result (List (PolicyBundle F))
  result_of (d, ok (true, bundles)) = (d, err policy_validation)
  result_of (d, ok (false, bundles)) = (d, ok bundles)
  result_of (d, err e) = (d, err e)

module _ {F : Type 0} ⦃fl : Float F⦄ (digest : List (String × Json F) → String)
    (hmac : String → String → String) where
  sign : Distributor → String → Option String
  sign d policy_hash = elim d.signing_key [ none ↦ none | some key ↦ some (hmac key policy_hash) ]

  -- the part of `distribute` after `validate`
  issue : Distributor → PolicyConfig F → F → ExecutionConfig F → Distributor × PolicyBundle F
  unfolding sign
  issue d p now config =
      let policy_hash = compute_policy_hash digest p in
      let version = d.version + 1 in
      (
        record d { version = version },
        record {
          policy = p;
          exec_config = config;
          policy_hash = policy_hash;
          distributed_at = now;
          version = version;
          policy_signature = sign d policy_hash;
        },
      )

  -- PolicyDistributor.distribute
  unfoldable pub distribute :
      Distributor → PolicyConfig F → F → Distributor × Result (PolicyBundle F)
  unfolding issue
  distribute d p now = elim (validate d p >> to_exec_config p) [
    | err e ↦ (d, err e)
    | ok config ↦ let (d', bundle) = issue d p now config in (d', ok bundle)
  ]

  -- the loop of `distribute_many`: whether a policy failed, and the bundles of the others
  unfoldable pub distribute_each :
      Distributor → List (Turn F) → Distributor × Result (Bool × List (PolicyBundle F))
  distribute_each d [] = (d, ok (false, []))
  distribute_each d (t ∷ turns) =
      let drawn = record d { version = d.version + t.drawn } in
      let (d', r) = distribute drawn t.policy t.now in collect d' r (distribute_each d' turns)

  -- PolicyDistributor.distribute_many
  unfoldable pub distribute_many :
      Distributor → List (Turn F) → Distributor × Result (List (PolicyBundle F))
  unfolding distribute_each
  distribute_many d turns = result_of (distribute_each d turns)
