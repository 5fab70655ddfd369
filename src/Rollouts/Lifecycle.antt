-- ===== src/Rollouts/Lifecycle.antt =====
-- The transitions as a relation, and the path that a rollout's history records.
use veronica.Prelude.{
  ℕ, ◌<◌, ◌≤◌, ◌≡◌, refl, ◌≢◌, ◌↔◌, ◌⊎◌, inl, inr, Bool, true, List, [], ◌∷◌, ◌++◌, any, ◌||◌, ◌+◌,
  ap, sym, arith,
}
use veronica.Rollouts.{
  RolloutState, draft, simulated, approved, promoted, active, revoked, StateTransition, same_state,
  allowed,
}

Nat-cases : (a b : ℕ) → (a < b) ⊎ (b ≤ a)
Nat-cases a b = ground arith

or_true : (b : Bool) → (b || true) ≡ true
or_true b = ground arith

-- The lifecycle as the documentation states it: forward through the gates one at a time, one step
-- back from some, and revocation from every state but REVOKED.
pub data Step : RolloutState → RolloutState → Type 0 where
  simulates : Step draft simulated
  approves : Step simulated approved
  promotes : Step approved promoted
  activates : Step promoted active
  redrafts : Step simulated draft
  reworks : Step approved draft
  demotes : Step promoted approved
  revokes : {s : RolloutState} → s ≢ revoked → Step s revoked

Step-allowed : {s t : RolloutState} → Step s t → allowed s t ≡ true
Step-allowed simulates = refl
Step-allowed approves = refl
Step-allowed promotes = refl
Step-allowed activates = refl
Step-allowed redrafts = refl
Step-allowed reworks = refl
Step-allowed demotes = refl
Step-allowed (revokes {s = s} h) = ground arith

allowed-Step : (s t : RolloutState) → allowed s t ≡ true → Step s t
allowed-Step draft simulated h = simulates
allowed-Step simulated approved h = approves
allowed-Step approved promoted h = promotes
allowed-Step promoted active h = activates
allowed-Step simulated draft h = redrafts
allowed-Step approved draft h = reworks
allowed-Step promoted approved h = demotes
allowed-Step draft revoked h = revokes (λ e. cc)
allowed-Step simulated revoked h = revokes (λ e. cc)
allowed-Step approved revoked h = revokes (λ e. cc)
allowed-Step promoted revoked h = revokes (λ e. cc)
allowed-Step active revoked h = revokes (λ e. cc)
allowed-Step _ _ h = cc

-- The table of transitions allows exactly the steps of the lifecycle.
pub allowed-iff-Step : (s t : RolloutState) → (allowed s t ≡ true) ↔ Step s t
allowed-iff-Step s t = (allowed-Step s t, Step-allowed)

Step-revoked : {s t : RolloutState} → Step s t → s ≡ revoked → ⊥
Step-revoked simulates e = cc
Step-revoked approves e = cc
Step-revoked promotes e = cc
Step-revoked activates e = cc
Step-revoked redrafts e = cc
Step-revoked reworks e = cc
Step-revoked demotes e = cc
Step-revoked (revokes h) e = h e

-- A history that leads from one state to another, each entry starting where the last one ended.
abbrev pub IsPath : RolloutState → List StateTransition → RolloutState → Type 0
IsPath s [] t = s ≡ t
IsPath s (x ∷ xs) t = (x.from_state ≡ s) × Step s x.to_state × IsPath x.to_state xs t

pub IsPath-append :
    (s t : RolloutState) (xs : List StateTransition) (x : StateTransition)
    → IsPath s xs t
    → x.from_state ≡ t
    → Step t x.to_state
    → IsPath s (xs ++ x ∷ []) x.to_state
IsPath-append s t [] x p e st = (cc, rw p st, refl)
IsPath-append s t (y ∷ ys) x p e st = (p.0, p.1, IsPath-append y.to_state t ys x p.2 e st)

-- the history enters the state
abbrev pub enters : RolloutState → List StateTransition → Bool
enters s xs = any (λ x. same_state x.to_state s) xs

-- How many gates lie behind a state.
gates : RolloutState → ℕ
gates draft = 0
gates simulated = 1
gates approved = 2
gates promoted = 3
gates active = 4
gates revoked = 0

Step-gates : {s t : RolloutState} → Step s t → gates t ≤ gates s + 1
unfolding gates
Step-gates simulates = omega arith
Step-gates approves = omega arith
Step-gates promotes = omega arith
Step-gates activates = omega arith
Step-gates redrafts = omega arith
Step-gates reworks = omega arith
Step-gates demotes = omega arith
Step-gates (revokes h) = omega arith

same_gates : (s t : RolloutState) → gates s ≡ gates t → 0 < gates t → same_state s t ≡ true
unfolding gates
same_gates s t e h = ground arith

-- No gate is skipped: a path that ends beyond a gate and starts before it enters the gate's state.
IsPath-enters :
    (s t g : RolloutState) (xs : List StateTransition)
    → IsPath s xs t
    → gates s < gates g
    → gates g ≤ gates t
    → enters g xs ≡ true
IsPath-enters s t g [] p h k = absurd (omega (arith, ap gates p))
IsPath-enters s t g (x ∷ xs) (e, st, p) h k = elim (Nat-cases (gates x.to_state) (gates g)) [
  | inl below ↦ rw (IsPath-enters x.to_state t g xs p below k) (or_true _)
  | inr above ↦ rw (same_gates x.to_state g (omega (arith, Step-gates st)) (omega arith))
]

-- Every history that has led from DRAFT to ACTIVE has been simulated, approved and promoted.
pub IsPath-active :
    (xs : List StateTransition)
    → IsPath draft xs active
    → (enters simulated xs ≡ true) × (enters approved xs ≡ true) × (enters promoted xs ≡ true)
IsPath-active xs p = (
  IsPath-enters draft active simulated xs p (unfold gates in omega arith)
      (unfold gates in omega arith),
  IsPath-enters draft active approved xs p (unfold gates in omega arith)
      (unfold gates in omega arith),
  IsPath-enters draft active promoted xs p (unfold gates in omega arith)
      (unfold gates in omega arith),
)

-- REVOKED is terminal.
pub IsPath-revoked :
    (xs : List StateTransition) (t : RolloutState) → IsPath revoked xs t → (xs ≡ []) × (t ≡ revoked)
IsPath-revoked [] t p = (refl, sym p)
IsPath-revoked (x ∷ xs) t (e, st, p) = absurd (Step-revoked st refl)
