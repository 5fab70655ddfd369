-- ===== src/Examples/Rollouts.antt =====
-- Examples for the rollout lifecycle and its endpoints.
use veronica.Prelude.{
  ℕ, zero, suc, ◌≡◌, refl, true, String, Option, none, some, List, [], ◌∷◌, length,
}
use veronica.Prelude.Result.{ok, err, http_409}
use veronica.Prelude.Dict.{get, put}
use veronica.Float.Sample.{Micro, micro, micro_float}
use veronica.Distributor.{PolicyBundle, distribute, validate}
use veronica.Types.{to_exec_config}
use veronica.PolicyAudit.{compute_policy_hash}
use veronica.PolicyRegistry.{get_policy, register}
use veronica.Rollouts.{
  Rollout, Registry, RolloutState, draft, simulated, approved, promoted, active, StateTransition,
  new_rollout, create, transition_rollout, transition, check_result, simulate,
}
use veronica.Rollouts.Lifecycle.{enters}
use veronica.Rollouts.History.{AllWellFormed}
use veronica.Rollouts.Runs.{
  Call, creates, transitions, simulates, step, run, run-AllWellFormed, run-active-gates,
}
use veronica.RolloutApi.{App, SimResult, do_transition, activate_rollout}
use veronica.RolloutApi.Gates.{activate_rollout-bypass, activate_rollout-ok}
use veronica.RolloutApi.Launch.{launch, launch-live}
use veronica.Prelude.{arith}
use veronica.Examples.Data.{policy_a, policy_a-IsAdmissible, signing, digest, hmac}

-- the length of the text of a result
abbrev size : String → Option ℕ
size result = some 10

abbrev lifecycle : List (Call Micro String)
lifecycle =
    creates policy_a "alice" "r1" 0
    ∷ simulates "r1" "fine" "system" 1
    ∷ transitions "r1" approved "bob" 2
    ∷ transitions "r1" promoted "bob" 3
    ∷ transitions "r1" active "bob" 4
    ∷ []

abbrev entry : RolloutState → RolloutState → ℕ → String → StateTransition
entry from to time actor = record {
  from_state = from;
  to_state = to;
  timestamp = time;
  actor = actor;
}

abbrev active_rollout : Rollout Micro String
active_rollout = record {
  id = "r1";
  policy_config = policy_a;
  state = active;
  created_at = 0;
  updated_at = 4;
  created_by = "alice";
  history =
      entry draft simulated 1 "system"
      ∷ entry simulated approved 2 "bob"
      ∷ entry approved promoted 3 "bob"
      ∷ entry promoted active 4 "bob"
      ∷ [];
  simulation_result = some "fine";
}

lifecycle-run : get "r1" (run size [] lifecycle) ≡ some active_rollout
unfolding run step create new_rollout get put transition transition_rollout simulate check_result
lifecycle-run = refl

run-active-gates_example :
    (enters simulated active_rollout.history ≡ true)
    × (enters approved active_rollout.history ≡ true)
    × (enters promoted active_rollout.history ≡ true)
run-active-gates_example = run-active-gates size lifecycle "r1" active_rollout lifecycle-run refl

run-AllWellFormed_example : AllWellFormed (run size [] lifecycle)
run-AllWellFormed_example = run-AllWellFormed size [] lifecycle tt

-- 500 rounds of simulation and rollback
rounds : ℕ → List StateTransition
rounds zero = []
rounds (suc n) = entry draft simulated 1 "a" ∷ entry simulated draft 1 "a" ∷ rounds n

abbrev worn_out : Rollout Micro String
worn_out = record active_rollout { state = draft; history = rounds 500; simulation_result = none }

worn_out_registry : Registry Micro String
worn_out_registry = ("r1", worn_out) ∷ []

worn_out_found : get "r1" worn_out_registry ≡ some worn_out
unfolding get worn_out_registry
worn_out_found = refl

length-rounds : length (rounds 500) ≡ 1000
unfolding rounds
length-rounds = refl

abbrev fresh : Rollout Micro (SimResult Micro)
fresh = record {
  id = "r1";
  policy_config = policy_a;
  state = draft;
  created_at = 0;
  updated_at = 0;
  created_by = "alice";
  history = [];
  simulation_result = none;
}

abbrev app_with : Rollout Micro (SimResult Micro) → App Micro
app_with r = record {
  policies = record { distributor = signing; store = [] };
  rollouts = ("r1", r) ∷ [];
}

app_found : (r : Rollout Micro (SimResult Micro)) → get "r1" (app_with r).rollouts ≡ some r
unfolding get
app_found r = refl

-- The policy of a draft that nobody has simulated or approved goes live.
activate_rollout-bypass_example :
    let (app', reply) = activate_rollout digest hmac (app_with fresh) "r1" "eve" (micro 7) 9 in
    (reply ≡ err http_409)
    × (app'.rollouts ≡ (app_with fresh).rollouts)
    × ((b : PolicyBundle Micro) × (get_policy app'.policies "a" ≡ some b) × (b.policy ≡ policy_a))
activate_rollout-bypass_example =
    activate_rollout-bypass digest hmac (app_with fresh) "r1" "eve" (micro 7) 9 fresh
      (app_found fresh) (λ e. cc) policy_a-IsAdmissible

abbrev promoted_rollout : Rollout Micro (SimResult Micro)
promoted_rollout = record fresh { state = promoted }

abbrev activated : Rollout Micro (SimResult Micro)
activated = record promoted_rollout {
  state = active;
  updated_at = 9;
  history = entry promoted active 9 "bob" ∷ [];
}

activation :
    (activate_rollout digest hmac (app_with promoted_rollout) "r1" "bob" (micro 7) 9).1
    ≡ ok activated
unfolding activate_rollout get register distribute validate to_exec_config compute_policy_hash
    do_transition transition transition_rollout put
activation = refl

activate_rollout-ok_example :
    (promoted ≡ promoted)
    × (active ≡ active)
    × (get "r1"
          (activate_rollout digest hmac
            (app_with promoted_rollout)
            "r1"
            "bob"
            (micro 7)
            9).0.rollouts
        ≡ some activated)
    × ((b : PolicyBundle Micro) × (get_policy
            (activate_rollout digest hmac
              (app_with promoted_rollout)
              "r1"
              "bob"
              (micro 7)
              9).0.policies
            "a"
          ≡ some b)
        × (b.policy ≡ policy_a))
activate_rollout-ok_example =
    activate_rollout-ok digest hmac (app_with promoted_rollout) "r1" "bob" (micro 7) 9
      promoted_rollout activated (app_found promoted_rollout) activation

-- a second rollout for the same chain, beside one that is still a draft
abbrev text_length : SimResult Micro → Option ℕ
text_length result = some 100

launch-live_example :
    let app' = launch digest hmac text_length (app_with fresh) policy_a "bob" "r2" (micro 7) 9 in
    ((r : Rollout Micro (SimResult Micro)) × (get "r2" app'.rollouts ≡ some r) × (r.state ≡ active))
    × ((b : PolicyBundle Micro) × (get_policy app'.policies "a" ≡ some b) × (b.policy ≡ policy_a))
launch-live_example =
    launch-live digest hmac text_length (λ r. (100, refl, omega arith)) (app_with fresh) policy_a
      "bob" "r2" (micro 7) 9 policy_a-IsAdmissible
