-- ===== src/Rollouts.antt =====
-- src/veronica/rollouts/models.py and registry.py: the lifecycle of a policy promotion.
-- A method holds the lock from its first read to its return, so each is one function of the
-- registry. The clock and the fresh identifier of `create` are arguments. `json.dumps` of a
-- simulation result is the argument `dumps_length`: the length of the text, or no text when the
-- value is not serialisable. What a method wrote before it raised stays written.
pub mod Lifecycle
pub mod History
pub mod Runs
pub mod Failures
use veronica.Prelude.{
  ℕ, ◌+◌, ◌-◌, ◌*◌, String, Bool, true, false, not, Option, none, some, List, [], ◌∷◌, ◌++◌, length,
  take, drop, select, any, max, leb, ltb, if◌then◌else◌,
}
use veronica.Prelude.Result.{Result, ok, err, Exn, key_error, value_error, invalid_transition}
use veronica.Prelude.Dict.{Dict, get, put, values}
use veronica.Types.{PolicyConfig}

pub data RolloutState : Type 0 where
  draft simulated approved promoted active revoked : RolloutState

pub record StateTransition : Type 0 where
  pub from_state : RolloutState
  pub to_state : RolloutState
  pub timestamp : ℕ
  pub actor : String

-- `R` is the type of simulation results.
pub record Rollout (F R : Type 0) : Type 0 where
  pub id : String
  pub policy_config : PolicyConfig F
  pub state : RolloutState
  pub created_at : ℕ
  pub updated_at : ℕ
  pub created_by : String
  pub history : List StateTransition
  pub simulation_result : Option R

-- s == t
abbrev pub same_state : RolloutState → RolloutState → Bool
same_state draft draft = true
same_state simulated simulated = true
same_state approved approved = true
same_state promoted promoted = true
same_state active active = true
same_state revoked revoked = true
same_state _ _ = false

-- VALID_TRANSITIONS
abbrev pub valid_transitions : RolloutState → List RolloutState
valid_transitions draft = simulated ∷ revoked ∷ []
valid_transitions simulated = approved ∷ revoked ∷ draft ∷ []
valid_transitions approved = promoted ∷ revoked ∷ draft ∷ []
valid_transitions promoted = active ∷ revoked ∷ approved ∷ []
valid_transitions active = revoked ∷ []
valid_transitions revoked = []

-- `target in VALID_TRANSITIONS[state]`
abbrev pub allowed : RolloutState → RolloutState → Bool
allowed state target = any (λ s. same_state s target) (valid_transitions state)

abbrev pub max_history_length : ℕ
max_history_length = 1000

abbrev pub max_sim_result_size : ℕ
max_sim_result_size = 65536

abbrev pub Registry : Type 0 → Type 0 → Type 0
Registry F R = Dict (Rollout F R)

-- rolling back to DRAFT drops the simulation result
abbrev pub clear_result : {R : Type 0} → RolloutState → Option R → Option R
clear_result draft result = none
clear_result _ result = result

module _ {F R : Type 0} where
  -- new_rollout
  unfoldable pub new_rollout : PolicyConfig F → String → String → ℕ → Rollout F R
  new_rollout policy created_by id now = record {
    id = id;
    policy_config = policy;
    state = draft;
    created_at = now;
    updated_at = now;
    created_by = created_by;
    history = [];
    simulation_result = none;
  }

  -- RolloutRegistry.create
  unfoldable pub create :
      Registry F R → PolicyConfig F → String → String → ℕ → Registry F R × Rollout F R
  create rs policy created_by id now =
      let rollout = new_rollout policy created_by id now in (put id rollout rs, rollout)

  -- RolloutRegistry.list_all; a page number or size of 0 counts as 1
  unfoldable pub list_all : Registry F R → Option RolloutState → ℕ → ℕ → List (Rollout F R) × ℕ
  list_all rs state_filter page per_page =
      let all_items : List (Rollout F R) = elim state_filter [
        | none ↦ values rs
        | some state ↦ select (λ r. same_state r.state state) (values rs)
      ] in
      let start = (max 1 page - 1) * max 1 per_page in
      (take (max 1 per_page) (drop start all_items), length all_items)

  -- the writes of a transition that is allowed
  abbrev pub enter : Rollout F R → RolloutState → String → ℕ → Rollout F R
  enter r target actor now = record r {
    history =
        r.history
        ++ record { from_state = r.state; to_state = target; timestamp = now; actor = actor } ∷ [];
    state = target;
    updated_at = now;
  }

  -- `transition` on the rollout found
  unfoldable pub transition_rollout : Rollout F R → RolloutState → String → ℕ → Result (Rollout F R)
  transition_rollout r target actor now =
      if not (allowed r.state target)
      then err invalid_transition
      else if leb max_history_length (length r.history)
      then err invalid_transition
      else ok (record (enter r target actor now) {
        simulation_result = clear_result target r.simulation_result;
      })

  -- RolloutRegistry.transition
  unfoldable pub transition :
      Registry F R → String → RolloutState → String → ℕ → Registry F R × Result (Rollout F R)
  transition rs id target actor now = elim (get id rs) [
    | none ↦ (rs, err key_error)
    | some r ↦ elim (transition_rollout r target actor now) [
      | err e ↦ (rs, err e)
      | ok r' ↦ (put id r' rs, ok r')
    ]
  ]

  -- the state test and the size test of `set_simulation_result` and `simulate`
  unfoldable pub check_result : (R → Option ℕ) → Rollout F R → R → Result (Unit {0})
  check_result dumps_length r result =
      if not (same_state r.state draft)
      then err invalid_transition
      else elim (dumps_length result) [
        | none ↦ err value_error
        | some n ↦ if ltb max_sim_result_size n then err value_error else ok tt
      ]

  -- RolloutRegistry.set_simulation_result
  unfoldable pub set_simulation_result :
      (R → Option ℕ) → Registry F R → String → R → Registry F R × Result (Rollout F R)
  set_simulation_result dumps_length rs id result = elim (get id rs) [
    | none ↦ (rs, err key_error)
    | some r ↦ elim (check_result dumps_length r result) [
      | err e ↦ (rs, err e)
      | ok _ ↦
          let r' : Rollout F R = record r { simulation_result = some result } in
          (put id r' rs, ok r')
    ]
  ]

  -- RolloutRegistry.simulate: the result is stored before the length of the history is tested
  unfoldable pub simulate :
      (R → Option ℕ) → Registry F R → String → R → String → ℕ → Registry F R × Result (Rollout F R)
  simulate dumps_length rs id result actor now = elim (get id rs) [
    | none ↦ (rs, err key_error)
    | some r ↦ elim (check_result dumps_length r result) [
      | err e ↦ (rs, err e)
      | ok _ ↦
          let stored : Rollout F R = record r { simulation_result = some result } in
          let entered = enter stored simulated actor now in
          if leb max_history_length (length r.history)
          then (put id stored rs, err invalid_transition)
          else (put id entered rs, ok entered)
    ]
  ]
