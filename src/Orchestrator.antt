-- ===== src/Orchestrator.antt =====
-- src/veronica/os.py and protocols.py: the pipeline around one step. The stages are an interface,
-- the protocols of protocols.py, each with a state of its own; a stage that may lack a method has it
-- as an Option. The readings of the clock are arguments, one for each stage of the step.
pub mod Handles
pub mod Before
pub mod After
pub mod Execution
pub mod Calls
pub mod Spending
pub mod Denials
pub mod Limits
pub mod Refused
pub mod Overspent
pub mod Wiring
use veronica.Prelude.{ℕ, String, Bool, true, false, Option, none, some, List, []}
use veronica.Prelude.Result.{Result, ok, err}
use veronica.Prelude.Dict.{Dict, get}
use veronica.Float.{Float}
use veronica.TimeGuard.{Reading, Guarded, within, exceeded, raised, run_with_budget}
use veronica.Types.{
  StepKind, Status, RiskLevel, Recommendation, StepIntent, StepOutcome, HistoryView, Signal,
  AnalysisResult, CostEstimate, BudgetState, DesiredPolicy, PolicyConfig, or_default,
}
use veronica.OrgPolicy.{OrgPolicy, Denial}
use veronica.Collector.{ContextSnapshot}

pub record DecisionMeta (F : Type 0) : Type 0 where
  pub risk_level : RiskLevel
  pub recommendation : Recommendation
  pub degraded : Bool
  pub stage_time_ms : Dict F
  pub org_denial : Option Denial

pub record StepHandle (F : Type 0) : Type 0 where
  pub intent : StepIntent
  pub policy : PolicyConfig F
  pub desired : DesiredPolicy F
  pub cost : CostEstimate F
  pub decision_meta : DecisionMeta F

pub record StepDenied : Type 0 where
  pub request_id : String
  pub step_id : String
  pub chain_id : String
  pub kind : StepKind
  pub reason : Denial
  pub model : Option String
  pub tool_name : Option String

pub record StepCompleted (F : Type 0) : Type 0 where
  pub request_id : String
  pub step_id : String
  pub chain_id : String
  pub kind : StepKind
  pub status : Status
  pub cost_usd : F
  pub tokens_in : ℕ
  pub tokens_out : ℕ
  pub elapsed_ms : F
  pub risk_level : RiskLevel
  pub recommendation : Recommendation
  pub degraded : Bool
  pub degrade_reason : Option String
  pub signals : List Signal
  pub stage_time_ms : Dict F
  pub policy_hash : String
  pub audit_id : String

-- The events that the orchestrator emits.
pub data OsEvent (F : Type 0) : Type 0 where
  step_denied : StepDenied → OsEvent F
  step_completed : StepCompleted F → OsEvent F

-- The protocols; `Pl`, `Ar`, `St` and `Em` are the states of the planner, the arbiter, the store
-- and the emitter. Every stage may raise.
pub record Stages (F Pl Ar St Em : Type 0) : Type 0 where
  pub collect : ContextSnapshot F → Result (StepOutcome F)
  pub analyze : StepIntent → StepOutcome F → HistoryView F → Result AnalysisResult
  pub estimate : StepIntent → HistoryView F → Option AnalysisResult → Result (CostEstimate F)
  pub plan :
      Pl → Option AnalysisResult → CostEstimate F → BudgetState F → Pl × Result (DesiredPolicy F)
  pub set_arbitration_context : Option (Ar → String → String → Ar)
  pub arbitrate : Ar → List (DesiredPolicy F) → F → Ar × Result (Dict (PolicyConfig F))
  pub settle : Option (Ar → String → String → F → Ar × Result (Unit {0}))
  pub set_budget_context : Option (St → F → F → St)
  pub commit :
      St
      → StepOutcome F
      → AnalysisResult
      → CostEstimate F
      → DesiredPolicy F
      → PolicyConfig F
      → DecisionMeta F
      → St × Result (Unit {0})
  pub build_history : St → String → Result (HistoryView F)
  pub close_store : Option (St → St × Result (Unit {0}))
  pub emit : Em → OsEvent F → Em × Result (Unit {0})

-- What `__init__` fixes.
pub record Config (F : Type 0) : Type 0 where
  pub budgets : Dict F
  pub request_budget_usd : F
  pub org_policy : Option (OrgPolicy F)

-- What a step reads of the world: the clock, the wall clock, a fresh identifier, and texts.
pub record Ambient (F : Type 0) : Type 0 where
  pub reading : String → Reading F
  pub now : F
  pub fresh_id : String
  pub show : ℕ → String
  pub casefold : String → String
  pub policy_hash : PolicyConfig F → String

pub record Os (F Pl Ar St Em : Type 0) : Type 0 where
  pub planner : Pl
  pub arbiter : Ar
  pub store : St
  pub emitter : Em
  pub last_analysis : Option AnalysisResult
  pub total_spent_usd : F
  pub chain_spent_usd : Dict F
  pub step_counter : ℕ
  pub closed : Bool

module _ {F Pl Ar St Em : Type 0} ⦃fl : Float F⦄ where
  -- VeronicaOS.__init__, for stages in their first states
  abbrev pub new_os : Pl → Ar → St → Em → Os F Pl Ar St Em
  new_os planner arbiter store emitter = record {
    planner = planner;
    arbiter = arbiter;
    store = store;
    emitter = emitter;
    last_analysis = none;
    total_spent_usd = fl.dec 0 0;
    chain_spent_usd = [];
    step_counter = 1;
    closed = false;
  }

  -- VeronicaOS.close
  unfoldable pub close :
      Stages F Pl Ar St Em → Os F Pl Ar St Em → Os F Pl Ar St Em × Result (Unit {0})
  close stages s = elim s.closed [
    | true ↦ (s, ok tt)
    | false ↦ elim stages.close_store [
      | none ↦ (record s { closed = true }, ok tt)
      | some flush ↦
          let (store, result) = flush s.store in (record s { store = store; closed = true }, result)
    ]
  ]

  -- self._total_spent_usd, and self._chain_spent_usd.get(chain_id, 0.0)
  abbrev pub chain_spent : Os F Pl Ar St Em → String → F
  chain_spent s chain_id = or_default (get chain_id s.chain_spent_usd) (fl.dec 0 0)

-- A stage's value with the time it took, and whether it came late and was replaced.
pub record Timed (F A : Type 0) : Type 0 where
  pub value : A
  pub elapsed : F
  pub late : Bool

module _ {F A : Type 0} ⦃fl : Float F⦄ (cfg : Config F) (amb : Ambient F) where
  -- a stage under its budget, with what replaces its value when it is late
  unfoldable pub timed : String → F → Result A → A → Result (Timed F A)
  unfolding run_with_budget
  timed stage budget result fallback =
      elim (run_with_budget (amb.reading stage) (or_default (get stage cfg.budgets) budget)
        result) [
          | raised e ↦ err e
          | exceeded elapsed ↦ ok (record { value = fallback; elapsed = elapsed; late = true })
          | within value elapsed ↦ ok (record { value = value; elapsed = elapsed; late = false })
        ]
