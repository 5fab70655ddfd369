-- ===== src/Examples/Steps.antt =====
-- Examples for the orchestrator: steps that are recorded, denied, limited and refused.
use veronica.Prelude.{ℕ, ◌≡◌, ◌≢◌, refl, suc, arith, true, false, none, some, List, [], ◌∷◌, String}
use veronica.Prelude.Int.{pos, negsuc, ◌≤ℤ◌}
use veronica.Prelude.Result.{Result, ok, err, value_error}
use veronica.Prelude.Dict.{get}
use veronica.Float.Sample.{Micro, micro, micro_float, micro_laws}
use veronica.TimeGuard.{run_with_budget}
use veronica.Types.{StepIntent, DesiredPolicy, HistoryView, nominal, continue}
use veronica.OrgPolicy.{OrgPolicy, Denial, model_blocked, validate, is_blocked}
use veronica.OrgPolicy.Limits.{IsWithin}
use veronica.Collector.{ContextSnapshot}
use veronica.MemoryStore.{Store}
use veronica.Arbiters.{proportional}
use veronica.Planner.{Planner, new_planner}
use veronica.Orchestrator.{
  StepHandle, OsEvent, Stages, Config, Ambient, Os, new_os, chain_spent, timed,
}
use veronica.Orchestrator.Handles.{bare_policy, denied_handle, fallback_cost}
use veronica.Orchestrator.After.{fallback_analysis}
use veronica.Orchestrator.Before.{denial_of, before_step, budget_of}
use veronica.Orchestrator.Execution.{Engine, run_step, step, run_in}
use veronica.Orchestrator.Calls.{Call, before, after, run, all_charged, spend, of_chain}
use veronica.Orchestrator.Wiring.{Wiring, default_stages}
use veronica.Orchestrator.Spending.{run-spending, begin_all, begin_all-budget_of, records}
use veronica.Orchestrator.Denials.{run_step-denied, with_calls}
use veronica.Orchestrator.Limits.{before_step-IsWithin, before_step-unprioritised}
use veronica.Orchestrator.Overspent.{step-overspent}
use veronica.Examples.Data.{fine, intent, always_safe, conversions}

-- a world in which every stage takes no time
abbrev amb : Ambient Micro
amb = record {
  reading = λ stage. record { started = micro 0; stopped = micro 0 };
  now = micro 5;
  fresh_id = "id";
  show = λ n. "n";
  casefold = λ s. s;
  policy_hash = λ p. "hash";
}

-- the default stages, with an emitter that keeps its events
abbrev wiring : Wiring Micro (List (OsEvent Micro))
wiring = record {
  pricing = record { lists = λ m. false; estimate_cost_usd = λ m i o. micro 0 };
  cost_model = record {
    default_tokens_in = pos 500;
    default_tokens_out = pos 200;
    fallback_cost_usd = micro 10000;
  };
  is_safe = always_safe;
  now_ms = 0;
  emit = λ events e. (e ∷ events, ok tt);
}

abbrev stages : Stages Micro (Planner Micro) Unit (Store Micro) (List (OsEvent Micro))
stages = default_stages wiring amb

abbrev start : Os Micro (Planner Micro) Unit (Store Micro) (List (OsEvent Micro))
start =
    new_os (new_planner (micro 1000000) (micro 10000000) (micro 100000) (pos 30000) "halt" none) tt
      [] []

abbrev free : Config Micro
free = record { budgets = []; request_budget_usd = micro 1000000; org_policy = none }

abbrev snapshot_of_cost : ℕ → ContextSnapshot Micro
snapshot_of_cost cost = record {
  chain_id = "a";
  request_id = "r";
  step_count = 1;
  cost_usd_accumulated = micro cost;
  retries_used = 0;
  aborted = false;
  abort_reason = none;
  elapsed_ms = micro 1;
  nodes = [];
}

abbrev handle : StepHandle Micro
handle = denied_handle intent (model_blocked "m") (micro 5)

-- two steps that overlap
abbrev overlapping : List (Call Micro)
overlapping =
    before amb intent
    ∷ before amb intent
    ∷ after amb handle (snapshot_of_cost 700000)
    ∷ after amb handle (snapshot_of_cost 600000)
    ∷ []

-- small stages: the plan is always greedy, the arbiter is the proportional one, and the store
-- counts its commits
abbrev greedy : DesiredPolicy Micro
greedy = record {
  chain_id = "";
  ceiling_usd = micro 9000000;
  ceiling_steps = pos 100;
  ceiling_tokens_out = pos 50000;
  on_exceed = "halt";
  fallback_model = some "gpt";
  timeout_ms = pos 30000;
  priority = pos 50;
}

abbrev no_history : HistoryView Micro
no_history = record {
  chain_id = "a";
  last_n = [];
  rolling_cost_usd = micro 0;
  failure_streak = 0;
  depth = 0;
  loop_score = micro 0;
  success_streak = 0;
  cost_per_step_ema = micro 0;
  cost_per_step_ema_by_model = [];
  latency_ema_ms = [];
  budget_headroom_ratio = micro 1000000;
}

abbrev small : Stages Micro Unit Unit ℕ Unit
small = record {
  collect = λ snapshot. ok (record fine { cost_usd = snapshot.cost_usd_accumulated });
  analyze = λ intent outcome history. ok fallback_analysis;
  estimate = λ intent history analysis. ok fallback_cost;
  plan = λ planner analysis cost budget. (planner, ok greedy);
  set_arbitration_context = none;
  arbitrate = λ arbiter desires budget. (arbiter, ok (proportional desires budget (micro 5)));
  settle = none;
  set_budget_context = none;
  commit = λ store outcome analysis cost desired policy meta. (suc store, ok tt);
  build_history = λ store chain_id. ok no_history;
  close_store = none;
  emit = λ emitter e. (emitter, ok tt);
}

abbrev begun_small : Os Micro Unit Unit ℕ Unit
begun_small = new_os tt tt 0 tt

overlapping-charged :
    all_charged free small begun_small overlapping
    ≡ record fine { cost_usd = micro 700000 } ∷ record fine { cost_usd = micro 600000 } ∷ []
unfolding all_charged veronica.Orchestrator.Calls.charged run_with_budget get
    veronica.Prelude.Int.◌*ℤ◌ veronica.Prelude.Int.◌-ℤ◌ veronica.Orchestrator.After.analyze_stage
overlapping-charged = refl

run-spending_example :
    let s' = run free small begun_small overlapping in
    let outcomes = all_charged free small begun_small overlapping in
    (s'.total_spent_usd ≡ spend (micro 0) outcomes)
    × (chain_spent s' "a" ≡ spend (micro 0) (of_chain "a" outcomes))
unfolding get
run-spending_example = run-spending free small begun_small overlapping "a"

begin_all-budget_of_example :
    budget_of free amb stages (begin_all free stages start ((amb, intent) ∷ (amb, intent) ∷ [])) "a"
    ≡ budget_of free amb stages start "a"
begin_all-budget_of_example =
    begin_all-budget_of free stages start ((amb, intent) ∷ (amb, intent) ∷ []) amb "a"

-- an engine whose functions are numbers, which it returns
abbrev engine : Engine Micro (ContextSnapshot Micro) ℕ ℕ
engine = record {
  open_context = λ config request_id chain_id. snapshot_of_cost 0;
  wrap_llm_call = λ x fn. (x, ok fn);
  wrap_tool_call = λ x fn. (x, ok fn);
  get_snapshot = λ x. ok x;
}

abbrev strict : OrgPolicy Micro
strict = record {
  max_ceiling_usd = some (micro 500000);
  max_timeout_ms = some (pos 1000);
  blocked_models = "gpt" ∷ [];
  blocked_tools = [];
  max_priority = some (pos 0);
}

abbrev organised : Config Micro
organised = record free { org_policy = some strict }

abbrev blocked : StepIntent
blocked = record intent { model = some "gpt" }

blocked-denied : denial_of organised amb blocked ≡ some (model_blocked "gpt")
unfolding denial_of validate is_blocked
blocked-denied = refl

run_step-denied_example :
    (run_step organised amb stages engine start blocked 1
      ≡ run_step organised amb stages
          (with_calls organised amb stages engine
            (λ x fn. (x, err value_error))
            (λ x fn. (x, ok 9)))
          start
          blocked
          2)
    × ((t : ℕ) → (run_step organised amb stages engine start blocked 1).1 ≢ ok t)
run_step-denied_example =
    run_step-denied organised amb stages engine (λ x fn. (x, err value_error)) (λ x fn. (x, ok 9))
      start blocked 1 2 (model_blocked "gpt") blocked-denied

intent-allowed : denial_of organised amb intent ≡ none
unfolding denial_of validate is_blocked
intent-allowed = refl

-- the step that the organisation limits, and its handle
abbrev limited : Os Micro Unit Unit ℕ Unit × Result (StepHandle Micro)
limited = before_step organised amb small begun_small intent

abbrev limited_handle : StepHandle Micro
limited_handle = record {
  intent = intent;
  policy = bare_policy "a" (micro 1000000) (micro 5);
  desired = record greedy {
    chain_id = "a";
    ceiling_usd = micro 500000;
    timeout_ms = pos 1000;
    fallback_model = none;
    priority = pos 0;
  };
  cost = fallback_cost;
  decision_meta = record {
    risk_level = nominal;
    recommendation = continue;
    degraded = false;
    stage_time_ms = ("cost_model", micro 0) ∷ ("planner", micro 0) ∷ ("arbiter", micro 0) ∷ [];
    org_denial = none;
  };
}

limited-ok : limited ≡ (begun_small, ok limited_handle)
unfolding before_step denial_of validate is_blocked veronica.Orchestrator.Before.begin_step get
    veronica.Prelude.Int.◌*ℤ◌ veronica.Prelude.Int.◌-ℤ◌ veronica.Orchestrator.Before.finish_step
    veronica.Orchestrator.Before.plan_stage veronica.Orchestrator.Before.grant
    veronica.Orchestrator.Before.arbitrate_stage veronica.Orchestrator.Before.handle_of proportional
    veronica.Orchestrator.Before.restrict veronica.OrgPolicy.clamp veronica.OrgPolicy.clamp_int
    veronica.OrgPolicy.clamp_ceiling
limited-ok = refl

before_step-IsWithin_example : IsWithin (λ s. s) strict limited_handle.desired
before_step-IsWithin_example =
    before_step-IsWithin organised amb strict refl small begun_small begun_small intent
      limited_handle intent-allowed limited-ok

before_step-unprioritised_example :
    limited_handle.policy ≡ bare_policy "a" (micro 1000000) (micro 5)
unfolding get veronica.Prelude.Int.◌*ℤ◌ veronica.Prelude.Int.◌-ℤ◌
before_step-unprioritised_example =
    before_step-unprioritised organised amb strict refl small (λ a d b. refl) refl (pos 0) refl
      (omega arith) begun_small begun_small intent limited_handle intent-allowed limited-ok

abbrev overspent : Os Micro (Planner Micro) Unit (Store Micro) (List (OsEvent Micro))
overspent = record start {
  total_spent_usd = micro 1300000;
  chain_spent_usd = ("a", micro 1300000) ∷ [];
}

step-overspent_example :
    let (s', result) = step free amb stages engine overspent intent (λ h x. run_in engine h x 1) in
    (result ≡ err value_error) × (records s' ≡ records overspent)
unfolding get veronica.Prelude.Int.◌*ℤ◌ veronica.Prelude.Int.◌-ℤ◌
step-overspent_example =
    step-overspent free amb wiring refl refl engine overspent intent (λ h x. run_in engine h x 1)
      refl
