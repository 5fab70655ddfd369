-- ===== src/Orchestrator/Execution.antt =====
-- `step`, `run_step` and `StepContext`: a step from its intent to its record. The engine that runs
-- the caller's function is an interface: `X` is its context, `Fn` the functions that it takes and
-- `T` what they return.
use Prim.Native.String.{◌++◌}
use veronica.Prelude.{◌+◌, String, true, ◌==◌, none, some, [], if◌then◌else◌}
use veronica.Prelude.Result.{Result, ok, err, org_policy_denied, ◌>>◌}
use veronica.Float.{Float}
use veronica.Types.{StepIntent, ExecutionConfig, to_exec_config}
use veronica.Collector.{ContextSnapshot}
use veronica.CostModels.{is_tool}
use veronica.Orchestrator.{StepHandle, Stages, Config, Ambient, Os}
use veronica.Orchestrator.Before.{before_step}
use veronica.Orchestrator.After.{after_step}

pub record Engine (F X Fn T : Type 0) : Type 0 where
  -- ExecutionContext(config, ChainMetadata(request_id, chain_id))
  pub open_context : ExecutionConfig F → String → String → X
  pub wrap_llm_call : X → Fn → X × Result T
  pub wrap_tool_call : X → Fn → X × Result T
  pub get_snapshot : X → Result (ContextSnapshot F)

module _ {F : Type 0} ⦃fl : Float F⦄ where
  -- _make_fallback_snapshot
  unfoldable pub fallback_snapshot : StepIntent → String → ContextSnapshot F
  fallback_snapshot intent reason = record {
    chain_id = intent.chain_id;
    request_id = intent.request_id;
    step_count = 0;
    cost_usd_accumulated = fl.dec 0 0;
    retries_used = 0;
    aborted = true;
    abort_reason = some reason;
    elapsed_ms = fl.dec 0 0;
    nodes = [];
  }

module _ {F X Fn T : Type 0} (engine : Engine F X Fn T) where
  -- StepContext.run
  unfoldable pub run_in : StepHandle F → X → Fn → X × Result T
  run_in handle x fn = elim handle.decision_meta.org_denial [
    | some denial ↦ (x, err org_policy_denied)
    | none ↦
        if is_tool handle.intent.kind then engine.wrap_tool_call x fn else engine.wrap_llm_call x fn
  ]

  -- StepContext.run_llm and run_tool
  unfoldable pub run_llm : StepHandle F → X → Fn → X × Result T
  run_llm handle x fn = elim handle.decision_meta.org_denial [
    | some denial ↦ (x, err org_policy_denied)
    | none ↦ engine.wrap_llm_call x fn
  ]

  unfoldable pub run_tool : StepHandle F → X → Fn → X × Result T
  run_tool handle x fn = elim handle.decision_meta.org_denial [
    | some denial ↦ (x, err org_policy_denied)
    | none ↦ engine.wrap_tool_call x fn
  ]

abbrev or_text : String → String → String
or_text default s = if s == "" then default else s

module _ {F Pl Ar St Em : Type 0} (amb : Ambient F) where
  -- _normalize_intent; a `timeout_ms` of None, which its type excludes, is not modelled
  unfoldable pub normalize_intent : Os F Pl Ar St Em → StepIntent → Os F Pl Ar St Em × StepIntent
  normalize_intent s intent = (
    record s { step_counter = if intent.step_id == "" then s.step_counter + 1 else s.step_counter },
    record intent {
      request_id = or_text amb.fresh_id intent.request_id;
      chain_id = or_text "default" intent.chain_id;
      step_id = or_text ("step-" ++ amb.show s.step_counter) intent.step_id;
    },
  )

module _ {F Pl Ar St Em X Fn T : Type 0} ⦃fl : Float F⦄ (cfg : Config F) (amb : Ambient F)
    (stages : Stages F Pl Ar St Em) (engine : Engine F X Fn T) where
  -- the snapshot at the end of a step
  unfoldable pub snapshot_of : StepIntent → X → ContextSnapshot F
  unfolding fallback_snapshot
  snapshot_of intent x = elim (engine.get_snapshot x) [
    | ok snapshot ↦ snapshot
    | err e ↦ fallback_snapshot intent "snapshot_retrieval_failed"
  ]

  -- The body of `with vos.step(intent)`, and `after_step` in the `finally` clause, whose exception
  -- takes the place of the body's.
  unfoldable pub run_body :
      Os F Pl Ar St Em
      → StepHandle F
      → StepIntent
      → X
      → (StepHandle F → X → X × Result T)
      → Os F Pl Ar St Em × Result T
  run_body s handle intent x body =
      let (x', result) = body handle x in
      let (s', recorded) = after_step cfg amb stages s handle (snapshot_of intent x') in
      (s', recorded >> result)

  -- VeronicaOS.step around a body
  unfoldable pub step :
      Os F Pl Ar St Em
      → StepIntent
      → (StepHandle F → X → X × Result T)
      → Os F Pl Ar St Em × Result T
  step s intent body =
      let (s', begun) = before_step cfg amb stages s intent in
      elim begun [
        | err e ↦ (s', err e)
        | ok handle ↦ elim (to_exec_config handle.policy) [
          | err e ↦ (s', err e)
          | ok config ↦
              run_body s' handle intent
                (engine.open_context config intent.request_id intent.chain_id) body
        ]
      ]

  -- VeronicaOS.run_step
  unfoldable pub run_step : Os F Pl Ar St Em → StepIntent → Fn → Os F Pl Ar St Em × Result T
  run_step s intent fn =
      let (s', intent') = normalize_intent amb s intent in
      step s' intent' (λ handle x. run_in engine handle x fn)
