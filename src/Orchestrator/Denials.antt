-- ===== src/Orchestrator/Denials.antt =====
-- What becomes of a step that the organisation denies, and which steps are denied.
use veronica.Prelude.{◌≡◌, ◌≢◌, refl, sym, ◌∙◌, none, some, inl, inr, Option-cases, arith}
use veronica.Prelude.Result.{Exn, Result, ok, err, org_policy_denied, Result-cases, ◌>>◌}
use veronica.Float.{Float}
use veronica.Types.{StepIntent, to_exec_config}
use veronica.OrgPolicy.{Denial, validate}
use veronica.Orchestrator.{StepHandle, Stages, Config, Ambient, Os}
use veronica.Orchestrator.Handles.{denied_handle}
use veronica.Orchestrator.Before.{
  Begun, denial_of, begin_step, finish_step, grant, before_step, handle_of,
}
use veronica.Orchestrator.Execution.{
  Engine, run_in, step, run_step, run_body, snapshot_of, normalize_intent,
}

module _ {F Pl Ar St Em : Type 0} ⦃fl : Float F⦄ (cfg : Config F) (amb : Ambient F)
    (stages : Stages F Pl Ar St Em) where
  finish_step-org_denial :
      (begun : Begun F) (s s' : Os F Pl Ar St Em) (intent : StepIntent) (handle : StepHandle F)
      → finish_step cfg amb stages begun s intent ≡ (s', ok handle)
      → handle.decision_meta.org_denial ≡ none
  unfolding finish_step grant handle_of
  finish_step-org_denial begun s s' intent handle e = ground arith

  -- Every handle that `before_step` returns carries the organisation's denial of the intent, and
  -- none when it has none.
  pub before_step-org_denial :
      (s s' : Os F Pl Ar St Em) (intent : StepIntent) (handle : StepHandle F)
      → before_step cfg amb stages s intent ≡ (s', ok handle)
      → handle.decision_meta.org_denial ≡ denial_of cfg amb intent
  unfolding before_step
  before_step-org_denial s s' intent handle e = elim (Option-cases (denial_of cfg amb intent)) [
    | inl allowed ↦ elim (Result-cases (begin_step cfg amb stages s intent)) [
      | inr (x, failed) ↦ ground arith
      | inl (begun, started) ↦
          finish_step-org_denial begun s s' intent handle (ground arith) ∙ sym allowed
    ]
    | inr (d, denied) ↦ ground arith
  ]

  -- A denied intent gets a handle, whatever the stages do.
  before_step-denied :
      (s : Os F Pl Ar St Em) (intent : StepIntent) (d : Denial)
      → denial_of cfg amb intent ≡ some d
      → (before_step cfg amb stages s intent).1 ≡ ok (denied_handle intent d amb.now)
  unfolding before_step
  before_step-denied s intent d e = ground arith

  -- The model and the tool of an intent decide on its denial.
  denial_of-normalize_intent :
      (s : Os F Pl Ar St Em) (intent : StepIntent)
      → denial_of cfg amb (normalize_intent amb s intent).1 ≡ denial_of cfg amb intent
  unfolding denial_of normalize_intent validate
  denial_of-normalize_intent s intent = refl

-- A result of every type but an exception is ruled out.
>>-err-ne-ok : {T : Type 0} (r : Result (Unit {0})) (e : Exn) (t : T) → (r >> err e) ≢ ok t
>>-err-ne-ok (ok _) e t h = cc
>>-err-ne-ok (err _) e t h = cc

module _ {F Pl Ar St Em X Fn T : Type 0} ⦃fl : Float F⦄ (cfg : Config F) (amb : Ambient F)
    (stages : Stages F Pl Ar St Em) where
  -- the engine with other ways to run a function
  abbrev pub with_calls :
      Engine F X Fn T → (X → Fn → X × Result T) → (X → Fn → X × Result T) → Engine F X Fn T
  with_calls engine llm_call tool_call = record engine {
    wrap_llm_call = llm_call;
    wrap_tool_call = tool_call;
  }

  run_body-denied :
      (engine : Engine F X Fn T) (llm_call tool_call : X → Fn → X × Result T)
      → (s : Os F Pl Ar St Em) (handle : StepHandle F) (intent : StepIntent) (x : X)
      → (fn fn' : Fn) (d : Denial) → handle.decision_meta.org_denial ≡ some d
      → let other = with_calls engine llm_call tool_call in
        run_body cfg amb stages engine s handle intent x (λ h y. run_in engine h y fn)
        ≡ run_body cfg amb stages other s handle intent x (λ h y. run_in other h y fn')
  unfolding run_body run_in snapshot_of
  run_body-denied engine llm_call tool_call s handle intent x fn fn' d e = rw e

  run_body-ne-ok :
      (engine : Engine F X Fn T) (s : Os F Pl Ar St Em) (handle : StepHandle F)
      → (intent : StepIntent) (x : X) (fn : Fn) (d : Denial) (t : T)
      → handle.decision_meta.org_denial ≡ some d
      → (run_body cfg amb stages engine s handle intent x (λ h y. run_in engine h y fn)).1 ≢ ok t
  unfolding run_body run_in
  run_body-ne-ok engine s handle intent x fn d t e = rw e (>>-err-ne-ok _ org_policy_denied t)

  -- Of a denied step, whatever the stages and the engine do, the engine never runs the function:
  -- `run_step` returns the same with other functions and other ways to call them, and it raises.
  pub run_step-denied :
      (engine : Engine F X Fn T) (llm_call tool_call : X → Fn → X × Result T)
      → (s : Os F Pl Ar St Em) (intent : StepIntent) (fn fn' : Fn) (d : Denial)
      → denial_of cfg amb intent ≡ some d
      → (run_step cfg amb stages engine s intent fn
          ≡ run_step cfg amb stages (with_calls engine llm_call tool_call) s intent fn')
        × ((t : T) → (run_step cfg amb stages engine s intent fn).1 ≢ ok t)
  unfolding run_step step
  run_step-denied engine llm_call tool_call s intent fn fn' d e =
      let normal = normalize_intent amb s intent in
      let handle = denied_handle normal.1 d amb.now in
      let s' = (before_step cfg amb stages normal.0 normal.1).0 in
      let denied =
        before_step-denied cfg amb stages normal.0 normal.1 d
          (denial_of-normalize_intent cfg amb stages s intent ∙ e) in
      elim (Result-cases (to_exec_config handle.policy)) [
        | inr (x, failed) ↦ rw (denied, failed, run_step, step) (refl, λ t h. cc)
        | inl (config, opened) ↦
            let x = engine.open_context config normal.1.request_id normal.1.chain_id in
            rw (denied, opened, run_step, step)
              (
                run_body-denied engine llm_call tool_call s' handle normal.1 x fn fn' d refl,
                λ t. run_body-ne-ok engine s' handle normal.1 x fn d t refl,
              )
      ]
