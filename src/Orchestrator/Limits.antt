-- ===== src/Orchestrator/Limits.antt =====
-- The organisation's limits on what a step may do, and a policy that escapes them.
use veronica.Prelude.{false, ◌≡◌, sym, subst, none, some, [], ◌∷◌, inl, inr, arith}
use veronica.Prelude.Int.{ℤ, pos, ◌≤ℤ◌}
use veronica.Prelude.Result.{ok, Result-cases}
use veronica.Prelude.Dict.{Dict, get}
use veronica.Float.{Float, FloatLaws}
use veronica.TimeGuard.{elapsed_ms, run_with_budget}
use veronica.Types.{StepIntent, DesiredPolicy, PolicyConfig, or_default}
use veronica.OrgPolicy.{OrgPolicy, clamp, clamp_int}
use veronica.OrgPolicy.Limits.{IsWithin, clamp-IsWithin}
use veronica.Arbiters.{proportional}
use veronica.Orchestrator.{StepHandle, Stages, Config, Ambient, Os, Timed, timed}
use veronica.Orchestrator.Handles.{bare_policy}
use veronica.Orchestrator.Before.{
  Begun, denial_of, begin_step, finish_step, grant, plan_stage, arbitrate_stage, before_step,
  handle_of, restrict, remaining, with_context,
}

module _ {F : Type 0} ⦃fl : Float F⦄ ⦃laws : FloatLaws F⦄ (cfg : Config F) (amb : Ambient F)
    (org : OrgPolicy F) (organised : cfg.org_policy ≡ some org) where
  restrict-IsWithin :
      (intent : StepIntent) (d : DesiredPolicy F)
      → IsWithin amb.casefold org (restrict cfg amb intent d)
  unfolding restrict
  restrict-IsWithin intent d = rw organised (
      let w = clamp-IsWithin amb.casefold org d in
      record { ceiling = w.ceiling; timeout = w.timeout; priority = w.priority; model = w.model })

  module _ {Pl Ar St Em : Type 0} (stages : Stages F Pl Ar St Em) where
    grant-desired :
        (begun : Begun F) (s s' : Os F Pl Ar St Em) (intent : StepIntent)
        → (p : Timed F (DesiredPolicy F)) (handle : StepHandle F)
        → grant cfg amb stages begun s intent p ≡ (s', ok handle)
        → handle.desired ≡ restrict cfg amb intent p.value
    unfolding grant handle_of
    grant-desired begun s s' intent p handle e = ground arith

    -- When the organisation sets limits and does not deny the intent, what a step desires is
    -- within all of them, a fallback model that is not blocked included: whatever the planner
    -- asks for, and also when the planner is late.
    pub before_step-IsWithin :
        (s s' : Os F Pl Ar St Em) (intent : StepIntent) (handle : StepHandle F)
        → denial_of cfg amb intent ≡ none
        → before_step cfg amb stages s intent ≡ (s', ok handle)
        → IsWithin amb.casefold org handle.desired
    unfolding before_step finish_step
    before_step-IsWithin s s' intent handle allowed e =
        elim (Result-cases (begin_step cfg amb stages s intent)) [
          | inr (x, failed) ↦ absurd (ground arith)
          | inl (begun, started) ↦
              elim (Result-cases (plan_stage cfg amb stages begun s intent).1) [
                | inr (x, failed) ↦ absurd (ground arith)
                | inl (p, planned) ↦
                    subst (IsWithin amb.casefold org)
                      (sym (
                        grant-desired begun (plan_stage cfg amb stages begun s intent).0 s' intent p
                          handle (ground arith)))
                      (restrict-IsWithin intent p.value)
              ]
        ]

    restrict-priority :
        (intent : StepIntent) (d : DesiredPolicy F) (top : ℤ)
        → org.max_priority ≡ some top
        → top ≤ℤ pos 0
        → (restrict cfg amb intent d).priority ≤ℤ pos 0
    unfolding restrict clamp clamp_int
    restrict-priority intent d top lowest none_above = rw (organised, lowest) (ground arith)

    ineligible :
        (d : DesiredPolicy F) (b now : F) → d.priority ≤ℤ pos 0 → proportional (d ∷ []) b now ≡ []
    unfolding proportional
    ineligible d b now h = ground arith

    module _
        (arbitrates : (a : Ar) (d : DesiredPolicy F) (b : F)
          → stages.arbitrate a (d ∷ []) b ≡ (a, ok (proportional (d ∷ []) b amb.now)))
        (punctual : fl.lt
            (or_default (get "arbiter" cfg.budgets) (fl.dec 20 0))
            (elapsed_ms (amb.reading "arbiter"))
          ≡ false)
        (top : ℤ) (lowest : org.max_priority ≡ some top) (none_above : top ≤ℤ pos 0) where
      arbitrate_stage-none :
          (s : Os F Pl Ar St Em) (intent : StepIntent) (d : DesiredPolicy F)
          → (configs : Timed F (Dict (PolicyConfig F))) → d.priority ≤ℤ pos 0
          → (arbitrate_stage cfg amb stages s intent d).1 ≡ ok configs
          → configs.value ≡ []
      unfolding arbitrate_stage timed run_with_budget
      arbitrate_stage-none s intent d configs low e = ground (
        arith,
        arbitrates (with_context cfg amb stages s.arbiter intent) d (remaining cfg amb stages s),
        ineligible d (remaining cfg amb stages s) amb.now low,
      )

      grant-unprioritised :
          (begun : Begun F) (s s' : Os F Pl Ar St Em) (intent : StepIntent)
          → (p : Timed F (DesiredPolicy F)) (handle : StepHandle F)
          → grant cfg amb stages begun s intent p ≡ (s', ok handle)
          → handle.policy ≡ bare_policy intent.chain_id (fl.dec 10 1) amb.now
      unfolding grant handle_of get
      grant-unprioritised begun s s' intent p handle e =
          let d = restrict cfg amb intent p.value in
          elim (Result-cases (arbitrate_stage cfg amb stages s intent d).1) [
            | inr (x, failed) ↦ absurd (ground arith)
            | inl (configs, granted) ↦
                let nothing =
                  arbitrate_stage-none s intent d configs
                    (restrict-priority intent p.value top lowest none_above) granted in
                ground (arith, nothing)
          ]

      -- With the proportional arbiter, when it is in time, and an organisation that allows no
      -- positive priority, every step that is not denied gets the default policy with the ceiling
      -- 1.0, whatever is left of the budget and whatever ceiling the organisation allows.
      pub before_step-unprioritised :
          (s s' : Os F Pl Ar St Em) (intent : StepIntent) (handle : StepHandle F)
          → denial_of cfg amb intent ≡ none
          → before_step cfg amb stages s intent ≡ (s', ok handle)
          → handle.policy ≡ bare_policy intent.chain_id (fl.dec 10 1) amb.now
      unfolding before_step finish_step
      before_step-unprioritised s s' intent handle allowed e =
          elim (Result-cases (begin_step cfg amb stages s intent)) [
            | inr (x, failed) ↦ absurd (ground arith)
            | inl (begun, started) ↦
                elim (Result-cases (plan_stage cfg amb stages begun s intent).1) [
                  | inr (x, failed) ↦ absurd (ground arith)
                  | inl (p, planned) ↦
                      grant-unprioritised begun (plan_stage cfg amb stages begun s intent).0 s'
                        intent p handle (ground arith)
                ]
          ]
