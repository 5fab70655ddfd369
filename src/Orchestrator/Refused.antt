-- ===== src/Orchestrator/Refused.antt =====
-- A ceiling that the engine refuses stays refused through the arbiter, with the default stages.
use veronica.Prelude.{
  String, Bool, true, false, not, ◌||◌, ◌≡◌, sym, ap, ◌∙◌, none, some, [], ◌∷◌, inl, inr,
  Bool-cases, eq_iff, arith,
}
use veronica.Prelude.Result.{ok}
use veronica.Prelude.Dict.{Dict, get, put}
use veronica.Float.{Float, FloatLaws, fmin}
use veronica.TimeGuard.{elapsed_ms, run_with_budget}
use veronica.Values.{Conversions}
use veronica.Types.{StepIntent, DesiredPolicy, PolicyConfig, or_default}
use veronica.Arbiters.{passthrough, passthrough_scale, passthrough_from, policy_for}
use veronica.MemoryStore.{Store}
use veronica.Planner.{Planner}
use veronica.Orchestrator.{StepHandle, Stages, Config, Ambient, Os, Timed, timed}
use veronica.Orchestrator.Handles.{bare_policy}
use veronica.Orchestrator.Before.{Begun, grant, arbitrate_stage, handle_of, restrict, remaining}
use veronica.Orchestrator.Wiring.{Wiring, default_stages}

module _ {F : Type 0} ⦃fl : Float F⦄ where
  -- A ceiling that the engine refuses: negative, or not finite.
  abbrev pub is_refused : F → Bool
  is_refused x = not (fl.is_finite x) || fl.lt x (fl.dec 0 0)

module _ {F : Type 0} ⦃fl : Float F⦄ ⦃laws : FloatLaws F⦄ where
  pub fmin-refused : (x r : F) → fl.lt r (fl.dec 0 0) ≡ true → is_refused (fmin x r) ≡ true
  fmin-refused x r h = ground (arith, laws.not_lt_trans (fl.dec 0 0) x r)

  passthrough-refused :
      (d : DesiredPolicy F) (budget now : F)
      → is_refused d.ceiling_usd ≡ true
      → (p : PolicyConfig F) × (get d.chain_id (passthrough (d ∷ []) budget now) ≡ some p)
        × (is_refused p.ceiling_usd ≡ true)
  unfolding passthrough passthrough_from get put
  passthrough-refused d budget now h =
      let c = d.ceiling_usd in
      let scale = passthrough_scale (d ∷ []) budget in
      (
        policy_for d (fl.mul c scale) now "0.1.0",
        ground (arith, eq_iff d.chain_id d.chain_id),
        ground (
          arith,
          laws.mul_infinite c scale,
          laws.mul_one c,
          laws.sum_one c,
          laws.lt_asymm c (fl.dec 0 0),
        ),
      )

module _ {F Em : Type 0} ⦃fl : Float F⦄ ⦃conv : Conversions F⦄ (amb : Ambient F)
    (wiring : Wiring F Em) where
  abbrev pub stages : Stages F (Planner F) Unit (Store F) Em
  stages = default_stages wiring amb

module _ {F Em : Type 0} ⦃fl : Float F⦄ ⦃laws : FloatLaws F⦄ ⦃conv : Conversions F⦄ (cfg : Config F)
    (amb : Ambient F) (wiring : Wiring F Em) where
  arbitrate_stage-refused :
      (s : Os F (Planner F) Unit (Store F) Em) (intent : StepIntent) (d : DesiredPolicy F)
      → d.chain_id ≡ intent.chain_id
      → is_refused d.ceiling_usd ≡ true
      → (configs : Timed F (Dict (PolicyConfig F))) × (p : PolicyConfig F) × ((arbitrate_stage cfg
            amb
            (stages amb wiring)
            s
            intent
            d).1
          ≡ ok configs)
        × (get intent.chain_id configs.value ≡ some p)
        × (is_refused p.ceiling_usd ≡ true)
  unfolding arbitrate_stage timed run_with_budget default_stages get
  arbitrate_stage-refused s intent d same h =
      let (p, found, refused) =
        passthrough-refused d (remaining cfg amb (stages amb wiring) s) amb.now h in
      elim (Bool-cases (
        fl.lt (or_default (get "arbiter" cfg.budgets) (fl.dec 20 0))
          (elapsed_ms (amb.reading "arbiter")))) [
            | inl late ↦ (
              record {
                value = (intent.chain_id, bare_policy intent.chain_id d.ceiling_usd amb.now) ∷ [];
                elapsed = elapsed_ms (amb.reading "arbiter");
                late = true;
              },
              bare_policy intent.chain_id d.ceiling_usd amb.now,
              ground arith,
              ground (arith, eq_iff intent.chain_id intent.chain_id),
              h,
            )
            | inr soon ↦ (
              record {
                value = passthrough (d ∷ []) (remaining cfg amb (stages amb wiring) s) amb.now;
                elapsed = elapsed_ms (amb.reading "arbiter");
                late = false;
              },
              p,
              ground arith,
              ap
                    (λ (k : String).
                      get k
                        (passthrough (d ∷ []) (remaining cfg amb (stages amb wiring) s) amb.now))
                    (sym same)
                  ∙ found,
              refused,
            )
          ]

  module _ (unorganised : cfg.org_policy ≡ none) where
    pub grant-refused :
        (begun : Begun F) (s : Os F (Planner F) Unit (Store F) Em) (intent : StepIntent)
        → (p : Timed F (DesiredPolicy F)) → p.value.chain_id ≡ ""
        → is_refused p.value.ceiling_usd ≡ true
        → (handle : StepHandle F) × ((grant cfg amb (stages amb wiring) begun s intent p).1
            ≡ ok handle)
          × (is_refused handle.policy.ceiling_usd ≡ true)
    unfolding grant handle_of restrict
    grant-refused begun s intent p empty h =
        let d = restrict cfg amb intent p.value in
        let (configs, policy, granted, found, refused) =
          arbitrate_stage-refused s intent d
            (rw unorganised (ground (arith, eq_iff p.value.chain_id ""))) (rw unorganised h) in
        (handle_of cfg amb begun intent p d configs, rw granted, rw found refused)
