-- ===== src/Orchestrator/Spending.antt =====
-- What the orchestrator has spent, under every sequence of calls.
use veronica.Prelude.{
  String, ◌≡◌, refl, sym, ap, ◌∙◌, Option, List, [], ◌∷◌, ◌++◌, eq_iff, inl, inr, arith,
}
use veronica.Prelude.Result.{Result-cases}
use veronica.Prelude.Dict.{Dict, get, get-put}
use veronica.Float.{Float, finite_or_zero}
use veronica.TimeGuard.{run_with_budget, Guarded-cases}
use veronica.Prelude.Int.{pos}
use veronica.Types.{StepIntent, StepOutcome, AnalysisResult, or_default}
use veronica.Collector.{ContextSnapshot}
use veronica.Orchestrator.{StepHandle, Stages, Config, Ambient, Os, chain_spent, Timed}
use veronica.Orchestrator.Before.{
  Begun, finish_step, grant, plan_stage, arbitrate_stage, before_step, budget_of,
}
use veronica.Orchestrator.After.{account, after_step, publish, record_outcome, analyze_stage}
use veronica.Orchestrator.Calls.{
  Call, before, after, call, run, charged, all_charged, if_ok, spend, of_chain,
}

module _ {F Pl Ar St Em : Type 0} where
  -- The ledger that the orchestrator keeps.
  abbrev pub ledger : Os F Pl Ar St Em → F × Dict F
  ledger s = (s.total_spent_usd, s.chain_spent_usd)

  -- What the orchestrator records of steps.
  abbrev pub records : Os F Pl Ar St Em → St × Em × Option AnalysisResult × F × Dict F
  records s = (s.store, s.emitter, s.last_analysis, s.total_spent_usd, s.chain_spent_usd)

module _ {F Pl Ar St Em : Type 0} ⦃fl : Float F⦄ (cfg : Config F) (amb : Ambient F)
    (stages : Stages F Pl Ar St Em) where
  finish_step-ledger :
      (begun : Begun F) (s : Os F Pl Ar St Em) (intent : StepIntent)
      → ledger (finish_step cfg amb stages begun s intent).0 ≡ ledger s
  unfolding finish_step plan_stage grant arbitrate_stage
  finish_step-ledger begun s intent = ground arith

  -- `finish_step` leaves alone what `after_step` records.
  pub finish_step-records :
      (begun : Begun F) (s : Os F Pl Ar St Em) (intent : StepIntent)
      → records (finish_step cfg amb stages begun s intent).0 ≡ records s
  unfolding finish_step plan_stage grant arbitrate_stage
  finish_step-records begun s intent = ground arith

  pub before_step-ledger :
      (s : Os F Pl Ar St Em) (intent : StepIntent)
      → ledger (before_step cfg amb stages s intent).0 ≡ ledger s
  unfolding before_step
  before_step-ledger s intent = grind (arith, finish_step-ledger)

  publish-ledger :
      (s : Os F Pl Ar St Em) (left : F) (handle : StepHandle F) (o : StepOutcome F) (t : F)
      → (analysis : Timed F AnalysisResult)
      → ledger (publish cfg amb stages s left handle o t analysis).0 ≡ ledger s
  unfolding publish
  publish-ledger s left handle o t analysis = ground arith

  account-total :
      (s : Os F Pl Ar St Em) (o : StepOutcome F) (a : AnalysisResult)
      → (account cfg amb stages s o a).total_spent_usd ≡ spend s.total_spent_usd (o ∷ [])
  unfolding account spend
  account-total s o a = refl

  account-chain :
      (s : Os F Pl Ar St Em) (o : StepOutcome F) (a : AnalysisResult) (c : String)
      → chain_spent (account cfg amb stages s o a) c ≡ spend (chain_spent s c) (of_chain c (o ∷ []))
  unfolding account spend
  account-chain s o a c = ground (
    arith,
    get-put o.chain_id c (fl.add (chain_spent s o.chain_id) (finite_or_zero o.cost_usd))
        s.chain_spent_usd,
    eq_iff o.chain_id c,
  )

  record_outcome-ledger :
      (s : Os F Pl Ar St Em) (handle : StepHandle F) (o : StepOutcome F) (t : F) (c : String)
      → let s' = (record_outcome cfg amb stages s handle o t).0 in
        (s'.total_spent_usd
          ≡ spend s.total_spent_usd (if_ok (analyze_stage cfg amb stages s handle o) o))
        × (chain_spent s' c
            ≡ spend
                (chain_spent s c)
                (of_chain c (if_ok (analyze_stage cfg amb stages s handle o) o)))
  unfolding record_outcome spend
  record_outcome-ledger s handle o t c =
      elim (Result-cases (analyze_stage cfg amb stages s handle o)) [
        | inr (e, failed) ↦ rw (failed, record_outcome) (refl, refl)
        | inl (analysis, done) ↦
            let s' = account cfg amb stages s o analysis.value in
            let left = fl.sub cfg.request_budget_usd s'.total_spent_usd in
            let kept = publish-ledger s' left handle o t analysis in
            rw (done, record_outcome)
              (
                ap (λ (l : F × Dict F). l.0) kept ∙ account-total s o analysis.value,
                ap (λ (l : F × Dict F). or_default (get c l.1) (fl.dec 0 0)) kept
                    ∙ account-chain s o analysis.value c,
              )
      ]

  -- What a call of `after_step` charges.
  after_step-ledger :
      (s : Os F Pl Ar St Em) (handle : StepHandle F) (snapshot : ContextSnapshot F) (c : String)
      → let s' = (after_step cfg amb stages s handle snapshot).0 in
        let charges = charged cfg stages s (after amb handle snapshot) in
        (s'.total_spent_usd ≡ spend s.total_spent_usd charges)
        × (chain_spent s' c ≡ spend (chain_spent s c) (of_chain c charges))
  unfolding after_step charged spend
  after_step-ledger s handle snapshot c =
      elim (Guarded-cases (
        run_with_budget (amb.reading "collector")
          (or_default (get "collector" cfg.budgets) (fl.dec 5 0)) (stages.collect snapshot))) [
            | inl (o, t, done) ↦
                rw (done, after_step, charged) (record_outcome-ledger s handle o t c)
            | inr (inl (t, late)) ↦ rw (late, after_step, charged) (refl, refl)
            | inr (inr (e, failed)) ↦ rw (failed, after_step, charged) (refl, refl)
          ]

module _ {F : Type 0} ⦃fl : Float F⦄ where
  spend-append :
      (total : F) (xs ys : List (StepOutcome F))
      → spend total (xs ++ ys) ≡ spend (spend total xs) ys
  unfolding spend
  spend-append total [] ys = refl
  spend-append total (x ∷ xs) ys = spend-append (fl.add total (finite_or_zero x.cost_usd)) xs ys

  of_chain-append :
      (c : String) (xs ys : List (StepOutcome F))
      → of_chain c (xs ++ ys) ≡ of_chain c xs ++ of_chain c ys
  of_chain-append c [] ys = refl
  of_chain-append c (x ∷ xs) ys = ground (arith, of_chain-append c xs ys)

module _ {F Pl Ar St Em : Type 0} ⦃fl : Float F⦄ (cfg : Config F)
    (stages : Stages F Pl Ar St Em) where
  call-ledger :
      (s : Os F Pl Ar St Em) (x : Call F) (c : String)
      → let s' = call cfg stages s x in
        (s'.total_spent_usd ≡ spend s.total_spent_usd (charged cfg stages s x))
        × (chain_spent s' c ≡ spend (chain_spent s c) (of_chain c (charged cfg stages s x)))
  unfolding call charged spend
  call-ledger s (after amb handle snapshot) c = after_step-ledger cfg amb stages s handle snapshot c
  call-ledger s (before amb intent) c =
      let kept = before_step-ledger cfg amb stages s intent in
      (
        ap (λ (l : F × Dict F). l.0) kept,
        ap (λ (l : F × Dict F). or_default (get c l.1) (fl.dec 0 0)) kept,
      )

  -- Whatever the stages do, after any interleaving of calls of `before_step` and `after_step` the
  -- total spent is the sum of the costs of the outcomes charged, in their order, and what a chain
  -- has spent is the sum over its own outcomes; a cost that is not finite counts as zero.
  pub run-spending :
      (s : Os F Pl Ar St Em) (calls : List (Call F)) (c : String)
      → let s' = run cfg stages s calls in
        let outcomes = all_charged cfg stages s calls in
        (s'.total_spent_usd ≡ spend s.total_spent_usd outcomes)
        × (chain_spent s' c ≡ spend (chain_spent s c) (of_chain c outcomes))
  unfolding run all_charged spend
  run-spending s [] c = (refl, refl)
  run-spending s (x ∷ calls) c =
      let s' = call cfg stages s x in
      let (total, chain) = call-ledger s x c in
      let (rest_total, rest_chain) = run-spending s' calls c in
      let here = charged cfg stages s x in
      let later = all_charged cfg stages s' calls in
      (
        rest_total
            ∙ ap (λ (t : F). spend t later) total
            ∙ sym (spend-append s.total_spent_usd here later),
        rest_chain
            ∙ ap (λ (t : F). spend t (of_chain c later)) chain
            ∙ sym (spend-append (chain_spent s c) (of_chain c here) (of_chain c later))
            ∙ sym (ap (spend (chain_spent s c)) (of_chain-append c here later)),
      )

  -- Steps that are begun one after another.
  abbrev pub begin_all : Os F Pl Ar St Em → List (Ambient F × StepIntent) → Os F Pl Ar St Em
  begin_all s [] = s
  begin_all s ((amb, intent) ∷ intents) = begin_all (before_step cfg amb stages s intent).0 intents

  -- However many steps are begun, and whatever they were granted, until one of them is recorded
  -- each further step of every chain is planned with the same budget.
  pub begin_all-budget_of :
      (s : Os F Pl Ar St Em) (intents : List (Ambient F × StepIntent)) (amb : Ambient F)
      → (c : String)
      → budget_of cfg amb stages (begin_all s intents) c ≡ budget_of cfg amb stages s c
  unfolding budget_of
  begin_all-budget_of s [] amb c = refl
  begin_all-budget_of s ((first, intent) ∷ intents) amb c =
      let kept = before_step-ledger cfg first stages s intent in
      begin_all-budget_of (before_step cfg first stages s intent).0 intents amb c
      ∙ ap
          (λ (l : F × Dict F). record {
            request_remaining_usd = fl.sub cfg.request_budget_usd l.0;
            chain_remaining_usd =
                fl.sub cfg.request_budget_usd (or_default (get c l.1) (fl.dec 0 0));
            window_remaining_steps = pos 100;
          })
          kept
