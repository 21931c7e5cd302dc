-- ===== src/Engine/DryRun.antt =====
-- Runs of crates/frametime-domain/src/engine.rs whose backend is for planning only.
use cs2_opt.Prelude.{
  refl, Bool, true, false, not, ◌≡◌, List, [], ◌∷◌, ◌||◌, Result, String, all, if◌then◌else◌,
}
use cs2_opt.Engine.Defs.{
  Backend, Control, Event, EngineError, Operation, Inspection, satisfied, needs_apply, inapplicable,
  advisory, unsupported, Call, default_report,
}
use cs2_opt.Engine.Guarantees.{after_run, conversation}
use cs2_opt.Engine.Log.{Entry, recording, quiet_control, noted, quiet}
use cs2_opt.Engine.Run.{
  run_with_control, push_plan, report_dry_run, record_skip, run_steps, run_step, inspect_and_run,
  should_skip_for_policy, count_dry_run, skip_recorded_or_cancelled, one_completed, one_skipped,
  one_advisory, one_failed,
}
use cs2_opt.Policy.{Profile, decision}
use cs2_opt.Engine.Log.{inspected, planned, Entry}
use cs2_opt.Progress.{Progress, is_resolved, has_advisory, skip_step}
use cs2_opt.Prelude.{ap, ok, err}
use cs2_opt.Catalog.Steps.{Step}
use cs2_opt.Policy.{skip, prompt, auto, Profile, Decision}
use cs2_opt.Engine.Triple.{
  Condition, Triple, tally-Triple, pure-Triple, then-Triple, bind-Triple, get_progress-Triple,
  call-Triple, event-Triple, weaken-Triple, if_true-Triple, if-Triple, if_false-Triple, either_way,
}
use cs2_opt.Prelude.Text.{Text}
use cs2_opt.Engine.Exec.{◌>>=◌, call, pure, ask}
use cs2_opt.Catalog.Ids.{progress_key}
use cs2_opt.Engine.Operations.{commit_progress}

-- A call that only looks: to inspect, or to plan.
abbrev pub is_reading : {V B R : Type 0} → Entry V B R → Bool
is_reading (inspected _ _) = true
is_reading (planned _ _) = true
is_reading _ = false

module _ {S V B R : Type 0} (b : Backend S V B R) (start : Progress V) where
  abbrev T : Type 0
  T = Entry V B R

  abbrev Dry : Condition V T
  Dry q log = (q ≡ start) × (all is_reading log ≡ true)

  read :
      {A : Type 0} (f : Call S A) (entry : Result String A → T) (wrap : String → EngineError)
      → ((r : Result String A) → is_reading (entry r) ≡ true)
      → Triple Dry Dry (call (noted f entry) wrap) (λ _. Dry)
  unfolding all
  read f entry wrap reads =
      call-Triple f entry wrap (λ a q log h. (h.0, rw (reads (ok a)) h.1))
        (λ m q log h. (h.0, rw (reads (err m)) h.1))

  push_plan-Dry :
      (lines : List String) → Triple Dry Dry (push_plan {S = S × List T} lines) (λ _. Dry)
  unfolding push_plan
  push_plan-Dry [] = pure-Triple tt
  push_plan-Dry (line ∷ lines) = then-Triple (event-Triple (Event.plan line)) (push_plan-Dry lines)

  count_dry_run-Dry :
      (k : Text) (inspection : Inspection)
      → Triple Dry Dry (count_dry_run {S = S × List T} k inspection) (λ _. Dry)
  unfolding count_dry_run
  count_dry_run-Dry k satisfied = tally-Triple one_completed
  count_dry_run-Dry k needs_apply = tally-Triple one_completed
  count_dry_run-Dry k inapplicable =
      then-Triple (event-Triple (Event.skip k)) (tally-Triple one_skipped)
  count_dry_run-Dry k (advisory reason) =
      then-Triple (event-Triple (Event.advisory k reason)) (tally-Triple one_advisory)
  count_dry_run-Dry k unsupported = tally-Triple one_failed

  report_dry_run-Dry :
      (op : Operation) (k : Text) (inspection : Inspection)
      → Triple Dry Dry (report_dry_run (recording b) op k inspection) (λ _. Dry)
  unfolding report_dry_run
  report_dry_run-Dry op k inspection =
      bind-Triple (read (b.plan op) (planned op) (EngineError.inspect k) (λ _. refl))
        λ lines. then-Triple (push_plan-Dry lines) (count_dry_run-Dry k inspection)

  module _ (dry : b.is_dry_run ≡ true) where
    inspect_and_run-Dry :
        (c : Control S R) (op : Operation) (k : Text)
        → Triple Dry Dry (inspect_and_run (recording b) (quiet_control c) op k) (λ _. Dry)
    unfolding inspect_and_run
    inspect_and_run-Dry c op k = then-Triple (event-Triple (Event.inspect k)) (
        bind-Triple (read (b.inspect op) (inspected op) (EngineError.inspect k) (λ _. refl))
          λ inspection. if_true-Triple _ dry (report_dry_run-Dry op k inspection))

    record_skip-Dry :
        (step : Step) (k : Text)
        → Triple Dry Dry (record_skip (recording b) step k (not b.is_dry_run)) (λ _. Dry)
    unfolding record_skip
    record_skip-Dry step k = then-Triple (event-Triple (Event.skip k)) (
        bind-Triple get_progress-Triple λ p.
          weaken-Triple (λ _ _ h. h.0)
            (then-Triple
              (if_false-Triple (commit_progress (recording b) (skip_step p step.id) k) (ap not dry)
                (pure-Triple tt))
              (tally-Triple one_skipped)))

    should_skip_for_policy-Dry :
        (c : Control S R) (step : Step) (profile : Profile)
        → Triple Dry Dry
            (should_skip_for_policy (recording b) (quiet_control c) step profile)
            (λ _. Dry)
    unfolding should_skip_for_policy
    should_skip_for_policy-Dry c step profile = by_decision (decision profile step.tier step.risk)
      where
        by_decision :
            (d : Decision)
            → Triple {S = S} Dry Dry
                (elim d [
                  | skip ↦ pure true
                  | prompt ↦
                      if b.is_dry_run
                      then pure false
                      else (do agreed ← ask (quiet (c.consent step)); pure (not agreed))
                  | auto ↦ pure false
                ])
                (λ _. Dry)
        by_decision skip = pure-Triple true
        by_decision prompt = if_true-Triple _ dry (pure-Triple false)
        by_decision auto = pure-Triple false

    run_step-Dry :
        (c : Control S R) (profile : Profile) (step : Step)
        → Triple Dry Dry (run_step (recording b) (quiet_control c) profile step) (λ _. Dry)
    unfolding run_step skip_recorded_or_cancelled
    run_step-Dry c profile step =
        bind-Triple
          (bind-Triple get_progress-Triple λ p.
            weaken-Triple (λ _ _ h. h.0)
              (if-Triple (is_resolved p step.id || has_advisory p step.id) (pure-Triple true)
                (if_true-Triple _ dry (pure-Triple false))))
          λ recorded. if-Triple recorded (pure-Triple tt) (
            bind-Triple (should_skip_for_policy-Dry c step profile) λ refused.
              if-Triple refused (record_skip-Dry step (progress_key step.id))
                (inspect_and_run-Dry c (record { step = step }) (progress_key step.id)))

    run_steps-Dry :
        (c : Control S R) (profile : Profile) (steps : List Step)
        → Triple Dry Dry (run_steps (recording b) (quiet_control c) profile steps) (λ _. Dry)
    unfolding run_steps
    run_steps-Dry c profile [] = pure-Triple tt
    run_steps-Dry c profile (step ∷ steps) =
        then-Triple (run_step-Dry c profile step) (run_steps-Dry c profile steps)

-- A run whose backend is for planning only calls it for nothing but inspections and plans, and ends
-- with the progress that it began with.
pub dry_run_only_reads :
    {S V B R : Type 0} (b : Backend S V B R) (c : Control S R) (profile : Profile)
    (steps : List Step) (s : S) (p : Progress V)
    → b.is_dry_run ≡ true
    → (all is_reading (conversation b c profile steps s p) ≡ true)
      × ((after_run b c profile steps s p).progress ≡ p)
unfolding after_run run_with_control all
dry_run_only_reads b c profile steps s p dry =
    let kept : ((after_run b c profile steps s p).progress ≡ p)
        × (all is_reading (conversation b c profile steps s p) ≡ true) =
      either_way
        (then-Triple (tally-Triple (λ _. default_report))
          (then-Triple (run_steps-Dry b p dry c profile steps) (record { run = λ w q. q })))
        (record { outside = (s, []); progress = p; report = default_report }) (refl, refl) in
    (kept.1, kept.0)
