-- ===== src/Engine/Completeness.antt =====
-- What a live run of crates/frametime-domain/src/engine.rs has recorded when it succeeds.
use cs2_opt.Prelude.{
  refl, ap, Bool, true, false, not, ◌≡◌, List, [], ◌∷◌, ok, inl, inr, if◌then◌else◌,
}
use cs2_opt.Prelude.Members.{In}
use cs2_opt.Prelude.Text.{Text}
use cs2_opt.Catalog.Ids.{StepId, progress_key}
use cs2_opt.Catalog.Steps.{Step}
use cs2_opt.Progress.{Progress}
use cs2_opt.Progress.Resolution.{
  Mark, mark, skips, completes, acknowledges, is_recorded, is_recorded-mark, is_recorded-mark_keeps,
}
use cs2_opt.Engine.Defs.{
  Backend, Control, Event, EngineError, Operation, RunReport, default_report, Inspection, satisfied,
  needs_apply, inapplicable, advisory, unsupported,
}
use cs2_opt.Engine.Log.{Entry, recording, quiet_control, progress_saved, inspected}
use cs2_opt.Engine.Kept.{Kept}
use cs2_opt.Engine.Safety.{run_mutation-Safe}
use cs2_opt.Engine.Exec.{◌>>=◌, pure}
use cs2_opt.Engine.Guarantees.{after_run, run_result}
use cs2_opt.Policy.{Profile}
use cs2_opt.Engine.Run.{
  run_live_step, record_advisory, run_step, complete_live_step, record_skip, run_steps,
  skip_recorded_or_cancelled, inspect_and_run, report_dry_run, one_skipped, one_completed,
  one_advisory, should_skip_for_policy, run_with_control,
}
use cs2_opt.Engine.Operations.{commit_progress}
use cs2_opt.Engine.Triple.{
  Condition, Triple, bind-Triple, then-Triple, call-Triple, relax-Triple, get_progress-Triple,
  event-Triple, raise-Triple, weaken-Triple, set_progress-Triple, if_false-Triple, decide-Triple,
  if-Triple, if_true-Triple, ask-Triple, give-Triple, tally-Triple, check-Triple, pure-Triple,
  on_success,
}
use cs2_opt.Engine.Guarded.{op_key}
use cs2_opt.Engine.Exec.{pure}
use cs2_opt.Engine.Trace.{
  run_observation-Safe, run_steps-Safe, run_step-Safe, should_skip_for_policy-Safe,
}

module _ {S V B R : Type 0} (b : Backend S V B R) where
  abbrev T : Type 0
  T = Entry V B R

  abbrev Any : Condition V T
  Any _ _ = Unit {0}

  abbrev Recorded : StepId → Condition V T
  Recorded id q _ = is_recorded q id ≡ true

  abbrev any_kept : Kept b
  any_kept = record {
    Inv = Any;
    ordinary = λ _ _ _ _ _. tt;
    applying = λ _ _ _ _ _ _. tt;
    committing = λ _ _ _ _ _. tt;
    not_committing = λ _ _ _ _ _. tt;
  }

  abbrev recorded_kept : StepId → Kept b
  recorded_kept j = record {
    Inv = Recorded j;
    ordinary = λ _ _ _ _ h. h;
    applying = λ _ _ _ _ _ h. h;
    committing = λ q id m _ h. is_recorded-mark_keeps q id j m h;
    not_committing = λ _ _ _ _ h. h;
  }

  -- A mark that was saved is held.
  commit_progress-Recorded :
      (p : Progress V) (id : StepId) (m : Mark) (k : Text)
      → Triple Any Any (commit_progress (recording b) (mark p id m) k) (λ _. Recorded id)
  unfolding commit_progress
  commit_progress-Recorded p id m k =
      then-Triple {Q = Any}
        (call-Triple (b.persist_progress (mark p id m)) (progress_saved (mark p id m))
          (EngineError.progress k) (λ _ _ _ _. tt) (λ _ _ _ _. tt))
        (set_progress-Triple (mark p id m) (λ _ _ _. is_recorded-mark p id m))

  module _ (live : b.is_dry_run ≡ false) where
    record_skip-Recorded :
        (step : Step) (k : Text) (persist : Bool)
        → persist ≡ true
        → Triple Any Any (record_skip (recording b) step k persist) (λ _. Recorded step.id)
    unfolding record_skip mark
    record_skip-Recorded step k persist e = then-Triple (event-Triple (Event.skip k)) (
        bind-Triple get_progress-Triple λ p.
          weaken-Triple {P = Any} (λ _ _ _. tt)
            (then-Triple (if_true-Triple (pure tt) e (commit_progress-Recorded p step.id skips k))
              (tally-Triple one_skipped)))

    complete_live_step-Recorded :
        (step : Step) (k : Text)
        → Triple Any Any (complete_live_step (recording b) step k) (λ _. Recorded step.id)
    unfolding complete_live_step mark
    complete_live_step-Recorded step k = bind-Triple get_progress-Triple λ p.
        weaken-Triple {P = Any} (λ _ _ _. tt)
          (bind-Triple (ask-Triple b.timestamp) λ now.
            then-Triple (commit_progress-Recorded p step.id (completes now) k)
              (then-Triple (event-Triple (Event.complete k)) (tally-Triple one_completed)))

    record_advisory-Recorded :
        (step : Step) (k reason : Text)
        → Triple Any Any (record_advisory (recording b) step k reason) (λ _. Recorded step.id)
    unfolding record_advisory mark
    record_advisory-Recorded step k reason = bind-Triple get_progress-Triple λ p.
        weaken-Triple {P = Any} (λ _ _ _. tt)
          (then-Triple (commit_progress-Recorded p step.id (acknowledges reason) k)
            (then-Triple (event-Triple (Event.advisory k reason)) (tally-Triple one_advisory)))

    run_live_step-Recorded :
        (c : Control S R) (op : Operation) (inspection : Inspection)
        → Triple Any Any
            (run_live_step (recording b) (quiet_control c) op (op_key op) inspection)
            (λ _. Recorded op.step.id)
    unfolding run_live_step
    run_live_step-Recorded c op unsupported =
        raise-Triple (EngineError.unsupported (op_key op)) (λ _ _ p. p)
    run_live_step-Recorded c op inapplicable = record_skip-Recorded op.step (op_key op) true refl
    run_live_step-Recorded c op (advisory reason) =
        record_advisory-Recorded op.step (op_key op) reason
    run_live_step-Recorded c op satisfied =
        then-Triple (run_observation-Safe b any_kept c op (op_key op))
          (complete_live_step-Recorded op.step (op_key op))
    run_live_step-Recorded c op needs_apply =
        then-Triple
          (if-Triple op.step.check_only (run_observation-Safe b any_kept c op (op_key op))
            (run_mutation-Safe b any_kept op))
          (complete_live_step-Recorded op.step (op_key op))

    inspect_and_run-Recorded :
        (c : Control S R) (op : Operation)
        → Triple Any Any
            (inspect_and_run (recording b) (quiet_control c) op (op_key op))
            (λ _. Recorded op.step.id)
    unfolding inspect_and_run
    inspect_and_run-Recorded c op = then-Triple (event-Triple (Event.inspect (op_key op))) (
        bind-Triple {Q = λ _. Any}
          (call-Triple (b.inspect op) (inspected op) (EngineError.inspect (op_key op))
            (λ _ _ _ _. tt) (λ _ _ _ _. tt))
          λ inspection.
            if_false-Triple (report_dry_run (recording b) op (op_key op) inspection) live
              (run_live_step-Recorded c op inspection))

    -- The answer `true` is given only for an action that is recorded.
    Answered : StepId → Bool → Condition V T
    Answered id true = Recorded id
    Answered id false = Any

    skip_recorded-Answered :
        (c : Control S R) (step : Step) (k : Text)
        → Triple Any Any
            (skip_recorded_or_cancelled (recording b) (quiet_control c) step k)
            (Answered step.id)
    unfolding skip_recorded_or_cancelled Answered
    skip_recorded-Answered c step k = bind-Triple get_progress-Triple λ p.
        decide-Triple (is_recorded p step.id) (λ e. give-Triple true (λ q log h. rw h.1 e))
          (weaken-Triple {P = Any} (λ _ _ _. tt)
            (if-Triple b.is_dry_run (give-Triple false (λ _ _ _. tt)) (
              bind-Triple (ask-Triple c.cancelled) λ stop.
                then-Triple (check-Triple (not stop) (EngineError.cancelled k) (λ _ _ p. p))
                  (give-Triple false (λ _ _ _. tt)))))

    run_step-Recorded :
        (c : Control S R) (profile : Profile) (step : Step)
        → Triple Any Any
            (run_step (recording b) (quiet_control c) profile step)
            (λ _. Recorded step.id)
    unfolding run_step Answered
    run_step-Recorded c profile step =
        bind-Triple (skip_recorded-Answered c step (progress_key step.id)) after_answer
      where
        after_answer :
            (recorded : Bool)
            → Triple Any
                (Answered step.id recorded)
                (if recorded then pure tt else (do
                  refused ← should_skip_for_policy (recording b) (quiet_control c) step profile
                  if refused
                      then record_skip (recording b) step (progress_key step.id) (not b.is_dry_run)
                      else inspect_and_run
                          (recording b)
                          (quiet_control c)
                          (record { step = step })
                          (progress_key step.id)))
                (λ _. Recorded step.id)
        after_answer true = pure-Triple tt
        after_answer false =
            bind-Triple (should_skip_for_policy-Safe b any_kept c step profile) λ refused.
              if-Triple refused
                (record_skip-Recorded step (progress_key step.id) (not b.is_dry_run) (ap not live))
                (inspect_and_run-Recorded c (record { step = step }))

    run_steps-Recorded :
        (c : Control S R) (profile : Profile) (steps : List Step) (step : Step)
        → In step steps
        → Triple Any Any
            (run_steps (recording b) (quiet_control c) profile steps)
            (λ _. Recorded step.id)
    unfolding run_steps
    run_steps-Recorded c profile [] step m = absurd m
    run_steps-Recorded c profile (first ∷ steps) step (inl e) =
        then-Triple (rw (← e) (run_step-Recorded c profile first))
          (relax-Triple (λ _ _ _. tt) (run_steps-Safe b (recorded_kept step.id) c profile steps))
    run_steps-Recorded c profile (first ∷ steps) step (inr m) =
        then-Triple (run_step-Safe b any_kept c profile first)
          (run_steps-Recorded c profile steps step m)

-- When a live run succeeds, the engine's progress has every action of the run recorded, in one of the
-- three ways that the engine leaves out of a later run.
pub live_run_records_all :
    {S V B R : Type 0} (b : Backend S V B R) (c : Control S R) (profile : Profile)
    (steps : List Step) (s : S) (p : Progress V) (report : RunReport) (step : Step)
    → b.is_dry_run ≡ false
    → In step steps
    → run_result b c profile steps s p ≡ ok report
    → is_recorded (after_run b c profile steps s p).progress step.id ≡ true
unfolding after_run run_result run_with_control
live_run_records_all b c profile steps s p report step live m e =
    on_success
      (then-Triple (tally-Triple (λ _. default_report)) (
        then-Triple (run_steps-Recorded b live c profile steps step m) (record { run = λ w q. q })))
      (record { outside = (s, []); progress = p; report = default_report }) report tt e
