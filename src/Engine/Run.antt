-- ===== src/Engine/Run.antt =====
-- The loop of crates/frametime-domain/src/engine.rs over the steps, live and dry.
use cs2_opt.Prelude.{
  Bool, true, false, not, ◌||◌, ok, List, [], ◌∷◌, if◌then◌else◌, String, suc, Result,
}
use cs2_opt.Prelude.Text.{Text}
use cs2_opt.Catalog.Steps.{Step}
use cs2_opt.Policy.{Profile, skip, prompt, auto, decision}
use cs2_opt.Catalog.Ids.{progress_key}
use cs2_opt.Progress.{
  Progress, is_resolved, has_advisory, complete_step, skip_step, acknowledge_step_advisory,
}
use cs2_opt.Engine.Defs.{
  Inspection, satisfied, needs_apply, inapplicable, advisory, unsupported, Event, EngineError,
  Operation, RunReport, default_report, Backend, Control,
}
use cs2_opt.Engine.Exec.{Exec, ◌>>=◌, ◌>>◌, pure, raise, call, ask, event, check}
use cs2_opt.Engine.Operations.{run_observation, run_mutation, commit_progress}

module _ {S V : Type 0} where
  -- `report.completed += 1` and its like.
  abbrev pub tally : (RunReport → RunReport) → Exec S V (Unit {0})
  tally f w = (ok tt, record w { report = f w.report })

  abbrev pub get_progress : Exec S V (Progress V)
  get_progress w = (ok w.progress, w)

abbrev pub one_completed : RunReport → RunReport
one_completed report = record report { completed = suc report.completed }

abbrev pub one_skipped : RunReport → RunReport
one_skipped report = record report { skipped = suc report.skipped }

abbrev pub one_advisory : RunReport → RunReport
one_advisory report = record report { advisories = suc report.advisories }

abbrev pub one_failed : RunReport → RunReport
one_failed report = record report { failed = suc report.failed }

module _ {S V : Type 0} where
  unfoldable pub push_plan : List String → Exec S V (Unit {0})
  push_plan [] = pure tt
  push_plan (line ∷ lines) = do event (Event.plan line); push_plan lines

  unfoldable pub count_dry_run : Text → Inspection → Exec S V (Unit {0})
  count_dry_run key inspection = elim inspection [
    | satisfied ↦ tally one_completed
    | needs_apply ↦ tally one_completed
    | inapplicable ↦ do event (Event.skip key); tally one_skipped
    | advisory reason ↦ do event (Event.advisory key reason); tally one_advisory
    | unsupported ↦ tally one_failed
  ]

module _ {S V B R : Type 0} (b : Backend S V B R) where
  unfoldable pub report_dry_run : Operation → Text → Inspection → Exec S V (Unit {0})
  report_dry_run op key inspection = do
    lines ← call (b.plan op) (EngineError.inspect key)
    push_plan lines
    count_dry_run key inspection

  unfoldable pub record_advisory : Step → Text → Text → Exec S V (Unit {0})
  unfolding commit_progress
  record_advisory step key reason = do
    progress ← get_progress
    commit_progress b (acknowledge_step_advisory progress step.id reason) key
    event (Event.advisory key reason)
    tally one_advisory

  unfoldable pub record_skip : Step → Text → Bool → Exec S V (Unit {0})
  unfolding commit_progress
  record_skip step key persist_progress = do
    event (Event.skip key)
    progress ← get_progress
    if persist_progress then commit_progress b (skip_step progress step.id) key else pure tt
    tally one_skipped

  unfoldable pub complete_live_step : Step → Text → Exec S V (Unit {0})
  unfolding commit_progress
  complete_live_step step key = do
    progress ← get_progress
    now ← ask b.timestamp
    commit_progress b (complete_step progress step.id now) key
    event (Event.complete key)
    tally one_completed

  unfoldable pub run_live_step : Control S R → Operation → Text → Inspection → Exec S V (Unit {0})
  run_live_step c op key inspection = elim inspection [
    | unsupported ↦ raise (EngineError.unsupported key)
    | inapplicable ↦ record_skip op.step key true
    | advisory reason ↦ record_advisory op.step key reason
    | satisfied ↦ do run_observation b c op key; complete_live_step op.step key
    | needs_apply ↦ do
      if op.step.check_only then run_observation b c op key else run_mutation b op key
      complete_live_step op.step key
  ]

  unfoldable pub skip_recorded_or_cancelled : Control S R → Step → Text → Exec S V Bool
  skip_recorded_or_cancelled c step key = do
    progress ← get_progress
    if is_resolved progress step.id || has_advisory progress step.id
        then pure true
        else if b.is_dry_run
        then pure false
        else (do stop ← ask c.cancelled; check (not stop) (EngineError.cancelled key); pure false)

  unfoldable pub should_skip_for_policy : Control S R → Step → Profile → Exec S V Bool
  should_skip_for_policy c step profile = elim (decision profile step.tier step.risk) [
    | skip ↦ pure true
    | prompt ↦
        if b.is_dry_run then pure false else (do agreed ← ask (c.consent step); pure (not agreed))
    | auto ↦ pure false
  ]

  unfoldable pub inspect_and_run : Control S R → Operation → Text → Exec S V (Unit {0})
  unfolding report_dry_run run_live_step
  inspect_and_run c op key = do
    event (Event.inspect key)
    inspection ← call (b.inspect op) (EngineError.inspect key)
    if b.is_dry_run then report_dry_run op key inspection else run_live_step c op key inspection

  unfoldable pub run_step : Control S R → Profile → Step → Exec S V (Unit {0})
  unfolding skip_recorded_or_cancelled should_skip_for_policy inspect_and_run
  run_step c profile step =
      let k = progress_key step.id in
      do
        recorded ← skip_recorded_or_cancelled c step k
        if recorded then pure tt else (do
          refused ← should_skip_for_policy c step profile
          if refused
              then record_skip step k (not b.is_dry_run)
              else inspect_and_run c (record { step = step }) k)

  unfoldable pub run_steps : Control S R → Profile → List Step → Exec S V (Unit {0})
  run_steps c profile [] = pure tt
  run_steps c profile (step ∷ steps) = do run_step c profile step; run_steps c profile steps

  -- A run starts an empty report.
  unfoldable pub run_with_control : Control S R → Profile → List Step → Exec S V RunReport
  run_with_control c profile steps = do
    tally (λ _. default_report)
    run_steps c profile steps
    (λ w. (ok w.report, w))

  -- Without a request to cancel; `validate_for` is a method of the receipts.
  unfoldable pub run_with_consent :
      (Step → S → Bool × S)
      → (R → Text → Result String (Unit {0}))
      → Profile
      → List Step
      → Exec S V RunReport
  unfolding run_with_control
  run_with_consent consent validate_for =
      run_with_control
        (record { consent = consent; cancelled = λ s. (false, s); validate_for = validate_for })

  -- Consent is never given.
  unfoldable pub run :
      (R → Text → Result String (Unit {0})) → Profile → List Step → Exec S V RunReport
  unfolding run_with_consent
  run validate_for = run_with_consent (λ step s. (false, s)) validate_for
