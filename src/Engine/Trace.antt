-- ===== src/Engine/Trace.antt =====
-- Invariants through a whole run: the loop of crates/frametime-domain/src/engine.rs.
use cs2_opt.Prelude.{◌≡◌, refl, Bool, true, false, List, [], ◌∷◌, String, not, if◌then◌else◌, ◌||◌}
use cs2_opt.Prelude.Text.{Text}
use cs2_opt.Progress.{Progress, is_resolved, has_advisory}
use cs2_opt.Policy.{Profile, Decision, skip, prompt, auto, decision}
use cs2_opt.Catalog.Steps.{Step}
use cs2_opt.Engine.Defs.{
  Operation, Backend, Event, EngineError, Control, Inspection, satisfied, needs_apply, inapplicable,
  advisory, unsupported, EvidenceRequirement, none_required, durable_receipt,
}
use cs2_opt.Engine.Exec.{◌>>◌, ◌>>=◌, call, event, pure, ask}
use cs2_opt.Engine.Triple.{
  if-Triple, Triple, then-Triple, set_progress-Triple, event-Triple, bind-Triple, pure-Triple,
  tally-Triple, raise-Triple, get_progress-Triple, outright-Triple, weaken-Triple, ask-Triple,
  check-Triple, call-Triple,
}
use cs2_opt.Engine.Operations.{run_observation, commit_progress, run_evidence_operation}
use cs2_opt.Engine.Guarded.{op_key}
use mathlib.Core.Path.{subst}
use cs2_opt.Progress.Resolution.{Mark, mark, skips, completes, acknowledges}
use cs2_opt.Engine.Kept.{Kept}
use cs2_opt.Engine.Safety.{T, Safe, recorder, told, run_mutation-Safe}
use cs2_opt.Engine.Log.{
  quiet_control, progress_saved, Entry, evidence_captured, inspected, quiet, planned,
  evidence_saved, evidence_verified,
}
use cs2_opt.Engine.Run.{
  record_advisory, count_dry_run, complete_live_step, push_plan, should_skip_for_policy, run_steps,
  run_live_step, run_step, record_skip, inspect_and_run, report_dry_run, skip_recorded_or_cancelled,
  one_completed, one_skipped, one_advisory, one_failed,
}
use cs2_opt.Catalog.Ids.{StepId, progress_key}

module _ {S V B R : Type 0} (b : Backend S V B R) (kept : Kept b) where
  -- The progress that is saved records an action on top of the progress that is held.
  commit_progress-Safe :
      (p : Progress V) (id : StepId) (m : Mark) (k : Text)
      → Triple
          (Safe b kept)
          (λ q log. Safe b kept q log × (q ≡ p))
          (commit_progress (recorder b kept) (mark p id m) k)
          (λ _. Safe b kept)
  unfolding commit_progress
  commit_progress-Safe p id m k =
      then-Triple {Q = λ q log. Safe b kept (mark p id m) log}
        (call-Triple (b.persist_progress (mark p id m)) (progress_saved (mark p id m))
          (EngineError.progress k)
          (λ _ q log h. kept.committing p id m log (subst (λ x. Safe b kept x log) h.1 h.0))
          (λ e q log h. kept.not_committing (mark p id m) q e log h.0))
        (set_progress-Triple (mark p id m) (λ _ _ h. h))

  pub run_observation-Safe :
      (c : Control S R) (op : Operation) (k : Text)
      → Triple
          (Safe b kept)
          (Safe b kept)
          (run_observation (recorder b kept) (quiet_control c) op k)
          (λ _. Safe b kept)
  unfolding run_observation run_evidence_operation
  run_observation-Safe c op k = by_requirement (b.evidence_requirement op)
    where
      verify_event :
          Triple
            (Safe b kept)
            (Safe b kept)
            (do call ((recorder b kept).verify op) (EngineError.verify k); event (Event.verify k))
            (λ _. Safe b kept)
      verify_event =
          then-Triple
            (told b kept (b.verify op) (Entry.verified op) (EngineError.verify k) (λ _. refl))
            (event-Triple (Event.verify k))

      by_requirement :
          (r : EvidenceRequirement)
          → Triple
              (Safe b kept)
              (Safe b kept)
              (elim r [
                | durable_receipt ↦ run_evidence_operation (recorder b kept) (quiet_control c) op k
                | none_required ↦ do
                  call ((recorder b kept).verify op) (EngineError.verify k)
                  event (Event.verify k)
              ])
              (λ _. Safe b kept)
      by_requirement none_required = verify_event
      by_requirement durable_receipt = then-Triple (event-Triple (Event.capture_evidence k)) (
          bind-Triple
            (told b kept (b.capture_evidence op) (evidence_captured op)
              (EngineError.evidence_capture k) (λ _. refl))
            λ receipt.
              then-Triple
                (outright-Triple (c.validate_for receipt k) (EngineError.evidence_capture k)
                  (λ _ _ p. p))
                (then-Triple
                  (told b kept (b.persist_evidence receipt) (evidence_saved receipt)
                    (EngineError.evidence_persist k) (λ _. refl))
                  (then-Triple (event-Triple (Event.persist_evidence k)) (
                    then-Triple
                      (told b kept (b.verify_evidence op receipt) (evidence_verified op receipt)
                        (EngineError.evidence_verify k) (λ _. refl))
                      (then-Triple (event-Triple (Event.verify_evidence k)) verify_event)))))

  record_skip-Safe :
      (step : Step) (k : Text) (persist : Bool)
      → Triple
          (Safe b kept)
          (Safe b kept)
          (record_skip (recorder b kept) step k persist)
          (λ _. Safe b kept)
  unfolding record_skip mark
  record_skip-Safe step k persist = then-Triple (event-Triple (Event.skip k)) (
      bind-Triple get_progress-Triple λ p.
        then-Triple
          (if-Triple persist (commit_progress-Safe p step.id skips k)
            (weaken-Triple (λ _ _ h. h.0) (pure-Triple tt)))
          (tally-Triple one_skipped))

  record_advisory-Safe :
      (step : Step) (k reason : Text)
      → Triple
          (Safe b kept)
          (Safe b kept)
          (record_advisory (recorder b kept) step k reason)
          (λ _. Safe b kept)
  unfolding record_advisory mark
  record_advisory-Safe step k reason = bind-Triple get_progress-Triple λ p.
      then-Triple (commit_progress-Safe p step.id (acknowledges reason) k)
        (then-Triple (event-Triple (Event.advisory k reason)) (tally-Triple one_advisory))

  complete_live_step-Safe :
      (step : Step) (k : Text)
      → Triple
          (Safe b kept)
          (Safe b kept)
          (complete_live_step (recorder b kept) step k)
          (λ _. Safe b kept)
  unfolding complete_live_step mark
  complete_live_step-Safe step k = bind-Triple get_progress-Triple λ p.
      bind-Triple (ask-Triple b.timestamp) λ now.
        then-Triple (commit_progress-Safe p step.id (completes now) k)
          (then-Triple (event-Triple (Event.complete k)) (tally-Triple one_completed))

  run_live_step-Safe :
      (c : Control S R) (op : Operation) (inspection : Inspection)
      → Triple
          (Safe b kept)
          (Safe b kept)
          (run_live_step (recorder b kept) (quiet_control c) op (op_key op) inspection)
          (λ _. Safe b kept)
  unfolding run_live_step
  run_live_step-Safe c op unsupported =
      raise-Triple (EngineError.unsupported (op_key op)) (λ _ _ p. p)
  run_live_step-Safe c op inapplicable = record_skip-Safe op.step (op_key op) true
  run_live_step-Safe c op (advisory reason) = record_advisory-Safe op.step (op_key op) reason
  run_live_step-Safe c op satisfied =
      then-Triple (run_observation-Safe c op (op_key op))
        (complete_live_step-Safe op.step (op_key op))
  run_live_step-Safe c op needs_apply =
      then-Triple
        (if-Triple op.step.check_only (run_observation-Safe c op (op_key op))
          (run_mutation-Safe b kept op))
        (complete_live_step-Safe op.step (op_key op))

  push_plan-Safe :
      (lines : List String)
      → Triple
          (Safe b kept)
          (Safe b kept)
          (push_plan {S = S × List (T b kept)} lines)
          (λ _. Safe b kept)
  unfolding push_plan
  push_plan-Safe [] = pure-Triple tt
  push_plan-Safe (line ∷ lines) =
      then-Triple (event-Triple (Event.plan line)) (push_plan-Safe lines)

  count_dry_run-Safe :
      (k : Text) (inspection : Inspection)
      → Triple
          (Safe b kept)
          (Safe b kept)
          (count_dry_run {S = S × List (T b kept)} k inspection)
          (λ _. Safe b kept)
  unfolding count_dry_run
  count_dry_run-Safe k satisfied = tally-Triple one_completed
  count_dry_run-Safe k needs_apply = tally-Triple one_completed
  count_dry_run-Safe k inapplicable =
      then-Triple (event-Triple (Event.skip k)) (tally-Triple one_skipped)
  count_dry_run-Safe k (advisory reason) =
      then-Triple (event-Triple (Event.advisory k reason)) (tally-Triple one_advisory)
  count_dry_run-Safe k unsupported = tally-Triple one_failed

  inspect_and_run-Safe :
      (c : Control S R) (op : Operation)
      → Triple
          (Safe b kept)
          (Safe b kept)
          (inspect_and_run (recorder b kept) (quiet_control c) op (op_key op))
          (λ _. Safe b kept)
  unfolding inspect_and_run report_dry_run
  inspect_and_run-Safe c op =
      let k = op_key op in
      then-Triple (event-Triple (Event.inspect k)) (
        bind-Triple (told b kept (b.inspect op) (inspected op) (EngineError.inspect k) (λ _. refl))
          λ inspection.
            if-Triple b.is_dry_run
              (bind-Triple
                (told b kept (b.plan op) (planned op) (EngineError.inspect k) (λ _. refl))
                λ lines. then-Triple (push_plan-Safe lines) (count_dry_run-Safe k inspection))
              (run_live_step-Safe c op inspection))

  pub should_skip_for_policy-Safe :
      (c : Control S R) (step : Step) (profile : Profile)
      → Triple
          (Safe b kept)
          (Safe b kept)
          (should_skip_for_policy (recorder b kept) (quiet_control c) step profile)
          (λ _. Safe b kept)
  unfolding should_skip_for_policy
  should_skip_for_policy-Safe c step profile = by_decision (decision profile step.tier step.risk)
    where
      by_decision :
          (d : Decision)
          → Triple {S = S}
              (Safe b kept)
              (Safe b kept)
              (elim d [
                | skip ↦ pure true
                | prompt ↦
                    if b.is_dry_run
                    then pure false
                    else (do agreed ← ask (quiet (c.consent step)); pure (not agreed))
                | auto ↦ pure false
              ])
              (λ _. Safe b kept)
      by_decision skip = pure-Triple true
      by_decision prompt =
          if-Triple b.is_dry_run (pure-Triple false)
            (bind-Triple (ask-Triple (c.consent step)) λ agreed. pure-Triple (not agreed))
      by_decision auto = pure-Triple false

  pub run_step-Safe :
      (c : Control S R) (profile : Profile) (step : Step)
      → Triple
          (Safe b kept)
          (Safe b kept)
          (run_step (recorder b kept) (quiet_control c) profile step)
          (λ _. Safe b kept)
  unfolding run_step skip_recorded_or_cancelled
  run_step-Safe c profile step =
      let k = progress_key step.id in
      bind-Triple
        (bind-Triple get_progress-Triple λ p.
          weaken-Triple (λ _ _ h. h.0)
            (if-Triple (is_resolved p step.id || has_advisory p step.id) (pure-Triple true) (
              if-Triple b.is_dry_run (pure-Triple false) (
                bind-Triple (ask-Triple c.cancelled) λ stop.
                  then-Triple (check-Triple (not stop) (EngineError.cancelled k) (λ _ _ p. p))
                    (weaken-Triple (λ _ _ h. h.0) (pure-Triple false))))))
        λ recorded. if-Triple recorded (pure-Triple tt) (
          bind-Triple (should_skip_for_policy-Safe c step profile) λ refused.
            if-Triple refused (record_skip-Safe step k (not b.is_dry_run))
              (inspect_and_run-Safe c (record { step = step })))

  pub run_steps-Safe :
      (c : Control S R) (profile : Profile) (steps : List Step)
      → Triple
          (Safe b kept)
          (Safe b kept)
          (run_steps (recorder b kept) (quiet_control c) profile steps)
          (λ _. Safe b kept)
  unfolding run_steps
  run_steps-Safe c profile [] = pure-Triple tt
  run_steps-Safe c profile (step ∷ steps) =
      then-Triple (run_step-Safe c profile step) (run_steps-Safe c profile steps)
