-- ===== src/Witnesses/Engine.antt =====
-- A run of one mutating action on a backend where every call succeeds.
use cs2_opt.Prelude.{ℕ, Bool, true, false, ◌≡◌, refl, ok, [], ◌∷◌, all, suc, inl}
use cs2_opt.Prelude.Text.{codes, show_u8}
use cs2_opt.Audit.Rebuildable.{
  RebuildableAudit, lossless_backup, RebuildableAuditOutcome, p1_3_rebuildable_targets,
}
use cs2_opt.Audit.Manual.{manual, appx_removals, manual_pending}
use cs2_opt.Catalog.Kinds.{Risk, Depth, pagefile, OperationKind, GpuApplicability, engine}
use cs2_opt.Catalog.Steps.{Step, step_id}
use cs2_opt.Progress.{default_progress, is_completed, is_skipped, has_advisory}
use cs2_opt.Policy.{yolo, decision, maximum_risk}
use cs2_opt.Engine.Defs.{RunReport, Event, Backend, Control, Inspection, Call, none_required}
use cs2_opt.Engine.Guarded.{Guarded}
use cs2_opt.Engine.Operations.{capture_lossless_backups, apply_and_verify, commit_progress}
use cs2_opt.Engine.Guarantees.{
  run_result, conversation, after_run, conversation-Guarded, progress_is_saved, last_saved,
}
use cs2_opt.Engine.DryRun.{dry_run_only_reads, is_reading}
use cs2_opt.Catalog.Ids.{one, progress_key}
use cs2_opt.Progress.Resolution.{is_recorded}
use cs2_opt.Engine.Run.{
  run_with_control, run_steps, run_step, skip_recorded_or_cancelled, should_skip_for_policy,
  inspect_and_run, run_live_step, complete_live_step,
}
use cs2_opt.Engine.Completeness.{live_run_records_all}
use cs2_opt.Engine.Operations.{run_mutation, run_lossless_operation, capture_lossless_backups}
use cs2_opt.Prelude.Keys.{contains, lookup}

abbrev succeed : {A : Type 0} → A → Call ℕ A
succeed a s = (ok a, suc s)

abbrev shader_audit : RebuildableAudit ℕ
shader_audit = record {
  step = codes "P1:8";
  captured_at = codes "now";
  targets = p1_3_rebuildable_targets;
  outcome = RebuildableAuditOutcome.pending;
  unknown_fields = [];
}

abbrev backend : Bool → Backend ℕ ℕ ℕ ℕ
backend dry = record {
  is_dry_run = dry;
  recovery_requirement = λ op. lossless_backup;
  evidence_requirement = λ op. none_required;
  inspect = λ op. succeed Inspection.needs_apply;
  plan = λ op. succeed ("set the page file" ∷ []);
  capture_backups = λ op. succeed (7 ∷ []);
  persist_backups = λ bs. succeed tt;
  capture_pending_audit = λ op. succeed shader_audit;
  persist_pending_audit = λ a. succeed tt;
  finalize_audit = λ a. succeed tt;
  capture_pending_irreversible_audit =
      λ op. succeed (manual (manual_pending ℕ (codes "P1:13") (codes "now") appx_removals));
  persist_pending_irreversible_audit = λ a. succeed tt;
  finalize_irreversible_audit = λ a. succeed tt;
  fail_irreversible_audit = λ a. succeed tt;
  capture_evidence = λ op. succeed 0;
  persist_evidence = λ r. succeed tt;
  verify_evidence = λ op r. succeed tt;
  apply = λ op. succeed tt;
  verify = λ op. succeed tt;
  persist_progress = λ p. succeed tt;
  timestamp = λ s. (codes "now", s);
}

abbrev control : Control ℕ ℕ
control = record {
  consent = λ step s. (true, s);
  cancelled = λ s. (false, s);
  validate_for = λ r k. ok tt;
}

abbrev pagefile_row : Step
pagefile_row = record {
  id = step_id one 8;
  category = "System";
  title = "Pagefile";
  tier = 2;
  risk = Risk.moderate;
  depth = Depth.registry;
  check_only = false;
  reboot = true;
  intent = pagefile;
  operation = OperationKind.registry;
  gpu_applicability = GpuApplicability.any;
  orchestration_role = engine;
}

conversation-Guarded_example :
    Guarded
      (λ op. lossless_backup)
      (conversation (backend false) control yolo (pagefile_row ∷ []) 0 (default_progress ℕ))
conversation-Guarded_example =
    conversation-Guarded (backend false) control yolo (pagefile_row ∷ []) 0 (default_progress ℕ)

progress_is_saved_example :
    (after_run (backend false) control yolo (pagefile_row ∷ []) 0 (default_progress ℕ)).progress
    ≡ last_saved
        (default_progress ℕ)
        (conversation (backend false) control yolo (pagefile_row ∷ []) 0 (default_progress ℕ))
progress_is_saved_example =
    progress_is_saved (backend false) control yolo (pagefile_row ∷ []) 0 (default_progress ℕ)

dry_run_only_reads_example :
    (all is_reading
        (conversation (backend true) control yolo (pagefile_row ∷ []) 0 (default_progress ℕ))
      ≡ true)
    × ((after_run (backend true) control yolo (pagefile_row ∷ []) 0 (default_progress ℕ)).progress
        ≡ default_progress ℕ)
dry_run_only_reads_example =
    dry_run_only_reads (backend true) control yolo (pagefile_row ∷ []) 0 (default_progress ℕ) refl

abbrev pagefile_report : RunReport
pagefile_report = record {
  events =
      Event.inspect (codes "P1:8")
      ∷ Event.capture_backup (codes "P1:8")
      ∷ Event.persist_backup (codes "P1:8")
      ∷ Event.apply (codes "P1:8")
      ∷ Event.verify (codes "P1:8")
      ∷ Event.complete (codes "P1:8")
      ∷ [];
  completed = 1;
  skipped = 0;
  advisories = 0;
  failed = 0;
}

pagefile_run :
    run_result (backend false) control yolo (pagefile_row ∷ []) 0 (default_progress ℕ)
    ≡ ok pagefile_report
unfolding run_result run_with_control run_steps run_step skip_recorded_or_cancelled
    should_skip_for_policy decision maximum_risk inspect_and_run run_live_step run_mutation
    run_lossless_operation capture_lossless_backups apply_and_verify complete_live_step
    commit_progress is_completed is_skipped has_advisory contains lookup progress_key show_u8
pagefile_run = refl

live_run_records_all_example :
    is_recorded
      (after_run (backend false) control yolo (pagefile_row ∷ []) 0 (default_progress ℕ)).progress
      (step_id one 8)
    ≡ true
live_run_records_all_example =
    live_run_records_all (backend false) control yolo (pagefile_row ∷ []) 0 (default_progress ℕ)
      pagefile_report pagefile_row refl (inl refl) pagefile_run
