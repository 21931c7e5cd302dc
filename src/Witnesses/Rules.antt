-- ===== src/Witnesses/Rules.antt =====
-- The rules of the parts, each at one input.
use cs2_opt.Prelude.{
  ℕ, ◌+◌, ◌≡◌, ◌↔◌, refl, ok, some, none, List, [], ◌∷◌, true, false, ◌≤◌, arith, is_empty, not,
  inl, inr, ◌⊎◌, all, any, length,
}
use cs2_opt.Prelude.Text.{codes, text_eq, split_on, push_first, push_first}
use cs2_opt.Prelude.Float.{whole}
use cs2_opt.Prelude.Members.{In}
use cs2_opt.Catalog.Ids.{
  StepId, one, progress_key, from_progress_key, from_progress_key-progress_key, IsStepNumber,
}
use cs2_opt.Catalog.Kinds.{
  Risk, is_mutating, Depth, configuration, OperationKind, GpuApplicability, engine, operation_kind,
}
use cs2_opt.Catalog.Steps.{
  Step, step_id, step_catalog, step_by_id, phase_one_setup_steps, row, gpu_applicability,
  orchestration_role, one_of,
}
use cs2_opt.Catalog.Schedule.{step_by_id_iff, step_catalog_check_only}
use cs2_opt.Policy.{yolo, safe, recommended, auto, skip, decision}
use cs2_opt.Policy.Consent.{decision-auto_iff, decision-skip_mono}
use cs2_opt.Handoff.Format.{
  valid_relative_path, valid_user_sid, sid_parts, valid_generation_id, valid_sha256,
  canonical_decimal,
}
use cs2_opt.Handoff.Walk.{valid_relative_path_iff, is_backslash, windows_walk, walk, windows_parts}
use cs2_opt.Handoff.Stage.{RebootStage, stage_round_trip, stage_parse, stage_as_str, stage_eq}
use cs2_opt.Handoff.Transaction.{is_authorized_at, RebootTransaction, is_complete}
use cs2_opt.Handoff.Progression.{advance, advance-rank, recovery_required-final, stage_rank}
use cs2_opt.Progress.{default_progress}
use cs2_opt.Progress.Resolution.{
  mark, resolution, resolution-mark, mark-IsExclusive, IsExclusive, completes, skips, completed,
}
use cs2_opt.Audit.Rebuildable.{
  RebuildableTarget, cs2_shader_cache, directx_d3d_cache, targets_are_unique_and_nonempty,
  manual_recovery_audit, mixed, deduplicated_targets,
}
use cs2_opt.Audit.Manual.{
  IrreversibleAudit, manual, appx_removals, manual_pending, ManualRecoveryAuditOutcome,
  is_valid_pending_for, finalized, failed_audit, with_outcome, expected_manual_target,
}
use cs2_opt.Audit.Targets.{targets_are_unique_and_nonempty_iff, IsRising}
use cs2_opt.Audit.Lifecycle.{closed-is_valid_pending_for, is_valid_pending_for-binds}
use cs2_opt.Fps.{vrr, measured_fps_cap, BenchmarkCapture}
use cs2_opt.Fps.Headroom.{measured_fps_cap_iff}
use cs2_opt.Benchmark.Capture.{validate_for_transaction_iff, IsAccepted}
use cs2_opt.State.{validate, valid_baseline, validate_receipt}
use cs2_opt.State.Validation.{validate_iff, IsValid}
use cs2_opt.Migration.{assess_inventory, default_inventory}
use cs2_opt.Migration.Refusals.{assess-Refusal_iff, IsArmed, IsRefusal}
use cs2_opt.Orchestration.Facts.{PhaseRequest}
use cs2_opt.Orchestration.Recovery.{FailurePoint, recovery_for}
use cs2_opt.Orchestration.Compensations.{
  recovery_for-IsReached_iff, ClaimsNothing, Restores, IsReached,
}
use cs2_opt.Witnesses.Data.{transaction, receipt, complete_state, complete_progress}
use cs2_opt.Benchmark.Receipt.{validate_for_transaction, receipt_validate, valid_capture_timestamp}
use cs2_opt.Prelude.Keys.{contains, lookup}

abbrev handoff_id : StepId
handoff_id = step_id one 38

handoff_IsStepNumber : IsStepNumber 38
handoff_IsStepNumber = (ground arith, ground arith)

from_progress_key-progress_key_example :
    from_progress_key (progress_key handoff_id) ≡ some handoff_id
from_progress_key-progress_key_example =
    from_progress_key-progress_key handoff_id handoff_IsStepNumber

decision-auto_iff_example : decision yolo 2 Risk.aggressive ≡ auto
decision-auto_iff_example =
    (decision-auto_iff yolo 2 Risk.aggressive).1 (inr (inl (refl, ground arith)))

recommended_skips : decision recommended 2 Risk.aggressive ≡ skip
unfolding decision
recommended_skips = refl

decision-skip_mono_example : decision safe 2 Risk.critical ≡ skip
decision-skip_mono_example =
    decision-skip_mono safe recommended 2 Risk.critical Risk.aggressive (ground arith)
      (ground arith) recommended_skips

stage_round_trip_example :
    (stage_as_str (stage_parse (codes "phase3Armed")) ≡ codes "phase3Armed")
    × (stage_parse (stage_as_str RebootStage.phase_three_armed) ≡ RebootStage.phase_three_armed)
stage_round_trip_example = stage_round_trip (codes "phase3Armed") RebootStage.phase_three_armed refl

advance-rank_example :
    4
    ≤ stage_rank
        (advance transaction
          (RebootStage.phase_two_safe_mode ∷ RebootStage.recovery_required ∷ [])).stage
advance-rank_example =
    advance-rank transaction (RebootStage.phase_two_safe_mode ∷ RebootStage.recovery_required ∷ [])

abbrev stopped : RebootTransaction ℕ
stopped = record transaction { stage = RebootStage.recovery_required }

recovery_required-final_example :
    is_authorized_at
      (advance stopped (RebootStage.phase_three_armed ∷ []))
      RebootStage.phase_three_armed
    ≡ false
recovery_required-final_example =
    recovery_required-final stopped (RebootStage.phase_three_armed ∷ [])
      RebootStage.phase_three_armed refl (ground arith)

valid_path : valid_relative_path (codes "bin/app.exe") ≡ true
unfolding valid_relative_path
valid_path = refl

valid_relative_path_iff_example :
    (any is_backslash (codes "bin/app.exe") ≡ false)
    × (windows_walk 2 (codes "bin/app.exe")
        ≡ some (2 + length (split_on b'/' (codes "bin/app.exe"))))
valid_relative_path_iff_example = (valid_relative_path_iff (codes "bin/app.exe") 2).0 valid_path

-- What another drive or a backslash leads to.
drives_leave : windows_walk 2 (codes "C:..") ≡ none
unfolding windows_walk walk windows_parts any push_first
drives_leave = refl

backslashes_lead_up : windows_walk 0 (codes "bin\\..\\..") ≡ none
unfolding windows_walk walk windows_parts any text_eq push_first
backslashes_lead_up = refl

resolution-mark_example :
    resolution (mark (default_progress ℕ) handoff_id (completes (codes "now"))) handoff_id
    ≡ completed
resolution-mark_example =
    resolution-mark (default_progress ℕ) handoff_id handoff_id (completes (codes "now"))
      handoff_IsStepNumber handoff_IsStepNumber

nothing_recorded : IsExclusive (default_progress ℕ)
unfolding contains lookup
nothing_recorded k = (refl, refl, refl)

mark-IsExclusive_example : IsExclusive (mark (default_progress ℕ) handoff_id skips)
mark-IsExclusive_example = mark-IsExclusive (default_progress ℕ) handoff_id skips nothing_recorded

abbrev appx : IrreversibleAudit ℕ
appx = manual (manual_pending ℕ (codes "P1:13") (codes "now") appx_removals)

closed-is_valid_pending_for_example :
    (is_valid_pending_for (finalized appx (codes "later")) manual_recovery_audit (codes "P1:13")
      ≡ false)
    × (is_valid_pending_for
          (failed_audit appx (codes "later"))
          manual_recovery_audit
          (codes "P1:13")
        ≡ false)
closed-is_valid_pending_for_example =
    closed-is_valid_pending_for appx manual_recovery_audit (codes "P1:13") (codes "later")

appx_is_valid : is_valid_pending_for appx manual_recovery_audit (codes "P1:13") ≡ true
unfolding is_valid_pending_for text_eq expected_manual_target
appx_is_valid = refl

is_valid_pending_for-binds_example :
    (manual_recovery_audit ≡ manual_recovery_audit)
    × (codes "P1:13" ≡ codes "P1:13")
    × ((manual_recovery_audit ≡ manual_recovery_audit) ⊎ (manual_recovery_audit ≡ mixed))
    × (with_outcome (finalized appx (codes "now")) ManualRecoveryAuditOutcome.pending ≡ appx)
    × (with_outcome (failed_audit appx (codes "now")) ManualRecoveryAuditOutcome.pending ≡ appx)
is_valid_pending_for-binds_example =
    is_valid_pending_for-binds appx manual_recovery_audit manual_recovery_audit (codes "P1:13")
      (codes "P1:13") (codes "now") appx_is_valid appx_is_valid

recovery_for-IsReached_iff_example :
    (Restores PhaseRequest.phase_three FailurePoint.phase_three_driver_work
        (recovery_for PhaseRequest.phase_three FailurePoint.phase_three_driver_work)
      ↔ IsReached PhaseRequest.phase_three FailurePoint.phase_three_driver_work)
    × (ClaimsNothing (recovery_for PhaseRequest.phase_three FailurePoint.phase_three_driver_work)
        ↔ ¬ IsReached PhaseRequest.phase_three FailurePoint.phase_three_driver_work)
recovery_for-IsReached_iff_example =
    recovery_for-IsReached_iff PhaseRequest.phase_three FailurePoint.phase_three_driver_work

refused : IsArmed (some complete_state) (some complete_progress) default_inventory
refused = inr (inr (inr (inr (inr (inr (inl (transaction, refl)))))))

assess-Refusal_iff_example :
    IsRefusal (assess_inventory (some complete_state) (some complete_progress) default_inventory)
assess-Refusal_iff_example =
    (assess-Refusal_iff (some complete_state) (some complete_progress) default_inventory).1 refused

abbrev capture : BenchmarkCapture ℕ
capture = record { average_fps = 400; p1_fps = 240; runs = 5 }

measured_fps_cap_iff_example : measured_fps_cap (vrr 240 3) capture ≡ some 237
measured_fps_cap_iff_example =
    (measured_fps_cap_iff (vrr 240 3) capture 237).1
      (inr (ground arith, refl, (ground arith, refl, refl, refl, refl)))

abbrev two_targets : List RebuildableTarget
two_targets = cs2_shader_cache ∷ directx_d3d_cache ∷ []

targets_are_unique_and_nonempty_iff_example :
    ((targets_are_unique_and_nonempty two_targets ≡ true)
      ↔ ((is_empty two_targets ≡ false) × IsRising two_targets))
    × IsRising (deduplicated_targets two_targets)
targets_are_unique_and_nonempty_iff_example = targets_are_unique_and_nonempty_iff two_targets

validate_for_transaction_iff_example :
    IsAccepted receipt × (transaction.transaction_id ≡ some receipt.transaction_id)
unfolding validate_for_transaction receipt_validate valid_capture_timestamp text_eq
validate_for_transaction_iff_example = (validate_for_transaction_iff receipt transaction).0 refl

complete_is_valid : validate complete_state ≡ ok tt
unfolding validate valid_baseline validate_receipt validate_for_transaction receipt_validate
    valid_capture_timestamp text_eq is_authorized_at valid_user_sid sid_parts is_complete
    valid_generation_id valid_sha256 valid_relative_path stage_eq split_on all canonical_decimal
    lookup
complete_is_valid = refl

validate_iff_example : IsValid complete_state
validate_iff_example = (validate_iff complete_state).0 complete_is_valid

abbrev configuration_row : Step
configuration_row = record {
  id = step_id one 1;
  category = "System";
  title = "Configuration";
  tier = 1;
  risk = Risk.safe;
  depth = Depth.setup;
  check_only = false;
  reboot = false;
  intent = configuration;
  operation = OperationKind.setup;
  gpu_applicability = GpuApplicability.any;
  orchestration_role = engine;
}

configuration_is_listed : In configuration_row step_catalog
unfolding step_catalog phase_one_setup_steps row gpu_applicability orchestration_role operation_kind
    one_of any
configuration_is_listed = inl refl

step_by_id_iff_example : step_by_id (step_id one 1) ≡ some configuration_row
step_by_id_iff_example =
    (step_by_id_iff (step_id one 1) configuration_row).1 (configuration_is_listed, refl)

step_catalog_check_only_example :
    IsStepNumber 1 × (configuration_row.check_only ≡ not (is_mutating configuration))
step_catalog_check_only_example = step_catalog_check_only configuration_row configuration_is_listed
