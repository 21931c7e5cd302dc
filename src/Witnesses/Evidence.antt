-- ===== src/Witnesses/Evidence.antt =====
-- Configuration and benchmark commits, each at one input.
use cs2_opt.Prelude.{
  ℕ, ◌≡◌, refl, ok, some, none, [], ◌∷◌, true, false, map, any, all, drop, filter, last,
}
use cs2_opt.Prelude.Text.{Text, codes, text_eq, to_ascii_lowercase, show_u8, lower, split_on}
use cs2_opt.Prelude.Float.{whole, whole_laws}
use cs2_opt.Fps.{BenchmarkCapture, measured_fps_cap, sustainable_cap}
use cs2_opt.Config.{
  Config, vrr_mode, config_validate, cs2_shader_cache_templates, nvidia_dx_cache_template,
  nvidia_gl_cache_template, directx_shader_cache_template, check_shader_caches, fps_cap_strategy,
}
use cs2_opt.Config.Rules.{config_validate_iff, IsConfig}
use cs2_opt.Catalog.Ids.{progress_key}
use cs2_opt.Catalog.Steps.{
  Step, phase_three_final_benchmark, gpu_applicability, one_of, orchestration_role,
  phase_one_guidance_steps, phase_one_handoff_steps, phase_one_inventory_steps,
  phase_one_setup_steps, phase_three_steps, phase_two_steps, row, step_catalog,
  phase_one_baseline_benchmark,
}
use cs2_opt.Handoff.Stage.{RebootStage, allows_transition_to, stage_eq}
use cs2_opt.Progress.{Progress, default_progress, complete_step, is_completed, is_skipped}
use cs2_opt.State.{State, default_state, validate, valid_baseline, validate_receipt}
use cs2_opt.Benchmark.Receipt.{
  BenchmarkRecord, matches_history_record, receipt_new, receipt_validate, valid_capture_timestamp,
  validate_for_transaction, baseline_benchmark_label,
}
use cs2_opt.Benchmark.Final.{
  FinalBenchmarkCommit, phase_three_engine_steps, prepare_final_benchmark_commit,
  validate_persisted_final_benchmark, commit_receipt, final_record, prepare_for_config,
}
use cs2_opt.Benchmark.FinalReadback.{prepare_final-persisted}
use cs2_opt.Witnesses.Data.{transaction, receipt}
use cs2_opt.Prelude.Keys.{contains, insert, lookup}
use cs2_opt.Benchmark.History.{
  append_benchmark_record, retain_newest, validate_history, validate_complete_capture,
}
use cs2_opt.Catalog.Kinds.{operation_kind}
use cs2_opt.Handoff.Format.{
  canonical_decimal, sid_parts, valid_generation_id, valid_relative_path, valid_sha256,
  valid_user_sid,
}
use cs2_opt.Handoff.Transaction.{is_authorized_at, is_complete, transition_to}
use cs2_opt.Benchmark.Baseline.{
  prepare_baseline_benchmark_commit, validate_persisted_baseline_benchmark, BaselineBenchmarkCommit,
  with_baseline,
}
use cs2_opt.Benchmark.BaselineRetry.{prepare_baseline-persisted, prepare_baseline-retry}

abbrev config : Config
config = record {
  fps_cap = record {
    strategy = vrr_mode;
    measured_cap = 0;
    refresh_hz = 240;
    ceiling_margin_hz = 3;
  };
  paths = record {
    shader_cache = cs2_shader_cache_templates;
    nvidia_dx_cache = nvidia_dx_cache_template;
    nvidia_gl_cache = nvidia_gl_cache_template;
    directx_shader_cache = directx_shader_cache_template;
  };
  autostart_remove = [];
}

config_is_valid : config_validate config ≡ ok tt
unfolding config_validate cs2_shader_cache_templates check_shader_caches contains insert text_eq
    to_ascii_lowercase nvidia_dx_cache_template nvidia_gl_cache_template
    directx_shader_cache_template
config_is_valid = refl

config_validate_iff_example : IsConfig config
config_validate_iff_example = (config_validate_iff config).0 config_is_valid

abbrev capture : BenchmarkCapture ℕ
capture = record { average_fps = 400; p1_fps = 240; runs = 5 }

abbrev armed_state : State ℕ ℕ
armed_state = record (default_state ℕ) {
  active_reboot_transaction = some (record transaction { stage = RebootStage.phase_three_armed });
}

abbrev ready_progress : Progress ℕ
ready_progress = record (default_progress ℕ) {
  phase = 3;
  completed_steps = codes "P3:1" ∷ map (λ (s : Step). progress_key s.id) phase_three_engine_steps;
}

abbrev at : Text
at = codes "2025-01-02 03:04:05"

abbrev final_commit : FinalBenchmarkCommit ℕ ℕ
final_commit = record {
  state = record armed_state {
    fps_cap = 237;
    avg_fps = 400;
    p1_fps = some 240;
    cap_date = some at;
    final_benchmark = some (record receipt { fps_cap = 237 });
    active_reboot_transaction =
        some
          (record transaction { stage = RebootStage.phase_three_complete; updated_utc = some at });
  };
  progress = complete_step ready_progress phase_three_final_benchmark at;
  history = final_record (record receipt { fps_cap = 237 }) ∷ [];
  receipt = record receipt { fps_cap = 237 };
}

final_is_prepared :
    prepare_final_benchmark_commit armed_state ready_progress [] config receipt.receipt_id at
      capture
    ≡ ok final_commit
unfolding prepare_final_benchmark_commit config_validate cs2_shader_cache_templates
    check_shader_caches contains text_eq insert to_ascii_lowercase nvidia_dx_cache_template
    nvidia_gl_cache_template directx_shader_cache_template validate lookup is_completed progress_key
    show_u8 any phase_three_engine_steps commit_receipt prepare_for_config append_benchmark_record
    retain_newest matches_history_record receipt_new receipt_validate valid_capture_timestamp
    validate_for_transaction operation_kind gpu_applicability one_of orchestration_role
    phase_one_guidance_steps phase_one_handoff_steps phase_one_inventory_steps phase_one_setup_steps
    phase_three_steps phase_two_steps row step_catalog fps_cap_strategy measured_fps_cap
    sustainable_cap canonical_decimal sid_parts valid_generation_id valid_relative_path valid_sha256
    valid_user_sid allows_transition_to stage_eq is_authorized_at is_complete transition_to all drop
    filter last lower split_on is_skipped valid_baseline validate_receipt
final_is_prepared = refl

prepare_final-persisted_example :
    validate_persisted_final_benchmark final_commit.state final_commit.progress final_commit.history
    ≡ ok final_commit.receipt
prepare_final-persisted_example =
    prepare_final-persisted whole_laws armed_state ready_progress [] config receipt.receipt_id at
      capture final_commit final_is_prepared

abbrev new_record : BenchmarkRecord ℕ ℕ
new_record = record {
  timestamp = at;
  avg_fps = 400;
  p1_fps = 240;
  label = baseline_benchmark_label;
  runs = 5;
  receipt_id = none;
  transaction_id = none;
  unknown_fields = [];
}

abbrev new_commit : BaselineBenchmarkCommit ℕ ℕ
new_commit = record {
  state = with_baseline (default_state ℕ) capture;
  progress = complete_step (default_progress ℕ) phase_one_baseline_benchmark at;
  history = new_record ∷ [];
  captured_utc = at;
  idempotent = false;
}

baseline_is_prepared :
    prepare_baseline_benchmark_commit (default_state ℕ) (default_progress ℕ) [] at capture
    ≡ ok new_commit
unfolding prepare_baseline_benchmark_commit validate lookup validate_history any
    validate_complete_capture valid_capture_timestamp is_skipped contains filter is_completed
    append_benchmark_record
baseline_is_prepared = refl

prepare_baseline-persisted_example :
    (r : BenchmarkRecord ℕ ℕ) × (validate_persisted_baseline_benchmark new_commit.state
        new_commit.progress new_commit.history
      ≡ ok r)
prepare_baseline-persisted_example =
    prepare_baseline-persisted whole_laws (default_state ℕ) (default_progress ℕ) [] at capture
      new_commit baseline_is_prepared

abbrev later : Text
later = codes "2025-02-03 04:05:06"

later_is_valid : valid_capture_timestamp later ≡ true
unfolding valid_capture_timestamp
later_is_valid = refl

prepare_baseline-retry_example :
    (prepare_baseline_benchmark_commit
        (default_state ℕ)
        (default_progress ℕ)
        new_commit.history
        later
        capture
      ≡ ok new_commit)
    × (prepare_baseline_benchmark_commit new_commit.state
          (default_progress ℕ)
          new_commit.history
          later
          capture
        ≡ ok new_commit)
    × (prepare_baseline_benchmark_commit new_commit.state new_commit.progress new_commit.history
          later capture
        ≡ ok (record new_commit { idempotent = true }))
prepare_baseline-retry_example =
    prepare_baseline-retry whole_laws (default_state ℕ) (default_progress ℕ) [] at later capture
      new_commit baseline_is_prepared refl later_is_valid
