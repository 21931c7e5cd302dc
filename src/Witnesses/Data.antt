-- ===== src/Witnesses/Data.antt =====
-- A workflow at its end, for running the model. JSON values and `f64` are natural numbers here.
use cs2_opt.Prelude.{ℕ, true, [], ◌∷◌, ◌++◌, some}
use cs2_opt.Prelude.Text.{Text, codes}
use cs2_opt.Prelude.Float.{whole}
use cs2_opt.Handoff.Stage.{phase_three_complete}
use cs2_opt.Handoff.Transaction.{RuntimeRecord, RebootTransaction, default_transaction}
use cs2_opt.State.{State, default_state}
use cs2_opt.Progress.{Progress, default_progress}
use cs2_opt.Benchmark.Receipt.{FinalBenchmarkReceipt, final_benchmark_label}
use cs2_opt.Orchestration.Facts.{
  PhaseFacts, normal, verified, verified_selected_executable, default_handoff_evidence,
}

abbrev pub generation : Text
generation = codes "0123456789abcdef0123456789abcdef"

abbrev pub digest : Text
digest = generation ++ generation

abbrev pub runtime : RuntimeRecord ℕ
runtime = record {
  generation = generation;
  manifest_sha256 = digest;
  payload_contract_hash = digest;
  executable_path = codes "bin/frametime.exe";
  executable_sha256 = digest;
  unknown_fields = [];
}

abbrev pub transaction : RebootTransaction ℕ
transaction = record (default_transaction ℕ) {
  transaction_id = some (record { text = generation });
  initiator_user_sid = some (codes "S-1-5-21-1-2-3-1001");
  stage = phase_three_complete;
  runtime = some runtime;
}

abbrev pub receipt : FinalBenchmarkReceipt ℕ ℕ
receipt = record {
  schema_version = 1;
  receipt_id = record { text = codes "ffffffffffffffffffffffffffffffff" };
  transaction_id = record { text = generation };
  captured_utc = codes "2025-01-02 03:04:05";
  avg_fps = 400;
  p1_fps = 240;
  runs = 5;
  fps_cap = 230;
  label = final_benchmark_label;
  unknown_fields = [];
}

abbrev pub complete_state : State ℕ ℕ
complete_state = record (default_state ℕ) {
  active_reboot_transaction = some transaction;
  final_benchmark = some receipt;
}

abbrev pub complete_progress : Progress ℕ
complete_progress = record (default_progress ℕ) {
  phase = 3;
  completed_steps = codes "P3:1" ∷ codes "P3:13" ∷ [];
}

abbrev pub complete_facts : PhaseFacts
complete_facts = record {
  boot = normal;
  runtime = verified_selected_executable;
  handoff = record default_handoff_evidence {
    phase_three_run = verified;
    phase_three_same_user = verified;
  };
  phase_one_safe_mode_ready = true;
  final_benchmark_persisted = verified;
}
