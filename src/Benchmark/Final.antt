-- ===== src/Benchmark/Final.antt =====
-- The final observation: crates/frametime-domain/src/benchmark.rs. Nothing is written here: the
-- caller writes the state, the progress and the history.
use cs2_opt.Prelude.{
  Bool, false, not, ◌&&◌, ◌||◌, List, [], ◌∷◌, Option, some, any, filter, last, ◌==◌, Result, ok,
  ◌>>=◌, ◌>>◌, ensure, required, map_err, String, is_some,
}
use cs2_opt.Prelude.Text.{Text, codes}
use cs2_opt.Prelude.Keys.{lookup}
use cs2_opt.Prelude.Float.{F64}
use cs2_opt.Fps.{BenchmarkCapture, measured_fps_cap}
use cs2_opt.Config.{Config, ConfigError, config_validate, fps_cap_strategy}
use cs2_opt.Handoff.Format.{TransactionId}
use cs2_opt.Handoff.Stage.{phase_three_armed, phase_three_complete}
use cs2_opt.Handoff.Transaction.{RebootTransaction, is_authorized_at, is_some_and, transition_to}
use cs2_opt.State.{State, validate}
use cs2_opt.Progress.{Progress, is_completed, is_skipped, complete_step}
use cs2_opt.Catalog.Ids.{three, phase_eq, step_id_eq}
use cs2_opt.Catalog.Kinds.{engine, role_eq}
use cs2_opt.Catalog.Steps.{
  Step, step_catalog, phase_three_driver_install, phase_three_final_benchmark,
}
use cs2_opt.Benchmark.Receipt.{
  BenchmarkRecord, FinalBenchmarkReceipt, transaction_id_eq, receipt_new, validate_for_transaction,
  matches_history_record,
}
use cs2_opt.Benchmark.History.{append_benchmark_record}
use cs2_opt.Benchmark.Baseline.{is_f64, is_timestamp}

abbrev pub is_phase_three_engine : Step → Bool
is_phase_three_engine s =
    phase_eq s.id.phase three
    && (role_eq s.orchestration_role engine && not (step_id_eq s.id phase_three_driver_install))

unfoldable pub phase_three_engine_steps : List Step
phase_three_engine_steps = filter is_phase_three_engine step_catalog

-- An optional identifier compared with `Some(id)`.
abbrev pub names_id : Option TransactionId → TransactionId → Bool
names_id o id = is_some_and (λ x. transaction_id_eq x id) o

module _ {V : Type 0} where
  abbrev pub is_unresolved : Progress V → Step → Bool
  is_unresolved p s = not (is_completed p s.id) && not (is_skipped p s.id)

-- The errors of a prepared commit: a configuration's own, or a fixed text.
pub data CommitError : Type 0 where
  invalid_config : ConfigError → CommitError
  refused : String → CommitError

pub record FinalBenchmarkCommit (V F : Type 0) : Type 0 where
  pub state : State V F
  pub progress : Progress V
  pub history : List (BenchmarkRecord V F)
  pub receipt : FinalBenchmarkReceipt V F

module _ {V F : Type 0} where
  abbrev pub records_either : TransactionId → TransactionId → BenchmarkRecord V F → Bool
  records_either receipt transaction r =
      names_id r.receipt_id receipt || names_id r.transaction_id transaction

  abbrev pub with_final : State V F → FinalBenchmarkReceipt V F → State V F
  with_final s r = record s {
    fps_cap = r.fps_cap;
    avg_fps = r.avg_fps;
    p1_fps = some r.p1_fps;
    cap_date = some r.captured_utc;
    final_benchmark = some r;
  }

  abbrev pub with_transaction : State V F → RebootTransaction V → Text → State V F
  with_transaction s t captured = record s {
    active_reboot_transaction = some (record t { updated_utc = some captured });
  }

  abbrev pub final_record : FinalBenchmarkReceipt V F → BenchmarkRecord V F
  final_record r = record {
    timestamp = r.captured_utc;
    avg_fps = r.avg_fps;
    p1_fps = r.p1_fps;
    label = r.label;
    runs = r.runs;
    receipt_id = some r.receipt_id;
    transaction_id = some r.transaction_id;
    unknown_fields = [];
  }

module _ {V F : Type 0} ⦃f : F64 F⦄ where
  -- The files that the receipt changes, when the transaction may be completed.
  unfoldable pub commit_receipt :
      State V F
      → Progress V
      → List (BenchmarkRecord V F)
      → RebootTransaction V
      → FinalBenchmarkReceipt V F
      → Result String (FinalBenchmarkCommit V F)
  commit_receipt s p history t receipt =
      let kept = append_benchmark_record history (final_record receipt) in
      do
        next ← transition_to t phase_three_complete
        validate (with_transaction (with_final s receipt) next receipt.captured_utc)
        newest ← required (last kept) "final benchmark history did not retain its receipt"
        ensure (matches_history_record receipt newest)
            "final benchmark history does not match its receipt"
        ok (record {
          state = with_transaction (with_final s receipt) next receipt.captured_utc;
          progress = complete_step p phase_three_final_benchmark receipt.captured_utc;
          history = kept;
          receipt = receipt;
        })

  -- Everything after the configuration was validated.
  unfoldable pub prepare_for_config :
      State V F
      → Progress V
      → List (BenchmarkRecord V F)
      → Config
      → TransactionId
      → Text
      → BenchmarkCapture F
      → Result String (FinalBenchmarkCommit V F)
  unfolding commit_receipt
  prepare_for_config s p history config receipt_id captured capture = do
    validate s
    ensure (not (is_some s.final_benchmark)) "final benchmark receipt already exists"
    ensure (is_completed p phase_three_driver_install) "final benchmark requires completed P3:1"
    ensure
        (not (
          any (is_unresolved p) phase_three_engine_steps
          || (is_completed p phase_three_final_benchmark
              || is_skipped p phase_three_final_benchmark)))
        "final benchmark requires resolved P3:2-P3:12 and unresolved P3:13"
    transaction ←
        required s.active_reboot_transaction "final benchmark requires an active reboot transaction"
    ensure (is_authorized_at transaction phase_three_armed)
        "final benchmark requires an authorized Phase 3 transaction"
    transaction_id ←
        required transaction.transaction_id "authorized reboot transaction is missing its id"
    ensure (not (any (records_either receipt_id transaction_id) history))
        "final benchmark receipt or reboot transaction was already recorded"
    fps_cap ←
        required (measured_fps_cap (fps_cap_strategy config.fps_cap) capture)
          "final benchmark P1 FPS does not sustain the selected measured or VRR cap"
    receipt ← receipt_new receipt_id transaction_id captured capture fps_cap
    commit_receipt s p history transaction receipt

  unfoldable pub prepare_final_benchmark_commit :
      State V F
      → Progress V
      → List (BenchmarkRecord V F)
      → Config
      → TransactionId
      → Text
      → BenchmarkCapture F
      → Result CommitError (FinalBenchmarkCommit V F)
  unfolding prepare_for_config
  prepare_final_benchmark_commit s p history config receipt_id captured capture = do
    map_err invalid_config (config_validate config)
    map_err refused (prepare_for_config s p history config receipt_id captured capture)

  -- `matching.len() != 1 || !receipt.matches_history_record(matching[0])`
  abbrev pub is_only_match : FinalBenchmarkReceipt V F → List (BenchmarkRecord V F) → Bool
  is_only_match r (h ∷ []) = matches_history_record r h
  is_only_match r _ = false

  unfoldable pub validate_persisted_final_benchmark :
      State V F
      → Progress V
      → List (BenchmarkRecord V F)
      → Result String (FinalBenchmarkReceipt V F)
  validate_persisted_final_benchmark s p history = do
    validate s
    receipt ← required s.final_benchmark "persisted state has no final benchmark receipt"
    transaction ← required s.active_reboot_transaction "persisted state has no reboot transaction"
    ensure (is_authorized_at transaction phase_three_complete)
        "persisted final benchmark transaction is not Phase 3 complete"
    validate_for_transaction receipt transaction
    ensure
        (not (
          not (is_completed p phase_three_driver_install)
          || (not (is_completed p phase_three_final_benchmark)
              || (is_skipped p phase_three_final_benchmark
                  || not
                      (is_timestamp (lookup (codes "3-13") p.timestamps) receipt.captured_utc)))))
        "persisted final benchmark progress is incomplete or skipped"
    ensure (not (any (is_unresolved p) phase_three_engine_steps))
        "persisted final benchmark has unresolved earlier Phase 3 work"
    ensure
        (not (
          not (s.fps_cap == receipt.fps_cap)
          || (not (f.eq s.avg_fps receipt.avg_fps)
              || (not (is_f64 s.p1_fps receipt.p1_fps)
                  || not (is_timestamp s.cap_date receipt.captured_utc)))))
        "persisted FPS state does not match the final benchmark receipt"
    ensure
        (is_only_match receipt
          (filter (records_either receipt.receipt_id receipt.transaction_id) history))
        "persisted benchmark history is missing, duplicated, or inconsistent"
    ok receipt
