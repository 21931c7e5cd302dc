-- ===== src/Benchmark/FinalReadback.antt =====
-- A prepared final observation read back from its files: crates/frametime-domain/src/benchmark.rs.
use cs2_opt.Prelude.{
  ◌∙◌, ◌≡◌, true, false, List, some, any, arith, ok, bind-ok, then-ok, required-ok, ensure-ok, last,
  sym, ok-injective, map_err, ap, map_err-ok, not, is_some, ◌||◌,
}
use mathlib.Core.Path.{subst}
use cs2_opt.Benchmark.FinalRecord.{readback_lem, receipt_new-ok, transition_to-ok}
use cs2_opt.Prelude.Text.{Text}
use cs2_opt.Catalog.Steps.{phase_three_final_benchmark, phase_three_driver_install}
use cs2_opt.Progress.{Progress, complete_step, is_completed, is_skipped}
use cs2_opt.Benchmark.Final.{
  is_unresolved, phase_three_engine_steps, records_either, final_record, commit_receipt,
  validate_persisted_final_benchmark, FinalBenchmarkCommit, with_transaction, with_final,
  prepare_final_benchmark_commit, prepare_for_config, invalid_config, refused,
}
use cs2_opt.Handoff.Transaction.{transition_to, RebootTransaction, is_authorized_at}
use cs2_opt.Prelude.Float.{F64, F64Laws}
use cs2_opt.Benchmark.Receipt.{
  matches_history_record, BenchmarkRecord, FinalBenchmarkReceipt, receipt_validate, receipt_new,
}
use cs2_opt.Handoff.Stage.{phase_three_armed, phase_three_complete}
use cs2_opt.Benchmark.Capture.{IsAccepted, receipt_validate_iff}
use cs2_opt.Benchmark.History.{append_benchmark_record}
use cs2_opt.State.{State, validate}
use cs2_opt.Config.{Config, config_validate, fps_cap_strategy}
use cs2_opt.Handoff.Format.{TransactionId}
use cs2_opt.Fps.{BenchmarkCapture, measured_fps_cap}

module _ {V F : Type 0} ⦃f : F64 F⦄ where
  abbrev commit_of :
      State V F
      → Progress V
      → List (BenchmarkRecord V F)
      → FinalBenchmarkReceipt V F
      → RebootTransaction V
      → FinalBenchmarkCommit V F
  commit_of s p history r next = record {
    state = with_transaction (with_final s r) next r.captured_utc;
    progress = complete_step p phase_three_final_benchmark r.captured_utc;
    history = append_benchmark_record history (final_record r);
    receipt = r;
  }

  -- A committed receipt is read back, if what was asked of it before the commit held.
  commit_receipt-persisted :
      F64Laws f
      → (s : State V F) (p : Progress V) (history : List (BenchmarkRecord V F))
        (t : RebootTransaction V) (r : FinalBenchmarkReceipt V F) (c : FinalBenchmarkCommit V F)
      → is_completed p phase_three_driver_install ≡ true
      → any (is_unresolved p) phase_three_engine_steps ≡ false
      → is_authorized_at t phase_three_armed ≡ true
      → t.transaction_id ≡ some r.transaction_id
      → any (records_either r.receipt_id r.transaction_id) history ≡ false
      → receipt_validate r ≡ ok tt
      → commit_receipt s p history t r ≡ ok c
      → validate_persisted_final_benchmark c.state c.progress c.history ≡ ok c.receipt
  unfolding commit_receipt
  commit_receipt-persisted laws s p history t r c installed resolved armed id fresh valid h =
      let made : RebootTransaction V → FinalBenchmarkCommit V F = commit_of s p history r in
      let (next, moved, h) = bind-ok (transition_to t phase_three_complete) _ c h in
      let e : next ≡ record t { stage = phase_three_complete } = transition_to-ok t _ next moved in
      let (state_valid, h) = then-ok (validate (made next).state) _ c h in
      let (newest, _, h) =
        required-ok (last (made next).history) "final benchmark history did not retain its receipt"
          _ c h in
      let (_, h) =
        ensure-ok (matches_history_record r newest)
          "final benchmark history does not match its receipt" _ c h in
      let accepted : IsAccepted r = (receipt_validate_iff r).0 valid in
      let back =
        readback_lem laws s p history t r installed resolved armed id fresh accepted
          (subst (λ n. validate (made n).state ≡ ok tt) e state_valid) in
      subst (λ c. validate_persisted_final_benchmark c.state c.progress c.history ≡ ok c.receipt)
        (sym (ap made e) ∙ ok-injective (made next) c h) back

  -- A prepared final observation, once its three files are written, is read back with its receipt,
  -- whatever the history held, if comparisons of finite numbers are those of IEEE 754.
  pub prepare_final-persisted :
      F64Laws f
      → (s : State V F) (p : Progress V) (history : List (BenchmarkRecord V F)) (config : Config)
        (receipt_id : TransactionId) (captured : Text) (capture : BenchmarkCapture F)
        (c : FinalBenchmarkCommit V F)
      → prepare_final_benchmark_commit s p history config receipt_id captured capture ≡ ok c
      → validate_persisted_final_benchmark c.state c.progress c.history ≡ ok c.receipt
  unfolding prepare_final_benchmark_commit prepare_for_config
  prepare_final-persisted laws s p history config receipt_id captured capture c h =
      let (_, h) = then-ok (map_err invalid_config (config_validate config)) _ c h in
      let h =
        map_err-ok refused (prepare_for_config s p history config receipt_id captured capture) c
          h in
      let (_, h) = then-ok (validate s) _ c h in
      let (_, h) =
        ensure-ok (not (is_some s.final_benchmark)) "final benchmark receipt already exists" _ c
          h in
      let (installed, h) =
        ensure-ok (is_completed p phase_three_driver_install)
          "final benchmark requires completed P3:1" _ c h in
      let (open_steps, h) =
        ensure-ok
          (not (
            any (is_unresolved p) phase_three_engine_steps
            || (is_completed p phase_three_final_benchmark
                || is_skipped p phase_three_final_benchmark)))
          "final benchmark requires resolved P3:2-P3:12 and unresolved P3:13" _ c h in
      let (t, _, h) =
        required-ok s.active_reboot_transaction
          "final benchmark requires an active reboot transaction" _ c h in
      let (armed, h) =
        ensure-ok (is_authorized_at t phase_three_armed)
          "final benchmark requires an authorized Phase 3 transaction" _ c h in
      let (id, named, h) =
        required-ok t.transaction_id "authorized reboot transaction is missing its id" _ c h in
      let (fresh, h) =
        ensure-ok (not (any (records_either receipt_id id) history))
          "final benchmark receipt or reboot transaction was already recorded" _ c h in
      let (cap, _, h) =
        required-ok (measured_fps_cap (fps_cap_strategy config.fps_cap) capture)
          "final benchmark P1 FPS does not sustain the selected measured or VRR cap" _ c h in
      let (r, made, h) = bind-ok (receipt_new receipt_id id captured capture cap) _ c h in
      let (valid, e, e') = receipt_new-ok receipt_id id captured capture cap r made in
      commit_receipt-persisted laws s p history t r c installed (ground arith) armed
        (ground (arith, named, e')) (rw (e, e') (ground arith)) valid h
