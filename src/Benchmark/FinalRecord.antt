-- ===== src/Benchmark/FinalRecord.antt =====
-- The readback of a final observation: crates/frametime-domain/src/benchmark.rs.
use cs2_opt.Prelude.{
  ◌≡◌, true, false, List, [], ◌∷◌, some, filter, any, arith, Bool, refl, ok, any-drop,
  filter-append, filter-none, then-ok, sym, ok-injective, ap, ℕ,
}
use mathlib.Core.Path.{subst}
use cs2_opt.Prelude.Text.{Text, text_eq, codes, show_u8, text_eq_refl}
use cs2_opt.Prelude.Keys.{contains-insert, contains-remove, lookup-put, lookup}
use cs2_opt.Catalog.Ids.{progress_key}
use cs2_opt.Catalog.Steps.{
  Step, step_catalog, phase_three_final_benchmark, phase_three_driver_install,
}
use cs2_opt.Progress.{
  Progress, complete_step, complete, is_completed, is_skipped, key, timestamp_key,
}
use cs2_opt.Benchmark.Final.{
  is_unresolved, phase_three_engine_steps, records_either, final_record,
  validate_persisted_final_benchmark, with_transaction, with_final,
}
use cs2_opt.Handoff.Transaction.{transition_to, RebootTransaction, is_authorized_at}
use cs2_opt.Prelude.Float.{F64, F64Laws}
use cs2_opt.Benchmark.Receipt.{
  final_benchmark_schema_version, final_benchmark_label, matches_history_record, BenchmarkRecord,
  FinalBenchmarkReceipt, receipt_validate, receipt_new,
}
use cs2_opt.Handoff.Stage.{phase_three_armed, phase_three_complete, RebootStage, stage_eq}
use cs2_opt.Benchmark.Capture.{IsAccepted, validate_for_transaction_iff}
use cs2_opt.Benchmark.History.{append_benchmark_record, older_kept, append_benchmark_record_lem}
use cs2_opt.State.{State, validate}
use cs2_opt.Handoff.Format.{TransactionId}
use cs2_opt.Fps.{BenchmarkCapture}

abbrev is_final_key : Step → Bool
is_final_key s = text_eq (key 3 13) (progress_key s.id)

no_final_key : any is_final_key phase_three_engine_steps ≡ false
unfolding any phase_three_engine_steps key text_eq progress_key show_u8 filter step_catalog
no_final_key = refl

module _ {V : Type 0} where
  -- Completing P3:13 at a time is what the readback looks for.
  complete_final_lem :
      (p : Progress V) (captured : Text)
      → let q : Progress V = complete_step p phase_three_final_benchmark captured in
        (is_completed q phase_three_driver_install ≡ is_completed p phase_three_driver_install)
        × (is_completed q phase_three_final_benchmark ≡ true)
        × (is_skipped q phase_three_final_benchmark ≡ false)
        × (lookup (codes "3-13") q.timestamps ≡ some captured)
  unfolding complete_step complete is_completed is_skipped text_eq key progress_key timestamp_key
      show_u8
  complete_final_lem p captured = simp (contains-insert, contains-remove, lookup-put) (ground arith)

  is_unresolved-complete_step :
      (p : Progress V) (captured : Text) (s : Step)
      → is_final_key s ≡ false
      → is_unresolved (complete_step p phase_three_final_benchmark captured) s ≡ is_unresolved p s
  unfolding complete_step complete is_completed is_skipped
  is_unresolved-complete_step p captured s h =
      simp (contains-insert, contains-remove, h) (ground arith)

  any-complete_step :
      (p : Progress V) (captured : Text) (steps : List Step)
      → any is_final_key steps ≡ false
      → any (is_unresolved (complete_step p phase_three_final_benchmark captured)) steps
        ≡ any (is_unresolved p) steps
  unfolding any
  any-complete_step p captured [] h = refl
  any-complete_step p captured (s ∷ steps) h =
      ground (arith, is_unresolved-complete_step p captured s, any-complete_step p captured steps)

pub transition_to-ok :
    {V : Type 0} (t : RebootTransaction V) (stage : RebootStage) (next : RebootTransaction V)
    → transition_to t stage ≡ ok next
    → next ≡ record t { stage = stage }
unfolding transition_to
transition_to-ok t stage next h = ground arith

module _ {V F : Type 0} ⦃f : F64 F⦄ where
  pub receipt_new-ok :
      (receipt_id transaction_id : TransactionId) (captured : Text) (capture : BenchmarkCapture F)
      (cap : ℕ) (r : FinalBenchmarkReceipt V F)
      → receipt_new receipt_id transaction_id captured capture cap ≡ ok r
      → (receipt_validate r ≡ ok tt)
        × (r.receipt_id ≡ receipt_id)
        × (r.transaction_id ≡ transaction_id)
  unfolding receipt_new
  receipt_new-ok receipt_id transaction_id captured capture cap r h =
      let new : FinalBenchmarkReceipt V F = record {
        schema_version = final_benchmark_schema_version;
        receipt_id = receipt_id;
        transaction_id = transaction_id;
        captured_utc = captured;
        avg_fps = capture.average_fps;
        p1_fps = capture.p1_fps;
        runs = capture.runs;
        fps_cap = cap;
        label = final_benchmark_label;
        unknown_fields = [];
      } in
      let (valid, h) = then-ok (receipt_validate new) (ok new) r h in
      let e : new ≡ r = ok-injective new r h in
      (
        subst (λ x. receipt_validate x ≡ ok tt) e valid,
        ap (λ x. x.receipt_id) (sym e),
        ap (λ x. x.transaction_id) (sym e),
      )

  filter-final :
      (history : List (BenchmarkRecord V F)) (r : FinalBenchmarkReceipt V F)
      → any (records_either r.receipt_id r.transaction_id) history ≡ false
      → filter
          (records_either r.receipt_id r.transaction_id)
          (append_benchmark_record history (final_record r))
        ≡ final_record r ∷ []
  unfolding any filter
  filter-final history r h =
      let new : BenchmarkRecord V F → Bool = records_either r.receipt_id r.transaction_id in
      let none_kept : any new (older_kept history) ≡ false = any-drop new _ history h in
      rw
        (
          append_benchmark_record_lem history (final_record r),
          filter-append new (older_kept history) (final_record r ∷ []),
          filter-none new (older_kept history) none_kept,
        )
        (ground (arith, text_eq_refl r.receipt_id.text))

  matches-final :
      F64Laws f
      → (r : FinalBenchmarkReceipt V F) → IsAccepted r
      → matches_history_record r (final_record r) ≡ true
  unfolding matches_history_record
  matches-final laws r h = ground (
    arith,
    text_eq_refl r.captured_utc,
    text_eq_refl r.label,
    text_eq_refl r.receipt_id.text,
    text_eq_refl r.transaction_id.text,
    laws.eq_refl r.avg_fps,
    laws.eq_refl r.p1_fps,
  )

  -- The files that a receipt leaves pass the readback.
  pub readback_lem :
      F64Laws f
      → (s : State V F) (p : Progress V) (history : List (BenchmarkRecord V F))
        (t : RebootTransaction V) (r : FinalBenchmarkReceipt V F)
      → is_completed p phase_three_driver_install ≡ true
      → any (is_unresolved p) phase_three_engine_steps ≡ false
      → is_authorized_at t phase_three_armed ≡ true
      → t.transaction_id ≡ some r.transaction_id
      → any (records_either r.receipt_id r.transaction_id) history ≡ false
      → IsAccepted r
      → validate (
          with_transaction
            (with_final s r)
            (record t { stage = phase_three_complete })
            r.captured_utc)
        ≡ ok tt
      → validate_persisted_final_benchmark
          (with_transaction
            (with_final s r)
            (record t { stage = phase_three_complete })
            r.captured_utc)
          (complete_step p phase_three_final_benchmark r.captured_utc)
          (append_benchmark_record history (final_record r))
        ≡ ok r
  unfolding validate_persisted_final_benchmark is_authorized_at stage_eq
  readback_lem laws s p history t r installed resolved armed id fresh accepted valid =
      let next : RebootTransaction V = record t {
        stage = phase_three_complete;
        updated_utc = some r.captured_utc;
      } in
      let (kept_p, done, unskipped, at) = complete_final_lem p r.captured_utc in
      simp
        (
          valid,
          filter-final history r fresh,
          matches-final laws r accepted,
          kept_p,
          done,
          unskipped,
          at,
          any-complete_step p r.captured_utc phase_three_engine_steps no_final_key,
          (validate_for_transaction_iff r next).1 (accepted, id),
        )
        (ground (arith, text_eq_refl r.captured_utc, laws.eq_refl r.avg_fps, laws.eq_refl r.p1_fps))
