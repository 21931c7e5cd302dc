-- ===== src/Benchmark/BaselineReadback.antt =====
-- The readback of a recorded baseline: crates/frametime-domain/src/benchmark.rs.
use cs2_opt.Prelude.{◌≡◌, true, false, List, [], ◌∷◌, some, filter, refl, ok, arith}
use cs2_opt.Prelude.Text.{Text, text_eq, codes, show_u8, text_eq_refl}
use cs2_opt.Prelude.Keys.{contains-insert, contains-remove, lookup-put, lookup}
use cs2_opt.Prelude.Float.{F64, F64Laws}
use cs2_opt.Fps.{BenchmarkCapture}
use cs2_opt.State.{State, validate}
use cs2_opt.Progress.{
  Progress, is_completed, is_skipped, complete_step, complete, key, timestamp_key,
}
use cs2_opt.Catalog.Ids.{progress_key}
use cs2_opt.Catalog.Steps.{phase_one_baseline_benchmark}
use cs2_opt.Benchmark.Receipt.{BenchmarkRecord}
use cs2_opt.Benchmark.History.{validate_complete_capture, record_matches_capture}
use cs2_opt.Benchmark.Baseline.{
  is_baseline_record, agrees_with_state, only_coherent, validate_persisted_baseline_benchmark,
  with_baseline,
}
use cs2_opt.Benchmark.BaselineRecord.{IsRecorded}

module _ {V : Type 0} where
  pub complete_baseline_lem :
      (p : Progress V) (captured : Text)
      → let q : Progress V = complete_step p phase_one_baseline_benchmark captured in
        (is_completed q phase_one_baseline_benchmark ≡ true)
        × (is_skipped q phase_one_baseline_benchmark ≡ false)
        × (lookup (codes "1-17") q.timestamps ≡ some captured)
  unfolding complete_step complete is_completed is_skipped text_eq key progress_key timestamp_key
      show_u8
  complete_baseline_lem p captured =
      simp (contains-insert, contains-remove, lookup-put) (ground arith)

module _ {V F : Type 0} ⦃f : F64 F⦄ where
  filter-agrees :
      (s : State V F) (history : List (BenchmarkRecord V F))
      → filter (agrees_with_state s) history
        ≡ filter (agrees_with_state s) (filter is_baseline_record history)
  unfolding filter
  filter-agrees s [] = refl
  filter-agrees s (r ∷ history) = ground (arith, filter-agrees s history)

  filter-recorded :
      (s : State V F) (c : BenchmarkCapture F) (r : BenchmarkRecord V F)
      → is_baseline_record r ≡ true
      → record_matches_capture r c ≡ true
      → validate_complete_capture c ≡ ok tt
      → filter (agrees_with_state (with_baseline s c)) (r ∷ []) ≡ r ∷ []
  unfolding filter record_matches_capture validate_complete_capture
  filter-recorded s c r label matches full = ground arith

  only_coherent-at :
      (q : Progress V) (r : BenchmarkRecord V F)
      → lookup (codes "1-17") q.timestamps ≡ some r.timestamp
      → only_coherent q (r ∷ []) ≡ ok r
  unfolding only_coherent
  only_coherent-at q r at = rw at (ground (arith, text_eq_refl r.timestamp))

  -- The three files of such a commit pass the readback.
  pub readback_lem :
      F64Laws f
      → (s : State V F) (p : Progress V) (history : List (BenchmarkRecord V F))
        (c : BenchmarkCapture F) (r : BenchmarkRecord V F)
      → IsRecorded history c r
      → validate (with_baseline s c) ≡ ok tt
      → validate_persisted_baseline_benchmark
          (with_baseline s c)
          (complete_step p phase_one_baseline_benchmark r.timestamp)
          history
        ≡ ok r
  unfolding validate_persisted_baseline_benchmark validate_complete_capture
  readback_lem laws s p history c r (only, label, matches, kept, full) valid =
      let (done, unskipped, at) = complete_baseline_lem p r.timestamp in
      simp
        (
          valid,
          kept,
          done,
          unskipped,
          filter-agrees (with_baseline s c) history,
          only,
          filter-recorded s c r label matches full,
          only_coherent-at (complete_step p phase_one_baseline_benchmark r.timestamp) r at,
        )
        (ground arith)
