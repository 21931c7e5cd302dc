-- ===== src/Benchmark/BaselineRetry.antt =====
-- A prepared baseline observation read back, and prepared again after some of its files were
-- written: crates/frametime-domain/src/benchmark.rs.
use mathlib.Core.Path.{subst}
use cs2_opt.Prelude.{
  refl, ◌≡◌, ◌&&◌, true, false, inl, inr, sym, List, ok, then-ok, ensure-ok, arith, not,
}
use cs2_opt.Prelude.Float.{F64, F64Laws}
use cs2_opt.Progress.{Progress, is_skipped}
use cs2_opt.Benchmark.History.{validate_complete_capture, validate_history}
use cs2_opt.Benchmark.Baseline.{
  prepare_baseline_benchmark_commit, BaselineBenchmarkCommit, validate_persisted_baseline_benchmark,
  with_baseline,
}
use cs2_opt.State.{State, validate}
use cs2_opt.Benchmark.Receipt.{BenchmarkRecord, valid_capture_timestamp}
use cs2_opt.Prelude.Text.{Text}
use cs2_opt.Fps.{BenchmarkCapture}
use cs2_opt.Benchmark.BaselineReadback.{readback_lem, complete_baseline_lem}
use cs2_opt.Benchmark.BaselineCases.{
  IsCommit, prepare_matching-IsCommit, prepare-recorded, prepare-finished,
}
use cs2_opt.Catalog.Steps.{phase_one_baseline_benchmark}
use cs2_opt.Benchmark.BaselineRecord.{IsRecorded}

module _ {V F : Type 0} ⦃f : F64 F⦄ where
  -- What a prepared observation says of what it was prepared from.
  prepare_baseline-IsCommit :
      F64Laws f
      → (s : State V F) (p : Progress V) (history : List (BenchmarkRecord V F)) (captured : Text)
        (c : BenchmarkCapture F) (b : BaselineBenchmarkCommit V F)
      → prepare_baseline_benchmark_commit s p history captured c ≡ ok b
      → (validate s ≡ ok tt)
        × (is_skipped p phase_one_baseline_benchmark ≡ false)
        × ((r : BenchmarkRecord V F) × (IsRecorded b.history c r × IsCommit s p c r b))
  unfolding prepare_baseline_benchmark_commit
  prepare_baseline-IsCommit laws s p history captured c b h =
      let (valid, h) = then-ok (validate s) _ b h in
      let (kept, h) = then-ok (validate_history history) _ b h in
      let (full, h) = then-ok (validate_complete_capture c) _ b h in
      let (at, h) =
        ensure-ok (valid_capture_timestamp captured) "baseline benchmark timestamp is invalid" _ b
          h in
      let (unskipped, h) =
        ensure-ok (not (is_skipped p phase_one_baseline_benchmark))
          "baseline benchmark was skipped and cannot be captured" _ b h in
      (
        valid,
        ground arith,
        prepare_matching-IsCommit laws s p history captured c _ b refl kept full at h,
      )

  -- A prepared baseline observation, once its three files are written, is read back with the time
  -- of the capture, whatever the history held, if comparisons of finite numbers are those of
  -- IEEE 754.
  pub prepare_baseline-persisted :
      F64Laws f
      → (s : State V F) (p : Progress V) (history : List (BenchmarkRecord V F)) (captured : Text)
        (c : BenchmarkCapture F) (b : BaselineBenchmarkCommit V F)
      → prepare_baseline_benchmark_commit s p history captured c ≡ ok b
      → (r : BenchmarkRecord V F) × (validate_persisted_baseline_benchmark b.state b.progress
            b.history
          ≡ ok r)
  prepare_baseline-persisted laws s p history captured c b h =
      let (_, _, (r, (recorded, cases))) =
        prepare_baseline-IsCommit laws s p history captured c b h in
      elim cases [
        | inl (e, undone, free, next) ↦ (
          r,
          subst (λ x. validate_persisted_baseline_benchmark x.state x.progress b.history ≡ ok r)
              (sym e) (readback_lem laws s p b.history c r recorded next),
        )
        | inr (_, _, back) ↦ back
      ]

  -- A commit that was prepared and is not there yet may be prepared again, at any valid time, after
  -- each of its writes: from the new history, and from the new history and state, the same commit
  -- is prepared, and once the progress is written too it is found done.
  pub prepare_baseline-retry :
      F64Laws f
      → (s : State V F) (p : Progress V) (history : List (BenchmarkRecord V F))
        (captured later : Text) (c : BenchmarkCapture F) (b : BaselineBenchmarkCommit V F)
      → prepare_baseline_benchmark_commit s p history captured c ≡ ok b
      → b.idempotent ≡ false
      → valid_capture_timestamp later ≡ true
      → (prepare_baseline_benchmark_commit s p b.history later c ≡ ok b)
        × (prepare_baseline_benchmark_commit b.state p b.history later c ≡ ok b)
        × (prepare_baseline_benchmark_commit b.state b.progress b.history later c
            ≡ ok (record b { idempotent = true }))
  unfolding validate_complete_capture
  prepare_baseline-retry laws s p history captured later c b h fresh at =
      let (valid, unskipped, (r, (recorded, cases))) =
        prepare_baseline-IsCommit laws s p history captured c b h in
      elim cases [
        | inl (e, undone, free, next) ↦
            let same : f.eq c.average_fps c.average_fps && f.eq c.p1_fps c.p1_fps ≡ true =
              ground (arith, laws.eq_refl c.average_fps, laws.eq_refl c.p1_fps, recorded.4) in
            let new : State V F = with_baseline s c in
            let (done, still_unskipped, _) = complete_baseline_lem p r.timestamp in
            let back = readback_lem laws s p b.history c r recorded next in
            subst
              (λ x.
                (prepare_baseline_benchmark_commit s p b.history later c ≡ ok x)
                × (prepare_baseline_benchmark_commit x.state p b.history later c ≡ ok x)
                × (prepare_baseline_benchmark_commit x.state x.progress b.history later c
                    ≡ ok (record x { idempotent = true })))
              (sym e)
              (
                prepare-recorded s p b.history later c r valid recorded at unskipped undone free
                    next,
                prepare-recorded new p b.history later c r next recorded at unskipped undone
                    (ground (arith, same)) next,
                prepare-finished new _ b.history later c r r next recorded at still_unskipped done
                    same back,
              )
        | inr (old, _, _) ↦ ground arith
      ]
