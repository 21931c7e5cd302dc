-- ===== src/Benchmark/BaselineCases.antt =====
-- What can be prepared from a baseline capture, and what is prepared from one that is recorded:
-- crates/frametime-domain/src/benchmark.rs.
use mathlib.Core.Path.{subst}
use cs2_opt.Prelude.{
  ◌≡◌, ◌||◌, true, false, not, List, [], ◌∷◌, some, is_some, filter, Bool, refl, ok, arith, ◌&&◌,
  Option, ◌⊎◌, then-ok, ok-injective, inl, ap, ensure-ok, Bool-cases, bind-ok, inr, sym, none,
}
use cs2_opt.Prelude.Text.{Text}
use cs2_opt.Prelude.Float.{F64, F64Laws}
use cs2_opt.Fps.{BenchmarkCapture}
use cs2_opt.State.{State, validate}
use cs2_opt.Progress.{Progress, is_completed, is_skipped, complete_step}
use cs2_opt.Catalog.Steps.{phase_one_baseline_benchmark}
use cs2_opt.Benchmark.Receipt.{BenchmarkRecord, valid_capture_timestamp}
use cs2_opt.Benchmark.History.{validate_complete_capture, validate_history}
use cs2_opt.Benchmark.Baseline.{
  BaselineBenchmarkCommit, is_baseline_record, validate_persisted_baseline_benchmark, with_baseline,
  next_baseline, resume_baseline, prepare_baseline_benchmark_commit, is_f64, prepare_matching,
  timestamp_or, with_baseline_record, baseline_record, conflicts,
}
use cs2_opt.Benchmark.BaselineRecord.{IsRecorded, IsRecorded-new, filter-head}

module _ {V F : Type 0} ⦃f : F64 F⦄ where
  abbrev pub commit_of :
      State V F
      → Progress V
      → List (BenchmarkRecord V F)
      → BenchmarkCapture F
      → BenchmarkRecord V F
      → Bool
      → BaselineBenchmarkCommit V F
  commit_of s p history c r done = record {
    state = with_baseline s c;
    progress = complete_step p phase_one_baseline_benchmark r.timestamp;
    history = history;
    captured_utc = r.timestamp;
    idempotent = done;
  }

  -- The state has no baseline, or the capture's.
  abbrev pub is_open : State V F → BenchmarkCapture F → Bool
  is_open s c =
      not (f.lt f.zero_f64 s.baseline_avg || is_some s.baseline_p1)
      || (f.eq s.baseline_avg c.average_fps && is_f64 s.baseline_p1 c.p1_fps)

  -- What a recorded capture leads to while the step is open.
  pub prepare-recorded :
      (s : State V F) (p : Progress V) (history : List (BenchmarkRecord V F)) (later : Text)
      (c : BenchmarkCapture F) (r : BenchmarkRecord V F)
      → validate s ≡ ok tt
      → IsRecorded history c r
      → valid_capture_timestamp later ≡ true
      → is_skipped p phase_one_baseline_benchmark ≡ false
      → is_completed p phase_one_baseline_benchmark ≡ false
      → is_open s c ≡ true
      → validate (with_baseline s c) ≡ ok tt
      → prepare_baseline_benchmark_commit s p history later c ≡ ok (commit_of s p history c r false)
  unfolding prepare_baseline_benchmark_commit prepare_matching resume_baseline next_baseline
  prepare-recorded s p history later c r valid (only, label, matches, kept, full) at unskipped
        undone free next =
      simp (valid, kept, full, at, unskipped, undone, only, matches, next) (ground arith)

  -- What it leads to once all is written.
  pub prepare-finished :
      (s : State V F) (p : Progress V) (history : List (BenchmarkRecord V F)) (later : Text)
      (c : BenchmarkCapture F) (r r' : BenchmarkRecord V F)
      → validate s ≡ ok tt
      → IsRecorded history c r
      → valid_capture_timestamp later ≡ true
      → is_skipped p phase_one_baseline_benchmark ≡ false
      → is_completed p phase_one_baseline_benchmark ≡ true
      → f.eq s.baseline_avg c.average_fps && is_f64 s.baseline_p1 c.p1_fps ≡ true
      → validate_persisted_baseline_benchmark s p history ≡ ok r'
      → prepare_baseline_benchmark_commit s p history later c
        ≡ ok (record {
          state = s;
          progress = p;
          history = history;
          captured_utc = r.timestamp;
          idempotent = true;
        })
  unfolding prepare_baseline_benchmark_commit prepare_matching resume_baseline
  prepare-finished s p history later c r r' valid (only, label, matches, kept, full) at unskipped
        done same back =
      simp (valid, kept, full, at, unskipped, done, only, matches, same, back) (ground arith)

  -- What a prepared observation of a record is: all of it is there, or the rest is still to write.
  abbrev pub IsCommit :
      State V F
      → Progress V
      → BenchmarkCapture F
      → BenchmarkRecord V F
      → BaselineBenchmarkCommit V F
      → Type 0
  IsCommit s p c r b =
      ((b ≡ commit_of s p b.history c r false)
        × (is_completed p phase_one_baseline_benchmark ≡ false)
        × (is_open s c ≡ true)
        × (validate (with_baseline s c) ≡ ok tt))
      ⊎ ((b.idempotent ≡ true)
          × (b.captured_utc ≡ r.timestamp)
          × ((r' : BenchmarkRecord V F) × (validate_persisted_baseline_benchmark b.state b.progress
                  b.history
                ≡ ok r')))

  next_baseline-IsCommit :
      (s : State V F) (p : Progress V) (history : List (BenchmarkRecord V F)) (captured : Text)
      (c : BenchmarkCapture F) (existing : Option (BenchmarkRecord V F)) (r : BenchmarkRecord V F)
      (b : BaselineBenchmarkCommit V F)
      → is_completed p phase_one_baseline_benchmark ≡ false
      → is_open s c ≡ true
      → timestamp_or existing captured ≡ r.timestamp
      → IsRecorded
          (with_baseline_record existing history
            (baseline_record (timestamp_or existing captured) c))
          c
          r
      → next_baseline s p history captured c existing ≡ ok b
      → IsRecorded b.history c r × IsCommit s p c r b
  unfolding next_baseline
  next_baseline-IsCommit s p history captured c existing r b undone free at recorded h =
      let timestamp : Text = timestamp_or existing captured in
      let kept = with_baseline_record existing history (baseline_record timestamp c) in
      let (valid, h) = then-ok (validate (with_baseline s c)) _ b h in
      let made : List (BenchmarkRecord V F) → Text → BaselineBenchmarkCommit V F = λ xs t. record {
        state = with_baseline s c;
        progress = complete_step p phase_one_baseline_benchmark t;
        history = xs;
        captured_utc = t;
        idempotent = false;
      } in
      let e : made kept timestamp ≡ b = ok-injective (made kept timestamp) b h in
      (
        subst (λ x. IsRecorded x.history c r) e recorded,
        inl (
          subst (λ x. x ≡ made x.history r.timestamp) e (ap (made kept) at),
          undone,
          free,
          valid,
        ),
      )

  resume_baseline-IsCommit :
      (s : State V F) (p : Progress V) (history : List (BenchmarkRecord V F)) (captured : Text)
      (c : BenchmarkCapture F) (r : BenchmarkRecord V F) (b : BaselineBenchmarkCommit V F)
      → IsRecorded history c r
      → resume_baseline s p history captured c (some r) ≡ ok b
      → IsRecorded b.history c r × IsCommit s p c r b
  unfolding resume_baseline
  resume_baseline-IsCommit s p history captured c r b recorded h =
      let (same, h) =
        ensure-ok (f.eq s.baseline_avg c.average_fps && is_f64 s.baseline_p1 c.p1_fps)
          "baseline state conflicts with requested capture" _ b h in
      elim (Bool-cases (is_completed p phase_one_baseline_benchmark)) [
        | inl done ↦
            let all : BaselineBenchmarkCommit V F = record {
              state = s;
              progress = p;
              history = history;
              captured_utc = r.timestamp;
              idempotent = true;
            } in
            let (r', back, h) =
              bind-ok (validate_persisted_baseline_benchmark s p history) (λ _. ok all) b
                (ground arith) in
            let e : all ≡ b = ok-injective all b h in
            (
              subst (λ x. IsRecorded x.history c r) e recorded,
              inr (
                ap (λ x. x.idempotent) (sym e),
                ap (λ x. x.captured_utc) (sym e),
                (
                  r',
                  subst
                      (λ x.
                        validate_persisted_baseline_benchmark x.state x.progress x.history ≡ ok r')
                      e back,
                ),
              ),
            )
        | inr open_step ↦
            next_baseline-IsCommit s p history captured c (some r) r b open_step (ground arith) refl
              recorded (ground arith)
      ]

  -- From the baseline records that were found.
  pub prepare_matching-IsCommit :
      F64Laws f
      → (s : State V F) (p : Progress V) (history : List (BenchmarkRecord V F)) (captured : Text)
        (c : BenchmarkCapture F) (matching : List (BenchmarkRecord V F))
        (b : BaselineBenchmarkCommit V F)
      → filter is_baseline_record history ≡ matching
      → validate_history history ≡ ok tt
      → validate_complete_capture c ≡ ok tt
      → valid_capture_timestamp captured ≡ true
      → prepare_matching s p history captured c matching ≡ ok b
      → (r : BenchmarkRecord V F) × (IsRecorded b.history c r × IsCommit s p c r b)
  unfolding prepare_matching resume_baseline
  prepare_matching-IsCommit laws s p history captured c [] b found kept full at h =
      let unset : (f.lt f.zero_f64 s.baseline_avg || is_some s.baseline_p1) ≡ false =
        ground arith in
      let undone : is_completed p phase_one_baseline_benchmark ≡ false = ground arith in
      (
        baseline_record captured c,
        next_baseline-IsCommit s p history captured c none (baseline_record captured c) b undone
            (ground arith) refl (IsRecorded-new laws history captured c found kept full at)
            (ground arith),
      )
  prepare_matching-IsCommit laws s p history captured c (r ∷ []) b found kept full at h =
      let (matches, h) =
        ensure-ok (not (conflicts (some r) c)) "baseline benchmark conflicts with existing history"
          _ b h in
      let recorded : IsRecorded history c r =
        (found, filter-head history r [] found, ground arith, kept, full) in
      (
        r,
        elim (Bool-cases (f.lt f.zero_f64 s.baseline_avg || is_some s.baseline_p1)) [
          | inl set ↦ resume_baseline-IsCommit s p history captured c r b recorded (ground arith)
          | inr unset ↦
              next_baseline-IsCommit s p history captured c (some r) r b (ground arith)
                (ground arith) refl recorded (ground arith)
        ],
      )
  prepare_matching-IsCommit laws s p history captured c (r ∷ r' ∷ rest) b found kept full at h =
      ground arith
