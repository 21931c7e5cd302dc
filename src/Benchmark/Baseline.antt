-- ===== src/Benchmark/Baseline.antt =====
-- The baseline observation: crates/frametime-domain/src/benchmark.rs. Nothing is written here: the
-- caller writes the history, the state and the progress, in this order.
use cs2_opt.Prelude.{
  Bool, true, false, not, ◌&&◌, ◌||◌, List, [], ◌∷◌, Option, none, some, leb, ltb, filter, head,
  length, is_some, Result, ok, err, ◌>>=◌, ◌>>◌, ensure, String, if◌then◌else◌,
}
use cs2_opt.Prelude.Text.{Text, codes, text_eq}
use cs2_opt.Prelude.Keys.{lookup}
use cs2_opt.Prelude.Float.{F64}
use cs2_opt.Fps.{BenchmarkCapture}
use cs2_opt.State.{State, validate}
use cs2_opt.Progress.{Progress, is_completed, is_skipped, complete_step}
use cs2_opt.Catalog.Steps.{phase_one_baseline_benchmark}
use cs2_opt.Benchmark.Receipt.{BenchmarkRecord, baseline_benchmark_label, valid_capture_timestamp}
use cs2_opt.Benchmark.History.{
  append_benchmark_record, validate_history, validate_complete_capture, record_matches_capture,
}

pub record BaselineBenchmarkCommit (V F : Type 0) : Type 0 where
  pub state : State V F
  pub progress : Progress V
  pub history : List (BenchmarkRecord V F)
  pub captured_utc : Text
  pub idempotent : Bool

-- `record.timestamp` compared with an entry of the timestamps.
abbrev pub is_timestamp : Option Text → Text → Bool
is_timestamp none t = false
is_timestamp (some s) t = text_eq s t

module _ {V F : Type 0} where
  abbrev pub is_baseline_record : BenchmarkRecord V F → Bool
  is_baseline_record r = text_eq r.label baseline_benchmark_label

module _ {F : Type 0} ⦃f : F64 F⦄ where
  -- `Option<f64>` compared with `Some(x)`.
  abbrev pub is_f64 : Option F → F → Bool
  is_f64 none x = false
  is_f64 (some y) x = f.eq y x

  abbrev pub p1_or_zero : Option F → F
  p1_or_zero none = f.zero_f64
  p1_or_zero (some x) = x

module _ {V F : Type 0} ⦃f : F64 F⦄ where
  abbrev pub agrees_with_state : State V F → BenchmarkRecord V F → Bool
  agrees_with_state s r =
      is_baseline_record r
      && (f.eq r.avg_fps s.baseline_avg
          && (f.eq r.p1_fps (p1_or_zero s.baseline_p1)
              && (ltb 0 r.runs && (not (is_some r.receipt_id) && not (is_some r.transaction_id)))))

  -- The end of the validation: exactly one record, and its timestamp is that of the progress.
  unfoldable pub only_coherent :
      Progress V → List (BenchmarkRecord V F) → Result String (BenchmarkRecord V F)
  unfolding lookup
  only_coherent p (r ∷ []) =
      if is_timestamp (lookup (codes "1-17") p.timestamps) r.timestamp
      then ok r
      else err "baseline state, history, and progress are not coherent"
  only_coherent p _ = err "baseline state, history, and progress are not coherent"

  unfoldable pub validate_persisted_baseline_benchmark :
      State V F → Progress V → List (BenchmarkRecord V F) → Result String (BenchmarkRecord V F)
  unfolding only_coherent
  validate_persisted_baseline_benchmark s p history =
      let p1 = p1_or_zero s.baseline_p1 in
      do
        validate s
        validate_history history
        ensure
            (not (
              not (f.is_finite s.baseline_avg)
              || (f.le s.baseline_avg f.zero_f64
                  || (not (f.is_finite p1) || (f.le p1 f.zero_f64 || f.lt s.baseline_avg p1)))))
            "baseline state is incomplete or invalid"
        ensure
            (not (
              not (is_completed p phase_one_baseline_benchmark)
              || is_skipped p phase_one_baseline_benchmark))
            "baseline benchmark progress is incomplete or skipped"
        only_coherent p (filter (agrees_with_state s) history)

  abbrev pub baseline_record : Text → BenchmarkCapture F → BenchmarkRecord V F
  baseline_record timestamp c = record {
    timestamp = timestamp;
    avg_fps = c.average_fps;
    p1_fps = c.p1_fps;
    label = baseline_benchmark_label;
    runs = c.runs;
    receipt_id = none;
    transaction_id = none;
    unknown_fields = [];
  }

  abbrev pub timestamp_or : Option (BenchmarkRecord V F) → Text → Text
  timestamp_or none captured = captured
  timestamp_or (some r) captured = r.timestamp

  abbrev pub with_baseline_record :
      Option (BenchmarkRecord V F)
      → List (BenchmarkRecord V F)
      → BenchmarkRecord V F
      → List (BenchmarkRecord V F)
  with_baseline_record none history r = append_benchmark_record history r
  with_baseline_record (some _) history r = history

  abbrev pub conflicts : Option (BenchmarkRecord V F) → BenchmarkCapture F → Bool
  conflicts none c = false
  conflicts (some r) c = not (record_matches_capture r c)

  abbrev pub with_baseline : State V F → BenchmarkCapture F → State V F
  with_baseline s c = record s { baseline_avg = c.average_fps; baseline_p1 = some c.p1_fps }

  -- What is still to be written, from the record that is there already if there is one.
  unfoldable pub next_baseline :
      State V F
      → Progress V
      → List (BenchmarkRecord V F)
      → Text
      → BenchmarkCapture F
      → Option (BenchmarkRecord V F)
      → Result String (BaselineBenchmarkCommit V F)
  next_baseline s p history captured c existing =
      let timestamp = timestamp_or existing captured in
      do
        validate (with_baseline s c)
        ok (record {
          state = with_baseline s c;
          progress = complete_step p phase_one_baseline_benchmark timestamp;
          history = with_baseline_record existing history (baseline_record timestamp c);
          captured_utc = timestamp;
          idempotent = false;
        })

  -- The state has a baseline already.
  unfoldable pub resume_baseline :
      State V F
      → Progress V
      → List (BenchmarkRecord V F)
      → Text
      → BenchmarkCapture F
      → Option (BenchmarkRecord V F)
      → Result String (BaselineBenchmarkCommit V F)
  unfolding next_baseline
  resume_baseline s p history captured c none =
      err "baseline state has no matching benchmark history"
  resume_baseline s p history captured c (some r) = do
    ensure (f.eq s.baseline_avg c.average_fps && is_f64 s.baseline_p1 c.p1_fps)
        "baseline state conflicts with requested capture"
    if is_completed p phase_one_baseline_benchmark
        then (do
          kept ← validate_persisted_baseline_benchmark s p history
          ok (record {
            state = s;
            progress = p;
            history = history;
            captured_utc = r.timestamp;
            idempotent = true;
          }))
        else next_baseline s p history captured c (some r)

  -- From the records of a baseline that the history holds.
  unfoldable pub prepare_matching :
      State V F
      → Progress V
      → List (BenchmarkRecord V F)
      → Text
      → BenchmarkCapture F
      → List (BenchmarkRecord V F)
      → Result String (BaselineBenchmarkCommit V F)
  unfolding resume_baseline next_baseline
  prepare_matching s p history captured c matching =
      let existing = head matching in
      do
        ensure (leb (length matching) 1) "baseline benchmark history is duplicated"
        ensure (not (conflicts existing c)) "baseline benchmark conflicts with existing history"
        if f.lt f.zero_f64 s.baseline_avg || is_some s.baseline_p1
            then resume_baseline s p history captured c existing
            else (do
              ensure (not (is_completed p phase_one_baseline_benchmark))
                  "baseline benchmark progress precedes its state"
              next_baseline s p history captured c existing)

  unfoldable pub prepare_baseline_benchmark_commit :
      State V F
      → Progress V
      → List (BenchmarkRecord V F)
      → Text
      → BenchmarkCapture F
      → Result String (BaselineBenchmarkCommit V F)
  unfolding prepare_matching
  prepare_baseline_benchmark_commit s p history captured c = do
    validate s
    validate_history history
    validate_complete_capture c
    ensure (valid_capture_timestamp captured) "baseline benchmark timestamp is invalid"
    ensure (not (is_skipped p phase_one_baseline_benchmark))
        "baseline benchmark was skipped and cannot be captured"
    prepare_matching s p history captured c (filter is_baseline_record history)
