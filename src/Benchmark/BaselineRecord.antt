-- ===== src/Benchmark/BaselineRecord.antt =====
-- A history that holds the baseline record: crates/frametime-domain/src/benchmark.rs.
use cs2_opt.Prelude.{
  ◌≡◌, true, false, List, [], ◌∷◌, filter, any, any-drop, any-append, length, length-append,
  length-drop, filter-append, filter-none, ap, refl, ok, arith, ◌+◌, ◌-◌,
}
use cs2_opt.Prelude.Text.{Text, text_eq}
use cs2_opt.Prelude.Float.{F64, F64Laws}
use cs2_opt.Fps.{BenchmarkCapture}
use cs2_opt.Benchmark.Receipt.{BenchmarkRecord, valid_capture_timestamp}
use cs2_opt.Benchmark.History.{
  append_benchmark_record, append_benchmark_record_lem, older_kept, validate_history,
  validate_complete_capture, record_matches_capture, invalid_record,
}
use cs2_opt.Benchmark.Baseline.{is_baseline_record, baseline_record}

module _ {F : Type 0} ⦃f : F64 F⦄ where
  -- A record of a complete capture is valid.
  invalid_record-new :
      F64Laws f
      → (V : Type 0) (captured : Text) (c : BenchmarkCapture F)
      → validate_complete_capture c ≡ ok tt
      → valid_capture_timestamp captured ≡ true
      → invalid_record {V = V} (baseline_record captured c) ≡ false
  unfolding invalid_record validate_complete_capture
  invalid_record-new laws V captured c full at =
      ground (arith, laws.lt-le c.average_fps f.zero_f64, laws.lt-le c.p1_fps f.zero_f64)

  record_matches-new :
      F64Laws f
      → (V : Type 0) (captured : Text) (c : BenchmarkCapture F)
      → validate_complete_capture c ≡ ok tt
      → record_matches_capture {V = V} (baseline_record captured c) c ≡ true
  unfolding record_matches_capture validate_complete_capture
  record_matches-new laws V captured c full =
      ground (arith, laws.eq_refl c.average_fps, laws.eq_refl c.p1_fps)

module _ {V F : Type 0} ⦃f : F64 F⦄ where
  -- A history holds one baseline record, which is the capture's, and the record may be kept.
  abbrev pub IsRecorded :
      List (BenchmarkRecord V F) → BenchmarkCapture F → BenchmarkRecord V F → Type 0
  IsRecorded history c r =
      (filter is_baseline_record history ≡ r ∷ [])
      × (is_baseline_record r ≡ true)
      × (record_matches_capture r c ≡ true)
      × (validate_history history ≡ ok tt)
      × (validate_complete_capture c ≡ ok tt)

  no_record :
      (history : List (BenchmarkRecord V F))
      → filter is_baseline_record history ≡ []
      → any is_baseline_record history ≡ false
  unfolding any filter
  no_record [] h = refl
  no_record (r ∷ history) h = ground (arith, no_record history)

  validate_history-append :
      (history : List (BenchmarkRecord V F)) (r : BenchmarkRecord V F)
      → validate_history history ≡ ok tt
      → invalid_record r ≡ false
      → validate_history (append_benchmark_record history r) ≡ ok tt
  unfolding validate_history any
  validate_history-append history r h valid =
      let kept : List (BenchmarkRecord V F) = older_kept history in
      let none_kept : any invalid_record kept ≡ false =
        any-drop invalid_record _ history (ground arith) in
      rw
        (
          append_benchmark_record_lem history r,
          length-append kept (r ∷ []),
          any-append invalid_record kept (r ∷ []),
          none_kept,
          valid,
        )
        (ground (arith, length-drop (length history + 1 - 200) history))

  pub IsRecorded-new :
      F64Laws f
      → (history : List (BenchmarkRecord V F)) (captured : Text) (c : BenchmarkCapture F)
      → filter is_baseline_record history ≡ []
      → validate_history history ≡ ok tt
      → validate_complete_capture c ≡ ok tt
      → valid_capture_timestamp captured ≡ true
      → IsRecorded
          (append_benchmark_record history (baseline_record captured c))
          c
          (baseline_record captured c)
  unfolding filter text_eq
  IsRecorded-new laws history captured c fresh kept full at =
      let r : BenchmarkRecord V F = baseline_record captured c in
      let none_kept = any-drop is_baseline_record _ history (no_record history fresh) in
      (
        rw
            (
              append_benchmark_record_lem history r,
              filter-append is_baseline_record (older_kept history) (r ∷ []),
              filter-none is_baseline_record (older_kept history) none_kept,
            )
            refl,
        refl,
        record_matches-new laws V captured c full,
        validate_history-append history r kept (invalid_record-new laws V captured c full at),
        full,
      )

  pub filter-head :
      (history : List (BenchmarkRecord V F)) (r : BenchmarkRecord V F)
      (rest : List (BenchmarkRecord V F))
      → filter is_baseline_record history ≡ r ∷ rest
      → is_baseline_record r ≡ true
  unfolding filter
  filter-head [] r rest h = ground arith
  filter-head (x ∷ history) r rest h =
      ground (arith, filter-head history r rest, λ (e : x ≡ r). ap is_baseline_record e)
