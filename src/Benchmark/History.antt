-- ===== src/Benchmark/History.antt =====
-- The bounded history of crates/frametime-domain/src/benchmark.rs.
use cs2_opt.Prelude.{
  inl, inr, Bool-cases, ◌+◌, ◌-◌, ◌≡◌, Bool, not, ◌&&◌, ◌||◌, List, [], ◌∷◌, ◌++◌, leb, ltb, ◌==◌,
  any, length, length-append, drop, drop-append, is_empty, Result, ◌>>◌, ensure, String, arith,
  if◌then◌else◌, refl, is_some, Bool-cases,
}
use cs2_opt.Prelude.Float.{F64}
use cs2_opt.Fps.{BenchmarkCapture}
use cs2_opt.Benchmark.Receipt.{
  BenchmarkRecord, complete_capture, max_benchmark_history, valid_capture_timestamp,
}

module _ {A : Type 0} where
  -- `history.drain(..history.len() - MAX_BENCHMARK_HISTORY)` when it is longer than that.
  unfoldable pub retain_newest : List A → List A
  retain_newest history =
      if ltb max_benchmark_history (length history)
      then drop (length history - max_benchmark_history) history
      else history

  unfoldable pub append_benchmark_record : List A → A → List A
  unfolding retain_newest
  append_benchmark_record history item = retain_newest (history ++ item ∷ [])

  -- What is kept of the older records.
  abbrev pub older_kept : List A → List A
  older_kept history = drop (length history + 1 - max_benchmark_history) history

  pub append_benchmark_record_lem :
      (history : List A) (item : A)
      → append_benchmark_record history item ≡ older_kept history ++ item ∷ []
  unfolding append_benchmark_record retain_newest drop
  append_benchmark_record_lem history item =
      rw (length-append history (item ∷ [])) (elim (Bool-cases (ltb 200 (length history + 1))) [
        | inl e ↦ rw e (drop-append (length history + 1 - 200) history (item ∷ []) (ground arith))
        | inr e ↦ let z : length history + 1 - 200 ≡ 0 = ground arith in rw (e, z) refl
      ])

module _ {V F : Type 0} ⦃f : F64 F⦄ where
  unfoldable pub invalid_record : BenchmarkRecord V F → Bool
  invalid_record r =
      not (f.is_finite r.avg_fps)
      || (f.lt r.avg_fps f.zero_f64
          || (not (f.is_finite r.p1_fps)
              || (f.lt r.p1_fps f.zero_f64
                  || (r.runs == 0
                      || (is_empty r.label || not (valid_capture_timestamp r.timestamp))))))

  unfoldable pub validate_history : List (BenchmarkRecord V F) → Result String (Unit {0})
  validate_history history = do
    ensure (leb (length history) max_benchmark_history)
        "benchmark history exceeds its retention limit"
    ensure (not (any invalid_record history)) "benchmark history contains an invalid record"

module _ {F : Type 0} ⦃f : F64 F⦄ where
  unfoldable pub validate_complete_capture : BenchmarkCapture F → Result String (Unit {0})
  validate_complete_capture c =
      ensure (complete_capture c.average_fps c.p1_fps c.runs)
        "baseline benchmark requires complete VProf Avg, P1, and runs"

module _ {V F : Type 0} ⦃f : F64 F⦄ where
  unfoldable pub record_matches_capture : BenchmarkRecord V F → BenchmarkCapture F → Bool
  record_matches_capture r c =
      f.eq r.avg_fps c.average_fps
      && (f.eq r.p1_fps c.p1_fps
          && (r.runs == c.runs && (not (is_some r.receipt_id) && not (is_some r.transaction_id))))
