-- ===== src/Benchmark/Receipt.antt =====
-- Receipts and history records of crates/frametime-domain/src/benchmark.rs. `V` stands for kept
-- JSON values and `F` for `f64`.
use cs2_opt.Prelude.{
  ℕ, suc, Bool, true, not, ◌&&◌, ◌||◌, List, [], ◌∷◌, Option, ◌==◌, length, Result, ok, ◌>>◌,
  ensure, String, if◌then◌else◌,
}
use cs2_opt.Prelude.Text.{Text, codes, text_eq, is_ascii_digit}
use cs2_opt.Prelude.Float.{F64}
use cs2_opt.Handoff.Format.{TransactionId}
use cs2_opt.Handoff.Transaction.{RebootTransaction, is_some_and}
use cs2_opt.Fps.{BenchmarkCapture}

abbrev pub max_benchmark_history : ℕ
max_benchmark_history = 200

abbrev pub final_benchmark_schema_version : ℕ
final_benchmark_schema_version = 1

abbrev pub final_benchmark_label : Text
final_benchmark_label = codes "After all optimizations"

abbrev pub baseline_benchmark_label : Text
baseline_benchmark_label = codes "Baseline (before optimizations)"

-- The byte that a capture timestamp has at each index.
timestamp_byte : ℕ → ℕ → Bool
timestamp_byte index byte =
    if index == 4 || index == 7
    then byte == b'-'
    else if index == 10
    then byte == b' '
    else if index == 13 || index == 16
    then byte == b':'
    else is_ascii_digit byte

timestamp_bytes : ℕ → Text → Bool
timestamp_bytes index [] = true
timestamp_bytes index (byte ∷ rest) = timestamp_byte index byte && timestamp_bytes (suc index) rest

unfoldable pub valid_capture_timestamp : Text → Bool
unfolding timestamp_byte timestamp_bytes
valid_capture_timestamp value = length value == 19 && timestamp_bytes 0 value

abbrev pub transaction_id_eq : TransactionId → TransactionId → Bool
transaction_id_eq a b = text_eq a.text b.text

pub record BenchmarkRecord (V F : Type 0) : Type 0 where
  pub timestamp : Text
  pub avg_fps : F
  pub p1_fps : F
  pub label : Text
  pub runs : ℕ
  pub receipt_id : Option TransactionId
  pub transaction_id : Option TransactionId
  pub unknown_fields : List (Text × V)

pub record FinalBenchmarkReceipt (V F : Type 0) : Type 0 where
  pub schema_version : ℕ
  pub receipt_id : TransactionId
  pub transaction_id : TransactionId
  pub captured_utc : Text
  pub avg_fps : F
  pub p1_fps : F
  pub runs : ℕ
  pub fps_cap : ℕ
  pub label : Text
  pub unknown_fields : List (Text × V)

module _ {F : Type 0} ⦃f : F64 F⦄ where
  -- `avg` and `p1` are finite and positive, `p1` is at most `avg`, and there was a run.
  abbrev pub complete_capture : F → F → ℕ → Bool
  complete_capture avg p1 runs = not (
      not (f.is_finite avg)
      || (f.le avg f.zero_f64
          || (not (f.is_finite p1) || (f.le p1 f.zero_f64 || (f.lt avg p1 || runs == 0)))))

module _ {V F : Type 0} ⦃f : F64 F⦄ where
  unfoldable pub receipt_validate : FinalBenchmarkReceipt V F → Result String (Unit {0})
  receipt_validate r = do
    ensure (r.schema_version == final_benchmark_schema_version) "unsupported final benchmark schema"
    ensure (not (transaction_id_eq r.receipt_id r.transaction_id))
        "final benchmark receipt id must differ from its reboot transaction id"
    ensure (valid_capture_timestamp r.captured_utc) "final benchmark timestamp is invalid"
    ensure (complete_capture r.avg_fps r.p1_fps r.runs)
        "final benchmark capture is incomplete or invalid"
    ensure (text_eq r.label final_benchmark_label)
        "final benchmark label is not the fixed Phase 3 label"

  unfoldable pub receipt_new :
      TransactionId
      → TransactionId
      → Text
      → BenchmarkCapture F
      → ℕ
      → Result String (FinalBenchmarkReceipt V F)
  unfolding receipt_validate
  receipt_new receipt_id transaction_id captured_utc capture fps_cap =
      let receipt : FinalBenchmarkReceipt V F = record {
        schema_version = final_benchmark_schema_version;
        receipt_id = receipt_id;
        transaction_id = transaction_id;
        captured_utc = captured_utc;
        avg_fps = capture.average_fps;
        p1_fps = capture.p1_fps;
        runs = capture.runs;
        fps_cap = fps_cap;
        label = final_benchmark_label;
        unknown_fields = [];
      } in
      do receipt_validate receipt; ok receipt

  unfoldable pub validate_for_transaction :
      FinalBenchmarkReceipt V F → RebootTransaction V → Result String (Unit {0})
  validate_for_transaction r t = do
    receipt_validate r
    ensure (is_some_and (λ id. transaction_id_eq id r.transaction_id) t.transaction_id)
        "final benchmark transaction id does not match active reboot transaction"

  unfoldable pub matches_history_record : FinalBenchmarkReceipt V F → BenchmarkRecord V F → Bool
  matches_history_record r h =
      text_eq h.timestamp r.captured_utc
      && (f.eq h.avg_fps r.avg_fps
          && (f.eq h.p1_fps r.p1_fps
              && (text_eq h.label r.label
                  && (h.runs == r.runs
                      && (is_some_and (λ id. transaction_id_eq id r.receipt_id) h.receipt_id
                          && is_some_and (λ id. transaction_id_eq id r.transaction_id)
                              h.transaction_id)))))
