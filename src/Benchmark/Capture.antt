-- ===== src/Benchmark/Capture.antt =====
-- Which final measurements of crates/frametime-domain/src/benchmark.rs are accepted.
use cs2_opt.Prelude.{◌∙◌, ◌≡◌, ◌↔◌, ◌<◌, ap, Option, none, true, false, ok, arith, some}
use cs2_opt.Prelude.Float.{F64}
use cs2_opt.Prelude.Text.{text_eq_iff, Text, text_eq_refl}
use cs2_opt.Handoff.Format.{TransactionId}
use cs2_opt.Handoff.Transaction.{is_some_and, RebootTransaction}
use cs2_opt.Benchmark.Receipt.{
  FinalBenchmarkReceipt, receipt_validate, validate_for_transaction, valid_capture_timestamp,
  final_benchmark_label, final_benchmark_schema_version, transaction_id_eq,
}

named_iff :
    (o : Option TransactionId) (id : TransactionId)
    → (is_some_and (λ (x : TransactionId). transaction_id_eq x id) o ≡ true) ↔ (o ≡ some id)
named_iff none id = ground arith
named_iff (some x) id = (
  (λ h. ap (λ (text : Text). some (record { text = text })) ((text_eq_iff x.text id.text).0 h)),
  (λ e. ap (is_some_and (λ (x : TransactionId). transaction_id_eq x id)) e ∙ text_eq_refl id.text),
)

module _ {V F : Type 0} ⦃f : F64 F⦄ where
  -- A capture that is complete, of the known version and label, under an id of its own.
  abbrev pub IsAccepted : FinalBenchmarkReceipt V F → Type 0
  IsAccepted r =
      (r.schema_version ≡ final_benchmark_schema_version)
      × (¬ (r.receipt_id.text ≡ r.transaction_id.text))
      × (valid_capture_timestamp r.captured_utc ≡ true)
      × (f.is_finite r.avg_fps ≡ true)
      × (f.le r.avg_fps f.zero_f64 ≡ false)
      × (f.is_finite r.p1_fps ≡ true)
      × (f.le r.p1_fps f.zero_f64 ≡ false)
      × (f.lt r.avg_fps r.p1_fps ≡ false)
      × (0 < r.runs)
      × (r.label ≡ final_benchmark_label)

  pub receipt_validate_iff :
      (r : FinalBenchmarkReceipt V F) → (receipt_validate r ≡ ok tt) ↔ IsAccepted r
  unfolding receipt_validate
  receipt_validate_iff r = ground (
    arith,
    (text_eq_iff r.receipt_id.text r.transaction_id.text).0,
    (text_eq_iff r.receipt_id.text r.transaction_id.text).1,
    (text_eq_iff r.label final_benchmark_label).0,
    (text_eq_iff r.label final_benchmark_label).1,
  )

  -- A receipt fits a transaction exactly if its capture is accepted and it names the transaction.
  pub validate_for_transaction_iff :
      (r : FinalBenchmarkReceipt V F) (t : RebootTransaction V)
      → (validate_for_transaction r t ≡ ok tt)
        ↔ IsAccepted r × (t.transaction_id ≡ some r.transaction_id)
  unfolding validate_for_transaction
  validate_for_transaction_iff r t = ground (
    arith,
    (receipt_validate_iff r).0,
    (receipt_validate_iff r).1,
    (named_iff t.transaction_id r.transaction_id).0,
    (named_iff t.transaction_id r.transaction_id).1,
  )
