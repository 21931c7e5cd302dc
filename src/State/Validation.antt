-- ===== src/State/Validation.antt =====
-- Which states of crates/frametime-domain/src/state.rs are valid.
use cs2_opt.Prelude.{◌≡◌, ◌↔◌, ◌≤◌, ◌⊎◌, true, false, Option, none, some, ok, arith}
use cs2_opt.Prelude.Text.{Text, codes, text_eq_iff}
use cs2_opt.Prelude.Keys.{contains_key}
use cs2_opt.Prelude.Float.{F64}
use cs2_opt.Handoff.Stage.{phase_three_armed, phase_three_complete, RebootStage, stage_eq_iff}
use cs2_opt.Handoff.Transaction.{RebootTransaction, is_authorized_at}
use cs2_opt.Benchmark.Receipt.{FinalBenchmarkReceipt}
use cs2_opt.Benchmark.Capture.{IsAccepted, validate_for_transaction_iff}
use cs2_opt.State.{
  State, validate, max_pagefile_mb, valid_baseline, validate_receipt, valid_gpu_input,
  authorized_phase_three,
}

abbrev pub IsGpuChoice : Option Text → Type 0
IsGpuChoice none = Unit {0}
IsGpuChoice (some value) =
    (value ≡ codes "1") ⊎ (value ≡ codes "2") ⊎ (value ≡ codes "3") ⊎ (value ≡ codes "4")

gpu_iff : (o : Option Text) → (valid_gpu_input o ≡ true) ↔ IsGpuChoice o
gpu_iff none = ground arith
gpu_iff (some v) = ground (
  arith,
  (text_eq_iff v (codes "1")).0,
  (text_eq_iff v (codes "1")).1,
  (text_eq_iff v (codes "2")).0,
  (text_eq_iff v (codes "2")).1,
  (text_eq_iff v (codes "3")).0,
  (text_eq_iff v (codes "3")).1,
  (text_eq_iff v (codes "4")).0,
  (text_eq_iff v (codes "4")).1,
)

module _ {F : Type 0} ⦃f : F64 F⦄ where
  -- Both numbers of a capture, or none of them.
  abbrev pub IsBaseline : F → Option F → Type 0
  IsBaseline avg none = f.eq avg f.zero_f64 ≡ true
  IsBaseline avg (some p1) =
      (f.is_finite avg ≡ true)
      × (f.lt f.zero_f64 avg ≡ true)
      × (f.is_finite p1 ≡ true)
      × (f.lt f.zero_f64 p1 ≡ true)
      × (f.le p1 avg ≡ true)

  valid_baseline_iff :
      (avg : F) (p1 : Option F) → (valid_baseline avg p1 ≡ true) ↔ IsBaseline avg p1
  unfolding valid_baseline
  valid_baseline_iff avg none = ground arith
  valid_baseline_iff avg (some p1) = ground arith

module _ {V : Type 0} where
  authorized_stage :
      (t : RebootTransaction V) (stage : RebootStage)
      → is_authorized_at t stage ≡ true
      → t.stage ≡ stage
  unfolding is_authorized_at
  authorized_stage t stage h = ground (arith, (stage_eq_iff t.stage stage).0)

  authorized_iff :
      (t : RebootTransaction V)
      → (authorized_phase_three t ≡ true)
        ↔ (is_authorized_at t phase_three_armed ≡ true)
          ⊎ (is_authorized_at t phase_three_complete ≡ true)
  authorized_iff t =
      ground (arith, authorized_stage t phase_three_armed, authorized_stage t phase_three_complete)

module _ {V F : Type 0} ⦃f : F64 F⦄ where
  -- A receipt stands only beside a transaction of phase 3 that it fits.
  abbrev pub ReceiptFits :
      Option (FinalBenchmarkReceipt V F) → Option (RebootTransaction V) → Type 0
  ReceiptFits none _ = Unit {0}
  ReceiptFits (some r) none = ⊥
  ReceiptFits (some r) (some t) =
      ((is_authorized_at t phase_three_armed ≡ true)
        ⊎ (is_authorized_at t phase_three_complete ≡ true))
      × IsAccepted r
      × (t.transaction_id ≡ some r.transaction_id)

  abbrev pub IsValid : State V F → Type 0
  IsValid s =
      (contains_key (codes "activeRebootTransaction") s.unknown_fields ≡ false)
      × (contains_key (codes "finalBenchmark") s.unknown_fields ≡ false)
      × IsGpuChoice s.gpu_input
      × (s.pagefile_mb ≤ max_pagefile_mb)
      × IsBaseline s.baseline_avg s.baseline_p1
      × ReceiptFits s.final_benchmark s.active_reboot_transaction

  receipt_iff :
      (o : Option (FinalBenchmarkReceipt V F)) (t : Option (RebootTransaction V))
      → (validate_receipt o t ≡ ok tt) ↔ ReceiptFits o t
  unfolding validate_receipt
  receipt_iff none t = ground arith
  receipt_iff (some r) none = ground arith
  receipt_iff (some r) (some t) = ground (
    arith,
    (authorized_iff t).0,
    (authorized_iff t).1,
    (validate_for_transaction_iff r t).0,
    (validate_for_transaction_iff r t).1,
  )

  -- Validation passes exactly the states whose handoff was read in full, whose graphics choice and
  -- page file are in range, whose baseline is complete or absent, and whose final benchmark fits an
  -- authorized transaction of phase 3.
  pub validate_iff : (s : State V F) → (validate s ≡ ok tt) ↔ IsValid s
  unfolding validate valid_baseline
  validate_iff s = ground (
    arith,
    (gpu_iff s.gpu_input).0,
    (gpu_iff s.gpu_input).1,
    (valid_baseline_iff s.baseline_avg s.baseline_p1).0,
    (valid_baseline_iff s.baseline_avg s.baseline_p1).1,
    (receipt_iff s.final_benchmark s.active_reboot_transaction).0,
    (receipt_iff s.final_benchmark s.active_reboot_transaction).1,
  )
