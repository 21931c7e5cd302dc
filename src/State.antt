-- ===== src/State.antt =====
-- The persisted workflow state and its validation: crates/frametime-domain/src/state.rs. `V` stands
-- for kept JSON values and `F` for `f64`.
pub mod Validation
use cs2_opt.Prelude.{
  ℕ, Bool, true, false, not, ◌&&◌, ◌||◌, List, [], ◌∷◌, ◌++◌, Option, none, some, leb, ◌==◌, any,
  Result, ok, err, ◌>>=◌, ◌>>◌, ensure, String, if◌then◌else◌,
}
use cs2_opt.Prelude.Text.{Text, codes, text_eq}
use cs2_opt.Prelude.Keys.{contains_key}
use cs2_opt.Prelude.Float.{F64}
use cs2_opt.Handoff.Stage.{RebootStage, phase_three_armed, phase_three_complete}
use cs2_opt.Handoff.Transaction.{RebootTransaction, is_authorized_at}
use cs2_opt.Policy.{Profile, safe, recommended, competitive, custom, yolo}
use cs2_opt.Benchmark.Receipt.{FinalBenchmarkReceipt, validate_for_transaction}

abbrev pub max_pagefile_mb : ℕ
max_pagefile_mb = 1_048_576

pub record State (V F : Type 0) : Type 0 where
  pub mode : Text
  pub log_level : Text
  pub profile : Profile
  pub fps_cap : ℕ
  pub avg_fps : F
  pub p1_fps : Option F
  pub baseline_avg : F
  pub baseline_p1 : Option F
  pub cap_date : Option Text
  pub gpu_input : Option Text
  pub pagefile_mb : ℕ
  pub work_dir : Text
  pub script_root : Text
  pub phase1_safe_mode_ready : Bool
  pub active_reboot_transaction : Option (RebootTransaction V)
  pub final_benchmark : Option (FinalBenchmarkReceipt V F)
  pub unknown_fields : List (Text × V)

abbrev pub valid_gpu_input : Option Text → Bool
valid_gpu_input none = true
valid_gpu_input (some value) =
    text_eq value (codes "1")
    || (text_eq value (codes "2") || (text_eq value (codes "3") || text_eq value (codes "4")))

unfoldable pub mode_for_profile : Profile → Text
mode_for_profile safe = codes "AUTO"
mode_for_profile recommended = codes "AUTO"
mode_for_profile competitive = codes "CONTROL"
mode_for_profile custom = codes "INFORMED"
mode_for_profile yolo = codes "YOLO"

abbrev pub authorized_phase_three : {V : Type 0} → RebootTransaction V → Bool
authorized_phase_three t = elim t.stage [
  | phase_three_armed ↦ is_authorized_at t phase_three_armed
  | phase_three_complete ↦ is_authorized_at t phase_three_complete
  | _ ↦ false
]

module _ {F : Type 0} ⦃f : F64 F⦄ where
  abbrev pub default_state : (V : Type 0) → State V F
  default_state V = record {
    mode = codes "CONTROL";
    log_level = codes "NORMAL";
    profile = recommended;
    fps_cap = 0;
    avg_fps = f.zero_f64;
    p1_fps = none;
    baseline_avg = f.zero_f64;
    baseline_p1 = none;
    cap_date = none;
    gpu_input = none;
    pagefile_mb = 0;
    work_dir = codes "C:" ++ 92 ∷ codes "FRAMETIME_CFG";
    script_root = [];
    phase1_safe_mode_ready = false;
    active_reboot_transaction = none;
    final_benchmark = none;
    unknown_fields = [];
  }

  -- The `match` on `baseline_p1`.
  unfoldable pub valid_baseline : F → Option F → Bool
  valid_baseline avg (some p1) =
      f.is_finite avg
      && (f.lt f.zero_f64 avg && (f.is_finite p1 && (f.lt f.zero_f64 p1 && f.le p1 avg)))
  valid_baseline avg none = f.eq avg f.zero_f64

module _ {V F : Type 0} ⦃f : F64 F⦄ where
  unfoldable pub validate_receipt :
      Option (FinalBenchmarkReceipt V F) → Option (RebootTransaction V) → Result String (Unit {0})
  validate_receipt none transaction = ok tt
  validate_receipt (some receipt) none = err "finalBenchmark requires an active reboot transaction"
  validate_receipt (some receipt) (some transaction) = do
    ensure (authorized_phase_three transaction)
        "finalBenchmark requires a Phase 3 reboot transaction"
    validate_for_transaction receipt transaction

  unfoldable pub validate : State V F → Result String (Unit {0})
  unfolding valid_baseline validate_receipt
  validate s = do
    ensure (not (contains_key (codes "activeRebootTransaction") s.unknown_fields))
        "activeRebootTransaction is malformed"
    ensure (not (contains_key (codes "finalBenchmark") s.unknown_fields))
        "finalBenchmark is malformed"
    ensure (valid_gpu_input s.gpu_input) "gpuInput must be one of 1, 2, 3, or 4"
    ensure (s.pagefile_mb == 0 || leb s.pagefile_mb max_pagefile_mb)
        "pagefileMB must be 0 or between 1 and 1048576"
    ensure (valid_baseline s.baseline_avg s.baseline_p1)
        "baselineAvg and baselineP1 must be a complete valid capture"
    validate_receipt s.final_benchmark s.active_reboot_transaction
