-- ===== src/Catalog/Kinds.antt =====
-- Closed vocabularies of the action catalog: crates/frametime-domain/src/catalog/definitions.rs,
-- and the GPU branches of crates/frametime-domain/src/operations.rs.
use cs2_opt.Prelude.{ℕ, zero, suc, Bool, true, false, Result, ok, err, String}

pub data Risk : Type 0 where
  safe moderate aggressive critical : Risk

-- `self as u8`.
abbrev pub rank : Risk → ℕ
rank safe = 0
rank moderate = 1
rank aggressive = 2
rank critical = 3

pub data Depth : Type 0 where
  setup check registry service boot driver network filesystem app : Depth

pub data OperationKind : Type 0 where
  setup inspect registry service boot_configuration driver network filesystem : OperationKind
  application_configuration : OperationKind

pub data GpuApplicability : Type 0 where
  any nvidia_only amd_only : GpuApplicability

pub data OrchestrationRole : Type 0 where
  engine arm_safe_mode_handoff clear_safe_boot arm_phase_three_handoff : OrchestrationRole
  persist_final_benchmark : OrchestrationRole

abbrev pub role_eq : OrchestrationRole → OrchestrationRole → Bool
role_eq engine engine = true
role_eq arm_safe_mode_handoff arm_safe_mode_handoff = true
role_eq clear_safe_boot clear_safe_boot = true
role_eq arm_phase_three_handoff arm_phase_three_handoff = true
role_eq persist_final_benchmark persist_final_benchmark = true
role_eq _ _ = false

pub data ActionIntent : Type 0 where
  configuration xmp_expo_check shader_cache_health fullscreen_optimizations_check : ActionIntent
  nvidia_driver_inventory power_policy_guidance hags_check pagefile resizable_bar_check :
      ActionIntent
  windows_timer_defaults mpo_health_check game_mode background_app_guidance autostart_inventory :
      ActionIntent
  windows_update_status rss_baseline baseline_benchmark gpu_driver_clean_preparation : ActionIntent
  nvidia_driver_download_preparation nvidia_profile_preparation msi_preparation : ActionIntent
  nic_affinity_preparation fast_startup_guidance memory_topology tcp_defaults_guidance :
      ActionIntent
  fullscreen_presentation_guidance multimedia_defaults_guidance timer_request_guidance :
      ActionIntent
  pointer_preference_guidance cs2_high_performance_gpu game_dvr_guidance overlay_guidance :
      ActionIntent
  audio_stack_guidance cs2_configuration chipset_driver_inventory visual_effects_guidance :
      ActionIntent
  windows_services_guidance safe_mode_handoff clear_safe_boot nvidia_driver_removal : ActionIntent
  phase_three_handoff nvidia_driver_install msi_interrupts nic_interrupt_affinity : ActionIntent
  nvidia_profile_apply fps_cap_info cs2_launch_video_guidance vbs_hvci_guidance : ActionIntent
  amd_radeon_guidance dns_guidance process_priority_guidance vram_usage_guidance : ActionIntent
  final_checklist_guidance final_benchmark : ActionIntent

abbrev pub is_mutating : ActionIntent → Bool
is_mutating configuration = true
is_mutating pagefile = true
is_mutating game_mode = true
is_mutating rss_baseline = true
is_mutating cs2_high_performance_gpu = true
is_mutating cs2_configuration = true
is_mutating safe_mode_handoff = true
is_mutating clear_safe_boot = true
is_mutating nvidia_driver_removal = true
is_mutating phase_three_handoff = true
is_mutating nvidia_driver_install = true
is_mutating nvidia_profile_apply = true
is_mutating _ = false

pub data GpuBranch : Type 0 where
  nvidia_rtx5000 nvidia amd intel_arc : GpuBranch

unfoldable pub gpu_branch_try_from : ℕ → Result String GpuBranch
gpu_branch_try_from (suc zero) = ok nvidia_rtx5000
gpu_branch_try_from (suc (suc zero)) = ok nvidia
gpu_branch_try_from (suc (suc (suc zero))) = ok amd
gpu_branch_try_from (suc (suc (suc (suc zero)))) = ok intel_arc
gpu_branch_try_from _ = err "GPU branch must be 1, 2, 3, or 4"

abbrev pub is_nvidia : GpuBranch → Bool
is_nvidia nvidia_rtx5000 = true
is_nvidia nvidia = true
is_nvidia _ = false

-- `matches!(branch, GpuBranch::Amd)`
abbrev pub is_amd : GpuBranch → Bool
is_amd amd = true
is_amd _ = false

unfoldable pub operation_kind : Depth → OperationKind
operation_kind Depth.setup = OperationKind.setup
operation_kind Depth.check = OperationKind.inspect
operation_kind Depth.registry = OperationKind.registry
operation_kind Depth.service = OperationKind.service
operation_kind Depth.boot = OperationKind.boot_configuration
operation_kind Depth.driver = OperationKind.driver
operation_kind Depth.network = OperationKind.network
operation_kind Depth.filesystem = OperationKind.filesystem
operation_kind Depth.app = OperationKind.application_configuration
