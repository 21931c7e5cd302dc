-- ===== src/Catalog/Steps.antt =====
-- The schedule of actions: `Step` of crates/frametime-domain/src/catalog/definitions.rs and the
-- table `STEPS` of crates/frametime-domain/src/catalog.rs, cut into six runs of rows.
use cs2_opt.Prelude.{
  ℕ, Bool, true, false, ◌&&◌, List, [], ◌∷◌, ◌++◌, Option, String, ◌==◌, filter, find, any,
  if◌then◌else◌,
}
use cs2_opt.Catalog.Ids.{Phase, one, two, three, StepId, step_id_eq, phase_eq}
use cs2_opt.Catalog.Kinds.{
  Risk, safe, moderate, critical, Depth, OperationKind, GpuApplicability, nvidia_only, amd_only,
  OrchestrationRole, engine, arm_safe_mode_handoff, clear_safe_boot, arm_phase_three_handoff,
  persist_final_benchmark, role_eq, ActionIntent, configuration, xmp_expo_check,
  shader_cache_health, fullscreen_optimizations_check, nvidia_driver_inventory,
  power_policy_guidance, hags_check, pagefile, resizable_bar_check, windows_timer_defaults,
  mpo_health_check, game_mode, background_app_guidance, autostart_inventory, windows_update_status,
  rss_baseline, baseline_benchmark, gpu_driver_clean_preparation,
  nvidia_driver_download_preparation, nvidia_profile_preparation, msi_preparation,
  nic_affinity_preparation, fast_startup_guidance, memory_topology, tcp_defaults_guidance,
  fullscreen_presentation_guidance, multimedia_defaults_guidance, timer_request_guidance,
  pointer_preference_guidance, cs2_high_performance_gpu, game_dvr_guidance, overlay_guidance,
  audio_stack_guidance, cs2_configuration, chipset_driver_inventory, visual_effects_guidance,
  windows_services_guidance, safe_mode_handoff, clear_safe_boot, nvidia_driver_removal,
  phase_three_handoff, nvidia_driver_install, msi_interrupts, nic_interrupt_affinity,
  nvidia_profile_apply, fps_cap_info, cs2_launch_video_guidance, vbs_hvci_guidance,
  amd_radeon_guidance, dns_guidance, process_priority_guidance, vram_usage_guidance,
  final_checklist_guidance, final_benchmark, GpuBranch, is_nvidia, is_amd, operation_kind,
}

pub record Step : Type 0 where
  pub id : StepId
  pub category : String
  pub title : String
  pub tier : ℕ
  pub risk : Risk
  pub depth : Depth
  pub check_only : Bool
  pub reboot : Bool
  pub intent : ActionIntent
  pub operation : OperationKind
  pub gpu_applicability : GpuApplicability
  pub orchestration_role : OrchestrationRole

abbrev pub step_id : Phase → ℕ → StepId
step_id p n = record { phase = p; number = n }

abbrev pub phase_one_baseline_benchmark : StepId
phase_one_baseline_benchmark = step_id one 17

abbrev pub phase_one_xmp_expo_check : StepId
phase_one_xmp_expo_check = step_id one 2

abbrev pub phase_one_resizable_bar_check : StepId
phase_one_resizable_bar_check = step_id one 9

abbrev pub phase_one_safe_mode_handoff : StepId
phase_one_safe_mode_handoff = step_id one 38

abbrev pub phase_two_safe_boot_clear : StepId
phase_two_safe_boot_clear = step_id two 1

abbrev pub phase_two_driver_cleanup : StepId
phase_two_driver_cleanup = step_id two 2

abbrev pub phase_two_phase_three_handoff : StepId
phase_two_phase_three_handoff = step_id two 3

abbrev pub phase_three_driver_install : StepId
phase_three_driver_install = step_id three 1

abbrev pub phase_three_final_benchmark : StepId
phase_three_final_benchmark = step_id three 13

unfoldable pub one_of : ℕ → List ℕ → Bool
unfolding any
one_of n ns = any (λ m. n == m) ns

unfoldable pub gpu_applicability : StepId → GpuApplicability
unfolding one_of
gpu_applicability id =
    if phase_eq id.phase one && one_of id.number (5 ∷ 19 ∷ 20 ∷ [])
    then nvidia_only
    else if phase_eq id.phase three && one_of id.number (1 ∷ 4 ∷ [])
    then nvidia_only
    else if step_id_eq id (step_id three 8)
    then amd_only
    else GpuApplicability.any

unfoldable pub orchestration_role : StepId → OrchestrationRole
orchestration_role id =
    if step_id_eq id phase_one_safe_mode_handoff
    then arm_safe_mode_handoff
    else if step_id_eq id phase_two_safe_boot_clear
    then clear_safe_boot
    else if step_id_eq id phase_two_phase_three_handoff
    then arm_phase_three_handoff
    else if step_id_eq id phase_three_final_benchmark
    then persist_final_benchmark
    else engine

-- The macro `s!`.
unfoldable pub row :
    Phase → ℕ → String → String → ℕ → Risk → Depth → ActionIntent → Bool → Bool → Step
unfolding gpu_applicability orchestration_role operation_kind
row p n category title tier risk depth intent check reboot = record {
  id = step_id p n;
  category = category;
  title = title;
  tier = tier;
  risk = risk;
  depth = depth;
  check_only = check;
  reboot = reboot;
  intent = intent;
  operation = operation_kind depth;
  gpu_applicability = gpu_applicability (step_id p n);
  orchestration_role = orchestration_role (step_id p n);
}

unfoldable pub phase_one_setup_steps : List Step
unfolding row
phase_one_setup_steps =
    row one 1 "System" "Configuration" 1 safe Depth.setup configuration false false
    ∷ row one 2 "Hardware" "XMP/EXPO Check" 1 safe Depth.check xmp_expo_check true false
    ∷ row one 3 "GPU" "Shader Cache Health" 1 safe Depth.check shader_cache_health true false
    ∷ row one 4 "Display" "Fullscreen Optimizations Check" 1 safe Depth.check
        fullscreen_optimizations_check true false
    ∷ row one 5 "GPU" "NVIDIA Driver Version Inventory" 1 safe Depth.check nvidia_driver_inventory
        true false
    ∷ row one 6 "System" "Power Policy Guidance" 1 safe Depth.check power_policy_guidance true false
    ∷ row one 7 "GPU" "HAGS Check" 2 safe Depth.check hags_check true false
    ∷ row one 8 "System" "Pagefile" 2 moderate Depth.registry pagefile false true
    ∷ row one 9 "GPU" "Resizable BAR" 2 safe Depth.check resizable_bar_check true true
    ∷ row one 10 "System" "Windows Timer Defaults" 3 safe Depth.check windows_timer_defaults true
        false
    ∷ row one 11 "Display" "MPO Health Check" 3 safe Depth.check mpo_health_check true false
    ∷ []

unfoldable pub phase_one_inventory_steps : List Step
unfolding row
phase_one_inventory_steps =
    row one 12 "System" "Game Mode" 1 safe Depth.registry game_mode false false
    ∷ row one 13 "System" "Background App Guidance" 2 safe Depth.check background_app_guidance true
        false
    ∷ row one 14 "System" "Autostart Inventory" 2 safe Depth.check autostart_inventory true false
    ∷ row one 15 "System" "Windows Update Status" 3 safe Depth.check windows_update_status true
        false
    ∷ row one 16 "Network" "RSS Baseline" 1 safe Depth.network rss_baseline false true
    ∷ row one 17 "Benchmark" "Baseline Benchmark" 1 safe Depth.check baseline_benchmark true false
    ∷ row one 18 "GPU" "GPU Driver Clean (prep)" 1 safe Depth.check gpu_driver_clean_preparation
        true false
    ∷ row one 19 "GPU" "NVIDIA Driver Download" 1 safe Depth.check
        nvidia_driver_download_preparation true false
    ∷ row one 20 "GPU" "NVIDIA Profile (prep)" 3 safe Depth.check nvidia_profile_preparation true
        false
    ∷ row one 21 "Hardware" "MSI Interrupts (prep)" 2 safe Depth.check msi_preparation true false
    ∷ row one 22 "Network" "NIC Interrupt Affinity (prep)" 3 safe Depth.check
        nic_affinity_preparation true false
    ∷ []

unfoldable pub phase_one_guidance_steps : List Step
unfolding row
phase_one_guidance_steps =
    row one 23 "System" "Fast Startup Check" 2 safe Depth.check fast_startup_guidance true false
    ∷ row one 24 "Hardware" "Dual-Channel RAM" 1 safe Depth.check memory_topology true false
    ∷ row one 25 "Network" "TCP Defaults Check" 2 safe Depth.check tcp_defaults_guidance true false
    ∷ row one 26 "Display" "Fullscreen Presentation Defaults" 2 safe Depth.check
        fullscreen_presentation_guidance true false
    ∷ row one 27 "System" "Scheduler Defaults" 2 safe Depth.check multimedia_defaults_guidance true
        false
    ∷ row one 28 "System" "Timer Defaults" 2 safe Depth.check timer_request_guidance true false
    ∷ row one 29 "Input" "Pointer Preference Check" 2 safe Depth.check pointer_preference_guidance
        true false
    ∷ row one 30 "GPU" "CS2 GPU Preference" 2 moderate Depth.registry cs2_high_performance_gpu false
        false
    ∷ row one 31 "System" "Capture Feature Check" 2 safe Depth.check game_dvr_guidance true false
    ∷ row one 32 "System" "Overlay Conflict Check" 2 safe Depth.check overlay_guidance true false
    ∷ row one 33 "Audio" "Audio Path Check" 2 safe Depth.check audio_stack_guidance true false
    ∷ []

unfoldable pub phase_one_handoff_steps : List Step
unfolding row
phase_one_handoff_steps =
    row one 34 "CS2" "optimization.cfg (fps_max only)" 2 moderate Depth.app cs2_configuration false
      false
    ∷ row one 35 "System" "Chipset Driver Check" 2 safe Depth.check chipset_driver_inventory true
        false
    ∷ row one 36 "Display" "Visual Effects + Auto HDR Check" 3 safe Depth.check
        visual_effects_guidance true false
    ∷ row one 37 "System" "Service Status Check" 3 safe Depth.check windows_services_guidance true
        false
    ∷ row one 38 "System" "Driver Repair: Activate Safe Mode" 3 critical Depth.boot
        safe_mode_handoff false true
    ∷ []

unfoldable pub phase_two_steps : List Step
unfolding row
phase_two_steps =
    row two 1 "Boot" "Disable Safe Mode" 1 moderate Depth.boot clear_safe_boot false true
    ∷ row two 2 "GPU" "GPU Driver Clean Removal" 1 critical Depth.driver nvidia_driver_removal false
        true
    ∷ row two 3 "System" "Register Phase 3 for next boot" 1 moderate Depth.registry
        phase_three_handoff false true
    ∷ []

unfoldable pub phase_three_steps : List Step
unfolding row
phase_three_steps =
    row three 1 "GPU" "Install NVIDIA Driver" 1 moderate Depth.driver nvidia_driver_install false
      true
    ∷ row three 2 "GPU" "MSI Interrupt Guidance" 2 safe Depth.check msi_interrupts true false
    ∷ row three 3 "Network" "NIC Interrupt-Affinity Guidance" 3 safe Depth.check
        nic_interrupt_affinity true false
    ∷ row three 4 "GPU" "NVIDIA DRS Profile" 3 safe Depth.driver nvidia_profile_apply false false
    ∷ row three 5 "CS2" "FPS Cap Info" 1 safe Depth.check fps_cap_info true false
    ∷ row three 6 "CS2" "Launch Options + Video Guidance" 2 safe Depth.app cs2_launch_video_guidance
        true false
    ∷ row three 7 "Security" "VBS / Core Isolation Check" 2 safe Depth.check vbs_hvci_guidance true
        false
    ∷ row three 8 "GPU" "AMD GPU Settings" 2 safe Depth.check amd_radeon_guidance true false
    ∷ row three 9 "Network" "DNS Resolver Check" 3 safe Depth.check dns_guidance true false
    ∷ row three 10 "CPU" "Process Priority Defaults" 3 safe Depth.check process_priority_guidance
        true false
    ∷ row three 11 "System" "VRAM Usage Review" 2 safe Depth.check vram_usage_guidance true false
    ∷ row three 12 "System" "Final Checklist" 1 safe Depth.check final_checklist_guidance true false
    ∷ row three 13 "Benchmark" "Final Benchmark + FPS Strategy" 1 safe Depth.check final_benchmark
        true false
    ∷ []

unfoldable pub step_catalog : List Step
unfolding phase_one_setup_steps phase_one_inventory_steps phase_one_guidance_steps
    phase_one_handoff_steps phase_two_steps phase_three_steps
step_catalog =
    phase_one_setup_steps
    ++ (phase_one_inventory_steps
        ++ (phase_one_guidance_steps
            ++ (phase_one_handoff_steps ++ (phase_two_steps ++ phase_three_steps))))

unfoldable pub step_by_id : StepId → Option Step
unfolding find
step_by_id id = find (λ (s : Step). step_id_eq s.id id) step_catalog

unfoldable pub steps_for_phase_and_role : Phase → OrchestrationRole → List Step
unfolding filter
steps_for_phase_and_role p role =
    filter (λ (s : Step). phase_eq s.id.phase p && role_eq s.orchestration_role role) step_catalog

unfoldable pub is_compatible_with_gpu : Step → GpuBranch → Bool
is_compatible_with_gpu s branch = elim s.gpu_applicability [
  | GpuApplicability.any ↦ true
  | nvidia_only ↦ is_nvidia branch
  | amd_only ↦ is_amd branch
]
