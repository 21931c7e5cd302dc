-- ===== src/Backup/Entry.antt =====
-- The captured state that a step can be undone from, one record for each kind:
-- crates/frametime-domain/src/backup.rs and backup/cs2_config.rs beside it. `V` stands for JSON
-- values.
use cs2_opt.Prelude.{ℕ, Bool, List, Option}
use cs2_opt.Prelude.Text.{Text}
use cs2_opt.Cs2.Targets.{Cs2ConfigTarget}
use cs2_opt.Backup.Devices.{InterruptPolicyBackup, NetworkStackTransaction}

pub record Cs2InstallIdentity (V : Type 0) : Type 0 where
  pub steam_app_id : Text
  pub install_fingerprint : Text
  pub unknown_fields : List (Text × V)

pub record Cs2ConfigSnapshot (V : Type 0) : Type 0 where
  pub target : Cs2ConfigTarget
  pub existed : Bool
  pub original_bytes : Option (List ℕ)
  pub original_sha256 : Option Text
  pub unknown_fields : List (Text × V)

pub record DrsSetting (V : Type 0) : Type 0 where
  pub id : V
  pub previous_value : V
  pub existed : Bool
  pub unknown_fields : List (Text × V)

pub record DrsApplicationBinding (V : Type 0) : Type 0 where
  pub application : Text
  pub original_profile : Option Text
  pub unknown_fields : List (Text × V)

pub record PagefileTransactionSetting (V : Type 0) : Type 0 where
  pub path : Text
  pub initial_size : ℕ
  pub maximum_size : ℕ
  pub object_path : Option Text
  pub relative_path : Option Text
  pub unknown_fields : List (Text × V)

pub record RegistryBackup (V : Type 0) : Type 0 where
  pub step : Text
  pub timestamp : Text
  pub path : Text
  pub name : Text
  pub original_value : V
  pub original_type : Option Text
  pub existed : Bool
  pub unknown_fields : List (Text × V)

pub record HagsBackup (V : Type 0) : Type 0 where
  pub step : Text
  pub timestamp : Text
  pub original_value : Option ℕ
  pub target_value : ℕ
  pub adapter_ids : List Text
  pub effective_verification_pending : Bool
  pub unknown_fields : List (Text × V)

pub record ServiceBackup (V : Type 0) : Type 0 where
  pub step : Text
  pub timestamp : Text
  pub name : Text
  pub original_start_type : Text
  pub delayed_auto_start : Bool
  pub original_status : Text
  pub unknown_fields : List (Text × V)

pub record PowerplanBackup (V : Type 0) : Type 0 where
  pub step : Text
  pub timestamp : Text
  pub original_guid : Text
  pub original_name : Option Text
  pub suite_owned_guids : List Text
  pub unknown_fields : List (Text × V)

pub record BootconfigBackup (V : Type 0) : Type 0 where
  pub step : Text
  pub timestamp : Text
  pub key : Text
  pub original_value : V
  pub existed : Bool
  pub unknown_fields : List (Text × V)

pub record ScheduledtaskBackup (V : Type 0) : Type 0 where
  pub step : Text
  pub timestamp : Text
  pub task_name : Text
  pub task_path : Text
  pub existed : Bool
  pub was_enabled : Bool
  pub script_path : Option Text
  pub unknown_fields : List (Text × V)

pub record NicAdapterBackup (V : Type 0) : Type 0 where
  pub step : Text
  pub timestamp : Text
  pub adapter_name : Text
  pub interface_description : Text
  pub property_name : Text
  pub original_value : V
  pub property_type : Text
  pub unknown_fields : List (Text × V)

pub record QosUroBackup (V : Type 0) : Type 0 where
  pub step : Text
  pub timestamp : Text
  pub policies : List Text
  pub uro_state : V
  pub unknown_fields : List (Text × V)

pub record DefenderBackup (V : Type 0) : Type 0 where
  pub step : Text
  pub timestamp : Text
  pub exclusion_paths : List Text
  pub exclusion_processes : List Text
  pub unknown_fields : List (Text × V)

pub record PagefileBackup (V : Type 0) : Type 0 where
  pub step : Text
  pub timestamp : Text
  pub automatic_managed : Bool
  pub pagefile_path : Text
  pub initial_size : ℕ
  pub maximum_size : ℕ
  pub unknown_fields : List (Text × V)

pub record PagefileTransactionBackup (V : Type 0) : Type 0 where
  pub step : Text
  pub timestamp : Text
  pub automatic_managed : Bool
  pub target_path : Text
  pub target_existed : Bool
  pub settings : List (PagefileTransactionSetting V)
  pub computer_object_path : Option Text
  pub computer_relative_path : Option Text
  pub created_object_path : Option Text
  pub created_relative_path : Option Text
  pub created_initial_size : Option ℕ
  pub created_maximum_size : Option ℕ
  pub mutation_intent : Option Text
  pub unknown_fields : List (Text × V)

pub record DnsBackup (V : Type 0) : Type 0 where
  pub step : Text
  pub timestamp : Text
  pub adapter_name : Text
  pub interface_index : ℕ
  pub adapter_guid : Option Text
  pub interface_guid : Option Text
  pub interface_luid : Option ℕ
  pub physical_address : List ℕ
  pub original_dns_servers : List Text
  pub unknown_fields : List (Text × V)

pub record DrsBackup (V : Type 0) : Type 0 where
  pub step : Text
  pub timestamp : Text
  pub profile : Text
  pub profile_created : Bool
  pub settings : List (DrsSetting V)
  pub application_bindings : List (DrsApplicationBinding V)
  pub unknown_fields : List (Text × V)

pub record Cs2ConfigTransactionBackup (V : Type 0) : Type 0 where
  pub step : Text
  pub timestamp : Text
  pub install_identity : Cs2InstallIdentity V
  pub targets : List (Cs2ConfigSnapshot V)
  pub unknown_fields : List (Text × V)

pub data BackupEntry (V : Type 0) : Type 0 where
  registry : RegistryBackup V → BackupEntry V
  hags : HagsBackup V → BackupEntry V
  service : ServiceBackup V → BackupEntry V
  powerplan : PowerplanBackup V → BackupEntry V
  bootconfig : BootconfigBackup V → BackupEntry V
  scheduledtask : ScheduledtaskBackup V → BackupEntry V
  nic_adapter : NicAdapterBackup V → BackupEntry V
  qos_uro : QosUroBackup V → BackupEntry V
  defender : DefenderBackup V → BackupEntry V
  pagefile : PagefileBackup V → BackupEntry V
  pagefile_transaction : PagefileTransactionBackup V → BackupEntry V
  dns : DnsBackup V → BackupEntry V
  interrupt_policy : InterruptPolicyBackup V → BackupEntry V
  network_stack_transaction : NetworkStackTransaction V → BackupEntry V
  drs : DrsBackup V → BackupEntry V
  cs2_config_transaction : Cs2ConfigTransactionBackup V → BackupEntry V
  unknown : V → BackupEntry V

pub record BackupFile (V : Type 0) : Type 0 where
  pub entries : List (BackupEntry V)
  pub created : Text
  pub unknown_fields : List (Text × V)
