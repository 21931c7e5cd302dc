-- ===== src/Backup/Devices.antt =====
-- The captured state of devices and adapters: crates/frametime-domain/src/binding.rs and
-- backup/interrupt.rs, backup/network_stack.rs beside it. Machine integers are ℕ or ℤ, a byte
-- sequence is a list of ℕ; `V` stands for kept JSON values.
use cs2_opt.Prelude.{ℕ, Bool, List, Option}
use cs2_opt.Prelude.Text.{Text, codes}

pub data ℤ : Type 0 where
  pos negsuc : ℕ → ℤ

pub record PciDeviceBinding (V : Type 0) : Type 0 where
  pub schema_version : ℕ
  pub instance_id : Text
  pub container_id : Text
  pub class_guid : Text
  pub vendor_id : ℕ
  pub device_id : ℕ
  pub subsystem_vendor_id : ℕ
  pub subsystem_device_id : ℕ
  pub revision_id : ℕ
  pub driver_provider : Text
  pub driver_version : Text
  pub published_inf : Text
  pub observed_at_utc : Text
  pub unknown_fields : List (Text × V)

pub record NetworkAdapterBinding (V : Type 0) : Type 0 where
  pub schema_version : ℕ
  pub adapter_name : Text
  pub interface_guid : Text
  pub interface_luid : ℕ
  pub interface_index : ℕ
  pub friendly_name : Text
  pub interface_description : Text
  pub physical_address : List ℕ
  pub device : PciDeviceBinding V
  pub observed_at_utc : Text
  pub unknown_fields : List (Text × V)

pub data InterruptPolicyKind : Type 0 where
  msi_supported message_number_limit device_policy assignment_set_override : InterruptPolicyKind

unfoldable pub value_name : InterruptPolicyKind → Text
value_name msi_supported = codes "MSISupported"
value_name message_number_limit = codes "MessageNumberLimit"
value_name device_policy = codes "DevicePolicy"
value_name assignment_set_override = codes "AssignmentSetOverride"

pub data InterruptPolicyValue : Type 0 where
  dword : ℕ → InterruptPolicyValue
  binary : List ℕ → InterruptPolicyValue

pub record InterruptPolicyBackup (V : Type 0) : Type 0 where
  pub step : Text
  pub timestamp : Text
  pub device : PciDeviceBinding V
  pub policy : InterruptPolicyKind
  pub existed : Bool
  pub original_value : Option InterruptPolicyValue
  pub unknown_fields : List (Text × V)

pub data NetworkStackSetting : Type 0 where
  eee flow_control interrupt_moderation receive_buffers transmit_buffers green_ethernet
        power_saving_mode rss_enabled rss_base_processor rss_max_processor rss_max_processors
        uro_enabled qos_nla_bypass :
      NetworkStackSetting

pub data NetworkStackValue : Type 0 where
  dword : ℕ → NetworkStackValue
  string : Text → NetworkStackValue
  multi_string : List Text → NetworkStackValue
  binary : List ℕ → NetworkStackValue

pub record NetworkStackRawRegistryValue : Type 0 where
  pub value_type : ℕ
  pub bytes : List ℕ

pub record NetworkStackNlaBackup : Type 0 where
  pub key_existed : Bool
  pub value_existed : Bool
  pub original_value : Option NetworkStackRawRegistryValue

pub record NetworkStackSettingBackup (V : Type 0) : Type 0 where
  pub setting : NetworkStackSetting
  pub existed : Bool
  pub original_value : Option NetworkStackValue
  pub nla : Option NetworkStackNlaBackup
  pub unknown_fields : List (Text × V)

pub data NetworkStackPolicy : Type 0 where
  cs2_udp_ports cs2_app : NetworkStackPolicy

pub record NetworkStackPolicySnapshot : Type 0 where
  pub network_profile : ℕ
  pub precedence : ℕ
  pub template_match_condition : ℕ
  pub user_match_condition : Text
  pub ip_protocol : ℕ
  pub ip_port_match_condition : ℕ
  pub source_prefix_match_condition : Text
  pub source_port_start : ℕ
  pub source_port_end : ℕ
  pub destination_prefix_match_condition : Text
  pub destination_port_start : ℕ
  pub destination_port_end : ℕ
  pub app_path_match_condition : Text
  pub uri_match_condition : Text
  pub uri_recursive_match_condition : Bool
  pub net_direct_port_match_condition : ℕ
  pub priority_value_8021_action : ℤ
  pub dscp_action : ℤ
  pub min_bandwidth_weight_action : ℕ
  pub throttle_rate_action : ℕ

pub record NetworkStackPolicyBackup (V : Type 0) : Type 0 where
  pub policy : NetworkStackPolicy
  pub existed : Bool
  pub original_policy : Option NetworkStackPolicySnapshot
  pub unknown_fields : List (Text × V)

pub record NetworkStackTransaction (V : Type 0) : Type 0 where
  pub step : Text
  pub timestamp : Text
  pub adapter : NetworkAdapterBinding V
  pub settings : List (NetworkStackSettingBackup V)
  pub policies : List (NetworkStackPolicyBackup V)
  pub unknown_fields : List (Text × V)
