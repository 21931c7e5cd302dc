-- ===== src/Backup/Identity.antt =====
-- What a captured value is known by, and the two operations of a backup file:
-- crates/frametime-domain/src/backup.rs.
use mathlib.Core.List.{reverse}
use cs2_opt.Prelude.{
  Bool, false, not, List, [], ◌∷◌, ◌++◌, Option, none, some, any, map, if◌then◌else◌,
}
use cs2_opt.Prelude.Text.{Text, codes, text_eq, to_ascii_lowercase}
use cs2_opt.Cs2.Targets.{target_file_name}
use cs2_opt.Backup.Devices.{value_name}
use cs2_opt.Backup.Entry.{
  BackupEntry, BackupFile, registry, hags, service, powerplan, bootconfig, scheduledtask,
  nic_adapter, qos_uro, defender, pagefile, pagefile_transaction, dns, interrupt_policy,
  network_stack_transaction, drs, cs2_config_transaction, unknown,
}

-- `join(",")`
unfoldable pub joined_names : List Text → Text
joined_names [] = []
joined_names (a ∷ []) = a
joined_names (a ∷ b ∷ rest) = a ++ codes "," ++ joined_names (b ∷ rest)

-- `as_deref().unwrap_or`
unfoldable pub text_or : Option Text → Text → Text
text_or none other = other
text_or (some t) other = t

-- Whether an identity is this text.
unfoldable pub is_text : Option Text → Text → Bool
is_text none i = false
is_text (some j) i = text_eq j i

module _ {V : Type 0} where
  unfoldable pub entry_step : BackupEntry V → Option Text
  entry_step (registry b) = some b.step
  entry_step (hags b) = some b.step
  entry_step (service b) = some b.step
  entry_step (powerplan b) = some b.step
  entry_step (bootconfig b) = some b.step
  entry_step (scheduledtask b) = some b.step
  entry_step (nic_adapter b) = some b.step
  entry_step (qos_uro b) = some b.step
  entry_step (defender b) = some b.step
  entry_step (pagefile b) = some b.step
  entry_step (pagefile_transaction b) = some b.step
  entry_step (dns b) = some b.step
  entry_step (drs b) = some b.step
  entry_step (cs2_config_transaction b) = some b.step
  entry_step (interrupt_policy b) = some b.step
  entry_step (network_stack_transaction b) = some b.step
  entry_step (unknown v) = none

  -- The match of `dedupe_identity`, with the step in lower case.
  unfoldable pub identity_at : Text → BackupEntry V → Option Text
  unfolding joined_names text_or
  identity_at step (registry b) = some (
      step
      ++ codes ":registry:"
      ++ to_ascii_lowercase b.path
      ++ codes ":"
      ++ to_ascii_lowercase b.name)
  identity_at step (hags b) = some (step ++ codes ":hags")
  identity_at step (service b) = some (step ++ codes ":service:" ++ to_ascii_lowercase b.name)
  identity_at step (powerplan b) =
      some (step ++ codes ":powerplan:" ++ to_ascii_lowercase b.original_guid)
  identity_at step (bootconfig b) = some (step ++ codes ":bootconfig:" ++ to_ascii_lowercase b.key)
  identity_at step (scheduledtask b) = some (
      step
      ++ codes ":scheduledtask:"
      ++ to_ascii_lowercase b.task_path
      ++ to_ascii_lowercase b.task_name)
  identity_at step (nic_adapter b) = some (
      step
      ++ codes ":nic_adapter:"
      ++ to_ascii_lowercase b.adapter_name
      ++ codes ":"
      ++ to_ascii_lowercase b.property_name)
  identity_at step (dns b) =
      some (step ++ codes ":dns:" ++ to_ascii_lowercase (text_or b.adapter_guid b.adapter_name))
  identity_at step (interrupt_policy b) = some (
      step
      ++ codes ":interrupt:"
      ++ to_ascii_lowercase b.device.instance_id
      ++ codes ":"
      ++ to_ascii_lowercase (value_name b.policy))
  identity_at step (network_stack_transaction b) =
      some (step ++ codes ":network_stack:" ++ to_ascii_lowercase b.adapter.adapter_name)
  identity_at step (pagefile_transaction b) = some (step ++ codes ":pagefile_transaction")
  identity_at step (cs2_config_transaction b) = some (
      step
      ++ codes ":cs2_config_transaction:"
      ++ to_ascii_lowercase b.install_identity.install_fingerprint
      ++ codes ":"
      ++ joined_names (map (λ s. target_file_name s.target) b.targets))
  identity_at step (qos_uro b) = none
  identity_at step (defender b) = none
  identity_at step (pagefile b) = none
  identity_at step (drs b) = none
  identity_at step (unknown v) = none

  -- `?` on the step of the entry.
  identity_of : Option Text → BackupEntry V → Option Text
  unfolding identity_at
  identity_of none entry = none
  identity_of (some step) entry = identity_at (to_ascii_lowercase step) entry

  unfoldable pub dedupe_identity : BackupEntry V → Option Text
  unfolding identity_of entry_step
  dedupe_identity entry = identity_of (entry_step entry) entry

  unfoldable pub entries_after :
      Option Text → List (BackupEntry V) → BackupEntry V → List (BackupEntry V)
  unfolding is_text
  entries_after none entries entry = entries ++ entry ∷ []
  entries_after (some i) entries entry =
      if not (any (λ existing. is_text (dedupe_identity existing) i) entries)
      then entries ++ entry ∷ []
      else entries

  unfoldable pub push_first_value : BackupFile V → BackupEntry V → BackupFile V
  unfolding entries_after
  push_first_value file entry = record file {
    entries = entries_after (dedupe_identity entry) file.entries entry;
  }

  unfoldable pub restore_order : BackupFile V → List (BackupEntry V)
  restore_order file = reverse file.entries
