-- ===== src/Witnesses/Captures.antt =====
-- Two captures of one registry value and one of a service.
use cs2_opt.Prelude.{◌≡◌, ℕ, ◌≤◌, refl, arith, List, [], ◌∷◌, none, some, true, false, any}
use cs2_opt.Prelude.Text.{Text, codes, text_eq, to_ascii_lowercase, to_ascii_lowercase}
use cs2_opt.Backup.Entry.{BackupEntry, BackupFile, registry, service}
use cs2_opt.Backup.Identity.{restore_order, push_first_value, dedupe_identity, is_text}
use cs2_opt.Backup.FirstValue.{
  first_value, count_of, or_entry, push_all, first_value-push_all, restore_order-push_all,
}

abbrev captured_value : Text → ℕ → BackupEntry ℕ
captured_value name value = registry (record {
  step = codes "P1:4";
  timestamp = codes "now";
  path = codes "HKCU\\Games";
  name = name;
  original_value = value;
  original_type = none;
  existed = true;
  unknown_fields = [];
})

abbrev captured_service : BackupEntry ℕ
captured_service = service (record {
  step = codes "P1:4";
  timestamp = codes "now";
  name = codes "SysMain";
  original_start_type = codes "auto";
  delayed_auto_start = false;
  original_status = codes "running";
  unknown_fields = [];
})

abbrev captured_file : BackupFile ℕ
captured_file = record {
  entries = captured_value (codes "Mode") 1 ∷ [];
  created = codes "today";
  unknown_fields = [];
}

abbrev captures : List (BackupEntry ℕ)
captures = captured_service ∷ captured_value (codes "MODE") 2 ∷ []

abbrev mode_identity : Text
mode_identity = codes "p1:4:registry:hkcu\\games:mode"

first_capture_stays :
    first_value mode_identity (push_all captured_file captures).entries
    ≡ some (captured_value (codes "Mode") 1)
unfolding first_value push_all push_first_value dedupe_identity any text_eq to_ascii_lowercase
first_capture_stays = refl

first_value-push_all_example :
    first_value mode_identity (push_all captured_file captures).entries
    ≡ or_entry
        (first_value mode_identity captured_file.entries)
        (first_value mode_identity captures)
first_value-push_all_example = first_value-push_all mode_identity captured_file captures

mode_is_there_once : count_of mode_identity captured_file.entries ≤ 1
unfolding count_of is_text dedupe_identity text_eq to_ascii_lowercase
mode_is_there_once = omega arith

restore_order-push_all_example :
    count_of mode_identity (restore_order (push_all captured_file captures)) ≤ 1
restore_order-push_all_example =
    restore_order-push_all mode_identity captured_file captures mode_is_there_once
