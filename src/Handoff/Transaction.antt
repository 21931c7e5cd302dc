-- ===== src/Handoff/Transaction.antt =====
-- The persisted reboot transaction: crates/frametime-domain/src/handoff.rs. `V` stands for the
-- JSON values of fields that the program keeps without reading them.
use cs2_opt.Prelude.{
  ℕ, Bool, false, ◌&&◌, List, [], Option, none, some, ◌==◌, is_some, Result, ok, err, String,
  if◌then◌else◌,
}
use cs2_opt.Prelude.Text.{Text, codes}
use cs2_opt.Handoff.Format.{
  TransactionId, valid_generation_id, valid_sha256, valid_relative_path, valid_user_sid,
}
use cs2_opt.Handoff.Stage.{RebootStage, unknown, stage_eq, allows_transition_to}

abbrev pub reboot_transaction_schema_version : ℕ
reboot_transaction_schema_version = 1

pub record RuntimeRecord (V : Type 0) : Type 0 where
  pub generation : Text
  pub manifest_sha256 : Text
  pub payload_contract_hash : Text
  pub executable_path : Text
  pub executable_sha256 : Text
  pub unknown_fields : List (Text × V)

pub record DriverPackageRecord (V : Type 0) : Type 0 where
  pub published_name : Text
  pub provider : Option Text
  pub class_guid : Option Text
  pub version : Option Text
  pub unknown_fields : List (Text × V)

pub record RebootTransaction (V : Type 0) : Type 0 where
  pub schema_version : ℕ
  pub transaction_id : Option TransactionId
  pub initiator_user_sid : Option Text
  pub stage : RebootStage
  pub runtime : Option (RuntimeRecord V)
  pub driver_package : Option (DriverPackageRecord V)
  pub created_utc : Option Text
  pub updated_utc : Option Text
  pub unknown_fields : List (Text × V)

-- `Option::is_some_and`
abbrev pub is_some_and {ℓ} : {A : Type ℓ} → (A → Bool) → Option A → Bool
is_some_and p none = false
is_some_and p (some a) = p a

abbrev pub default_transaction : (V : Type 0) → RebootTransaction V
default_transaction V = record {
  schema_version = reboot_transaction_schema_version;
  transaction_id = none;
  initiator_user_sid = none;
  stage = unknown (codes "missing");
  runtime = none;
  driver_package = none;
  created_utc = none;
  updated_utc = none;
  unknown_fields = [];
}

module _ {V : Type 0} where
  unfoldable pub is_complete : RuntimeRecord V → Bool
  is_complete r =
      valid_generation_id r.generation
      && (valid_sha256 r.manifest_sha256
          && (valid_sha256 r.payload_contract_hash
              && (valid_relative_path r.executable_path && valid_sha256 r.executable_sha256)))

  unfoldable pub is_authorized_at : RebootTransaction V → RebootStage → Bool
  is_authorized_at t expected_stage =
      t.schema_version == reboot_transaction_schema_version
      && (is_some t.transaction_id
          && (is_some_and valid_user_sid t.initiator_user_sid
              && (is_some_and is_complete t.runtime && stage_eq t.stage expected_stage)))

  -- A refused transition leaves the transaction as it was.
  unfoldable pub transition_to :
      RebootTransaction V → RebootStage → Result String (RebootTransaction V)
  transition_to t next =
      if allows_transition_to t.stage next
      then ok (record t { stage = next })
      else err "reboot transaction transition is not allowed"
