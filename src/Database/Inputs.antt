-- ===== src/Database/Inputs.antt =====
-- The inputs of the instance repository, the WHERE and SET clauses of its statements, and the row
-- that it inserts (internal/database/types and internal/database/repository).
use arandu_whatsapp.Database.{
  ConnectionRow, ConnectionStatus, Engine, InstanceRow, OwnedRow, is_valid,
}
use arandu_whatsapp.Database.Sql.{find}
use arandu_whatsapp.Errors.{Error}
use arandu_whatsapp.Policy.{Action-eq}
use arandu_whatsapp.Prelude.{
  Bool, List, List-eq, Option, Option-eq, String, String-eq, [], if◌then◌else◌, is_some, none, some,
  true, ℕ, ℕ-eq, ◌&&◌, ◌++◌, ◌+◌, ◌==◌, ◌∷◌,
}

-- types.OptionalField[string]: a field that is left alone, or set to a value that may be NULL
pub data OptionalField : Type 0 where
  unset : OptionalField
  set : Option String → OptionalField

abbrev pub set_field : OptionalField → Option String → Option String
set_field unset old = old
set_field (set v) old = v

abbrev pub set_if {ℓ} : {A : Type ℓ} → Option A → A → A
set_if none old = old
set_if (some v) old = v

abbrev pub set_time : Option ℕ → Option ℕ → Option ℕ
set_time none old = old
set_time (some v) old = some v

-- types.UpdateConnectionStateInput
pub record UpdateConnectionStateInput : Type 0 where
  pub instance_id : ℕ
  pub connection_status : Option ConnectionStatus
  pub last_connected_at : Option ℕ
  pub last_disconnected_at : Option ℕ
  pub last_connection_attempt_at : Option ℕ
  pub last_connection_error : OptionalField
  pub last_connection_event : OptionalField
  pub increment_attempts : Bool
  pub reset_attempts : Bool

-- types.SaveWhatsAppDeviceInput
pub record SaveWhatsAppDeviceInput : Type 0 where
  pub instance_id : ℕ
  pub device_jid : String
  pub owner_jid : String
  pub phone_number : String

-- WHERE tenant_id = t AND id = i, of the three kinds of rows
abbrev pub instance_at : String → ℕ → InstanceRow → Bool
instance_at t i r = r.tenant_id == t && r.id == i

abbrev pub connection_at : String → ℕ → ConnectionRow → Bool
connection_at t i r = r.tenant_id == t && r.instance_id == i

abbrev pub owned_by : String → ℕ → OwnedRow → Bool
owned_by t i r = r.tenant_id == t && r.instance_id == i

abbrev pub new_connection : String → ℕ → ℕ → ConnectionRow
new_connection t i now = record {
  tenant_id = t;
  instance_id = i;
  connection_status = ConnectionStatus.offline;
  whatsapp_device_jid = none;
  whatsapp_owner_jid = none;
  whatsapp_phone_number = none;
  profile_pic_id = none;
  last_connected_at = none;
  last_disconnected_at = none;
  last_connection_attempt_at = none;
  last_connection_error = none;
  last_connection_event = none;
  connection_attempts = 0;
  created_at = now;
  updated_at = now;
}

-- INSERT ... ON CONFLICT (tenant_id, instance_id) DO NOTHING
abbrev pub insert_connection : String → ℕ → ℕ → List ConnectionRow → List ConnectionRow
insert_connection t i now rows =
    if is_some (find (connection_at t i) rows) then rows else rows ++ new_connection t i now ∷ []

abbrev pub new_attempts : UpdateConnectionStateInput → ℕ → ℕ
new_attempts input n =
    if input.reset_attempts then 0 else if input.increment_attempts then n + 1 else n

-- The SET clauses of UpdateConnectionState.
unfoldable pub set_state : UpdateConnectionStateInput → ℕ → ConnectionRow → ConnectionRow
set_state input now r = record r {
  connection_status = set_if input.connection_status r.connection_status;
  last_connected_at = set_time input.last_connected_at r.last_connected_at;
  last_disconnected_at = set_time input.last_disconnected_at r.last_disconnected_at;
  last_connection_attempt_at =
      set_time input.last_connection_attempt_at r.last_connection_attempt_at;
  last_connection_error = set_field input.last_connection_error r.last_connection_error;
  last_connection_event = set_field input.last_connection_event r.last_connection_event;
  connection_attempts = new_attempts input r.connection_attempts;
  updated_at = now;
}

abbrev pub status_ok : Option ConnectionStatus → Bool
status_ok none = true
status_ok (some s) = is_valid s

-- `connection_attempts` is named twice if both flags are set
abbrev pub duplicate_column : Engine → UpdateConnectionStateInput → Option Error
duplicate_column en input =
    if input.increment_attempts && input.reset_attempts then en.duplicate else none
