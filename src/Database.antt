-- ===== src/Database.antt =====
-- The tables of database/migrations that hold instances, as lists of rows, the statements that the
-- repositories of internal/database/repository run on them, and the types of
-- internal/database/types/instance.go.
pub mod Sql
pub mod Inputs
pub mod Instances
pub mod Naming
pub mod Creation
pub mod Doors
pub mod Created
pub mod Locks
pub mod Isolation
pub mod Rows
pub mod Writes
mod Tests
use arandu_whatsapp.Errors.{Error}
use arandu_whatsapp.Prelude.{Bool, List, Option, String, false, none, true, ℕ}
use arandu_whatsapp.Prelude.Text.{Text}

-- InstanceStatus; any other string is `invalid`.
pub data InstanceStatus : Type 0 where
  online offline : InstanceStatus
  invalid : String → InstanceStatus

abbrev pub status_is_valid : InstanceStatus → Bool
status_is_valid (invalid s) = false
status_is_valid _ = true

abbrev pub status_is_online : InstanceStatus → Bool
status_is_online online = true
status_is_online _ = false

-- InstanceConnectionStatus; any other string is `unknown`.
pub data ConnectionStatus : Type 0 where
  offline connecting qr_code pairing_code pairing online reconnecting : ConnectionStatus
  disconnected connection_timeout logged_out session_missing stream_replaced : ConnectionStatus
  keepalive_timeout client_outdated temporary_ban connection_error : ConnectionStatus
  unknown : String → ConnectionStatus

abbrev pub is_valid : ConnectionStatus → Bool
is_valid (unknown s) = false
is_valid _ = true

-- A row of whatsapp_instances; times are numbers.
pub record InstanceRow : Type 0 where
  pub id : ℕ
  pub tenant_id : String
  pub name : Text
  pub description : Option String
  pub status : InstanceStatus
  pub owner_jid : Option String
  pub profile_pic_url : Option String
  pub external_attributes : Text
  pub connection_lock_owner : Option String
  pub connection_lock_until : Option ℕ
  pub created_at : ℕ
  pub updated_at : ℕ

-- A row of whatsapp_instance_connections.
pub record ConnectionRow : Type 0 where
  pub tenant_id : String
  pub instance_id : ℕ
  pub connection_status : ConnectionStatus
  pub whatsapp_device_jid : Option String
  pub whatsapp_owner_jid : Option String
  pub whatsapp_phone_number : Option String
  pub profile_pic_id : Option String
  pub last_connected_at : Option ℕ
  pub last_disconnected_at : Option ℕ
  pub last_connection_attempt_at : Option ℕ
  pub last_connection_error : Option String
  pub last_connection_event : Option String
  pub connection_attempts : ℕ
  pub created_at : ℕ
  pub updated_at : ℕ

-- A row of a table whose rows belong to an instance, of which only that matters here.
pub record OwnedRow : Type 0 where
  pub tenant_id : String
  pub instance_id : ℕ

pub record Db : Type 0 where
  pub instances : List InstanceRow
  pub connections : List ConnectionRow
  pub messages : List OwnedRow
  pub message_updates : List OwnedRow
  pub chats : List OwnedRow
  pub contacts : List OwnedRow
  pub webhooks : List OwnedRow
  pub webhook_deliveries : List OwnedRow
  pub message_jobs : List OwnedRow
  pub address_mappings : List OwnedRow

-- What the database answers beside its rows: `fault n` is the error with which the n-th statement
-- of a call fails, and `duplicate` the error, if any, of an UPDATE that names a column twice.
pub record Engine : Type 0 where
  pub fault : ℕ → Option Error
  pub duplicate : Option Error

abbrev pub healthy : Engine
healthy = record { fault = λ n. none; duplicate = none }
