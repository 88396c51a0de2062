-- ===== src/Messages.antt =====
-- The tables of messages and of their updates, and the inputs of
-- internal/database/repository/message_repository.go and message_update_repository.go.
pub mod Filter
pub mod Store
pub mod Listing
pub mod Order
pub mod Paging
pub mod Laws
pub mod Doors
pub mod Reads
pub mod Marking
pub mod Pages
mod Tests
use arandu_whatsapp.Policy.{Action-eq}
use arandu_whatsapp.Prelude.{
  Bool, List, List-eq, Option, Option-eq, String, String-eq, ℕ, ℕ-eq, ◌==◌, ◌||◌,
}
use arandu_whatsapp.Prelude.Text.{Text}

-- A row of whatsapp_messages. A timestamp is an int32, here by its order: its value plus 2 ^ 31.
pub record MessageRow : Type 0 where
  pub id : ℕ
  pub tenant_id : String
  pub instance_id : ℕ
  pub key_id : Text
  pub key_remote_jid : Option String
  pub key_lid : Option String
  pub key_from_me : Bool
  pub key_participant : Option String
  pub key_participant_lid : Option String
  pub push_name : Option String
  pub message_type : Text
  pub content : Text
  pub message_timestamp : ℕ
  pub device : String
  pub is_group : Option Bool
  pub metadata : Text
  pub created_at : ℕ

-- A row of whatsapp_message_updates.
pub record UpdateRow : Type 0 where
  pub id : ℕ
  pub tenant_id : String
  pub instance_id : ℕ
  pub message_id : ℕ
  pub date_time : ℕ
  pub status : String

pub record MessageStore : Type 0 where
  pub messages : List MessageRow
  pub updates : List UpdateRow

-- types.CreateMessageInput
pub record CreateMessageInput : Type 0 where
  pub instance_id : ℕ
  pub key_id : Text
  pub key_remote_jid : Option String
  pub key_lid : Option String
  pub key_from_me : Bool
  pub key_participant : Option String
  pub key_participant_lid : Option String
  pub push_name : Option String
  pub message_type : Text
  pub content : Text
  pub message_timestamp : ℕ
  pub device : String
  pub is_group : Option Bool
  pub metadata : Text

-- types.CreateMessageUpdateInput
pub record CreateMessageUpdateInput : Type 0 where
  pub message_id : ℕ
  pub date_time : ℕ
  pub status : String

-- types.MessageFilters
pub record MessageFilters : Type 0 where
  pub id : Option ℕ
  pub key_id : Option Text
  pub key_remote_jid : Option String
  pub key_from_me : Option Bool
  pub message_type : Option Text
  pub device : Option String
  pub timestamp_gte : Option ℕ
  pub timestamp_lte : Option ℕ
  pub message_status : Option String

-- DeviceMessage.IsValid
unfoldable pub device_is_valid : String → Bool
device_is_valid d = d == "ios" || d == "android" || d == "web" || d == "unknown" || d == "desktop"
