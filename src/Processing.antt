-- ===== src/Processing.antt =====
-- The durable mention-all messages of internal/message/processor.go and processing_repository.go: the
-- rows, the inputs, and what the code uses of the package queue of hesape.
pub mod Repository
pub mod Execution
pub mod Processor
pub mod Lookups
pub mod Ending
pub mod Keying
pub mod Backing
pub mod Sending
pub mod Laws
pub mod Promises
mod Tests
use arandu_whatsapp.Errors.{Error, Result, ok}
use arandu_whatsapp.Messages.{MessageStore}
use arandu_whatsapp.Policy.{Action-eq}
use arandu_whatsapp.Prelude.{
  Bool, List, List-eq, Option, Option-eq, String, String-eq, not, ℕ, ℕ-eq, ◌&&◌, ◌==◌, ◌||◌, ◌≡◌,
}
use arandu_whatsapp.Prelude.Text.{Text}

-- A row of whatsapp_message_jobs: the payload is base64, the attributes and the webhook instance are
-- JSON, and the delay is in milliseconds.
pub record SnapshotRow : Type 0 where
  pub process_id : Text
  pub tenant_id : String
  pub message_job_id : Text
  pub cleanup_job_id : Text
  pub instance_id : ℕ
  pub instance_name : Text
  pub remote_jid : Text
  pub message_id : Text
  pub message_type : Text
  pub message_payload : Text
  pub content : Text
  pub presence : Option Text
  pub delay_ms : ℕ
  pub external_attributes : Text
  pub webhook_instance : Text
  pub created_at : ℕ

-- messageProcessingSnapshot: the delay is in nanoseconds, and the Go values of the attributes and of the
-- webhook instance stand as texts.
pub record MessageSnapshot : Type 0 where
  pub process_id : Text
  pub message_job_id : Text
  pub cleanup_job_id : Text
  pub instance_id : ℕ
  pub instance_name : Text
  pub remote_jid : Text
  pub message_id : Text
  pub message_type : Text
  pub message_payload : Text
  pub content : Text
  pub presence : Option Text
  pub delay : ℕ
  pub external_attributes : Text
  pub webhook_instance : Text
  pub created_at : ℕ

-- encoding/base64 and encoding/json; `none` and an error are where they fail.
pub record Codec : Type 0 where
  pub encode_base64 : Text → Text
  pub decode_base64 : Text → Option Text
  pub is_json : Text → Bool
  pub marshal : Text → Result Text
  pub unmarshal : Text → Option Text

-- preparedMentionAllJob; an instance id that is not positive is 0.
pub record PreparedMentionAllJob : Type 0 where
  pub instance_id : ℕ
  pub instance_name : Text
  pub remote_jid : Text
  pub message_id : Text
  pub message_type : Text
  pub message_payload : Text
  pub content : Text
  pub presence : Option Text
  pub delay : ℕ
  pub external_attributes : Text
  pub webhook_instance : Text

-- The database queue of hesape, and what is documented of it: Push and Later add a job under its UUID,
-- and DeleteJob removes the job with a UUID, where they return no error.
pub record Queue : Type 1 where
  pub Jobs : Type 0
  pub push : Text → Jobs → Result Jobs
  pub later : ℕ → Text → Jobs → Result Jobs
  pub delete_job : Text → Jobs → Result Jobs
  pub has_job : Text → Jobs → Bool
  pub has_job-push :
      (id k : Text) (s s' : Jobs) → push id s ≡ ok s' → has_job k s' ≡ (id == k || has_job k s)
  pub has_job-later :
      (delay : ℕ) (id k : Text) (s s' : Jobs)
      → later delay id s ≡ ok s'
      → has_job k s' ≡ (id == k || has_job k s)
  pub has_job-delete :
      (id k : Text) (s s' : Jobs)
      → delete_job id s ≡ ok s'
      → has_job k s' ≡ (not (id == k) && has_job k s)

-- What a worker hands to a handler: the process id of the payload, which may not decode, and the number
-- of attempts, 0 where it is not positive.
pub record Job : Type 0 where
  pub decoded : Result Text
  pub attempts : ℕ

-- What the database, the clock and jobs.New answer in one call: the faults of the statements, the new
-- ids, and base64 and encoding/json.
pub record ProcessingEngine : Type 0 where
  pub create_fault : Option Error
  pub find_fault : Option String
  pub job_ids_fault : Option String
  pub delete_fault : Option Error
  pub process_id : Result Text
  pub message_job : Result Text
  pub cleanup_job : Result Text
  pub codec : Codec
  pub now : ℕ

-- The tables and the queue.
pub record Tables (queue : Queue) : Type 0 where
  pub snapshots : List SnapshotRow
  pub messages : MessageStore
  pub jobs : queue.Jobs
