-- ===== src/Processing/Execution.antt =====
-- processMentionAllJob and persistSentMessage of internal/message/service.go. The client of whatsmeow,
-- protobuf and JSON are what they answer.
use arandu_whatsapp.Authz.Checks.{check_instance_lookup, check_message_create, tenant_from_grant}
use arandu_whatsapp.Authz.Security.{Security}
use arandu_whatsapp.Database.{Db, InstanceRow, InstanceStatus, status_is_online}
use arandu_whatsapp.Database.Sql.{find}
use arandu_whatsapp.Errors.{
  Error, Result, client_not_connected, err, errors_first, errors_is, external, fail,
  group_has_no_participants, group_info_fetch_failed, instance_not_found,
  invalid_message_processing_snapshot, message_not_found, ok, send_failed, sentinel, unless, wrap,
  ◌>>=◌,
}
use arandu_whatsapp.Messages.{CreateMessageInput, MessageRow, MessageStore}
use arandu_whatsapp.Messages.Reads.{find_by_key_id_for_instance}
use arandu_whatsapp.Messages.Store.{Backend, create_message}
use arandu_whatsapp.Policy.{Action-eq}
use arandu_whatsapp.Prelude.{
  Bool, List, List-eq, Option, Option-eq, String, String-eq, [], false, if◌then◌else◌, leb, none,
  not, some, true, ℕ, ℕ-eq, ◌&&◌, ◌==◌, ◌∷◌,
}
use arandu_whatsapp.Prelude.Text.{Text, Unicode, trim_space}
use arandu_whatsapp.Processing.{MessageSnapshot}
use arandu_whatsapp.Processing.Repository.{query_error}

-- What the database, the hub and the client answer in one run: ResolveConnectedClient with IsReady,
-- `none` for a nil client; the mentions that the participants of GetGroupInfo give; and what is stored
-- of the message that was sent. A timestamp is an int32 by its order: its value plus 2 ^ 31.
pub record Answers : Type 0 where
  pub instance_fault : Option Error
  pub message_fault : Option String
  pub client : Result (Option Bool)
  pub is_group : Bool
  pub group_info : Result (List Text)
  pub decodes_message : Bool
  pub decodes_content : Bool
  pub presence_and_delay : Option Error
  pub send : Option Error
  pub dispatch : Option Error
  pub remote : String
  pub raw : Text
  pub sent_at : ℕ
  pub timestamp_now : ℕ
  pub metadata : Text
  pub backend : Backend

-- mentionAllExecution
pub record MentionAllExecution : Type 0 where
  pub instance_id : ℕ
  pub existing : Option MessageRow

-- `managed == nil || managed.Client == nil || !managed.IsReady()`
abbrev pub client_refusal : Result (Option Bool) → Option Error
client_refusal (err e) = some e
client_refusal (ok none) = some (sentinel client_not_connected)
client_refusal (ok (some ready)) = if ready then none else some (sentinel client_not_connected)

abbrev pub mention_refusal : Result (List Text) → Option Error
mention_refusal (err e) = some (wrap group_info_fetch_failed e)
mention_refusal (ok []) = some (sentinel group_has_no_participants)
mention_refusal (ok (jid ∷ mentioned)) = none

abbrev pub invalid_snapshot : String → Error
invalid_snapshot what = wrap invalid_message_processing_snapshot (external what)

-- What keeps the job from SendMessage, in the order of the code.
unfoldable pub send_refusal : Answers → InstanceStatus → Option Error
send_refusal a status =
    if not (status_is_online status)
    then some (sentinel client_not_connected)
    else errors_first (client_refusal a.client) (
        if not a.is_group
        then some (invalid_snapshot "invalid group jid")
        else errors_first (mention_refusal a.group_info) (
            if not a.decodes_message
            then some (invalid_snapshot "decode protobuf message")
            else if not a.decodes_content
            then some (invalid_snapshot "decode persisted content")
            else a.presence_and_delay))

-- The rest of processMentionAllJob: whether SendMessage is called, and the result.
unfoldable pub send_mention_all : Answers → ℕ → InstanceStatus → Bool × Result MentionAllExecution
unfolding send_refusal
send_mention_all a i status = elim (send_refusal a status) [
  | some e ↦ (false, err e)
  | none ↦ elim a.send [
    | some e ↦ (true, err (wrap send_failed e))
    | none ↦ (true, ok (record { instance_id = i; existing = none }))
  ]
]

-- The CreateMessageInput of persistSentMessage.
abbrev pub sent_input : Answers → ℕ → MessageSnapshot → CreateMessageInput
sent_input a i job = record {
  instance_id = i;
  key_id = job.message_id;
  key_remote_jid = some a.remote;
  key_lid = none;
  key_from_me = true;
  key_participant = none;
  key_participant_lid = none;
  push_name = none;
  message_type = job.message_type;
  content = a.raw;
  message_timestamp = if leb a.sent_at 2147483648 then a.timestamp_now else a.sent_at;
  device = "web";
  is_group = some a.is_group;
  metadata = a.metadata;
}

-- findByName
abbrev pub named : Unicode → String → Text → InstanceRow → Bool
named unicode t name r = r.tenant_id == t && r.name == trim_space unicode name

module _ (security : Security) (unicode : Unicode) (json_valid : Text → Bool) where
  open security use {Grant, check, tenant}

  -- FindByName
  unfoldable pub find_by_name : Option Error → Grant → Text → Db → Result InstanceRow
  find_by_name fault g name db = unless (check_instance_lookup security g) (do
    t ← tenant_from_grant security g
    unless fault (elim (find (named unicode t name) db.instances) [
      | none ↦ fail instance_not_found
      | some r ↦ ok r
    ]))

  -- processMentionAllJob: whether SendMessage is called, and the result.
  unfoldable pub process_mention_all_job :
      Answers → Grant → MessageSnapshot → Db → MessageStore → Bool × Result MentionAllExecution
  unfolding find_by_name find_by_key_id_for_instance send_mention_all
  process_mention_all_job a g job db store =
      elim (find_by_name a.instance_fault g job.instance_name db) [
        | err e ↦ (false, err e)
        | ok instance_row ↦
            if not (instance_row.id == job.instance_id)
            then (false, err (invalid_snapshot "instance identity changed"))
            else elim (find_by_key_id_for_instance security (query_error a.message_fault) g
                instance_row.id job.message_id store) [
                  | ok m ↦ (false, ok (record { instance_id = instance_row.id; existing = some m }))
                  | err e ↦
                      if not (errors_is e message_not_found)
                      then (false, err e)
                      else send_mention_all a instance_row.id instance_row.status
                ]
      ]

  -- persistSentMessage, with Create of the message repository
  unfoldable pub persist_sent_message :
      Answers → Grant → ℕ → MessageSnapshot → Db → MessageStore → Result MessageStore
  unfolding create_message
  persist_sent_message a g i job db store = unless (check_message_create security g) (do
    t ← tenant_from_grant security g
    let (store', created) =
        create_message unicode json_valid a.backend db t (sent_input a i job) store
    m ← created
    ok store')
