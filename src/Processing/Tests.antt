-- ===== src/Processing/Tests.antt =====
-- Tests and instances for internal/message/processor.go, with a queue that is a list of ids.
use arandu_whatsapp.Authz.Checks.{check_instance_lookup, check_message_by_key, tenant_from_grant}
use arandu_whatsapp.Authz.Security.{Action-discrete, message_send}
use arandu_whatsapp.Database.{Db, InstanceRow, InstanceStatus}
use arandu_whatsapp.Database.Sql.{find}
use arandu_whatsapp.Errors.{Result, errors_is, ok}
use arandu_whatsapp.Fixtures.{DemoGrant, ascii, demo, grant_of}
use arandu_whatsapp.Messages.Reads.{find_by_key_id_for_instance}
use arandu_whatsapp.Messages.Store.{find_message}
use arandu_whatsapp.Policy.{Action-eq}
use arandu_whatsapp.Prelude.{
  ==_iff, Bool, List, List-eq, Option-eq, String-eq, [], any, arith, if◌then◌else◌, list_eq, none,
  not, refl, some, true, ℕ-eq, ◌&&◌, ◌==◌, ◌||◌, ◌∷◌, ◌≡◌,
}
use arandu_whatsapp.Prelude.Text.{Text, codes, trim_space}
use arandu_whatsapp.Processing.{
  Codec, Job, PreparedMentionAllJob, ProcessingEngine, Queue, SnapshotRow, Tables,
}
use arandu_whatsapp.Processing.Backing.{IsBacked}
use arandu_whatsapp.Processing.Execution.{
  Answers, find_by_name, process_mention_all_job, send_mention_all, send_refusal,
}
use arandu_whatsapp.Processing.Laws.{
  ProcessorOp, apply_all, apply_all-IsBacked, cleaning, enqueueing, handling,
}
use arandu_whatsapp.Processing.Processor.{
  enqueue, handle, handle_cleanup, handle_found, handle_of, handle_process, new_snapshot, opening,
}
use arandu_whatsapp.Processing.Promises.{
  Ends, IsFaithful, Sent, find-enqueue, handle-Sent, handlers_end,
}
use arandu_whatsapp.Processing.Repository.{
  create_snapshot, find_snapshot, message_processing_tenant, stored_row,
}

abbrev without : Text → List Text → List Text
without id [] = []
without id (x ∷ s) = if id == x then without id s else x ∷ without id s

abbrev queued : Text → List Text → Bool
queued k s = any (λ id. id == k) s

queued-without :
    (id k : Text) (s : List Text) → queued k (without id s) ≡ (not (id == k) && queued k s)
queued-without id k [] = ground arith
queued-without id k (x ∷ s) =
    ground (arith, queued-without id k s, ==_iff id x, ==_iff x k, ==_iff id k)

queued-push :
    (id k : Text) (s s' : List Text)
    → ◌≡◌ {A = Result (List Text)} (ok (id ∷ s)) (ok s')
    → queued k s' ≡ (id == k || queued k s)
queued-push id k s s' h = ground arith

queued-delete :
    (id k : Text) (s s' : List Text)
    → ◌≡◌ {A = Result (List Text)} (ok (without id s)) (ok s')
    → queued k s' ≡ (not (id == k) && queued k s)
queued-delete id k s s' h = ground (arith, queued-without id k s)

abbrev list_queue : Queue
list_queue = record {
  Jobs = List Text;
  push = λ id s. ok (id ∷ s);
  later = λ delay id s. ok (id ∷ s);
  delete_job = λ id s. ok (without id s);
  has_job = queued;
  has_job-push = queued-push;
  has_job-later = λ delay. queued-push;
  has_job-delete = queued-delete;
}

abbrev plain_codec : Codec
plain_codec = record {
  encode_base64 = λ s. s;
  decode_base64 = λ s. some s;
  is_json = λ s. true;
  marshal = λ s. ok s;
  unmarshal = λ s. some s;
}

abbrev engine : ProcessingEngine
engine = record {
  create_fault = none;
  find_fault = none;
  job_ids_fault = none;
  delete_fault = none;
  process_id = ok (codes "P");
  message_job = ok (codes "M");
  cleanup_job = ok (codes "C");
  codec = plain_codec;
  now = 5;
}

abbrev input : PreparedMentionAllJob
input = record {
  instance_id = 7;
  instance_name = codes "sales";
  remote_jid = codes "1@g.us";
  message_id = codes "K9";
  message_type = codes "conversation";
  message_payload = codes "x";
  content = codes "{}";
  presence = none;
  delay = 1_500_000;
  external_attributes = codes "null";
  webhook_instance = codes "{}";
}

abbrev empty : Tables list_queue
empty = record { snapshots = []; messages = record { messages = []; updates = [] }; jobs = [] }

abbrev stored : SnapshotRow
stored =
    stored_row plain_codec "acme" 5 (codes "null") (codes "{}")
      (new_snapshot (codes "P") (codes "M") (codes "C") input)

abbrev filled : Tables list_queue
filled = record empty { snapshots = stored ∷ []; jobs = codes "C" ∷ codes "M" ∷ [] }

abbrev sender : DemoGrant
sender = grant_of message_send "acme"

enqueue_fills :
    enqueue demo ascii (λ c. true) list_queue 100 engine sender input empty ≡ ok (filled, codes "P")
unfolding enqueue create_snapshot message_processing_tenant Action-discrete list_eq trim_space
enqueue_fills = refl

input-IsFaithful : IsFaithful demo ascii (λ c. true) list_queue 100 plain_codec input
input-IsFaithful = record {
  payload = refl;
  content = refl;
  attributes = λ s h. ground arith;
  webhook = λ s h. ground arith;
}

find-enqueue_example :
    (find_snapshot demo engine sender (codes "P") filled.snapshots
      ≡ ok (record (new_snapshot (codes "P") (codes "M") (codes "C") input) {
        delay = 1_000_000;
        created_at = 5;
      }))
    × (queued (codes "M") filled.jobs ≡ true)
    × (queued (codes "C") filled.jobs ≡ true)
    × (filled.messages ≡ empty.messages)
find-enqueue_example =
    find-enqueue demo ascii (λ c. true) list_queue 100 engine engine sender input (codes "P")
      (codes "M") (codes "C") empty filled refl refl refl refl input-IsFaithful enqueue_fills

abbrev sales : InstanceRow
sales = record {
  id = 7;
  tenant_id = "acme";
  name = codes "sales";
  status = InstanceStatus.online;
  owner_jid = none;
  profile_pic_url = none;
  description = none;
  external_attributes = [];
  connection_lock_owner = none;
  connection_lock_until = none;
  created_at = 1;
  updated_at = 1;
}

abbrev one_instance : Db
one_instance = record {
  instances = sales ∷ [];
  connections = [];
  messages = [];
  chats = [];
  contacts = [];
  webhooks = [];
  message_updates = [];
  webhook_deliveries = [];
  message_jobs = [];
  address_mappings = [];
}

abbrev answers : Answers
answers = record {
  instance_fault = none;
  message_fault = none;
  client = ok (some true);
  is_group = true;
  group_info = ok (codes "2@s" ∷ []);
  decodes_message = true;
  decodes_content = true;
  presence_and_delay = none;
  send = none;
  dispatch = none;
  remote = "1@g.us";
  raw = codes "{}";
  sent_at = 2147483657;
  timestamp_now = 2147483657;
  metadata = codes "{}";
  backend = record { fault = λ n. none; new_id = λ n. ok 1; now = 6 };
}

abbrev job : Job
job = record { decoded = ok (codes "P"); attempts = 1 }

opens : opening demo ascii (λ c. true) list_queue 100 sender (some job) ≡ ok (job, codes "P")
unfolding opening message_processing_tenant Action-discrete trim_space list_eq
opens = refl

handlers_end_example :
    Ends demo ascii
      (λ c. true)
      list_queue
      100
      sender
      (codes "P")
      filled
      (handle demo ascii
        (λ c. true)
        list_queue
        100
        engine
        answers
        sender
        (some job)
        one_instance
        filled)
    × Ends demo ascii
        (λ c. true)
        list_queue
        100
        sender
        (codes "P")
        filled
        (handle_cleanup demo ascii (λ c. true) list_queue 100 engine sender (some job) filled)
handlers_end_example =
    handlers_end demo ascii (λ c. true) list_queue 100 engine answers sender (some job) job
      (codes "P") one_instance filled opens

sends :
    (handle_of demo ascii
      (λ c. true)
      list_queue
      100
      engine
      answers
      sender
      (some job)
      one_instance
      filled).0
    ≡ true
unfolding handle_of opening handle_process find_snapshot message_processing_tenant handle_found
    process_mention_all_job find_by_name check_instance_lookup tenant_from_grant
    find_by_key_id_for_instance check_message_by_key find_message send_mention_all send_refusal
    errors_is trim_space find Action-discrete list_eq
sends = refl

handle-Sent_example :
    Sent demo ascii (λ c. true) list_queue 100 engine answers sender (codes "P") one_instance filled
handle-Sent_example =
    handle-Sent demo ascii (λ c. true) list_queue 100 engine answers sender (some job) job
      (codes "P") one_instance filled opens sends

abbrev ops : List (ProcessorOp demo ascii (λ c. true) list_queue 100)
ops =
    enqueueing engine sender input
    ∷ handling engine answers sender (some job) one_instance
    ∷ cleaning engine sender (some job)
    ∷ []

apply_all-IsBacked_example :
    IsBacked demo ascii
      (λ c. true)
      list_queue
      100
      (apply_all demo ascii (λ c. true) list_queue 100 ops empty)
apply_all-IsBacked_example =
    apply_all-IsBacked demo ascii (λ c. true) list_queue 100 ops empty
      ((λ m c p q. tt), (tt, (tt, tt))) (record { backed = tt; apart = tt })
