-- ===== src/Processing/Processor.antt =====
-- internal/message/processor.go: enqueue, the two job handlers, and what ends a job. A transaction that
-- fails leaves the tables and the queue as they were.
use arandu_whatsapp.Authz.Security.{Security}
use arandu_whatsapp.Database.{Db}
use arandu_whatsapp.Errors.{
  Error, Result, client_not_connected, err, errors_is, external, group_has_no_participants,
  group_info_fetch_failed, invalid_message_processing_snapshot, join,
  message_processing_snapshot_not_found, ok, send_failed, unless, ◌>>=◌,
}
use arandu_whatsapp.Messages.{MessageStore}
use arandu_whatsapp.Policy.{Action-eq}
use arandu_whatsapp.Prelude.{
  Bool, List-eq, Option, Option-eq, String, String-eq, [], false, if◌then◌else◌, leb, none, not,
  some, ℕ, ℕ-eq, ◌+◌, ◌==◌, ◌||◌,
}
use arandu_whatsapp.Prelude.Text.{Text, Unicode, trim_space}
use arandu_whatsapp.Processing.{
  Job, MessageSnapshot, PreparedMentionAllJob, ProcessingEngine, Queue, Tables,
}
use arandu_whatsapp.Processing.Execution.{
  Answers, MentionAllExecution, invalid_snapshot, persist_sent_message, process_mention_all_job,
}
use arandu_whatsapp.Processing.Repository.{
  create_snapshot, delete_snapshot, find_job_ids, find_snapshot, message_processing_tenant,
}

-- messageProcessingMaxTries
abbrev pub max_tries : ℕ
max_tries = 5

-- normalizedJobAttempts
abbrev pub normalized_job_attempts : Job → ℕ
normalized_job_attempts job = if job.attempts == 0 then 1 else job.attempts

-- errorCodeForProcessing
unfoldable pub error_code_for_processing : Error → String
error_code_for_processing e =
    if errors_is e group_info_fetch_failed
    then "GROUP_INFO_FETCH_FAILED"
    else if errors_is e group_has_no_participants
    then "GROUP_HAS_NO_PARTICIPANTS"
    else if errors_is e client_not_connected
    then "INSTANCE_NOT_CONNECTED"
    else if errors_is e send_failed
    then "MESSAGE_SEND_FAILED"
    else "GROUP_MENTION_PROCESSING_FAILED"

-- The error of a job that is tried again: its text is the code.
abbrev pub safe_error : Error → Error
safe_error e = external (error_code_for_processing e)

module _ (unicode : Unicode) (json_valid : Text → Bool) where
  -- The required fields of enqueue.
  abbrev pub is_missing : PreparedMentionAllJob → Bool
  is_missing input =
      input.instance_id == 0
      || trim_space unicode input.instance_name == []
      || trim_space unicode input.remote_jid == []
      || trim_space unicode input.message_id == []
      || trim_space unicode input.message_type == []
      || input.message_payload == []
      || not (json_valid input.content)

-- The snapshot of enqueue, whose time is not set.
abbrev pub new_snapshot : Text → Text → Text → PreparedMentionAllJob → MessageSnapshot
new_snapshot id message_job cleanup_job input = record {
  process_id = id;
  message_job_id = message_job;
  cleanup_job_id = cleanup_job;
  instance_id = input.instance_id;
  instance_name = input.instance_name;
  remote_jid = input.remote_jid;
  message_id = input.message_id;
  message_type = input.message_type;
  message_payload = input.message_payload;
  content = input.content;
  presence = input.presence;
  delay = input.delay;
  external_attributes = input.external_attributes;
  webhook_instance = input.webhook_instance;
  created_at = 0;
}

module _ (security : Security) (unicode : Unicode) (json_valid : Text → Bool) (queue : Queue)
    (retention : ℕ) where
  open security use {Grant}

  -- data.Transaction, and the return of an operation.
  abbrev pub committed : Result (Tables queue) → Tables queue → Tables queue × Option Error
  committed (ok tables') tables = (tables', none)
  committed (err e) tables = (tables, some e)

  -- enqueue
  unfoldable pub enqueue :
      ProcessingEngine → Grant → PreparedMentionAllJob → Tables queue → Result (Tables queue × Text)
  unfolding message_processing_tenant create_snapshot
  enqueue en g input tables = do
    t ← message_processing_tenant security g
    if is_missing unicode json_valid input
        then err (invalid_snapshot "required snapshot field is missing")
        else (do
          id ← en.process_id
          message_job ← en.message_job
          cleanup_job ← en.cleanup_job
          rows ←
              create_snapshot security en g (new_snapshot id message_job cleanup_job input)
                tables.snapshots
          jobs ← queue.push message_job tables.jobs
          jobs' ← queue.later retention cleanup_job jobs
          ok (record tables { snapshots = rows; jobs = jobs' }, id))

  -- DeleteJob, for the ids that are not blank.
  unfoldable pub delete_unless_blank : Text → queue.Jobs → Result queue.Jobs
  delete_unless_blank id jobs =
      if trim_space unicode id == [] then ok jobs else queue.delete_job id jobs

  -- removeSnapshotAndJobs
  unfoldable pub remove_snapshot_and_jobs :
      ProcessingEngine → Grant → Text → Text → Text → Tables queue → Result (Tables queue)
  unfolding delete_snapshot delete_unless_blank
  remove_snapshot_and_jobs en g id message_job cleanup_job tables = do
    jobs ← delete_unless_blank message_job tables.jobs
    jobs' ← delete_unless_blank cleanup_job jobs
    rows ← delete_snapshot security en g id tables.snapshots
    ok (record tables { snapshots = rows; jobs = jobs' })

  -- How finalizeSuccess, finalizeFailure and handleCleanup end: a job and the snapshot are removed.
  abbrev pub finish : ProcessingEngine → Grant → Text → Text → Tables queue → Result (Tables queue)
  finish en g id job tables = do
    jobs ← queue.delete_job job tables.jobs
    rows ← delete_snapshot security en g id tables.snapshots
    ok (record tables { snapshots = rows; jobs = jobs })

  -- What finalizeSuccess stores: the message, unless it is stored already.
  abbrev pub persisted :
      Answers
      → Grant
      → MessageSnapshot
      → MentionAllExecution
      → Db
      → MessageStore
      → Result MessageStore
  persisted a g s x db store = elim x.existing [
    | some m ↦ ok store
    | none ↦ persist_sent_message security unicode json_valid a g x.instance_id s db store
  ]

  -- finalizeSuccess
  unfoldable pub finalize_success :
      ProcessingEngine
      → Answers
      → Grant
      → MessageSnapshot
      → MentionAllExecution
      → Db
      → Tables queue
      → Result (Tables queue)
  unfolding persist_sent_message delete_snapshot
  finalize_success en a g s x db tables = do
    messages ← persisted a g s x db tables.messages
    unless a.dispatch
        (finish en g s.process_id s.cleanup_job_id (record tables { messages = messages }))

  -- finalizeFailure
  unfoldable pub finalize_failure :
      ProcessingEngine → Answers → Grant → MessageSnapshot → Tables queue → Result (Tables queue)
  unfolding delete_snapshot
  finalize_failure en a g s tables =
      unless a.dispatch (finish en g s.process_id s.cleanup_job_id tables)

  -- How both handlers open: the Grant, the job, and the process id of its payload.
  unfoldable pub opening : Grant → Option Job → Result (Job × Text)
  unfolding message_processing_tenant
  opening g none = do t ← message_processing_tenant security g; err (invalid_snapshot "job is nil")
  opening g (some job) = do
    t ← message_processing_tenant security g
    raw ← job.decoded
    if trim_space unicode raw == []
        then err (invalid_snapshot "process id is missing")
        else ok (job, trim_space unicode raw)

  -- `!time.Now().UTC().Before(snapshot.CreatedAt.Add(m.config.Retention))`
  abbrev pub is_expired : ProcessingEngine → MessageSnapshot → Bool
  is_expired en s = leb (s.created_at + retention) en.now

  -- How handle ends once the job has run.
  unfoldable pub finalize :
      ProcessingEngine
      → Answers
      → Grant
      → Job
      → MessageSnapshot
      → Db
      → Tables queue
      → Result MentionAllExecution
      → Result (Tables queue)
  unfolding finalize_success finalize_failure
  finalize en a g job s db tables (ok x) = finalize_success en a g s x db tables
  finalize en a g job s db tables (err e) =
      if errors_is e invalid_message_processing_snapshot
        || leb max_tries (normalized_job_attempts job)
      then elim (finalize_failure en a g s tables) [
        | ok tables' ↦ ok tables'
        | err e' ↦ err (join (safe_error e) e')
      ]
      else err (safe_error e)

  -- What handle does where the snapshot cannot be read.
  unfoldable pub unread :
      ProcessingEngine → Grant → Text → Tables queue → Error → Result (Tables queue)
  unfolding find_job_ids remove_snapshot_and_jobs
  unread en g id tables e =
      if errors_is e message_processing_snapshot_not_found
      then ok tables
      else if errors_is e invalid_message_processing_snapshot
      then elim (find_job_ids security en g id tables.snapshots) [
        | err e' ↦ err (join e e')
        | ok ids ↦ remove_snapshot_and_jobs en g id ids.0 ids.1 tables
      ]
      else err e

  -- handle for the snapshot that it has found: whether SendMessage is called, and the result.
  unfoldable pub handle_found :
      ProcessingEngine
      → Answers
      → Grant
      → Job
      → MessageSnapshot
      → Db
      → Tables queue
      → Bool × Result (Tables queue)
  unfolding process_mention_all_job finalize remove_snapshot_and_jobs
  handle_found en a g job s db tables =
      if is_expired en s
      then (
        false,
        remove_snapshot_and_jobs en g s.process_id s.message_job_id s.cleanup_job_id tables,
      )
      else (let run =
            process_mention_all_job security unicode json_valid a g s db tables.messages in
          (run.0, finalize en a g job s db tables run.1))

  -- handle for a process id.
  unfoldable pub handle_process :
      ProcessingEngine
      → Answers
      → Grant
      → Job
      → Text
      → Db
      → Tables queue
      → Bool × Result (Tables queue)
  unfolding find_snapshot unread handle_found
  handle_process en a g job id db tables = elim (find_snapshot security en g id tables.snapshots) [
    | err e ↦ (false, unread en g id tables e)
    | ok s ↦ handle_found en a g job s db tables
  ]

  -- handle: whether SendMessage is called, and the result.
  unfoldable pub handle_of :
      ProcessingEngine
      → Answers
      → Grant
      → Option Job
      → Db
      → Tables queue
      → Bool × Result (Tables queue)
  unfolding opening handle_process
  handle_of en a g job db tables = elim (opening g job) [
    | err e ↦ (false, err e)
    | ok (j, id) ↦ handle_process en a g j id db tables
  ]

  unfoldable pub handle :
      ProcessingEngine
      → Answers
      → Grant
      → Option Job
      → Db
      → Tables queue
      → Tables queue × Option Error
  unfolding handle_of
  handle en a g job db tables = committed (handle_of en a g job db tables).1 tables

  -- handleCleanup for a process id.
  unfoldable pub clean_process :
      ProcessingEngine → Grant → Text → Tables queue → Result (Tables queue)
  unfolding find_job_ids delete_snapshot
  clean_process en g id tables = elim (find_job_ids security en g id tables.snapshots) [
    | err e ↦ if errors_is e message_processing_snapshot_not_found then ok tables else err e
    | ok ids ↦ finish en g id ids.0 tables
  ]

  unfoldable pub handle_cleanup_of :
      ProcessingEngine → Grant → Option Job → Tables queue → Result (Tables queue)
  unfolding opening clean_process
  handle_cleanup_of en g job tables = elim (opening g job) [
    | err e ↦ err e
    | ok (j, id) ↦ clean_process en g id tables
  ]

  -- handleCleanup
  unfoldable pub handle_cleanup :
      ProcessingEngine → Grant → Option Job → Tables queue → Tables queue × Option Error
  unfolding handle_cleanup_of
  handle_cleanup en g job tables = committed (handle_cleanup_of en g job tables) tables
