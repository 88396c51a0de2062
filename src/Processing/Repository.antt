-- ===== src/Processing/Repository.antt =====
-- internal/message/processing_repository.go: the rows of the mention-all snapshots.
use Prim.Native.Nat.{◌/◌}
use arandu_whatsapp.Authz.Security.{Security, message_send}
use arandu_whatsapp.Database.Sql.{delete_rows, find}
use arandu_whatsapp.Errors.{
  Error, Result, err, external, fail, forbidden, invalid_message_processing_snapshot,
  message_processing_snapshot_not_found, ok, unless, wrap, ◌>>=◌,
}
use arandu_whatsapp.Policy.{Action-eq}
use arandu_whatsapp.Prelude.{
  Bool, List, List-eq, Option, Option-eq, String, String-eq, [], any, if◌then◌else◌, none, not,
  some, ℕ, ℕ-eq, ◌&&◌, ◌*◌, ◌++◌, ◌==◌, ◌||◌, ◌∷◌,
}
use arandu_whatsapp.Prelude.Text.{Text}
use arandu_whatsapp.Processing.{Codec, MessageSnapshot, ProcessingEngine, SnapshotRow}

-- The WHERE clause of a snapshot.
abbrev pub snapshot_at : String → Text → SnapshotRow → Bool
snapshot_at t id r = r.tenant_id == t && r.process_id == id

-- The unique indexes of whatsapp_message_jobs.
abbrev pub clashes : SnapshotRow → SnapshotRow → Bool
clashes a r =
    r.process_id == a.process_id
    || r.tenant_id == a.tenant_id && r.instance_id == a.instance_id && r.message_id == a.message_id
    || r.message_job_id == a.message_job_id
    || r.cleanup_job_id == a.cleanup_job_id

-- The error of a query that fails, which wraps one of the driver.
abbrev pub query_error : Option String → Option Error
query_error none = none
query_error (some text) = some (external text)

-- The number of nanoseconds of time.Millisecond.
abbrev pub millisecond : ℕ
millisecond = 1_000_000

-- The row that Create inserts, given the JSON of the attributes and of the webhook instance.
abbrev pub stored_row : Codec → String → ℕ → Text → Text → MessageSnapshot → SnapshotRow
stored_row codec t now attributes webhook item = record {
  process_id = item.process_id;
  tenant_id = t;
  message_job_id = item.message_job_id;
  cleanup_job_id = item.cleanup_job_id;
  instance_id = item.instance_id;
  instance_name = item.instance_name;
  remote_jid = item.remote_jid;
  message_id = item.message_id;
  message_type = item.message_type;
  message_payload = codec.encode_base64 item.message_payload;
  content = item.content;
  presence = item.presence;
  delay_ms = item.delay / millisecond;
  external_attributes = attributes;
  webhook_instance = webhook;
  created_at = now;
}

abbrev pub loaded_snapshot : SnapshotRow → Text → Text → Text → MessageSnapshot
loaded_snapshot r payload attributes webhook = record {
  process_id = r.process_id;
  message_job_id = r.message_job_id;
  cleanup_job_id = r.cleanup_job_id;
  instance_id = r.instance_id;
  instance_name = r.instance_name;
  remote_jid = r.remote_jid;
  message_id = r.message_id;
  message_type = r.message_type;
  message_payload = payload;
  content = r.content;
  presence = r.presence;
  delay = r.delay_ms * millisecond;
  external_attributes = attributes;
  webhook_instance = webhook;
  created_at = r.created_at;
}

-- What Find makes of a row; `none` is errInvalidMessageProcessingSnapshot.
unfoldable pub load_snapshot : Codec → SnapshotRow → Option MessageSnapshot
load_snapshot codec r = elim (codec.decode_base64 r.message_payload) [
  | none ↦ none
  | some payload ↦
      if not (codec.is_json r.content) then none else elim (codec.unmarshal r.external_attributes) [
        | none ↦ none
        | some attributes ↦ elim (codec.unmarshal r.webhook_instance) [
          | none ↦ none
          | some webhook ↦ some (loaded_snapshot r payload attributes webhook)
        ]
      ]
]

module _ (security : Security) where
  open security use {Grant, check, tenant}

  -- messageProcessingTenant
  unfoldable pub message_processing_tenant : Grant → Result String
  message_processing_tenant g = unless (check g message_send) (
      if tenant g == ""
      then err (wrap forbidden (external "grant has no tenant"))
      else ok (tenant g))

  -- Create
  unfoldable pub create_snapshot :
      ProcessingEngine → Grant → MessageSnapshot → List SnapshotRow → Result (List SnapshotRow)
  unfolding message_processing_tenant
  create_snapshot en g item rows = do
    t ← message_processing_tenant g
    attributes ← en.codec.marshal item.external_attributes
    webhook ← en.codec.marshal item.webhook_instance
    unless en.create_fault (
        if any (clashes (stored_row en.codec t en.now attributes webhook item)) rows
        then err (external "create message processing snapshot: unique constraint")
        else ok (rows ++ stored_row en.codec t en.now attributes webhook item ∷ []))

  -- Find
  unfoldable pub find_snapshot :
      ProcessingEngine → Grant → Text → List SnapshotRow → Result MessageSnapshot
  unfolding message_processing_tenant load_snapshot
  find_snapshot en g id rows = do
    t ← message_processing_tenant g
    unless (query_error en.find_fault) (elim (find (snapshot_at t id) rows) [
      | none ↦ fail message_processing_snapshot_not_found
      | some r ↦ elim (load_snapshot en.codec r) [
        | none ↦ err (wrap invalid_message_processing_snapshot (external "decode"))
        | some s ↦ ok s
      ]
    ])

  -- FindJobIDs
  unfoldable pub find_job_ids :
      ProcessingEngine → Grant → Text → List SnapshotRow → Result (Text × Text)
  unfolding message_processing_tenant
  find_job_ids en g id rows = do
    t ← message_processing_tenant g
    unless (query_error en.job_ids_fault) (elim (find (snapshot_at t id) rows) [
      | none ↦ fail message_processing_snapshot_not_found
      | some r ↦ ok (r.message_job_id, r.cleanup_job_id)
    ])

  -- Delete
  unfoldable pub delete_snapshot :
      ProcessingEngine → Grant → Text → List SnapshotRow → Result (List SnapshotRow)
  unfolding message_processing_tenant
  delete_snapshot en g id rows = do
    t ← message_processing_tenant g
    unless en.delete_fault (ok (delete_rows (snapshot_at t id) rows))
