-- ===== src/Processing/Promises.antt =====
-- What the handlers and enqueue of internal/message/processor.go promise for one process.
use Prim.Native.Nat.{◌*◌, ◌/◌}
use arandu_whatsapp.Authz.Security.{Security}
use arandu_whatsapp.Database.{Db}
use arandu_whatsapp.Database.Sql.{delete_rows, find, select}
use arandu_whatsapp.Errors.{Error, Result, err, ok}
use arandu_whatsapp.Policy.{Action-eq}
use arandu_whatsapp.Prelude.{
  ==_iff, ==_refl, Bool, List, List-eq, Option, Option-eq, String, String-eq, [], any, ap, arith,
  false, inl, inr, none, refl, some, true, ℕ, ℕ-eq, ◌++◌, ◌+◌, ◌<◌, ◌∙◌, ◌∷◌, ◌≡◌, ◌≢◌,
}
use arandu_whatsapp.Prelude.Text.{Text, Unicode}
use arandu_whatsapp.Processing.{
  Codec, Job, MessageSnapshot, PreparedMentionAllJob, ProcessingEngine, Queue, SnapshotRow, Tables,
}
use arandu_whatsapp.Processing.Backing.{enqueue-eq_ok, enqueue-has_job, enqueue-marshal}
use arandu_whatsapp.Processing.Ending.{Outcome}
use arandu_whatsapp.Processing.Execution.{Answers}
use arandu_whatsapp.Processing.Laws.{handle_cleanup_of-Outcome, handle_of-Outcome, opening-eq_ok}
use arandu_whatsapp.Processing.Lookups.{IsLoaded, find_snapshot-eq_ok}
use arandu_whatsapp.Processing.Processor.{
  committed, enqueue, handle, handle_cleanup, handle_cleanup_of, handle_found, handle_of,
  handle_process, new_snapshot, opening,
}
use arandu_whatsapp.Processing.Repository.{
  clashes, find_snapshot, load_snapshot, message_processing_tenant, snapshot_at, stored_row,
}
use arandu_whatsapp.Processing.Sending.{MaySend, process-MaySend}

select-found : {A : Type 0} (p : A → Bool) (rows : List A) → find p (delete_rows p rows) ≡ none
unfolding find select
select-found p [] = refl
select-found p (x ∷ rows) = ground (arith, select-found p rows)

delete_rows-twice :
    {A : Type 0} (p : A → Bool) (rows : List A)
    → delete_rows p (delete_rows p rows) ≡ delete_rows p rows
unfolding select
delete_rows-twice p [] = refl
delete_rows-twice p (x ∷ rows) = ground (arith, delete_rows-twice p rows)

find-append_new :
    (a : SnapshotRow) (p : SnapshotRow → Bool) (rows : List SnapshotRow)
    → ((r : SnapshotRow) → p r ≡ true → clashes a r ≡ true)
    → any (clashes a) rows ≡ false
    → (b : SnapshotRow) → p b ≡ true
    → find p (rows ++ b ∷ []) ≡ some b
unfolding find
find-append_new a p [] f u b h = ground arith
find-append_new a p (r ∷ rows) f u b h =
    ground (arith, f r, find-append_new a p rows f (ground arith) b h)

module _ (security : Security) (unicode : Unicode) (json_valid : Text → Bool) (queue : Queue)
    (retention : ℕ) where
  open security use {Grant, tenant}

  -- What the end of a handler does to the tables: where it returns an error nothing is changed, where it
  -- returns none the process has no snapshot, and the snapshots of all other processes stay as they are.
  abbrev pub Ends : Grant → Text → Tables queue → Tables queue × Option Error → Type 0
  Ends g id tables result =
      (result.1 ≢ none → result.0 ≡ tables)
      × (result.1 ≡ none → find (snapshot_at (tenant g) id) result.0.snapshots ≡ none)
      × (delete_rows (snapshot_at (tenant g) id) result.0.snapshots
          ≡ delete_rows (snapshot_at (tenant g) id) tables.snapshots)

  Outcome-Ends :
      (g : Grant) (id : Text) (tables tables' : Tables queue)
      → Outcome security unicode json_valid queue retention g id tables tables'
      → Ends g id tables (tables', none)
  Outcome-Ends g id tables tables' (inl o) =
      (λ h. absurd (h refl), λ h. ground (arith, o), ground (arith, o))
  Outcome-Ends g id tables tables' (inr o) =
      let p : SnapshotRow → Bool = snapshot_at (tenant g) id in
      (
        λ h. absurd (h refl),
        λ h. ap (find p) o.removed ∙ select-found p tables.snapshots,
        ap (delete_rows p) o.removed ∙ delete_rows-twice p tables.snapshots,
      )

  committed-Ends :
      (g : Grant) (id : Text) (r : Result (Tables queue)) (tables : Tables queue)
      → ((tables' : Tables queue)
          → r ≡ ok tables'
          → Outcome security unicode json_valid queue retention g id tables tables')
      → Ends g id tables (committed security unicode json_valid queue retention r tables)
  committed-Ends g id (ok tables') tables f = Outcome-Ends g id tables tables' (f tables' refl)
  committed-Ends g id (err e) tables f = (λ h. refl, λ h. absurd (ground arith), refl)

  -- The end of a job, for the process id of its payload: a handler that returns an error, whichever call
  -- fails, has changed nothing; one that returns none leaves no snapshot of the process; and the
  -- snapshots of all other processes, of any tenant, stay as they are. This holds of the handler of the
  -- message and of that of the cleanup.
  pub handlers_end :
      (en : ProcessingEngine) (a : Answers) (g : Grant) (job : Option Job) (j : Job) (id : Text)
      (db : Db) (tables : Tables queue)
      → opening security unicode json_valid queue retention g job ≡ ok (j, id)
      → Ends g id tables (handle security unicode json_valid queue retention en a g job db tables)
        × Ends g id tables
            (handle_cleanup security unicode json_valid queue retention en g job tables)
  unfolding handle handle_cleanup
  handlers_end en a g job j id db tables o = (
    committed-Ends g id
        (handle_of security unicode json_valid queue retention en a g job db tables).1 tables
        (λ tables' h.
          handle_of-Outcome security unicode json_valid queue retention en a g job j id db tables
            tables' o h),
    committed-Ends g id
        (handle_cleanup_of security unicode json_valid queue retention en g job tables) tables
        (λ tables' h.
          handle_cleanup_of-Outcome security unicode json_valid queue retention en g job j id tables
            tables' o h),
  )

  -- The snapshot that a job has sent the message of.
  pub record Sent (en : ProcessingEngine) (a : Answers) (g : Grant) (id : Text) (db : Db)
      (tables : Tables queue) : Type 0 where
    pub row : SnapshotRow
    pub snapshot : MessageSnapshot
    pub found : find (snapshot_at (tenant g) id) tables.snapshots ≡ some row
    pub loaded : IsLoaded row snapshot
    pub retained : en.now < row.created_at + retention
    pub allowed : MaySend security unicode json_valid a g snapshot db tables.messages

  -- When a message is handed to WhatsApp: only for a snapshot of the process in the tenant of the Grant,
  -- before its retention ends, if the message is not stored yet, for the instance of the snapshot, which
  -- is online and has a client that is ready, and for a group whose information is read and has
  -- participants.
  pub handle-Sent :
      (en : ProcessingEngine) (a : Answers) (g : Grant) (job : Option Job) (j : Job) (id : Text)
      (db : Db) (tables : Tables queue)
      → opening security unicode json_valid queue retention g job ≡ ok (j, id)
      → (handle_of security unicode json_valid queue retention en a g job db tables).0 ≡ true
      → Sent en a g id db tables
  unfolding handle_of handle_process handle_found
  handle-Sent en a g job j id db tables o h =
      (elim (find_snapshot security en g id tables.snapshots)
          as (λ r. find_snapshot security en g id tables.snapshots ≡ r → Sent en a g id db tables) [
            | err e ↦ λ q. absurd (ground arith)
            | ok s ↦ λ q.
                let (row, f, l) = find_snapshot-eq_ok security en g id tables.snapshots s q in
                record {
                  row = row;
                  snapshot = s;
                  found = f;
                  loaded = l;
                  retained = ground (arith, l);
                  allowed =
                      process-MaySend security unicode json_valid a g s db tables.messages
                        (opening-eq_ok security unicode json_valid queue retention g job j id o)
                        (ground arith);
                }
          ])
        refl

  -- What base64 and JSON decode of their own encodings: the payload and the content of an input as they
  -- are, and its attributes and its webhook instance as the same Go values.
  pub record IsFaithful (codec : Codec) (input : PreparedMentionAllJob) : Type 0 where
    pub payload :
        codec.decode_base64 (codec.encode_base64 input.message_payload) ≡ some input.message_payload
    pub content : codec.is_json input.content ≡ true
    pub attributes :
        (s : Text)
        → codec.marshal input.external_attributes ≡ ok s
        → codec.unmarshal s ≡ some input.external_attributes
    pub webhook :
        (s : Text)
        → codec.marshal input.webhook_instance ≡ ok s
        → codec.unmarshal s ≡ some input.webhook_instance

  load-stored :
      (codec : Codec) (t : String) (now : ℕ) (attributes webhook id m c : Text)
      (input : PreparedMentionAllJob)
      → IsFaithful codec input
      → codec.marshal input.external_attributes ≡ ok attributes
      → codec.marshal input.webhook_instance ≡ ok webhook
      → load_snapshot codec (stored_row codec t now attributes webhook (new_snapshot id m c input))
        ≡ some (record (new_snapshot id m c input) {
          delay = input.delay / 1_000_000 * 1_000_000;
          created_at = now;
        })
  unfolding load_snapshot
  load-stored codec t now attributes webhook id m c input f ea ew =
      ground (arith, f.payload, f.content, f.attributes attributes ea, f.webhook webhook ew)

  -- What is queued is found: after an enqueue that succeeds, both jobs of the process are in the queue,
  -- the messages are as before, and a handler of the tenant whose read does not fail finds the snapshot,
  -- with the two job ids, the time, and the fields of the input, of whose delay the part below a
  -- millisecond is lost; base64 and JSON decode their own encodings of the payload, the attributes and the
  -- webhook instance of this input.
  pub find-enqueue :
      (en en' : ProcessingEngine) (g : Grant) (input : PreparedMentionAllJob) (id m c : Text)
      (tables tables' : Tables queue)
      → en.message_job ≡ ok m
      → en.cleanup_job ≡ ok c
      → en'.find_fault ≡ none
      → en'.codec ≡ en.codec
      → IsFaithful en.codec input
      → enqueue security unicode json_valid queue retention en g input tables ≡ ok (tables', id)
      → (find_snapshot security en' g id tables'.snapshots
          ≡ ok (record (new_snapshot id m c input) {
            delay = input.delay / 1_000_000 * 1_000_000;
            created_at = en.now;
          }))
        × (queue.has_job m tables'.jobs ≡ true)
        × (queue.has_job c tables'.jobs ≡ true)
        × (tables'.messages ≡ tables.messages)
  unfolding find_snapshot message_processing_tenant enqueue
  find-enqueue en en' g input id m c tables tables' em ec ef same faithful h =
      let (attributes, webhook, ea, ew) =
        enqueue-marshal security unicode json_valid queue retention en g input id tables tables'
          h in
      let (rows, unique, ei) =
        enqueue-eq_ok security unicode json_valid queue retention en g input id tables tables' h m c
          attributes webhook em ec ea ew in
      let has =
        enqueue-has_job security unicode json_valid queue retention en g input id tables tables' h m
          c em ec in
      let b : SnapshotRow =
        stored_row en.codec (tenant g) en.now attributes webhook (new_snapshot id m c input) in
      let found : find (snapshot_at (tenant g) id) tables'.snapshots ≡ some b =
        ap (find (snapshot_at (tenant g) id)) rows
        ∙ find-append_new b (snapshot_at (tenant g) id) tables.snapshots (λ r k. ground arith)
            unique b (ground (arith, ==_refl id, ==_iff (tenant g) (tenant g))) in
      let loaded =
        load-stored en.codec (tenant g) en.now attributes webhook id m c input faithful ea ew in
      (
        ground (arith, found, loaded, same, ef, h),
        ground (arith, has m, ==_refl m),
        ground (arith, has c, ==_refl c),
        ground (arith, h),
      )
