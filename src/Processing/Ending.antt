-- ===== src/Processing/Ending.antt =====
-- What a handler of internal/message/processor.go leaves of the snapshot of its job.
use arandu_whatsapp.Authz.Security.{Security}
use arandu_whatsapp.Database.{Db}
use arandu_whatsapp.Database.Sql.{delete_rows, find, find-some}
use arandu_whatsapp.Errors.{
  Error, Result, err, errors_is, message_processing_snapshot_not_found, ok,
}
use arandu_whatsapp.Messages.{MessageStore}
use arandu_whatsapp.Policy.{Action-eq}
use arandu_whatsapp.Prelude.{
  ==_iff, Bool, List, List-eq, Option-eq, String-eq, arith, false, inl, inr, none, refl, some,
  subst, true, ℕ, ℕ-eq, ◌==◌, ◌∙◌, ◌≡◌, ◌⊎◌,
}
use arandu_whatsapp.Prelude.Text.{Text, Unicode}
use arandu_whatsapp.Processing.{Job, MessageSnapshot, ProcessingEngine, Queue, SnapshotRow, Tables}
use arandu_whatsapp.Processing.Execution.{Answers, MentionAllExecution, process_mention_all_job}
use arandu_whatsapp.Processing.Lookups.{
  IsLoaded, find_job_ids-eq_ok, find_job_ids-not_found, find_snapshot-eq_ok,
  find_snapshot-not_found,
}
use arandu_whatsapp.Processing.Processor.{
  clean_process, delete_unless_blank, finalize, finalize_failure, finalize_success, finish,
  handle_found, handle_process, is_expired, persisted, remove_snapshot_and_jobs, unread,
}
use arandu_whatsapp.Processing.Repository.{
  delete_snapshot, find_job_ids, find_snapshot, message_processing_tenant, snapshot_at,
}

module _ (security : Security) (unicode : Unicode) (json_valid : Text → Bool) (queue : Queue)
    (retention : ℕ) where
  open security use {Grant, tenant}

  -- Jobs whose id is neither of the ids of a snapshot stay as they are.
  abbrev pub Keeps : SnapshotRow → queue.Jobs → queue.Jobs → Type 0
  Keeps s jobs jobs' =
      (k : Text)
      → (s.message_job_id == k) ≡ false
      → (s.cleanup_job_id == k) ≡ false
      → queue.has_job k jobs' ≡ queue.has_job k jobs

  -- The snapshot of a process is gone, and of the jobs at most its own.
  pub record Removed (g : Grant) (id : Text) (tables tables' : Tables queue) : Type 0 where
    pub row : SnapshotRow
    pub found : find (snapshot_at (tenant g) id) tables.snapshots ≡ some row
    pub removed : tables'.snapshots ≡ delete_rows (snapshot_at (tenant g) id) tables.snapshots
    pub keeps : Keeps row tables.jobs tables'.jobs

  -- There was no snapshot and nothing is done, or it is removed.
  abbrev pub Outcome : Grant → Text → Tables queue → Tables queue → Type 0
  Outcome g id tables tables' =
      ((find (snapshot_at (tenant g) id) tables.snapshots ≡ none) × (tables' ≡ tables))
      ⊎ Removed g id tables tables'

  finish-eq_ok :
      (en : ProcessingEngine) (g : Grant) (id job : Text) (tables tables' : Tables queue)
      → finish security unicode json_valid queue retention en g id job tables ≡ ok tables'
      → (tables'.snapshots ≡ delete_rows (snapshot_at (tenant g) id) tables.snapshots)
        × (queue.delete_job job tables.jobs ≡ ok tables'.jobs)
  unfolding delete_snapshot message_processing_tenant
  finish-eq_ok en g id job tables tables' h = ground arith

  delete-has_job :
      (id k : Text) (jobs jobs' : queue.Jobs)
      → delete_unless_blank security unicode json_valid queue retention id jobs ≡ ok jobs'
      → (id == k) ≡ false
      → queue.has_job k jobs' ≡ queue.has_job k jobs
  unfolding delete_unless_blank
  delete-has_job id k jobs jobs' h z = ground (arith, queue.has_job-delete id k jobs jobs')

  finish-Removed :
      (en : ProcessingEngine) (g : Grant) (id job : Text) (s : SnapshotRow)
      (tables tables' : Tables queue)
      → find (snapshot_at (tenant g) id) tables.snapshots ≡ some s
      → (s.message_job_id ≡ job) ⊎ (s.cleanup_job_id ≡ job)
      → finish security unicode json_valid queue retention en g id job tables ≡ ok tables'
      → Removed g id tables tables'
  finish-Removed en g id job s tables tables' f o h =
      let (rows, jobs) = finish-eq_ok en g id job tables tables' h in
      record {
        row = s;
        found = f;
        removed = rows;
        keeps =
            λ k m c. ground (arith, o, jobs, queue.has_job-delete job k tables.jobs tables'.jobs);
      }

  remove-eq_ok :
      (en : ProcessingEngine) (g : Grant) (id m c : Text) (tables tables' : Tables queue)
      → remove_snapshot_and_jobs security unicode json_valid queue retention en g id m c tables
        ≡ ok tables'
      → (tables'.snapshots ≡ delete_rows (snapshot_at (tenant g) id) tables.snapshots)
        × ((k : Text)
            → (m == k) ≡ false
            → (c == k) ≡ false
            → queue.has_job k tables'.jobs ≡ queue.has_job k tables.jobs)
  unfolding remove_snapshot_and_jobs delete_snapshot message_processing_tenant
  remove-eq_ok en g id m c tables tables' h =
      (elim (delete_unless_blank security unicode json_valid queue retention m tables.jobs)
          as (λ r.
            delete_unless_blank security unicode json_valid queue retention m tables.jobs ≡ r
            → (tables'.snapshots ≡ delete_rows (snapshot_at (tenant g) id) tables.snapshots)
              × ((k : Text)
                  → (m == k) ≡ false
                  → (c == k) ≡ false
                  → queue.has_job k tables'.jobs ≡ queue.has_job k tables.jobs)) [
                    | err e ↦ λ q. absurd (ground arith)
                    | ok jobs ↦ λ q. (
                      ground arith,
                      λ k x y. ground (
                        arith,
                        delete-has_job m k tables.jobs jobs q x,
                        delete-has_job c k jobs tables'.jobs,
                      ),
                    )
                  ])
        refl

  finalize-finish :
      (en : ProcessingEngine) (a : Answers) (g : Grant) (j : Job) (s : MessageSnapshot) (db : Db)
      (tables tables' : Tables queue) (r : Result MentionAllExecution)
      → finalize security unicode json_valid queue retention en a g j s db tables r ≡ ok tables'
      → (messages : MessageStore) × (finish security unicode json_valid queue retention en g
            s.process_id s.cleanup_job_id
            (record tables { messages = messages })
          ≡ ok tables')
  unfolding finalize finalize_success finalize_failure
  finalize-finish en a g j s db tables tables' (ok x) h =
      (elim (persisted security unicode json_valid queue retention a g s x db tables.messages)
          as (λ r.
            persisted security unicode json_valid queue retention a g s x db tables.messages ≡ r
            → (messages : MessageStore) × (finish security unicode json_valid queue retention en g
                  s.process_id s.cleanup_job_id (record tables { messages = messages })
                ≡ ok tables')) [
                  | err e ↦ λ q. absurd (ground arith)
                  | ok messages ↦ λ q. (messages, ground arith)
                ])
        refl
  finalize-finish en a g j s db tables tables' (err e) h = (tables.messages, ground arith)

  -- The snapshot of `found` is that of its own process id.
  found-process_id :
      (g : Grant) (id : Text) (rows : List SnapshotRow) (s : SnapshotRow)
      → find (snapshot_at (tenant g) id) rows ≡ some s
      → s.process_id ≡ id
  found-process_id g id rows s f =
      ground (arith, find-some (snapshot_at (tenant g) id) rows s f, ==_iff s.process_id id)

  handle_found-Removed :
      (en : ProcessingEngine) (a : Answers) (g : Grant) (j : Job) (s : MessageSnapshot) (db : Db)
      (tables tables' : Tables queue) (row : SnapshotRow)
      → find (snapshot_at (tenant g) s.process_id) tables.snapshots ≡ some row
      → IsLoaded row s
      → (handle_found security unicode json_valid queue retention en a g j s db tables).1
        ≡ ok tables'
      → Removed g s.process_id tables tables'
  unfolding handle_found
  handle_found-Removed en a g j s db tables tables' row f l h =
      (elim (is_expired security unicode json_valid queue retention en s)
          as (λ b.
            is_expired security unicode json_valid queue retention en s ≡ b
            → Removed g s.process_id tables tables') [
              | true ↦ λ q.
                  let (rows, keeps) =
                    remove-eq_ok en g s.process_id s.message_job_id s.cleanup_job_id tables tables'
                      (ground arith) in
                  record {
                    row = row;
                    found = f;
                    removed = rows;
                    keeps = λ i m c. keeps i (ground (arith, l)) (ground (arith, l));
                  }
              | false ↦ λ q.
                  let (messages, k) =
                    finalize-finish en a g j s db tables tables'
                      (process_mention_all_job security unicode json_valid a g s db
                        tables.messages).1
                      (ground arith) in
                  let (rows, jobs) =
                    finish-eq_ok en g s.process_id s.cleanup_job_id
                      (record tables { messages = messages }) tables' k in
                  record {
                    row = row;
                    found = f;
                    removed = rows;
                    keeps = λ i m c. ground (
                      arith,
                      l,
                      jobs,
                      queue.has_job-delete s.cleanup_job_id i tables.jobs tables'.jobs,
                    );
                  }
            ])
        refl

  unread-Outcome :
      (en : ProcessingEngine) (g : Grant) (id : Text) (tables tables' : Tables queue) (e : Error)
      → (errors_is e message_processing_snapshot_not_found ≡ true
          → find (snapshot_at (tenant g) id) tables.snapshots ≡ none)
      → unread security unicode json_valid queue retention en g id tables e ≡ ok tables'
      → Outcome g id tables tables'
  unfolding unread
  unread-Outcome en g id tables tables' e f h =
      (elim (errors_is e message_processing_snapshot_not_found)
          as (λ b.
            errors_is e message_processing_snapshot_not_found ≡ b → Outcome g id tables tables') [
              | true ↦ λ q. inl (f q, ground arith)
              | false ↦ λ q.
                  (elim (find_job_ids security en g id tables.snapshots)
                      as (λ r.
                        find_job_ids security en g id tables.snapshots ≡ r
                        → Outcome g id tables tables') [
                          | err d ↦ λ z. absurd (ground arith)
                          | ok (m, c) ↦ λ z.
                              let (s, fs, em, ec) =
                                find_job_ids-eq_ok security en g id m c tables.snapshots z in
                              let (rows, keeps) =
                                remove-eq_ok en g id m c tables tables' (ground arith) in
                              inr (record {
                                row = s;
                                found = fs;
                                removed = rows;
                                keeps = λ k x y. keeps k (ground (arith, em)) (ground (arith, ec));
                              })
                        ])
                    refl
            ])
        refl

  -- A handler of a process that returns no error leaves no snapshot of it.
  pub handle_process-Outcome :
      (en : ProcessingEngine) (a : Answers) (g : Grant) (j : Job) (id : Text) (db : Db)
      (tables tables' : Tables queue)
      → message_processing_tenant security g ≡ ok (tenant g)
      → (handle_process security unicode json_valid queue retention en a g j id db tables).1
        ≡ ok tables'
      → Outcome g id tables tables'
  unfolding handle_process
  handle_process-Outcome en a g j id db tables tables' p h =
      (elim (find_snapshot security en g id tables.snapshots)
          as (λ r.
            find_snapshot security en g id tables.snapshots ≡ r → Outcome g id tables tables') [
              | err e ↦ λ q.
                  unread-Outcome en g id tables tables' e
                    (find_snapshot-not_found security en g id tables.snapshots e p q) (ground arith)
              | ok s ↦ λ q.
                  let (row, f, l) = find_snapshot-eq_ok security en g id tables.snapshots s q in
                  let same : s.process_id ≡ id =
                    l.0 ∙ found-process_id g id tables.snapshots row f in
                  inr (
                    subst (λ i. Removed g i tables tables') same
                      (handle_found-Removed en a g j s db tables tables' row
                        (ground (arith, f, same)) l (ground arith)))
            ])
        refl

  pub clean_process-Outcome :
      (en : ProcessingEngine) (g : Grant) (id : Text) (tables tables' : Tables queue)
      → message_processing_tenant security g ≡ ok (tenant g)
      → clean_process security unicode json_valid queue retention en g id tables ≡ ok tables'
      → Outcome g id tables tables'
  unfolding clean_process
  clean_process-Outcome en g id tables tables' p h =
      (elim (find_job_ids security en g id tables.snapshots)
          as (λ r.
            find_job_ids security en g id tables.snapshots ≡ r → Outcome g id tables tables') [
              | err e ↦ λ q.
                  (elim (errors_is e message_processing_snapshot_not_found)
                      as (λ b.
                        errors_is e message_processing_snapshot_not_found ≡ b
                        → Outcome g id tables tables') [
                          | true ↦ λ z. inl (
                            find_job_ids-not_found security en g id tables.snapshots e p q z,
                            ground arith,
                          )
                          | false ↦ λ z. absurd (ground arith)
                        ])
                    refl
              | ok (m, c) ↦ λ q.
                  let (s, fs, em, ec) =
                    find_job_ids-eq_ok security en g id m c tables.snapshots q in
                  inr (finish-Removed en g id m s tables tables' fs (inl em) (ground arith))
            ])
        refl
