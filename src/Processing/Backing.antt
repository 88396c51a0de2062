-- ===== src/Processing/Backing.antt =====
-- The cleanup jobs of internal/message/processor.go: each stored snapshot has its own in the queue.
use arandu_whatsapp.Authz.Security.{Security}
use arandu_whatsapp.Database.Sql.{delete_rows}
use arandu_whatsapp.Errors.{err, ok}
use arandu_whatsapp.Policy.{Action-eq}
use arandu_whatsapp.Prelude.{
  ==_refl, All, All-append, Bool, List, List-eq, Option-eq, String-eq, [], any, arith, false, inl,
  inr, refl, subst, sym, true, ℕ, ℕ-eq, ◌++◌, ◌==◌, ◌||◌, ◌∙◌, ◌∷◌, ◌≡◌,
}
use arandu_whatsapp.Prelude.Text.{Text, Unicode}
use arandu_whatsapp.Processing.{PreparedMentionAllJob, ProcessingEngine, Queue, SnapshotRow, Tables}
use arandu_whatsapp.Processing.Ending.{Keeps, Outcome}
use arandu_whatsapp.Processing.Keying.{
  All-delete_rows, AreApart, AreApart-append, AreApart-delete_rows, IsApart, IsOther, find-IsOther,
}
use arandu_whatsapp.Processing.Processor.{enqueue, new_snapshot}
use arandu_whatsapp.Processing.Repository.{
  clashes, create_snapshot, message_processing_tenant, snapshot_at, stored_row,
}

module _ (security : Security) (unicode : Unicode) (json_valid : Text → Bool) (queue : Queue)
    (retention : ℕ) where
  open security use {Grant, tenant}

  -- The cleanup job of each snapshot is in the queue, and no job of another snapshot has its id.
  pub record IsBacked (tables : Tables queue) : Type 0 where
    pub backed : All (λ r. queue.has_job r.cleanup_job_id tables.jobs ≡ true) tables.snapshots
    pub apart : AreApart tables.snapshots

  -- The ids of new jobs are not those of jobs of another kind.
  abbrev pub IsFresh : ProcessingEngine → List SnapshotRow → Type 0
  IsFresh en rows =
      (m c : Text)
      → en.message_job ≡ ok m
      → en.cleanup_job ≡ ok c
      → All (λ r. ((m == r.cleanup_job_id) ≡ false) × ((r.message_job_id == c) ≡ false)) rows

  backed-Keeps :
      (s : SnapshotRow) (jobs jobs' : queue.Jobs) (rows : List SnapshotRow)
      → Keeps security unicode json_valid queue retention s jobs jobs'
      → All (IsOther s) rows
      → All (λ r. queue.has_job r.cleanup_job_id jobs ≡ true) rows
      → All (λ r. queue.has_job r.cleanup_job_id jobs' ≡ true) rows
  backed-Keeps s jobs jobs' [] k o h = tt
  backed-Keeps s jobs jobs' (r ∷ rows) k o h =
      (k r.cleanup_job_id o.0.0 o.0.1 ∙ h.0, backed-Keeps s jobs jobs' rows k o.1 h.1)

  pub Outcome-IsBacked :
      (g : Grant) (id : Text) (tables tables' : Tables queue)
      → Outcome security unicode json_valid queue retention g id tables tables'
      → IsBacked tables
      → IsBacked tables'
  Outcome-IsBacked g id tables tables' (inl o) v = subst IsBacked (sym o.1) v
  Outcome-IsBacked g id tables tables' (inr o) v =
      let p : SnapshotRow → Bool = snapshot_at (tenant g) id in
      record {
        backed =
            subst (All (λ r. queue.has_job r.cleanup_job_id tables'.jobs ≡ true)) (sym o.removed) (
              backed-Keeps o.row tables.jobs tables'.jobs (delete_rows p tables.snapshots) o.keeps
                (find-IsOther p tables.snapshots o.row v.apart o.found)
                (All-delete_rows (λ r. queue.has_job r.cleanup_job_id tables.jobs ≡ true) p
                  tables.snapshots v.backed));
        apart = subst AreApart (sym o.removed) (AreApart-delete_rows p tables.snapshots v.apart);
      }

  -- The row of an enqueue that succeeds.
  pub enqueue-eq_ok :
      (en : ProcessingEngine) (g : Grant) (input : PreparedMentionAllJob) (id : Text)
      (tables tables' : Tables queue)
      → enqueue security unicode json_valid queue retention en g input tables ≡ ok (tables', id)
      → (m c attributes webhook : Text) → en.message_job ≡ ok m
      → en.cleanup_job ≡ ok c
      → en.codec.marshal input.external_attributes ≡ ok attributes
      → en.codec.marshal input.webhook_instance ≡ ok webhook
      → (tables'.snapshots
          ≡ tables.snapshots
            ++ stored_row en.codec (tenant g) en.now attributes webhook (new_snapshot id m c input)
              ∷ [])
        × (any
              (clashes (
                stored_row en.codec
                  (tenant g)
                  en.now
                  attributes
                  webhook
                  (new_snapshot id m c input)))
              tables.snapshots
            ≡ false)
        × (en.process_id ≡ ok id)
  unfolding enqueue create_snapshot message_processing_tenant
  enqueue-eq_ok en g input id tables tables' h m c attributes webhook em ec ea ew = ground arith

  pub enqueue-has_job :
      (en : ProcessingEngine) (g : Grant) (input : PreparedMentionAllJob) (id : Text)
      (tables tables' : Tables queue)
      → enqueue security unicode json_valid queue retention en g input tables ≡ ok (tables', id)
      → (m c : Text) → en.message_job ≡ ok m
      → en.cleanup_job ≡ ok c
      → (k : Text)
      → queue.has_job k tables'.jobs ≡ (c == k || m == k || queue.has_job k tables.jobs)
  unfolding enqueue create_snapshot message_processing_tenant
  enqueue-has_job en g input id tables tables' h m c em ec k =
      (elim (queue.push m tables.jobs)
          as (λ r.
            queue.push m tables.jobs ≡ r
            → queue.has_job k tables'.jobs ≡ (c == k || m == k || queue.has_job k tables.jobs)) [
              | err e ↦ λ q. absurd (ground arith)
              | ok jobs ↦ λ q. ground (
                arith,
                queue.has_job-push m k tables.jobs jobs q,
                queue.has_job-later retention c k jobs tables'.jobs,
              )
            ])
        refl

  -- What enqueue got of json.Marshal.
  pub enqueue-marshal :
      (en : ProcessingEngine) (g : Grant) (input : PreparedMentionAllJob) (id : Text)
      (tables tables' : Tables queue)
      → enqueue security unicode json_valid queue retention en g input tables ≡ ok (tables', id)
      → (attributes : Text) × (webhook : Text) × (en.codec.marshal input.external_attributes
          ≡ ok attributes)
        × (en.codec.marshal input.webhook_instance ≡ ok webhook)
  unfolding enqueue create_snapshot
  enqueue-marshal en g input id tables tables' h =
      (elim (en.codec.marshal input.external_attributes)
          as (λ r.
            en.codec.marshal input.external_attributes ≡ r
            → (attributes : Text) × (webhook : Text) × (en.codec.marshal input.external_attributes
                ≡ ok attributes)
              × (en.codec.marshal input.webhook_instance ≡ ok webhook)) [
                | err e ↦ λ q. absurd (ground arith)
                | ok attributes ↦ λ q.
                    (elim (en.codec.marshal input.webhook_instance)
                        as (λ r.
                          en.codec.marshal input.webhook_instance ≡ r
                          → (attributes : Text) × (webhook : Text) × (en.codec.marshal
                                input.external_attributes
                              ≡ ok attributes)
                            × (en.codec.marshal input.webhook_instance ≡ ok webhook)) [
                              | err e ↦ λ z. absurd (ground arith)
                              | ok webhook ↦ λ z. (attributes, webhook, q, z)
                            ])
                      refl
              ])
        refl

  -- What enqueue answered for the ids of the two jobs.
  enqueue-jobs :
      (en : ProcessingEngine) (g : Grant) (input : PreparedMentionAllJob) (id : Text)
      (tables tables' : Tables queue)
      → enqueue security unicode json_valid queue retention en g input tables ≡ ok (tables', id)
      → (m : Text) × (c : Text) × (en.message_job ≡ ok m) × (en.cleanup_job ≡ ok c)
  unfolding enqueue
  enqueue-jobs en g input id tables tables' h =
      (elim en.message_job
          as (λ r.
            en.message_job ≡ r
            → (m : Text) × (c : Text) × (en.message_job ≡ ok m) × (en.cleanup_job ≡ ok c)) [
              | err e ↦ λ q. absurd (ground arith)
              | ok m ↦ λ q.
                  (elim en.cleanup_job
                      as (λ r.
                        en.cleanup_job ≡ r
                        → (m : Text) × (c : Text) × (en.message_job ≡ ok m)
                          × (en.cleanup_job ≡ ok c)) [
                            | err e ↦ λ z. absurd (ground arith)
                            | ok c ↦ λ z. (m, c, q, z)
                          ])
                    refl
            ])
        refl

  IsApart-from_new :
      (a : SnapshotRow) (rows : List SnapshotRow)
      → any (clashes a) rows ≡ false
      → All
          (λ r.
            ((a.message_job_id == r.cleanup_job_id) ≡ false)
            × ((r.message_job_id == a.cleanup_job_id) ≡ false))
          rows
      → All (λ r. IsApart r a) rows
  IsApart-from_new a [] u h = tt
  IsApart-from_new a (r ∷ rows) u h =
      ((ground arith, h.0.1, h.0.0), IsApart-from_new a rows (ground arith) h.1)

  still_backed :
      (m c : Text) (jobs jobs' : queue.Jobs) (rows : List SnapshotRow)
      → ((k : Text) → queue.has_job k jobs' ≡ (c == k || m == k || queue.has_job k jobs))
      → All (λ r. queue.has_job r.cleanup_job_id jobs ≡ true) rows
      → All (λ r. queue.has_job r.cleanup_job_id jobs' ≡ true) rows
  still_backed m c jobs jobs' [] f h = tt
  still_backed m c jobs jobs' (r ∷ rows) f h =
      (ground (arith, f r.cleanup_job_id, h.0), still_backed m c jobs jobs' rows f h.1)

  pub enqueue-IsBacked :
      (en : ProcessingEngine) (g : Grant) (input : PreparedMentionAllJob) (id : Text)
      (tables tables' : Tables queue)
      → IsFresh en tables.snapshots
      → IsBacked tables
      → enqueue security unicode json_valid queue retention en g input tables ≡ ok (tables', id)
      → IsBacked tables'
  enqueue-IsBacked en g input id tables tables' fresh v h =
      let (m, c, em, ec) = enqueue-jobs en g input id tables tables' h in
      let (attributes, webhook, ea, ew) = enqueue-marshal en g input id tables tables' h in
      let (rows, unique, ei) =
        enqueue-eq_ok en g input id tables tables' h m c attributes webhook em ec ea ew in
      let has = enqueue-has_job en g input id tables tables' h m c em ec in
      let a : SnapshotRow =
        stored_row en.codec (tenant g) en.now attributes webhook (new_snapshot id m c input) in
      record {
        backed = subst (All (λ r. queue.has_job r.cleanup_job_id tables'.jobs ≡ true)) (sym rows) (
            All-append (λ r. queue.has_job r.cleanup_job_id tables'.jobs ≡ true) tables.snapshots
              (a ∷ []) (still_backed m c tables.jobs tables'.jobs tables.snapshots has v.backed)
              (ground (arith, has c, ==_refl c), tt));
        apart = subst AreApart (sym rows) (
            AreApart-append tables.snapshots a v.apart
              (IsApart-from_new a tables.snapshots unique (fresh m c em ec)));
      }
