-- ===== src/Processing/Laws.antt =====
-- What internal/message/processor.go guarantees of the snapshots and their jobs.
use arandu_whatsapp.Authz.Security.{Security}
use arandu_whatsapp.Database.{Db}
use arandu_whatsapp.Errors.{Result, err, ok}
use arandu_whatsapp.Prelude.{Bool, List, Option, [], arith, none, refl, some, ℕ, ◌∷◌, ◌≡◌}
use arandu_whatsapp.Prelude.Text.{Text, Unicode}
use arandu_whatsapp.Processing.{Job, PreparedMentionAllJob, ProcessingEngine, Queue, Tables}
use arandu_whatsapp.Processing.Backing.{IsBacked, IsFresh, Outcome-IsBacked, enqueue-IsBacked}
use arandu_whatsapp.Processing.Ending.{Outcome, clean_process-Outcome, handle_process-Outcome}
use arandu_whatsapp.Processing.Execution.{Answers}
use arandu_whatsapp.Processing.Processor.{
  committed, enqueue, handle, handle_cleanup, handle_cleanup_of, handle_of, opening,
}
use arandu_whatsapp.Processing.Repository.{message_processing_tenant}

module _ (security : Security) (unicode : Unicode) (json_valid : Text → Bool) (queue : Queue)
    (retention : ℕ) where
  open security use {Grant, tenant}

  pub opening-eq_ok :
      (g : Grant) (job : Option Job) (j : Job) (id : Text)
      → opening security unicode json_valid queue retention g job ≡ ok (j, id)
      → message_processing_tenant security g ≡ ok (tenant g)
  unfolding opening message_processing_tenant
  opening-eq_ok g none j id h = absurd (ground arith)
  opening-eq_ok g (some job) j id h = ground arith

  -- The operations of the processor, with what the database and WhatsApp answer in each.
  pub data ProcessorOp : Type 0 where
    enqueueing : ProcessingEngine → Grant → PreparedMentionAllJob → ProcessorOp
    handling : ProcessingEngine → Answers → Grant → Option Job → Db → ProcessorOp
    cleaning : ProcessingEngine → Grant → Option Job → ProcessorOp

  -- What enqueue leaves.
  abbrev enqueued : Result (Tables queue × Text) → Tables queue → Tables queue
  enqueued (ok r) tables = r.0
  enqueued (err e) tables = tables

  unfoldable pub apply_op : ProcessorOp → Tables queue → Tables queue
  unfolding enqueue handle handle_cleanup
  apply_op (enqueueing en g input) tables =
      enqueued (enqueue security unicode json_valid queue retention en g input tables) tables
  apply_op (handling en a g job db) tables =
      (handle security unicode json_valid queue retention en a g job db tables).0
  apply_op (cleaning en g job) tables =
      (handle_cleanup security unicode json_valid queue retention en g job tables).0

  unfoldable pub apply_all : List ProcessorOp → Tables queue → Tables queue
  unfolding apply_op
  apply_all [] tables = tables
  apply_all (op ∷ ops) tables = apply_all ops (apply_op op tables)

  -- The ids that jobs.New gives out are new when they are given out.
  abbrev pub IsFreshFor : ProcessorOp → Tables queue → Type 0
  IsFreshFor (enqueueing en g input) tables =
      IsFresh security unicode json_valid queue retention en tables.snapshots
  IsFreshFor _ tables = Unit

  abbrev pub AllFresh : List ProcessorOp → Tables queue → Type 0
  AllFresh [] tables = Unit
  AllFresh (op ∷ ops) tables = IsFreshFor op tables × AllFresh ops (apply_op op tables)

  pub handle_of-Outcome :
      (en : ProcessingEngine) (a : Answers) (g : Grant) (job : Option Job) (j : Job) (id : Text)
      (db : Db) (tables tables' : Tables queue)
      → opening security unicode json_valid queue retention g job ≡ ok (j, id)
      → (handle_of security unicode json_valid queue retention en a g job db tables).1 ≡ ok tables'
      → Outcome security unicode json_valid queue retention g id tables tables'
  unfolding handle_of
  handle_of-Outcome en a g job j id db tables tables' o h =
      handle_process-Outcome security unicode json_valid queue retention en a g j id db tables
        tables' (opening-eq_ok g job j id o) (ground arith)

  pub handle_cleanup_of-Outcome :
      (en : ProcessingEngine) (g : Grant) (job : Option Job) (j : Job) (id : Text)
      (tables tables' : Tables queue)
      → opening security unicode json_valid queue retention g job ≡ ok (j, id)
      → handle_cleanup_of security unicode json_valid queue retention en g job tables ≡ ok tables'
      → Outcome security unicode json_valid queue retention g id tables tables'
  unfolding handle_cleanup_of
  handle_cleanup_of-Outcome en g job j id tables tables' o h =
      clean_process-Outcome security unicode json_valid queue retention en g id tables tables'
        (opening-eq_ok g job j id o) (ground arith)

  -- A handler that opens has a job and a process id.
  committed-keeps :
      (P : Tables queue → Type 0) (r : Result (Tables queue)) (tables : Tables queue)
      → P tables
      → ((tables' : Tables queue) → r ≡ ok tables' → P tables')
      → P (committed security unicode json_valid queue retention r tables).0
  committed-keeps P (ok tables') tables p f = f tables' refl
  committed-keeps P (err e) tables p f = p

  handle-IsBacked :
      (en : ProcessingEngine) (a : Answers) (g : Grant) (job : Option Job) (db : Db)
      (tables tables' : Tables queue)
      → IsBacked security unicode json_valid queue retention tables
      → (handle_of security unicode json_valid queue retention en a g job db tables).1 ≡ ok tables'
      → IsBacked security unicode json_valid queue retention tables'
  unfolding handle_of
  handle-IsBacked en a g job db tables tables' v h =
      (elim (opening security unicode json_valid queue retention g job)
          as (λ r.
            opening security unicode json_valid queue retention g job ≡ r
            → IsBacked security unicode json_valid queue retention tables') [
              | err e ↦ λ q. absurd (ground arith)
              | ok (j, id) ↦ λ q.
                  Outcome-IsBacked security unicode json_valid queue retention g id tables tables'
                    (handle_of-Outcome en a g job j id db tables tables' q h) v
            ])
        refl

  handle_cleanup-IsBacked :
      (en : ProcessingEngine) (g : Grant) (job : Option Job) (tables tables' : Tables queue)
      → IsBacked security unicode json_valid queue retention tables
      → handle_cleanup_of security unicode json_valid queue retention en g job tables ≡ ok tables'
      → IsBacked security unicode json_valid queue retention tables'
  unfolding handle_cleanup_of
  handle_cleanup-IsBacked en g job tables tables' v h =
      (elim (opening security unicode json_valid queue retention g job)
          as (λ r.
            opening security unicode json_valid queue retention g job ≡ r
            → IsBacked security unicode json_valid queue retention tables') [
              | err e ↦ λ q. absurd (ground arith)
              | ok (j, id) ↦ λ q.
                  Outcome-IsBacked security unicode json_valid queue retention g id tables tables'
                    (handle_cleanup_of-Outcome en g job j id tables tables' q h) v
            ])
        refl

  apply_op-IsBacked :
      (op : ProcessorOp) (tables : Tables queue)
      → IsFreshFor op tables
      → IsBacked security unicode json_valid queue retention tables
      → IsBacked security unicode json_valid queue retention (apply_op op tables)
  unfolding apply_op handle handle_cleanup
  apply_op-IsBacked (enqueueing en g input) tables f v =
      (elim (enqueue security unicode json_valid queue retention en g input tables)
          as (λ r.
            enqueue security unicode json_valid queue retention en g input tables ≡ r
            → IsBacked security unicode json_valid queue retention (enqueued r tables)) [
              | err e ↦ λ q. v
              | ok (tables', id) ↦ λ q.
                  enqueue-IsBacked security unicode json_valid queue retention en g input id tables
                    tables' f v q
            ])
        refl
  apply_op-IsBacked (handling en a g job db) tables f v =
      committed-keeps (IsBacked security unicode json_valid queue retention)
        (handle_of security unicode json_valid queue retention en a g job db tables).1 tables v
        (λ tables' h. handle-IsBacked en a g job db tables tables' v h)
  apply_op-IsBacked (cleaning en g job) tables f v =
      committed-keeps (IsBacked security unicode json_valid queue retention)
        (handle_cleanup_of security unicode json_valid queue retention en g job tables) tables v
        (λ tables' h. handle_cleanup-IsBacked en g job tables tables' v h)

  -- No snapshot is forgotten: after any operations, whichever call of them fails, the cleanup job of each
  -- stored snapshot is in the queue, if that holds before and the ids of new jobs are new.
  pub apply_all-IsBacked :
      (ops : List ProcessorOp) (tables : Tables queue)
      → AllFresh ops tables
      → IsBacked security unicode json_valid queue retention tables
      → IsBacked security unicode json_valid queue retention (apply_all ops tables)
  unfolding apply_all
  apply_all-IsBacked [] tables f v = v
  apply_all-IsBacked (op ∷ ops) tables f v =
      apply_all-IsBacked ops (apply_op op tables) f.1 (apply_op-IsBacked op tables f.0 v)
