-- ===== src/Processing/Lookups.antt =====
-- What the reads of internal/message/processing_repository.go find.
use arandu_whatsapp.Authz.Security.{Security}
use arandu_whatsapp.Database.Sql.{find}
use arandu_whatsapp.Errors.{Error, err, errors_is, message_processing_snapshot_not_found, ok}
use arandu_whatsapp.Prelude.{List, String, arith, none, refl, some, true, ◌≡◌}
use arandu_whatsapp.Prelude.Text.{Text}
use arandu_whatsapp.Processing.{Codec, MessageSnapshot, ProcessingEngine, SnapshotRow}
use arandu_whatsapp.Processing.Repository.{
  find_job_ids, find_snapshot, load_snapshot, message_processing_tenant, snapshot_at,
}

-- A snapshot that was made of a row has the columns that are stored as they are.
abbrev pub IsLoaded : SnapshotRow → MessageSnapshot → Type 0
IsLoaded r s =
    (s.process_id ≡ r.process_id)
    × (s.message_job_id ≡ r.message_job_id)
    × (s.cleanup_job_id ≡ r.cleanup_job_id)
    × (s.instance_id ≡ r.instance_id)
    × (s.instance_name ≡ r.instance_name)
    × (s.message_id ≡ r.message_id)
    × (s.created_at ≡ r.created_at)

load_snapshot-IsLoaded :
    (codec : Codec) (r : SnapshotRow) (s : MessageSnapshot)
    → load_snapshot codec r ≡ some s
    → IsLoaded r s
unfolding load_snapshot
load_snapshot-IsLoaded codec r s h = ground arith

module _ (security : Security) where
  open security use {Grant, tenant}

  message_processing_tenant-eq_ok :
      (g : Grant) (t : String) → message_processing_tenant security g ≡ ok t → t ≡ tenant g
  unfolding message_processing_tenant
  message_processing_tenant-eq_ok g t h = ground arith

  pub find_snapshot-eq_ok :
      (en : ProcessingEngine) (g : Grant) (id : Text) (rows : List SnapshotRow)
      (s : MessageSnapshot)
      → find_snapshot security en g id rows ≡ ok s
      → (r : SnapshotRow) × (find (snapshot_at (tenant g) id) rows ≡ some r) × IsLoaded r s
  unfolding find_snapshot message_processing_tenant
  find_snapshot-eq_ok en g id rows s h =
      (elim (find (snapshot_at (tenant g) id) rows)
          as (λ o.
            find (snapshot_at (tenant g) id) rows ≡ o
            → (r : SnapshotRow) × (find (snapshot_at (tenant g) id) rows ≡ some r) × IsLoaded r s) [
              | none ↦ λ q. absurd (ground arith)
              | some r ↦ λ q. (r, q, load_snapshot-IsLoaded en.codec r s (ground arith))
            ])
        refl

  pub find_snapshot-not_found :
      (en : ProcessingEngine) (g : Grant) (id : Text) (rows : List SnapshotRow) (e : Error)
      → message_processing_tenant security g ≡ ok (tenant g)
      → find_snapshot security en g id rows ≡ err e
      → errors_is e message_processing_snapshot_not_found ≡ true
      → find (snapshot_at (tenant g) id) rows ≡ none
  unfolding find_snapshot errors_is
  find_snapshot-not_found en g id rows e h k z = ground arith

  pub find_job_ids-not_found :
      (en : ProcessingEngine) (g : Grant) (id : Text) (rows : List SnapshotRow) (e : Error)
      → message_processing_tenant security g ≡ ok (tenant g)
      → find_job_ids security en g id rows ≡ err e
      → errors_is e message_processing_snapshot_not_found ≡ true
      → find (snapshot_at (tenant g) id) rows ≡ none
  unfolding find_job_ids errors_is
  find_job_ids-not_found en g id rows e h k z = ground arith

  pub find_job_ids-eq_ok :
      (en : ProcessingEngine) (g : Grant) (id m c : Text) (rows : List SnapshotRow)
      → find_job_ids security en g id rows ≡ ok (m, c)
      → (s : SnapshotRow) × (find (snapshot_at (tenant g) id) rows ≡ some s)
        × (s.message_job_id ≡ m)
        × (s.cleanup_job_id ≡ c)
  unfolding find_job_ids message_processing_tenant
  find_job_ids-eq_ok en g id m c rows h =
      (elim (find (snapshot_at (tenant g) id) rows)
          as (λ o.
            find (snapshot_at (tenant g) id) rows ≡ o
            → (s : SnapshotRow) × (find (snapshot_at (tenant g) id) rows ≡ some s)
              × (s.message_job_id ≡ m)
              × (s.cleanup_job_id ≡ c)) [
                | none ↦ λ q. absurd (ground arith)
                | some s ↦ λ q. (s, q, ground arith, ground arith)
              ])
        refl
