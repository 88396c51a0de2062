-- ===== src/Processing/Keying.antt =====
-- Snapshots of internal/message/processor.go whose jobs have ids of their own.
use arandu_whatsapp.Database.Sql.{delete_rows, find, select}
use arandu_whatsapp.Policy.{Action-eq}
use arandu_whatsapp.Prelude.{
  ==_iff, All, All-append, Bool, List, List-eq, Option-eq, String-eq, [], arith, false, if-elim,
  if◌then◌else◌, not, refl, some, subst, true, ℕ-eq, ◌++◌, ◌==◌, ◌∷◌, ◌≡◌,
}
use arandu_whatsapp.Processing.{SnapshotRow}

-- The jobs of two snapshots are apart.
abbrev pub IsApart : SnapshotRow → SnapshotRow → Type 0
IsApart a b =
    ((a.cleanup_job_id == b.cleanup_job_id) ≡ false)
    × ((a.message_job_id == b.cleanup_job_id) ≡ false)
    × ((b.message_job_id == a.cleanup_job_id) ≡ false)

abbrev pub AreApart : List SnapshotRow → Type 0
AreApart [] = Unit
AreApart (r ∷ rows) = All (IsApart r) rows × AreApart rows

-- A snapshot whose jobs have other ids than the cleanup job of the second.
abbrev pub IsOther : SnapshotRow → SnapshotRow → Type 0
IsOther s r =
    ((s.message_job_id == r.cleanup_job_id) ≡ false)
    × ((s.cleanup_job_id == r.cleanup_job_id) ≡ false)

pub All-map :
    {A : Type 0} (P Q : A → Type 0)
    → ((a : A) → P a → Q a)
    → (rows : List A) → All P rows
    → All Q rows
All-map P Q f [] h = tt
All-map P Q f (a ∷ rows) h = (f a h.0, All-map P Q f rows h.1)

module _ {A : Type 0} (P : A → Type 0) where
  All-find : (p : A → Bool) (rows : List A) (a : A) → find p rows ≡ some a → All P rows → P a
  unfolding find
  All-find p [] a f h = absurd (ground arith)
  All-find p (x ∷ rows) a f h =
      (elim (p x) as (λ b. p x ≡ b → P a) [
        | true ↦ λ q. subst P (ground arith) h.0
        | false ↦ λ q. All-find p rows a (ground arith) h.1
      ])
        refl

  pub All-delete_rows : (p : A → Bool) (rows : List A) → All P rows → All P (delete_rows p rows)
  unfolding select
  All-delete_rows p [] h = tt
  All-delete_rows p (x ∷ rows) h =
      if-elim (All P) (not (p x)) (h.0, All-delete_rows p rows h.1) (All-delete_rows p rows h.1)

pub AreApart-delete_rows :
    (p : SnapshotRow → Bool) (rows : List SnapshotRow)
    → AreApart rows
    → AreApart (delete_rows p rows)
unfolding select
AreApart-delete_rows p [] h = tt
AreApart-delete_rows p (x ∷ rows) h =
    if-elim AreApart (not (p x))
      (All-delete_rows (IsApart x) p rows h.0, AreApart-delete_rows p rows h.1)
      (AreApart-delete_rows p rows h.1)

-- The first row of a SELECT is other than all rows that the SELECT leaves out.
pub find-IsOther :
    (p : SnapshotRow → Bool) (rows : List SnapshotRow) (s : SnapshotRow)
    → AreApart rows
    → find p rows ≡ some s
    → All (IsOther s) (delete_rows p rows)
unfolding find select
find-IsOther p [] s h f = tt
find-IsOther p (x ∷ rows) s h f =
    (elim (p x)
        as (λ b.
          p x ≡ b
          → All (IsOther s)
              (if not b then x ∷ select (λ r. not (p r)) rows else select (λ r. not (p r)) rows)) [
                | true ↦ λ q.
                    let same : x ≡ s = ground arith in
                    subst (λ y. All (IsOther y) (delete_rows p rows)) same
                      (All-delete_rows (IsOther x) p rows
                        (All-map (IsApart x) (IsOther x) (λ r a. (a.1, a.0)) rows h.0))
                | false ↦ λ q.
                    let a = All-find (IsApart x) p rows s (ground arith) h.0 in
                    (
                      (
                        a.2,
                        ground (
                          arith,
                          a.0,
                          ==_iff x.cleanup_job_id s.cleanup_job_id,
                          ==_iff s.cleanup_job_id x.cleanup_job_id,
                        ),
                      ),
                      find-IsOther p rows s h.1 (ground arith),
                    )
              ])
      refl

pub AreApart-append :
    (rows : List SnapshotRow) (a : SnapshotRow)
    → AreApart rows
    → All (λ r. IsApart r a) rows
    → AreApart (rows ++ a ∷ [])
AreApart-append [] a h k = (tt, tt)
AreApart-append (x ∷ rows) a h k =
    (All-append (IsApart x) rows (a ∷ []) h.0 (k.0, tt), AreApart-append rows a h.1 k.1)
