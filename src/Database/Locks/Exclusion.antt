-- ===== src/Database/Locks/Exclusion.antt =====
-- The lease of internal/database/repository/instance_repository.go as a lock between processes. The
-- owner is the repository's, so all requests of one process share it.
use mathlib.Core.Option
use arandu_whatsapp.Database.{Db, InstanceRow}
use arandu_whatsapp.Database.Inputs.{instance_at}
use arandu_whatsapp.Database.Locks.{
  acquirable, drop_lease, held_by, lapsed, lock_lease, release_of, take_lease, try_acquire_of,
}
use arandu_whatsapp.Database.Sql.{
  affected, affected-update, find, find-some, find-update_some, update,
}
use arandu_whatsapp.Errors.{ok}
use arandu_whatsapp.Policy.{Action-eq}
use arandu_whatsapp.Prelude.{
  ==_iff, Bool, List, List-eq, Option, Option-eq, String, String-eq, [], ap, arith, if◌then◌else◌,
  is_some, ltb, none, or_false, refl, some, true, ℕ, ℕ-eq, ◌+◌, ◌<◌, ◌==◌, ◌↔◌, ◌∙◌, ◌∷◌, ◌≡◌, ◌≤◌,
  ◌⊎◌,
}

-- The primary key of whatsapp_instances.
pub record HasKeys (rows : List InstanceRow) : Type 0 where
  pub keyed : (t : String) (i : ℕ) → affected (instance_at t i) rows ≤ 1

-- The owner column of a lease on a row, if the lease has not lapsed.
abbrev pub lease_of : ℕ → Option InstanceRow → Option (Option String)
lease_of now none = none
lease_of now (some r) =
    if lapsed now r.connection_lock_until then none else some r.connection_lock_owner

unfoldable pub lease : ℕ → String → ℕ → Db → Option (Option String)
lease now t i db = lease_of now (find (instance_at t i) db.instances)

affected-le :
    (owner : String) (now : ℕ) (t : String) (i : ℕ) (rows : List InstanceRow)
    → affected (acquirable t i owner now) rows ≤ affected (instance_at t i) rows
unfolding affected
affected-le owner now t i [] = omega arith
affected-le owner now t i (r ∷ rows) = ground (arith, affected-le owner now t i rows)

-- Taking the lease, seen from the row of the instance.
pub find-take_lease :
    (owner : String) (now : ℕ) (t : String) (i : ℕ) (rows : List InstanceRow)
    → find (instance_at t i) (update (acquirable t i owner now) (take_lease owner now) rows)
      ≡ Option.map
          (λ r. if acquirable t i owner now r then take_lease owner now r else r)
          (find (instance_at t i) rows)
find-take_lease owner now t i rows =
    find-update_some (instance_at t i) (acquirable t i owner now) (take_lease owner now) rows
      (λ r. refl)

affected-acquirable :
    (owner : String) (now : ℕ) (t : String) (i : ℕ) (rows : List InstanceRow)
    → affected (instance_at t i) rows ≤ 1
    → ltb 0 (affected (acquirable t i owner now) rows)
      ≡ or_false (Option.map (acquirable t i owner now) (find (instance_at t i) rows))
unfolding find affected
affected-acquirable owner now t i [] h = refl
affected-acquirable owner now t i (r ∷ rows) h =
    ground (arith, affected-acquirable owner now t i rows, affected-le owner now t i rows)

acquirable_row :
    (owner : String) (now : ℕ) (t : String) (i : ℕ) (o : Option InstanceRow)
    → ((r : InstanceRow) → o ≡ some r → instance_at t i r ≡ true)
    → (or_false (Option.map (acquirable t i owner now) o) ≡ true)
      ↔ ((is_some o ≡ true) × ((lease_of now o ≡ none) ⊎ (lease_of now o ≡ some (some owner))))
acquirable_row owner now t i none h = ground arith
acquirable_row owner now t i (some r) h =
    ground (arith, h r refl, ==_iff r.connection_lock_owner (some owner))

-- The body of TryAcquireConnectionLock, by the lease.
pub try_acquire_of_iff :
    (now : ℕ) (owner t : String) (i : ℕ) (db : Db)
    → HasKeys db.instances
    → ((try_acquire_of none now owner (some i) t db).1 ≡ ok true) ↔ (
        (is_some (find (instance_at t i) db.instances) ≡ true)
        × ((lease now t i db ≡ none) ⊎ (lease now t i db ≡ some (some owner))))
unfolding try_acquire_of lease
try_acquire_of_iff now owner t i db v = ground (
  arith,
  affected-acquirable owner now t i db.instances (v.keyed t i),
  acquirable_row owner now t i (find (instance_at t i) db.instances)
      (λ r e. find-some (instance_at t i) db.instances r e),
)

taken_row :
    (owner : String) (now later : ℕ) (t : String) (i : ℕ) (o : Option InstanceRow)
    → or_false (Option.map (acquirable t i owner now) o) ≡ true
    → later < now + lock_lease
    → lease_of later
        (Option.map (λ r. if acquirable t i owner now r then take_lease owner now r else r) o)
      ≡ some (some owner)
taken_row owner now later t i none h k = cc
taken_row owner now later t i (some r) h k = ground arith

-- The process that gets the lock holds it for two minutes.
pub lease-try_acquire :
    (now later : ℕ) (owner t : String) (i : ℕ) (db : Db)
    → HasKeys db.instances
    → (try_acquire_of none now owner (some i) t db).1 ≡ ok true
    → later < now + lock_lease
    → lease later t i (try_acquire_of none now owner (some i) t db).0 ≡ some (some owner)
unfolding try_acquire_of lease
lease-try_acquire now later owner t i db v won soon =
    ap (lease_of later) (find-take_lease owner now t i db.instances)
    ∙ taken_row owner now later t i (find (instance_at t i) db.instances)
        (ground (arith, affected-acquirable owner now t i db.instances (v.keyed t i))) soon

pub HasKeys-update :
    (p : InstanceRow → Bool) (f : InstanceRow → InstanceRow) (rows : List InstanceRow)
    → ((t : String) (i : ℕ) (r : InstanceRow) → instance_at t i (f r) ≡ instance_at t i r)
    → HasKeys rows
    → HasKeys (update p f rows)
HasKeys-update p f rows h v = record {
  keyed = λ t i. omega (arith, v.keyed t i, affected-update (instance_at t i) p f rows (h t i));
}

-- Dropping the lease, seen from the row of the instance.
find-drop_lease :
    (owner : String) (t : String) (i : ℕ) (rows : List InstanceRow)
    → find (instance_at t i) (update (held_by t i owner) drop_lease rows)
      ≡ Option.map
          (λ r. if held_by t i owner r then drop_lease r else r)
          (find (instance_at t i) rows)
find-drop_lease owner t i rows =
    find-update_some (instance_at t i) (held_by t i owner) drop_lease rows (λ r. refl)

dropped_row :
    (owner : String) (now : ℕ) (t : String) (i : ℕ) (o : Option InstanceRow)
    → ((r : InstanceRow) → o ≡ some r → instance_at t i r ≡ true)
    → lease_of now (Option.map (λ r. if held_by t i owner r then drop_lease r else r) o)
      ≡ (if lease_of now o == some (some owner) then none else lease_of now o)
dropped_row owner now t i none h = ground arith
dropped_row owner now t i (some r) h = ground (arith, h r refl)

-- A release ends the lease of its own process, and leaves that of any other process as it is.
pub lease-release :
    (now : ℕ) (owner t : String) (i : ℕ) (db : Db)
    → lease now t i (release_of none owner (some i) t db).0
      ≡ (if lease now t i db == some (some owner) then none else lease now t i db)
unfolding release_of lease
lease-release now owner t i db =
    ap (lease_of now) (find-drop_lease owner t i db.instances)
    ∙ dropped_row owner now t i (find (instance_at t i) db.instances)
        (λ r e. find-some (instance_at t i) db.instances r e)
