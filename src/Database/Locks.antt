-- ===== src/Database/Locks.antt =====
-- The connection lock of internal/database/repository/instance_repository.go, a lease on the row of
-- the instance: TryAcquireConnectionLock and ReleaseConnectionLock.
pub mod Exclusion
pub mod Reentrance
pub mod Acquisition
pub mod Schedule
use arandu_whatsapp.Authz.Checks.{check_connection_lock, tenant_from_grant}
use arandu_whatsapp.Authz.Security.{Security}
use arandu_whatsapp.Database.{Db, InstanceRow}
use arandu_whatsapp.Database.Inputs.{instance_at}
use arandu_whatsapp.Database.Sql.{affected, update}
use arandu_whatsapp.Errors.{Error, Result, err, fail, invalid_input, ok, sentinel}
use arandu_whatsapp.Policy.{Action-eq}
use arandu_whatsapp.Prelude.{
  Bool, List-eq, Option, Option-eq, String, String-eq, leb, ltb, none, some, true, ℕ, ℕ-eq, ◌&&◌,
  ◌+◌, ◌==◌, ◌||◌,
}

-- Two minutes, in nanoseconds.
abbrev pub lock_lease : ℕ
lock_lease = 120_000_000_000

-- connection_lock_until IS NULL OR connection_lock_until <= now
abbrev pub lapsed : ℕ → Option ℕ → Bool
lapsed now none = true
lapsed now (some deadline) = leb deadline now

-- WHERE tenant_id = t AND id = i AND (the lease has lapsed OR connection_lock_owner = owner)
abbrev pub acquirable : String → ℕ → String → ℕ → InstanceRow → Bool
acquirable t i owner now r =
    instance_at t i r
    && (lapsed now r.connection_lock_until || r.connection_lock_owner == some owner)

abbrev pub take_lease : String → ℕ → InstanceRow → InstanceRow
take_lease owner now r = record r {
  connection_lock_owner = some owner;
  connection_lock_until = some (now + lock_lease);
}

-- WHERE tenant_id = t AND id = i AND connection_lock_owner = owner
abbrev pub held_by : String → ℕ → String → InstanceRow → Bool
held_by t i owner r = instance_at t i r && r.connection_lock_owner == some owner

abbrev pub drop_lease : InstanceRow → InstanceRow
drop_lease r = record r { connection_lock_owner = none; connection_lock_until = none }

-- The body of TryAcquireConnectionLock: it answers whether a row was affected.
unfoldable pub try_acquire_of :
    Option Error → ℕ → String → Option ℕ → String → Db → Db × Result Bool
try_acquire_of fault now owner none t db = (db, fail invalid_input)
try_acquire_of none now owner (some i) t db = (
  record db { instances = update (acquirable t i owner now) (take_lease owner now) db.instances },
  ok (ltb 0 (affected (acquirable t i owner now) db.instances)),
)
try_acquire_of (some e) now owner (some i) t db = (db, err e)

-- The body of ReleaseConnectionLock.
unfoldable pub release_of : Option Error → String → Option ℕ → String → Db → Db × Option Error
release_of fault owner none t db = (db, some (sentinel invalid_input))
release_of none owner (some i) t db =
    (record db { instances = update (held_by t i owner) drop_lease db.instances }, none)
release_of (some e) owner (some i) t db = (db, some e)

module _ (security : Security) where
  open security use {Grant}

  -- `owner` is the lockOwner of the repository, one for each process; `id` is what
  -- strconv.ParseInt makes of the raw identifier.
  unfoldable pub try_acquire_connection_lock :
      Option Error → ℕ → String → Grant → Option ℕ → Db → Db × Result Bool
  unfolding try_acquire_of
  try_acquire_connection_lock fault now owner g id db = elim (check_connection_lock security g) [
    | some e ↦ (db, err e)
    | none ↦ elim (tenant_from_grant security g) [
      | err e ↦ (db, err e)
      | ok t ↦ try_acquire_of fault now owner id t db
    ]
  ]

  unfoldable pub release_connection_lock :
      Option Error → String → Grant → Option ℕ → Db → Db × Option Error
  unfolding release_of
  release_connection_lock fault owner g id db = elim (check_connection_lock security g) [
    | some e ↦ (db, some e)
    | none ↦ elim (tenant_from_grant security g) [
      | err e ↦ (db, some e)
      | ok t ↦ release_of fault owner id t db
    ]
  ]
