-- ===== src/Database/Locks/Schedule.antt =====
-- The exported operations TryAcquireConnectionLock and ReleaseConnectionLock of
-- internal/database/repository/instance_repository.go, as requests of several processes one after the
-- other.
use mathlib.Core.Option
use arandu_whatsapp.Authz.Checks.{check_connection_lock, tenant_from_grant}
use arandu_whatsapp.Authz.Security.{Security}
use arandu_whatsapp.Database.{Db, InstanceRow}
use arandu_whatsapp.Database.Inputs.{instance_at}
use arandu_whatsapp.Database.Locks.{
  acquirable, drop_lease, held_by, lock_lease, release_connection_lock, take_lease,
  try_acquire_connection_lock, try_acquire_of,
}
use arandu_whatsapp.Database.Locks.Acquisition.{MayTake-leased, acquired-eq, try_acquire_iff}
use arandu_whatsapp.Database.Locks.Exclusion.{
  HasKeys, HasKeys-update, lease, lease-try_acquire, lease_of,
}
use arandu_whatsapp.Database.Sql.{find, find-some, find-update_some, update}
use arandu_whatsapp.Errors.{Error, ok}
use arandu_whatsapp.Policy.{Action-eq}
use arandu_whatsapp.Prelude.{
  ==_iff, All, List, List-eq, Option, Option-eq, String, String-eq, [], ap, arith, false,
  if◌then◌else◌, none, refl, some, subst, sym, true, ℕ, ℕ-eq, ◌+◌, ◌<◌, ◌==◌, ◌∙◌, ◌∷◌, ◌≡◌, ◌≢◌,
  ◌≤◌, ◌⊎◌,
}

-- A request of a process on a lock, with the fault of its statement, the time, and the lock owner.
pub data LockOp (Grant : Type 0) : Type 0 where
  acquiring : Option Error → ℕ → String → Grant → Option ℕ → LockOp Grant
  releasing : Option Error → String → Grant → Option ℕ → LockOp Grant

-- The requests while a process keeps the lock of instance i: they come in this time, and the process
-- does not release the lock of this instance.
abbrev pub IsWithin : {Grant : Type 0} → ℕ → ℕ → String → ℕ → LockOp Grant → Type 0
IsWithin now later owner i (acquiring fault t o g id) = (now ≤ t) × (t ≤ later)
IsWithin now later owner i (releasing fault o g id) = (o ≢ owner) ⊎ (id ≢ some i)

-- A lease that lasts until `later` is not another's before.
taken_by_others :
    (now t later : ℕ) (owner o u : String) (j : ℕ) (row : Option InstanceRow)
    → lease_of later row ≡ some (some owner)
    → now ≤ t
    → t ≤ later
    → later < now + lock_lease
    → lease_of later (Option.map (λ r. if acquirable u j o t r then take_lease o t r else r) row)
      ≡ some (some owner)
taken_by_others now t later owner o u j none h a b c = cc
taken_by_others now t later owner o u j (some r) h a b c =
    ground (arith, ==_iff r.connection_lock_owner (some o))

dropped_by_others :
    (later : ℕ) (owner o t u : String) (i j : ℕ) (row : Option InstanceRow)
    → ((r : InstanceRow) → row ≡ some r → instance_at t i r ≡ true)
    → lease_of later row ≡ some (some owner)
    → (o ≢ owner) ⊎ (j ≢ i)
    → lease_of later (Option.map (λ r. if held_by u j o r then drop_lease r else r) row)
      ≡ some (some owner)
dropped_by_others later owner o t u i j none f h k = cc
dropped_by_others later owner o t u i j (some r) f h k =
    ground (arith, f r refl, ==_iff r.connection_lock_owner (some o), ==_iff r.id i, ==_iff r.id j)

pub HasKeys-take_lease :
    (owner t : String) (i now : ℕ) (rows : List InstanceRow)
    → HasKeys rows
    → HasKeys (update (acquirable t i owner now) (take_lease owner now) rows)
HasKeys-take_lease owner t i now rows v =
    HasKeys-update (acquirable t i owner now) (take_lease owner now) rows (λ u j r. refl) v

pub HasKeys-drop_lease :
    (owner t : String) (i : ℕ) (rows : List InstanceRow)
    → HasKeys rows
    → HasKeys (update (held_by t i owner) drop_lease rows)
HasKeys-drop_lease owner t i rows v =
    HasKeys-update (held_by t i owner) drop_lease rows (λ u j r. refl) v

-- A process holds the lease of an instance until `later` at least.
pub record IsHeld (later : ℕ) (owner t : String) (i : ℕ) (rows : List InstanceRow) : Type 0 where
  pub keys : HasKeys rows
  pub holder : lease_of later (find (instance_at t i) rows) ≡ some (some owner)

module _ (security : Security) where
  open security use {Grant, tenant}

  unfoldable pub lock_step : LockOp Grant → Db → Db
  unfolding try_acquire_connection_lock release_connection_lock
  lock_step (acquiring fault now owner g id) db =
      (try_acquire_connection_lock security fault now owner g id db).0
  lock_step (releasing fault owner g id) db =
      (release_connection_lock security fault owner g id db).0

  unfoldable pub run_locks : List (LockOp Grant) → Db → Db
  unfolding lock_step
  run_locks [] db = db
  run_locks (op ∷ ops) db = run_locks ops (lock_step op db)

  acquiring-rows :
      (fault : Option Error) (now : ℕ) (owner : String) (g : Grant) (id : Option ℕ) (db : Db)
      (P : List InstanceRow → Type 0)
      → P db.instances
      → ((i : ℕ)
          → P (update (acquirable (tenant g) i owner now) (take_lease owner now) db.instances))
      → P (try_acquire_connection_lock security fault now owner g id db).0.instances
  unfolding try_acquire_connection_lock tenant_from_grant
  acquiring-rows fault now owner g none db P h k = subst P (ground arith) h
  acquiring-rows (some e) now owner g (some i) db P h k = subst P (ground arith) h
  acquiring-rows none now owner g (some i) db P h k =
      (elim (check_connection_lock security g)
          as (λ c.
            check_connection_lock security g ≡ c
            → P (try_acquire_connection_lock security none now owner g (some i) db).0.instances) [
              | some e ↦ λ q. subst P (ground arith) h
              | none ↦ λ q.
                  (elim (tenant g == "")
                      as (λ b.
                        (tenant g == "") ≡ b
                        → P
                            (try_acquire_connection_lock security none now owner g (some i)
                              db).0.instances) [
                                | true ↦ λ z. subst P (ground arith) h
                                | false ↦ λ z. subst P (ground arith) (k i)
                              ])
                    refl
            ])
        refl

  releasing-rows :
      (fault : Option Error) (owner : String) (g : Grant) (i : ℕ) (db : Db)
      (P : List InstanceRow → Type 0)
      → P db.instances
      → P (update (held_by (tenant g) i owner) drop_lease db.instances)
      → P (release_connection_lock security fault owner g (some i) db).0.instances
  unfolding release_connection_lock tenant_from_grant
  releasing-rows (some e) owner g i db P h k = subst P (ground arith) h
  releasing-rows none owner g i db P h k =
      (elim (check_connection_lock security g)
          as (λ c.
            check_connection_lock security g ≡ c
            → P (release_connection_lock security none owner g (some i) db).0.instances) [
              | some e ↦ λ q. subst P (ground arith) h
              | none ↦ λ q.
                  (elim (tenant g == "")
                      as (λ b.
                        (tenant g == "") ≡ b
                        → P
                            (release_connection_lock security none owner g (some i)
                              db).0.instances) [
                                | true ↦ λ z. subst P (ground arith) h
                                | false ↦ λ z. subst P (ground arith) k
                              ])
                    refl
            ])
        refl

  lock_step-IsHeld :
      (now later : ℕ) (owner t : String) (i : ℕ) (op : LockOp Grant) (db : Db)
      → later < now + lock_lease
      → IsWithin now later owner i op
      → IsHeld later owner t i db.instances
      → IsHeld later owner t i (lock_step op db).instances
  unfolding lock_step
  lock_step-IsHeld now later owner t i (acquiring fault at o g id) db soon w v =
      acquiring-rows fault at o g id db (IsHeld later owner t i) v (λ j. record {
        keys = HasKeys-take_lease o (tenant g) j at db.instances v.keys;
        holder =
            ap (lease_of later) (
              find-update_some (instance_at t i) (acquirable (tenant g) j o at) (take_lease o at)
                db.instances (λ r. refl))
            ∙ taken_by_others now at later owner o (tenant g) j
                (find (instance_at t i) db.instances) v.holder w.0 w.1 soon;
      })
  lock_step-IsHeld now later owner t i (releasing fault o g none) db soon w v =
      subst (IsHeld later owner t i) {x = db.instances}
        (unfold release_connection_lock tenant_from_grant in ground arith) v
  lock_step-IsHeld now later owner t i (releasing fault o g (some j)) db soon w v =
      releasing-rows fault o g j db (IsHeld later owner t i) v (record {
        keys = HasKeys-drop_lease o (tenant g) j db.instances v.keys;
        holder =
            ap (lease_of later) (
              find-update_some (instance_at t i) (held_by (tenant g) j o) drop_lease db.instances
                (λ r. refl))
            ∙ dropped_by_others later owner o t (tenant g) i j (find (instance_at t i) db.instances)
                (λ r e. find-some (instance_at t i) db.instances r e) v.holder (ground arith);
      })

  run_locks-IsHeld :
      (now later : ℕ) (owner t : String) (i : ℕ) (ops : List (LockOp Grant)) (db : Db)
      → later < now + lock_lease
      → All (IsWithin now later owner i) ops
      → IsHeld later owner t i db.instances
      → IsHeld later owner t i (run_locks ops db).instances
  unfolding run_locks
  run_locks-IsHeld now later owner t i [] db soon w v = v
  run_locks-IsHeld now later owner t i (op ∷ ops) db soon w v =
      run_locks-IsHeld now later owner t i ops (lock_step op db) soon w.1
        (lock_step-IsHeld now later owner t i op db soon w.0 v)

  -- Mutual exclusion between processes: once a process has got the lock of an instance, no other
  -- process gets it in the two minutes that follow, whatever requests on locks, of any process, tenant
  -- and instance, come between, if the process does not release the lock of this instance before; the
  -- requests come in the order of time, and the keys of the instance table are unique.
  pub acquire_excludes :
      (fault fault' : Option Error) (now later : ℕ) (owner rival : String) (g g' : Grant) (i : ℕ)
      (ops : List (LockOp Grant)) (db : Db)
      → HasKeys db.instances
      → owner ≢ rival
      → tenant g' ≡ tenant g
      → (try_acquire_connection_lock security fault now owner g (some i) db).1 ≡ ok true
      → All (IsWithin now later owner i) ops
      → later < now + 120_000_000_000
      → (try_acquire_connection_lock security fault' later rival g'
          (some i)
          (run_locks ops (try_acquire_connection_lock security fault now owner g (some i) db).0)).1
        ≢ ok true
  acquire_excludes fault fault' now later owner rival g g' i ops db v differ same won w soon again =
      let (c, t, f, e) = acquired-eq security fault now owner g i db won in
      let first = (try_acquire_connection_lock security fault now owner g (some i) db).0 in
      let held : IsHeld later owner (tenant g) i first.instances =
        subst (λ (d : Db). IsHeld later owner (tenant g) i d.instances) (ap (λ x. x.0) (sym e))
          (record {
            keys =
                unfold try_acquire_of in HasKeys-take_lease owner (tenant g) i now db.instances v;
            holder =
                unfold lease in
                lease-try_acquire now later owner (tenant g) i db v (ground (arith, e, won)) soon;
          }) in
      let last = run_locks-IsHeld now later owner (tenant g) i ops first soon w held in
      let (c', t', f', m) =
        (try_acquire_iff security fault' later rival g' i (run_locks ops first) last.keys).0
          again in
      let (there, free) =
        MayTake-leased later rival
          (find (instance_at (tenant g') i) (run_locks ops first).instances) m in
      ground (arith, last.holder, same, free)
