-- ===== src/Database/Locks/Acquisition.antt =====
-- When TryAcquireConnectionLock of internal/database/repository/instance_repository.go gets the lock.
use arandu_whatsapp.Authz.Checks.{check_connection_lock, tenant_from_grant}
use arandu_whatsapp.Authz.Security.{Security}
use arandu_whatsapp.Database.{Db, InstanceRow}
use arandu_whatsapp.Database.Inputs.{instance_at}
use arandu_whatsapp.Database.Locks.{lapsed, try_acquire_connection_lock, try_acquire_of}
use arandu_whatsapp.Database.Locks.Exclusion.{HasKeys, lease, lease_of, try_acquire_of_iff}
use arandu_whatsapp.Database.Sql.{find}
use arandu_whatsapp.Errors.{Error, ok}
use arandu_whatsapp.Policy.{Action-eq}
use arandu_whatsapp.Prelude.{
  ==_iff, List-eq, Option, Option-eq, String, String-eq, arith, false, inl, inr, is_some, none,
  refl, some, true, ℕ, ℕ-eq, ◌↔◌, ◌≡◌, ◌≢◌, ◌≤◌, ◌⊎◌,
}

-- A deadline that has been reached.
abbrev pub HasLapsed : ℕ → Option ℕ → Type 0
HasLapsed now none = Unit
HasLapsed now (some deadline) = deadline ≤ now

-- A row whose lease is nobody's, over, or the process's own.
abbrev pub MayTake : ℕ → String → Option InstanceRow → Type 0
MayTake now owner o =
    (r : InstanceRow) × (o ≡ some r)
    × (HasLapsed now r.connection_lock_until ⊎ (r.connection_lock_owner ≡ some owner))

lapsed_iff : (now : ℕ) (deadline : Option ℕ) → (lapsed now deadline ≡ true) ↔ HasLapsed now deadline
lapsed_iff now none = (λ h. tt, λ h. refl)
lapsed_iff now (some deadline) = ground arith

leased-MayTake :
    (now : ℕ) (owner : String) (o : Option InstanceRow)
    → is_some o ≡ true
    → (lease_of now o ≡ none) ⊎ (lease_of now o ≡ some (some owner))
    → MayTake now owner o
leased-MayTake now owner none h k = absurd (ground arith)
leased-MayTake now owner (some r) h k = (
  r,
  refl,
  (elim (lapsed now r.connection_lock_until)
        as (λ b.
          lapsed now r.connection_lock_until ≡ b
          → HasLapsed now r.connection_lock_until ⊎ (r.connection_lock_owner ≡ some owner)) [
            | true ↦ λ e. inl ((lapsed_iff now r.connection_lock_until).0 e)
            | false ↦ λ e. inr (ground arith)
          ])
      refl,
)

pub MayTake-leased :
    (now : ℕ) (owner : String) (o : Option InstanceRow)
    → MayTake now owner o
    → (is_some o ≡ true) × ((lease_of now o ≡ none) ⊎ (lease_of now o ≡ some (some owner)))
MayTake-leased now owner o (r, e, inl over) =
    ground (arith, e, (lapsed_iff now r.connection_lock_until).1 over)
MayTake-leased now owner o (r, e, inr own) = ground (arith, e, own)

module _ (security : Security) where
  open security use {Grant, tenant}

  -- What an acquisition that succeeds has passed, and what it has run.
  pub acquired-eq :
      (fault : Option Error) (now : ℕ) (owner : String) (g : Grant) (i : ℕ) (db : Db)
      → (try_acquire_connection_lock security fault now owner g (some i) db).1 ≡ ok true
      → (check_connection_lock security g ≡ none)
        × (tenant g ≢ "")
        × (fault ≡ none)
        × (try_acquire_connection_lock security fault now owner g (some i) db
            ≡ try_acquire_of none now owner (some i) (tenant g) db)
  unfolding try_acquire_connection_lock tenant_from_grant
  acquired-eq none now owner g i db h = ground (arith, ==_iff (tenant g) "")
  acquired-eq (some e) now owner g i db h = absurd (ground arith)

  acquires :
      (now : ℕ) (owner : String) (g : Grant) (i : ℕ) (db : Db)
      → check_connection_lock security g ≡ none
      → tenant g ≢ ""
      → try_acquire_connection_lock security none now owner g (some i) db
        ≡ try_acquire_of none now owner (some i) (tenant g) db
  unfolding try_acquire_connection_lock tenant_from_grant
  acquires now owner g i db c t = ground (arith, ==_iff (tenant g) "")

  -- A process gets the lock of an instance exactly when its Grant is for the lock and names a tenant,
  -- the statement does not fail, and the instance exists with a lease that is nobody's, has reached its
  -- deadline, or is the process's own, where the keys of the instance table are unique.
  pub try_acquire_iff :
      (fault : Option Error) (now : ℕ) (owner : String) (g : Grant) (i : ℕ) (db : Db)
      → HasKeys db.instances
      → ((try_acquire_connection_lock security fault now owner g (some i) db).1 ≡ ok true) ↔ (
          (check_connection_lock security g ≡ none)
          × (tenant g ≢ "")
          × (fault ≡ none)
          × MayTake now owner (find (instance_at (tenant g) i) db.instances))
  try_acquire_iff fault now owner g i db v = (
    λ h.
        let (c, t, f, e) = acquired-eq fault now owner g i db h in
        let (there, free) =
          (try_acquire_of_iff now owner (tenant g) i db v).0 (ground (arith, e, h)) in
        (
          c,
          t,
          f,
          leased-MayTake now owner (find (instance_at (tenant g) i) db.instances) there
              (unfold lease in free),
        ),
    λ m. ground (
      arith,
      m,
      acquires now owner g i db m.0 m.1,
      (try_acquire_of_iff now owner (tenant g) i db v).1 (
          unfold lease in
          MayTake-leased now owner (find (instance_at (tenant g) i) db.instances) m.3),
    ),
  )
