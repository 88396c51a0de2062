-- ===== src/Database/Locks/Reentrance.antt =====
-- The lease of internal/database/repository/instance_repository.go within one process: its owner is the
-- process, so two requests of the process are not told apart.
use mathlib.Core.Option
use arandu_whatsapp.Database.{Db, InstanceRow}
use arandu_whatsapp.Database.Inputs.{instance_at}
use arandu_whatsapp.Database.Locks.{acquirable, lock_lease, release_of, take_lease, try_acquire_of}
use arandu_whatsapp.Database.Locks.Exclusion.{
  HasKeys, HasKeys-update, find-take_lease, lease, lease-release, lease-try_acquire,
  try_acquire_of_iff,
}
use arandu_whatsapp.Database.Sql.{find}
use arandu_whatsapp.Errors.{ok}
use arandu_whatsapp.Policy.{Action-eq}
use arandu_whatsapp.Prelude.{
  ==_refl, List-eq, Option, Option-eq, String, String-eq, ap, arith, if◌then◌else◌, inr, is_some,
  none, refl, some, true, ℕ, ℕ-eq, ◌+◌, ◌<◌, ◌∙◌, ◌≡◌,
}

is_some-map :
    (f : InstanceRow → InstanceRow) (o : Option InstanceRow) → is_some (Option.map f o) ≡ is_some o
is_some-map f none = refl
is_some-map f (some r) = refl

acquired-HasKeys :
    (now : ℕ) (owner t : String) (i : ℕ) (db : Db)
    → HasKeys db.instances
    → HasKeys (try_acquire_of none now owner (some i) t db).0.instances
unfolding try_acquire_of
acquired-HasKeys now owner t i db v =
    HasKeys-update (acquirable t i owner now) (take_lease owner now) db.instances (λ u j r. refl) v

acquired_exists :
    (now : ℕ) (owner t : String) (i : ℕ) (db : Db)
    → is_some (find (instance_at t i) db.instances) ≡ true
    → is_some (find (instance_at t i) (try_acquire_of none now owner (some i) t db).0.instances)
      ≡ true
unfolding try_acquire_of
acquired_exists now owner t i db h =
    ap is_some (find-take_lease owner now t i db.instances)
    ∙ is_some-map (λ r. if acquirable t i owner now r then take_lease owner now r else r)
        (find (instance_at t i) db.instances)
    ∙ h

-- The lock does not exclude requests of its own process, and one release ends it for all of them: once a
-- process has got the lock, a second request of the process gets it too within two minutes, and after
-- the release of the second request nobody holds the lock, the first request included.
pub second_release_ends :
    (now later : ℕ) (owner t : String) (i : ℕ) (db : Db)
    → HasKeys db.instances
    → (try_acquire_of none now owner (some i) t db).1 ≡ ok true
    → later < now + lock_lease
    → ((try_acquire_of none later owner
          (some i)
          t
          (try_acquire_of none now owner (some i) t db).0).1
        ≡ ok true)
      × (lease later t i
            (release_of none owner
              (some i)
              t
              (try_acquire_of none later owner
                (some i)
                t
                (try_acquire_of none now owner (some i) t db).0).0).0
          ≡ none)
second_release_ends now later owner t i db v won soon =
    let first = (try_acquire_of none now owner (some i) t db).0 in
    let keyed = acquired-HasKeys now owner t i db v in
    let second = (try_acquire_of_iff later owner t i first keyed).1 (
      acquired_exists now owner t i db ((try_acquire_of_iff now owner t i db v).0 won).0,
      inr (lease-try_acquire now later owner t i db v won soon),
    ) in
    (
      second,
      ground (
        arith,
        lease-release later owner t i (try_acquire_of none later owner (some i) t first).0,
        lease-try_acquire later later owner t i first keyed second (omega arith),
        ==_refl {A = Option (Option String)} (some (some owner)),
      ),
    )
