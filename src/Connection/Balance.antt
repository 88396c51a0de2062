-- ===== src/Connection/Balance.antt =====
-- What cleanupWhatsAppClient of internal/whatsapp/service.go leaves of the hub and of the lock, and the
-- phone numbers that internal/whatsapp/phone.go lets through.
use arandu_whatsapp.Authz.Checks.{check_connection_lock, tenant_from_grant}
use arandu_whatsapp.Authz.Security.{Security}
use arandu_whatsapp.Connection.{Item, World, digits_of, normalize_phone_number, starts_with_zero}
use arandu_whatsapp.Connection.Cleanup.{Environment, cleanup_locked, cleanup_whatsapp_client}
use arandu_whatsapp.Database.{Db}
use arandu_whatsapp.Database.Locks.{release_connection_lock, try_acquire_connection_lock}
use arandu_whatsapp.Database.Locks.Exclusion.{lease, lease-release}
use arandu_whatsapp.Errors.{Result, err, ok}
use arandu_whatsapp.Hub.{Hub}
use arandu_whatsapp.Hub.Slots.{Slot, remove_refines, slot}
use arandu_whatsapp.Policy.{Action-eq}
use arandu_whatsapp.Prelude.{
  ==_iff, Bool, List-eq, Option-eq, String, String-eq, [], all, arith, false, if◌then◌else◌, none,
  refl, some, true, ℕ, ℕ-eq, ◌&&◌, ◌==◌, ◌∷◌, ◌≡◌, ◌≢◌, ◌≤◌,
}
use arandu_whatsapp.Prelude.Text.{Text, Unicode, len, trim_space}

-- Whether the lock was got.
abbrev pub acquired : Result Bool → Bool
acquired (ok got) = got
acquired (err e) = false

module _ (unicode : Unicode) (env : Environment) (security : Security) (format_int : ℕ → String)
    (now : ℕ) (owner : String) (g : security.Grant) (item : Item) (w : World) where
  cleanup_locked_slots :
      (id j : String) (h : Hub)
      → slot (cleanup_locked unicode env id item h).0 j ≡ (if id == j then Slot.free else slot h j)
  unfolding cleanup_locked
  cleanup_locked_slots id j h = ground (arith, (remove_refines h id j).1)

  -- A cleanup that gets the lock frees the slot of the instance, also where the logout or the deletion
  -- of the device fails, and keeps every other; one that does not get the lock keeps every slot and
  -- returns an error.
  pub cleanup_slots :
      (j : String)
      → (slot (cleanup_whatsapp_client unicode env security format_int now owner g item w).0.hub j
          ≡ (if acquired
                  (try_acquire_connection_lock security env.acquire_fault now owner g
                    (some item.id)
                    w.db).1
                && format_int item.id == j
              then Slot.free
              else slot w.hub j))
        × (acquired
                (try_acquire_connection_lock security env.acquire_fault now owner g
                  (some item.id)
                  w.db).1
              ≡ false
            → (cleanup_whatsapp_client unicode env security format_int now owner g item w).1 ≢ none)
  unfolding cleanup_whatsapp_client
  cleanup_slots j = ground (arith, cleanup_locked_slots (format_int item.id) j w.hub)

  release_ends :
      (later : ℕ) (db : Db)
      → check_connection_lock security g ≡ none
      → tenant_from_grant security g ≡ ok (security.tenant g)
      → lease later
          (security.tenant g)
          item.id
          (release_connection_lock security none owner g (some item.id) db).0
        ≢ some (some owner)
  unfolding release_connection_lock
  release_ends later db c t = ground (
    arith,
    lease-release later owner (security.tenant g) item.id db,
    ==_iff (lease later (security.tenant g) item.id db) (some (some owner)),
  )

  allowed_by_lock :
      acquired
          (try_acquire_connection_lock security env.acquire_fault now owner g (some item.id) w.db).1
        ≡ true
      → (check_connection_lock security g ≡ none)
        × (tenant_from_grant security g ≡ ok (security.tenant g))
  unfolding try_acquire_connection_lock tenant_from_grant
  allowed_by_lock h = ground arith

  -- Whatever a cleanup returns, if it got the lock and the release reaches the database, the process
  -- holds no lease on the instance afterwards.
  pub cleanup_releases :
      (later : ℕ)
      → env.release_fault ≡ none
      → acquired
          (try_acquire_connection_lock security env.acquire_fault now owner g (some item.id) w.db).1
        ≡ true
      → lease later
          (security.tenant g)
          item.id
          (cleanup_whatsapp_client unicode env security format_int now owner g item w).0.db
        ≢ some (some owner)
  unfolding cleanup_whatsapp_client
  cleanup_releases later sound got = ground (
    arith,
    sound,
    release_ends later
        (try_acquire_connection_lock security env.acquire_fault now owner g (some item.id) w.db).0
        (allowed_by_lock got).0 (allowed_by_lock got).1,
  )

module _ (unicode : Unicode) where
  digits_of_digits : (s : Text) → all unicode.is_digit (digits_of unicode s) ≡ true
  digits_of_digits [] = refl
  digits_of_digits (r ∷ s) = ground (arith, digits_of_digits s)

  -- A phone number that is let through consists of digits only, has eight bytes at least, and does not
  -- start with zero.
  pub normalize_phone_number_lem :
      (value phone : Text)
      → normalize_phone_number unicode value ≡ ok phone
      → (all unicode.is_digit phone ≡ true)
        × (8 ≤ len phone)
        × (starts_with_zero unicode phone ≡ false)
  unfolding normalize_phone_number
  normalize_phone_number_lem value phone h =
      ground (arith, digits_of_digits (trim_space unicode value))
