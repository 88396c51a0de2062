-- ===== src/Connection/Leases.antt =====
-- The connection lock after restoreOne of internal/whatsapp/service.go.
use arandu_whatsapp.Authz.Checks.{check_connection_lock, tenant_from_grant}
use arandu_whatsapp.Authz.Security.{Security}
use arandu_whatsapp.Connection.{Item, WhatsAppClient, World, managed_connection_status}
use arandu_whatsapp.Connection.Phone.{connection_input}
use arandu_whatsapp.Connection.Restore.{
  RestoreEnvironment, connect_started, managed_of, mark, reconcile_input, reconcile_instance_state,
  release, restore_connecting, restore_locked, restore_one, restore_registered, restore_reserved,
  restoring_input,
}
use arandu_whatsapp.Database.{ConnectionStatus, Db, Engine, connection_error}
use arandu_whatsapp.Database.Doors.{update_connection_state}
use arandu_whatsapp.Database.Inputs.{UpdateConnectionStateInput, instance_at}
use arandu_whatsapp.Database.Instances.{ensure_connection, update_state_of}
use arandu_whatsapp.Database.Locks.{release_connection_lock, try_acquire_connection_lock}
use arandu_whatsapp.Database.Locks.Exclusion.{lease, lease-release, lease_of}
use arandu_whatsapp.Database.Sql.{find}
use arandu_whatsapp.Errors.{err, ok}
use arandu_whatsapp.Hub.{register, remove, reserve}
use arandu_whatsapp.Policy.{Action-eq}
use arandu_whatsapp.Prelude.{
  ==_iff, List-eq, Option, Option-eq, String, String-eq, arith, none, refl, some, subst, sym, true,
  ℕ, ℕ-eq, ◌≡◌, ◌≢◌,
}
use arandu_whatsapp.Prelude.Text.{Unicode}

module _ (unicode : Unicode) (env : RestoreEnvironment) (security : Security)
    (format_int : ℕ → String) (owner : String) (g : security.Grant) where
  -- UpdateConnectionState leaves the table of the instances, where the leases are, as it is.
  update_connection_state-instances :
      (en : Engine) (now : ℕ) (input : UpdateConnectionStateInput) (db : Db)
      → (update_connection_state security en now g input db).0.instances ≡ db.instances
  unfolding update_connection_state update_state_of ensure_connection
  update_connection_state-instances en now input db = ground arith

  -- The process holds no lease on the instance.
  abbrev pub IsUnheld : ℕ → Item → World → Type 0
  IsUnheld later item w = lease later (security.tenant g) item.id w.db ≢ some (some owner)

  IsUnheld-same :
      (later : ℕ) (item : Item) (w w' : World)
      → w'.db.instances ≡ w.db.instances
      → IsUnheld later item w
      → IsUnheld later item w'
  unfolding lease
  IsUnheld-same later item w w' h k =
      subst
        (λ rows.
          lease_of later (find (instance_at (security.tenant g) item.id) rows) ≢ some (some owner))
        (sym h) k

  -- What a process that got the lock has passed.
  allowed :
      (item : Item) (w : World)
      → (try_acquire_connection_lock security env.acquire_fault env.now owner g
          (some item.id)
          w.db).1
        ≡ ok true
      → (check_connection_lock security g ≡ none)
        × (tenant_from_grant security g ≡ ok (security.tenant g))
  unfolding try_acquire_connection_lock tenant_from_grant
  allowed item w h = ground arith

  module _ (sound : env.release_fault ≡ none) (checked : check_connection_lock security g ≡ none)
      (tenanted : tenant_from_grant security g ≡ ok (security.tenant g))
      (started : env.connect ≢ connect_started) (later : ℕ) (item : Item) where
    release-IsUnheld :
        (w : World) → IsUnheld later item (release unicode env security format_int owner g item w)
    unfolding release_connection_lock
    release-IsUnheld w = ground (
      arith,
      sound,
      checked,
      tenanted,
      lease-release later owner (security.tenant g) item.id w.db,
      ==_iff (lease later (security.tenant g) item.id w.db) (some (some owner)),
    )

    -- A release, and a note of the state of the connection.
    mark-IsUnheld :
        (n : ℕ) (input : UpdateConnectionStateInput) (w : World)
        → IsUnheld later item w
        → IsUnheld later item (mark unicode env security format_int owner g n input w)
    mark-IsUnheld n input w =
        IsUnheld-same later item w (mark unicode env security format_int owner g n input w)
          (update_connection_state-instances (env.engines n) env.now input w.db)

    reconcile-IsUnheld :
        (n : ℕ) (client : Option WhatsAppClient) (w : World)
        → IsUnheld later item w
        → IsUnheld later item
            (reconcile_instance_state unicode env security format_int owner g n item client w).0
    unfolding reconcile_instance_state
    reconcile-IsUnheld n client w =
        IsUnheld-same later item w
          (reconcile_instance_state unicode env security format_int owner g n item client w).0
          (update_connection_state-instances (env.engines n) env.now
            (reconcile_input item.id (managed_connection_status client) env.now) w.db)

    restore_connecting-IsUnheld :
        (w : World)
        → IsUnheld later item (restore_connecting unicode env security format_int owner g item w).0
    unfolding restore_connecting
    restore_connecting-IsUnheld w =
        let freed : World = record w { hub = (remove (format_int item.id) w.hub).0 } in
        let released = release unicode env security format_int owner g item w in
        let given_up = release unicode env security format_int owner g item freed in
        let noted =
          mark-IsUnheld 3 (connection_input item.id connection_error "restore_connect_error")
            given_up (release-IsUnheld freed) in
        let reconciled = reconcile-IsUnheld 3 (some env.connected) released (release-IsUnheld w) in
        ground (arith, started, noted, reconciled)

    restore_registered-IsUnheld :
        (client : WhatsAppClient) (w : World)
        → IsUnheld later item
            (restore_registered unicode env security format_int owner g item client w).0
    unfolding restore_registered
    restore_registered-IsUnheld client w =
        let w' =
          (reconcile_instance_state unicode env security format_int owner g 1 item (some client)
            w).0 in
        let freed : World = record w' { hub = (remove (format_int item.id) w'.hub).0 } in
        ground (
          arith,
          release-IsUnheld w',
          release-IsUnheld freed,
          restore_connecting-IsUnheld
              (mark unicode env security format_int owner g 2 (restoring_input item.id env.now) w'),
        )

    restore_reserved-IsUnheld :
        (w : World)
        → IsUnheld later item (restore_reserved unicode env security format_int owner g item w).0
    unfolding restore_reserved
    restore_reserved-IsUnheld w =
        let freed : World = record w { hub = (remove (format_int item.id) w.hub).0 } in
        let given_up = release unicode env security format_int owner g item freed in
        let hub = (register (managed_of unicode env security format_int owner g item) w.hub).0 in
        let missing =
          mark-IsUnheld 1
            (connection_input item.id ConnectionStatus.session_missing "session_missing") given_up
            (release-IsUnheld freed) in
        let mismatched =
          mark-IsUnheld 1 (connection_input item.id connection_error "device_mismatch") given_up
            (release-IsUnheld freed) in
        (elim env.client_for_device
            as (λ r.
              env.client_for_device ≡ r
              → IsUnheld later item
                  (restore_reserved unicode env security format_int owner g item w).0) [
                    | err e ↦ λ q. ground (arith, missing)
                    | ok client ↦ λ q. ground (
                      arith,
                      mismatched,
                      release-IsUnheld (record w { hub = hub }),
                      restore_registered-IsUnheld client (record w { hub = hub }),
                    )
                  ])
          refl

    restore_locked-IsUnheld :
        (w : World)
        → IsUnheld later item (restore_locked unicode env security format_int owner g item w).0
    unfolding restore_locked
    restore_locked-IsUnheld w =
        let released = release unicode env security format_int owner g item w in
        let hub = (reserve (format_int item.id) w.hub).0 in
        ground (
          arith,
          release-IsUnheld w,
          reconcile-IsUnheld 1 env.existing released (release-IsUnheld w),
          restore_reserved-IsUnheld (record w { hub = hub }),
        )

  -- The lock after restoreOne: whichever call fails, where Connect does not start a connection, a
  -- restoration of a paired instance that got the lock leaves the process without a lease on the
  -- instance, if the release reaches the database.
  pub restore_one_releases :
      (later : ℕ) (item : Item) (jid : String) (w : World)
      → env.release_fault ≡ none
      → env.connect ≢ connect_started
      → item.whatsapp_device_jid ≡ some jid
      → (try_acquire_connection_lock security env.acquire_fault env.now owner g
          (some item.id)
          w.db).1
        ≡ ok true
      → IsUnheld later item (restore_one unicode env security format_int owner g item w).0
  unfolding restore_one
  restore_one_releases later item jid w sound started paired got =
      let (checked, tenanted) = allowed item w got in
      let db =
        (try_acquire_connection_lock security env.acquire_fault env.now owner g (some item.id)
          w.db).0 in
      ground (
        arith,
        restore_locked-IsUnheld sound checked tenanted started later item (record w { db = db }),
      )
