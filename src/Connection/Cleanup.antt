-- ===== src/Connection/Cleanup.antt =====
-- Cleanup and logout of internal/whatsapp/service.go: the client of an instance is taken out of the hub
-- and logged out under the connection lock, which a deferred call releases.
use arandu_whatsapp.Authz.Security.{Security}
use arandu_whatsapp.Connection.{
  Item, WhatsAppClient, World, logged_out_remotely, logout_failed, not_logged_in,
}
use arandu_whatsapp.Database.{Db, Engine, InstanceStatus, logged_out}
use arandu_whatsapp.Database.Doors.{clear_whatsapp_device, update_connection_state, update_status}
use arandu_whatsapp.Database.Inputs.{UpdateConnectionStateInput, set, unset}
use arandu_whatsapp.Database.Locks.{release_connection_lock, try_acquire_connection_lock}
use arandu_whatsapp.Errors.{
  Error, Result, Sentinel, connection_in_progress, err, errors_is, instance_not_found, ok, sentinel,
  whatsapp_unavailable, wrap,
}
use arandu_whatsapp.Hub.{Hub, ManagedClient, remove}
use arandu_whatsapp.Policy.{Action-eq}
use arandu_whatsapp.Prelude.{
  Bool, List-eq, Option, Option-eq, String, String-eq, [], false, if◌then◌else◌, is_some, none, not,
  some, true, ℕ, ℕ-eq, ◌&&◌, ◌==◌,
}
use arandu_whatsapp.Prelude.Text.{Unicode, codes, trim_space}

-- logoutOrDeleteStore
unfoldable pub logout_or_delete_store : Option WhatsAppClient → Option Error
logout_or_delete_store none = none
logout_or_delete_store (some c) =
    let deletion =
      (if is_some c.store_id
        then elim c.delete_store [ none ↦ none | some e ↦ some (wrap whatsapp_unavailable e) ]
        else none) in
    if c.is_connected && c.is_logged_in
    then elim c.logout [
      | logged_out_remotely ↦ none
      | not_logged_in ↦ deletion
      | logout_failed e ↦ some (wrap whatsapp_unavailable e)
    ]
    else deletion

-- What the environment answers in a cleanup: the faults of the two statements of the lock, the client
-- behind a managed client, and the client that the factory opens for the device of an item.
pub record Environment : Type 0 where
  pub acquire_fault : Option Error
  pub release_fault : Option Error
  pub client_of : ManagedClient → Option WhatsAppClient
  pub client_for_device : String → Result WhatsAppClient

-- The input of markInstanceLoggedOut.
abbrev pub logged_out_state : ℕ → ℕ → Bool → UpdateConnectionStateInput
logged_out_state i now reset = record {
  instance_id = i;
  connection_status = some logged_out;
  last_connected_at = none;
  last_disconnected_at = some now;
  last_connection_attempt_at = none;
  last_connection_error = unset;
  last_connection_event = set (some "logged_out");
  increment_attempts = false;
  reset_attempts = reset;
}

module _ (security : Security) where
  open security use {Grant}

  -- markInstanceLoggedOut, each repository call with an engine of its own.
  unfoldable pub mark_instance_logged_out :
      (ℕ → Engine) → ℕ → Grant → ℕ → Bool → Db → Db × Option Error
  mark_instance_logged_out engines now g i reset db =
      let (db1, refused) = update_status security (engines 0) now g i InstanceStatus.online db in
      elim refused [
        | some e ↦ (db1, some e)
        | none ↦
            let (db2, failed) =
              update_connection_state security (engines 1) now g (logged_out_state i now reset)
                db1 in
            elim failed [
              | some e ↦ (db2, some e)
              | none ↦
                  let (db3, uncleared) = clear_whatsapp_device security (engines 2) now g i db2 in
                  (
                    db3,
                    elim uncleared [
                      | none ↦ none
                      | some e ↦ if errors_is e instance_not_found then none else some e
                    ],
                  )
            ]
      ]

module _ (unicode : Unicode) (env : Environment) where
  -- The part of cleanupWhatsAppClient for an instance that the hub has no client of.
  unfoldable pub cleanup_device : Item → Option Error
  unfolding logout_or_delete_store
  cleanup_device item = elim item.whatsapp_device_jid [
    | none ↦ none
    | some jid ↦
        if trim_space unicode (codes jid) == [] then none else elim (env.client_for_device jid) [
          | err e ↦ if errors_is e Sentinel.session_missing then none else some e
          | ok c ↦ logout_or_delete_store (some c)
        ]
  ]

  -- cleanupWhatsAppClient, while it holds the lock; Cancel changes no state here.
  unfoldable pub cleanup_locked : String → Item → Hub → Hub × Option Error
  unfolding cleanup_device
  cleanup_locked instance_id item hub =
      let (hub', removed) = remove instance_id hub in
      elim removed [
        | some managed ↦ (
          hub',
          if managed.has_client then logout_or_delete_store (env.client_of managed) else none,
        )
        | none ↦ (hub', cleanup_device item)
      ]

  module _ (security : Security) (format_int : ℕ → String) where
    open security use {Grant}

    -- cleanupWhatsAppClient; `owner` is the lock owner of the process, and `format_int` is
    -- strconv.FormatInt, which strconv.ParseInt inverts.
    unfoldable pub cleanup_whatsapp_client :
        ℕ → String → Grant → Item → World → World × Option Error
    unfolding cleanup_locked
    cleanup_whatsapp_client now owner g item w =
        let (db, locked) =
          try_acquire_connection_lock security env.acquire_fault now owner g (some item.id) w.db in
        elim locked [
          | err e ↦ (record w { db = db }, some e)
          | ok got ↦
              if not got
              then (record w { db = db }, some (sentinel connection_in_progress))
              else (let (hub, e) = cleanup_locked (format_int item.id) item w.hub in
                  (
                    record {
                      hub = hub;
                      db =
                          (release_connection_lock security env.release_fault owner g (some item.id)
                            db).0;
                    },
                    e,
                  ))
        ]

    -- logoutInstance
    unfoldable pub logout_instance :
        (ℕ → Engine) → ℕ → String → Grant → Item → World → World × Option Error
    unfolding cleanup_whatsapp_client mark_instance_logged_out
    logout_instance engines now owner g item w =
        let (w', failed) = cleanup_whatsapp_client now owner g item w in
        elim failed [
          | some e ↦ (w', some e)
          | none ↦
              let (db, e) = mark_instance_logged_out security engines now g item.id true w'.db in
              (record w' { db = db }, e)
        ]
