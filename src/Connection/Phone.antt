-- ===== src/Connection/Phone.antt =====
-- authenticateInstance and ConnectPhone of internal/whatsapp/service.go, with their deferred calls.
use arandu_whatsapp.Authz.Checks.{runtime_grant_from_pair}
use arandu_whatsapp.Authz.Security.{Security}
use arandu_whatsapp.Connection.{Item, WhatsAppClient, World, normalize_phone_number}
use arandu_whatsapp.Database.{
  ConnectionStatus, Db, Engine, InstanceStatus, connecting, connection_error, logged_out,
  status_is_online,
}
use arandu_whatsapp.Database.Doors.{update_connection_state, update_status}
use arandu_whatsapp.Database.Inputs.{UpdateConnectionStateInput, set, unset}
use arandu_whatsapp.Database.Locks.{release_connection_lock, try_acquire_connection_lock}
use arandu_whatsapp.Errors.{
  Error, Result, connection_in_progress, err, fail, instance_inactive, invalid_input, ok,
  whatsapp_unavailable, wrap,
}
use arandu_whatsapp.Hub.{ManagedClient, exists, register, remove, reserve}
use arandu_whatsapp.Policy.{Action-eq}
use arandu_whatsapp.Prelude.{
  Bool, List-eq, Option, Option-eq, String, String-eq, [], false, if◌then◌else◌, none, not, some,
  true, ℕ, ℕ-eq, ◌==◌,
}
use arandu_whatsapp.Prelude.Text.{Text, Unicode, trim_space}

-- What the environment answers in a connection by phone: FindByName, the faults of the lock, an engine
-- for each repository call, the client of the factory, PairPhone, and the clock.
pub record PhoneEnvironment : Type 0 where
  pub find_by_name : Text → Result Item
  pub acquire_fault : Option Error
  pub release_fault : Option Error
  pub engines : ℕ → Engine
  pub client : Result WhatsAppClient
  pub pair_phone : Text → Result Text
  pub now : ℕ

abbrev pub connection_input : ℕ → ConnectionStatus → String → UpdateConnectionStateInput
connection_input i status event = record {
  instance_id = i;
  connection_status = some status;
  last_connected_at = none;
  last_disconnected_at = none;
  last_connection_attempt_at = none;
  last_connection_error = unset;
  last_connection_event = set (some event);
  increment_attempts = false;
  reset_attempts = false;
}

abbrev pub starting_input : ℕ → ℕ → UpdateConnectionStateInput
starting_input i now = record (connection_input i connecting "connect_phone_start") {
  last_connection_attempt_at = some now;
  increment_attempts = true;
}

abbrev pub is_logged_out_status : ConnectionStatus → Bool
is_logged_out_status logged_out = true
is_logged_out_status _ = false

module _ (unicode : Unicode) (env : PhoneEnvironment) (security : Security)
    (format_int : ℕ → String) (owner : String) (g : security.Grant) where
  open security use {Grant}

  -- authenticateInstance
  unfoldable pub authenticate_instance : Text → Db → Db × Result Item
  authenticate_instance instance_name db =
      let name = trim_space unicode instance_name in
      if name == [] then (db, fail invalid_input) else elim (env.find_by_name name) [
        | err e ↦ (db, err e)
        | ok item ↦
            if status_is_online item.status
            then (db, ok item)
            else if is_logged_out_status item.connection_status
            then (let (db', e) =
                  update_status security (env.engines 0) env.now g item.id InstanceStatus.online
                    db in
                elim e [
                  | some e ↦ (db', err e)
                  | none ↦ (db', ok (record item { status = InstanceStatus.online }))
                ])
            else (db, fail instance_inactive)
      ]

  -- markConnectionError and other calls of UpdateConnectionState whose error is dropped
  abbrev pub note : ℕ → UpdateConnectionStateInput → Db → Db
  note n input db = (update_connection_state security (env.engines n) env.now g input db).0

  -- newManagedClient
  abbrev pub managed_for : Item → ManagedClient
  managed_for item = record {
    instance_id = format_int item.id;
    instance_name = item.name;
    has_cancel = true;
    has_client = true;
  }

  -- ConnectPhone from PairPhone on; the Boolean is `reserved` of the deferred Remove.
  unfoldable pub pair_and_register : Item → Text → World → World × Bool × Result Text
  pair_and_register item phone w = elim (env.pair_phone phone) [
    | err e ↦ (
      record w { db = note 3 (connection_input item.id connection_error "pair_phone_error") w.db },
      true,
      err (wrap whatsapp_unavailable e),
    )
    | ok code ↦
        let db =
          note 3 (connection_input item.id ConnectionStatus.pairing_code "pairing_code") w.db in
        let (hub, e) = register (managed_for item) w.hub in
        elim e [
          | some e ↦ (record { hub = hub; db = db }, true, err e)
          | none ↦ (record { hub = hub; db = db }, false, ok code)
        ]
  ]

  -- ConnectPhone from the reservation on.
  unfoldable pub connect_reserved : Item → Text → World → World × Bool × Result Text
  unfolding pair_and_register
  connect_reserved item phone w = elim env.client [
    | err e ↦ (w, true, err e)
    | ok client ↦
        let (db, e) =
          update_connection_state security (env.engines 1) env.now g
            (starting_input item.id env.now) w.db in
        elim e [
          | some e ↦ (record w { db = db }, true, err e)
          | none ↦ elim client.connect [
            | some e ↦ (
              record w {
                db = note 2 (connection_input item.id connection_error "connect_error") db;
              },
              true,
              err (wrap whatsapp_unavailable e),
            )
            | none ↦ pair_and_register item phone (record w { db = db })
          ]
        ]
  ]

  -- ConnectPhone while it holds the lock, with the deferred Remove; the Boolean is `lockHeld`, which
  -- is false exactly when `reserved` is.
  unfoldable pub connect_locked : Item → Text → World → World × Bool × Result Text
  unfolding connect_reserved
  connect_locked item phone w =
      let (hub, refused) = reserve (format_int item.id) w.hub in
      elim refused [
        | some e ↦ (record w { hub = hub }, true, err e)
        | none ↦
            let (w', held, r) = connect_reserved item phone (record w { hub = hub }) in
            (
              if held then record w' { hub = (remove (format_int item.id) w'.hub).0 } else w',
              held,
              r,
            )
      ]

  -- ConnectPhone from the acquisition on, with the deferred Release.
  unfoldable pub connect_with_lock : Item → Text → World → World × Result Text
  unfolding connect_locked
  connect_with_lock item phone w =
      let (db, locked) =
        try_acquire_connection_lock security env.acquire_fault env.now owner g (some item.id)
          w.db in
      elim locked [
        | err e ↦ (record w { db = db }, err e)
        | ok got ↦
            if not got
            then (record w { db = db }, fail connection_in_progress)
            else (let (w', held, r) = connect_locked item phone (record w { db = db }) in
                (
                  if held
                      then record w' {
                        db =
                            (release_connection_lock security env.release_fault owner g
                              (some item.id) w'.db).0;
                      }
                      else w',
                  r,
                ))
      ]

  -- ConnectPhone after authenticateInstance
  unfoldable pub connect_item : Item → Text → World → World × Result Text
  unfolding connect_with_lock
  connect_item item phone_number w = elim (runtime_grant_from_pair security g) [
    | err e ↦ (w, err e)
    | ok runtime_grant ↦ elim (normalize_phone_number unicode phone_number) [
      | err e ↦ (w, err e)
      | ok phone ↦
          if exists (format_int item.id) w.hub
          then (w, fail connection_in_progress)
          else connect_with_lock item phone w
    ]
  ]

  -- ConnectPhone
  unfoldable pub connect_phone : Text → Text → World → World × Result Text
  unfolding authenticate_instance connect_item
  connect_phone instance_name phone_number w =
      let (db, authenticated) = authenticate_instance instance_name w.db in
      elim authenticated [
        | err e ↦ (record w { db = db }, err e)
        | ok item ↦ connect_item item phone_number (record w { db = db })
      ]
