-- ===== src/Connection/Restore.antt =====
-- restoreOne and reconcileInstanceState of internal/whatsapp/service.go: the reconnection of a paired
-- instance when the module starts.
use arandu_whatsapp.Authz.Security.{Security}
use arandu_whatsapp.Connection.{
  Item, WhatsAppClient, World, managed_connection_status, validate_managed_device,
}
use arandu_whatsapp.Connection.Phone.{connection_input}
use arandu_whatsapp.Database.{
  ConnectionStatus, Engine, connecting, connection_error, connection_timeout,
}
use arandu_whatsapp.Database.Doors.{update_connection_state}
use arandu_whatsapp.Database.Inputs.{UpdateConnectionStateInput, set}
use arandu_whatsapp.Database.Locks.{release_connection_lock, try_acquire_connection_lock}
use arandu_whatsapp.Errors.{
  Error, Result, connection_in_progress, err, errors_is, ok, qr_code_timeout, sentinel,
}
use arandu_whatsapp.Hub.{ManagedClient, get_by_instance_id, register, remove, reserve}
use arandu_whatsapp.Prelude.{
  Bool, Option, String, if◌then◌else◌, is_some, none, not, some, true, ℕ, ◌||◌,
}
use arandu_whatsapp.Prelude.Text.{Unicode}

-- What Connect of a client answers; `already_connected` is whatsmeow.ErrAlreadyConnected.
pub data ConnectAnswer : Type 0 where
  connect_started already_connected : ConnectAnswer
  connect_failed : Error → ConnectAnswer

-- What the environment answers in one restoration: the faults of the lock, an engine for each repository
-- call, ClientForDevice, the whatsmeow client of a registered one, Connect, the client after
-- Connect, whether the ConnectedSignal comes before the timeout, and the clock.
pub record RestoreEnvironment : Type 0 where
  pub acquire_fault : Option Error
  pub release_fault : Option Error
  pub engines : ℕ → Engine
  pub client_for_device : Result WhatsAppClient
  pub existing : Option WhatsAppClient
  pub connect : ConnectAnswer
  pub connected : WhatsAppClient
  pub signalled : Bool
  pub now : ℕ

-- The UpdateConnectionStateInput of reconcileInstanceState.
abbrev pub reconcile_input : ℕ → ConnectionStatus → ℕ → UpdateConnectionStateInput
reconcile_input i ConnectionStatus.online now =
    record (connection_input i ConnectionStatus.online "reconcile") {
      last_connected_at = some now;
      reset_attempts = true;
      last_connection_error = set (some "");
    }
reconcile_input i status now = connection_input i status "reconcile"

abbrev pub restoring_input : ℕ → ℕ → UpdateConnectionStateInput
restoring_input i now = record (connection_input i connecting "restore_start") {
  last_connection_attempt_at = some now;
  increment_attempts = true;
}

module _ (unicode : Unicode) (env : RestoreEnvironment) (security : Security)
    (format_int : ℕ → String) (owner : String) (g : security.Grant) where
  open security use {Grant}

  -- reconcileInstanceState
  unfoldable pub reconcile_instance_state :
      ℕ → Item → Option WhatsAppClient → World → World × Option Error
  unfolding managed_connection_status
  reconcile_instance_state n item client w =
      let (db, e) =
        update_connection_state security (env.engines n) env.now g
          (reconcile_input item.id (managed_connection_status client) env.now) w.db in
      (record w { db = db }, e)

  -- UpdateConnectionState, whose error is dropped
  abbrev pub mark : ℕ → UpdateConnectionStateInput → World → World
  mark n input w = record w {
    db = (update_connection_state security (env.engines n) env.now g input w.db).0;
  }

  -- `_ = s.lock.Release(ctx, grant, instanceID)`
  abbrev pub release : Item → World → World
  release item w = record w {
    db = (release_connection_lock security env.release_fault owner g (some item.id) w.db).0;
  }

  -- `s.hub.Remove(instanceID)`, and the release
  abbrev pub give_up : Item → World → World
  give_up item w = release item (record w { hub = (remove (format_int item.id) w.hub).0 })

  -- The client that newManagedClient makes.
  abbrev pub managed_of : Item → ManagedClient
  managed_of item = record {
    instance_id = format_int item.id;
    instance_name = item.name;
    has_cancel = true;
    has_client = true;
  }

  -- restoreOne from Connect on.
  unfoldable pub restore_connecting : Item → World → World × Option Error
  unfolding reconcile_instance_state
  restore_connecting item w = elim env.connect [
    | connect_started ↦ if env.signalled || env.connected.is_connected then (w, none) else (
      mark 3 (connection_input item.id connection_timeout "restore_timeout") w,
      some (sentinel qr_code_timeout),
    )
    | already_connected ↦ reconcile_instance_state 3 item (some env.connected) (release item w)
    | connect_failed e ↦ (
      mark 3 (connection_input item.id connection_error "restore_connect_error") (give_up item w),
      some e,
    )
  ]

  -- restoreOne once the client is registered.
  unfoldable pub restore_registered : Item → WhatsAppClient → World → World × Option Error
  unfolding reconcile_instance_state restore_connecting
  restore_registered item client w =
      let (w', e) = reconcile_instance_state 1 item (some client) w in
      elim e [
        | some e ↦ (give_up item w', some e)
        | none ↦
            if client.is_connected || not (is_some client.store_id)
            then (release item w', none)
            else restore_connecting item (mark 2 (restoring_input item.id env.now) w')
      ]

  -- restoreOne once the slot is reserved.
  unfoldable pub restore_reserved : Item → World → World × Option Error
  unfolding restore_registered validate_managed_device
  restore_reserved item w = elim env.client_for_device [
    | err e ↦ (
      mark 1 (connection_input item.id ConnectionStatus.session_missing "session_missing")
          (give_up item w),
      some e,
    )
    | ok client ↦ elim (validate_managed_device unicode item (some client)) [
      | some e ↦ (
        mark 1 (connection_input item.id connection_error "device_mismatch") (give_up item w),
        some e,
      )
      | none ↦
          let (hub, refused) = register (managed_of item) w.hub in
          elim refused [
            | some e ↦ (release item (record w { hub = hub }), some e)
            | none ↦ restore_registered item client (record w { hub = hub })
          ]
    ]
  ]

  -- restoreOne while it holds the lock.
  unfoldable pub restore_locked : Item → World → World × Option Error
  unfolding restore_reserved reconcile_instance_state
  restore_locked item w =
      let (hub, refused) = reserve (format_int item.id) w.hub in
      elim refused [
        | none ↦ restore_reserved item (record w { hub = hub })
        | some e ↦
            let w' = release item w in
            elim (get_by_instance_id (format_int item.id) w.hub) [
              | some c ↦ reconcile_instance_state 1 item env.existing w'
              | none ↦ (w', if errors_is e connection_in_progress then none else some e)
            ]
      ]

  -- restoreOne
  unfoldable pub restore_one : Item → World → World × Option Error
  unfolding restore_locked
  restore_one item w = elim item.whatsapp_device_jid [
    | none ↦
        let (db, e) =
          update_connection_state security (env.engines 0) env.now g
            (connection_input item.id ConnectionStatus.session_missing "session_missing") w.db in
        (record w { db = db }, e)
    | some jid ↦
        let (db, locked) =
          try_acquire_connection_lock security env.acquire_fault env.now owner g (some item.id)
            w.db in
        elim locked [
          | err e ↦ (record w { db = db }, some e)
          | ok got ↦
              if not got
              then (record w { db = db }, none)
              else restore_locked item (record w { db = db })
        ]
  ]
