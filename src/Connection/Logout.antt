-- ===== src/Connection/Logout.antt =====
-- What markInstanceLoggedOut of internal/whatsapp/service.go leaves in the row of the connection.
use arandu_whatsapp.Authz.Checks.{check_clear_device, tenant_from_grant}
use arandu_whatsapp.Authz.Security.{Security}
use arandu_whatsapp.Connection.Cleanup.{logged_out_state, mark_instance_logged_out}
use arandu_whatsapp.Database.{
  ConnectionRow, ConnectionStatus, Db, Engine, InstanceStatus, healthy, logged_out,
}
use arandu_whatsapp.Database.Doors.{clear_whatsapp_device, update_connection_state, update_status}
use arandu_whatsapp.Database.Inputs.{UpdateConnectionStateInput, connection_at, set_state}
use arandu_whatsapp.Database.Instances.{
  clear_device, clear_device_of, ensure_connection, returned, update_state_of,
}
use arandu_whatsapp.Database.Sql.{affected, find, find-update}
use arandu_whatsapp.Errors.{err, ok}
use arandu_whatsapp.Prelude.{
  Bool, List, Option, String, [], arith, none, refl, some, ℕ, ◌∷◌, ◌≡◌, ◌⊎◌,
}

affected-find :
    {A : Type 0} (p : A → Bool) (rows : List A) → affected p rows ≡ 0 → find p rows ≡ none
unfolding affected find
affected-find p [] h = refl
affected-find p (r ∷ rows) h = ground (arith, affected-find p rows)

abbrev pub status_of : Option ConnectionRow → Option ConnectionStatus
status_of none = none
status_of (some r) = some r.connection_status

abbrev pub device_of : Option ConnectionRow → Option String
device_of none = none
device_of (some r) = r.whatsapp_device_jid

-- The row has the status, if it is there.
abbrev pub HasStatus : ConnectionStatus → Option ConnectionRow → Type 0
HasStatus s o = (o ≡ none) ⊎ (status_of o ≡ some s)

update_state_of-HasStatus :
    (en : Engine) (now : ℕ) (input : UpdateConnectionStateInput) (t : String) (db db' : Db)
    (s : ConnectionStatus)
    → input.connection_status ≡ some s
    → update_state_of en now input t db ≡ ok db'
    → HasStatus s (find (connection_at t input.instance_id) db'.connections)
unfolding update_state_of set_state
update_state_of-HasStatus en now input t db db' s e h =
    (elim (ensure_connection en 0 now t input.instance_id db)
        as (λ q.
          ensure_connection en 0 now t input.instance_id db ≡ q
          → HasStatus s (find (connection_at t input.instance_id) db'.connections)) [
            | err x ↦ λ q. ground arith
            | ok dbx ↦ λ q. ground (
              arith,
              find-update (connection_at t input.instance_id) (set_state input now) dbx.connections
                  (λ r'. refl),
            )
          ])
      refl

clear_device_of-HasStatus :
    (now : ℕ) (i : ℕ) (t : String) (db : Db) (s : ConnectionStatus)
    → HasStatus s (find (connection_at t i) db.connections)
    → HasStatus s
        (find (connection_at t i) (returned (clear_device_of healthy now i t db) db).0.connections)
      × (device_of (
            find
              (connection_at t i)
              (returned (clear_device_of healthy now i t db) db).0.connections)
          ≡ none)
unfolding clear_device_of
clear_device_of-HasStatus now i t db s v = ground (
  arith,
  affected-find (connection_at t i) db.connections,
  find-update (connection_at t i) (clear_device now) db.connections (λ r'. refl),
)

module _ (security : Security) (now : ℕ) (g : security.Grant) (i : ℕ) where
  abbrev pub row_of : Db → Option ConnectionRow
  row_of db = find (connection_at (security.tenant g) i) db.connections

  update_connection_state-HasStatus :
      (en : Engine) (reset : Bool) (db : Db)
      → (update_connection_state security en now g (logged_out_state i now reset) db).1 ≡ none
      → HasStatus logged_out
          (row_of (update_connection_state security en now g (logged_out_state i now reset) db).0)
        × (tenant_from_grant security g ≡ ok (security.tenant g))
  unfolding update_connection_state tenant_from_grant
  update_connection_state-HasStatus en reset db h = ground (
    arith,
    update_state_of-HasStatus en now (logged_out_state i now reset) (security.tenant g) db
        (update_connection_state security en now g (logged_out_state i now reset) db).0 logged_out
        refl,
  )

  clear_whatsapp_device-HasStatus :
      (db : Db)
      → check_clear_device security g ≡ none
      → tenant_from_grant security g ≡ ok (security.tenant g)
      → HasStatus logged_out (row_of db)
      → HasStatus logged_out (row_of (clear_whatsapp_device security healthy now g i db).0)
        × (device_of (row_of (clear_whatsapp_device security healthy now g i db).0) ≡ none)
  unfolding clear_whatsapp_device
  clear_whatsapp_device-HasStatus db c t v =
      ground (arith, clear_device_of-HasStatus now i (security.tenant g) db logged_out v)

  -- After markInstanceLoggedOut returns no error, the connection of the instance is logged out and is
  -- linked to no device, if it has a row: whatever engines ran the first two calls, where the third runs
  -- and the Grant may clear the device.
  pub mark_instance_logged_out_lem :
      (engines : ℕ → Engine) (reset : Bool) (db : Db)
      → engines 2 ≡ healthy
      → check_clear_device security g ≡ none
      → (mark_instance_logged_out security engines now g i reset db).1 ≡ none
      → HasStatus logged_out (row_of (mark_instance_logged_out security engines now g i reset db).0)
        × (device_of (row_of (mark_instance_logged_out security engines now g i reset db).0) ≡ none)
  unfolding mark_instance_logged_out
  mark_instance_logged_out_lem engines reset db sound c h =
      let db1 = (update_status security (engines 0) now g i InstanceStatus.online db).0 in
      let step = update_connection_state-HasStatus (engines 1) reset db1 in
      let db2 =
        (update_connection_state security (engines 1) now g (logged_out_state i now reset) db1).0 in
      (elim (update_connection_state security (engines 1) now g (logged_out_state i now reset)
            db1).1
          as (λ q.
            (update_connection_state security (engines 1) now g (logged_out_state i now reset)
                db1).1
              ≡ q
            → HasStatus logged_out
                (row_of (mark_instance_logged_out security engines now g i reset db).0)
              × (device_of (row_of (mark_instance_logged_out security engines now g i reset db).0)
                  ≡ none)) [
                    | some e ↦ λ q. ground arith
                    | none ↦ λ q.
                        ground (
                          arith,
                          sound,
                          clear_whatsapp_device-HasStatus db2 c (step q).1 (step q).0,
                        )
                  ])
        refl
