-- ===== src/Database/Instances.antt =====
-- The bodies of the operations of internal/database/repository/instance_repository.go, given the
-- tenant of the Grant. A transaction that fails leaves the database as it was.
use arandu_whatsapp.Database.{
  ConnectionRow, Db, Engine, InstanceRow, InstanceStatus, status_is_valid,
}
use arandu_whatsapp.Database.Inputs.{
  SaveWhatsAppDeviceInput, UpdateConnectionStateInput, connection_at, duplicate_column,
  insert_connection, instance_at, owned_by, set_state, status_ok,
}
use arandu_whatsapp.Database.Sql.{affected, delete_rows, find, update}
use arandu_whatsapp.Errors.{
  Error, Result, err, errors_first, external, fail, instance_has_dependencies, instance_not_found,
  invalid_enum, ok, sentinel, unless, whatsapp_device_already_linked, wrap, ◌>>=◌,
}
use arandu_whatsapp.Policy.{Action-eq}
use arandu_whatsapp.Prelude.{
  Bool, List-eq, Option, Option-eq, String, String-eq, if◌then◌else◌, is_some, none, not, some, ℕ,
  ℕ-eq, ◌&&◌, ◌+◌, ◌==◌,
}

-- A step of a transaction or of an operation.
abbrev pub Step : Type 0
Step = Db → Result Db

-- data.Transaction, and the return of an operation: on an error the database is as before.
abbrev pub returned : Result Db → Db → Db × Option Error
returned (ok db') db = (db', none)
returned (err e) db = (db, some e)

abbrev pub transaction : Step → Db → Db × Option Error
transaction step db = returned (step db) db

-- instanceExists
unfoldable pub instance_exists : Option Error → String → ℕ → Db → Result Bool
instance_exists fault t i db = unless fault (ok (is_some (find (instance_at t i) db.instances)))

-- ensureConnection; its statements are numbers n and n + 1 of the call
unfoldable pub ensure_connection : Engine → ℕ → ℕ → String → ℕ → Step
unfolding instance_exists
ensure_connection en n now t i db = do
  found ← instance_exists (en.fault n) t i db
  if found
      then unless (en.fault (n + 1))
          (ok (record db { connections = insert_connection t i now db.connections }))
      else fail instance_not_found

-- The body of UpdateConnectionState, after its checks.
unfoldable pub update_state_of : Engine → ℕ → UpdateConnectionStateInput → String → Step
unfolding ensure_connection set_state
update_state_of en now input t db = do
  db' ← ensure_connection en 0 now t input.instance_id db
  if status_ok input.connection_status
      then unless (en.fault 2) (
          unless (duplicate_column en input) (
            ok (record db' {
              connections =
                  update (connection_at t input.instance_id) (set_state input now) db'.connections;
            })))
      else fail invalid_enum

-- UPDATE whatsapp_instances SET status
abbrev pub set_status : InstanceStatus → ℕ → InstanceRow → InstanceRow
set_status s now r = record r { status = s; updated_at = now }

-- The body of UpdateStatus.
unfoldable pub update_status_of : Engine → ℕ → ℕ → InstanceStatus → String → Step
update_status_of en now i s t db =
    if status_is_valid s
    then unless (en.fault 0) (
        if affected (instance_at t i) db.instances == 0
        then fail instance_not_found
        else ok
            (record db { instances = update (instance_at t i) (set_status s now) db.instances }))
    else fail invalid_enum

abbrev pub set_device : SaveWhatsAppDeviceInput → ℕ → ConnectionRow → ConnectionRow
set_device input now r = record r {
  whatsapp_device_jid = some input.device_jid;
  whatsapp_owner_jid = some input.owner_jid;
  whatsapp_phone_number = some input.phone_number;
  updated_at = now;
}

-- WHERE whatsapp_device_jid = ? AND (tenant_id <> ? OR instance_id <> ?): the row that the unique
-- index on the device protects
abbrev pub linked_elsewhere : SaveWhatsAppDeviceInput → String → ConnectionRow → Bool
linked_elsewhere input t r =
    r.whatsapp_device_jid == some input.device_jid && not (connection_at t input.instance_id r)

-- The body of SaveWhatsAppDevice: the unique index refuses a device that another row holds.
unfoldable pub save_device_of : Engine → ℕ → SaveWhatsAppDeviceInput → String → Step
unfolding ensure_connection
save_device_of en now input t db = do
  db' ← ensure_connection en 0 now t input.instance_id db
  unless (en.fault 2) (
      if is_some (find (linked_elsewhere input t) db'.connections)
      then err (wrap whatsapp_device_already_linked (external input.device_jid))
      else if affected (connection_at t input.instance_id) db'.connections == 0
      then fail instance_not_found
      else ok (record db' {
        connections =
            update (connection_at t input.instance_id) (set_device input now) db'.connections;
      }))

abbrev pub clear_device : ℕ → ConnectionRow → ConnectionRow
clear_device now r = record r {
  whatsapp_device_jid = none;
  whatsapp_owner_jid = none;
  whatsapp_phone_number = none;
  profile_pic_id = none;
  updated_at = now;
}

-- The body of ClearWhatsAppDevice.
unfoldable pub clear_device_of : Engine → ℕ → ℕ → String → Step
unfolding instance_exists
clear_device_of en now i t db = unless (en.fault 0) (
    if affected (connection_at t i) db.connections == 0
    then (do
      found ← instance_exists (en.fault 1) t i db
      if found then ok db else fail instance_not_found)
    else ok
        (record db { connections = update (connection_at t i) (clear_device now) db.connections }))

abbrev pub set_url : Option String → ℕ → InstanceRow → InstanceRow
set_url url now r = record r { profile_pic_url = url; updated_at = now }

abbrev pub set_picture : Option String → ℕ → ConnectionRow → ConnectionRow
set_picture picture now r = record r { profile_pic_id = picture; updated_at = now }

-- The body of UpdateProfilePicture.
unfoldable pub update_picture_of : Engine → ℕ → ℕ → Option String → Option String → String → Step
unfolding ensure_connection
update_picture_of en now i url picture t db = unless (en.fault 0) (
    if affected (instance_at t i) db.instances == 0 then fail instance_not_found else (do
      let pictured = record db {
        instances = update (instance_at t i) (set_url url now) db.instances;
      }
      db' ← ensure_connection en 1 now t i pictured
      unless (en.fault 3) (
          ok (record db' {
            connections = update (connection_at t i) (set_picture picture now) db'.connections;
          }))))

-- ensureDeletable
unfoldable pub ensure_deletable : Engine → ℕ → String → ℕ → Db → Option Error
ensure_deletable en n t i db = errors_first (en.fault n) (
    errors_first (en.fault (n + 1)) (
      errors_first (en.fault (n + 2)) (
        errors_first (en.fault (n + 3)) (
          if affected (owned_by t i) db.messages
              + affected (owned_by t i) db.chats
              + affected (owned_by t i) db.contacts
              + affected (owned_by t i) db.webhooks
            == 0
          then none
          else some (sentinel instance_has_dependencies)))))

-- DELETE of an instance: the foreign keys delete the rows that belong to it, also the updates of its
-- messages.
abbrev pub delete_cascade : String → ℕ → Db → Db
delete_cascade t i db = record {
  instances = delete_rows (instance_at t i) db.instances;
  connections = delete_rows (connection_at t i) db.connections;
  messages = delete_rows (owned_by t i) db.messages;
  chats = delete_rows (owned_by t i) db.chats;
  contacts = delete_rows (owned_by t i) db.contacts;
  webhooks = delete_rows (owned_by t i) db.webhooks;
  message_updates = delete_rows (owned_by t i) db.message_updates;
  webhook_deliveries = delete_rows (owned_by t i) db.webhook_deliveries;
  message_jobs = delete_rows (owned_by t i) db.message_jobs;
  address_mappings = delete_rows (owned_by t i) db.address_mappings;
}

-- The body of Delete.
unfoldable pub delete_of : Engine → ℕ → Bool → String → Step
unfolding ensure_deletable
delete_of en i force t db = unless (if force then none else ensure_deletable en 0 t i db) (
    unless (en.fault 4) (
      if affected (instance_at t i) db.instances == 0
      then fail instance_not_found
      else ok (delete_cascade t i db)))
