-- ===== src/Database/Isolation.antt =====
-- What the operations of internal/database/repository/instance_repository.go leave alone: the rows
-- of other tenants, and everything when they fail.
use mathlib.Core.List.{append-nil}
use mathlib.Core.Path.{subst}
use arandu_whatsapp.Database.{ConnectionRow, Db, Engine, InstanceRow, InstanceStatus}
use arandu_whatsapp.Database.Inputs.{
  SaveWhatsAppDeviceInput, UpdateConnectionStateInput, connection_at, insert_connection,
  instance_at, new_connection, owned_by, set_state,
}
use arandu_whatsapp.Database.Instances.{
  Step, clear_device, clear_device_of, delete_cascade, delete_of, ensure_connection, returned,
  save_device_of, set_device, set_picture, set_status, set_url, transaction, update_picture_of,
  update_state_of, update_status_of,
}
use arandu_whatsapp.Database.Sql.{select, select-append, select-delete_rows, select-update, update}
use arandu_whatsapp.Errors.{err, ok}
use arandu_whatsapp.Policy.{Action-eq}
use arandu_whatsapp.Prelude.{
  ==_refl, Bool, List, List-eq, Option, Option-eq, String, String-eq, [], arith, not, refl, true, ℕ,
  ℕ-eq, ◌==◌, ◌∷◌, ◌≡◌,
}

-- The rows of the tenants other than t.
abbrev pub apart : String → Db → Db
apart t db = record {
  instances = select (λ r. not (r.tenant_id == t)) db.instances;
  connections = select (λ r. not (r.tenant_id == t)) db.connections;
  messages = select (λ r. not (r.tenant_id == t)) db.messages;
  chats = select (λ r. not (r.tenant_id == t)) db.chats;
  contacts = select (λ r. not (r.tenant_id == t)) db.contacts;
  webhooks = select (λ r. not (r.tenant_id == t)) db.webhooks;
  message_updates = select (λ r. not (r.tenant_id == t)) db.message_updates;
  webhook_deliveries = select (λ r. not (r.tenant_id == t)) db.webhook_deliveries;
  message_jobs = select (λ r. not (r.tenant_id == t)) db.message_jobs;
  address_mappings = select (λ r. not (r.tenant_id == t)) db.address_mappings;
}

module _ (t : String) where
  pub apart-update_instances :
      (p : InstanceRow → Bool) (f : InstanceRow → InstanceRow) (rows : List InstanceRow)
      → ((r : InstanceRow) → p r ≡ true → r.tenant_id == t ≡ true)
      → ((r : InstanceRow) → (f r).tenant_id ≡ r.tenant_id)
      → select (λ r. not (r.tenant_id == t)) (update p f rows)
        ≡ select (λ r. not (r.tenant_id == t)) rows
  apart-update_instances p f rows own keeps =
      select-update (λ r. not (r.tenant_id == t)) p f rows
        (λ r h. (ground (arith, own r), ground (arith, own r, keeps r)))

  apart-update_connections :
      (p : ConnectionRow → Bool) (f : ConnectionRow → ConnectionRow) (rows : List ConnectionRow)
      → ((r : ConnectionRow) → p r ≡ true → r.tenant_id == t ≡ true)
      → ((r : ConnectionRow) → (f r).tenant_id ≡ r.tenant_id)
      → select (λ r. not (r.tenant_id == t)) (update p f rows)
        ≡ select (λ r. not (r.tenant_id == t)) rows
  apart-update_connections p f rows own keeps =
      select-update (λ r. not (r.tenant_id == t)) p f rows
        (λ r h. (ground (arith, own r), ground (arith, own r, keeps r)))

  apart-insert_connection :
      (i now : ℕ) (rows : List ConnectionRow)
      → select (λ r. not (r.tenant_id == t)) (insert_connection t i now rows)
        ≡ select (λ r. not (r.tenant_id == t)) rows
  unfolding select
  apart-insert_connection i now rows = ground (
    arith,
    select-append (λ r. not (r.tenant_id == t)) rows (new_connection t i now ∷ []),
    ==_refl t,
    append-nil (select (λ r. not (r.tenant_id == t)) rows),
  )

-- A body whose results leave the other tenants alone.
abbrev pub KeepsApart : String → Step → Type 0
KeepsApart t step = (db db' : Db) → step db ≡ ok db' → apart t db' ≡ apart t db

ensure_connection-KeepsApart :
    (en : Engine) (n now : ℕ) (t : String) (i : ℕ) → KeepsApart t (ensure_connection en n now t i)
unfolding ensure_connection
ensure_connection-KeepsApart en n now t i db db' h =
    ground (arith, apart-insert_connection t i now db.connections)

pub update_state_of-KeepsApart :
    (en : Engine) (now : ℕ) (input : UpdateConnectionStateInput) (t : String)
    → KeepsApart t (update_state_of en now input t)
unfolding update_state_of
update_state_of-KeepsApart en now input t db db' h = ground (
  arith,
  apart-insert_connection t input.instance_id now db.connections,
  apart-update_connections t (connection_at t input.instance_id) (set_state input now)
      (insert_connection t input.instance_id now db.connections) (λ r e. ground arith) (λ r. refl),
)

pub update_status_of-KeepsApart :
    (en : Engine) (now i : ℕ) (s : InstanceStatus) (t : String)
    → KeepsApart t (update_status_of en now i s t)
unfolding update_status_of
update_status_of-KeepsApart en now i s t db db' h = ground (
  arith,
  apart-update_instances t (instance_at t i) (set_status s now) db.instances (λ r e. ground arith)
      (λ r. refl),
)

pub save_device_of-KeepsApart :
    (en : Engine) (now : ℕ) (input : SaveWhatsAppDeviceInput) (t : String)
    → KeepsApart t (save_device_of en now input t)
unfolding save_device_of
save_device_of-KeepsApart en now input t db db' h = ground (
  arith,
  apart-insert_connection t input.instance_id now db.connections,
  apart-update_connections t (connection_at t input.instance_id) (set_device input now)
      (insert_connection t input.instance_id now db.connections) (λ r e. ground arith) (λ r. refl),
)

pub clear_device_of-KeepsApart :
    (en : Engine) (now i : ℕ) (t : String) → KeepsApart t (clear_device_of en now i t)
unfolding clear_device_of
clear_device_of-KeepsApart en now i t db db' h = ground (
  arith,
  apart-update_connections t (connection_at t i) (clear_device now) db.connections
      (λ r e. ground arith) (λ r. refl),
)

pub update_picture_of-KeepsApart :
    (en : Engine) (now i : ℕ) (url picture : Option String) (t : String)
    → KeepsApart t (update_picture_of en now i url picture t)
unfolding update_picture_of
update_picture_of-KeepsApart en now i url picture t db db' h = ground (
  arith,
  apart-insert_connection t i now db.connections,
  apart-update_instances t (instance_at t i) (set_url url now) db.instances (λ r e. ground arith)
      (λ r. refl),
  apart-update_connections t (connection_at t i) (set_picture picture now)
      (insert_connection t i now db.connections) (λ r e. ground arith) (λ r. refl),
)

apart-delete_cascade : (t : String) (i : ℕ) (db : Db) → apart t (delete_cascade t i db) ≡ apart t db
apart-delete_cascade t i db k = record {
  instances =
      select-delete_rows (λ r. not (r.tenant_id == t)) (instance_at t i) db.instances
        (λ r e. ground arith) k;
  connections =
      select-delete_rows (λ r. not (r.tenant_id == t)) (connection_at t i) db.connections
        (λ r e. ground arith) k;
  messages =
      select-delete_rows (λ r. not (r.tenant_id == t)) (owned_by t i) db.messages
        (λ r e. ground arith) k;
  chats =
      select-delete_rows (λ r. not (r.tenant_id == t)) (owned_by t i) db.chats (λ r e. ground arith)
        k;
  contacts =
      select-delete_rows (λ r. not (r.tenant_id == t)) (owned_by t i) db.contacts
        (λ r e. ground arith) k;
  webhooks =
      select-delete_rows (λ r. not (r.tenant_id == t)) (owned_by t i) db.webhooks
        (λ r e. ground arith) k;
  message_updates =
      select-delete_rows (λ r. not (r.tenant_id == t)) (owned_by t i) db.message_updates
        (λ r e. ground arith) k;
  webhook_deliveries =
      select-delete_rows (λ r. not (r.tenant_id == t)) (owned_by t i) db.webhook_deliveries
        (λ r e. ground arith) k;
  message_jobs =
      select-delete_rows (λ r. not (r.tenant_id == t)) (owned_by t i) db.message_jobs
        (λ r e. ground arith) k;
  address_mappings =
      select-delete_rows (λ r. not (r.tenant_id == t)) (owned_by t i) db.address_mappings
        (λ r e. ground arith) k;
}

pub delete_of-eq :
    (en : Engine) (i : ℕ) (force : Bool) (t : String) (db db' : Db)
    → delete_of en i force t db ≡ ok db'
    → delete_cascade t i db ≡ db'
unfolding delete_of
delete_of-eq en i force t db db' h = ground arith

pub delete_of-KeepsApart :
    (en : Engine) (i : ℕ) (force : Bool) (t : String) → KeepsApart t (delete_of en i force t)
delete_of-KeepsApart en i force t db db' h =
    subst (λ d. apart t d ≡ apart t db) (delete_of-eq en i force t db db' h)
      (apart-delete_cascade t i db)

pub transaction-apart :
    (t : String) (step : Step) (db : Db)
    → KeepsApart t step
    → apart t (transaction step db).0 ≡ apart t db
transaction-apart t step db keeps =
    (elim (step db) as (λ r. step db ≡ r → apart t (returned r db).0 ≡ apart t db) [
      | ok db' ↦ λ e. keeps db db' e
      | err e ↦ λ _. refl
    ])
      refl
