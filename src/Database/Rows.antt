-- ===== src/Database/Rows.antt =====
-- The rows of other tenants under Create, Update and the connection lock of
-- internal/database/repository/instance_repository.go.
use mathlib.Core.List.{append-nil}
use arandu_whatsapp.Database.{Db, Engine, InstanceRow}
use arandu_whatsapp.Database.Creation.{
  CreateInstanceInput, Drafting, UpdateInstanceInput, create_of, insert_instance, new_instance,
  set_instance, update_columns, update_of,
}
use arandu_whatsapp.Database.Inputs.{instance_at}
use arandu_whatsapp.Database.Isolation.{apart, apart-update_instances}
use arandu_whatsapp.Database.Locks.{
  acquirable, drop_lease, held_by, release_of, take_lease, try_acquire_of,
}
use arandu_whatsapp.Database.Sql.{select, select-append, update}
use arandu_whatsapp.Errors.{Error, err, ok}
use arandu_whatsapp.Policy.{Action-eq}
use arandu_whatsapp.Prelude.{
  ==_iff, List, List-eq, Option, Option-eq, String, String-eq, [], arith, none, not, refl, some, ℕ,
  ℕ-eq, ◌++◌, ◌==◌, ◌∷◌, ◌≡◌,
}
use arandu_whatsapp.Prelude.Text.{Unicode, trim_space}

module _ (t : String) where
  apart-insert_row :
      (r : InstanceRow) (rows : List InstanceRow)
      → r.tenant_id ≡ t
      → select (λ s. not (s.tenant_id == t)) (rows ++ r ∷ [])
        ≡ select (λ s. not (s.tenant_id == t)) rows
  unfolding select
  apart-insert_row r rows e = ground (
    arith,
    select-append (λ s. not (s.tenant_id == t)) rows (r ∷ []),
    ==_iff r.tenant_id t,
    append-nil (select (λ s. not (s.tenant_id == t)) rows),
  )

-- The other tenants see only the rows of the instances change.
apart-instances :
    (t : String) (rows : List InstanceRow) (db : Db)
    → select (λ r. not (r.tenant_id == t)) rows ≡ select (λ r. not (r.tenant_id == t)) db.instances
    → apart t (record db { instances = rows }) ≡ apart t db
apart-instances t rows db h = ground (arith, h)

insert_instance-apart :
    (unicode : Unicode) (b : Drafting) (en : Engine) (now : ℕ) (input : CreateInstanceInput)
    (t : String) (id : ℕ) (db : Db)
    → apart t (insert_instance unicode b en now input t id db).0 ≡ apart t db
unfolding insert_instance
insert_instance-apart unicode b en now input t id db = ground (
  arith,
  apart-instances t
      (db.instances ++ new_instance b now id t (trim_space unicode input.name) input ∷ []) db
      (apart-insert_row t (new_instance b now id t (trim_space unicode input.name) input)
        db.instances refl),
)

pub create_of-apart :
    (unicode : Unicode) (b : Drafting) (en : Engine) (now : ℕ) (input : CreateInstanceInput)
    (t : String) (db : Db)
    → apart t (create_of unicode b en now input t db).0 ≡ apart t db
unfolding create_of
create_of-apart unicode b en now input t db =
    (elim b.new_id
        as (λ r. b.new_id ≡ r → apart t (create_of unicode b en now input t db).0 ≡ apart t db) [
          | err e ↦ λ q. ground arith
          | ok id ↦ λ q. ground (arith, insert_instance-apart unicode b en now input t id db)
        ])
      refl

update_columns-apart :
    (unicode : Unicode) (b : Drafting) (en : Engine) (now i : ℕ) (input : UpdateInstanceInput)
    (t : String) (db : Db)
    → apart t (update_columns unicode b en now i input t db).0 ≡ apart t db
unfolding update_columns
update_columns-apart unicode b en now i input t db = ground (
  arith,
  apart-instances t (update (instance_at t i) (set_instance unicode input now) db.instances) db (
      apart-update_instances t (instance_at t i) (set_instance unicode input now) db.instances
        (λ r e. ground arith) (λ r. refl)),
)

pub update_of-apart :
    (unicode : Unicode) (b : Drafting) (en : Engine) (now i : ℕ) (input : UpdateInstanceInput)
    (t : String) (db : Db)
    → apart t (update_of unicode b en now i input t db).0 ≡ apart t db
unfolding update_of
update_of-apart unicode b en now i input t db =
    ground (arith, update_columns-apart unicode b en now i input t db)

pub try_acquire_of-apart :
    (fault : Option Error) (now : ℕ) (owner : String) (id : Option ℕ) (t : String) (db : Db)
    → apart t (try_acquire_of fault now owner id t db).0 ≡ apart t db
unfolding try_acquire_of
try_acquire_of-apart fault now owner none t db = refl
try_acquire_of-apart (some e) now owner (some i) t db = refl
try_acquire_of-apart none now owner (some i) t db =
    apart-instances t (update (acquirable t i owner now) (take_lease owner now) db.instances) db (
      apart-update_instances t (acquirable t i owner now) (take_lease owner now) db.instances
        (λ r e. ground arith) (λ r. refl))

pub release_of-apart :
    (fault : Option Error) (owner : String) (id : Option ℕ) (t : String) (db : Db)
    → apart t (release_of fault owner id t db).0 ≡ apart t db
unfolding release_of
release_of-apart fault owner none t db = refl
release_of-apart (some e) owner (some i) t db = refl
release_of-apart none owner (some i) t db =
    apart-instances t (update (held_by t i owner) drop_lease db.instances) db (
      apart-update_instances t (held_by t i owner) drop_lease db.instances (λ r e. ground arith)
        (λ r. refl))
