-- ===== src/Database/Writes.antt =====
-- The operations of internal/database/repository/instance_repository.go that write, as one
-- function, and what they all keep.
use arandu_whatsapp.Authz.Checks.{tenant_from_grant}
use arandu_whatsapp.Authz.Security.{Security}
use arandu_whatsapp.Database.{Db, Engine, InstanceStatus}
use arandu_whatsapp.Database.Creation.{
  CreateInstanceInput, Drafting, UpdateInstanceInput, create_of, update_of,
}
use arandu_whatsapp.Database.Doors.{
  clear_whatsapp_device, create_instance, delete_instance, door, door-eq_ok, door_to,
  save_whatsapp_device, update_connection_state, update_instance, update_profile_picture,
  update_status,
}
use arandu_whatsapp.Database.Inputs.{SaveWhatsAppDeviceInput, UpdateConnectionStateInput}
use arandu_whatsapp.Database.Instances.{
  Step, clear_device_of, delete_of, save_device_of, update_picture_of, update_state_of,
  update_status_of,
}
use arandu_whatsapp.Database.Isolation.{
  KeepsApart, apart, clear_device_of-KeepsApart, delete_of-KeepsApart, save_device_of-KeepsApart,
  transaction-apart, update_picture_of-KeepsApart, update_state_of-KeepsApart,
  update_status_of-KeepsApart,
}
use arandu_whatsapp.Database.Locks.{
  release_connection_lock, try_acquire_connection_lock, try_acquire_of,
}
use arandu_whatsapp.Database.Rows.{
  create_of-apart, release_of-apart, try_acquire_of-apart, update_of-apart,
}
use arandu_whatsapp.Errors.{Error, Result, err, ok, unless, ◌>>=◌}
use arandu_whatsapp.Prelude.{Bool, Option, String, arith, none, some, ℕ, ◌≡◌}
use arandu_whatsapp.Prelude.Text.{Unicode}

-- The operations with their arguments.
pub data Write : Type 0 where
  updating_state : UpdateConnectionStateInput → Write
  updating_status : ℕ → InstanceStatus → Write
  saving_device : SaveWhatsAppDeviceInput → Write
  clearing_device : ℕ → Write
  updating_picture : ℕ → Option String → Option String → Write
  deleting : ℕ → Bool → Write
  creating : Drafting → CreateInstanceInput → Write
  updating : Drafting → ℕ → UpdateInstanceInput → Write
  acquiring_lock : String → Option ℕ → Write
  releasing_lock : String → Option ℕ → Write

-- What is left of an operation, and its error.
abbrev pub unit_result {ℓ} : {A : Type ℓ} → Db × Result A → Db × Option Error
unit_result x = (x.0, elim x.1 [ ok a ↦ none | err e ↦ some e ])

module _ (security : Security) (unicode : Unicode) where
  open security use {Grant, tenant}

  unfoldable pub write : Engine → ℕ → Grant → Write → Db → Db × Option Error
  unfolding update_connection_state update_status save_whatsapp_device clear_whatsapp_device
      update_profile_picture delete_instance create_instance update_instance
      try_acquire_connection_lock release_connection_lock
  write en now g (updating_state input) db = update_connection_state security en now g input db
  write en now g (updating_status i s) db = update_status security en now g i s db
  write en now g (saving_device input) db = save_whatsapp_device security en now g input db
  write en now g (clearing_device i) db = clear_whatsapp_device security en now g i db
  write en now g (updating_picture i url picture) db =
      update_profile_picture security en now g i url picture db
  write en now g (deleting i force) db = delete_instance security en g i force db
  write en now g (creating b input) db =
      unit_result (create_instance security unicode b en now g input db)
  write en now g (updating b i input) db =
      unit_result (update_instance security unicode b en now g i input db)
  write en now g (acquiring_lock owner id) db =
      unit_result (try_acquire_connection_lock security (en.fault 0) now owner g id db)
  write en now g (releasing_lock owner id) db =
      release_connection_lock security (en.fault 0) owner g id db

  -- A door runs its body under the tenant of its Grant.
  door-KeepsApart :
      (refused : Option Error) (g : Grant) (body : String → Step)
      → KeepsApart (tenant g) (body (tenant g))
      → KeepsApart
          (tenant g)
          (λ db. unless refused (do t ← tenant_from_grant security g; body t db))
  door-KeepsApart refused g body keeps db db' h =
      keeps db db' (door-eq_ok security refused g body db db' h).2

  door-apart :
      (refused : Option Error) (g : Grant) (body : String → Step) (db : Db)
      → KeepsApart (tenant g) (body (tenant g))
      → apart (tenant g) (door security refused g body db).0 ≡ apart (tenant g) db
  door-apart refused g body db keeps =
      transaction-apart (tenant g) _ db (door-KeepsApart refused g body keeps)

  -- So does one that returns a value.
  door_to-apart :
      {A : Type 0} (refused : Option Error) (g : Grant) (body : String → Db → Db × Result A)
      (db : Db)
      → apart (tenant g) (body (tenant g) db).0 ≡ apart (tenant g) db
      → apart (tenant g) (unit_result (door_to security refused g body db)).0 ≡ apart (tenant g) db
  unfolding tenant_from_grant
  door_to-apart refused g body db keeps = ground (arith, keeps)

  door_release-apart :
      (fault : Option Error) (owner : String) (g : Grant) (id : Option ℕ) (db : Db)
      → apart (tenant g) (release_connection_lock security fault owner g id db).0
        ≡ apart (tenant g) db
  unfolding release_connection_lock tenant_from_grant
  door_release-apart fault owner g id db =
      ground (arith, release_of-apart fault owner id (tenant g) db)

  -- Tenant isolation of the instance repository: whichever of its ten operations that write a Grant is
  -- used for, with any arguments and whether it succeeds or fails, every row of every other tenant, in
  -- the table of instances and in the nine tables whose rows belong to an instance, stays as it was.
  pub write-apart :
      (en : Engine) (now : ℕ) (g : Grant) (w : Write) (db : Db)
      → apart (tenant g) (write en now g w db).0 ≡ apart (tenant g) db
  unfolding write
  write-apart en now g (updating_state input) db =
      door-apart _ g (update_state_of en now input) db
        (update_state_of-KeepsApart en now input (tenant g))
  write-apart en now g (updating_status i s) db =
      door-apart _ g (update_status_of en now i s) db
        (update_status_of-KeepsApart en now i s (tenant g))
  write-apart en now g (saving_device input) db =
      door-apart _ g (save_device_of en now input) db
        (save_device_of-KeepsApart en now input (tenant g))
  write-apart en now g (clearing_device i) db =
      door-apart _ g (clear_device_of en now i) db (clear_device_of-KeepsApart en now i (tenant g))
  write-apart en now g (updating_picture i url picture) db =
      door-apart _ g (update_picture_of en now i url picture) db
        (update_picture_of-KeepsApart en now i url picture (tenant g))
  write-apart en now g (deleting i force) db =
      door-apart _ g (delete_of en i force) db (delete_of-KeepsApart en i force (tenant g))
  write-apart en now g (creating b input) db =
      door_to-apart _ g (create_of unicode b en now input) db
        (create_of-apart unicode b en now input (tenant g) db)
  write-apart en now g (updating b i input) db =
      door_to-apart _ g (update_of unicode b en now i input) db
        (update_of-apart unicode b en now i input (tenant g) db)
  write-apart en now g (acquiring_lock owner id) db =
      door_to-apart _ g (try_acquire_of (en.fault 0) now owner id) db
        (try_acquire_of-apart (en.fault 0) now owner id (tenant g) db)
  write-apart en now g (releasing_lock owner id) db = door_release-apart (en.fault 0) owner g id db
