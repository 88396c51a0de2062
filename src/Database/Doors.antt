-- ===== src/Database/Doors.antt =====
-- The exported operations of internal/database/repository/instance_repository.go: each checks its
-- Grant, takes the tenant from it, and then runs its body.
use arandu_whatsapp.Authz.Checks.{
  check_clear_device, check_connection_state, check_instance_status, tenant_from_grant,
}
use arandu_whatsapp.Authz.Security.{
  Security, instance_create, instance_delete, instance_update, runtime,
}
use arandu_whatsapp.Database.{Db, Engine, InstanceRow, InstanceStatus}
use arandu_whatsapp.Database.Creation.{
  CreateInstanceInput, Drafting, UpdateInstanceInput, create_of, update_of,
}
use arandu_whatsapp.Database.Inputs.{SaveWhatsAppDeviceInput, UpdateConnectionStateInput}
use arandu_whatsapp.Database.Instances.{
  Step, clear_device_of, delete_of, save_device_of, transaction, update_picture_of, update_state_of,
  update_status_of,
}
use arandu_whatsapp.Errors.{Error, Result, err, ok, unless, ◌>>=◌}
use arandu_whatsapp.Policy.{Action-eq}
use arandu_whatsapp.Prelude.{
  ==_iff, Bool, List-eq, Option, Option-eq, String, String-eq, arith, none, some, ℕ, ℕ-eq, ◌≡◌, ◌≢◌,
}
use arandu_whatsapp.Prelude.Text.{Unicode}

module _ (security : Security) where
  open security use {Grant, check, tenant}

  -- How each exported operation opens: its check, then the tenant of the Grant, then the body.
  abbrev pub door : Option Error → Grant → (String → Step) → Db → Db × Option Error
  door refused g body =
      transaction (λ db. unless refused (do t ← tenant_from_grant security g; body t db))

  -- How an operation opens that returns a value: what it wrote stays where it returns an error.
  abbrev pub door_to {ℓ} :
      {A : Type ℓ} → Option Error → Grant → (String → Db → Db × Result A) → Db → Db × Result A
  door_to refused g body db = elim refused [
    | some e ↦ (db, err e)
    | none ↦ elim (tenant_from_grant security g) [ err e ↦ (db, err e) | ok t ↦ body t db ]
  ]

  -- Create
  unfoldable pub create_instance :
      Unicode → Drafting → Engine → ℕ → Grant → CreateInstanceInput → Db → Db × Result InstanceRow
  unfolding create_of
  create_instance unicode b en now g input =
      door_to (check g instance_create) g (create_of unicode b en now input)

  -- Update
  unfoldable pub update_instance :
      Unicode
      → Drafting
      → Engine
      → ℕ
      → Grant
      → ℕ
      → UpdateInstanceInput
      → Db
      → Db × Result InstanceRow
  unfolding update_of
  update_instance unicode b en now g i input =
      door_to (check g instance_update) g (update_of unicode b en now i input)

  unfoldable pub update_connection_state :
      Engine → ℕ → Grant → UpdateConnectionStateInput → Db → Db × Option Error
  unfolding update_state_of
  update_connection_state en now g input =
      door (check_connection_state security g) g (update_state_of en now input)

  unfoldable pub update_status : Engine → ℕ → Grant → ℕ → InstanceStatus → Db → Db × Option Error
  unfolding update_status_of
  update_status en now g i s =
      door (check_instance_status security g) g (update_status_of en now i s)

  unfoldable pub save_whatsapp_device :
      Engine → ℕ → Grant → SaveWhatsAppDeviceInput → Db → Db × Option Error
  unfolding save_device_of
  save_whatsapp_device en now g input = door (check g runtime) g (save_device_of en now input)

  unfoldable pub clear_whatsapp_device : Engine → ℕ → Grant → ℕ → Db → Db × Option Error
  unfolding clear_device_of
  clear_whatsapp_device en now g i =
      door (check_clear_device security g) g (clear_device_of en now i)

  unfoldable pub update_profile_picture :
      Engine → ℕ → Grant → ℕ → Option String → Option String → Db → Db × Option Error
  unfolding update_picture_of
  update_profile_picture en now g i url picture =
      door (check g runtime) g (update_picture_of en now i url picture)

  unfoldable pub delete_instance : Engine → Grant → ℕ → Bool → Db → Db × Option Error
  unfolding delete_of
  delete_instance en g i force = door (check g instance_delete) g (delete_of en i force)

  -- What a door that succeeds has passed: its check and the tenant of the Grant.
  pub door-eq_ok :
      (refused : Option Error) (g : Grant) (body : String → Step) (db db' : Db)
      → (unless refused (do t ← tenant_from_grant security g; body t db)) ≡ ok db'
      → (refused ≡ none) × (tenant g ≢ "") × (body (tenant g) db ≡ ok db')
  unfolding tenant_from_grant
  door-eq_ok refused g body db db' h = ground (arith, ==_iff (tenant g) "")
