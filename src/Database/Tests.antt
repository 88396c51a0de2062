-- ===== src/Database/Tests.antt =====
-- Tests and instances for internal/database/repository/instance_repository.go.
use text.Mathlib.TextEquality.{eq_iff}
use arandu_whatsapp.Authz.Checks.{check_connection_lock, tenant_from_grant}
use arandu_whatsapp.Authz.Security.{Action-discrete, instance_create, runtime}
use arandu_whatsapp.Database.{Db, InstanceRow, InstanceStatus, healthy}
use arandu_whatsapp.Database.Created.{IsReturned, create_instance_lem}
use arandu_whatsapp.Database.Creation.{
  CreateInstanceInput, Drafting, create_of, find_instance, insert_instance, new_instance,
}
use arandu_whatsapp.Database.Doors.{create_instance}
use arandu_whatsapp.Database.Inputs.{SaveWhatsAppDeviceInput, instance_at, new_connection}
use arandu_whatsapp.Database.Isolation.{apart}
use arandu_whatsapp.Database.Locks.{release_of, try_acquire_connection_lock, try_acquire_of}
use arandu_whatsapp.Database.Locks.Acquisition.{MayTake, try_acquire_iff}
use arandu_whatsapp.Database.Locks.Exclusion.{HasKeys, lease}
use arandu_whatsapp.Database.Locks.Reentrance.{second_release_ends}
use arandu_whatsapp.Database.Locks.Schedule.{
  IsWithin, LockOp, acquire_excludes, acquiring, releasing, run_locks,
}
use arandu_whatsapp.Database.Sql.{affected, find}
use arandu_whatsapp.Database.Writes.{Write, saving_device, write, write-apart}
use arandu_whatsapp.Errors.{Error, external, ok}
use arandu_whatsapp.Fixtures.{DemoGrant, ascii, demo, grant_of}
use arandu_whatsapp.Policy.{Action-eq}
use arandu_whatsapp.Prelude.{
  ==_iff, All, List, List-eq, Option, Option-eq, String, String-eq, [], arith, inl, inr, list_eq,
  none, refl, some, true, ℕ, ℕ-eq, ◌↔◌, ◌∷◌, ◌≡◌, ◌≢◌,
}
use arandu_whatsapp.Prelude.Text.{codes, trim_space}

abbrev sales : InstanceRow
sales = record {
  id = 7;
  tenant_id = "acme";
  name = codes "sales";
  status = InstanceStatus.online;
  owner_jid = none;
  profile_pic_url = none;
  description = none;
  external_attributes = [];
  connection_lock_owner = none;
  connection_lock_until = none;
  created_at = 1;
  updated_at = 1;
}

abbrev rival_sales : InstanceRow
rival_sales = record sales { id = 8; tenant_id = "umbrella" }

abbrev sample : Db
sample = record {
  instances = sales ∷ rival_sales ∷ [];
  connections = new_connection "umbrella" 8 2 ∷ [];
  messages = [];
  chats = [];
  contacts = [];
  webhooks = [];
  message_updates = [];
  webhook_deliveries = [];
  message_jobs = [];
  address_mappings = [];
}

abbrev device : SaveWhatsAppDeviceInput
device = record { instance_id = 7; device_jid = "55:1@s"; owner_jid = "55@s"; phone_number = "55" }

abbrev saving : Write
saving = saving_device device

write-apart_example :
    apart "acme" (write demo ascii healthy 9 (grant_of runtime "acme") saving sample).0
    ≡ apart "acme" sample
write-apart_example = write-apart demo ascii healthy 9 (grant_of runtime "acme") saving sample

sample-HasKeys : HasKeys sample.instances
unfolding affected
sample-HasKeys = record { keyed = λ t i. ground (arith, ==_iff 7 i, ==_iff 8 i) }

abbrev lock_grant : DemoGrant
lock_grant = grant_of runtime "acme"

abbrev rival_grant : DemoGrant
rival_grant = grant_of runtime "umbrella"

try_acquire_iff_example :
    ((try_acquire_connection_lock demo none 5 "p1" lock_grant (some 7) sample).1 ≡ ok true) ↔ (
      (check_connection_lock demo lock_grant ≡ none)
      × (demo.tenant lock_grant ≢ "")
      × (◌≡◌ {A = Option Error} none none)
      × MayTake 5 "p1" (find (instance_at "acme" 7) sample.instances))
try_acquire_iff_example = try_acquire_iff demo none 5 "p1" lock_grant 7 sample sample-HasKeys

acquired : (try_acquire_of none 5 "p1" (some 7) "acme" sample).1 ≡ ok true
unfolding try_acquire_of affected
acquired = refl

p1_not_p2 : ◌≢◌ {A = String} "p1" "p2"
p1_not_p2 = ground (arith, eq_iff "p1" "p2")

acquired_by_grant :
    (try_acquire_connection_lock demo none 5 "p1" lock_grant (some 7) sample).1 ≡ ok true
unfolding try_acquire_connection_lock check_connection_lock tenant_from_grant try_acquire_of
    affected Action-discrete
acquired_by_grant = refl

-- The holder asks again, a rival releases, and the holder releases another instance.
abbrev lock_ops : List (LockOp DemoGrant)
lock_ops =
    acquiring none 20 "p1" lock_grant (some 7)
    ∷ releasing none "p2" lock_grant (some 7)
    ∷ acquiring none 30 "p2" rival_grant (some 8)
    ∷ releasing none "p1" rival_grant (some 8)
    ∷ []

eight_not_seven : ◌≢◌ {A = Option ℕ} (some 8) (some 7)
eight_not_seven = ground arith

lock_ops-IsWithin : All (IsWithin 5 100 "p1" 7) lock_ops
lock_ops-IsWithin = (
  (omega arith, omega arith),
  (inl (ground (arith, eq_iff "p2" "p1")), ((omega arith, omega arith), (inr eight_not_seven, tt))),
)

acquire_excludes_example :
    (try_acquire_connection_lock demo none 100 "p2" lock_grant (some 7) (
      run_locks demo lock_ops
        (try_acquire_connection_lock demo none 5 "p1" lock_grant (some 7) sample).0)).1
    ≢ ok true
acquire_excludes_example =
    acquire_excludes demo none none 5 100 "p1" "p2" lock_grant lock_grant 7 lock_ops sample
      sample-HasKeys p1_not_p2 refl acquired_by_grant lock_ops-IsWithin (omega arith)

second_release_ends_example :
    ((try_acquire_of none 100 "p1"
        (some 7)
        "acme"
        (try_acquire_of none 5 "p1" (some 7) "acme" sample).0).1
      ≡ ok true)
    × (lease 100 "acme" 7
          (release_of none "p1"
            (some 7)
            "acme"
            (try_acquire_of none 100 "p1"
              (some 7)
              "acme"
              (try_acquire_of none 5 "p1" (some 7) "acme" sample).0).0).0
        ≡ none)
second_release_ends_example =
    second_release_ends 5 100 "p1" "acme" 7 sample sample-HasKeys acquired (omega arith)

abbrev drafting : Drafting
drafting = record {
  new_id = ok 9;
  to_lower = λ c. c;
  json_valid = λ s. true;
  unique_violation = external "UNIQUE constraint failed";
}

abbrev support : CreateInstanceInput
support = record {
  name = codes " support ";
  description = none;
  status = none;
  owner_jid = none;
  profile_pic_url = none;
  external_attributes = [];
}

abbrev creator : DemoGrant
creator = grant_of instance_create "acme"

create_instance_example :
    IsReturned ascii drafting 4 support "acme" sample
      (create_instance demo ascii drafting healthy 4 creator support sample)
create_instance_example =
    create_instance_lem demo ascii drafting healthy 4 creator support sample refl

support_created :
    (create_instance demo ascii drafting healthy 4 creator support sample).1
    ≡ ok (new_instance drafting 4 9 "acme" (codes "support") support)
unfolding create_instance create_of insert_instance find_instance find trim_space Action-discrete
    tenant_from_grant list_eq
support_created = refl
