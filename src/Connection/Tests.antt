-- ===== src/Connection/Tests.antt =====
-- Tests and instances for internal/whatsapp/service.go and internal/whatsapp/phone.go.
use arandu_whatsapp.Authz.Checks.{
  check_clear_device, check_connection_lock, check_connection_state, check_instance_status,
  runtime_grant_from_pair, tenant_from_grant,
}
use arandu_whatsapp.Authz.Security.{Action-discrete, connection_logout, connection_pair, runtime}
use arandu_whatsapp.Connection.{Item, WhatsAppClient, World, normalize_phone_number, not_logged_in}
use arandu_whatsapp.Connection.Balance.{acquired, cleanup_releases, cleanup_slots}
use arandu_whatsapp.Connection.Cleanup.{
  Environment, cleanup_whatsapp_client, mark_instance_logged_out,
}
use arandu_whatsapp.Connection.Laws.{
  connect_phone_fails, connect_with_lock_slots, slots_after, succeeds,
}
use arandu_whatsapp.Connection.Leases.{IsUnheld, restore_one_releases}
use arandu_whatsapp.Connection.Logout.{HasStatus, device_of, mark_instance_logged_out_lem, row_of}
use arandu_whatsapp.Connection.Phone.{
  PhoneEnvironment, authenticate_instance, connect_item, connect_locked, connect_phone,
  connect_reserved, connect_with_lock, pair_and_register,
}
use arandu_whatsapp.Connection.Restore.{
  RestoreEnvironment, connect_failed, connect_started, managed_of, restore_one,
}
use arandu_whatsapp.Connection.Restoring.{restore_one_slots}
use arandu_whatsapp.Database.{InstanceRow, InstanceStatus, healthy, logged_out}
use arandu_whatsapp.Database.Doors.{clear_whatsapp_device, update_connection_state, update_status}
use arandu_whatsapp.Database.Inputs.{set_state}
use arandu_whatsapp.Database.Instances.{
  clear_device_of, ensure_connection, instance_exists, update_state_of, update_status_of,
}
use arandu_whatsapp.Database.Locks.{try_acquire_connection_lock, try_acquire_of}
use arandu_whatsapp.Database.Locks.Exclusion.{lease}
use arandu_whatsapp.Database.Sql.{affected, find, update}
use arandu_whatsapp.Errors.{Sentinel, err, external, fail, ok}
use arandu_whatsapp.Fixtures.{DemoGrant, ascii, demo, grant_of}
use arandu_whatsapp.Hub.{exists, new_client_hub, reserve}
use arandu_whatsapp.Hub.Slots.{Slot, occupied, slot}
use arandu_whatsapp.Policy.{Action-eq}
use arandu_whatsapp.Prelude.{
  List-eq, Option-eq, String, String-eq, [], false, if◌then◌else◌, list_eq, none, refl, some, true,
  ℕ, ℕ-eq, ◌∷◌, ◌≡◌, ◌≢◌, ◌⊎◌,
}
use arandu_whatsapp.Prelude.Map.{get}
use arandu_whatsapp.Prelude.Text.{Text, codes, len, trim_left, trim_space}

abbrev sales_item : Item
sales_item = record {
  id = 7;
  name = "sales";
  status = InstanceStatus.online;
  connection_status = logged_out;
  whatsapp_device_jid = none;
  whatsapp_owner_jid = none;
  owner_jid = none;
}

abbrev sales_row : InstanceRow
sales_row = record {
  id = 7;
  tenant_id = "acme";
  name = codes "sales";
  status = InstanceStatus.online;
  owner_jid = none;
  profile_pic_url = none;
  description = none;
  external_attributes = [];
  connection_lock_owner = none;
  connection_lock_until = none;
  created_at = 1;
  updated_at = 1;
}

abbrev fresh_client : WhatsAppClient
fresh_client = record {
  is_connected = false;
  is_logged_in = false;
  store_id = none;
  connect = none;
  logout = not_logged_in;
  delete_store = none;
}

abbrev world : World
world = record {
  hub = new_client_hub;
  db = record {
    instances = sales_row ∷ [];
    connections = [];
    messages = [];
    chats = [];
    contacts = [];
    webhooks = [];
    message_updates = [];
    webhook_deliveries = [];
    message_jobs = [];
    address_mappings = [];
  };
}

-- WhatsApp refuses to pair.
abbrev refusing : PhoneEnvironment
refusing = record {
  find_by_name = λ name. ok sales_item;
  acquire_fault = none;
  release_fault = none;
  engines = λ n. healthy;
  client = ok fresh_client;
  pair_phone = λ phone. err (external "rate limited");
  now = 100;
}

abbrev digit_7 : ℕ → String
digit_7 n = "7"

abbrev pairing_grant : DemoGrant
pairing_grant = grant_of connection_pair "acme"

abbrev number : Text
number = codes "+55 11 98765-4321"

refused_pairing :
    succeeds
      (connect_phone ascii refusing demo digit_7 "p1" pairing_grant (codes "sales") number world).1
    ≡ false
unfolding connect_phone connect_item connect_with_lock connect_locked connect_reserved
    pair_and_register authenticate_instance try_acquire_connection_lock try_acquire_of
    update_connection_state update_state_of ensure_connection instance_exists normalize_phone_number
    runtime_grant_from_pair check_connection_lock check_connection_state tenant_from_grant
    Action-discrete trim_space trim_left len list_eq affected find update set_state exists reserve
    get
refused_pairing = refl

connect_phone_fails_example :
    slot
      (connect_phone ascii refusing demo digit_7 "p1" pairing_grant
        (codes "sales")
        number
        world).0.hub
      "7"
    ≡ slot new_client_hub "7"
connect_phone_fails_example =
    connect_phone_fails ascii refusing demo digit_7 "p1" pairing_grant (codes "sales") number world
      "7" refused_pairing

connect_with_lock_slots_example :
    slot
      (connect_with_lock ascii refusing demo digit_7 "p1" pairing_grant sales_item number
        world).0.hub
      "7"
    ≡ slots_after ascii refusing demo digit_7 "p1" pairing_grant sales_item world
        (succeeds
          (connect_with_lock ascii refusing demo digit_7 "p1" pairing_grant sales_item number
            world).1)
        "7"
connect_with_lock_slots_example =
    connect_with_lock_slots ascii refusing demo digit_7 "p1" pairing_grant sales_item number world
      "7"

abbrev environment : Environment
environment = record {
  acquire_fault = none;
  release_fault = none;
  client_of = λ c. some fresh_client;
  client_for_device = λ jid. fail Sentinel.session_missing;
}

abbrev logout_grant : DemoGrant
logout_grant = grant_of connection_logout "acme"

cleanup_slots_example :
    (slot
        (cleanup_whatsapp_client ascii environment demo digit_7 100 "p1" logout_grant sales_item
          world).0.hub
        "7"
      ≡ (if acquired
            (try_acquire_connection_lock demo none 100 "p1" logout_grant (some 7) world.db).1
          then Slot.free
          else slot new_client_hub "7"))
    × (acquired (try_acquire_connection_lock demo none 100 "p1" logout_grant (some 7) world.db).1
          ≡ false
        → (cleanup_whatsapp_client ascii environment demo digit_7 100 "p1" logout_grant sales_item
            world).1
          ≢ none)
unfolding try_acquire_connection_lock check_connection_lock Action-discrete tenant_from_grant
    affected
cleanup_slots_example =
    cleanup_slots ascii environment demo digit_7 100 "p1" logout_grant sales_item world "7"

got_lock :
    acquired (try_acquire_connection_lock demo none 100 "p1" logout_grant (some 7) world.db).1
    ≡ true
unfolding try_acquire_connection_lock try_acquire_of check_connection_lock tenant_from_grant
    Action-discrete affected
got_lock = refl

cleanup_releases_example :
    lease 200 "acme" 7
      (cleanup_whatsapp_client ascii environment demo digit_7 100 "p1" logout_grant sales_item
        world).0.db
    ≢ some (some "p1")
cleanup_releases_example =
    cleanup_releases ascii environment demo digit_7 100 "p1" logout_grant sales_item world 200 refl
      got_lock

normalized : normalize_phone_number ascii number ≡ ok (codes "5511987654321")
unfolding normalize_phone_number trim_space trim_left len
normalized = refl

may_clear : check_clear_device demo logout_grant ≡ none
unfolding check_clear_device Action-discrete
may_clear = refl

marked : (mark_instance_logged_out demo (λ n. healthy) 100 logout_grant 7 true world.db).1 ≡ none
unfolding mark_instance_logged_out update_status update_status_of update_connection_state
    update_state_of clear_whatsapp_device clear_device_of ensure_connection instance_exists
    check_instance_status check_connection_state check_clear_device tenant_from_grant
    Action-discrete affected find update set_state
marked = refl

mark_instance_logged_out_example :
    HasStatus logged_out (
      row_of demo 100 logout_grant 7
        (mark_instance_logged_out demo (λ n. healthy) 100 logout_grant 7 true world.db).0)
    × (device_of (
          row_of demo 100 logout_grant 7
            (mark_instance_logged_out demo (λ n. healthy) 100 logout_grant 7 true world.db).0)
        ≡ none)
mark_instance_logged_out_example =
    mark_instance_logged_out_lem demo 100 logout_grant 7 (λ n. healthy) true world.db refl may_clear
      marked

-- A paired instance whose client starts to connect.
abbrev paired_item : Item
paired_item = record sales_item { whatsapp_device_jid = some "55:1@s" }

abbrev paired_client : WhatsAppClient
paired_client = record fresh_client {
  store_id = some (record { device_jid = "55:1@s"; non_ad_jid = "55@s" });
}

abbrev restoring : RestoreEnvironment
restoring = record {
  acquire_fault = none;
  release_fault = none;
  engines = λ n. healthy;
  client_for_device = ok paired_client;
  existing = none;
  connect = connect_started;
  connected = paired_client;
  signalled = true;
  now = 100;
}

abbrev restored : World
restored =
    (restore_one ascii restoring demo digit_7 "p1" (grant_of runtime "acme") paired_item world).0

restore_one_slots_example :
    (slot restored.hub "7" ≡ slot new_client_hub "7")
    ⊎ ((digit_7 7 ≡ "7")
        × (slot new_client_hub "7" ≡ Slot.free)
        × (slot restored.hub "7"
            ≡ occupied (
                managed_of ascii restoring demo digit_7 "p1"
                  (grant_of runtime "acme")
                  paired_item)))
restore_one_slots_example =
    restore_one_slots ascii restoring demo digit_7 "p1" (grant_of runtime "acme") paired_item world
      "7"

abbrev failing : RestoreEnvironment
failing = record restoring { connect = connect_failed (external "no network") }

restore_acquires :
    (try_acquire_connection_lock demo failing.acquire_fault failing.now "p1"
      (grant_of runtime "acme")
      (some 7)
      world.db).1
    ≡ ok true
unfolding try_acquire_connection_lock try_acquire_of check_connection_lock tenant_from_grant
    Action-discrete affected find update
restore_acquires = refl

restore_one_releases_example :
    IsUnheld ascii failing demo digit_7 "p1"
      (grant_of runtime "acme")
      101
      paired_item
      (restore_one ascii failing demo digit_7 "p1" (grant_of runtime "acme") paired_item world).0
restore_one_releases_example =
    restore_one_releases ascii failing demo digit_7 "p1" (grant_of runtime "acme") 101 paired_item
      "55:1@s" world refl (λ h. cc) refl restore_acquires
