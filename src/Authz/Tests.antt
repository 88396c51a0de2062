-- ===== src/Authz/Tests.antt =====
-- Tests and instances for internal/authz/actions.go.
use arandu_whatsapp.Authz.Checks.{
  check_address_resolution, check_clear_device, check_connection_lock, check_connection_state,
  check_device_store, check_instance_status, check_message_content_update, check_message_create,
  runtime_grant_from_pair,
}
use arandu_whatsapp.Authz.Laws.{reads-refused, runtime_grant_from_pair_lem}
use arandu_whatsapp.Authz.Security.{Action-discrete, connection_pair, runtime, webhook_view, writes}
use arandu_whatsapp.Errors.{ok}
use arandu_whatsapp.Fixtures.{DemoGrant, demo, grant_of}
use arandu_whatsapp.Prelude.{none, refl, ◌≡◌, ◌≢◌}

reads-refused_example :
    (check_instance_status demo (grant_of webhook_view "acme") ≢ none)
    × (check_connection_state demo (grant_of webhook_view "acme") ≢ none)
    × (check_connection_lock demo (grant_of webhook_view "acme") ≢ none)
    × (check_clear_device demo (grant_of webhook_view "acme") ≢ none)
    × (check_message_create demo (grant_of webhook_view "acme") ≢ none)
    × (check_message_content_update demo (grant_of webhook_view "acme") ≢ none)
    × (check_address_resolution demo (grant_of webhook_view "acme") ≢ none)
    × (check_device_store demo (grant_of webhook_view "acme") ≢ none)
unfolding writes
reads-refused_example = reads-refused demo (grant_of webhook_view "acme") refl

abbrev pairing_grant : DemoGrant
pairing_grant = grant_of connection_pair "acme"

paired : runtime_grant_from_pair demo pairing_grant ≡ ok (grant_of runtime "acme")
unfolding runtime_grant_from_pair Action-discrete
paired = refl

runtime_grant_from_pair_example :
    (connection_pair ≡ connection_pair)
    × (pairing_grant.of_tenant ≢ "")
    × (runtime ≡ runtime)
    × ((grant_of runtime "acme").of_tenant ≡ pairing_grant.of_tenant)
    × (check_connection_state demo (grant_of runtime "acme") ≡ none)
    × (check_clear_device demo (grant_of runtime "acme") ≡ none)
    × (check_message_create demo (grant_of runtime "acme") ≢ none)
runtime_grant_from_pair_example =
    runtime_grant_from_pair_lem demo pairing_grant (grant_of runtime "acme") paired
