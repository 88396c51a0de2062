-- ===== src/Webhook/Tests.antt =====
-- Tests and instances for internal/webhook/manager.go.
use text.Mathlib.TextEquality.{eq_iff}
use arandu_whatsapp.Authz.Checks.{check_instance_lookup}
use arandu_whatsapp.Authz.Security.{Action-discrete, runtime}
use arandu_whatsapp.Errors.{Result, err, external, ok}
use arandu_whatsapp.Fixtures.{DemoGrant, ascii, demo, grant_of}
use arandu_whatsapp.Policy.{Action-eq}
use arandu_whatsapp.Prelude.{
  List-eq, Option, Option-eq, String, String-eq, [], all, arith, false, list_eq, map, none, refl,
  some, true, ℕ-eq, ◌++◌, ◌<◌, ◌↔◌, ◌∷◌, ◌≡◌, ◌≢◌, ◌≤◌,
}
use arandu_whatsapp.Prelude.Text.{Text, codes, len, trim_left, trim_space}
use arandu_whatsapp.Webhook.Dispatch.{
  Services, WebhookConfiguration, dispatch, global_target, instance_endpoint, instance_target,
}
use arandu_whatsapp.Webhook.Events.{
  event_messages_upsert, is_enabled, is_supported, of_fields, unlisted, webhook_events_by_name,
  webhook_fields_by_name,
}
use arandu_whatsapp.Webhook.Laws.{
  Selects, global_delivered, new_manager_lem, instance_endpoint_iff, tables_agree,
}
use arandu_whatsapp.Webhook.Manager.{
  Manager, ManagerConfig, default_delivery_retention, new_configuration_cache, new_manager,
  normalize_url,
}

tables_agree_example :
    (map (λ e. is_enabled (of_fields (λ f. true)) e.1) webhook_fields_by_name
      ≡ map (λ e. true) webhook_fields_by_name)
    × (map (λ e. e.1) webhook_fields_by_name ≡ webhook_events_by_name)
    × (all is_supported webhook_events_by_name ≡ true)
    × (is_enabled (of_fields (λ f. true)) (unlisted "x") ≡ false)
tables_agree_example = tables_agree (λ f. true) "x"

abbrev any_url : Text → Option Text
any_url url = some url

abbrev config : ManagerConfig
config = record {
  global_url = codes " https://example.com ";
  global_enabled = true;
  signing_secret = codes "0123456789abcdef0123456789abcdef";
  retention = 0;
  has_configuration_cache = false;
  configuration_cache_ttl = 0;
}

abbrev manager : Manager
manager = record {
  global_url = codes "https://example.com";
  global_enabled = true;
  signing_available = true;
  secret = codes "0123456789abcdef0123456789abcdef";
  retention = default_delivery_retention;
  config_cache = record { has_repository = false; ttl = 0 };
}

made : new_manager ascii any_url none config ≡ ok manager
unfolding new_manager list_eq normalize_url new_configuration_cache trim_space trim_left len
made = refl

new_manager_example :
    (manager.global_enabled ≡ config.global_enabled)
    × (manager.global_enabled ≡ true
        → (manager.global_url ≢ []) × (manager.signing_available ≡ true))
    × (manager.signing_available ≡ true → 32 ≤ len manager.secret)
    × (0 < manager.retention)
    × (manager.retention < 9223372036854775808)
new_manager_example = new_manager_lem ascii any_url none config manager made

abbrev services : Services
services = record {
  marshalled = none;
  unmarshal_events = λ raw. ok (λ f. true);
  hesape_normalize_url = any_url;
  new_id = none;
  delivery = λ endpoints. none;
}

acme_named : ◌≢◌ {A = String} "acme" ""
acme_named = ground (arith, eq_iff "acme" "")

allowed : check_instance_lookup demo (grant_of runtime "acme") ≡ none
unfolding check_instance_lookup Action-discrete
allowed = refl

supported : is_supported event_messages_upsert ≡ true
unfolding is_supported
supported = refl

abbrev unreadable : DemoGrant → Result WebhookConfiguration
unreadable g = err (external "connection reset")

global_delivered_example :
    (dispatch ascii services demo manager event_messages_upsert unreadable
      (grant_of runtime "acme")).1
    ≡ some (
      grant_of runtime "acme",
      (instance_endpoint ascii services event_messages_upsert (err (external "connection reset"))).1
          ++ record { target = global_target; url = codes "https://example.com" } ∷ [],
    )
global_delivered_example =
    global_delivered ascii any_url services demo none config manager event_messages_upsert
      unreadable (grant_of runtime "acme") made refl supported allowed acme_named refl refl

abbrev own : WebhookConfiguration
own = record { url = codes "https://acme.test"; enabled = true; events = codes "{}" }

instance_endpoint_iff_example :
    ((instance_endpoint ascii services event_messages_upsert (ok own)).1
      ≡ record { target = instance_target; url = codes "https://acme.test" } ∷ [])
    ↔ Selects ascii services event_messages_upsert (ok own) (codes "https://acme.test")
instance_endpoint_iff_example =
    instance_endpoint_iff ascii services event_messages_upsert (codes "https://acme.test") (ok own)
