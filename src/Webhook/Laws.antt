-- ===== src/Webhook/Laws.antt =====
-- What internal/database/types/webhook.go and internal/webhook/manager.go guarantee.
use arandu_whatsapp.Authz.Checks.{check_instance_lookup}
use arandu_whatsapp.Authz.Security.{Security, runtime}
use arandu_whatsapp.Errors.{Error, Result, err, ok}
use arandu_whatsapp.Policy.{Action-eq}
use arandu_whatsapp.Prelude.{
  ==_iff, ==_refl, Bool, List, List-eq, Option, Option-eq, String, String-eq, [], all, arith, false,
  map, none, refl, some, true, ℕ-eq, ◌++◌, ◌<◌, ◌↔◌, ◌∷◌, ◌≡◌, ◌≢◌, ◌≤◌,
}
use arandu_whatsapp.Prelude.Text.{Text, Unicode, len}
use arandu_whatsapp.Webhook.Dispatch.{
  Endpoint, Services, WebhookConfiguration, deliver, dispatch, dispatch_event, global_endpoint,
  global_target, instance_endpoint, instance_target, parse_webhook_events, webhook_runtime_grant,
}
use arandu_whatsapp.Webhook.Events.{
  WebhookEvent, WebhookEvents, is_enabled, is_supported, is_webhook_event_field, of_fields,
  unlisted, validate_webhook_event_fields, webhook_events_by_name, webhook_fields_by_name,
}
use arandu_whatsapp.Webhook.Manager.{Manager, ManagerConfig, new_manager, normalize_url}

-- The three tables of the events agree: whatever the fields of a configuration say, it switches each
-- event on exactly when the field that webhookFieldsByName names for it is true; the fields are those
-- of all supported events in the same order, each of them is supported, and an event outside the
-- constants is never switched on.
pub tables_agree :
    (v : String → Bool) (name : String)
    → (map (λ e. is_enabled (of_fields v) e.1) webhook_fields_by_name
        ≡ map (λ e. v e.0) webhook_fields_by_name)
      × (map (λ e. e.1) webhook_fields_by_name ≡ webhook_events_by_name)
      × (all is_supported webhook_events_by_name ≡ true)
      × (is_enabled (of_fields v) (unlisted name) ≡ false)
unfolding is_enabled of_fields is_supported
tables_agree v name = (refl, refl, refl, refl)

-- Every field of a request is known exactly when the validation passes.
pub validate_iff :
    (events : List String)
    → (validate_webhook_event_fields events ≡ none) ↔ (all is_webhook_event_field events ≡ true)
unfolding validate_webhook_event_fields
validate_iff [] = ground arith
validate_iff (event ∷ events) = ground (arith, validate_iff events)

module _ (unicode : Unicode) (hesape_normalize_url : Text → Option Text) where
  -- A manager that NewManager returns has a URL and a signing secret if its global webhook is enabled,
  -- signs with 32 bytes at least or not at all, and keeps deliveries for a positive time.
  pub new_manager_lem :
      (built : Option Error) (cfg : ManagerConfig) (m : Manager)
      → new_manager unicode hesape_normalize_url built cfg ≡ ok m
      → (m.global_enabled ≡ cfg.global_enabled)
        × (m.global_enabled ≡ true → (m.global_url ≢ []) × (m.signing_available ≡ true))
        × (m.signing_available ≡ true → 32 ≤ len m.secret)
        × (0 < m.retention)
        × (m.retention < 9223372036854775808)
  unfolding new_manager
  new_manager_lem built cfg m h = ground (arith, ==_refl {A = Text} [])

  deliver-global :
      (sv : Services) (m : Manager) (failed : Option Error) (endpoints : List Endpoint)
      → m.global_enabled ≡ true
      → m.signing_available ≡ true
      → sv.new_id ≡ none
      → (deliver unicode sv m failed (endpoints ++ global_endpoint unicode sv m)).1
        ≡ endpoints ++ record { target = global_target; url = m.global_url } ∷ []
  unfolding deliver global_endpoint
  deliver-global sv m failed [] on signs i = ground arith
  deliver-global sv m failed (x ∷ endpoints) on signs i = ground arith

  -- A manager with the global webhook that NewManager returns hands every supported event to the
  -- delivery engine for the global URL, after the URL of the instance if that is selected, under a runtime Grant of the same tenant and whatever the
  -- configuration of the instance is, also where it cannot be read or is not valid; the Grant may load
  -- the instance, and the payload and the event id are made.
  pub global_delivered :
      (sv : Services) (security : Security) (built : Option Error) (cfg : ManagerConfig)
      (m : Manager) (event : WebhookEvent)
      (configured : security.Grant → Result WebhookConfiguration) (g : security.Grant)
      → new_manager unicode hesape_normalize_url built cfg ≡ ok m
      → m.global_enabled ≡ true
      → is_supported event ≡ true
      → check_instance_lookup security g ≡ none
      → security.tenant g ≢ ""
      → sv.marshalled ≡ none
      → sv.new_id ≡ none
      → (dispatch unicode sv security m event configured g).1
        ≡ some (
          security.system_grant runtime (security.tenant g),
          (instance_endpoint unicode sv event
                (configured (security.system_grant runtime (security.tenant g)))).1
              ++ record { target = global_target; url = m.global_url } ∷ [],
        )
  unfolding dispatch dispatch_event webhook_runtime_grant
  global_delivered sv security built cfg m event configured g made on known allowed t j i = ground (
    arith,
    ==_iff (security.tenant g) "",
    deliver-global sv m
        (instance_endpoint unicode sv event
          (configured (security.system_grant runtime (security.tenant g)))).0
        (instance_endpoint unicode sv event
          (configured (security.system_grant runtime (security.tenant g)))).1
        on ((new_manager_lem built cfg m made).1 on).1 i,
  )

-- The conditions under which the webhook of an instance is selected for an event.
pub record Selects (unicode : Unicode) (sv : Services) (event : WebhookEvent)
    (configured : Result WebhookConfiguration) (url : Text) : Type 0 where
  pub webhook : WebhookConfiguration
  pub events : WebhookEvents
  pub read : configured ≡ ok webhook
  pub on : webhook.enabled ≡ true
  pub parsed : parse_webhook_events sv webhook.events ≡ ok events
  pub switched : is_enabled events event ≡ true
  pub normal : normalize_url unicode sv.hesape_normalize_url webhook.url ≡ ok url

module _ (unicode : Unicode) (sv : Services) (event : WebhookEvent) (url : Text) where
  selected_reads :
      (webhook : WebhookConfiguration)
      → (instance_endpoint unicode sv event (ok webhook)).1
        ≡ record { target = instance_target; url = url } ∷ []
      → (r : Result WebhookEvents) → parse_webhook_events sv webhook.events ≡ r
      → Selects unicode sv event (ok webhook) url
  unfolding instance_endpoint
  selected_reads webhook h (err e) parsed = ground arith
  selected_reads webhook h (ok events) parsed = record {
    webhook = webhook;
    events = events;
    read = refl;
    on = ground arith;
    parsed = parsed;
    switched = ground arith;
    normal = ground arith;
  }

  -- The webhook of an instance is selected, with this URL, exactly when its configuration is read, is
  -- enabled, switches the event on, and has a URL that normalizes to this one.
  pub instance_endpoint_iff :
      (configured : Result WebhookConfiguration)
      → ((instance_endpoint unicode sv event configured).1
          ≡ record { target = instance_target; url = url } ∷ [])
        ↔ Selects unicode sv event configured url
  unfolding instance_endpoint
  instance_endpoint_iff (err e) = (λ h. ground arith, λ v. ground (arith, v.read))
  instance_endpoint_iff (ok webhook) = (
    λ h. selected_reads webhook h (parse_webhook_events sv webhook.events) refl,
    λ v. ground (arith, v.read, v.on, v.parsed, v.switched, v.normal),
  )
