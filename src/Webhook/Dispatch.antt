-- ===== src/Webhook/Dispatch.antt =====
-- Dispatch of internal/webhook/manager.go and the lookup of internal/webhook/configuration_cache.go.
use arandu_whatsapp.Authz.Checks.{check_instance_lookup}
use arandu_whatsapp.Authz.Security.{Security, runtime}
use arandu_whatsapp.Errors.{
  Error, Result, err, errors_is, errors_join, external, fail, forbidden, join, ok, sentinel,
  signing_secret_required, unsupported_event, webhook_configuration_not_found, wrap, ◌>>=◌,
}
use arandu_whatsapp.Policy.{Action-eq}
use arandu_whatsapp.Prelude.{
  Bool, List, List-eq, Option, Option-eq, String, String-eq, [], false, if◌then◌else◌, none, not,
  some, ℕ-eq, ◌++◌, ◌==◌, ◌||◌, ◌∷◌,
}
use arandu_whatsapp.Prelude.Text.{Text, Unicode, codes}
use arandu_whatsapp.Webhook.Events.{
  WebhookEvent, WebhookEvents, event_name, is_enabled, is_supported, of_fields,
}
use arandu_whatsapp.Webhook.Manager.{ConfigurationCache, Manager, cache_enabled, normalize_url}

-- What Dispatch reads of a types.Webhook; `events` is the JSON text.
pub record WebhookConfiguration : Type 0 where
  pub url : Text
  pub enabled : Bool
  pub events : Text

-- cachedConfiguration; the webhook is that of `found`.
pub data CachedConfiguration : Type 0 where
  missing : CachedConfiguration
  found : WebhookConfiguration → CachedConfiguration

-- The callback of cache.Remember: what is cached of a read.
unfoldable pub to_cached : Result WebhookConfiguration → Result CachedConfiguration
to_cached (ok webhook) = ok (found webhook)
to_cached (err e) = if errors_is e webhook_configuration_not_found then ok missing else err e

-- configurationCache.lookup, where `remember` is what cache.Remember answers, given the result of its
-- callback.
unfoldable pub lookup :
    (Result CachedConfiguration → Result CachedConfiguration)
    → ConfigurationCache
    → Result WebhookConfiguration
    → Result WebhookConfiguration
unfolding to_cached cache_enabled
lookup remember c read = if not (cache_enabled c) then read else elim (remember (to_cached read)) [
  | err e ↦ err e
  | ok missing ↦ fail webhook_configuration_not_found
  | ok (found webhook) ↦ ok webhook
]

pub data Target : Type 0 where
  instance_target global_target : Target

-- A hesapewebhook.ManagerEndpoint, by the target in its id and its URL.
pub record Endpoint : Type 0 where
  pub target : Target
  pub url : Text

-- What Dispatch asks of other packages: JSON, the URL check, ids and the delivery engine.
pub record Services : Type 0 where
  pub marshalled : Option Error
  pub unmarshal_events : Text → Result (String → Bool)
  pub hesape_normalize_url : Text → Option Text
  pub new_id : Option Error
  pub delivery : List Endpoint → Option Error

-- ParseWebhookEvents
unfoldable pub parse_webhook_events : Services → Text → Result WebhookEvents
parse_webhook_events sv raw =
    if raw == [] || raw == codes "null"
    then ok (of_fields (λ f. false))
    else (do v ← sv.unmarshal_events raw; ok (of_fields v))

module _ (unicode : Unicode) (sv : Services) where
  -- The switch on the configuration: the endpoint of the instance, and the error of the switch.
  unfoldable pub instance_endpoint :
      WebhookEvent → Result WebhookConfiguration → Option Error × List Endpoint
  unfolding normalize_url parse_webhook_events
  instance_endpoint event (err e) =
      if errors_is e webhook_configuration_not_found then (none, []) else (some e, [])
  instance_endpoint event (ok configured) =
      if not configured.enabled
      then (none, [])
      else elim (parse_webhook_events sv configured.events) [
        | err e ↦ (some (join (external "parse webhook configuration events") e), [])
        | ok events ↦
            if not (is_enabled events event)
            then (none, [])
            else elim (normalize_url unicode sv.hesape_normalize_url configured.url) [
              | err e ↦ (some (join (external "normalize configured webhook URL") e), [])
              | ok url ↦ (none, record { target = instance_target; url = url } ∷ [])
            ]
      ]

  unfoldable pub global_endpoint : Manager → List Endpoint
  global_endpoint m =
      if m.global_enabled then record { target = global_target; url = m.global_url } ∷ [] else []

  -- From `len(endpoints) == 0` on: the error, and the endpoints handed to the delivery engine.
  unfoldable pub deliver : Manager → Option Error → List Endpoint → Option Error × List Endpoint
  deliver m failed [] = (failed, [])
  deliver m failed (x ∷ endpoints) =
      if not m.signing_available
      then (errors_join failed (some (sentinel signing_secret_required)), [])
      else elim sv.new_id [
        | some e ↦ (errors_join failed (some e), [])
        | none ↦ (errors_join failed (sv.delivery (x ∷ endpoints)), x ∷ endpoints)
      ]

  -- Dispatch under the runtime Grant; `configured` is the answer of the lookup.
  unfoldable pub dispatch_event :
      Manager → WebhookEvent → Result WebhookConfiguration → Option Error × List Endpoint
  unfolding deliver instance_endpoint global_endpoint
  dispatch_event m event configured =
      let (failed, endpoints) = instance_endpoint event configured in
      deliver m failed (endpoints ++ global_endpoint m)

  module _ (security : Security) where
    open security use {Grant, tenant, system_grant}

    -- webhookRuntimeGrant
    unfoldable pub webhook_runtime_grant : Grant → Result Grant
    webhook_runtime_grant g =
        if tenant g == ""
        then err (wrap forbidden (external "grant has no tenant"))
        else ok (system_grant runtime (tenant g))

    -- Dispatch; `configured` answers the lookup under the runtime Grant. The result has the error, and,
    -- where the endpoints are selected, the Grant and the endpoints handed to the delivery engine.
    unfoldable pub dispatch :
        Manager
        → WebhookEvent
        → (Grant → Result WebhookConfiguration)
        → Grant
        → Option Error × Option (Grant × List Endpoint)
    unfolding dispatch_event webhook_runtime_grant
    dispatch m event configured g = elim (check_instance_lookup security g) [
      | some e ↦ (some e, none)
      | none ↦
          if not (is_supported event)
          then (some (wrap unsupported_event (external (event_name event))), none)
          else elim (webhook_runtime_grant g) [
            | err e ↦ (some e, none)
            | ok r ↦ elim sv.marshalled [
              | some e ↦ (some e, none)
              | none ↦
                  let (failed, endpoints) = dispatch_event m event (configured r) in
                  (failed, some (r, endpoints))
            ]
          ]
    ]
