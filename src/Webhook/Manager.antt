-- ===== src/Webhook/Manager.antt =====
-- NewManager and NormalizeURL of internal/webhook/manager.go. The URL check of the package
-- hesape/webhook is a parameter: what its NormalizeURL makes of a text, `none` for an error. A
-- time.Duration is an int64 in two's complement.
use arandu_whatsapp.Errors.{
  Error, Result, err, external, fail, invalid_webhook_url, ok, sentinel, signing_secret_required,
  signing_secret_too_short, unless, wrap, ◌>>=◌,
}
use arandu_whatsapp.Policy.{Action-eq}
use arandu_whatsapp.Prelude.{
  Bool, List-eq, Option, Option-eq, String-eq, [], false, if◌then◌else◌, leb, ltb, none, not, some,
  true, ℕ, ℕ-eq, ◌&&◌, ◌==◌, ◌||◌, ◌∷◌,
}
use arandu_whatsapp.Prelude.Text.{Text, Unicode, len, trim_space}

abbrev pub max_url_length : ℕ
max_url_length = 500

abbrev pub minimum_signing_key_size : ℕ
minimum_signing_key_size = 32

-- 30 * 24 * time.Hour and 5 * time.Second, in nanoseconds
abbrev pub default_delivery_retention : ℕ
default_delivery_retention = 2_592_000_000_000_000

abbrev pub default_configuration_cache_ttl : ℕ
default_configuration_cache_ttl = 5_000_000_000

-- d < 0
abbrev pub is_negative : ℕ → Bool
is_negative d = leb 9223372036854775808 d

-- What NewManager reads of a ManagerConfig.
pub record ManagerConfig : Type 0 where
  pub global_url : Text
  pub global_enabled : Bool
  pub signing_secret : Text
  pub retention : ℕ
  pub has_configuration_cache : Bool
  pub configuration_cache_ttl : ℕ

-- configurationCache, by its two fields
pub record ConfigurationCache : Type 0 where
  pub has_repository : Bool
  pub ttl : ℕ

-- newConfigurationCache
unfoldable pub new_configuration_cache : Bool → ℕ → ConfigurationCache
new_configuration_cache has_repository ttl =
    if not has_repository || ttl == 0 || is_negative ttl
    then record { has_repository = false; ttl = 0 }
    else record { has_repository = true; ttl = ttl }

-- enabled
unfoldable pub cache_enabled : ConfigurationCache → Bool
cache_enabled c = c.has_repository && not (c.ttl == 0 || is_negative c.ttl)

-- What Dispatch reads of a Manager; `retention` and `secret` go to the delivery engine.
pub record Manager : Type 0 where
  pub global_url : Text
  pub global_enabled : Bool
  pub signing_available : Bool
  pub secret : Text
  pub retention : ℕ
  pub config_cache : ConfigurationCache

module _ (unicode : Unicode) (hesape_normalize_url : Text → Option Text) where
  -- NormalizeURL
  unfoldable pub normalize_url : Text → Result Text
  normalize_url value =
      if ltb max_url_length (len (trim_space unicode value))
      then fail invalid_webhook_url
      else elim (hesape_normalize_url (trim_space unicode value)) [
        | none ↦ fail invalid_webhook_url
        | some parsed ↦ ok parsed
      ]

  -- The first block of NewManager: the global URL, normalized unless it is empty.
  abbrev pub global_url_of : Text → Result Text
  global_url_of [] = ok []
  global_url_of (c ∷ s) = elim (normalize_url (c ∷ s)) [
    | ok url ↦ ok url
    | err e ↦ err (wrap invalid_webhook_url (external "global webhook URL"))
  ]

  -- The checks that follow, in their order, of the URL and the trimmed secret.
  abbrev pub config_refusal : ManagerConfig → Text → Text → Option Error
  config_refusal cfg url secret =
      if cfg.global_enabled && url == []
      then some (wrap invalid_webhook_url (external "global webhook enabled without URL"))
      else if ltb 0 (len secret) && ltb (len secret) minimum_signing_key_size
      then some (sentinel signing_secret_too_short)
      else if cfg.global_enabled && len secret == 0
      then some (sentinel signing_secret_required)
      else if is_negative cfg.retention
      then some (external "webhook: delivery retention cannot be negative")
      else if is_negative cfg.configuration_cache_ttl
      then some (external "webhook: configuration cache TTL cannot be negative")
      else none

  -- NewManager over a database handle; `built` is the error of hesape's NewManagerWithStore.
  unfoldable pub new_manager : Option Error → ManagerConfig → Result Manager
  unfolding normalize_url new_configuration_cache
  new_manager built cfg = do
    url ← global_url_of (trim_space unicode cfg.global_url)
    let secret = trim_space unicode cfg.signing_secret
    unless (config_refusal cfg url secret) (
        unless built (
          ok (record {
            global_url = url;
            global_enabled = cfg.global_enabled;
            signing_available = ltb 0 (len secret);
            secret = secret;
            retention = if cfg.retention == 0 then default_delivery_retention else cfg.retention;
            config_cache = new_configuration_cache cfg.has_configuration_cache (
                if cfg.configuration_cache_ttl == 0
                then default_configuration_cache_ttl
                else cfg.configuration_cache_ttl);
          })))
