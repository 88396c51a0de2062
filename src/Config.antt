-- ===== src/Config.antt =====
-- The typed configuration of config/whatsapp.go: Validate and WithDefaults. A Go int or time.Duration is
-- an int64 in two's complement, durations in nanoseconds; a text is a list of code points.
pub mod Laws
mod Tests
use arandu_whatsapp.Authz.Security.{Action}
use arandu_whatsapp.Errors.{Error, errors_first, external}
use arandu_whatsapp.Policy.{Action-eq, PolicyConfig, is_whatsapp_action}
use arandu_whatsapp.Prelude.{
  Bool, List, List-eq, Option, Option-eq, String, String-eq, [], all, any, false, if◌then◌else◌,
  leb, length, ltb, none, not, some, true, ℕ, ℕ-eq, ◌&&◌, ◌==◌, ◌||◌, ◌∷◌,
}
use arandu_whatsapp.Prelude.Text.{Text, Unicode, ascii_digit, codes, len, trim_space}
use arandu_whatsapp.Webhook.Manager.{default_delivery_retention, is_negative, max_url_length}

pub record WhatsAppConfig : Type 0 where
  pub qr_code_limit : ℕ
  pub qr_code_expiration : ℕ
  pub qr_code_light_color : Text
  pub qr_code_dark_color : Text
  pub session_phone_client : Text
  pub session_phone_name : Text
  pub pairing_timeout : ℕ
  pub auto_reconnect : Bool
  pub startup_reconnect_concurrency : ℕ
  pub connect_timeout : ℕ
  pub reconnect_initial_delay : ℕ
  pub reconnect_max_delay : ℕ
  pub profile_picture_timeout : ℕ
  pub address_cache_ttl : ℕ

pub record WebhookConfig : Type 0 where
  pub global_url : Text
  pub global_enabled : Bool
  pub signing_secret : Text
  pub retention : ℕ
  pub configuration_cache_ttl : ℕ

pub record ProcessingConfig : Type 0 where
  pub processing_timeout : ℕ
  pub group_info_timeout : ℕ
  pub send_timeout : ℕ
  pub retention : ℕ

pub record MediaConfig : Type 0 where
  pub ffmpeg_path : Text
  pub ffprobe_path : Text
  pub temp_dir : Text
  pub max_input_bytes : ℕ
  pub max_duration_seconds : ℕ
  pub processing_timeout : ℕ

pub record PersistenceConfig : Type 0 where
  pub messages : Bool
  pub message_updates : Bool
  pub contacts : Bool

-- Config, without the fields that are retained for source compatibility and ignored.
pub record Config : Type 0 where
  pub tenant : Text
  pub prefix : Text
  pub whatsapp : WhatsAppConfig
  pub persistence : PersistenceConfig
  pub webhooks : WebhookConfig
  pub processing : ProcessingConfig
  pub media : MediaConfig
  pub policy : PolicyConfig

abbrev pub is_hex : ℕ → Bool
is_hex c = ascii_digit c || leb b'a' c && leb c b'f' || leb b'A' c && leb c b'F'

-- hexColor
unfoldable pub hex_color : Text → Bool
hex_color [] = false
hex_color (c ∷ s) = c == b'#' && length s == 6 && all is_hex s

-- strings.HasPrefix(prefix, "/")
abbrev pub has_slash : Text → Bool
has_slash [] = false
has_slash (c ∷ s) = c == b'/'

-- strings.TrimSuffix(prefix, "/")
unfoldable pub trim_slash : Text → Text
trim_slash [] = []
trim_slash (c ∷ []) = if c == b'/' then [] else c ∷ []
trim_slash (c ∷ d ∷ s) = c ∷ trim_slash (d ∷ s)

-- The prefix that Validate refuses.
abbrev pub bad_prefix : Text → Bool
bad_prefix prefix = not (prefix == []) && (not (has_slash prefix) || prefix == codes "/")

-- The durations of Validate.
abbrev pub durations : Config → List ℕ
durations c =
    c.whatsapp.qr_code_expiration ∷ c.whatsapp.pairing_timeout ∷ c.whatsapp.connect_timeout
    ∷ c.whatsapp.reconnect_initial_delay ∷ c.whatsapp.reconnect_max_delay
    ∷ c.whatsapp.profile_picture_timeout ∷ c.whatsapp.address_cache_ttl
    ∷ c.processing.processing_timeout ∷ c.processing.group_info_timeout ∷ c.processing.send_timeout
    ∷ c.processing.retention ∷ c.media.processing_timeout ∷ c.webhooks.retention ∷ []

-- `d > 0`
abbrev pub is_positive : ℕ → Bool
is_positive d = not (d == 0) && not (is_negative d)

-- `ReconnectInitialDelay > 0 && ReconnectMaxDelay > 0 && ReconnectMaxDelay < ReconnectInitialDelay`
abbrev pub bad_delays : ℕ → ℕ → Bool
bad_delays initial max = is_positive initial && is_positive max && ltb max initial

abbrev pub bad_color : Text → Bool
bad_color color = not (color == []) && not (hex_color color)

-- What Validate uses of other packages: security.ValidTenant, and of url.Parse the scheme and the host,
-- `none` for an error.
pub record UrlParts : Type 0 where
  pub scheme : Text
  pub host : Text

module _ (unicode : Unicode) (valid_tenant : Text → Bool) (url_parse : Text → Option UrlParts) where
  -- The global URL that Validate refuses, trimmed.
  abbrev pub bad_global_url : Text → Bool
  bad_global_url raw =
      not (raw == [])
      && (ltb max_url_length (len raw) || elim (url_parse raw) [
        | none ↦ true
        | some parsed ↦
            parsed.host == []
            || not (parsed.scheme == codes "http") && not (parsed.scheme == codes "https")
      ])

  abbrev pub bad_roles : Action × List String → Bool
  bad_roles entry =
      not (is_whatsapp_action entry.0)
      || any (λ role. trim_space unicode (codes role) == []) entry.1

  -- The checks of Validate on the webhooks.
  unfoldable pub validate_webhooks : WebhookConfig → Option Error
  validate_webhooks w =
      if w.global_enabled && trim_space unicode w.global_url == []
      then some (external "GlobalURL is required when GlobalEnabled is true")
      else if w.global_enabled && w.signing_secret == []
      then some (external "SigningSecret is required when GlobalEnabled is true")
      else if not (w.signing_secret == []) && ltb (len (trim_space unicode w.signing_secret)) 32
      then some (external "SigningSecret must contain at least 32 bytes")
      else if bad_global_url (trim_space unicode w.global_url)
      then some (external "GlobalURL must be an absolute HTTP or HTTPS URL")
      else none

  -- Validate; which of several negative durations its error names is not modelled.
  unfoldable pub validate : Config → Option Error
  unfolding validate_webhooks
  validate c =
      if not (valid_tenant c.tenant)
      then some (external "Tenant is invalid")
      else if bad_prefix c.prefix
      then some (external "Prefix must be an absolute non-root path")
      else if is_negative c.whatsapp.qr_code_limit
          || is_negative c.whatsapp.startup_reconnect_concurrency
      then some (external "cannot be negative")
      else if any is_negative (durations c)
      then some (external "cannot be negative")
      else if is_negative c.media.max_input_bytes
      then some (external "MaxInputBytes cannot be negative")
      else if bad_color c.whatsapp.qr_code_light_color
      then some (external "QRCodeLightColor must be #RRGGBB")
      else if bad_color c.whatsapp.qr_code_dark_color
      then some (external "QRCodeDarkColor must be #RRGGBB")
      else if bad_delays c.whatsapp.reconnect_initial_delay c.whatsapp.reconnect_max_delay
      then some (external "ReconnectMaxDelay must be at least ReconnectInitialDelay")
      else errors_first (validate_webhooks c.webhooks) (
          if any bad_roles c.policy.roles
          then some (external "Policy contains an unknown action or an empty role")
          else none)

-- `if value == 0 { value = fallback }`
abbrev pub or_default : ℕ → ℕ → ℕ
or_default fallback value = if value == 0 then fallback else value

-- `if value == "" { value = fallback }`
abbrev pub or_text : String → Text → Text
or_text fallback value = if value == [] then codes fallback else value

abbrev pub whatsapp_defaults : WhatsAppConfig → WhatsAppConfig
whatsapp_defaults wa = record {
  qr_code_limit = or_default 5 wa.qr_code_limit;
  qr_code_expiration = or_default 30_000_000_000 wa.qr_code_expiration;
  qr_code_light_color = or_text "#ffffff" wa.qr_code_light_color;
  qr_code_dark_color = or_text "#198754" wa.qr_code_dark_color;
  session_phone_client = or_text "DESKTOP" wa.session_phone_client;
  session_phone_name = or_text "Arandu" wa.session_phone_name;
  pairing_timeout = or_default 180_000_000_000 wa.pairing_timeout;
  auto_reconnect = wa.auto_reconnect;
  startup_reconnect_concurrency = or_default 5 wa.startup_reconnect_concurrency;
  connect_timeout = or_default 30_000_000_000 wa.connect_timeout;
  reconnect_initial_delay = or_default 2_000_000_000 wa.reconnect_initial_delay;
  reconnect_max_delay = or_default 60_000_000_000 wa.reconnect_max_delay;
  profile_picture_timeout = or_default 15_000_000_000 wa.profile_picture_timeout;
  address_cache_ttl = or_default 604_800_000_000_000 wa.address_cache_ttl;
}

abbrev pub processing_defaults : ProcessingConfig → ProcessingConfig
processing_defaults p = record {
  processing_timeout = or_default 60_000_000_000 p.processing_timeout;
  group_info_timeout = or_default 30_000_000_000 p.group_info_timeout;
  send_timeout = or_default 30_000_000_000 p.send_timeout;
  retention = or_default 2_592_000_000_000_000 p.retention;
}

abbrev pub media_defaults : MediaConfig → MediaConfig
media_defaults media = record {
  ffmpeg_path = or_text "ffmpeg" media.ffmpeg_path;
  ffprobe_path = or_text "ffprobe" media.ffprobe_path;
  temp_dir = media.temp_dir;
  max_input_bytes = or_default 52_428_800 media.max_input_bytes;
  max_duration_seconds = or_default 3600 media.max_duration_seconds;
  processing_timeout = or_default 60_000_000_000 media.processing_timeout;
}

-- WithDefaults
unfoldable pub with_defaults : Config → Config
unfolding trim_slash
with_defaults c = record c {
  prefix = trim_slash (or_text "/whatsapp" c.prefix);
  whatsapp = whatsapp_defaults c.whatsapp;
  webhooks = record c.webhooks {
    retention = or_default default_delivery_retention c.webhooks.retention;
  };
  processing = processing_defaults c.processing;
  media = media_defaults c.media;
}
