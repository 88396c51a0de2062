-- ===== src/Config/Tests.antt =====
-- Tests and instances for config/whatsapp.go.
use arandu_whatsapp.Config.{Config, hex_color, validate, validate_webhooks, with_defaults}
use arandu_whatsapp.Config.Laws.{DelaysAtOdds, validate-with_defaults}
use arandu_whatsapp.Fixtures.{ascii}
use arandu_whatsapp.Policy.{Action-eq, is_whatsapp_action}
use arandu_whatsapp.Prelude.{
  List-eq, Option-eq, String-eq, [], false, list_eq, none, refl, true, ℕ-eq, ◌↔◌, ◌≡◌, ◌≢◌, ◌⊎◌,
}
use arandu_whatsapp.Prelude.Text.{codes, trim_space}

abbrev zero_config : Config
zero_config = record {
  tenant = codes "acme";
  prefix = [];
  whatsapp = record {
    qr_code_limit = 0;
    qr_code_expiration = 0;
    qr_code_light_color = [];
    qr_code_dark_color = codes "#19875a";
    session_phone_client = [];
    session_phone_name = [];
    pairing_timeout = 0;
    auto_reconnect = false;
    startup_reconnect_concurrency = 0;
    connect_timeout = 0;
    reconnect_initial_delay = 90_000_000_000;
    reconnect_max_delay = 0;
    profile_picture_timeout = 0;
    address_cache_ttl = 0;
  };
  persistence = record { messages = true; message_updates = true; contacts = false };
  webhooks = record {
    global_url = [];
    global_enabled = false;
    signing_secret = [];
    retention = 0;
    configuration_cache_ttl = 0;
  };
  processing = record {
    processing_timeout = 0;
    group_info_timeout = 0;
    send_timeout = 0;
    retention = 0;
  };
  media = record {
    ffmpeg_path = [];
    ffprobe_path = [];
    temp_dir = [];
    max_input_bytes = 0;
    max_duration_seconds = 0;
    processing_timeout = 0;
  };
  policy = record { roles = []; actions = [] };
}

accepted : validate ascii (λ t. true) (λ u. none) zero_config ≡ none
unfolding validate validate_webhooks list_eq hex_color trim_space is_whatsapp_action
accepted = refl

validate-with_defaults_example :
    (validate ascii (λ t. true) (λ u. none) (with_defaults zero_config) ≢ none)
    ↔ ((zero_config.prefix ≡ codes "//") ⊎ DelaysAtOdds ascii (λ t. true) (λ u. none) zero_config)
validate-with_defaults_example =
    validate-with_defaults ascii (λ t. true) (λ u. none) zero_config accepted
