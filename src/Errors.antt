-- ===== src/Errors.antt =====
-- The sentinel errors of internal/domain/errors.go, internal/whatsapp/errors.go,
-- internal/message, internal/whatsapp/address/resolver.go and internal/webhook, how one error
-- wraps others (fmt.Errorf, errors.Join), and errors.Is. A nil error is `none`.
use arandu_whatsapp.Prelude.{Bool, Option, String, false, nat_eq, none, some, ℕ, ◌||◌}

pub data Sentinel : Type 0 where
  instance_not_found instance_name_already_exists instance_has_dependencies : Sentinel
  whatsapp_device_already_linked webhook_already_exists message_not_found : Sentinel
  invalid_webhook_event invalid_json invalid_enum invalid_input invalid_cursor : Sentinel
  webhook_not_found : Sentinel
  connection_in_progress instance_connected qr_code_timeout qr_channel_closed : Sentinel
  pairing_failed client_outdated whatsapp_unavailable invalid_phone_number session_missing :
      Sentinel
  client_not_connected instance_inactive device_mismatch passkey_instance_not_found : Sentinel
  pairing_session_not_found pairing_session_not_active invalid_pairing_state : Sentinel
  passkey_request_mismatch passkey_challenge_already_used passkey_challenge_expired : Sentinel
  invalid_passkey_assertion passkey_not_available passkey_service_unavailable : Sentinel
  invalid_request recipient_invalid presence_invalid delay_invalid quoted_message_invalid : Sentinel
  quoted_message_lookup persistence_failed download_failed upload_failed send_failed : Sentinel
  payload_too_large unsupported_media_type audio_processing invalid_audio_duration : Sentinel
  mention_all_requires_group mention_all_unsupported group_info_fetch_failed : Sentinel
  group_has_no_participants group_mention_processing invalid_message_processing_snapshot : Sentinel
  message_processing_snapshot_not_found : Sentinel
  invalid_address recipient_not_on_whatsapp ambiguous_recipient address_mapping_not_found : Sentinel
  invalid_webhook_url unsupported_event signing_secret_required signing_secret_too_short : Sentinel
  webhook_configuration_not_found : Sentinel
  forbidden : Sentinel

-- `external` is an error of code outside this repository, `wrap` an fmt.Errorf with a first %w.
pub data Error : Type 0 where
  sentinel : Sentinel → Error
  wrap : Sentinel → Error → Error
  join : Error → Error → Error
  external : String → Error

abbrev pub index : Sentinel → ℕ
index instance_not_found = 0
index instance_name_already_exists = 1
index instance_has_dependencies = 2
index whatsapp_device_already_linked = 3
index webhook_already_exists = 4
index message_not_found = 5
index invalid_webhook_event = 6
index invalid_json = 7
index invalid_enum = 8
index invalid_input = 9
index invalid_cursor = 10
index webhook_not_found = 11
index connection_in_progress = 12
index instance_connected = 13
index qr_code_timeout = 14
index qr_channel_closed = 15
index pairing_failed = 16
index client_outdated = 17
index whatsapp_unavailable = 18
index invalid_phone_number = 19
index session_missing = 20
index client_not_connected = 21
index instance_inactive = 22
index device_mismatch = 23
index passkey_instance_not_found = 24
index pairing_session_not_found = 25
index pairing_session_not_active = 26
index invalid_pairing_state = 27
index passkey_request_mismatch = 28
index passkey_challenge_already_used = 29
index passkey_challenge_expired = 30
index invalid_passkey_assertion = 31
index passkey_not_available = 32
index passkey_service_unavailable = 33
index invalid_request = 34
index recipient_invalid = 35
index presence_invalid = 36
index delay_invalid = 37
index quoted_message_invalid = 38
index quoted_message_lookup = 39
index persistence_failed = 40
index download_failed = 41
index upload_failed = 42
index send_failed = 43
index payload_too_large = 44
index unsupported_media_type = 45
index audio_processing = 46
index invalid_audio_duration = 47
index mention_all_requires_group = 48
index mention_all_unsupported = 49
index group_info_fetch_failed = 50
index group_has_no_participants = 51
index group_mention_processing = 52
index invalid_message_processing_snapshot = 53
index message_processing_snapshot_not_found = 54
index invalid_address = 55
index recipient_not_on_whatsapp = 56
index ambiguous_recipient = 57
index address_mapping_not_found = 58
index invalid_webhook_url = 59
index unsupported_event = 60
index signing_secret_required = 61
index signing_secret_too_short = 62
index webhook_configuration_not_found = 63
index forbidden = 64

-- errors.Is(err, target)
unfoldable pub errors_is : Error → Sentinel → Bool
errors_is (sentinel s) t = nat_eq (index s) (index t)
errors_is (wrap s e) t = nat_eq (index s) (index t) || errors_is e t
errors_is (join d e) t = errors_is d t || errors_is e t
errors_is (external text) t = false

-- errors.Join(d, e), where either may be nil
abbrev pub errors_join : Option Error → Option Error → Option Error
errors_join none e = e
errors_join (some d) none = some d
errors_join (some d) (some e) = some (join d e)

-- A pair (value, error) of which callers read the value only if the error is nil.
pub data Result {ℓ} (A : Type ℓ) : Type ℓ where
  ok : A → Result A
  err : Error → Result A

infixl 5 ◌>>=◌
abbrev pub ◌>>=◌ {ℓ κ} : {A : Type ℓ} {B : Type κ} → Result A → (A → Result B) → Result B
ok a >>= f = f a
err e >>= f = err e

-- `if err := check; err != nil { return err }`, then the rest
abbrev pub unless {ℓ} : {A : Type ℓ} → Option Error → Result A → Result A
unless none r = r
unless (some e) r = err e

abbrev pub fail {ℓ} : {A : Type ℓ} → Sentinel → Result A
fail s = err (sentinel s)

-- `if err := first; err != nil { return err }`, then the rest, where only an error is returned
abbrev pub errors_first : Option Error → Option Error → Option Error
errors_first none e = e
errors_first (some d) e = some d
