-- ===== src/Pairing/Tests.antt =====
-- Tests and instances for internal/whatsapp/pairing.go and internal/whatsapp/passkey.go.
use text.Mathlib.TextEquality.{eq_iff}
use arandu_whatsapp.Errors.{ok, passkey_challenge_already_used, sentinel}
use arandu_whatsapp.Hub.{ManagedClient, get_by_instance_id}
use arandu_whatsapp.Pairing.{
  Assertion, PasskeyData, PublicKey, Snapshot, begin_passkey_challenge_fetch, get_passkey_ttl,
  minute, passkey_in, reserve_passkey_assertion, set_passkey_challenge, state_awaiting_assertion,
  state_awaiting_confirmation, state_idle, state_unset, valid_passkey_assertion,
}
use arandu_whatsapp.Pairing.Challenge.{
  Accepts, PasskeyOp, accepts_once, awaiting_confirmation, beginning, challenge_lapses, failing,
  perform, perform_all, reserve_iff, setting,
}
use arandu_whatsapp.Pairing.Commands.{
  Cells, Fetched, PasskeyClient, PasskeyEntry, active_passkey_session,
  authenticate_passkey_instance, enter_passkey_command, fetch_challenge, fetched_key,
  request_passkey_challenge, submit_passkey_assertion, validate_passkey_client_ready,
}
use arandu_whatsapp.Pairing.Exchange.{IsOpen, request-submit, request_retries}
use arandu_whatsapp.Pairing.Manager.{Sessions, get_session}
use arandu_whatsapp.Pairing.PastUse.{never_already_used}
use arandu_whatsapp.Policy.{Action-eq}
use arandu_whatsapp.Prelude.{
  List, List-eq, Option-eq, String, String-eq, [], arith, false, none, refl, some, true, ℕ, ℕ-eq,
  ◌*◌, ◌↔◌, ◌∷◌, ◌≡◌, ◌≢◌,
}
use arandu_whatsapp.Prelude.Map.{get}

abbrev key : PublicKey
key = record { timeout = 60000; options = "{}" }

-- A Timeout whose product with a million wraps around to a negative duration.
abbrev huge_key : PublicKey
huge_key = record { timeout = 9223372036855; options = "{}" }

abbrev assertion : Assertion
assertion = record {
  kind = "public-key";
  id = "credential";
  raw_id_len = 16;
  client_data_len = 80;
  authenticator_data_len = 37;
  signature_len = 64;
}

abbrev issued : PasskeyData
issued = record (passkey_in state_awaiting_assertion) {
  request_id = "r1";
  public_key = some key;
  expires_at = 60_000_000_100;
}

ttl_of_a_minute : get_passkey_ttl (some key) ≡ minute
unfolding get_passkey_ttl
ttl_of_a_minute = refl

ttl_of_huge_key : get_passkey_ttl (some huge_key) ≡ 10 * minute
unfolding get_passkey_ttl
ttl_of_huge_key = refl

reserve_iff_example :
    ((reserve_passkey_assertion 200 "r1" assertion issued).1 ≡ none)
    ↔ Accepts 200 "r1" assertion issued
reserve_iff_example = reserve_iff 200 "r1" assertion issued

accepted : (reserve_passkey_assertion 200 "r1" assertion issued).1 ≡ none
unfolding reserve_passkey_assertion valid_passkey_assertion
accepted = refl

abbrev later_ops : List PasskeyOp
later_ops = awaiting_confirmation ∷ beginning 300 ∷ setting 400 "r2" (some key) ∷ []

accepts_once_example :
    (reserve_passkey_assertion 500 "r1" assertion
      (perform_all later_ops (reserve_passkey_assertion 200 "r1" assertion issued).0)).1
    ≢ none
accepts_once_example = accepts_once 200 500 "r1" assertion assertion later_ops issued accepted refl

challenge_lapses_example :
    (reserve_passkey_assertion 900_000_000_100 "r1" assertion (
      perform_all later_ops
        (set_passkey_challenge 100 "r1" (some huge_key) (passkey_in state_idle)).0)).1
    ≢ none
challenge_lapses_example =
    challenge_lapses 100 900_000_000_100 "r1" (some huge_key) assertion later_ops
      (passkey_in state_idle) refl (omega arith)

never_already_used_example :
    (reserve_passkey_assertion 500 "r2" assertion
      (perform_all later_ops (passkey_in state_unset))).1
    ≢ some (sentinel passkey_challenge_already_used)
never_already_used_example = never_already_used 500 "r2" assertion later_ops

abbrev earlier_ops : List PasskeyOp
earlier_ops = beginning 10 ∷ failing (some "timeout") ∷ []

abbrev key_fetched : Fetched
key_fetched = fetched_key (some key)

abbrev answer : Snapshot
answer = record {
  request_id = "r1";
  state = state_awaiting_assertion;
  public_key = some key;
  expires_at = 60_000_000_100;
  consumed = false;
}

r1_named : ◌≢◌ {A = String} "r1" ""
r1_named = ground (arith, eq_iff "r1" "")

abbrev seven : ℕ → String
seven n = "7"

abbrev paired_client : ManagedClient
paired_client = record {
  instance_id = "7";
  instance_name = "sales";
  has_cancel = true;
  has_client = true;
}

abbrev pairing_client : PasskeyClient
pairing_client = record { is_connected = true; is_logged_in = false; has_linked_device = false }

abbrev entry : PasskeyEntry
entry = record {
  authenticated = ok 7;
  sessions = ("7", 1) ∷ ("8", 2) ∷ [];
  hub = record { clients = ("7", paired_client) ∷ []; reservations = [] };
  client = λ m. some pairing_client;
  is_free = true;
}

entry-IsOpen : IsOpen seven entry 1
unfolding get_session get_by_instance_id get
entry-IsOpen = record {
  id = 7;
  managed = paired_client;
  whatsapp = pairing_client;
  authenticated = refl;
  has_session = refl;
  registered = refl;
  has_client = refl;
  connected = refl;
  logged_out = refl;
  unlinked = refl;
  alone = refl;
}

abbrev failed_cells : Cells
failed_cells k = perform_all earlier_ops (passkey_in state_unset)

requested_r1 :
    (request_passkey_challenge seven entry 50 100 "r1" key_fetched [] failed_cells).1 ≡ ok answer
unfolding request_passkey_challenge enter_passkey_command authenticate_passkey_instance
    active_passkey_session validate_passkey_client_ready get_session get_by_instance_id get
    fetch_challenge begin_passkey_challenge_fetch set_passkey_challenge get_passkey_ttl perform_all
    perform
requested_r1 = refl

valid_assertion : valid_passkey_assertion assertion ≡ true
unfolding valid_passkey_assertion
valid_assertion = refl

request-submit_example :
    (submit_passkey_assertion seven entry 500 "r1" assertion none []
      (request_passkey_challenge seven entry 50 100 "r1" key_fetched [] failed_cells).0).1
    ≡ ok state_awaiting_confirmation
request-submit_example =
    request-submit seven entry entry 1 50 100 500 "r1" key_fetched earlier_ops [] [] failed_cells
      answer assertion refl refl r1_named entry-IsOpen requested_r1 entry-IsOpen (omega arith)
      valid_assertion

abbrev idle_cells : Cells
idle_cells k = passkey_in state_idle

begun_idle : (begin_passkey_challenge_fetch 50 (passkey_in state_idle)).1 ≡ ok none
unfolding begin_passkey_challenge_fetch
begun_idle = refl

abbrev no_key : Fetched
no_key = fetched_key none

none_given : (k : PublicKey) → no_key ≢ fetched_key (some k)
none_given k h = cc

request_retries_example :
    (begin_passkey_challenge_fetch 900
      ((request_passkey_challenge seven entry 50 100 "r1" no_key [] idle_cells).0 1)).1
    ≡ ok none
request_retries_example =
    request_retries seven entry 1 50 100 900 "r1" no_key [] idle_cells entry-IsOpen begun_idle
      none_given

abbrev two_sessions : Sessions
two_sessions = ("7", 1) ∷ ("8", 2) ∷ []
