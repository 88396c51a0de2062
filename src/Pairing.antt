-- ===== src/Pairing.antt =====
-- The pairing session of internal/whatsapp/pairing.go: the passkey challenge, its state machine and
-- its lifetime. Times and durations are in nanoseconds.
pub mod Manager
pub mod Commands
pub mod Challenge
pub mod PastUse
pub mod Exchange
mod Tests
use Prim.Native.Nat.{◌%◌}
use arandu_whatsapp.Errors.{
  Error, Result, fail, invalid_pairing_state, invalid_passkey_assertion, ok,
  pairing_session_not_active, passkey_challenge_already_used, passkey_challenge_expired,
  passkey_request_mismatch, sentinel,
}
use arandu_whatsapp.Policy.{Action-eq}
use arandu_whatsapp.Prelude.{
  Bool, List-eq, Option, Option-eq, String, String-eq, false, if◌then◌else◌, is_some, leb, ltb,
  none, not, some, true, ℕ, ℕ-eq, ◌&&◌, ◌*◌, ◌+◌, ◌==◌, ◌||◌,
}

-- PasskeyPairingState; `state_unset` is the zero value "".
pub data PasskeyState : Type 0 where
  state_unset state_idle state_fetching_challenge state_awaiting_assertion : PasskeyState
  state_submitting_assertion state_awaiting_confirmation state_confirmation_sent : PasskeyState
  state_completed state_failed state_expired : PasskeyState

abbrev pub is_awaiting_assertion : PasskeyState → Bool
is_awaiting_assertion state_awaiting_assertion = true
is_awaiting_assertion _ = false

-- What the code reads of a watypes.WebAuthnPublicKey: its Timeout in milliseconds, an int in the two's
-- complement of 64 bits, and the rest, which the code passes on.
pub record PublicKey : Type 0 where
  pub timeout : ℕ
  pub options : String

-- What the code reads of a watypes.WebAuthnResponse; the byte slices by their lengths.
pub record Assertion : Type 0 where
  pub kind : String
  pub id : String
  pub raw_id_len : ℕ
  pub client_data_len : ℕ
  pub authenticator_data_len : ℕ
  pub signature_len : ℕ

-- passkeyPairingData; a time that is not set is 0.
pub record PasskeyData : Type 0 where
  pub state : PasskeyState
  pub request_id : String
  pub public_key : Option PublicKey
  pub expires_at : ℕ
  pub consumed : Bool
  pub confirmation_code : String
  pub skip_handoff_ux : Bool
  pub last_error : String

-- passkeyPairingData{State: s}
abbrev pub passkey_in : PasskeyState → PasskeyData
passkey_in s = record {
  state = s;
  request_id = "";
  public_key = none;
  expires_at = 0;
  consumed = false;
  confirmation_code = "";
  skip_handoff_ux = false;
  last_error = "";
}

-- passkeyChallengeSnapshot
pub record Snapshot : Type 0 where
  pub request_id : String
  pub state : PasskeyState
  pub public_key : Option PublicKey
  pub expires_at : ℕ
  pub consumed : Bool

abbrev pub snapshot_of : PasskeyData → Snapshot
snapshot_of d = record {
  request_id = d.request_id;
  state = d.state;
  public_key = d.public_key;
  expires_at = d.expires_at;
  consumed = d.consumed;
}

abbrev pub minute : ℕ
minute = 60_000_000_000

-- time.Duration(timeout) * time.Millisecond on 64 bits
abbrev pub milliseconds : ℕ → ℕ
milliseconds timeout = (timeout * 1_000_000) % 18446744073709551616

-- d <= 0 for a duration in two's complement
abbrev pub not_positive : ℕ → Bool
not_positive d = d == 0 || leb 9223372036854775808 d

abbrev pub clamp_ttl : ℕ → ℕ
clamp_ttl ttl =
    if not_positive ttl then 10 * minute else if ltb (15 * minute) ttl then 15 * minute else ttl

-- getPasskeyTTL
unfoldable pub get_passkey_ttl : Option PublicKey → ℕ
get_passkey_ttl none = 10 * minute
get_passkey_ttl (some key) = clamp_ttl (milliseconds key.timeout)

-- validPasskeyAssertion
unfoldable pub valid_passkey_assertion : Assertion → Bool
valid_passkey_assertion a =
    a.kind == "public-key"
    && not (a.id == "")
    && ltb 0 a.raw_id_len
    && ltb 0 a.client_data_len
    && ltb 0 a.authenticator_data_len
    && ltb 0 a.signature_len

-- setPasskeyChallenge, given what str.UUID() returns
unfoldable pub set_passkey_challenge :
    ℕ → String → Option PublicKey → PasskeyData → PasskeyData × Snapshot
unfolding get_passkey_ttl
set_passkey_challenge now uuid key d =
    let d' = record (passkey_in state_awaiting_assertion) {
      request_id = uuid;
      public_key = key;
      expires_at = now + get_passkey_ttl key;
    } in
    (d', snapshot_of d')

-- The switch of beginPasskeyChallengeFetch.
abbrev pub may_fetch : PasskeyState → Bool
may_fetch state_unset = true
may_fetch state_idle = true
may_fetch state_expired = true
may_fetch state_failed = true
may_fetch _ = false

abbrev pub restart_fetch : PasskeyData → PasskeyData × Result (Option Snapshot)
restart_fetch d =
    if may_fetch d.state
    then (passkey_in state_fetching_challenge, ok none)
    else (d, fail invalid_pairing_state)

-- beginPasskeyChallengeFetch answers the running challenge, or `ok none` where a new one is due.
unfoldable pub begin_passkey_challenge_fetch :
    ℕ → PasskeyData → PasskeyData × Result (Option Snapshot)
begin_passkey_challenge_fetch now d =
    if is_some d.public_key && is_awaiting_assertion d.state && not d.consumed
    then (if ltb now d.expires_at
        then (d, ok (some (snapshot_of d)))
        else restart_fetch (record d { state = state_expired }))
    else restart_fetch d

-- currentPasskeyChallenge
unfoldable pub current_passkey_challenge : PasskeyData → Option Snapshot
current_passkey_challenge d =
    if not (is_some d.public_key) || d.request_id == "" then none else some (snapshot_of d)

-- reservePasskeyAssertion
unfoldable pub reserve_passkey_assertion :
    ℕ → String → Assertion → PasskeyData → PasskeyData × Option Error
reserve_passkey_assertion now request_id a d =
    if d.request_id == "" || not (is_some d.public_key)
    then (d, some (sentinel pairing_session_not_active))
    else if not (d.request_id == request_id)
    then (d, some (sentinel passkey_request_mismatch))
    else if not (is_awaiting_assertion d.state)
    then (d, some (sentinel invalid_pairing_state))
    else if d.consumed
    then (d, some (sentinel passkey_challenge_already_used))
    else if not (ltb now d.expires_at)
    then (record d { state = state_expired }, some (sentinel passkey_challenge_expired))
    else if not (valid_passkey_assertion a)
    then (d, some (sentinel invalid_passkey_assertion))
    else (record d { consumed = true; state = state_submitting_assertion }, none)

-- markPasskeyAwaitingConfirmation, markPasskeyConfirmationSent and markPasskeyCompleted
abbrev pub mark_passkey : PasskeyState → PasskeyData → PasskeyData
mark_passkey s d = record d { state = s }

-- setPasskeyConfirmation
abbrev pub set_passkey_confirmation : String → Bool → PasskeyData → PasskeyData
set_passkey_confirmation code skip d = record d {
  state = state_awaiting_confirmation;
  confirmation_code = code;
  skip_handoff_ux = skip;
}

-- markPasskeyFailed, given err.Error() where err is not nil
abbrev pub mark_passkey_failed : Option String → PasskeyData → PasskeyData
mark_passkey_failed none d = record d { state = state_failed }
mark_passkey_failed (some text) d = record d { state = state_failed; last_error = text }

-- isPasskeyInProgress
unfoldable pub is_passkey_in_progress : PasskeyData → Bool
is_passkey_in_progress d = elim d.state [
  | state_fetching_challenge ↦ true
  | state_awaiting_assertion ↦ true
  | state_submitting_assertion ↦ true
  | state_awaiting_confirmation ↦ true
  | state_confirmation_sent ↦ true
  | _ ↦ false
]
