-- ===== src/Pairing/Commands.antt =====
-- The passkey commands of internal/whatsapp/passkey.go. The client of whatsmeow is a parameter: what
-- its methods answer. While a command waits for it, callbacks run on the session: `between`.
use arandu_whatsapp.Errors.{
  Error, Result, client_not_connected, err, errors_is, external, fail, instance_connected,
  instance_not_found, invalid_pairing_state, ok, pairing_session_not_found,
  passkey_instance_not_found, passkey_not_available, passkey_service_unavailable, sentinel, unless,
  wrap, ◌>>=◌,
}
use arandu_whatsapp.Hub.{Hub, ManagedClient, get_by_instance_id}
use arandu_whatsapp.Pairing.{
  Assertion, PasskeyData, PasskeyState, PublicKey, Snapshot, begin_passkey_challenge_fetch,
  mark_passkey, mark_passkey_failed, reserve_passkey_assertion, set_passkey_challenge,
  state_awaiting_confirmation,
}
use arandu_whatsapp.Pairing.Challenge.{PasskeyOp, perform_all}
use arandu_whatsapp.Pairing.Manager.{Sessions, get_session}
use arandu_whatsapp.Policy.{Action-eq}
use arandu_whatsapp.Prelude.{
  Bool, List, List-eq, Option, Option-eq, String, String-eq, [], if◌then◌else◌, none, not, some, ℕ,
  ℕ-eq, ◌==◌, ◌||◌, ◌∷◌,
}

-- What the methods of a PasskeyClient answer.
pub record PasskeyClient : Type 0 where
  pub is_connected : Bool
  pub is_logged_in : Bool
  pub has_linked_device : Bool

-- validatePasskeyClientReady
unfoldable pub validate_passkey_client_ready : Option PasskeyClient → Option Error
validate_passkey_client_ready none = some (sentinel client_not_connected)
validate_passkey_client_ready (some c) =
    if not c.is_connected
    then some (sentinel client_not_connected)
    else if c.is_logged_in || c.has_linked_device
    then some (sentinel instance_connected)
    else none

-- authenticatePasskeyInstance, given the result of authenticateInstance
unfoldable pub authenticate_passkey_instance {ℓ} : {A : Type ℓ} → Result A → Result A
authenticate_passkey_instance (ok instance_record) = ok instance_record
authenticate_passkey_instance (err e) =
    if errors_is e instance_not_found then err (wrap passkey_instance_not_found e) else err e

-- activePasskeySession, where `client` is s.passkeyClient
unfoldable pub active_passkey_session :
    (ManagedClient → Option PasskeyClient)
    → String
    → Sessions
    → Hub
    → Result (ℕ × ManagedClient × PasskeyClient)
active_passkey_session client id sessions hub = elim (get_session id sessions) [
  | none ↦ fail pairing_session_not_found
  | some session ↦ elim (get_by_instance_id id hub) [
    | none ↦ fail client_not_connected
    | some managed ↦ elim (client managed) [
      | none ↦ fail client_not_connected
      | some c ↦ ok (session, managed, c)
    ]
  ]
]

-- What a command sends to webhooks and to the instance repository.
pub data PasskeyEffect : Type 0 where
  passkey_required : Snapshot → PasskeyEffect
  passkey_pairing_failed : PasskeyEffect
  connection_error_recorded : PasskeyEffect

-- What GetPasskeyRequestOptions returns: err.Error(), or the key, which may be nil.
pub data Fetched : Type 0 where
  fetch_failed : String → Fetched
  fetched_key : Option PublicKey → Fetched

-- What a command finds when it is called: the instance that authenticateInstance returns, the sessions,
-- the hub, s.passkeyClient, and whether TryLock gets the mutex of the session.
pub record PasskeyEntry : Type 0 where
  pub authenticated : Result ℕ
  pub sessions : Sessions
  pub hub : Hub
  pub client : ManagedClient → Option PasskeyClient
  pub is_free : Bool

-- How both commands open: the session, or what they are refused with.
unfoldable pub enter_passkey_command : (ℕ → String) → PasskeyEntry → Result ℕ
unfolding authenticate_passkey_instance active_passkey_session validate_passkey_client_ready
enter_passkey_command format_int e = do
  id ← authenticate_passkey_instance e.authenticated
  active ← active_passkey_session e.client (format_int id) e.sessions e.hub
  unless (validate_passkey_client_ready (some active.2))
      (if e.is_free then ok active.0 else fail invalid_pairing_state)

-- The passkey data of the sessions, by the number of the session.
abbrev pub Cells : Type 0
Cells = ℕ → PasskeyData

abbrev pub store_cell : ℕ → PasskeyData → Cells → Cells
store_cell session d cells k = if k == session then d else cells k

-- RequestPasskeyChallenge on the data of its session; `fetched` is the answer of
-- GetPasskeyRequestOptions.
unfoldable pub fetch_challenge :
    ℕ
    → ℕ
    → String
    → Fetched
    → List PasskeyOp
    → PasskeyData
    → PasskeyData × Result Snapshot × List PasskeyEffect
fetch_challenge now later uuid fetched between d =
    let (d', begun) = begin_passkey_challenge_fetch now d in
    elim begun [
      | err e ↦ (d', err e, [])
      | ok (some snapshot) ↦ (d', ok snapshot, [])
      | ok none ↦ elim fetched [
        | fetch_failed text ↦ (
          mark_passkey_failed (some text) (perform_all between d'),
          err (wrap passkey_service_unavailable (external "challenge")),
          [],
        )
        | fetched_key none ↦ (
          mark_passkey_failed (some "passkey not available") (perform_all between d'),
          fail passkey_not_available,
          [],
        )
        | fetched_key (some key) ↦
            let (d'', snapshot) =
              set_passkey_challenge later uuid (some key) (perform_all between d') in
            (d'', ok snapshot, passkey_required snapshot ∷ [])
      ]
    ]

-- RequestPasskeyChallenge
unfoldable pub request_passkey_challenge :
    (ℕ → String)
    → PasskeyEntry
    → ℕ
    → ℕ
    → String
    → Fetched
    → List PasskeyOp
    → Cells
    → Cells × Result Snapshot × List PasskeyEffect
unfolding enter_passkey_command fetch_challenge
request_passkey_challenge format_int entry now later uuid fetched between cells =
    elim (enter_passkey_command format_int entry) [
      | err e ↦ (cells, err e, [])
      | ok session ↦
          let (d, answer, effects) =
            fetch_challenge now later uuid fetched between (cells session) in
          (store_cell session d cells, answer, effects)
    ]

-- SubmitPasskeyAssertion on the data of its session; `sent` is the error of SendPasskeyResponse, by its
-- text.
unfoldable pub send_assertion :
    ℕ
    → String
    → Assertion
    → Option String
    → List PasskeyOp
    → PasskeyData
    → PasskeyData × Result PasskeyState × List PasskeyEffect
send_assertion now id a sent between d =
    let (d', refused) = reserve_passkey_assertion now id a d in
    elim refused [
      | some e ↦ (d', err e, [])
      | none ↦ elim sent [
        | some text ↦ (
          mark_passkey_failed (some text) (perform_all between d'),
          err (wrap passkey_service_unavailable (external "assertion")),
          passkey_pairing_failed ∷ connection_error_recorded ∷ [],
        )
        | none ↦ (
          mark_passkey state_awaiting_confirmation (perform_all between d'),
          ok state_awaiting_confirmation,
          [],
        )
      ]
    ]

-- SubmitPasskeyAssertion
unfoldable pub submit_passkey_assertion :
    (ℕ → String)
    → PasskeyEntry
    → ℕ
    → String
    → Assertion
    → Option String
    → List PasskeyOp
    → Cells
    → Cells × Result PasskeyState × List PasskeyEffect
unfolding enter_passkey_command send_assertion
submit_passkey_assertion format_int entry now id a sent between cells =
    elim (enter_passkey_command format_int entry) [
      | err e ↦ (cells, err e, [])
      | ok session ↦
          let (d, answer, effects) = send_assertion now id a sent between (cells session) in
          (store_cell session d cells, answer, effects)
    ]
