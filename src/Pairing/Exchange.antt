-- ===== src/Pairing/Exchange.antt =====
-- What the passkey commands of internal/whatsapp/passkey.go guarantee together.
use mathlib.Core.Bool.{false≢true}
use arandu_whatsapp.Errors.{ok}
use arandu_whatsapp.Hub.{Hub, ManagedClient, get_by_instance_id}
use arandu_whatsapp.Messages.Filter.{before}
use arandu_whatsapp.Pairing.{
  Assertion, PasskeyData, PublicKey, Snapshot, begin_passkey_challenge_fetch, is_awaiting_assertion,
  passkey_in, reserve_passkey_assertion, set_passkey_challenge, state_awaiting_confirmation,
  state_unset, valid_passkey_assertion,
}
use arandu_whatsapp.Pairing.Challenge.{
  Accepts, PasskeyOp, awaiting_confirmation, beginning, completing, confirming, failing, issues,
  perform, perform_all, reserve_iff, reserving_assertion, sending_confirmation, setting,
}
use arandu_whatsapp.Pairing.Commands.{
  Cells, Fetched, PasskeyClient, PasskeyEntry, active_passkey_session,
  authenticate_passkey_instance, enter_passkey_command, fetch_challenge, fetch_failed, fetched_key,
  request_passkey_challenge, send_assertion, submit_passkey_assertion,
  validate_passkey_client_ready,
}
use arandu_whatsapp.Pairing.Manager.{Sessions, get_session}
use arandu_whatsapp.Policy.{Action-eq}
use arandu_whatsapp.Prelude.{
  ==_iff, ==_refl, List, List-eq, Option, Option-eq, String, String-eq, [], any, arith, false, none,
  refl, some, subst, sym, true, ℕ, ℕ-eq, ◌<◌, ◌↔◌, ◌∷◌, ◌≡◌, ◌≢◌,
}

-- A session is paired with a client of its instance, and the client is one that may pair.
pub active_passkey_session_lem :
    (client : ManagedClient → Option PasskeyClient) (id : String) (sessions : Sessions) (hub : Hub)
    (session : ℕ) (managed : ManagedClient) (c : PasskeyClient)
    → (active_passkey_session client id sessions hub ≡ ok (session, managed, c)) ↔ (
        (get_session id sessions ≡ some session)
        × (get_by_instance_id id hub ≡ some managed)
        × (client managed ≡ some c))
unfolding active_passkey_session
active_passkey_session_lem client id sessions hub session managed c = ground arith

-- A challenge that a session awaits an answer to has a request id.
abbrev IsNamed : PasskeyData → Type 0
IsNamed d = is_awaiting_assertion d.state ≡ true → d.request_id ≢ ""

perform-IsNamed :
    (op : PasskeyOp) (d : PasskeyData) → issues "" op ≡ false → IsNamed d → IsNamed (perform op d)
unfolding perform begin_passkey_challenge_fetch set_passkey_challenge reserve_passkey_assertion
perform-IsNamed (beginning now) d k v = ground arith
perform-IsNamed (setting now uuid key) d k v = ground (arith, ==_iff uuid "")
perform-IsNamed (reserving_assertion now i a) d k v = ground arith
perform-IsNamed awaiting_confirmation d k v = ground arith
perform-IsNamed completing d k v = ground arith
perform-IsNamed sending_confirmation d k v = ground arith
perform-IsNamed (confirming code skip) d k v = ground arith
perform-IsNamed (failing none) d k v = ground arith
perform-IsNamed (failing (some text)) d k v = ground arith

perform_all-IsNamed :
    (ops : List PasskeyOp) (d : PasskeyData)
    → any (issues "") ops ≡ false
    → IsNamed d
    → IsNamed (perform_all ops d)
unfolding perform_all
perform_all-IsNamed [] d k v = v
perform_all-IsNamed (op ∷ ops) d k v =
    perform_all-IsNamed ops (perform op d) (ground arith) (perform-IsNamed op d (ground arith) v)

-- A challenge that a request answers with is one that an assertion is accepted for.
fetch-Accepts :
    (now later : ℕ) (uuid : String) (fetched : Fetched) (between : List PasskeyOp) (d : PasskeyData)
    (s : Snapshot) (t : ℕ) (a : Assertion)
    → IsNamed d
    → uuid ≢ ""
    → (fetch_challenge now later uuid fetched between d).1 ≡ ok s
    → t < s.expires_at
    → valid_passkey_assertion a ≡ true
    → Accepts t s.request_id a (fetch_challenge now later uuid fetched between d).0
unfolding fetch_challenge begin_passkey_challenge_fetch set_passkey_challenge
fetch-Accepts now later uuid fetched between d s t a v n h k good = record {
  issued = ground arith;
  has_key = ground arith;
  requested = ground arith;
  awaiting = ground arith;
  unused = ground arith;
  in_time = ground arith;
  valid = good;
}

-- A command is let through to a session: the instance is authenticated, has this session and a client
-- that is connected and not paired yet, and no other command of the session runs.
pub record IsOpen (format_int : ℕ → String) (entry : PasskeyEntry) (session : ℕ) : Type 0 where
  pub id : ℕ
  pub managed : ManagedClient
  pub whatsapp : PasskeyClient
  pub authenticated : entry.authenticated ≡ ok id
  pub has_session : get_session (format_int id) entry.sessions ≡ some session
  pub registered : get_by_instance_id (format_int id) entry.hub ≡ some managed
  pub has_client : entry.client managed ≡ some whatsapp
  pub connected : whatsapp.is_connected ≡ true
  pub logged_out : whatsapp.is_logged_in ≡ false
  pub unlinked : whatsapp.has_linked_device ≡ false
  pub alone : entry.is_free ≡ true

enter-IsOpen :
    (format_int : ℕ → String) (entry : PasskeyEntry) (session : ℕ)
    → IsOpen format_int entry session
    → enter_passkey_command format_int entry ≡ ok session
unfolding enter_passkey_command authenticate_passkey_instance validate_passkey_client_ready
enter-IsOpen format_int entry session o = ground (
  arith,
  o,
  (active_passkey_session_lem entry.client (format_int o.id) entry.sessions entry.hub session
        o.managed o.whatsapp).1
      (o.has_session, o.registered, o.has_client),
)

-- Round trip: in a session that has seen any operations, a challenge that RequestPasskeyChallenge
-- returns, a new one or the running one, is one that SubmitPasskeyAssertion accepts a valid assertion
-- for, before it expires, where each command is let through to this session, nothing else happens to
-- the session in between, and WhatsApp takes the response. The request ids of the session are not
-- empty.
pub request-submit :
    (format_int : ℕ → String) (entry entry' : PasskeyEntry) (session now later t : ℕ)
    (uuid : String) (fetched : Fetched) (before between after : List PasskeyOp) (cells : Cells)
    (s : Snapshot) (a : Assertion)
    → any (issues "") before ≡ false
    → cells session ≡ perform_all before (passkey_in state_unset)
    → uuid ≢ ""
    → IsOpen format_int entry session
    → (request_passkey_challenge format_int entry now later uuid fetched between cells).1 ≡ ok s
    → IsOpen format_int entry' session
    → t < s.expires_at
    → valid_passkey_assertion a ≡ true
    → (submit_passkey_assertion format_int entry' t s.request_id a none after
        (request_passkey_challenge format_int entry now later uuid fetched between cells).0).1
      ≡ ok state_awaiting_confirmation
unfolding request_passkey_challenge submit_passkey_assertion send_assertion
request-submit format_int entry entry' session now later t uuid fetched before between after cells s
      a k seen n o h o' soon good =
    let named : IsNamed (cells session) =
      subst IsNamed (sym seen)
        (perform_all-IsNamed before (passkey_in state_unset) k (λ w. absurd (false≢true w))) in
    let accepts =
      fetch-Accepts now later uuid fetched between (cells session) s t a named n
        (ground (arith, h, enter-IsOpen format_int entry session o)) soon good in
    ground (
      arith,
      enter-IsOpen format_int entry session o,
      enter-IsOpen format_int entry' session o',
      ==_refl session,
      (reserve_iff t s.request_id a
            (fetch_challenge now later uuid fetched between (cells session)).0).1
          accepts,
    )

-- A request for a challenge that is let through to its session and fails because WhatsApp gives no
-- challenge leaves the session one that the next request fetches a challenge in.
pub request_retries :
    (format_int : ℕ → String) (entry : PasskeyEntry) (session now later again : ℕ) (uuid : String)
    (fetched : Fetched) (between : List PasskeyOp) (cells : Cells)
    → IsOpen format_int entry session
    → (begin_passkey_challenge_fetch now (cells session)).1 ≡ ok none
    → ((key : PublicKey) → fetched ≢ fetched_key (some key))
    → (begin_passkey_challenge_fetch again (
        (request_passkey_challenge format_int entry now later uuid fetched between cells).0
          session)).1
      ≡ ok none
unfolding request_passkey_challenge fetch_challenge begin_passkey_challenge_fetch
request_retries format_int entry session now later again uuid (fetch_failed text) between cells o h
      none_given =
    ground (arith, enter-IsOpen format_int entry session o, ==_refl session)
request_retries format_int entry session now later again uuid (fetched_key none) between cells o h
      none_given =
    ground (arith, enter-IsOpen format_int entry session o, ==_refl session)
request_retries format_int entry session now later again uuid (fetched_key (some key)) between cells
      o h none_given =
    absurd (none_given key refl)
