-- ===== src/Pairing/Challenge.antt =====
-- What the state machine of internal/whatsapp/pairing.go guarantees of a challenge, over any commands
-- and callbacks of the other goroutines.
use mathlib.Core.Bool.{false≢true}
use arandu_whatsapp.Pairing.{
  Assertion, PasskeyData, PublicKey, begin_passkey_challenge_fetch, clamp_ttl, get_passkey_ttl,
  is_awaiting_assertion, mark_passkey, mark_passkey_failed, milliseconds, minute,
  reserve_passkey_assertion, set_passkey_challenge, set_passkey_confirmation,
  state_awaiting_confirmation, state_completed, state_confirmation_sent, valid_passkey_assertion,
}
use arandu_whatsapp.Policy.{Action-eq}
use arandu_whatsapp.Prelude.{
  ==_iff, Bool, List, List-eq, Option, Option-eq, String, String-eq, [], any, arith, false, inl,
  inr, is_some, none, some, sym, true, ℕ, ℕ-eq, ◌*◌, ◌+◌, ◌<◌, ◌==◌, ◌↔◌, ◌∙◌, ◌∷◌, ◌≡◌, ◌≢◌, ◌≤◌,
  ◌⊎◌,
}

-- The operations on the passkey data, each under the mutex of the session; `at` is time.Now().
pub data PasskeyOp : Type 0 where
  beginning : (at : ℕ) → PasskeyOp
  setting : (at : ℕ) (uuid : String) (key : Option PublicKey) → PasskeyOp
  reserving_assertion : (at : ℕ) (request_id : String) (a : Assertion) → PasskeyOp
  awaiting_confirmation completing sending_confirmation : PasskeyOp
  confirming : (code : String) (skip : Bool) → PasskeyOp
  failing : (text : Option String) → PasskeyOp

unfoldable pub perform : PasskeyOp → PasskeyData → PasskeyData
perform (beginning now) d = (begin_passkey_challenge_fetch now d).0
perform (setting now uuid key) d = (set_passkey_challenge now uuid key d).0
perform (reserving_assertion now id a) d = (reserve_passkey_assertion now id a d).0
perform awaiting_confirmation d = mark_passkey state_awaiting_confirmation d
perform completing d = mark_passkey state_completed d
perform sending_confirmation d = mark_passkey state_confirmation_sent d
perform (confirming code skip) d = set_passkey_confirmation code skip d
perform (failing text) d = mark_passkey_failed text d

unfoldable pub perform_all : List PasskeyOp → PasskeyData → PasskeyData
unfolding perform
perform_all [] d = d
perform_all (op ∷ ops) d = perform_all ops (perform op d)

-- The operation issues a challenge under this request id.
abbrev pub issues : String → PasskeyOp → Bool
issues id (setting now uuid key) = uuid == id
issues id _ = false

-- getPasskeyTTL is positive and fifteen minutes at most, whatever Timeout WhatsApp sends, also one
-- that overflows as a duration.
pub get_passkey_ttl_bounds :
    (key : Option PublicKey) → (0 < get_passkey_ttl key) × (get_passkey_ttl key ≤ 15 * minute)
unfolding get_passkey_ttl
get_passkey_ttl_bounds none = omega arith
get_passkey_ttl_bounds (some key) = ttl (milliseconds key.timeout)
  where
    ttl : (d : ℕ) → (0 < clamp_ttl d) × (clamp_ttl d ≤ 15 * minute)
    ttl d = ground arith

-- The conditions under which an assertion is accepted.
pub record Accepts (now : ℕ) (id : String) (a : Assertion) (d : PasskeyData) : Type 0 where
  pub issued : id ≢ ""
  pub has_key : is_some d.public_key ≡ true
  pub requested : d.request_id ≡ id
  pub awaiting : is_awaiting_assertion d.state ≡ true
  pub unused : d.consumed ≡ false
  pub in_time : now < d.expires_at
  pub valid : valid_passkey_assertion a ≡ true

-- An assertion is accepted exactly for the challenge of its request id, while it awaits one, has not
-- been used and has not expired.
pub reserve_iff :
    (now : ℕ) (id : String) (a : Assertion) (d : PasskeyData)
    → ((reserve_passkey_assertion now id a d).1 ≡ none) ↔ Accepts now id a d
unfolding reserve_passkey_assertion
reserve_iff now id a d = (
  λ h. record {
    issued = ground (arith, ==_iff d.request_id "", ==_iff d.request_id id);
    has_key = ground arith;
    requested = ground (arith, ==_iff d.request_id id);
    awaiting = ground arith;
    unused = ground arith;
    in_time = ground arith;
    valid = ground arith;
  },
  λ v. ground (
    arith,
    ==_iff d.request_id "",
    ==_iff d.request_id id,
    v.issued,
    v.has_key,
    v.requested,
    v.awaiting,
    v.unused,
    v.in_time,
    v.valid,
  ),
)

-- A challenge of this request id, if it is the current one, has been used.
abbrev IsSpent : String → PasskeyData → Type 0
IsSpent id d = d.request_id ≡ id → d.consumed ≡ true

perform-IsSpent :
    (id : String) (op : PasskeyOp) (d : PasskeyData)
    → id ≢ ""
    → issues id op ≡ false
    → IsSpent id d
    → IsSpent id (perform op d)
unfolding perform begin_passkey_challenge_fetch set_passkey_challenge reserve_passkey_assertion
perform-IsSpent id (beginning now) d n k v = ground arith
perform-IsSpent id (setting now uuid key) d n k v = ground (arith, ==_iff uuid id)
perform-IsSpent id (reserving_assertion now i a) d n k v = ground arith
perform-IsSpent id awaiting_confirmation d n k v = v
perform-IsSpent id completing d n k v = v
perform-IsSpent id sending_confirmation d n k v = v
perform-IsSpent id (confirming code skip) d n k v = v
perform-IsSpent id (failing none) d n k v = v
perform-IsSpent id (failing (some text)) d n k v = v

perform_all-IsSpent :
    (id : String) (ops : List PasskeyOp) (d : PasskeyData)
    → id ≢ ""
    → any (issues id) ops ≡ false
    → IsSpent id d
    → IsSpent id (perform_all ops d)
unfolding perform_all
perform_all-IsSpent id [] d n k v = v
perform_all-IsSpent id (op ∷ ops) d n k v =
    perform_all-IsSpent id ops (perform op d) n (ground arith)
      (perform-IsSpent id op d n (ground arith) v)

reserve-IsSpent :
    (now : ℕ) (id : String) (a : Assertion) (d : PasskeyData)
    → IsSpent id (reserve_passkey_assertion now id a d).0
      ⊎ ((reserve_passkey_assertion now id a d).1 ≢ none)
unfolding reserve_passkey_assertion
reserve-IsSpent now id a d = ground arith

-- Single use: once an assertion has been accepted for a request id, no further one is, at any time
-- and after any operations, unless a new challenge is issued under the very same id.
pub accepts_once :
    (now later : ℕ) (id : String) (a b : Assertion) (ops : List PasskeyOp) (d : PasskeyData)
    → (reserve_passkey_assertion now id a d).1 ≡ none
    → any (issues id) ops ≡ false
    → (reserve_passkey_assertion later id b
        (perform_all ops (reserve_passkey_assertion now id a d).0)).1
      ≢ none
accepts_once now later id a b ops d won kept again =
    let first = (reserve_iff now id a d).0 won in
    let second =
      (reserve_iff later id b (perform_all ops (reserve_passkey_assertion now id a d).0)).0 again in
    elim (reserve-IsSpent now id a d) [
      | inl s ↦ false≢true (
          sym second.unused
          ∙ perform_all-IsSpent id ops (reserve_passkey_assertion now id a d).0 first.issued kept s
              second.requested)
      | inr n ↦ absurd (n won)
    ]

-- A challenge of this request id, if it is the current one, expires by the deadline.
abbrev EndsBy : ℕ → String → PasskeyData → Type 0
EndsBy deadline id d = d.request_id ≡ id → d.expires_at ≤ deadline

perform-EndsBy :
    (deadline : ℕ) (id : String) (op : PasskeyOp) (d : PasskeyData)
    → issues id op ≡ false
    → EndsBy deadline id d
    → EndsBy deadline id (perform op d)
unfolding perform begin_passkey_challenge_fetch set_passkey_challenge reserve_passkey_assertion
perform-EndsBy deadline id (beginning now) d k v = ground arith
perform-EndsBy deadline id (setting now uuid key) d k v = ground (arith, ==_iff uuid id)
perform-EndsBy deadline id (reserving_assertion now i a) d k v = ground arith
perform-EndsBy deadline id awaiting_confirmation d k v = v
perform-EndsBy deadline id completing d k v = v
perform-EndsBy deadline id sending_confirmation d k v = v
perform-EndsBy deadline id (confirming code skip) d k v = v
perform-EndsBy deadline id (failing none) d k v = v
perform-EndsBy deadline id (failing (some text)) d k v = v

perform_all-EndsBy :
    (deadline : ℕ) (id : String) (ops : List PasskeyOp) (d : PasskeyData)
    → any (issues id) ops ≡ false
    → EndsBy deadline id d
    → EndsBy deadline id (perform_all ops d)
unfolding perform_all
perform_all-EndsBy deadline id [] d k v = v
perform_all-EndsBy deadline id (op ∷ ops) d k v =
    perform_all-EndsBy deadline id ops (perform op d) (ground arith)
      (perform-EndsBy deadline id op d (ground arith) v)

-- Expiry: a challenge is not accepted fifteen minutes after it was issued or later, whatever the
-- timeout that WhatsApp sent with it and whatever operations come between, unless a new challenge is
-- issued under the very same id.
pub challenge_lapses :
    (now later : ℕ) (id : String) (key : Option PublicKey) (a : Assertion) (ops : List PasskeyOp)
    (d : PasskeyData)
    → any (issues id) ops ≡ false
    → now + 15 * minute ≤ later
    → (reserve_passkey_assertion later id a
        (perform_all ops (set_passkey_challenge now id key d).0)).1
      ≢ none
challenge_lapses now later id key a ops d kept late won =
    let v =
      (reserve_iff later id a (perform_all ops (set_passkey_challenge now id key d).0)).0 won in
    omega (
      arith,
      v.in_time,
      perform_all-EndsBy (now + 15 * minute) id ops (set_passkey_challenge now id key d).0 kept
          (λ same. unfold set_passkey_challenge in omega (arith, (get_passkey_ttl_bounds key).1))
          v.requested,
    )
