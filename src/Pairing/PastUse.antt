-- ===== src/Pairing/PastUse.antt =====
-- The states of a used challenge in internal/whatsapp/pairing.go.
use arandu_whatsapp.Errors.{passkey_challenge_already_used, sentinel}
use arandu_whatsapp.Pairing.{
  Assertion, PasskeyData, begin_passkey_challenge_fetch, is_awaiting_assertion, passkey_in,
  reserve_passkey_assertion, set_passkey_challenge, state_unset,
}
use arandu_whatsapp.Pairing.Challenge.{
  PasskeyOp, awaiting_confirmation, beginning, completing, confirming, failing, perform,
  perform_all, reserving_assertion, sending_confirmation, setting,
}
use arandu_whatsapp.Prelude.{
  List, String, [], arith, false, none, refl, some, ℕ, ◌&&◌, ◌∷◌, ◌≡◌, ◌≢◌,
}

-- A used challenge no longer awaits an assertion.
abbrev IsPastUse : PasskeyData → Type 0
IsPastUse d = (is_awaiting_assertion d.state && d.consumed) ≡ false

perform-IsPastUse : (op : PasskeyOp) (d : PasskeyData) → IsPastUse d → IsPastUse (perform op d)
unfolding perform begin_passkey_challenge_fetch set_passkey_challenge reserve_passkey_assertion
perform-IsPastUse (beginning now) d v = ground arith
perform-IsPastUse (setting now uuid key) d v = refl
perform-IsPastUse (reserving_assertion now i a) d v = ground arith
perform-IsPastUse awaiting_confirmation d v = refl
perform-IsPastUse completing d v = refl
perform-IsPastUse sending_confirmation d v = refl
perform-IsPastUse (confirming code skip) d v = refl
perform-IsPastUse (failing none) d v = refl
perform-IsPastUse (failing (some text)) d v = refl

perform_all-IsPastUse :
    (ops : List PasskeyOp) (d : PasskeyData) → IsPastUse d → IsPastUse (perform_all ops d)
unfolding perform_all
perform_all-IsPastUse [] d v = v
perform_all-IsPastUse (op ∷ ops) d v =
    perform_all-IsPastUse ops (perform op d) (perform-IsPastUse op d v)

reserve-IsPastUse :
    (now : ℕ) (id : String) (a : Assertion) (d : PasskeyData)
    → IsPastUse d
    → (reserve_passkey_assertion now id a d).1 ≢ some (sentinel passkey_challenge_already_used)
unfolding reserve_passkey_assertion
reserve-IsPastUse now id a d v = ground arith

-- In a session, ErrPasskeyChallengeAlreadyUsed is never returned: a second assertion for a used
-- challenge meets another error first.
pub never_already_used :
    (now : ℕ) (id : String) (a : Assertion) (ops : List PasskeyOp)
    → (reserve_passkey_assertion now id a (perform_all ops (passkey_in state_unset))).1
      ≢ some (sentinel passkey_challenge_already_used)
never_already_used now id a ops =
    reserve-IsPastUse now id a (perform_all ops (passkey_in state_unset))
      (perform_all-IsPastUse ops (passkey_in state_unset) refl)
