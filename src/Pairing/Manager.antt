-- ===== src/Pairing/Manager.antt =====
-- pairingManager of internal/whatsapp/pairing.go: the pairing sessions, by instance. A session is a
-- pointer, here the number of its cell; each method is one step under the mutex.
use arandu_whatsapp.Policy.{Action-eq}
use arandu_whatsapp.Prelude.{
  ==_iff, ==_refl, Bool, List, List-eq, Option, Option-eq, String, String-eq, [], arith, contains,
  false, if◌then◌else◌, is_some, none, not, some, true, ℕ, ℕ-eq, ◌&&◌, ◌==◌, ◌∷◌, ◌≡◌,
}
use arandu_whatsapp.Prelude.Map.{Map, delete, get, get-delete, get-put, put}

abbrev pub Sessions : Type 0
Sessions = Map String ℕ

-- newPairingManager
abbrev pub new_pairing_manager : Sessions
new_pairing_manager = []

unfoldable pub add : String → ℕ → Sessions → Sessions × Bool
add id session m = if is_some (get m id) then (m, false) else (put m id session, true)

-- The deletion happens only for the very same session.
unfoldable pub remove_session : String → ℕ → Sessions → Sessions
remove_session id session m = if get m id == some session then delete m id else m

unfoldable pub get_session : String → Sessions → Option ℕ
get_session id m = get m id

unfoldable pub session_exists : String → Sessions → Bool
session_exists id m = is_some (get m id)

-- cancelAll: the sessions whose cancel function is called.
unfoldable pub cancel_all : Sessions → List ℕ
cancel_all [] = []
cancel_all ((id, session) ∷ m) = session ∷ cancel_all m

-- A session is added only for an instance that has none, and is then the one that get returns; the
-- session of an instance that has one is never replaced; other instances are left alone.
pub get-add :
    (id j : String) (session : ℕ) (m : Sessions)
    → ((add id session m).1 ≡ not (session_exists id m))
      × (get_session j (add id session m).0
          ≡ (if id == j && not (session_exists id m) then some session else get_session j m))
unfolding add session_exists get_session
get-add id j session m = ground (arith, get-put m id session j, ==_iff id j)

-- The end of a pairing removes the session of its instance only if that is the session that ended: a
-- newer session, and those of other instances, stay.
pub get-remove_session :
    (id j : String) (session : ℕ) (m : Sessions)
    → get_session j (remove_session id session m)
      ≡ (if id == j && get_session j m == some session then none else get_session j m)
unfolding remove_session get_session
get-remove_session id j session m =
    ground (arith, get-delete m id j, ==_iff id j, ==_iff (get m id) (some session))

-- A call to cancelAll reaches the session of every instance.
pub contains-cancel_all :
    (id : String) (session : ℕ) (m : Sessions)
    → get_session id m ≡ some session
    → contains (cancel_all m) session ≡ true
unfolding get_session get cancel_all
contains-cancel_all id session [] h = cc
contains-cancel_all id session ((j, s) ∷ m) h =
    ground (arith, contains-cancel_all id session m, ==_refl session)
