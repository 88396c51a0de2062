-- ===== src/Hub/Invariant.antt =====
-- What holds of the hub of internal/whatsapp/hub.go after any operations, and its shutdown.
use mathlib.Core.Path.{subst}
use arandu_whatsapp.Hub.{
  Hub, ManagedClient, has, new_client_hub, register, remove, reserve, shutdown, shutdown_loop,
  values,
}
use arandu_whatsapp.Hub.Slots.{free, register_refines, remove_refines, reserve_refines, slot}
use arandu_whatsapp.Policy.{Action-eq}
use arandu_whatsapp.Prelude.{
  ==_iff, ==_refl, All, Bool, Bool-cases, List, List-eq, String, String-eq, [], any, ap, arith,
  false, if-elim, if◌then◌else◌, inl, inr, none, refl, sym, ℕ-eq, ◌&&◌, ◌==◌, ◌∙◌, ◌∷◌, ◌≡◌, ◌≢◌,
}
use arandu_whatsapp.Prelude.Map.{Map, delete, get, get-delete, get-put, put}

-- The operations of the hub, as the goroutines of the service interleave them.
pub data Op : Type 0 where
  reserving removing : String → Op
  registering : ManagedClient → Op

unfoldable pub run : Op → Hub → Hub
run (reserving id) h = (reserve id h).0
run (removing id) h = (remove id h).0
run (registering c) h = (register c h).0

unfoldable pub run_all : List Op → Hub → Hub
unfolding run
run_all [] h = h
run_all (op ∷ ops) h = run_all ops (run op h)

-- A client is filed under its own instance.
abbrev pub IsKeyed : Map String ManagedClient → Type 0
IsKeyed = All (λ e. e.0 ≡ e.1.instance_id)

pub record IsValid (h : Hub) : Type 0 where
  -- No instance is both registered and reserved.
  pub exclusive : (id : String) → (has h.clients id && has h.reservations id) ≡ false
  pub keyed : IsKeyed h.clients

IsKeyed-delete : (m : Map String ManagedClient) (k : String) → IsKeyed m → IsKeyed (delete m k)
unfolding delete
IsKeyed-delete [] k h = tt
IsKeyed-delete ((j, c) ∷ m) k h = elim (Bool-cases (j == k)) [
  | inl e ↦ rw e (IsKeyed-delete m k h.1)
  | inr e ↦ rw e (h.0, IsKeyed-delete m k h.1)
]

run-exclusive :
    (op : Op) (h : Hub) (id : String)
    → (has h.clients id && has h.reservations id) ≡ false
    → (has (run op h).clients id && has (run op h).reservations id) ≡ false
unfolding run reserve remove register
run-exclusive (reserving k) h id e = ground (arith, get-put h.reservations k tt id, ==_iff k id)
run-exclusive (removing k) h id e =
    ground (arith, get-delete h.clients k id, get-delete h.reservations k id)
run-exclusive (registering c) h id e =
    ground (arith, get-put h.clients c.instance_id c id, get-delete h.reservations c.instance_id id)

clients-reserve : (k : String) (h : Hub) → (reserve k h).0.clients ≡ h.clients
unfolding reserve
clients-reserve k h = ground arith

clients-register :
    (c : ManagedClient) (h : Hub)
    → (register c h).0.clients
      ≡ (if has h.clients c.instance_id then h.clients else put h.clients c.instance_id c)
unfolding register
clients-register c h = ground arith

IsKeyed-put :
    (m : Map String ManagedClient) (c : ManagedClient) → IsKeyed m → IsKeyed (put m c.instance_id c)
unfolding put
IsKeyed-put m c v = (refl, IsKeyed-delete m c.instance_id v)

run-IsKeyed : (op : Op) (h : Hub) → IsKeyed h.clients → IsKeyed (run op h).clients
unfolding run remove
run-IsKeyed (reserving k) h v = subst IsKeyed (sym (clients-reserve k h)) v
run-IsKeyed (removing k) h v = IsKeyed-delete h.clients k v
run-IsKeyed (registering c) h v =
    subst IsKeyed (sym (clients-register c h))
      (if-elim IsKeyed (has h.clients c.instance_id) v (IsKeyed-put h.clients c v))

run-IsValid : (op : Op) {h : Hub} → IsValid h → IsValid (run op h)
run-IsValid op {h} v = record {
  exclusive = λ id. run-exclusive op h id (v.exclusive id);
  keyed = run-IsKeyed op h v.keyed;
}

-- From a valid hub, such as an empty one, every interleaving of operations keeps it valid: no
-- instance is registered and reserved at once, and each client is filed under its own instance.
pub run_all-IsValid : (ops : List Op) (h : Hub) → IsValid h → IsValid (run_all ops h)
unfolding run_all
run_all-IsValid [] h v = v
run_all-IsValid (op ∷ ops) h v = run_all-IsValid ops (run op h) (run-IsValid op v)

pub new_client_hub-IsValid : IsValid new_client_hub
unfolding get
new_client_hub-IsValid = record { exclusive = λ id. refl; keyed = tt }

-- An operation that removes the instance.
abbrev pub releases : String → Op → Bool
releases id (removing k) = k == id
releases id _ = false

run-taken :
    (op : Op) (h : Hub) (id : String)
    → releases id op ≡ false
    → slot h id ≢ free
    → slot (run op h) id ≢ free
unfolding run
run-taken (reserving k) h id r t = ground (arith, (reserve_refines h k id).1, ==_iff k id)
run-taken (removing k) h id r t = ground (arith, (remove_refines h k id).1)
run-taken (registering c) h id r t =
    ground (arith, (register_refines h c id).1, ==_iff c.instance_id id)

run_all-taken :
    (ops : List Op) (h : Hub) (id : String)
    → any (releases id) ops ≡ false
    → slot h id ≢ free
    → slot (run_all ops h) id ≢ free
unfolding run_all
run_all-taken [] h id r t = t
run_all-taken (op ∷ ops) h id r t =
    run_all-taken ops (run op h) id (ground arith) (run-taken op h id (ground arith) t)

-- Mutual exclusion: after a Reserve that succeeds, and any operations of other goroutines among
-- which none removes the instance, every further Reserve of the instance fails.
pub reserve_excludes :
    (h : Hub) (id : String) (ops : List Op)
    → (reserve id h).1 ≡ none
    → any (releases id) ops ≡ false
    → (reserve id (run_all ops (reserve id h).0)).1 ≢ none
reserve_excludes h id ops won kept = ground (
  arith,
  (reserve_refines (run_all ops (reserve id h).0) id id).0,
  run_all-taken ops (reserve id h).0 id,
  (reserve_refines h id id).0,
  (reserve_refines h id id).1,
  ==_refl id,
)

-- Shutdown, over any list of clients.
occupies : String → ManagedClient → Bool
occupies id c = c.instance_id == id

slot-shutdown_loop :
    (l : List ManagedClient) (h : Hub) (j : String)
    → slot (shutdown_loop (λ n. false) l h).0 j ≡ (if any (occupies j) l then free else slot h j)
unfolding shutdown_loop occupies
slot-shutdown_loop [] h j = refl
slot-shutdown_loop (c ∷ l) h j =
    ground (
      arith,
      slot-shutdown_loop l (remove c.instance_id h).0 j,
      (remove_refines h c.instance_id j).1,
    )

shutdown_loop_error : (l : List ManagedClient) (h : Hub) → (shutdown_loop (λ n. false) l h).2 ≡ none
unfolding shutdown_loop
shutdown_loop_error [] h = refl
shutdown_loop_error (c ∷ l) h = shutdown_loop_error l (remove c.instance_id h).0

any-values :
    (m : Map String ManagedClient) (j : String) → IsKeyed m → any (occupies j) (values m) ≡ has m j
unfolding get occupies
any-values [] j v = refl
any-values ((k, c) ∷ m) j v = ground (arith, any-values m j v.1, v.0)

-- A Shutdown whose context stays open frees every slot that a client occupied and keeps every
-- other, and returns no error.
pub shutdown_frees :
    (h : Hub) (j : String)
    → IsValid h
    → (slot (shutdown (λ n. false) h).0 j ≡ (if has h.clients j then free else slot h j))
      × ((shutdown (λ n. false) h).2 ≡ none)
unfolding shutdown
shutdown_frees h j v = (
  slot-shutdown_loop (values h.clients) h j
      ∙ ap (λ b. if b then free else slot h j) (any-values h.clients j v.keyed),
  shutdown_loop_error (values h.clients) h,
)
