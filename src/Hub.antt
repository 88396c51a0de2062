-- ===== src/Hub.antt =====
-- internal/whatsapp/hub.go: the registry of managed clients and of reservations, keyed by instance.
pub mod Slots
pub mod Invariant
mod Tests
use arandu_whatsapp.Errors.{Error, connection_in_progress, external, instance_connected, sentinel}
use arandu_whatsapp.Policy.{Action-eq}
use arandu_whatsapp.Prelude.{
  Bool, List, List-eq, Option, String, String-eq, [], if◌then◌else◌, is_some, length, none, some, ℕ,
  ℕ-eq, ◌++◌, ◌||◌, ◌∷◌,
}
use arandu_whatsapp.Prelude.Map.{Map, delete, get, put}

-- What the hub reads of a ManagedWhatsAppClient. A nil Cancel or Client is `false`.
pub record ManagedClient : Type 0 where
  pub instance_id : String
  pub instance_name : String
  pub has_cancel : Bool
  pub has_client : Bool

-- WhatsAppClientHub; the mutex makes each method one step.
pub record Hub : Type 0 where
  pub clients : Map String ManagedClient
  pub reservations : Map String (Unit {0})

abbrev pub new_client_hub : Hub
new_client_hub = record { clients = []; reservations = [] }

abbrev pub has {ℓ} : {V : Type ℓ} → Map String V → String → Bool
has m k = is_some (get m k)

unfoldable pub reserve : String → Hub → Hub × Option Error
reserve id h =
    if has h.clients id
    then (h, some (sentinel instance_connected))
    else if has h.reservations id
    then (h, some (sentinel connection_in_progress))
    else (record h { reservations = put h.reservations id tt }, none)

unfoldable pub register : ManagedClient → Hub → Hub × Option Error
register c h = if has h.clients c.instance_id then (h, some (sentinel instance_connected)) else (
  record {
    clients = put h.clients c.instance_id c;
    reservations = delete h.reservations c.instance_id;
  },
  none,
)

unfoldable pub get_by_instance_id : String → Hub → Option ManagedClient
get_by_instance_id id h = get h.clients id

unfoldable pub remove : String → Hub → Hub × Option ManagedClient
remove id h = (
  record { clients = delete h.clients id; reservations = delete h.reservations id },
  get h.clients id,
)

unfoldable pub exists : String → Hub → Bool
exists id h = has h.clients id || has h.reservations id

-- The order of Go's iteration over a map is not fixed: the theorems hold for every order.
abbrev pub values : Map String ManagedClient → List ManagedClient
values [] = []
values ((k, c) ∷ m) = c ∷ values m

-- What Shutdown does to the clients.
pub data Effect : Type 0 where
  cancelled disconnected : String → Effect

abbrev pub stop : ManagedClient → List Effect
stop c =
    (if c.has_cancel then cancelled c.instance_id ∷ [] else [])
    ++ (if c.has_client then disconnected c.instance_id ∷ [] else [])

-- The loop of Shutdown over the listed clients. `expired n` says whether ctx.Done() is closed when
-- n clients are left; the loop then returns ctx.Err() before it removes the client.
unfoldable pub shutdown_loop :
    (ℕ → Bool) → List ManagedClient → Hub → Hub × List Effect × Option Error
shutdown_loop expired [] h = (h, [], none)
shutdown_loop expired (c ∷ l) h =
    if expired (length l)
    then (h, stop c, some (external "context done"))
    else let (h', effects, e) = shutdown_loop expired l (remove c.instance_id h).0 in
      (h', stop c ++ effects, e)

-- Shutdown(ctx) lists the clients, then runs the loop.
unfoldable pub shutdown : (ℕ → Bool) → Hub → Hub × List Effect × Option Error
unfolding shutdown_loop
shutdown expired h = shutdown_loop expired (values h.clients) h
