-- ===== src/Connection/Laws.antt =====
-- What the operations of internal/whatsapp/service.go leave behind, on every path.
use arandu_whatsapp.Authz.Security.{Security}
use arandu_whatsapp.Connection.{Item, World, normalize_phone_number}
use arandu_whatsapp.Connection.Phone.{
  PhoneEnvironment, authenticate_instance, connect_item, connect_locked, connect_phone,
  connect_reserved, connect_with_lock, managed_for, pair_and_register, starting_input,
}
use arandu_whatsapp.Database.Doors.{update_connection_state}
use arandu_whatsapp.Database.Locks.{try_acquire_connection_lock}
use arandu_whatsapp.Errors.{Result, err, ok}
use arandu_whatsapp.Hub.{Hub, register, remove, reserve}
use arandu_whatsapp.Hub.Slots.{
  Slot, occupied, register_refines, remove_refines, reserve_refines, slot,
}
use arandu_whatsapp.Policy.{Action-eq}
use arandu_whatsapp.Prelude.{
  ==_iff, Bool, List-eq, Option-eq, String, String-eq, arith, false, if◌then◌else◌, none, not, refl,
  some, true, ℕ, ℕ-eq, ◌&&◌, ◌==◌, ◌≡◌,
}
use arandu_whatsapp.Prelude.Text.{Text, Unicode}

-- Whether a call returned a value.
abbrev pub succeeds {ℓ} : {A : Type ℓ} → Result A → Bool
succeeds (ok x) = true
succeeds (err e) = false

module _ (unicode : Unicode) (env : PhoneEnvironment) (security : Security)
    (format_int : ℕ → String) (owner : String) (g : security.Grant) where
  -- What the last steps of ConnectPhone do to the hub, and when the deferred calls run.
  record Outcome (item : Item) (w : World) (out : World × Bool × Result Text) : Type 0 where
    pub hub_after : out.0.hub ≡ (
        if out.1
        then w.hub
        else (register (managed_for unicode env security format_int owner g item) w.hub).0)
    pub held_iff : succeeds out.2 ≡ not out.1
    pub registered :
        out.1 ≡ false
        → (register (managed_for unicode env security format_int owner g item) w.hub).1 ≡ none

  pair_and_register-Outcome :
      (item : Item) (phone : Text) (w : World)
      → Outcome item w (pair_and_register unicode env security format_int owner g item phone w)
  unfolding pair_and_register register
  pair_and_register-Outcome item phone w = record {
    hub_after = ground arith;
    held_iff = ground arith;
    registered = ground arith;
  }

  connect_reserved-Outcome :
      (item : Item) (phone : Text) (w : World)
      → Outcome item w (connect_reserved unicode env security format_int owner g item phone w)
  unfolding connect_reserved
  connect_reserved-Outcome item phone w =
      let p = pair_and_register-Outcome item phone (record w {
        db =
            (update_connection_state security (env.engines 1) env.now g
              (starting_input item.id env.now) w.db).0;
      }) in
      record {
        hub_after = ground (arith, p.hub_after);
        held_iff = ground (arith, p.held_iff);
        registered = ground (arith, p.registered);
      }

  -- The slots after the locked part: as before if it fails, and otherwise with the new client.
  abbrev pub slots_after : Item → World → Bool → String → Slot
  slots_after item w done j =
      if done && format_int item.id == j
      then occupied (managed_for unicode env security format_int owner g item)
      else slot w.hub j

  reserved_slots :
      (item : Item) (w : World) (hub : Hub) (out : World × Bool × Result Text) (j : String)
      → hub ≡ (reserve (format_int item.id) w.hub).0
      → Outcome item (record w { hub = hub }) out
      → (reserve (format_int item.id) w.hub).1 ≡ none
      → slot
          (if out.1
            then record out.0 { hub = (remove (format_int item.id) out.0.hub).0 }
            else out.0).hub
          j
        ≡ slots_after item w (succeeds out.2) j
  reserved_slots item w hub out j same o won = ground (
    arith,
    o.hub_after,
    o.held_iff,
    o.registered,
    ==_iff (format_int item.id) j,
    (remove_refines out.0.hub (format_int item.id) j).1,
    register_refines hub (managed_for unicode env security format_int owner g item) j,
    reserve_refines w.hub (format_int item.id) j,
  )

  connect_locked_slots :
      (item : Item) (phone : Text) (w : World) (j : String)
      → slot (connect_locked unicode env security format_int owner g item phone w).0.hub j
        ≡ slots_after item w
            (succeeds (connect_locked unicode env security format_int owner g item phone w).2)
            j
  unfolding connect_locked
  connect_locked_slots item phone w j = ground (
    arith,
    ==_iff (format_int item.id) j,
    (reserve_refines w.hub (format_int item.id) j).1,
    reserve_refines w.hub (format_int item.id) (format_int item.id),
    reserved_slots item w (reserve (format_int item.id) w.hub).0
        (connect_reserved unicode env security format_int owner g item phone
          (record w { hub = (reserve (format_int item.id) w.hub).0 }))
        j refl
        (connect_reserved-Outcome item phone
          (record w { hub = (reserve (format_int item.id) w.hub).0 })),
  )

  -- Balance: where ConnectPhone goes on to the lock, for the item that it has loaded, the slot of the
  -- instance is occupied by the new client if a code is returned, and the hub has every slot as before
  -- if an error is, whichever call fails.
  pub connect_with_lock_slots :
      (item : Item) (phone : Text) (w : World) (j : String)
      → slot (connect_with_lock unicode env security format_int owner g item phone w).0.hub j
        ≡ slots_after item w
            (succeeds (connect_with_lock unicode env security format_int owner g item phone w).1)
            j
  unfolding connect_with_lock
  connect_with_lock_slots item phone w j = ground (
    arith,
    connect_locked_slots item phone
        (record w {
          db =
              (try_acquire_connection_lock security env.acquire_fault env.now owner g (some item.id)
                w.db).0;
        })
        j,
  )

  connect_item_fails :
      (item : Item) (phone_number : Text) (w : World) (j : String)
      → succeeds (connect_item unicode env security format_int owner g item phone_number w).1
        ≡ false
      → slot (connect_item unicode env security format_int owner g item phone_number w).0.hub j
        ≡ slot w.hub j
  unfolding connect_item
  connect_item_fails item phone_number w j failed =
      (elim (normalize_phone_number unicode phone_number)
          as (λ r.
            normalize_phone_number unicode phone_number ≡ r
            → slot (connect_item unicode env security format_int owner g item phone_number w).0.hub
                j
              ≡ slot w.hub j) [
                | err e ↦ λ q. ground arith
                | ok phone ↦ λ q. ground (arith, connect_with_lock_slots item phone w j)
              ])
        refl

  -- A ConnectPhone that returns an error, whichever call fails, leaves every slot of the hub as it was:
  -- no reservation stays behind.
  pub connect_phone_fails :
      (instance_name phone_number : Text) (w : World) (j : String)
      → succeeds
          (connect_phone unicode env security format_int owner g instance_name phone_number w).1
        ≡ false
      → slot
          (connect_phone unicode env security format_int owner g instance_name phone_number w).0.hub
          j
        ≡ slot w.hub j
  unfolding connect_phone
  connect_phone_fails instance_name phone_number w j failed =
      let first =
        authenticate_instance unicode env security format_int owner g instance_name w.db in
      (elim first.1
          as (λ r.
            first.1 ≡ r
            → slot
                (connect_phone unicode env security format_int owner g instance_name phone_number
                  w).0.hub
                j
              ≡ slot w.hub j) [
                | err e ↦ λ q. ground arith
                | ok item ↦ λ q.
                    ground
                      (arith, connect_item_fails item phone_number (record w { db = first.0 }) j)
              ])
        refl
