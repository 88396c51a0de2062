-- ===== src/Hub/Slots.antt =====
-- The contract of internal/whatsapp/hub.go: for each instance a slot that is free, reserved or
-- occupied, and each operation a step of one slot.
use arandu_whatsapp.Errors.{Error, connection_in_progress, instance_connected, sentinel}
use arandu_whatsapp.Hub.{Hub, ManagedClient, exists, has, register, remove, reserve}
use arandu_whatsapp.Policy.{Action-eq}
use arandu_whatsapp.Prelude.{
  ==_iff, Bool, List-eq, Option, Option-eq, String, String-eq, arith, false, if◌then◌else◌, none,
  some, true, ℕ-eq, ◌==◌, ◌↔◌, ◌≡◌,
}
use arandu_whatsapp.Prelude.Map.{get, get-delete, get-put}

pub data Slot : Type 0 where
  free reserved : Slot
  occupied : ManagedClient → Slot

abbrev slot_of : Option ManagedClient → Bool → Slot
slot_of (some c) r = occupied c
slot_of none true = reserved
slot_of none false = free

-- What a hub says of an instance.
pub slot : Hub → String → Slot
slot h id = slot_of (get h.clients id) (has h.reservations id)

-- The specification: a reservation takes a free slot only.
abbrev pub reserve_slot : Slot → Slot × Option Error
reserve_slot free = (reserved, none)
reserve_slot reserved = (reserved, some (sentinel connection_in_progress))
reserve_slot (occupied c) = (occupied c, some (sentinel instance_connected))

-- A client takes a slot that no client occupies, reserved or not.
abbrev pub register_slot : ManagedClient → Slot → Slot × Option Error
register_slot c (occupied d) = (occupied d, some (sentinel instance_connected))
register_slot c _ = (occupied c, none)

abbrev pub removed_from : Slot → Option ManagedClient
removed_from (occupied c) = some c
removed_from _ = none

-- Reserve is `reserve_slot` at the slot of its instance, and leaves every other slot alone.
pub reserve_refines :
    (h : Hub) (id j : String)
    → ((reserve id h).1 ≡ (reserve_slot (slot h id)).1)
      × (slot (reserve id h).0 j ≡ (if id == j then (reserve_slot (slot h id)).0 else slot h j))
unfolding reserve slot
reserve_refines h id j = ground (arith, get-put h.reservations id tt j, ==_iff id j)

-- Register is `register_slot` at the slot of the client's instance, and leaves every other alone.
pub register_refines :
    (h : Hub) (c : ManagedClient) (j : String)
    → ((register c h).1 ≡ (register_slot c (slot h c.instance_id)).1)
      × (slot (register c h).0 j
          ≡ (if c.instance_id == j then (register_slot c (slot h c.instance_id)).0 else slot h j))
unfolding register slot
register_refines h c j = ground (
  arith,
  get-put h.clients c.instance_id c j,
  get-delete h.reservations c.instance_id j,
  ==_iff c.instance_id j,
)

-- Remove frees the slot of its instance, returns its client if it has one, and leaves every other
-- slot alone.
pub remove_refines :
    (h : Hub) (id j : String)
    → ((remove id h).1 ≡ removed_from (slot h id))
      × (slot (remove id h).0 j ≡ (if id == j then free else slot h j))
unfolding remove slot
remove_refines h id j = ground (arith, get-delete h.clients id j, get-delete h.reservations id j)

-- Exists holds exactly when the slot is not free.
pub exists_iff : (h : Hub) (id : String) → (exists id h ≡ false) ↔ (slot h id ≡ free)
unfolding exists slot
exists_iff h id = ground arith

-- The hub refines its slots: Reserve and Register are the transitions of the slot of their instance,
-- with the errors of the slot, Remove frees it and returns its client if it has one, and each of them
-- leaves every other slot alone.
pub hub_refines_slots :
    (h : Hub) (c : ManagedClient) (id j : String)
    → (((reserve id h).1 ≡ (reserve_slot (slot h id)).1)
        × (slot (reserve id h).0 j ≡ (if id == j then (reserve_slot (slot h id)).0 else slot h j)))
      × (((register c h).1 ≡ (register_slot c (slot h c.instance_id)).1)
          × (slot (register c h).0 j ≡ (
              if c.instance_id == j then (register_slot c (slot h c.instance_id)).0 else slot h j)))
      × (((remove id h).1 ≡ removed_from (slot h id))
          × (slot (remove id h).0 j ≡ (if id == j then free else slot h j)))
hub_refines_slots h c id j = (reserve_refines h id j, register_refines h c j, remove_refines h id j)
