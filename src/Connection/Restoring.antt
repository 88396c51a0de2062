-- ===== src/Connection/Restoring.antt =====
-- The slots of the hub that restoreOne of internal/whatsapp/service.go leaves.
use arandu_whatsapp.Authz.Security.{Security}
use arandu_whatsapp.Connection.{Item, WhatsAppClient, World}
use arandu_whatsapp.Connection.Restore.{
  RestoreEnvironment, managed_of, mark, reconcile_instance_state, restore_connecting,
  restore_locked, restore_one, restore_registered, restore_reserved, restoring_input,
}
use arandu_whatsapp.Database.Locks.{try_acquire_connection_lock}
use arandu_whatsapp.Errors.{err, ok}
use arandu_whatsapp.Hub.{register, remove, reserve}
use arandu_whatsapp.Hub.Slots.{
  Slot, occupied, register_refines, remove_refines, reserve_refines, slot,
}
use arandu_whatsapp.Policy.{Action-eq}
use arandu_whatsapp.Prelude.{
  ==_iff, List-eq, Option-eq, String, String-eq, arith, inl, none, refl, some, ℕ, ℕ-eq, ◌≡◌, ◌⊎◌,
}
use arandu_whatsapp.Prelude.Text.{Unicode}

module _ (unicode : Unicode) (env : RestoreEnvironment) (security : Security)
    (format_int : ℕ → String) (owner : String) (g : security.Grant) where
  -- The hub is as before, or the slot of the instance is freed.
  abbrev IsSettled : Item → World → World → Type 0
  IsSettled item w out = (out.hub ≡ w.hub) ⊎ (out.hub ≡ (remove (format_int item.id) w.hub).0)

  restore_connecting-IsSettled :
      (item : Item) (w : World)
      → IsSettled item w (restore_connecting unicode env security format_int owner g item w).0
  unfolding restore_connecting reconcile_instance_state
  restore_connecting-IsSettled item w = ground arith

  restore_registered-IsSettled :
      (item : Item) (client : WhatsAppClient) (w : World)
      → IsSettled item w
          (restore_registered unicode env security format_int owner g item client w).0
  unfolding restore_registered reconcile_instance_state
  restore_registered-IsSettled item client w = ground (
    arith,
    restore_connecting-IsSettled item (
        mark unicode env security format_int owner g 2 (restoring_input item.id env.now)
          (reconcile_instance_state unicode env security format_int owner g 1 item (some client)
            w).0),
  )

  -- The hub once the slot was reserved: the client is registered, or the slot is freed, before or after.
  abbrev IsRestored : Item → World → World → Type 0
  IsRestored item w out =
      let hub = (register (managed_of unicode env security format_int owner g item) w.hub).0 in
      (out.hub ≡ (remove (format_int item.id) w.hub).0)
      ⊎ (out.hub ≡ hub)
      ⊎ (out.hub ≡ (remove (format_int item.id) hub).0)

  restore_reserved-IsRestored :
      (item : Item) (w : World)
      → IsRestored item w (restore_reserved unicode env security format_int owner g item w).0
  unfolding restore_reserved
  restore_reserved-IsRestored item w =
      (elim env.client_for_device
          as (λ r.
            env.client_for_device ≡ r
            → IsRestored item w
                (restore_reserved unicode env security format_int owner g item w).0) [
                  | err e ↦ λ q. ground arith
                  | ok client ↦ λ q.
                      let hub =
                        (register (managed_of unicode env security format_int owner g item)
                          w.hub).0 in
                      ground
                        (arith, restore_registered-IsSettled item client (record w { hub = hub }))
                ])
        refl

  restored_slots :
      (item : Item) (w out : World) (j : String)
      → (reserve (format_int item.id) w.hub).1 ≡ none
      → IsRestored item (record w { hub = (reserve (format_int item.id) w.hub).0 }) out
      → (slot out.hub j ≡ slot w.hub j)
        ⊎ ((format_int item.id ≡ j)
            × (slot w.hub j ≡ Slot.free)
            × (slot out.hub j ≡ occupied (managed_of unicode env security format_int owner g item)))
  restored_slots item w out j won o =
      let id = format_int item.id in
      let hub = (reserve id w.hub).0 in
      let c = managed_of unicode env security format_int owner g item in
      ground (
        arith,
        o,
        ==_iff id j,
        reserve_refines w.hub id j,
        (remove_refines hub id j).1,
        register_refines hub c j,
        (remove_refines (register c hub).0 id j).1,
      )

  -- What one restoration may do to a slot.
  abbrev AreRestored : Item → World → World → String → Type 0
  AreRestored item w out j =
      (slot out.hub j ≡ slot w.hub j)
      ⊎ ((format_int item.id ≡ j)
          × (slot w.hub j ≡ Slot.free)
          × (slot out.hub j ≡ occupied (managed_of unicode env security format_int owner g item)))

  restore_locked-AreRestored :
      (item : Item) (w : World) (j : String)
      → AreRestored item w (restore_locked unicode env security format_int owner g item w).0 j
  unfolding restore_locked reconcile_instance_state
  restore_locked-AreRestored item w j =
      (elim (reserve (format_int item.id) w.hub).1
          as (λ r.
            (reserve (format_int item.id) w.hub).1 ≡ r
            → AreRestored item w (restore_locked unicode env security format_int owner g item w).0
                j) [
                  | some e ↦ λ q. inl (ground arith)
                  | none ↦ λ q.
                      let w' : World = record w { hub = (reserve (format_int item.id) w.hub).0 } in
                      ground (
                        arith,
                        q,
                        restored_slots item w
                            (restore_reserved unicode env security format_int owner g item w').0 j q
                            (restore_reserved-IsRestored item w'),
                      )
                ])
        refl

  -- What restoreOne does to the slots, whichever call fails: each is as before, no reservation stays
  -- behind, or it is that of the instance, was free, and the client of the instance occupies it.
  pub restore_one_slots :
      (item : Item) (w : World) (j : String)
      → (slot (restore_one unicode env security format_int owner g item w).0.hub j ≡ slot w.hub j)
        ⊎ ((format_int item.id ≡ j)
            × (slot w.hub j ≡ Slot.free)
            × (slot (restore_one unicode env security format_int owner g item w).0.hub j
                ≡ occupied (managed_of unicode env security format_int owner g item)))
  unfolding restore_one
  restore_one_slots item w j = ground (
    arith,
    restore_locked-AreRestored item
        (record w {
          db =
              (try_acquire_connection_lock security env.acquire_fault env.now owner g (some item.id)
                w.db).0;
        })
        j,
  )
