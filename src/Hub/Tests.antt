-- ===== src/Hub/Tests.antt =====
-- Tests and instances for internal/whatsapp/hub.go.
use text.Mathlib.TextEquality.{eq_iff}
use arandu_whatsapp.Hub.{Hub, ManagedClient, has, register, remove, reserve, shutdown}
use arandu_whatsapp.Hub.Invariant.{
  IsValid, Op, registering, removing, reserve_excludes, reserving, run_all, run_all-IsValid,
  shutdown_frees,
}
use arandu_whatsapp.Hub.Slots.{
  Slot, hub_refines_slots, register_slot, removed_from, reserve_slot, slot,
}
use arandu_whatsapp.Policy.{Action-eq}
use arandu_whatsapp.Prelude.{
  List, List-eq, Option-eq, String-eq, [], arith, false, if◌then◌else◌, none, refl, true, ℕ-eq, ◌∷◌,
  ◌≡◌, ◌≢◌,
}
use arandu_whatsapp.Prelude.Map.{get}

abbrev client : ManagedClient
client = record { instance_id = "7"; instance_name = "sales"; has_cancel = true; has_client = true }

abbrev busy : Hub
busy = record { clients = ("7", client) ∷ []; reservations = ("9", tt) ∷ [] }

busy-IsValid : IsValid busy
unfolding get
busy-IsValid = record {
  exclusive = λ id. ground (arith, eq_iff "7" id, eq_iff "9" id, eq_iff "7" "9");
  keyed = (refl, tt);
}

hub_refines_slots_example :
    (((reserve "8" busy).1 ≡ (reserve_slot (slot busy "8")).1)
      × (slot (reserve "8" busy).0 "7" ≡ slot busy "7"))
    × (((register client busy).1 ≡ (register_slot client (slot busy "7")).1)
        × (slot (register client busy).0 "7" ≡ (register_slot client (slot busy "7")).0))
    × (((remove "8" busy).1 ≡ removed_from (slot busy "8"))
        × (slot (remove "8" busy).0 "7" ≡ slot busy "7"))
hub_refines_slots_example = hub_refines_slots busy client "8" "7"

abbrev others : List Op
others = reserving "9" ∷ removing "9" ∷ registering client ∷ []

run_all-IsValid_example : IsValid (run_all others busy)
run_all-IsValid_example = run_all-IsValid others busy busy-IsValid

reserved_first : (reserve "8" busy).1 ≡ none
unfolding reserve get
reserved_first = refl

reserve_excludes_example : (reserve "8" (run_all others (reserve "8" busy).0)).1 ≢ none
reserve_excludes_example = reserve_excludes busy "8" others reserved_first refl

shutdown_frees_example :
    (slot (shutdown (λ n. false) busy).0 "9"
      ≡ (if has busy.clients "9" then Slot.free else slot busy "9"))
    × ((shutdown (λ n. false) busy).2 ≡ none)
shutdown_frees_example = shutdown_frees busy "9" busy-IsValid
