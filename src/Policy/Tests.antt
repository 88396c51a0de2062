-- ===== src/Policy/Tests.antt =====
-- Tests and instances for app/Policies/InstancePolicy.go.
use mathlib.Core.Bool.{decide}
use arandu_whatsapp.Authz.Security.{Action-discrete, message_list, message_send}
use arandu_whatsapp.Errors.{external}
use arandu_whatsapp.Policy.{
  Action-eq, PolicyConfig, Subject, can, has_any_role, new_instance_policy,
}
use arandu_whatsapp.Policy.Laws.{HeldRole, OwnAction, can_iff}
use arandu_whatsapp.Prelude.{
  List-eq, Option-eq, String, String-eq, [], false, inl, inr, none, refl, some, ℕ-eq, ◌==◌, ◌↔◌,
  ◌∷◌, ◌≡◌, ◌⊎◌,
}
use arandu_whatsapp.Prelude.Map.{get, put}

abbrev operators : PolicyConfig
operators = record {
  roles = (message_send, "admin" ∷ "operator" ∷ []) ∷ [];
  actions = message_list ∷ [];
}

abbrev agent : Subject
agent = record {
  tenant = "acme";
  has_role = λ role. role == "operator";
  is_guest = false;
  can = λ a. false;
}

abbrev acme : String
acme = "acme"

can_iff_example : (can (new_instance_policy operators) agent message_send acme ≡ none) ↔ (
    ((acme ≡ "") ⊎ (acme ≡ agent.tenant))
    × (HeldRole operators agent message_send ⊎ OwnAction operators agent message_send))
can_iff_example = can_iff operators agent message_send acme

operator_role : HeldRole operators agent message_send
unfolding get Action-discrete decide
operator_role = record {
  role = "operator";
  allowed = "admin" ∷ "operator" ∷ [];
  configured = refl;
  listed = refl;
  held = refl;
}

agent_sends : can (new_instance_policy operators) agent message_send acme ≡ none
agent_sends = can_iff_example.1 (inr refl, inl operator_role)

agent_lists :
    can (new_instance_policy operators) agent message_list acme
    ≡ some (external "no configured role or action allows")
unfolding can new_instance_policy get put has_any_role Action-discrete decide
agent_lists = refl
