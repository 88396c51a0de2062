-- ===== src/Policy.antt =====
-- app/Policies/InstancePolicy.go, with PolicyConfig of config/whatsapp.go, and the public vocabulary
-- of app/Enums/Actions.go.
pub mod Laws
mod Tests
use arandu_whatsapp.Authz.Security.{
  Action, Action-discrete, call_reject, chat_archive, connection_logout, connection_pair,
  connection_view, contact_check, group_create, group_invite_revoke, group_invite_view, group_leave,
  group_participant_update, group_picture_update, instance_create, instance_delete, instance_list,
  instance_update, instance_view, message_delete, message_edit, message_list,
  message_media_download, message_read, message_send, profile_picture_view, webhook_set,
  webhook_view,
}
use arandu_whatsapp.Errors.{Error, external}
use arandu_whatsapp.Prelude.{
  Bool, Eq, List, List-eq, Option, Option-eq, String, String-eq, [], contains, eq_of_discrete,
  false, if◌then◌else◌, none, not, or_false, some, true, ℕ-eq, ◌&&◌, ◌==◌, ◌∷◌,
}
use arandu_whatsapp.Prelude.Map.{Map, get, put}

instance abbrev pub Action-eq : Eq Action
Action-eq = eq_of_discrete Action-discrete

-- config.PolicyConfig: the roles that open each action, and the actions that a subject's own
-- actions open.
pub record PolicyConfig : Type 0 where
  pub roles : Map Action (List String)
  pub actions : List Action

-- What the policy asks of a security.Subject.
pub record Subject : Type 0 where
  pub tenant : String
  pub has_role : String → Bool
  pub is_guest : Bool
  pub can : Action → Bool

-- The `actions` map holds only true; a missing action reads false.
pub record InstancePolicy : Type 0 where
  pub roles : Map Action (List String)
  pub actions : Map Action Bool

open_actions : List Action → Map Action Bool
open_actions [] = []
open_actions (a ∷ l) = put (open_actions l) a true

-- The copied map holds the entries of the configuration.
copy_roles : Map Action (List String) → Map Action (List String)
copy_roles [] = []
copy_roles ((a, allowed) ∷ m) = put (copy_roles m) a allowed

-- NewInstancePolicy
unfoldable pub new_instance_policy : PolicyConfig → InstancePolicy
unfolding open_actions copy_roles
new_instance_policy cfg = record {
  roles = copy_roles cfg.roles;
  actions = open_actions cfg.actions;
}

-- The value that Go reads for a missing key is nil.
abbrev pub or_nil : Option (List String) → List String
or_nil none = []
or_nil (some l) = l

-- p.roles[action]
abbrev pub roles_of : InstancePolicy → Action → List String
roles_of p a = or_nil (get p.roles a)

-- p.actions[action]
abbrev pub opened : InstancePolicy → Action → Bool
opened p a = or_false (get p.actions a)

-- the loop over the roles
unfoldable pub has_any_role : Subject → List String → Bool
has_any_role s [] = false
has_any_role s (role ∷ l) = if s.has_role role then true else has_any_role s l

-- Can, given the tenant of the instance; `none` permits
unfoldable pub can : InstancePolicy → Subject → Action → String → Option Error
can p subject action instance_tenant =
    if not (instance_tenant == "") && not (instance_tenant == subject.tenant)
    then some (external "whatsapp instance belongs to another tenant")
    else if has_any_role subject (roles_of p action)
    then none
    else if opened p action && not subject.is_guest && subject.can action
    then none
    else some (external "no configured role or action allows")

abbrev pub public_actions : List Action
public_actions =
    instance_create ∷ instance_list ∷ instance_view ∷ instance_update ∷ instance_delete
    ∷ connection_pair ∷ connection_view ∷ connection_logout ∷ webhook_set ∷ webhook_view
    ∷ message_send ∷ message_list ∷ message_read ∷ message_delete ∷ message_edit
    ∷ message_media_download ∷ contact_check ∷ chat_archive ∷ profile_picture_view ∷ call_reject
    ∷ group_create ∷ group_picture_update ∷ group_invite_view ∷ group_invite_revoke
    ∷ group_participant_update ∷ group_leave ∷ []

-- IsWhatsAppAction
unfoldable pub is_whatsapp_action : Action → Bool
is_whatsapp_action a = contains public_actions a
