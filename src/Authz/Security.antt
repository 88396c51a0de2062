-- ===== src/Authz/Security.antt =====
-- The constants of internal/authz/actions.go, and what the code uses of the packages security and
-- data: a Grant names the action that it was issued for, and belongs to a tenant.
use arandu_whatsapp.Prelude.{String-discrete, String, ◌≡◌, Option, none, Bool, true, false}
use arandu_whatsapp.Errors.{Error}

-- A security.Action is a string: one of the constants, or any other.
pub data Action : Type 0 where
  instance_create instance_list instance_view instance_update instance_delete : Action
  connection_pair connection_view connection_logout webhook_set webhook_view : Action
  message_send message_list message_read message_delete message_edit : Action
  message_media_download contact_check chat_archive profile_picture_view call_reject : Action
  group_create group_picture_update group_invite_view group_invite_revoke : Action
  group_participant_update group_leave runtime runtime_discover : Action
  other : String → Action

unfoldable pub to_string : Action → String
to_string instance_create = "whatsapp.instance.create"
to_string instance_list = "whatsapp.instance.list"
to_string instance_view = "whatsapp.instance.view"
to_string instance_update = "whatsapp.instance.update"
to_string instance_delete = "whatsapp.instance.delete"
to_string connection_pair = "whatsapp.connection.pair"
to_string connection_view = "whatsapp.connection.view"
to_string connection_logout = "whatsapp.connection.logout"
to_string webhook_set = "whatsapp.webhook.set"
to_string webhook_view = "whatsapp.webhook.view"
to_string message_send = "whatsapp.message.send"
to_string message_list = "whatsapp.message.list"
to_string message_read = "whatsapp.message.read"
to_string message_delete = "whatsapp.message.delete"
to_string message_edit = "whatsapp.message.edit"
to_string message_media_download = "whatsapp.message.media.download"
to_string contact_check = "whatsapp.contact.check"
to_string chat_archive = "whatsapp.chat.archive"
to_string profile_picture_view = "whatsapp.profile.picture.view"
to_string call_reject = "whatsapp.call.reject"
to_string group_create = "whatsapp.group.create"
to_string group_picture_update = "whatsapp.group.picture.update"
to_string group_invite_view = "whatsapp.group.invite.view"
to_string group_invite_revoke = "whatsapp.group.invite.revoke"
to_string group_participant_update = "whatsapp.group.participant.update"
to_string group_leave = "whatsapp.group.leave"
to_string runtime = "whatsapp.runtime"
to_string runtime_discover = "whatsapp.runtime.discover"
to_string (other s) = s

-- Security.Grant and what is documented of it: `Check` passes only for the action that the Grant was
-- issued for, and SystemGrant issues a Grant for an action and a tenant.
pub record Security : Type 1 where
  pub Grant : Type 0
  pub action : Grant → Action
  pub tenant : Grant → String
  pub check : Grant → Action → Option Error
  pub system_grant : Action → String → Grant
  pub check_exact : (g : Grant) (a : Action) → check g a ≡ none → action g ≡ a
  pub action-system_grant : (a : Action) (t : String) → action (system_grant a t) ≡ a
  pub tenant-system_grant : (a : Action) (t : String) → tenant (system_grant a t) ≡ t
  pub check-system_grant : (a : Action) (t : String) → check (system_grant a t) a ≡ none

-- authz.Writes
unfoldable pub writes : Action → Bool
writes instance_list = false
writes instance_view = false
writes webhook_view = false
writes _ = true

unfoldable pub Action-discrete : Discrete Action
Action-discrete = hlevel String-discrete
