-- ===== src/Authz/Checks.antt =====
-- The Check functions of internal/authz/actions.go: a Grant passes one if its action is in the
-- function's set and its own Check passes, and RuntimeGrantFromPair.
use arandu_whatsapp.Prelude.{String, Option, some, ◌==◌, String-eq, if◌then◌else◌}
use arandu_whatsapp.Errors.{Error, wrap, forbidden, external, Result, ok, err, unless}
use arandu_whatsapp.Authz.Security.{
  Security, to_string, instance_view, instance_delete, connection_pair, connection_view,
  connection_logout, webhook_set, webhook_view, message_send, message_list, message_read,
  message_delete, message_edit, message_media_download, contact_check, chat_archive,
  profile_picture_view, call_reject, group_create, group_picture_update, group_invite_view,
  group_invite_revoke, group_participant_update, group_leave, runtime,
}

module _ (security : Security) where
  open security use {Grant, action, tenant, check, system_grant}

  unfoldable pub refusal : Grant → Option Error
  refusal g = some (wrap forbidden (external (to_string (action g))))

  -- CheckInstanceLookup
  unfoldable pub check_instance_lookup : Grant → Option Error
  check_instance_lookup g = elim (action g) [
    | instance_view ↦ check g instance_view
    | connection_pair ↦ check g connection_pair
    | connection_view ↦ check g connection_view
    | connection_logout ↦ check g connection_logout
    | instance_delete ↦ check g instance_delete
    | webhook_set ↦ check g webhook_set
    | webhook_view ↦ check g webhook_view
    | message_send ↦ check g message_send
    | message_list ↦ check g message_list
    | message_read ↦ check g message_read
    | message_delete ↦ check g message_delete
    | message_edit ↦ check g message_edit
    | message_media_download ↦ check g message_media_download
    | contact_check ↦ check g contact_check
    | chat_archive ↦ check g chat_archive
    | profile_picture_view ↦ check g profile_picture_view
    | call_reject ↦ check g call_reject
    | group_create ↦ check g group_create
    | group_picture_update ↦ check g group_picture_update
    | group_invite_view ↦ check g group_invite_view
    | group_invite_revoke ↦ check g group_invite_revoke
    | group_participant_update ↦ check g group_participant_update
    | group_leave ↦ check g group_leave
    | runtime ↦ check g runtime
    | _ ↦ refusal g
  ]

  -- CheckInstanceStatus
  unfoldable pub check_instance_status : Grant → Option Error
  check_instance_status g = elim (action g) [
    | connection_pair ↦ check g connection_pair
    | connection_view ↦ check g connection_view
    | connection_logout ↦ check g connection_logout
    | instance_delete ↦ check g instance_delete
    | message_send ↦ check g message_send
    | message_list ↦ check g message_list
    | message_read ↦ check g message_read
    | message_delete ↦ check g message_delete
    | message_edit ↦ check g message_edit
    | message_media_download ↦ check g message_media_download
    | contact_check ↦ check g contact_check
    | chat_archive ↦ check g chat_archive
    | profile_picture_view ↦ check g profile_picture_view
    | call_reject ↦ check g call_reject
    | group_create ↦ check g group_create
    | group_picture_update ↦ check g group_picture_update
    | group_invite_view ↦ check g group_invite_view
    | group_invite_revoke ↦ check g group_invite_revoke
    | group_participant_update ↦ check g group_participant_update
    | group_leave ↦ check g group_leave
    | runtime ↦ check g runtime
    | _ ↦ refusal g
  ]

  -- CheckConnectionState
  unfoldable pub check_connection_state : Grant → Option Error
  check_connection_state g = elim (action g) [
    | connection_pair ↦ check g connection_pair
    | connection_logout ↦ check g connection_logout
    | runtime ↦ check g runtime
    | _ ↦ refusal g
  ]

  -- CheckConnectionLock
  unfoldable pub check_connection_lock : Grant → Option Error
  check_connection_lock g = elim (action g) [
    | connection_pair ↦ check g connection_pair
    | connection_logout ↦ check g connection_logout
    | instance_delete ↦ check g instance_delete
    | runtime ↦ check g runtime
    | _ ↦ refusal g
  ]

  -- CheckClearDevice
  unfoldable pub check_clear_device : Grant → Option Error
  check_clear_device g = elim (action g) [
    | connection_logout ↦ check g connection_logout
    | runtime ↦ check g runtime
    | _ ↦ refusal g
  ]

  -- CheckMessageByID
  unfoldable pub check_message_by_id : Grant → Option Error
  check_message_by_id g = elim (action g) [
    | message_send ↦ check g message_send
    | message_delete ↦ check g message_delete
    | message_media_download ↦ check g message_media_download
    | _ ↦ refusal g
  ]

  -- CheckMessageByKey
  unfoldable pub check_message_by_key : Grant → Option Error
  check_message_by_key g = elim (action g) [
    | message_send ↦ check g message_send
    | message_media_download ↦ check g message_media_download
    | runtime ↦ check g runtime
    | _ ↦ refusal g
  ]

  -- CheckMessageContentUpdate
  unfoldable pub check_message_content_update : Grant → Option Error
  check_message_content_update g = elim (action g) [
    | message_delete ↦ check g message_delete
    | message_edit ↦ check g message_edit
    | _ ↦ refusal g
  ]

  -- CheckWebhookLookup
  unfoldable pub check_webhook_lookup : Grant → Option Error
  check_webhook_lookup g = elim (action g) [
    | webhook_set ↦ check g webhook_set
    | webhook_view ↦ check g webhook_view
    | _ ↦ refusal g
  ]

  -- CheckAddressResolution
  unfoldable pub check_address_resolution : Grant → Option Error
  check_address_resolution g = elim (action g) [
    | message_send ↦ check g message_send
    | profile_picture_view ↦ check g profile_picture_view
    | _ ↦ refusal g
  ]

  -- CheckDeviceStore
  unfoldable pub check_device_store : Grant → Option Error
  check_device_store g = elim (action g) [
    | connection_pair ↦ check g connection_pair
    | connection_logout ↦ check g connection_logout
    | instance_delete ↦ check g instance_delete
    | runtime ↦ check g runtime
    | _ ↦ refusal g
  ]

  -- CheckMessageCreate
  unfoldable pub check_message_create : Grant → Option Error
  check_message_create g = check g message_send

  -- `tenantFromGrant` of internal/database/repository/repository.go
  unfoldable pub tenant_from_grant : Grant → Result String
  tenant_from_grant g =
      if tenant g == ""
      then err (wrap forbidden (external "grant has no tenant"))
      else ok (tenant g)

  -- RuntimeGrantFromPair
  unfoldable pub runtime_grant_from_pair : Grant → Result Grant
  runtime_grant_from_pair g = unless (check g connection_pair) (
      if tenant g == ""
      then err (wrap forbidden (external "grant has no tenant"))
      else ok (system_grant runtime (tenant g)))
