-- ===== src/Webhook/Events.antt =====
-- The webhook events of internal/database/types/webhook.go: their names, the switches of a
-- configuration, and the tables that relate them.
use arandu_whatsapp.Errors.{Error, external}
use arandu_whatsapp.Policy.{Action-eq}
use arandu_whatsapp.Prelude.{
  Bool, List, List-eq, Option, Option-eq, String, String-eq, [], contains, false, if◌then◌else◌,
  is_some, map, none, some, ℕ-eq, ◌∷◌,
}
use arandu_whatsapp.Prelude.Map.{get}

-- The constants of WebhookEvent; any other string is `unlisted`.
pub data WebhookEvent : Type 0 where
  event_qr_code_updated event_history_sync event_messages_upsert : WebhookEvent
  event_messages_updated event_messages_deleted event_messages_starred : WebhookEvent
  event_messages_undecryptable event_send_message event_contacts_upsert : WebhookEvent
  event_contacts_updated event_chats_updated event_chats_deleted : WebhookEvent
  event_presence_updated event_groups_upsert event_groups_updated : WebhookEvent
  event_groups_participants_updated event_connection_updated event_status_instance : WebhookEvent
  event_newsletter event_call_upsert event_labels_association : WebhookEvent
  event_labels_edit event_profile_picture_updated event_user_about_updated : WebhookEvent
  event_identity_updated event_media_retry event_settings_updated : WebhookEvent
  unlisted : String → WebhookEvent

-- The string of an event.
abbrev pub event_name : WebhookEvent → String
event_name event_qr_code_updated = "qrcode.updated"
event_name event_history_sync = "history.sync"
event_name event_messages_upsert = "messages.upsert"
event_name event_messages_updated = "messages.update"
event_name event_messages_deleted = "messages.delete"
event_name event_messages_starred = "messages.star"
event_name event_messages_undecryptable = "messages.undecryptable"
event_name event_send_message = "send.message"
event_name event_contacts_upsert = "contacts.upsert"
event_name event_contacts_updated = "contacts.update"
event_name event_chats_updated = "chats.updated"
event_name event_chats_deleted = "chats.delete"
event_name event_presence_updated = "presence.updated"
event_name event_groups_upsert = "groups.upsert"
event_name event_groups_updated = "groups.update"
event_name event_groups_participants_updated = "groups.participants.update"
event_name event_connection_updated = "connection.update"
event_name event_status_instance = "status.instance"
event_name event_newsletter = "news.letter"
event_name event_call_upsert = "call.upsert"
event_name event_labels_association = "labels.association"
event_name event_labels_edit = "labels.edit"
event_name event_profile_picture_updated = "profile.picture.update"
event_name event_user_about_updated = "user.about.update"
event_name event_identity_updated = "identity.update"
event_name event_media_retry = "media.retry"
event_name event_settings_updated = "settings.update"
event_name (unlisted name) = name

-- WebhookEvents
pub record WebhookEvents : Type 0 where
  pub qr_code_updated : Bool
  pub history_sync : Bool
  pub messages_upsert : Bool
  pub messages_updated : Bool
  pub messages_deleted : Bool
  pub messages_starred : Bool
  pub messages_undecryptable : Bool
  pub send_message : Bool
  pub contacts_upsert : Bool
  pub contacts_updated : Bool
  pub chats_updated : Bool
  pub chats_deleted : Bool
  pub presence_updated : Bool
  pub groups_upsert : Bool
  pub groups_updated : Bool
  pub groups_participants_updated : Bool
  pub connection_updated : Bool
  pub status_instance : Bool
  pub newsletter : Bool
  pub call_upsert : Bool
  pub labels_association : Bool
  pub labels_edit : Bool
  pub profile_picture_updated : Bool
  pub user_about_updated : Bool
  pub identity_updated : Bool
  pub media_retry : Bool
  pub settings_updated : Bool

-- The JSON object of a WebhookEvents: `v` reads a field by its tag, false where it is missing.
unfoldable pub of_fields : (String → Bool) → WebhookEvents
of_fields v = record {
  qr_code_updated = v "qrcodeUpdated";
  history_sync = v "historySync";
  messages_upsert = v "messagesUpsert";
  messages_updated = v "messagesUpdated";
  messages_deleted = v "messagesDeleted";
  messages_starred = v "messagesStarred";
  messages_undecryptable = v "messagesUndecryptable";
  send_message = v "sendMessage";
  contacts_upsert = v "contactsUpsert";
  contacts_updated = v "contactsUpdated";
  chats_updated = v "chatsUpdated";
  chats_deleted = v "chatsDeleted";
  presence_updated = v "presenceUpdated";
  groups_upsert = v "groupsUpsert";
  groups_updated = v "groupsUpdated";
  groups_participants_updated = v "groupsParticipantsUpdated";
  connection_updated = v "connectionUpdated";
  status_instance = v "statusInstance";
  newsletter = v "newsLetter";
  call_upsert = v "callUpsert";
  labels_association = v "labelsAssociation";
  labels_edit = v "labelsEdit";
  profile_picture_updated = v "profilePictureUpdated";
  user_about_updated = v "userAboutUpdated";
  identity_updated = v "identityUpdated";
  media_retry = v "mediaRetry";
  settings_updated = v "settingsUpdated";
}

-- IsEnabled
unfoldable pub is_enabled : WebhookEvents → WebhookEvent → Bool
is_enabled e event_qr_code_updated = e.qr_code_updated
is_enabled e event_history_sync = e.history_sync
is_enabled e event_messages_upsert = e.messages_upsert
is_enabled e event_messages_updated = e.messages_updated
is_enabled e event_messages_deleted = e.messages_deleted
is_enabled e event_messages_starred = e.messages_starred
is_enabled e event_messages_undecryptable = e.messages_undecryptable
is_enabled e event_send_message = e.send_message
is_enabled e event_contacts_upsert = e.contacts_upsert
is_enabled e event_contacts_updated = e.contacts_updated
is_enabled e event_chats_updated = e.chats_updated
is_enabled e event_chats_deleted = e.chats_deleted
is_enabled e event_presence_updated = e.presence_updated
is_enabled e event_groups_upsert = e.groups_upsert
is_enabled e event_groups_updated = e.groups_updated
is_enabled e event_groups_participants_updated = e.groups_participants_updated
is_enabled e event_connection_updated = e.connection_updated
is_enabled e event_status_instance = e.status_instance
is_enabled e event_newsletter = e.newsletter
is_enabled e event_call_upsert = e.call_upsert
is_enabled e event_labels_association = e.labels_association
is_enabled e event_labels_edit = e.labels_edit
is_enabled e event_profile_picture_updated = e.profile_picture_updated
is_enabled e event_user_about_updated = e.user_about_updated
is_enabled e event_identity_updated = e.identity_updated
is_enabled e event_media_retry = e.media_retry
is_enabled e event_settings_updated = e.settings_updated
is_enabled e (unlisted name) = false

-- webhookEventsByName
abbrev pub webhook_events_by_name : List WebhookEvent
webhook_events_by_name =
    event_qr_code_updated ∷ event_history_sync ∷ event_messages_upsert ∷ event_messages_updated
    ∷ event_messages_deleted ∷ event_messages_starred ∷ event_messages_undecryptable
    ∷ event_send_message ∷ event_contacts_upsert ∷ event_contacts_updated ∷ event_chats_updated
    ∷ event_chats_deleted ∷ event_presence_updated ∷ event_groups_upsert ∷ event_groups_updated
    ∷ event_groups_participants_updated ∷ event_connection_updated ∷ event_status_instance
    ∷ event_newsletter ∷ event_call_upsert ∷ event_labels_association ∷ event_labels_edit
    ∷ event_profile_picture_updated ∷ event_user_about_updated ∷ event_identity_updated
    ∷ event_media_retry ∷ event_settings_updated ∷ []

-- webhookFieldsByName
abbrev pub webhook_fields_by_name : List (String × WebhookEvent)
webhook_fields_by_name =
    ("qrcodeUpdated", event_qr_code_updated)
    ∷ ("historySync", event_history_sync)
    ∷ ("messagesUpsert", event_messages_upsert)
    ∷ ("messagesUpdated", event_messages_updated)
    ∷ ("messagesDeleted", event_messages_deleted)
    ∷ ("messagesStarred", event_messages_starred)
    ∷ ("messagesUndecryptable", event_messages_undecryptable)
    ∷ ("sendMessage", event_send_message)
    ∷ ("contactsUpsert", event_contacts_upsert)
    ∷ ("contactsUpdated", event_contacts_updated)
    ∷ ("chatsUpdated", event_chats_updated)
    ∷ ("chatsDeleted", event_chats_deleted)
    ∷ ("presenceUpdated", event_presence_updated)
    ∷ ("groupsUpsert", event_groups_upsert)
    ∷ ("groupsUpdated", event_groups_updated)
    ∷ ("groupsParticipantsUpdated", event_groups_participants_updated)
    ∷ ("connectionUpdated", event_connection_updated)
    ∷ ("statusInstance", event_status_instance)
    ∷ ("newsLetter", event_newsletter)
    ∷ ("callUpsert", event_call_upsert)
    ∷ ("labelsAssociation", event_labels_association)
    ∷ ("labelsEdit", event_labels_edit)
    ∷ ("profilePictureUpdated", event_profile_picture_updated)
    ∷ ("userAboutUpdated", event_user_about_updated)
    ∷ ("identityUpdated", event_identity_updated)
    ∷ ("mediaRetry", event_media_retry)
    ∷ ("settingsUpdated", event_settings_updated)
    ∷ []

-- IsSupported: the constant is a key of webhookEventsByName.
unfoldable pub is_supported : WebhookEvent → Bool
is_supported event = contains (map event_name webhook_events_by_name) (event_name event)

-- IsWebhookEventField
unfoldable pub is_webhook_event_field : String → Bool
is_webhook_event_field field = is_some (get webhook_fields_by_name field)

-- ValidateWebhookEventFields, over the fields of the map in some order
unfoldable pub validate_webhook_event_fields : List String → Option Error
unfolding is_webhook_event_field
validate_webhook_event_fields [] = none
validate_webhook_event_fields (event ∷ events) =
    if is_webhook_event_field event
    then validate_webhook_event_fields events
    else some (external "invalid webhook event")
