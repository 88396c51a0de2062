-- ===== src/Messages/Store.antt =====
-- The operations of internal/database/repository/message_repository.go and message_update_repository.go
-- that write, given the tenant of the Grant. The functions of encoding/json are parameters.
use arandu_whatsapp.Database.{Db}
use arandu_whatsapp.Database.Instances.{instance_exists}
use arandu_whatsapp.Database.Sql.{affected, find, select, update}
use arandu_whatsapp.Errors.{
  Error, Result, err, external, fail, instance_not_found, invalid_enum, invalid_input, invalid_json,
  message_not_found, ok, sentinel, unless, ◌>>=◌,
}
use arandu_whatsapp.Hub.{exists}
use arandu_whatsapp.Messages.{
  CreateMessageInput, CreateMessageUpdateInput, MessageRow, MessageStore, UpdateRow,
  device_is_valid,
}
use arandu_whatsapp.Messages.Filter.{message_at, order_by}
use arandu_whatsapp.Policy.{Action-eq}
use arandu_whatsapp.Prelude.{
  Bool, List, List-eq, Option, Option-eq, String, String-eq, [], any, contains, if◌then◌else◌,
  length, none, not, some, ℕ, ℕ-eq, ◌&&◌, ◌++◌, ◌+◌, ◌==◌, ◌||◌, ◌∷◌,
}
use arandu_whatsapp.Prelude.Text.{Text, Unicode, codes, trim_space}

-- What the database and newID answer beside the rows: the faults of the statements of a call in their
-- order, and the ids that newID returns, in theirs.
pub record Backend : Type 0 where
  pub fault : ℕ → Option Error
  pub new_id : ℕ → Result ℕ
  pub now : ℕ

-- The key of the unique index on whatsapp_messages.
abbrev pub same_key : String → ℕ → Text → MessageRow → Bool
same_key t i key m = message_at t i m && m.key_id == key

-- `rowAt`: m.id = ?
abbrev pub message_by_id : String → ℕ → ℕ → MessageRow → Bool
message_by_id t i id m = message_at t i m && m.id == id

-- find: the row, or ErrMessageNotFound
unfoldable pub find_message : Option Error → (MessageRow → Bool) → MessageStore → Result MessageRow
find_message (some e) p store = err e
find_message none p store = elim (find p store.messages) [
  | none ↦ fail message_not_found
  | some m ↦ ok m
]

module _ (unicode : Unicode) (json_valid : Text → Bool) where
  -- jsonText(value, "null")
  abbrev pub json_text : Text → Text
  json_text value = if value == [] || not (json_valid value) then codes "null" else value

  -- validateInput
  unfoldable pub validate_input : Backend → Db → String → CreateMessageInput → Option Error
  validate_input b db t input = elim (instance_exists (b.fault 0) t input.instance_id db) [
    | err e ↦ some e
    | ok exists ↦
        if not exists
        then some (sentinel instance_not_found)
        else if trim_space unicode input.key_id == [] || trim_space unicode input.message_type == []
        then some (sentinel invalid_input)
        else if not (device_is_valid input.device)
        then some (sentinel invalid_enum)
        else if not (input.content == []) && not (json_valid input.content)
        then some (sentinel invalid_json)
        else if not (input.metadata == []) && not (json_valid input.metadata)
        then some (sentinel invalid_json)
        else none
  ]

  -- The row of the INSERT.
  abbrev pub new_message : ℕ → ℕ → String → CreateMessageInput → MessageRow
  new_message now id t input = record {
    id = id;
    tenant_id = t;
    instance_id = input.instance_id;
    key_id = input.key_id;
    key_remote_jid = input.key_remote_jid;
    key_lid = input.key_lid;
    key_from_me = input.key_from_me;
    key_participant = input.key_participant;
    key_participant_lid = input.key_participant_lid;
    push_name = input.push_name;
    message_type = input.message_type;
    content = json_text input.content;
    message_timestamp = input.message_timestamp;
    device = input.device;
    is_group = input.is_group;
    metadata = json_text input.metadata;
    created_at = now;
  }

  abbrev pub insert_message : MessageRow → MessageStore → MessageStore
  insert_message m store = record store { messages = store.messages ++ m ∷ [] }

  -- The body of Create; the unique index refuses a second row with the same key.
  unfoldable pub create_message :
      Backend → Db → String → CreateMessageInput → MessageStore → MessageStore × Result MessageRow
  unfolding validate_input find_message
  create_message b db t input store = elim (validate_input b db t input) [
    | some e ↦ (store, err e)
    | none ↦ elim (b.new_id 0) [
      | err e ↦ (store, err e)
      | ok id ↦ elim (b.fault 1) [
        | some e ↦ (store, err e)
        | none ↦
            if 0 == affected (same_key t input.instance_id input.key_id) store.messages
            then (let store' = insert_message (new_message b.now id t input) store in
                (store', find_message (b.fault 2) (message_by_id t input.instance_id id) store'))
            else (store, err (external "create whatsapp message: unique constraint"))
      ]
    ]
  ]

  -- The body of CreateOrIgnore: ON CONFLICT (tenant_id, instance_id, key_id) DO NOTHING
  unfoldable pub create_or_ignore :
      Backend → Db → String → CreateMessageInput → MessageStore → MessageStore × Option Error
  unfolding validate_input
  create_or_ignore b db t input store = elim (validate_input b db t input) [
    | some e ↦ (store, some e)
    | none ↦ elim (b.new_id 0) [
      | err e ↦ (store, some e)
      | ok id ↦ elim (b.fault 1) [
        | some e ↦ (store, some e)
        | none ↦
            if 0 == affected (same_key t input.instance_id input.key_id) store.messages
            then (insert_message (new_message b.now id t input) store, none)
            else (store, none)
      ]
    ]
  ]

  abbrev pub set_content : Text → MessageRow → MessageRow
  set_content content m = record m { content = content }

  -- The body of UpdateContentForInstance.
  unfoldable pub update_content :
      Backend → String → ℕ → ℕ → Text → MessageStore → MessageStore × Result MessageRow
  unfolding find_message
  update_content b t i id content store =
      if not (json_valid content) then (store, fail invalid_json) else elim (b.fault 0) [
        | some e ↦ (store, err e)
        | none ↦
            if affected (message_by_id t i id) store.messages == 0
            then (store, fail message_not_found)
            else (let store' = record store {
              messages = update (message_by_id t i id) (set_content content) store.messages;
            } in
                (store', find_message (b.fault 1) (message_by_id t i id) store'))
      ]

-- The WHERE clause of findByIDs, whose rows come in the order of ORDER BY m.created_at, m.id.
abbrev pub among : String → ℕ → List ℕ → MessageRow → Bool
among t i ids m = message_at t i m && contains ids m.id

-- The unique index on whatsapp_message_updates.
abbrev pub same_update : UpdateRow → UpdateRow → Bool
same_update a u =
    u.tenant_id == a.tenant_id
    && u.instance_id == a.instance_id
    && u.message_id == a.message_id
    && u.status == a.status
    && u.date_time == a.date_time

-- INSERT ... ON CONFLICT ... DO NOTHING
abbrev pub insert_update : UpdateRow → List UpdateRow → List UpdateRow
insert_update u updates = if any (same_update u) updates then updates else updates ++ u ∷ []

abbrev pub read_update : Backend → ℕ → String → ℕ → MessageRow → UpdateRow
read_update b id t i m = record {
  id = id;
  tenant_id = t;
  instance_id = i;
  message_id = m.id;
  date_time = b.now;
  status = "read";
}

-- The loop of MarkReadForInstance; the n-th round runs statement n + 1 with id n.
unfoldable pub mark_loop :
    Backend → ℕ → String → ℕ → List MessageRow → List UpdateRow → Result (List UpdateRow)
mark_loop b n t i [] updates = ok updates
mark_loop b n t i (m ∷ items) updates = do
  id ← b.new_id n
  unless (b.fault (n + 1))
      (mark_loop b (n + 1) t i items (insert_update (read_update b id t i m) updates))

-- The body of MarkReadForInstance, in a transaction.
unfoldable pub mark_read :
    Backend → String → ℕ → List ℕ → MessageStore → MessageStore × Option Error
unfolding mark_loop order_by
mark_read b t i [] store = (store, none)
mark_read b t i (id ∷ ids) store = elim (b.fault 0) [
  | some e ↦ (store, some e)
  | none ↦
      let items = order_by (select (among t i (id ∷ ids)) store.messages) in
      if not (length items == length (id ∷ ids))
      then (store, some (sentinel message_not_found))
      else elim (mark_loop b 0 t i items store.updates) [
        | err e ↦ (store, some e)
        | ok updates ↦ (record store { updates = updates }, none)
      ]
]

-- `create` of message_update_repository.go: a status of a message of the tenant.
unfoldable pub create_update :
    Backend → String → CreateMessageUpdateInput → Bool → MessageStore → MessageStore × Option Error
create_update b t input ignore store = elim (b.fault 0) [
  | some e ↦ (store, some e)
  | none ↦ elim (find (λ m. m.tenant_id == t && m.id == input.message_id) store.messages) [
    | none ↦ (store, some (sentinel message_not_found))
    | some m ↦ elim (b.new_id 0) [
      | err e ↦ (store, some e)
      | ok id ↦ elim (b.fault 1) [
        | some e ↦ (store, some e)
        | none ↦
            let u : UpdateRow = record {
              id = id;
              tenant_id = t;
              instance_id = m.instance_id;
              message_id = input.message_id;
              date_time = input.date_time;
              status = input.status;
            } in
            if any (same_update u) store.updates
            then (store, if ignore then none else some (external "unique constraint"))
            else (record store { updates = store.updates ++ u ∷ [] }, none)
      ]
    ]
  ]
]
