-- ===== src/Messages/Tests.antt =====
-- Tests and instances for internal/database/repository/message_repository.go.
use text.Mathlib.TextEquality.{eq_iff}
use arandu_whatsapp.Authz.Checks.{tenant_from_grant}
use arandu_whatsapp.Authz.Security.{Action-discrete, message_edit, message_list, writes}
use arandu_whatsapp.Database.{Db}
use arandu_whatsapp.Database.Sql.{affected, find, select}
use arandu_whatsapp.Errors.{ok}
use arandu_whatsapp.Fixtures.{DemoGrant, ascii, demo, grant_of}
use arandu_whatsapp.Messages.{MessageFilters, MessageRow, MessageStore}
use arandu_whatsapp.Messages.Doors.{HasUniqueKeys, write_by_grant, write_by_grant_lem}
use arandu_whatsapp.Messages.Filter.{insert_ordered, message_filter, order_by}
use arandu_whatsapp.Messages.Laws.{SameForeign, updating_content}
use arandu_whatsapp.Messages.Listing.{
  ListMessagesInput, ListMessagesPageInput, clamp_limit, cursor_filter, list_messages, list_rows,
  next, wanted,
}
use arandu_whatsapp.Messages.Marking.{is_read, mark_read_lem}
use arandu_whatsapp.Messages.Order.{HasIds}
use arandu_whatsapp.Messages.Pages.{first_pages, first_pages_lem}
use arandu_whatsapp.Messages.Paging.{follow, follow_all}
use arandu_whatsapp.Messages.Reads.{IsOwn, list, listing, read_messages}
use arandu_whatsapp.Messages.Reads.Isolation.{read_messages-IsOwn}
use arandu_whatsapp.Messages.Store.{Backend, mark_read}
use arandu_whatsapp.Policy.{Action-eq}
use arandu_whatsapp.Prelude.{
  ==_iff, All, List-eq, Option-eq, String-eq, [], arith, contains, false, none, refl, some, true, ℕ,
  ℕ-eq, ◌+◌, ◌∷◌, ◌≡◌,
}
use arandu_whatsapp.Prelude.Text.{codes}

abbrev hello : MessageRow
hello = record {
  id = 1;
  tenant_id = "acme";
  instance_id = 7;
  key_id = codes "K1";
  key_remote_jid = some "55@s";
  key_lid = none;
  key_from_me = true;
  key_participant = none;
  key_participant_lid = none;
  push_name = none;
  message_type = codes "conversation";
  content = codes "null";
  message_timestamp = 9;
  device = "web";
  is_group = none;
  metadata = codes "null";
  created_at = 10;
}

abbrev reply : MessageRow
reply = record hello { id = 2; key_id = codes "K2"; key_from_me = false }

abbrev foreign : MessageRow
foreign = record hello { id = 3; tenant_id = "umbrella" }

abbrev sample : MessageStore
sample = record { messages = reply ∷ foreign ∷ hello ∷ []; updates = [] }

abbrev no_filters : MessageFilters
no_filters = record {
  id = none;
  key_id = none;
  key_remote_jid = none;
  key_from_me = none;
  message_type = none;
  device = none;
  timestamp_gte = none;
  timestamp_lte = none;
  message_status = none;
}

abbrev one_by_one : ListMessagesInput
one_by_one = record { limit = 1; cursor = none; direction = next; filters = no_filters }

sample-HasIds : HasIds sample.messages
sample-HasIds = ((refl, (refl, tt)), ((refl, tt), (tt, tt)))

follow_all_example : follow 3 "acme" 7 one_by_one sample ≡ hello ∷ reply ∷ []
unfolding order_by select message_filter insert_ordered
follow_all_example = follow_all "acme" 7 sample sample-HasIds 3 one_by_one refl refl (omega arith)

abbrev working : Backend
working = record { fault = λ n. none; new_id = λ n. ok (n + 4); now = 20 }

sample-HasUniqueKeys : HasUniqueKeys sample
unfolding affected
sample-HasUniqueKeys t i key = ground (
  arith,
  ==_iff hello.key_id key,
  ==_iff reply.key_id key,
  ==_iff hello.key_id reply.key_id,
  ==_iff hello.tenant_id t,
  ==_iff foreign.tenant_id t,
  eq_iff "acme" "umbrella",
)

abbrev nothing : Db
nothing = record {
  instances = [];
  connections = [];
  messages = [];
  chats = [];
  contacts = [];
  webhooks = [];
  message_updates = [];
  webhook_deliveries = [];
  message_jobs = [];
  address_mappings = [];
}

abbrev editor : DemoGrant
editor = grant_of message_edit "acme"

abbrev edited : MessageStore
edited =
    write_by_grant ascii (λ c. true) demo working nothing editor (updating_content 7 1 (codes "{}"))
      sample

write_by_grant_example :
    SameForeign "acme" edited sample
    × HasUniqueKeys edited
    × (writes message_edit ≡ false → edited ≡ sample)
write_by_grant_example =
    write_by_grant_lem ascii (λ c. true) demo working nothing editor
      (updating_content 7 1 (codes "{}")) sample sample-HasUniqueKeys

read_messages_example : All (IsOwn demo (grant_of message_list "acme") 7) (hello ∷ [])
unfolding read_messages list order_by select message_filter insert_ordered tenant_from_grant
    list_messages list_rows wanted clamp_limit cursor_filter Action-discrete
read_messages_example =
    read_messages-IsOwn demo none (grant_of message_list "acme") 7 (listing one_by_one) sample
      (hello ∷ []) refl

mark_read_example :
    ((mark_read working "acme" 7 (2 ∷ 1 ∷ []) sample).1 ≡ none)
    × (true ≡ false → (mark_read working "acme" 7 (2 ∷ 1 ∷ []) sample).0 ≡ sample)
    × (true ≡ true
        → (id : ℕ) → contains (2 ∷ 1 ∷ []) id ≡ true
        → is_read "acme" 7 id (mark_read working "acme" 7 (2 ∷ 1 ∷ []) sample).0.updates ≡ true)
unfolding find
mark_read_example =
    mark_read_lem working "acme" 7 (2 ∷ 1 ∷ []) sample sample-HasIds (λ n. (refl, n + 4, refl))

abbrev by_page : ListMessagesPageInput
by_page = record { limit = 1; page = 1; filters = no_filters }

first_pages_example : first_pages "acme" 7 by_page sample 2 ≡ reply ∷ hello ∷ []
unfolding order_by select message_filter insert_ordered clamp_limit
first_pages_example = first_pages_lem "acme" 7 by_page sample 2 (omega arith)
