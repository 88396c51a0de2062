-- ===== src/Messages/Reads.antt =====
-- The exported reads of internal/database/repository/message_repository.go: each checks its Grant and
-- takes the tenant from it; the query fails with the given error, if any.
pub mod Rows
pub mod Isolation
use arandu_whatsapp.Authz.Checks.{check_message_by_id, check_message_by_key, tenant_from_grant}
use arandu_whatsapp.Authz.Security.{Security, message_edit, message_list, message_read}
use arandu_whatsapp.Database.Sql.{select}
use arandu_whatsapp.Errors.{Error, Result, ok, unless, ◌>>=◌}
use arandu_whatsapp.Messages.{MessageFilters, MessageRow, MessageStore}
use arandu_whatsapp.Messages.Filter.{message_filter, order_by}
use arandu_whatsapp.Messages.Listing.{
  ListMessagesInput, ListMessagesPageInput, MessagePage, count_rows, list_messages, list_page,
}
use arandu_whatsapp.Messages.Store.{among, find_message, message_by_id, same_key}
use arandu_whatsapp.Policy.{Action-eq}
use arandu_whatsapp.Prelude.{
  List, List-eq, Option, Option-eq, String-eq, [], if◌then◌else◌, map, ℕ, ℕ-eq, ◌&&◌, ◌==◌, ◌∷◌,
  ◌≡◌,
}
use arandu_whatsapp.Prelude.Text.{Text}

pub data MessageRead : Type 0 where
  by_id outgoing_by_id : ℕ → MessageRead
  by_key_id outgoing_by_key_id : Text → MessageRead
  by_ids : List ℕ → MessageRead
  listing : ListMessagesInput → MessageRead
  paging : ListMessagesPageInput → MessageRead

module _ (security : Security) where
  open security use {Grant, check, tenant}

  -- FindByIDForInstance
  unfoldable pub find_by_id_for_instance :
      Option Error → Grant → ℕ → ℕ → MessageStore → Result MessageRow
  unfolding find_message
  find_by_id_for_instance fault g i id store =
      unless (check_message_by_id security g)
        (do t ← tenant_from_grant security g; find_message fault (message_by_id t i id) store)

  -- FindByKeyIDForInstance
  unfoldable pub find_by_key_id_for_instance :
      Option Error → Grant → ℕ → Text → MessageStore → Result MessageRow
  unfolding find_message
  find_by_key_id_for_instance fault g i key store =
      unless (check_message_by_key security g)
        (do t ← tenant_from_grant security g; find_message fault (same_key t i key) store)

  -- FindOutgoingByIDForInstance
  unfoldable pub find_outgoing_by_id_for_instance :
      Option Error → Grant → ℕ → ℕ → MessageStore → Result MessageRow
  unfolding find_message
  find_outgoing_by_id_for_instance fault g i id store = unless (check g message_edit) (do
    t ← tenant_from_grant security g
    find_message fault (λ m. message_by_id t i id m && m.key_from_me) store)

  -- FindOutgoingByKeyIDForInstance
  unfoldable pub find_outgoing_by_key_id_for_instance :
      Option Error → Grant → ℕ → Text → MessageStore → Result MessageRow
  unfolding find_message
  find_outgoing_by_key_id_for_instance fault g i key store = unless (check g message_edit) (do
    t ← tenant_from_grant security g
    find_message fault (λ m. same_key t i key m && m.key_from_me) store)

  -- FindByIDsForInstance
  unfoldable pub find_by_ids_for_instance :
      Option Error → Grant → ℕ → List ℕ → MessageStore → Result (List MessageRow)
  unfolding order_by
  find_by_ids_for_instance fault g i ids store = unless (check g message_read) (do
    t ← tenant_from_grant security g
    if ids == []
        then ok []
        else unless fault (ok (order_by (select (among t i ids) store.messages))))

  -- Count
  unfoldable pub count : Option Error → Grant → ℕ → MessageFilters → MessageStore → Result ℕ
  unfolding message_filter
  count fault g i filters store =
      unless (check g message_list)
        (do t ← tenant_from_grant security g; unless fault (ok (count_rows t i filters store)))

  -- List; the fault is that of its first statement that fails.
  unfoldable pub list :
      Option Error → Grant → ℕ → ListMessagesInput → MessageStore → Result MessagePage
  unfolding list_messages
  list fault g i input store =
      unless (check g message_list)
        (do t ← tenant_from_grant security g; unless fault (ok (list_messages t i input store)))

  -- ListPage
  unfoldable pub list_by_page :
      Option Error → Grant → ℕ → ListMessagesPageInput → MessageStore → Result MessagePage
  unfolding list_page
  list_by_page fault g i input store =
      unless (check g message_list)
        (do t ← tenant_from_grant security g; unless fault (ok (list_page t i input store)))

  -- The reads with their arguments, and the messages that each gives out.
  abbrev one : Result MessageRow → Result (List MessageRow)
  one r = do m ← r; ok (m ∷ [])

  abbrev listed : Result MessagePage → Result (List MessageRow)
  listed r = do page ← r; ok (map (λ x. x.0) page.records)

  unfoldable pub read_messages :
      Option Error → Grant → ℕ → MessageRead → MessageStore → Result (List MessageRow)
  unfolding find_by_id_for_instance find_by_key_id_for_instance find_outgoing_by_id_for_instance
      find_outgoing_by_key_id_for_instance find_by_ids_for_instance list list_by_page
  read_messages fault g i (by_id id) store = one (find_by_id_for_instance fault g i id store)
  read_messages fault g i (by_key_id key) store =
      one (find_by_key_id_for_instance fault g i key store)
  read_messages fault g i (outgoing_by_id id) store =
      one (find_outgoing_by_id_for_instance fault g i id store)
  read_messages fault g i (outgoing_by_key_id key) store =
      one (find_outgoing_by_key_id_for_instance fault g i key store)
  read_messages fault g i (by_ids ids) store = find_by_ids_for_instance fault g i ids store
  read_messages fault g i (listing input) store = listed (list fault g i input store)
  read_messages fault g i (paging input) store = listed (list_by_page fault g i input store)

  -- A message of the tenant of the Grant and of the instance.
  abbrev pub IsOwn : Grant → ℕ → MessageRow → Type 0
  IsOwn g i m = (m.tenant_id ≡ tenant g) × (m.instance_id ≡ i)
