-- ===== src/Messages/Reads/Isolation.antt =====
-- Which messages the reads of internal/database/repository/message_repository.go give out.
use mathlib.Core.List.{reverse}
use arandu_whatsapp.Authz.Checks.{check_message_by_id, check_message_by_key, tenant_from_grant}
use arandu_whatsapp.Authz.Security.{Security, message_edit, message_list, message_read}
use arandu_whatsapp.Database.Sql.{select}
use arandu_whatsapp.Errors.{Error, Result, ok, unless, ◌>>=◌}
use arandu_whatsapp.Messages.{MessageRow, MessageStore}
use arandu_whatsapp.Messages.Filter.{message_at, message_filter, order_by}
use arandu_whatsapp.Messages.Listing.{
  CursorDirection, ListMessagesInput, ListMessagesPageInput, MessagePage, clamp_limit, clamp_page,
  list_messages, list_page, list_rows, next, page_offset, page_rows, previous, wanted,
}
use arandu_whatsapp.Messages.Order.{All-order_by}
use arandu_whatsapp.Messages.Reads.{
  IsOwn, MessageRead, by_id, by_ids, by_key_id, find_by_id_for_instance,
  find_by_key_id_for_instance, find_outgoing_by_id_for_instance,
  find_outgoing_by_key_id_for_instance, list, list_by_page, listing, outgoing_by_id,
  outgoing_by_key_id, paging, read_messages,
}
use arandu_whatsapp.Messages.Reads.Rows.{
  All-drop, All-reverse, All-take, All-with_updates, answered, find_message-eq_ok, if_answered,
  listed-All, one-All, select-All,
}
use arandu_whatsapp.Messages.Store.{among, find_message, message_by_id, same_key}
use arandu_whatsapp.Policy.{Action-eq}
use arandu_whatsapp.Prelude.{
  ==_iff, All, Bool, List, List-eq, Option, Option-eq, String, String-eq, [], arith, drop,
  if◌then◌else◌, map, take, true, ℕ, ℕ-eq, ◌&&◌, ◌==◌, ◌≡◌,
}

module _ (security : Security) where
  open security use {Grant, check, tenant}

  -- A message that a WHERE clause of the tenant and the instance lets through.
  owned :
      (g : Grant) (i : ℕ) (m : MessageRow) → message_at (tenant g) i m ≡ true → IsOwn security g i m
  owned g i m h =
      (ground (arith, ==_iff m.tenant_id (tenant g)), ground (arith, ==_iff m.instance_id i))

  -- What a read that succeeds has passed: the tenant of the Grant and its query.
  opened :
      {A : Type 0} (P : A → Type 0) (refused : Option Error) (g : Grant) (query : String → Result A)
      → ((a : A) → query (tenant g) ≡ ok a → P a)
      → (a : A) → (unless refused (do t ← tenant_from_grant security g; query t)) ≡ ok a
      → P a
  unfolding tenant_from_grant
  opened P refused g query f a h = f a (ground arith)

  found-IsOwn :
      (refused fault : Option Error) (g : Grant) (i : ℕ) (store : MessageStore)
      (p : String → MessageRow → Bool)
      → ((m : MessageRow) → p (tenant g) m ≡ true → IsOwn security g i m)
      → (m : MessageRow)
      → (unless refused (do t ← tenant_from_grant security g; find_message fault (p t) store))
        ≡ ok m
      → IsOwn security g i m
  found-IsOwn refused fault g i store p f m h =
      opened (IsOwn security g i) refused g (λ t. find_message fault (p t) store)
        (λ a k. f a (find_message-eq_ok fault (p (tenant g)) store a k)) m h

  -- The messages of a page.
  abbrev IsPageOf : Grant → ℕ → MessagePage → Type 0
  IsPageOf g i page = All (IsOwn security g i) (map (λ x. x.0) page.records)

  -- The rows of one direction.
  directed :
      (P : MessageRow → Type 0) (d : CursorDirection) (n : ℕ) (sorted : List MessageRow)
      → All P sorted
      → All P (elim d [ next ↦ take n sorted | previous ↦ reverse (take n (reverse sorted)) ])
  directed P next n sorted h = All-take P n sorted h
  directed P previous n sorted h =
      All-reverse P (take n (reverse sorted))
        (All-take P n (reverse sorted) (All-reverse P sorted h))

  list_messages-IsPageOf :
      (g : Grant) (i : ℕ) (input : ListMessagesInput) (store : MessageStore)
      → IsPageOf g i (list_messages (tenant g) i input store)
  unfolding list_messages list_rows wanted message_filter
  list_messages-IsPageOf g i input store =
      let rows = select (wanted (tenant g) i input store) store.messages in
      All-with_updates (IsOwn security g i) (tenant g) store.updates
        (list_rows (tenant g) i input store)
        (directed (IsOwn security g i) input.direction (clamp_limit input.limit) (order_by rows) (
          All-order_by (IsOwn security g i) rows (
            select-All (IsOwn security g i) (wanted (tenant g) i input store) store.messages
              (λ m z. owned g i m (ground arith)))))

  list_page-IsPageOf :
      (g : Grant) (i : ℕ) (input : ListMessagesPageInput) (store : MessageStore)
      → IsPageOf g i (list_page (tenant g) i input store)
  unfolding list_page page_rows message_filter
  list_page-IsPageOf g i input store =
      let rows = select (message_filter store.updates (tenant g) i input.filters) store.messages in
      let offset = page_offset (clamp_limit input.limit) (clamp_page input.page) in
      All-with_updates (IsOwn security g i) (tenant g) store.updates
        (page_rows (tenant g) i input store)
        (All-take (IsOwn security g i) (clamp_limit input.limit)
          (drop offset (reverse (order_by rows)))
          (All-drop (IsOwn security g i) offset (reverse (order_by rows)) (
            All-reverse (IsOwn security g i) (order_by rows) (
              All-order_by (IsOwn security g i) rows (
                select-All (IsOwn security g i)
                  (message_filter store.updates (tenant g) i input.filters) store.messages
                  (λ m z. owned g i m (ground arith)))))))

  -- Tenant isolation of reads: every message that a read gives out, whichever it is and whatever its
  -- arguments, is of the tenant of the Grant and of the instance that was asked for.
  pub read_messages-IsOwn :
      (fault : Option Error) (g : Grant) (i : ℕ) (r : MessageRead) (store : MessageStore)
      (items : List MessageRow)
      → read_messages security fault g i r store ≡ ok items
      → All (IsOwn security g i) items
  unfolding read_messages
  read_messages-IsOwn fault g i (by_id id) store items h =
      one-All (IsOwn security g i) (find_by_id_for_instance security fault g i id store)
        (found-IsOwn (check_message_by_id security g) fault g i store (λ t. message_by_id t i id)
          (λ m k. owned g i m (ground arith)))
        items h
  read_messages-IsOwn fault g i (by_key_id key) store items h =
      one-All (IsOwn security g i) (find_by_key_id_for_instance security fault g i key store)
        (found-IsOwn (check_message_by_key security g) fault g i store (λ t. same_key t i key)
          (λ m k. owned g i m (ground arith)))
        items h
  read_messages-IsOwn fault g i (outgoing_by_id id) store items h =
      one-All (IsOwn security g i) (find_outgoing_by_id_for_instance security fault g i id store)
        (found-IsOwn (check g message_edit) fault g i store
          (λ t m. message_by_id t i id m && m.key_from_me) (λ m k. owned g i m (ground arith)))
        items h
  read_messages-IsOwn fault g i (outgoing_by_key_id key) store items h =
      one-All (IsOwn security g i)
        (find_outgoing_by_key_id_for_instance security fault g i key store)
        (found-IsOwn (check g message_edit) fault g i store
          (λ t m. same_key t i key m && m.key_from_me) (λ m k. owned g i m (ground arith)))
        items h
  read_messages-IsOwn fault g i (by_ids ids) store items h =
      opened (All (IsOwn security g i)) (check g message_read) g
        (λ t.
          if ids == []
          then ok []
          else unless fault (ok (order_by (select (among t i ids) store.messages))))
        (λ rows k.
          if_answered (IsOwn security g i) ids fault
            (order_by (select (among (tenant g) i ids) store.messages))
            (All-order_by (IsOwn security g i) (select (among (tenant g) i ids) store.messages) (
              select-All (IsOwn security g i) (among (tenant g) i ids) store.messages
                (λ m z. owned g i m (ground arith))))
            rows k)
        items h
  read_messages-IsOwn fault g i (listing input) store items h =
      listed-All (IsOwn security g i) (list security fault g i input store)
        (opened (IsPageOf g i) (check g message_list) g
          (λ t. unless fault (ok (list_messages t i input store)))
          (λ page k.
            answered (IsPageOf g i) fault (list_messages (tenant g) i input store) page
              (list_messages-IsPageOf g i input store) k))
        items h
  read_messages-IsOwn fault g i (paging input) store items h =
      listed-All (IsOwn security g i) (list_by_page security fault g i input store)
        (opened (IsPageOf g i) (check g message_list) g
          (λ t. unless fault (ok (list_page t i input store)))
          (λ page k.
            answered (IsPageOf g i) fault (list_page (tenant g) i input store) page
              (list_page-IsPageOf g i input store) k))
        items h
