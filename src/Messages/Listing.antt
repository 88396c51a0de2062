-- ===== src/Messages/Listing.antt =====
-- List and ListPage of internal/database/repository/message_repository.go.
use Prim.Native.Nat.{◌%◌, ◌/◌}
use mathlib.Core.List.{reverse}
use arandu_whatsapp.Database.Sql.{affected, find, select}
use arandu_whatsapp.Messages.{MessageFilters, MessageRow, MessageStore, UpdateRow}
use arandu_whatsapp.Messages.Filter.{message_filter, order_by}
use arandu_whatsapp.Messages.Store.{message_by_id}
use arandu_whatsapp.Policy.{Action-eq}
use arandu_whatsapp.Prelude.{
  Bool, List, List-eq, Option, Option-eq, String, String-eq, [], drop, false, if◌then◌else◌, ltb,
  none, some, suc, take, true, zero, ℕ, ℕ-eq, ◌&&◌, ◌*◌, ◌+◌, ◌-◌, ◌==◌, ◌||◌, ◌∷◌,
}

-- types.CursorDirection; any string but "previous" reads as "next".
pub data CursorDirection : Type 0 where
  next previous : CursorDirection

-- types.ListMessagesInput; a limit that is not positive is 0.
pub record ListMessagesInput : Type 0 where
  pub limit : ℕ
  pub cursor : Option ℕ
  pub direction : CursorDirection
  pub filters : MessageFilters

-- types.ListMessagesPageInput, with the same reading of a limit and a page.
pub record ListMessagesPageInput : Type 0 where
  pub limit : ℕ
  pub page : ℕ
  pub filters : MessageFilters

-- types.MessagePage, whose records carry the summaries of their updates.
pub record MessagePage : Type 0 where
  pub total : ℕ
  pub pages : ℕ
  pub current_page : ℕ
  pub records : List (MessageRow × List UpdateRow)

-- if limit <= 0 { limit = 50 }; if limit > 200 { limit = 200 }
unfoldable pub clamp_limit : ℕ → ℕ
clamp_limit limit = if limit == 0 then 50 else if ltb 200 limit then 200 else limit

abbrev pub clamp_page : ℕ → ℕ
clamp_page page = if page == 0 then 1 else page

-- The row of the subquery of the cursor: its created_at is compared, and NULL compares false.
abbrev pub after_cursor : Option MessageRow → ℕ → MessageRow → Bool
after_cursor none id m = false
after_cursor (some c) id m =
    ltb c.created_at m.created_at || m.created_at == c.created_at && ltb id m.id

abbrev pub before_cursor : Option MessageRow → ℕ → MessageRow → Bool
before_cursor none id m = false
before_cursor (some c) id m =
    ltb m.created_at c.created_at || m.created_at == c.created_at && ltb m.id id

abbrev pub cursor_row : String → ℕ → ℕ → List MessageRow → Option MessageRow
cursor_row t i id rows = find (message_by_id t i id) rows

-- The WHERE clause of the cursor.
unfoldable pub cursor_filter :
    String → ℕ → CursorDirection → Option ℕ → List MessageRow → MessageRow → Bool
cursor_filter t i direction none rows m = true
cursor_filter t i next (some id) rows m = after_cursor (cursor_row t i id rows) id m
cursor_filter t i previous (some id) rows m = before_cursor (cursor_row t i id rows) id m

-- updateSummaries: the updates of a message; ORDER BY date_time, id is not modelled.
abbrev pub updates_of : String → List UpdateRow → MessageRow → List UpdateRow
updates_of t updates m =
    select (λ u. u.tenant_id == t && u.instance_id == m.instance_id && u.message_id == m.id) updates

abbrev pub with_updates :
    String → List UpdateRow → List MessageRow → List (MessageRow × List UpdateRow)
with_updates t updates [] = []
with_updates t updates (m ∷ rows) = (m, updates_of t updates m) ∷ with_updates t updates rows

-- math.Ceil(float64(total) / float64(limit)), exact below 2 ^ 53; the limit is never 0.
unfoldable pub page_count : ℕ → ℕ → ℕ
page_count total zero = 0
page_count total (suc limit) = (total + limit) / suc limit

-- The WHERE clause of List.
unfoldable pub wanted : String → ℕ → ListMessagesInput → MessageStore → MessageRow → Bool
unfolding cursor_filter message_filter
wanted t i input store m =
    message_filter store.updates t i input.filters m
    && cursor_filter t i input.direction input.cursor store.messages m

-- The rows of List, oldest first in both directions.
unfoldable pub list_rows : String → ℕ → ListMessagesInput → MessageStore → List MessageRow
unfolding order_by wanted clamp_limit
list_rows t i input store =
    let sorted = order_by (select (wanted t i input store) store.messages) in
    elim input.direction [
      | next ↦ take (clamp_limit input.limit) sorted
      | previous ↦ reverse (take (clamp_limit input.limit) (reverse sorted))
    ]

abbrev pub count_rows : String → ℕ → MessageFilters → MessageStore → ℕ
count_rows t i filters store = affected (message_filter store.updates t i filters) store.messages

-- The body of List, where no statement fails.
unfoldable pub list_messages : String → ℕ → ListMessagesInput → MessageStore → MessagePage
unfolding list_rows page_count clamp_limit
list_messages t i input store = record {
  total = count_rows t i input.filters store;
  pages = page_count (count_rows t i input.filters store) (clamp_limit input.limit);
  current_page = 1;
  records = with_updates t store.updates (list_rows t i input store);
}

-- `(page-1)*limit`, a product of two int32, which wraps around. A negative OFFSET that the database does
-- not refuse reads as 0.
unfoldable pub page_offset : ℕ → ℕ → ℕ
page_offset limit page =
    let offset = (page - 1) * limit % 4294967296 in if ltb offset 2147483648 then offset else 0

-- The rows of ListPage: ORDER BY created_at DESC, id DESC LIMIT limit OFFSET (page - 1) * limit
unfoldable pub page_rows : String → ℕ → ListMessagesPageInput → MessageStore → List MessageRow
unfolding order_by message_filter clamp_limit page_offset
page_rows t i input store = take (clamp_limit input.limit) (
    drop (page_offset (clamp_limit input.limit) (clamp_page input.page))
      (reverse (order_by (select (message_filter store.updates t i input.filters) store.messages))))

-- The body of ListPage, where no statement fails.
unfoldable pub list_page : String → ℕ → ListMessagesPageInput → MessageStore → MessagePage
unfolding page_rows page_count clamp_limit
list_page t i input store = record {
  total = count_rows t i input.filters store;
  pages = page_count (count_rows t i input.filters store) (clamp_limit input.limit);
  current_page = clamp_page input.page;
  records = with_updates t store.updates (page_rows t i input store);
}
