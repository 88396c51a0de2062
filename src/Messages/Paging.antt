-- ===== src/Messages/Paging.antt =====
-- Following the cursor of List in internal/database/repository/message_repository.go from page to page.
use mathlib.Core.Bool.{false≢true}
use mathlib.Core.List.{append_assoc}
use arandu_whatsapp.Database.Sql.{find, select}
use arandu_whatsapp.Messages.{MessageFilters, MessageRow, MessageStore}
use arandu_whatsapp.Messages.Filter.{before, message_at, message_filter, order_by}
use arandu_whatsapp.Messages.Listing.{
  ListMessagesInput, clamp_limit, cursor_filter, list_rows, next, wanted,
}
use arandu_whatsapp.Messages.Order.{
  All-last, All-order_by, Apart, HasIds, HasIds-select, IsSorted, order_by-IsSorted,
  order_by-select, select-after, select-ext, select-select,
}
use arandu_whatsapp.Messages.Store.{message_by_id}
use arandu_whatsapp.Policy.{Action-eq}
use arandu_whatsapp.Prelude.{
  ==_iff, ==_refl, All, Bool, List, List-eq, Option, Option-eq, String, String-eq, [], ap, arith,
  drop, false, if◌then◌else◌, length, none, refl, some, subst, suc, sym, take, true, zero, ℕ, ℕ-eq,
  ◌&&◌, ◌++◌, ◌-◌, ◌<◌, ◌∙◌, ◌∷◌, ◌≡◌,
}

abbrev pub last_row : List MessageRow → Option MessageRow
last_row [] = none
last_row (m ∷ []) = some m
last_row (m ∷ x ∷ rows) = last_row (x ∷ rows)

-- A client that asks for page after page, each with the id of the last row of the page before, until a
-- page is empty; the fuel is the number of requests that it makes at most.
unfoldable pub follow : ℕ → String → ℕ → ListMessagesInput → MessageStore → List MessageRow
unfolding list_rows
follow zero t i input store = []
follow (suc fuel) t i input store =
    let page = list_rows t i input store in
    elim (last_row page) [
      | none ↦ []
      | some m ↦ page ++ follow fuel t i (record input { cursor = some m.id }) store
    ]

-- The row is the one that the subquery of a cursor with its id finds.
abbrev IsFound : String → ℕ → List MessageRow → MessageRow → Type 0
IsFound t i rows m = find (message_by_id t i m.id) rows ≡ some m

FoundIf : String → ℕ → List MessageRow → MessageRow → Type 0
FoundIf t i rows m = message_at t i m ≡ true → IsFound t i rows m

found_tail :
    (t : String) (i : ℕ) (x : MessageRow) (rows ys : List MessageRow)
    → All (Apart x) ys
    → All (FoundIf t i rows) ys
    → All (FoundIf t i (x ∷ rows)) ys
unfolding find FoundIf
found_tail t i x rows [] a h = tt
found_tail t i x rows (y ∷ ys) a h = (
  λ k. ground (arith, a.0, h.0 k, ==_iff x.id y.id, ==_iff y.id x.id),
  found_tail t i x rows ys a.1 h.1,
)

found-All :
    (t : String) (i : ℕ) (rows : List MessageRow) → HasIds rows → All (FoundIf t i rows) rows
unfolding find FoundIf
found-All t i [] v = tt
found-All t i (x ∷ rows) v =
    (λ k. ground (arith, ==_refl x.id), found_tail t i x rows rows v.0 (found-All t i rows v.1))

select-IsFound :
    (t : String) (i : ℕ) (p : MessageRow → Bool) (rows all_rows : List MessageRow)
    → ((m : MessageRow) → p m ≡ true → message_at t i m ≡ true)
    → All (FoundIf t i all_rows) rows
    → All (IsFound t i all_rows) (select p rows)
unfolding select FoundIf
select-IsFound t i p [] all_rows f h = tt
select-IsFound t i p (m ∷ rows) all_rows f h =
    (elim (p m)
        as (λ b.
          p m ≡ b → All (IsFound t i all_rows) (if b then m ∷ select p rows else select p rows)) [
            | true ↦ λ e. (h.0 (f m e), select-IsFound t i p rows all_rows f h.1)
            | false ↦ λ e. select-IsFound t i p rows all_rows f h.1
          ])
      refl

-- A page that has a last row ends with it.
split_last :
    (l : List MessageRow) (c : MessageRow)
    → last_row l ≡ some c
    → (init : List MessageRow) × (l ≡ init ++ c ∷ [])
split_last [] c h = absurd (ground arith)
split_last (m ∷ []) c h = ([], ground arith)
split_last (m ∷ x ∷ rows) c h =
    let (init, e) = split_last (x ∷ rows) c h in (m ∷ init, ap (◌∷◌ m) e)

append_one :
    (xs : List MessageRow) (c : MessageRow) (ys : List MessageRow)
    → (xs ++ c ∷ []) ++ ys ≡ xs ++ c ∷ ys
append_one [] c ys = refl
append_one (x ∷ xs) c ys = ap (◌∷◌ x) (append_one xs c ys)

take-drop : (n : ℕ) (l : List MessageRow) → take n l ++ drop n l ≡ l
take-drop zero l = refl
take-drop (suc n) [] = refl
take-drop (suc n) (x ∷ l) = ap (◌∷◌ x) (take-drop n l)

length-drop : (n : ℕ) (l : List MessageRow) → length (drop n l) ≡ length l - n
length-drop zero l = omega arith
length-drop (suc n) [] = omega arith
length-drop (suc n) (x ∷ l) = omega (arith, length-drop n l)

last_row-none : (l : List MessageRow) → last_row l ≡ none → l ≡ []
last_row-none [] h = refl
last_row-none (m ∷ []) h = absurd (ground arith)
last_row-none (m ∷ x ∷ rows) h = absurd (false≢true (ground (arith, last_row-none (x ∷ rows) h)))

take-none : (n : ℕ) (l : List MessageRow) → 0 < n → take n l ≡ [] → l ≡ []
take-none zero l h e = absurd (omega arith)
take-none (suc n) [] h e = refl
take-none (suc n) (x ∷ l) h e = absurd (ground arith)

take-some :
    (n : ℕ) (ys : List MessageRow) (c : MessageRow) → last_row (take n ys) ≡ some c → 0 < length ys
take-some zero ys c h = absurd (ground arith)
take-some (suc n) [] c h = absurd (ground arith)
take-some (suc n) (y ∷ ys) c h = omega arith

clamp_limit_pos : (limit : ℕ) → 0 < clamp_limit limit
unfolding clamp_limit
clamp_limit_pos limit = ground arith

module _ (t : String) (i : ℕ) (store : MessageStore) (ids : HasIds store.messages) where
  -- The rows of the filters, in their order.
  abbrev pub filtered : MessageFilters → List MessageRow
  filtered f = order_by (select (message_filter store.updates t i f) store.messages)

  filtered-IsFound : (f : MessageFilters) → All (IsFound t i store.messages) (filtered f)
  unfolding message_filter
  filtered-IsFound f =
      All-order_by (IsFound t i store.messages)
        (select (message_filter store.updates t i f) store.messages)
        (select-IsFound t i (message_filter store.updates t i f) store.messages store.messages
          (λ m h. ground arith) (found-All t i store.messages ids))

  filtered-IsSorted : (f : MessageFilters) → IsSorted (filtered f)
  filtered-IsSorted f =
      order_by-IsSorted (select (message_filter store.updates t i f) store.messages)
        (HasIds-select (message_filter store.updates t i f) store.messages ids)

  wanted_after :
      (input : ListMessagesInput) (c m : MessageRow)
      → input.direction ≡ next
      → input.cursor ≡ some c.id
      → IsFound t i store.messages c
      → wanted t i input store m ≡ (message_filter store.updates t i input.filters m && before c m)
  unfolding wanted cursor_filter
  wanted_after input c m d k f = ground (arith, f, ==_iff c.created_at m.created_at)

  -- The page after a row of the filtered rows.
  page_after :
      (input : ListMessagesInput) (xs : List MessageRow) (c : MessageRow) (ys : List MessageRow)
      → input.direction ≡ next
      → input.cursor ≡ some c.id
      → filtered input.filters ≡ xs ++ c ∷ ys
      → list_rows t i input store ≡ take (clamp_limit input.limit) ys
  unfolding list_rows
  page_after input xs c ys d k e =
      let F = message_filter store.updates t i input.filters in
      let found =
        All-last (IsFound t i store.messages) xs c ys
          (subst (All (IsFound t i store.messages)) e (filtered-IsFound input.filters)) in
      let sorted = subst IsSorted e (filtered-IsSorted input.filters) in
      let rest : order_by (select (wanted t i input store) store.messages) ≡ ys =
        ap order_by (
          select-ext (wanted t i input store) (λ m. F m && before c m) store.messages
            (λ m. wanted_after input c m d k found)
          ∙ select-select F (before c) store.messages)
        ∙ order_by-select (before c) (select F store.messages) (HasIds-select F store.messages ids)
        ∙ ap (select (before c)) e
        ∙ select-after xs c ys sorted in
      ground (arith, d, rest)

  -- The first page.
  first_page :
      (input : ListMessagesInput)
      → input.direction ≡ next
      → input.cursor ≡ none
      → list_rows t i input store ≡ take (clamp_limit input.limit) (filtered input.filters)
  unfolding list_rows wanted cursor_filter
  first_page input d k =
      let same = ap order_by (
        select-ext (wanted t i input store) (message_filter store.updates t i input.filters)
          store.messages (λ m. ground arith)) in
      ground (arith, d, same)

  follow_from :
      (fuel : ℕ) (input : ListMessagesInput) (pre ys : List MessageRow)
      → input.direction ≡ next
      → list_rows t i input store ≡ take (clamp_limit input.limit) ys
      → filtered input.filters ≡ pre ++ ys
      → length ys < fuel
      → follow fuel t i input store ≡ ys
  unfolding follow
  follow_from zero input pre ys d k e h = absurd (omega arith)
  follow_from (suc fuel) input pre ys d k e h =
      let n = clamp_limit input.limit in
      (elim (last_row (take n ys))
          as (λ o. last_row (take n ys) ≡ o → follow (suc fuel) t i input store ≡ ys) [
            | none ↦ λ q. ground (
              arith,
              k,
              take-none n ys (clamp_limit_pos input.limit) (last_row-none (take n ys) q),
            )
            | some c ↦ λ q.
                let (init, w) = split_last (take n ys) c q in
                let split : ys ≡ init ++ c ∷ drop n ys =
                  sym (take-drop n ys)
                  ∙ ap (λ l. l ++ drop n ys) w
                  ∙ append_one init c (drop n ys) in
                let whole : filtered input.filters ≡ (pre ++ init) ++ c ∷ drop n ys =
                  e ∙ ap (◌++◌ pre) split ∙ sym (append_assoc pre init (c ∷ drop n ys)) in
                let again : ListMessagesInput = record input { cursor = some c.id } in
                let tail =
                  follow_from fuel again (pre ++ init ++ c ∷ []) (drop n ys) d
                    (page_after again (pre ++ init) c (drop n ys) d refl whole)
                    (whole ∙ sym (append_one (pre ++ init) c (drop n ys)))
                    (omega
                      (arith, length-drop n ys, clamp_limit_pos input.limit, take-some n ys c q)) in
                ground (arith, k, q, tail, take-drop n ys)
          ])
        refl

  -- Completeness of paging: a client that follows the cursor from the first page on, with any limit and
  -- filters, gets every row of the filters exactly once and in order, and then an empty page, within one
  -- request more than there are rows.
  pub follow_all :
      (fuel : ℕ) (input : ListMessagesInput)
      → input.direction ≡ next
      → input.cursor ≡ none
      → length (filtered input.filters) < fuel
      → follow fuel t i input store ≡ filtered input.filters
  follow_all fuel input d k h =
      follow_from fuel input [] (filtered input.filters) d (first_page input d k) refl h
