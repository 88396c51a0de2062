-- ===== src/Messages/Pages.antt =====
-- The pages of ListPage in internal/database/repository/message_repository.go, one after the other.
use mathlib.Core.List.{reverse}
use arandu_whatsapp.Database.Sql.{select}
use arandu_whatsapp.Messages.{MessageRow, MessageStore}
use arandu_whatsapp.Messages.Filter.{message_filter, order_by}
use arandu_whatsapp.Messages.Listing.{
  ListMessagesPageInput, clamp_limit, clamp_page, page_offset, page_rows,
}
use arandu_whatsapp.Prelude.{
  List, String, [], ap, arith, drop, refl, suc, sym, take, zero, ℕ, ◌*◌, ◌++◌, ◌+◌, ◌-◌, ◌<◌, ◌∙◌,
  ◌∷◌, ◌≡◌, ◌≤◌,
}

take-nil : (k : ℕ) → ◌≡◌ {A = List MessageRow} (take k []) []
take-nil zero = refl
take-nil (suc k) = refl

take-add : (n k : ℕ) (l : List MessageRow) → take n l ++ take k (drop n l) ≡ take (n + k) l
take-add zero k l = let same : k ≡ 0 + k = omega arith in ap (λ x. take x l) same
take-add (suc n) k [] = take-nil k ∙ sym (take-nil (suc n + k))
take-add (suc n) k (x ∷ l) =
    let same : suc (n + k) ≡ suc n + k = omega arith in
    ap (◌∷◌ x) (take-add n k l) ∙ ap (λ y. take y (x ∷ l)) same

suc-times : (n k : ℕ) → n * k + k ≡ suc n * k
suc-times n k = omega arith

page_offset-small :
    (limit page : ℕ) → (page - 1) * limit < 2147483648 → page_offset limit page ≡ (page - 1) * limit
unfolding page_offset
page_offset-small limit page h = ground arith

clamp_limit_bounds : (limit : ℕ) → (0 < clamp_limit limit) × (clamp_limit limit ≤ 200)
unfolding clamp_limit
clamp_limit_bounds limit = (ground arith, ground arith)

module _ (t : String) (i : ℕ) (input : ListMessagesPageInput) (store : MessageStore) where
  -- The rows of the filters, newest first.
  abbrev pub newest_first : List MessageRow
  newest_first =
      reverse (order_by (select (message_filter store.updates t i input.filters) store.messages))

  -- What a client has that asks for the pages 1 to n.
  unfoldable pub first_pages : ℕ → List MessageRow
  unfolding page_rows
  first_pages zero = []
  first_pages (suc n) = first_pages n ++ page_rows t i (record input { page = suc n }) store

  -- The first pages of ListPage, one after the other, are the newest rows of the filters, each once and in
  -- order, as long as the pages end within the first 2 ^ 31 rows; the offset is a product of two int32.
  pub first_pages_lem :
      (n : ℕ)
      → n * clamp_limit input.limit ≤ 2147483648
      → first_pages n ≡ take (n * clamp_limit input.limit) newest_first
  unfolding first_pages page_rows
  first_pages_lem zero h =
      let none_yet : 0 ≡ 0 * clamp_limit input.limit = omega arith in
      ap (λ x. take x newest_first) none_yet
  first_pages_lem (suc n) h =
      let size = clamp_limit input.limit in
      let next = suc-times n size in
      let bounds = clamp_limit_bounds input.limit in
      let page : clamp_page (suc n) ≡ suc n = ground arith in
      let before_it : suc n - 1 ≡ n = omega arith in
      let offset : page_offset size (clamp_page (suc n)) ≡ n * size =
        ap (page_offset size) page
        ∙ page_offset-small size (suc n) (ground (arith, next, bounds, h))
        ∙ ap (λ x. x * size) before_it in
      ap (λ x. first_pages n ++ take size (drop x newest_first)) offset
      ∙ ap (λ rows. rows ++ take size (drop (n * size) newest_first))
          (first_pages_lem n (ground (arith, next, bounds, h)))
      ∙ take-add (n * size) size newest_first
      ∙ ap (λ x. take x newest_first) next
