-- ===== src/Messages/Order.antt =====
-- The order of internal/database/repository/message_repository.go, by creation and then by id: a
-- selection of sorted rows is sorted, and the rows after a row are the rest of the list.
use arandu_whatsapp.Database.Sql.{select}
use arandu_whatsapp.Messages.{MessageRow}
use arandu_whatsapp.Messages.Filter.{before, insert_ordered, order_by}
use arandu_whatsapp.Policy.{Action-eq}
use arandu_whatsapp.Prelude.{
  ==_iff, All, Bool, List, List-eq, Option-eq, String-eq, [], arith, false, if-elim, if◌then◌else◌,
  refl, true, ℕ-eq, ◌&&◌, ◌++◌, ◌==◌, ◌∷◌, ◌≡◌,
}

-- The primary key of whatsapp_messages: no two rows have the same id.
abbrev pub Apart : MessageRow → MessageRow → Type 0
Apart m y = (y.id == m.id) ≡ false

abbrev pub HasIds : List MessageRow → Type 0
HasIds [] = Unit
HasIds (m ∷ rows) = All (Apart m) rows × HasIds rows

abbrev pub IsBefore : MessageRow → MessageRow → Type 0
IsBefore x y = before x y ≡ true

abbrev pub IsSorted : List MessageRow → Type 0
IsSorted [] = Unit
IsSorted (x ∷ rows) = All (IsBefore x) rows × IsSorted rows

before_asym : (a b : MessageRow) → before a b ≡ true → before b a ≡ false
before_asym a b h = ground arith

before_irrefl : (a : MessageRow) → before a a ≡ false
before_irrefl a = ground arith

before_trans : (a b c : MessageRow) → before a b ≡ true → before b c ≡ true → before a c ≡ true
before_trans a b c h k = ground arith

before_total : (a b : MessageRow) → Apart a b → before b a ≡ false → before a b ≡ true
before_total a b h k = ground (arith, ==_iff a.id b.id)

module _ (P : MessageRow → Type 0) where
  pub All-select :
      (p : MessageRow → Bool) (rows : List MessageRow) → All P rows → All P (select p rows)
  unfolding select
  All-select p [] h = tt
  All-select p (m ∷ rows) h =
      if-elim (All P) (p m) (h.0, All-select p rows h.1) (All-select p rows h.1)

  pub All-insert_ordered :
      (m : MessageRow) (rows : List MessageRow) → P m → All P rows → All P (insert_ordered m rows)
  unfolding insert_ordered
  All-insert_ordered m [] g h = (g, tt)
  All-insert_ordered m (x ∷ rows) g h =
      if-elim (All P) (before x m) (h.0, All-insert_ordered m rows g h.1) (g, h)

  pub All-order_by : (rows : List MessageRow) → All P rows → All P (order_by rows)
  unfolding order_by
  All-order_by [] h = tt
  All-order_by (m ∷ rows) h = All-insert_ordered m (order_by rows) h.0 (All-order_by rows h.1)

All-map :
    (P Q : MessageRow → Type 0)
    → ((y : MessageRow) → P y → Q y)
    → (rows : List MessageRow) → All P rows
    → All Q rows
All-map P Q f [] h = tt
All-map P Q f (m ∷ rows) h = (f m h.0, All-map P Q f rows h.1)

insert_ordered-IsSorted :
    (m : MessageRow) (rows : List MessageRow)
    → All (Apart m) rows
    → IsSorted rows
    → IsSorted (insert_ordered m rows)
unfolding insert_ordered
insert_ordered-IsSorted m [] a s = (tt, tt)
insert_ordered-IsSorted m (x ∷ rows) a s =
    (elim (before x m)
        as (λ b.
          before x m ≡ b → IsSorted (if b then x ∷ insert_ordered m rows else m ∷ x ∷ rows)) [
            | true ↦ λ e. (
              All-insert_ordered (IsBefore x) m rows e s.0,
              insert_ordered-IsSorted m rows a.1 s.1,
            )
            | false ↦ λ e.
                let first = before_total m x a.0 e in
                (
                  (
                    first,
                    All-map (IsBefore x) (IsBefore m) (λ y h. before_trans m x y first h) rows s.0,
                  ),
                  s,
                )
          ])
      refl

pub order_by-IsSorted : (rows : List MessageRow) → HasIds rows → IsSorted (order_by rows)
unfolding order_by
order_by-IsSorted [] v = tt
order_by-IsSorted (m ∷ rows) v =
    insert_ordered-IsSorted m (order_by rows) (All-order_by (Apart m) rows v.0)
      (order_by-IsSorted rows v.1)

insert_ordered_least :
    (m : MessageRow) (rows : List MessageRow)
    → All (IsBefore m) rows
    → insert_ordered m rows ≡ m ∷ rows
unfolding insert_ordered
insert_ordered_least m [] h = refl
insert_ordered_least m (x ∷ rows) h = ground (arith, before_asym m x h.0)

select-insert_ordered :
    (p : MessageRow → Bool) (m : MessageRow) (rows : List MessageRow)
    → All (Apart m) rows
    → IsSorted rows
    → select p (insert_ordered m rows)
      ≡ (if p m then insert_ordered m (select p rows) else select p rows)
unfolding insert_ordered select
select-insert_ordered p m [] a s = ground arith
select-insert_ordered p m (x ∷ rows) a s =
    (elim (before x m)
        as (λ b.
          before x m ≡ b
          → select p (if b then x ∷ insert_ordered m rows else m ∷ x ∷ rows)
            ≡ (if p m then insert_ordered m (select p (x ∷ rows)) else select p (x ∷ rows))) [
              | true ↦ λ e. ground (arith, select-insert_ordered p m rows a.1 s.1)
              | false ↦ λ e. ground (
                arith,
                insert_ordered_least m (select p rows) (
                    All-select (IsBefore m) p rows (
                      All-map (IsBefore x) (IsBefore m)
                        (λ y h. before_trans m x y (before_total m x a.0 e) h) rows s.0)),
              )
            ])
      refl

-- A selection of the sorted rows is the selection, sorted.
pub order_by-select :
    (p : MessageRow → Bool) (rows : List MessageRow)
    → HasIds rows
    → order_by (select p rows) ≡ select p (order_by rows)
unfolding order_by select
order_by-select p [] v = refl
order_by-select p (m ∷ rows) v = ground (
  arith,
  order_by-select p rows v.1,
  select-insert_ordered p m (order_by rows) (All-order_by (Apart m) rows v.0)
      (order_by-IsSorted rows v.1),
)

select-All :
    (x : MessageRow) (rows : List MessageRow)
    → All (IsBefore x) rows
    → select (before x) rows ≡ rows
unfolding select
select-All x [] h = refl
select-All x (y ∷ rows) h = ground (arith, h.0, select-All x rows h.1)

pub All-last :
    (P : MessageRow → Type 0) (xs : List MessageRow) (c : MessageRow) (ys : List MessageRow)
    → All P (xs ++ c ∷ ys)
    → P c
All-last P [] c ys h = h.0
All-last P (x ∷ xs) c ys h = All-last P xs c ys h.1

-- The rows after a row of a sorted list are those that follow it in the list.
pub select-after :
    (xs : List MessageRow) (c : MessageRow) (ys : List MessageRow)
    → IsSorted (xs ++ c ∷ ys)
    → select (before c) (xs ++ c ∷ ys) ≡ ys
unfolding select
select-after [] c ys s = ground (arith, before_irrefl c, select-All c ys s.0)
select-after (x ∷ xs) c ys s =
    ground (arith, before_asym x c (All-last (IsBefore x) xs c ys s.0), select-after xs c ys s.1)

pub select-select :
    (p q : MessageRow → Bool) (rows : List MessageRow)
    → select (λ m. p m && q m) rows ≡ select q (select p rows)
unfolding select
select-select p q [] = refl
select-select p q (m ∷ rows) = ground (arith, select-select p q rows)

pub select-ext :
    (p q : MessageRow → Bool) (rows : List MessageRow)
    → ((m : MessageRow) → p m ≡ q m)
    → select p rows ≡ select q rows
unfolding select
select-ext p q [] h = refl
select-ext p q (m ∷ rows) h = ground (arith, h m, select-ext p q rows h)

pub HasIds-select :
    (p : MessageRow → Bool) (rows : List MessageRow) → HasIds rows → HasIds (select p rows)
unfolding select
HasIds-select p [] v = tt
HasIds-select p (m ∷ rows) v =
    if-elim HasIds (p m) (All-select (Apart m) p rows v.0, HasIds-select p rows v.1)
      (HasIds-select p rows v.1)
