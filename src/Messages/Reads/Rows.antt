-- ===== src/Messages/Reads/Rows.antt =====
-- The rows that the reads of internal/database/repository/message_repository.go select.
use mathlib.Core.List.{reverse}
use arandu_whatsapp.Database.Sql.{find, find-some, select}
use arandu_whatsapp.Errors.{Error, Result, err, ok, unless, ◌>>=◌}
use arandu_whatsapp.Messages.{MessageRow, MessageStore, UpdateRow}
use arandu_whatsapp.Messages.Listing.{MessagePage, with_updates}
use arandu_whatsapp.Messages.Store.{find_message}
use arandu_whatsapp.Policy.{Action-eq}
use arandu_whatsapp.Prelude.{
  All, All-reverse_aux, Bool, List, List-eq, Option, Option-eq, String, String-eq, [], arith, drop,
  false, if◌then◌else◌, list_eq, map, none, refl, some, subst, suc, take, true, zero, ℕ, ℕ-eq, ◌==◌,
  ◌∷◌, ◌≡◌,
}

pub ok-inj : {A : Type 0} → (a b : A) → ok a ≡ ok b → a ≡ b
ok-inj a b h = cc

pub answered :
    {A : Type 0} (P : A → Type 0) (fault : Option Error) (a x : A)
    → P a
    → unless fault (ok a) ≡ ok x
    → P x
answered P (some e) a x p h = absurd (ground arith)
answered P none a x p h = subst P (ok-inj a x h) p

pub find_message-eq_ok :
    (fault : Option Error) (p : MessageRow → Bool) (store : MessageStore) (m : MessageRow)
    → find_message fault p store ≡ ok m
    → p m ≡ true
unfolding find_message
find_message-eq_ok (some e) p store m h = absurd (ground arith)
find_message-eq_ok none p store m h =
    (elim (find p store.messages) as (λ o. find p store.messages ≡ o → p m ≡ true) [
      | none ↦ λ q. absurd (ground arith)
      | some x ↦ λ q. find-some p store.messages m (ground arith)
    ])
      refl

module _ (P : MessageRow → Type 0) where
  pub select-All :
      (p : MessageRow → Bool) (rows : List MessageRow)
      → ((m : MessageRow) → p m ≡ true → P m)
      → All P (select p rows)
  unfolding select
  select-All p [] f = tt
  select-All p (m ∷ rows) f =
      (elim (p m) as (λ b. p m ≡ b → All P (if b then m ∷ select p rows else select p rows)) [
        | true ↦ λ e. (f m e, select-All p rows f)
        | false ↦ λ e. select-All p rows f
      ])
        refl

  pub All-take : (n : ℕ) (rows : List MessageRow) → All P rows → All P (take n rows)
  All-take zero rows h = tt
  All-take (suc n) [] h = tt
  All-take (suc n) (m ∷ rows) h = (h.0, All-take n rows h.1)

  pub All-drop : (n : ℕ) (rows : List MessageRow) → All P rows → All P (drop n rows)
  All-drop zero rows h = h
  All-drop (suc n) [] h = tt
  All-drop (suc n) (m ∷ rows) h = All-drop n rows h.1

  pub All-with_updates :
      (t : String) (updates : List UpdateRow) (rows : List MessageRow)
      → All P rows
      → All P (map (λ x. x.0) (with_updates t updates rows))
  All-with_updates t updates [] h = tt
  All-with_updates t updates (m ∷ rows) h = (h.0, All-with_updates t updates rows h.1)

  pub if_answered :
      (ids : List ℕ) (fault : Option Error) (rows : List MessageRow)
      → All P rows
      → (items : List MessageRow) → (if ids == [] then ok [] else unless fault (ok rows)) ≡ ok items
      → All P items
  unfolding list_eq
  if_answered [] fault rows h items k = subst (All P) (ok-inj [] items k) tt
  if_answered (x ∷ ids) fault rows h items k = answered (All P) fault rows items h k

  pub one-All :
      (r : Result MessageRow)
      → ((m : MessageRow) → r ≡ ok m → P m)
      → (items : List MessageRow) → (do m ← r; ok (m ∷ [])) ≡ ok items
      → All P items
  one-All (ok m) f items h = subst (All P) (ok-inj (m ∷ []) items h) (f m refl, tt)
  one-All (err e) f items h = absurd (ground arith)

  pub listed-All :
      (r : Result MessagePage)
      → ((page : MessagePage) → r ≡ ok page → All P (map (λ x. x.0) page.records))
      → (items : List MessageRow) → (do page ← r; ok (map (λ x. x.0) page.records)) ≡ ok items
      → All P items
  listed-All (ok page) f items h =
      subst (All P) (ok-inj (map (λ x. x.0) page.records) items h) (f page refl)
  listed-All (err e) f items h = absurd (ground arith)

  pub All-reverse : (rows : List MessageRow) → All P rows → All P (reverse rows)
  All-reverse rows h = All-reverse_aux P rows [] h tt
