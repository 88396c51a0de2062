-- ===== src/Database/Sql.antt =====
-- SELECT, UPDATE and DELETE over a list of rows, and what they leave alone.
use mathlib.Core.Option
use arandu_whatsapp.Prelude.{
  Bool, List, Option, [], arith, false, if◌then◌else◌, none, not, refl, some, true, ℕ, ◌++◌, ◌+◌,
  ◌∷◌, ◌≡◌,
}

module _ {ℓ} {A : Type ℓ} where
  -- SELECT ... WHERE p
  unfoldable pub select : (A → Bool) → List A → List A
  select p [] = []
  select p (r ∷ rows) = let rest = select p rows in if p r then r ∷ rest else rest

  -- The first row of a SELECT.
  unfoldable pub find : (A → Bool) → List A → Option A
  find p [] = none
  find p (r ∷ rows) = if p r then some r else find p rows

  -- UPDATE ... SET f WHERE p
  unfoldable pub update : (A → Bool) → (A → A) → List A → List A
  update p f [] = []
  update p f (r ∷ rows) = (if p r then f r else r) ∷ update p f rows

  -- RowsAffected() of a statement with WHERE p
  unfoldable pub affected : (A → Bool) → List A → ℕ
  affected p [] = 0
  affected p (r ∷ rows) = (if p r then 1 else 0) + affected p rows

  -- DELETE ... WHERE p
  abbrev pub delete_rows : (A → Bool) → List A → List A
  delete_rows p rows = select (λ r. not (p r)) rows

  -- A statement that affects no row changes none.
  pub update-none :
      (p : A → Bool) (f : A → A) (rows : List A) → affected p rows ≡ 0 → update p f rows ≡ rows
  unfolding update affected
  update-none p f [] h = refl
  update-none p f (r ∷ rows) h = ground (arith, update-none p f rows)

  pub delete_rows-none :
      (p : A → Bool) (rows : List A) → affected p rows ≡ 0 → delete_rows p rows ≡ rows
  unfolding select affected
  delete_rows-none p [] h = refl
  delete_rows-none p (r ∷ rows) h = ground (arith, delete_rows-none p rows)

  -- Rows apart from those that a statement may match are left as they are.
  pub select-update :
      (q p : A → Bool) (f : A → A) (rows : List A)
      → ((r : A) → p r ≡ true → (q r ≡ false) × (q (f r) ≡ false))
      → select q (update p f rows) ≡ select q rows
  unfolding select update
  select-update q p f [] h = refl
  select-update q p f (r ∷ rows) h = ground (arith, h r, select-update q p f rows h)

  pub select-delete_rows :
      (q p : A → Bool) (rows : List A)
      → ((r : A) → p r ≡ true → q r ≡ false)
      → select q (delete_rows p rows) ≡ select q rows
  unfolding select
  select-delete_rows q p [] h = refl
  select-delete_rows q p (r ∷ rows) h = ground (arith, h r, select-delete_rows q p rows h)

  pub select-append :
      (q : A → Bool) (xs ys : List A) → select q (xs ++ ys) ≡ select q xs ++ select q ys
  unfolding select
  select-append q [] ys = refl
  select-append q (r ∷ rows) ys = ground (arith, select-append q rows ys)

  pub find-some : (p : A → Bool) (rows : List A) (r : A) → find p rows ≡ some r → p r ≡ true
  unfolding find
  find-some p [] r h = cc
  find-some p (x ∷ rows) r h = ground (arith, find-some p rows r)

  -- A read after an UPDATE that keeps what the WHERE clause tests.
  pub find-update :
      (p : A → Bool) (f : A → A) (rows : List A)
      → ((r : A) → p (f r) ≡ p r)
      → find p (update p f rows) ≡ Option.map f (find p rows)
  unfolding find update
  find-update p f [] h = refl
  find-update p f (r ∷ rows) h = ground (arith, h r, find-update p f rows h)

  -- A read after an UPDATE, where the SET clauses keep what the read tests.
  pub find-update_some :
      (q p : A → Bool) (f : A → A) (rows : List A)
      → ((r : A) → q (f r) ≡ q r)
      → find q (update p f rows) ≡ Option.map (λ r. if p r then f r else r) (find q rows)
  unfolding find update
  find-update_some q p f [] h = refl
  find-update_some q p f (r ∷ rows) h = ground (arith, h r, find-update_some q p f rows h)

  -- An UPDATE that keeps what a WHERE clause tests keeps how many rows it affects.
  pub affected-update :
      (q p : A → Bool) (f : A → A) (rows : List A)
      → ((r : A) → q (f r) ≡ q r)
      → affected q (update p f rows) ≡ affected q rows
  unfolding affected update
  affected-update q p f [] h = refl
  affected-update q p f (r ∷ rows) h = ground (arith, h r, affected-update q p f rows h)

  -- A read after an INSERT of a row that is like no row of the table.
  pub find-insert :
      (q p : A → Bool) (rows : List A) (b : A)
      → ((r : A) → p r ≡ true → q r ≡ true)
      → find q rows ≡ none
      → p b ≡ true
      → find p (rows ++ b ∷ []) ≡ some b
  unfolding find
  find-insert q p [] b f u h = ground arith
  find-insert q p (r ∷ rows) b f u h =
      ground (arith, f r, find-insert q p rows b f (ground arith) h)
