-- ===== src/Messages/Marking.antt =====
-- When MarkReadForInstance of internal/database/repository/message_repository.go succeeds.
use arandu_whatsapp.Database.Sql.{affected, find, select}
use arandu_whatsapp.Errors.{message_not_found, ok, sentinel}
use arandu_whatsapp.Messages.{MessageRow, MessageStore, UpdateRow}
use arandu_whatsapp.Messages.Filter.{insert_ordered, order_by}
use arandu_whatsapp.Messages.Order.{Apart, HasIds}
use arandu_whatsapp.Messages.Store.{
  Backend, among, insert_update, mark_loop, mark_read, message_by_id, read_update, same_update,
}
use arandu_whatsapp.Policy.{Action-eq}
use arandu_whatsapp.Prelude.{
  ==_iff, ==_refl, All, Bool, List, List-eq, Option-eq, String, String-eq, [], any, arith, contains,
  false, if◌then◌else◌, is_some, length, none, not, refl, some, true, ℕ, ℕ-eq, ◌&&◌, ◌++◌, ◌+◌,
  ◌==◌, ◌||◌, ◌∷◌, ◌≡◌, ◌≤◌,
}

-- Whether the ids are distinct and each is that of a message of the instance.
abbrev pub are_readable : String → ℕ → List MessageRow → List ℕ → Bool
are_readable t i rows [] = true
are_readable t i rows (id ∷ ids) =
    not (contains ids id) && is_some (find (message_by_id t i id) rows) && are_readable t i rows ids

length-insert_ordered :
    (m : MessageRow) (rows : List MessageRow) → length (insert_ordered m rows) ≡ length rows + 1
unfolding insert_ordered
length-insert_ordered m [] = omega arith
length-insert_ordered m (x ∷ rows) = ground (arith, length-insert_ordered m rows)

length-order_by : (rows : List MessageRow) → length (order_by rows) ≡ length rows
unfolding order_by
length-order_by [] = refl
length-order_by (m ∷ rows) =
    omega (arith, length-insert_ordered m (order_by rows), length-order_by rows)

length-select :
    (p : MessageRow → Bool) (rows : List MessageRow) → length (select p rows) ≡ affected p rows
unfolding select affected
length-select p [] = refl
length-select p (m ∷ rows) = ground (arith, length-select p rows)

-- An id more matches its own row, unless it is among the others already.
affected-among :
    (t : String) (i id : ℕ) (ids : List ℕ) (rows : List MessageRow)
    → affected (among t i (id ∷ ids)) rows
      ≡ affected (among t i ids) rows
        + (if contains ids id then 0 else affected (message_by_id t i id) rows)
unfolding affected
affected-among t i id ids [] = ground arith
affected-among t i id ids (m ∷ rows) =
    ground (arith, affected-among t i id ids rows, ==_iff id m.id, ==_iff m.id id)

affected-no_ids : (t : String) (i : ℕ) (rows : List MessageRow) → affected (among t i []) rows ≡ 0
unfolding affected
affected-no_ids t i [] = refl
affected-no_ids t i (m ∷ rows) = ground (arith, affected-no_ids t i rows)

affected-Apart :
    (t : String) (i : ℕ) (m : MessageRow) (rows : List MessageRow)
    → All (Apart m) rows
    → affected (message_by_id t i m.id) rows ≡ 0
unfolding affected
affected-Apart t i m [] h = refl
affected-Apart t i m (x ∷ rows) h = ground (arith, h.0, affected-Apart t i m rows h.1)

-- Where the ids of the table are unique, an id matches one row or none.
affected-by_id :
    (t : String) (i id : ℕ) (rows : List MessageRow)
    → HasIds rows
    → affected (message_by_id t i id) rows
      ≡ (if is_some (find (message_by_id t i id) rows) then 1 else 0)
unfolding affected find
affected-by_id t i id [] v = refl
affected-by_id t i id (m ∷ rows) v =
    ground (arith, affected-by_id t i id rows v.1, affected-Apart t i m rows v.0, ==_iff m.id id)

affected-ids :
    (t : String) (i : ℕ) (ids : List ℕ) (rows : List MessageRow)
    → HasIds rows
    → (affected (among t i ids) rows ≤ length ids)
      × ((affected (among t i ids) rows == length ids) ≡ are_readable t i rows ids)
affected-ids t i [] rows v =
    (omega (arith, affected-no_ids t i rows), ground (arith, affected-no_ids t i rows))
affected-ids t i (id ∷ ids) rows v =
    let (le, eq) = affected-ids t i ids rows v in
    let more = affected-among t i id ids rows in
    let own = affected-by_id t i id rows v in
    (ground (arith, le, more, own), ground (arith, le, eq, more, own))

-- Whether a message has the update that MarkReadForInstance writes.
abbrev pub is_read : String → ℕ → ℕ → List UpdateRow → Bool
is_read t i id updates =
    any (λ u. u.tenant_id == t && u.instance_id == i && u.message_id == id && u.status == "read")
      updates

abbrev has_id : ℕ → List MessageRow → Bool
has_id id rows = any (λ m. m.id == id) rows

any-append :
    {A : Type 0} (p : A → Bool) (xs : List A) (a : A) → any p (xs ++ a ∷ []) ≡ (any p xs || p a)
any-append p [] a = ground arith
any-append p (x ∷ xs) a = ground (arith, any-append p xs a)

-- An update that is there already is one of the same message with the same status.
is_read-same :
    (b : Backend) (k : ℕ) (t : String) (i : ℕ) (m : MessageRow) (updates : List UpdateRow)
    → any (same_update (read_update b k t i m)) updates ≡ true
    → is_read t i m.id updates ≡ true
is_read-same b k t i m [] h = absurd (ground arith)
is_read-same b k t i m (u ∷ updates) h = ground (arith, is_read-same b k t i m updates)

is_read-insert :
    (b : Backend) (k : ℕ) (t : String) (i id : ℕ) (m : MessageRow) (updates : List UpdateRow)
    → is_read t i id (insert_update (read_update b k t i m) updates)
      ≡ (m.id == id || is_read t i id updates)
is_read-insert b k t i id m updates = ground (
  arith,
  any-append
      (λ u. u.tenant_id == t && u.instance_id == i && u.message_id == id && u.status == "read")
      updates (read_update b k t i m),
  is_read-same b k t i m updates,
  ==_refl t,
  ==_refl i,
  ==_refl (read_update b k t i m).status,
  ==_iff m.id id,
)

-- No statement fails, and newID returns ids.
abbrev pub IsWorking : Backend → Type 0
IsWorking b = (n : ℕ) → (b.fault n ≡ none) × (k : ℕ) × (b.new_id n ≡ ok k)

mark_loop_lem :
    (b : Backend) (n : ℕ) (t : String) (i : ℕ) (items : List MessageRow) (updates : List UpdateRow)
    → IsWorking b
    → (updates' : List UpdateRow) × (mark_loop b n t i items updates ≡ ok updates')
      × ((id : ℕ) → is_read t i id updates' ≡ (has_id id items || is_read t i id updates))
unfolding mark_loop
mark_loop_lem b n t i [] updates w = (updates, refl, λ id. refl)
mark_loop_lem b n t i (m ∷ items) updates w =
    let (f, k, e) = w n in
    let next = w (n + 1) in
    let (updates', h, r) =
      mark_loop_lem b (n + 1) t i items (insert_update (read_update b k t i m) updates) w in
    (
      updates',
      ground (arith, e, next.0, h),
      λ id. ground (arith, r id, is_read-insert b k t i id m updates),
    )

has_id-insert_ordered :
    (id : ℕ) (m : MessageRow) (rows : List MessageRow)
    → has_id id (insert_ordered m rows) ≡ (m.id == id || has_id id rows)
unfolding insert_ordered
has_id-insert_ordered id m [] = refl
has_id-insert_ordered id m (x ∷ rows) = ground (arith, has_id-insert_ordered id m rows)

has_id-order_by : (id : ℕ) (rows : List MessageRow) → has_id id (order_by rows) ≡ has_id id rows
unfolding order_by
has_id-order_by id [] = refl
has_id-order_by id (m ∷ rows) =
    ground (arith, has_id-insert_ordered id m (order_by rows), has_id-order_by id rows)

has_id-among :
    (t : String) (i id : ℕ) (ids : List ℕ) (rows : List MessageRow)
    → contains ids id ≡ true
    → is_some (find (message_by_id t i id) rows) ≡ true
    → has_id id (select (among t i ids) rows) ≡ true
unfolding select find
has_id-among t i id ids [] c h = absurd (ground arith)
has_id-among t i id ids (m ∷ rows) c h =
    ground (arith, c, has_id-among t i id ids rows c, ==_iff m.id id)

readable-found :
    (t : String) (i id : ℕ) (rows : List MessageRow) (ids : List ℕ)
    → are_readable t i rows ids ≡ true
    → contains ids id ≡ true
    → is_some (find (message_by_id t i id) rows) ≡ true
readable-found t i id rows [] h c = absurd (ground arith)
readable-found t i id rows (x ∷ ids) h c =
    ground (arith, readable-found t i id rows ids, ==_iff x id)

-- MarkReadForInstance, where no statement fails: it succeeds exactly if the ids are distinct and each is
-- that of a message of the instance; it then leaves every one of these messages read; otherwise it
-- returns ErrMessageNotFound and changes nothing. The ids of the table are unique.
pub mark_read_lem :
    (b : Backend) (t : String) (i : ℕ) (ids : List ℕ) (store : MessageStore)
    → HasIds store.messages
    → IsWorking b
    → ((mark_read b t i ids store).1
        ≡ (if are_readable t i store.messages ids then none else some (sentinel message_not_found)))
      × (are_readable t i store.messages ids ≡ false → (mark_read b t i ids store).0 ≡ store)
      × (are_readable t i store.messages ids ≡ true
          → (id : ℕ) → contains ids id ≡ true
          → is_read t i id (mark_read b t i ids store).0.updates ≡ true)
unfolding mark_read
mark_read_lem b t i [] store v w = (refl, λ h. refl, λ h id c. absurd (ground arith))
mark_read_lem b t i (x ∷ ids) store v w =
    let rows = select (among t i (x ∷ ids)) store.messages in
    let (le, eq) = affected-ids t i (x ∷ ids) store.messages v in
    let (updates', h, r) = mark_loop_lem b 0 t i (order_by rows) store.updates w in
    let first = (w 0).0 in
    let size = length-order_by rows in
    let count = length-select (among t i (x ∷ ids)) store.messages in
    (
      ground (arith, first, size, count, eq, h),
      λ k. ground (arith, first, size, count, eq, k),
      λ k id c. ground (
        arith,
        first,
        size,
        count,
        eq,
        h,
        k,
        r id,
        has_id-order_by id rows,
        has_id-among t i id (x ∷ ids) store.messages c
            (readable-found t i id store.messages (x ∷ ids) k c),
      ),
    )
