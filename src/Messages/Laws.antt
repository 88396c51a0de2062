-- ===== src/Messages/Laws.antt =====
-- What the writes of internal/database/repository/message_repository.go and of
-- message_update_repository.go keep: the rows of other tenants, and the unique key of a message.
use arandu_whatsapp.Database.{Db}
use arandu_whatsapp.Database.Sql.{find, select, select-update}
use arandu_whatsapp.Errors.{err, ok}
use arandu_whatsapp.Messages.{
  CreateMessageInput, CreateMessageUpdateInput, MessageRow, MessageStore, UpdateRow,
}
use arandu_whatsapp.Messages.Filter.{order_by}
use arandu_whatsapp.Messages.Store.{
  Backend, among, create_message, create_or_ignore, create_update, insert_update, mark_loop,
  mark_read, message_by_id, new_message, read_update, set_content, update_content,
}
use arandu_whatsapp.Policy.{Action-eq}
use arandu_whatsapp.Prelude.{
  ==_iff, Bool, List, List-eq, Option-eq, String, String-eq, [], arith, none, not, refl, some, ℕ,
  ℕ-eq, ◌&&◌, ◌++◌, ◌+◌, ◌==◌, ◌∷◌, ◌≡◌,
}
use arandu_whatsapp.Prelude.Text.{Text, Unicode}

-- The writes with their arguments, under the tenant of a Grant.
pub data MessageWrite : Type 0 where
  creating creating_or_ignoring : CreateMessageInput → MessageWrite
  updating_content : ℕ → ℕ → Text → MessageWrite
  marking_read : ℕ → List ℕ → MessageWrite
  creating_update : CreateMessageUpdateInput → Bool → MessageWrite

-- What a tenant can see: its messages and its updates.
abbrev pub foreign_messages : String → MessageStore → List MessageRow
foreign_messages t store = select (λ m. not (m.tenant_id == t)) store.messages

abbrev pub foreign_updates : String → MessageStore → List UpdateRow
foreign_updates t store = select (λ u. not (u.tenant_id == t)) store.updates

-- Two stores that agree on all rows of other tenants.
abbrev pub SameForeign : String → MessageStore → MessageStore → Type 0
SameForeign t a b =
    (foreign_messages t a ≡ foreign_messages t b) × (foreign_updates t a ≡ foreign_updates t b)

module _ (unicode : Unicode) (json_valid : Text → Bool) where
  unfoldable pub write_message : Backend → Db → String → MessageWrite → MessageStore → MessageStore
  unfolding create_message create_or_ignore update_content mark_read create_update
  write_message b db t (creating input) store =
      (create_message unicode json_valid b db t input store).0
  write_message b db t (creating_or_ignoring input) store =
      (create_or_ignore unicode json_valid b db t input store).0
  write_message b db t (updating_content i id content) store =
      (update_content unicode json_valid b t i id content store).0
  write_message b db t (marking_read i ids) store = (mark_read b t i ids store).0
  write_message b db t (creating_update input ignore) store =
      (create_update b t input ignore store).0

  foreign-insert :
      (t : String) (m : MessageRow) (rows : List MessageRow)
      → m.tenant_id ≡ t
      → select (λ x. not (x.tenant_id == t)) (rows ++ m ∷ [])
        ≡ select (λ x. not (x.tenant_id == t)) rows
  unfolding select
  foreign-insert t m [] h = ground (arith, ==_iff m.tenant_id t)
  foreign-insert t m (x ∷ rows) h = ground (arith, foreign-insert t m rows h)

  foreign-insert_update :
      (t : String) (u : UpdateRow) (rows : List UpdateRow)
      → u.tenant_id ≡ t
      → select (λ x. not (x.tenant_id == t)) (rows ++ u ∷ [])
        ≡ select (λ x. not (x.tenant_id == t)) rows
  unfolding select
  foreign-insert_update t u [] h = ground (arith, ==_iff u.tenant_id t)
  foreign-insert_update t u (x ∷ rows) h = ground (arith, foreign-insert_update t u rows h)

  mark_loop-foreign :
      (b : Backend) (n : ℕ) (t : String) (i : ℕ) (items : List MessageRow)
      (updates updates' : List UpdateRow)
      → mark_loop b n t i items updates ≡ ok updates'
      → select (λ x. not (x.tenant_id == t)) updates' ≡ select (λ x. not (x.tenant_id == t)) updates
  unfolding mark_loop
  mark_loop-foreign b n t i [] updates updates' h = ground arith
  mark_loop-foreign b n t i (m ∷ items) updates updates' h =
      (elim (b.new_id n)
          as (λ r.
            b.new_id n ≡ r
            → select (λ x. not (x.tenant_id == t)) updates'
              ≡ select (λ x. not (x.tenant_id == t)) updates) [
                | err e ↦ λ q. ground arith
                | ok id ↦ λ q. ground (
                  arith,
                  mark_loop-foreign b (n + 1) t i items
                      (insert_update (read_update b id t i m) updates) updates',
                  foreign-insert_update t (read_update b id t i m) updates refl,
                )
              ])
        refl

  -- Tenant isolation: whatever is written for a tenant, with any arguments and whether it succeeds or
  -- fails, every message of every other tenant and every update of its messages stays as it was.
  pub write_message-foreign :
      (b : Backend) (db : Db) (t : String) (w : MessageWrite) (store : MessageStore)
      → SameForeign t (write_message b db t w store) store
  unfolding write_message
  write_message-foreign b db t (creating input) store =
      (elim (b.new_id 0)
          as (λ r.
            b.new_id 0 ≡ r → SameForeign t (write_message b db t (creating input) store) store) [
              | err e ↦ λ q. (ground arith, ground arith)
              | ok id ↦ λ q. (
                ground (
                  arith,
                  foreign-insert t (new_message unicode json_valid b.now id t input) store.messages
                      refl,
                ),
                ground arith,
              )
            ])
        refl
  write_message-foreign b db t (creating_or_ignoring input) store =
      (elim (b.new_id 0)
          as (λ r.
            b.new_id 0 ≡ r
            → SameForeign t (write_message b db t (creating_or_ignoring input) store) store) [
              | err e ↦ λ q. (ground arith, ground arith)
              | ok id ↦ λ q. (
                ground (
                  arith,
                  foreign-insert t (new_message unicode json_valid b.now id t input) store.messages
                      refl,
                ),
                ground arith,
              )
            ])
        refl
  write_message-foreign b db t (updating_content i id content) store = (
    ground (
      arith,
      select-update (λ m. not (m.tenant_id == t)) (message_by_id t i id)
          (set_content unicode json_valid content) store.messages (λ r h. ground arith),
    ),
    ground arith,
  )
  write_message-foreign b db t (marking_read i []) store = (refl, refl)
  write_message-foreign b db t (marking_read i (id ∷ ids)) store =
      (elim (mark_loop b 0 t i (order_by (select (among t i (id ∷ ids)) store.messages))
            store.updates)
          as (λ r.
            mark_loop b 0 t i (order_by (select (among t i (id ∷ ids)) store.messages))
                store.updates
              ≡ r
            → SameForeign t (write_message b db t (marking_read i (id ∷ ids)) store) store) [
              | err e ↦ λ q. (ground arith, ground arith)
              | ok updates ↦ λ q. (
                ground arith,
                ground (
                  arith,
                  mark_loop-foreign b 0 t i
                      (order_by (select (among t i (id ∷ ids)) store.messages)) store.updates
                      updates q,
                ),
              )
            ])
        refl
  write_message-foreign b db t (creating_update input ignore) store =
      (elim (find (λ m. m.tenant_id == t && m.id == input.message_id) store.messages)
          as (λ o.
            find (λ m. m.tenant_id == t && m.id == input.message_id) store.messages ≡ o
            → SameForeign t (write_message b db t (creating_update input ignore) store) store) [
              | none ↦ λ q. (ground arith, ground arith)
              | some m ↦ λ q.
                  (elim (b.new_id 0)
                      as (λ r.
                        b.new_id 0 ≡ r
                        → SameForeign t (write_message b db t (creating_update input ignore) store)
                            store) [
                              | err e ↦ λ z. (ground arith, ground arith)
                              | ok id ↦ λ z. (
                                ground arith,
                                ground (
                                  arith,
                                  foreign-insert_update t
                                      (record {
                                        id = id;
                                        tenant_id = t;
                                        instance_id = m.instance_id;
                                        message_id = input.message_id;
                                        date_time = input.date_time;
                                        status = input.status;
                                      })
                                      store.updates refl,
                                ),
                              )
                            ])
                    refl
            ])
        refl
