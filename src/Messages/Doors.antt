-- ===== src/Messages/Doors.antt =====
-- The exported writes of internal/database/repository/message_repository.go and
-- message_update_repository.go: each checks its Grant, takes the tenant from it, and runs its body.
use arandu_whatsapp.Authz.Checks.{
  check_message_content_update, check_message_create, refusal, tenant_from_grant,
}
use arandu_whatsapp.Authz.Security.{Security, message_read, message_send, runtime, writes}
use arandu_whatsapp.Database.{Db}
use arandu_whatsapp.Database.Sql.{affected, affected-update}
use arandu_whatsapp.Errors.{Error, Result, err, ok}
use arandu_whatsapp.Messages.{MessageRow, MessageStore}
use arandu_whatsapp.Messages.Laws.{
  MessageWrite, SameForeign, creating, creating_or_ignoring, creating_update, marking_read,
  updating_content, write_message, write_message-foreign,
}
use arandu_whatsapp.Messages.Store.{
  Backend, insert_message, message_by_id, new_message, same_key, set_content,
}
use arandu_whatsapp.Policy.{Action-eq}
use arandu_whatsapp.Prelude.{
  ==_iff, Bool, List, List-eq, Option, Option-eq, String, String-eq, [], arith, false,
  if◌then◌else◌, none, refl, some, subst, sym, true, ℕ, ℕ-eq, ◌++◌, ◌+◌, ◌∷◌, ◌≡◌, ◌≤◌,
}
use arandu_whatsapp.Prelude.Text.{Text, Unicode}

-- The unique index on the key of a message.
abbrev pub HasUniqueKeys : MessageStore → Type 0
HasUniqueKeys store =
    (t : String) (i : ℕ) (key : Text) → affected (same_key t i key) store.messages ≤ 1

-- How each operation opens: its check, the tenant of the Grant, and then the body.
unfoldable pub guarded :
    Option Error → Result String → (String → MessageStore) → MessageStore → MessageStore
guarded (some e) t body store = store
guarded none (err e) body store = store
guarded none (ok t) body store = body t

guarded-keeps :
    (P : MessageStore → Type 0) (refused : Option Error) (t : Result String)
    (body : String → MessageStore) (store : MessageStore)
    → P store
    → ((u : String) → refused ≡ none → t ≡ ok u → P (body u))
    → P (guarded refused t body store)
unfolding guarded
guarded-keeps P (some e) t body store p h = p
guarded-keeps P none (err e) body store p h = p
guarded-keeps P none (ok t) body store p h = h t refl refl

affected-append_one :
    (p : MessageRow → Bool) (rows : List MessageRow) (m : MessageRow)
    → affected p (rows ++ m ∷ []) ≡ affected p rows + (if p m then 1 else 0)
unfolding affected
affected-append_one p [] m = omega arith
affected-append_one p (x ∷ rows) m = omega (arith, affected-append_one p rows m)

module _ (unicode : Unicode) (json_valid : Text → Bool) where
  insert-HasUniqueKeys :
      (m : MessageRow) (store : MessageStore)
      → HasUniqueKeys store
      → (t : String) (i : ℕ) (key : Text)
      → affected (same_key m.tenant_id m.instance_id m.key_id) store.messages ≡ 0
      → affected (same_key t i key) (insert_message unicode json_valid m store).messages ≤ 1
  insert-HasUniqueKeys m store v t i key h = ground (
    arith,
    v t i key,
    affected-append_one (same_key t i key) store.messages m,
    ==_iff m.tenant_id t,
    ==_iff m.instance_id i,
    ==_iff m.key_id key,
  )

  -- Every write keeps the key of a message unique within its instance: a message that is delivered twice
  -- is stored once.
  pub write_message-HasUniqueKeys :
      (b : Backend) (db : Db) (t : String) (w : MessageWrite) (store : MessageStore)
      → HasUniqueKeys store
      → HasUniqueKeys (write_message unicode json_valid b db t w store)
  unfolding write_message
  write_message-HasUniqueKeys b db t (creating input) store v u j key =
      (elim (b.new_id 0)
          as (λ r.
            b.new_id 0 ≡ r
            → affected (same_key u j key)
                (write_message unicode json_valid b db t (creating input) store).messages
              ≤ 1) [
                | err e ↦ λ q. ground (arith, v u j key)
                | ok id ↦ λ q. ground (
                  arith,
                  v u j key,
                  insert-HasUniqueKeys (new_message unicode json_valid b.now id t input) store v u j
                      key,
                )
              ])
        refl
  write_message-HasUniqueKeys b db t (creating_or_ignoring input) store v u j key =
      (elim (b.new_id 0)
          as (λ r.
            b.new_id 0 ≡ r
            → affected (same_key u j key)
                (write_message unicode json_valid b db t (creating_or_ignoring input)
                  store).messages
              ≤ 1) [
                | err e ↦ λ q. ground (arith, v u j key)
                | ok id ↦ λ q. ground (
                  arith,
                  v u j key,
                  insert-HasUniqueKeys (new_message unicode json_valid b.now id t input) store v u j
                      key,
                )
              ])
        refl
  write_message-HasUniqueKeys b db t (updating_content i id content) store v u j key = ground (
    arith,
    v u j key,
    affected-update (same_key u j key) (message_by_id t i id)
        (set_content unicode json_valid content) store.messages (λ r. refl),
  )
  write_message-HasUniqueKeys b db t (marking_read i []) store v u j key = v u j key
  write_message-HasUniqueKeys b db t (marking_read i (id ∷ ids)) store v u j key =
      ground (arith, v u j key)
  write_message-HasUniqueKeys b db t (creating_update input ignore) store v u j key =
      ground (arith, v u j key)

  module _ (security : Security) where
    open security use {Grant, check, tenant}

    -- The check of each operation.
    unfoldable pub message_check : Grant → MessageWrite → Option Error
    message_check g (creating input) = check_message_create security g
    message_check g (creating_or_ignoring input) = check g runtime
    message_check g (updating_content i id content) = check_message_content_update security g
    message_check g (marking_read i ids) = check g message_read
    message_check g (creating_update input ignore) = check g runtime

    unfoldable pub write_by_grant :
        Backend → Db → Grant → MessageWrite → MessageStore → MessageStore
    unfolding message_check
    write_by_grant b db g w store =
        guarded (message_check g w) (tenant_from_grant security g)
          (λ t. write_message unicode json_valid b db t w store) store

    tenant_from_grant-eq_ok :
        (g : Grant) (t : String) → tenant_from_grant security g ≡ ok t → tenant g ≡ t
    unfolding tenant_from_grant
    tenant_from_grant-eq_ok g t h = ground arith

    message_check-writes :
        (g : Grant) (w : MessageWrite)
        → message_check g w ≡ none
        → writes (security.action g) ≡ true
    unfolding message_check check_message_create check_message_content_update refusal writes
    message_check-writes g (creating input) h = ground (arith, security.check_exact g message_send)
    message_check-writes g (creating_or_ignoring input) h =
        ground (arith, security.check_exact g runtime)
    message_check-writes g (updating_content i id content) h = ground arith
    message_check-writes g (marking_read i ids) h =
        ground (arith, security.check_exact g message_read)
    message_check-writes g (creating_update input ignore) h =
        ground (arith, security.check_exact g runtime)

    -- Whatever a Grant is used to write to the messages, with any arguments and whether it succeeds or
    -- fails: the messages of every other tenant and their updates stay as they were, the key of a message
    -- stays unique within its instance, and a Grant of an action that only reads changes nothing.
    pub write_by_grant_lem :
        (b : Backend) (db : Db) (g : Grant) (w : MessageWrite) (store : MessageStore)
        → HasUniqueKeys store
        → SameForeign (tenant g) (write_by_grant b db g w store) store
          × HasUniqueKeys (write_by_grant b db g w store)
          × (writes (security.action g) ≡ false → write_by_grant b db g w store ≡ store)
    unfolding write_by_grant
    write_by_grant_lem b db g w store v =
        guarded-keeps
          (λ s.
            SameForeign (tenant g) s store
            × HasUniqueKeys s
            × (writes (security.action g) ≡ false → s ≡ store))
          (message_check g w) (tenant_from_grant security g)
          (λ t. write_message unicode json_valid b db t w store) store ((refl, refl), v, λ h. refl)
          (λ t h k. (
            subst (λ u. SameForeign u (write_message unicode json_valid b db t w store) store)
                (sym (tenant_from_grant-eq_ok g t k))
                (write_message-foreign unicode json_valid b db t w store),
            write_message-HasUniqueKeys b db t w store v,
            λ z. absurd (ground (arith, z, message_check-writes g w h)),
          ))
