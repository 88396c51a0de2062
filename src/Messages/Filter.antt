-- ===== src/Messages/Filter.antt =====
-- The WHERE and ORDER BY clauses of internal/database/repository/message_repository.go.
use arandu_whatsapp.Messages.{MessageFilters, MessageRow, UpdateRow}
use arandu_whatsapp.Policy.{Action-eq}
use arandu_whatsapp.Prelude.{
  Bool, Eq, List, List-eq, Option, Option-eq, String, String-eq, [], any, false, if◌then◌else◌, leb,
  ltb, none, not, some, true, ℕ, ℕ-eq, ◌&&◌, ◌==◌, ◌||◌, ◌∷◌,
}

-- `column = ?` for a filter that is given
abbrev pub matches {ℓ} : {A : Type ℓ} ⦃e : Eq A⦄ → Option A → A → Bool
matches none value = true
matches (some v) value = value == v

-- `column = ?` for a column that may be NULL
abbrev pub matches_nullable : Option String → Option String → Bool
matches_nullable none value = true
matches_nullable (some v) value = value == some v

abbrev pub at_least : Option ℕ → ℕ → Bool
at_least none value = true
at_least (some bound) value = leb bound value

abbrev pub at_most : Option ℕ → ℕ → Bool
at_most none value = true
at_most (some bound) value = leb value bound

abbrev pub bool_eq : Bool → Bool → Bool
bool_eq true b = b
bool_eq false b = not b

abbrev pub matches_bool : Option Bool → Bool → Bool
matches_bool none value = true
matches_bool (some v) value = bool_eq value v

-- EXISTS (SELECT 1 FROM whatsapp_message_updates u ...)
abbrev pub updated_to : MessageRow → String → UpdateRow → Bool
updated_to m status u =
    u.tenant_id == m.tenant_id
    && u.instance_id == m.instance_id
    && u.message_id == m.id
    && u.status == status

abbrev pub has_status : List UpdateRow → Option String → MessageRow → Bool
has_status updates none m = true
has_status updates (some status) m = any (updated_to m status) updates

abbrev pub message_at : String → ℕ → MessageRow → Bool
message_at t i m = m.tenant_id == t && m.instance_id == i

-- messageFilterSQL
unfoldable pub message_filter : List UpdateRow → String → ℕ → MessageFilters → MessageRow → Bool
message_filter updates t i f m =
    message_at t i m
    && matches f.id m.id
    && matches f.key_id m.key_id
    && matches_nullable f.key_remote_jid m.key_remote_jid
    && matches_bool f.key_from_me m.key_from_me
    && matches f.message_type m.message_type
    && matches f.device m.device
    && at_least f.timestamp_gte m.message_timestamp
    && at_most f.timestamp_lte m.message_timestamp
    && has_status updates f.message_status m

abbrev pub before : MessageRow → MessageRow → Bool
before a b = ltb a.created_at b.created_at || a.created_at == b.created_at && ltb a.id b.id

-- ORDER BY m.created_at ASC, m.id ASC
unfoldable pub insert_ordered : MessageRow → List MessageRow → List MessageRow
insert_ordered m [] = m ∷ []
insert_ordered m (x ∷ rows) =
    let rest = insert_ordered m rows in if before x m then x ∷ rest else m ∷ x ∷ rows

unfoldable pub order_by : List MessageRow → List MessageRow
unfolding insert_ordered
order_by [] = []
order_by (m ∷ rows) = insert_ordered m (order_by rows)
