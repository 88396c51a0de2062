-- ===== src/Database/Creation.antt =====
-- The bodies of Create and Update of internal/database/repository/instance_repository.go, with
-- createError, findByName and findByID, jsonText of helpers.go and looksUnique of repository.go. What is
-- written before the last read stays written if that read fails.
use arandu_whatsapp.Database.{Db, Engine, InstanceRow, InstanceStatus, status_is_valid}
use arandu_whatsapp.Database.Inputs.{OptionalField, instance_at, set, set_field, unset}
use arandu_whatsapp.Database.Sql.{affected, find, update}
use arandu_whatsapp.Errors.{
  Error, Result, err, errors_first, external, fail, instance_name_already_exists,
  instance_not_found, invalid_enum, invalid_input, invalid_json, ok, sentinel, unless, wrap,
}
use arandu_whatsapp.Policy.{Action-eq}
use arandu_whatsapp.Prelude.{
  Bool, List-eq, Option, Option-eq, String, String-eq, [], false, if◌then◌else◌, is_some, map, none,
  not, some, true, ℕ, ℕ-eq, ◌&&◌, ◌++◌, ◌==◌, ◌||◌, ◌∷◌,
}
use arandu_whatsapp.Prelude.Text.{Text, Unicode, codes, trim_space}

-- What newID returns, unicode.ToLower, json.Valid, and the error of the driver where a statement breaks
-- a unique index.
pub record Drafting : Type 0 where
  pub new_id : Result ℕ
  pub to_lower : ℕ → ℕ
  pub json_valid : Text → Bool
  pub unique_violation : Error

-- types.CreateInstanceInput
pub record CreateInstanceInput : Type 0 where
  pub name : Text
  pub description : Option String
  pub status : Option InstanceStatus
  pub owner_jid : Option String
  pub profile_pic_url : Option String
  pub external_attributes : Text

-- types.UpdateInstanceInput; the attributes are not set, set to nil, or set to a text.
pub record UpdateInstanceInput : Type 0 where
  pub name : Option Text
  pub description : OptionalField
  pub profile_pic_url : OptionalField
  pub external_attributes : Option (Option Text)

abbrev pub starts_with : Text → Text → Bool
starts_with [] s = true
starts_with (c ∷ prefix) [] = false
starts_with (c ∷ prefix) (d ∷ s) = c == d && starts_with prefix s

-- strings.Contains
abbrev pub has_text : Text → Text → Bool
has_text part [] = part == []
has_text part (c ∷ s) = starts_with part (c ∷ s) || has_text part s

-- looksUnique, of an error of the driver
unfoldable pub looks_unique : (ℕ → ℕ) → Error → Bool
looks_unique lower (external text) =
    has_text (codes "unique") (map lower (codes text))
    || has_text (codes "duplicate") (map lower (codes text))
looks_unique lower _ = false

-- jsonText(value, "{}")
abbrev pub json_object : (Text → Bool) → Text → Text
json_object valid value = if value == [] || not (valid value) then codes "{}" else value

-- WHERE tenant_id = t AND name = name
abbrev pub instance_named : String → Text → InstanceRow → Bool
instance_named t name r = r.tenant_id == t && r.name == name

-- findByName and findByID
unfoldable pub find_instance : Option Error → (InstanceRow → Bool) → Db → Result InstanceRow
find_instance fault p db =
    unless fault (elim (find p db.instances) [ none ↦ fail instance_not_found | some r ↦ ok r ])

abbrev pub new_status : Option InstanceStatus → InstanceStatus
new_status none = InstanceStatus.online
new_status (some s) = s

-- What Create refuses before it reaches the database.
abbrev pub create_refusal : Unicode → Drafting → CreateInstanceInput → Option Error
create_refusal unicode b input =
    if trim_space unicode input.name == []
    then some (sentinel invalid_input)
    else if not (status_is_valid (new_status input.status))
    then some (sentinel invalid_enum)
    else if not (input.external_attributes == []) && not (b.json_valid input.external_attributes)
    then some (sentinel invalid_json)
    else none

-- The row of the INSERT.
abbrev pub new_instance : Drafting → ℕ → ℕ → String → Text → CreateInstanceInput → InstanceRow
new_instance b now id t name input = record {
  id = id;
  tenant_id = t;
  name = name;
  description = input.description;
  status = new_status input.status;
  owner_jid = input.owner_jid;
  profile_pic_url = input.profile_pic_url;
  external_attributes = json_object b.json_valid input.external_attributes;
  connection_lock_owner = none;
  connection_lock_until = none;
  created_at = now;
  updated_at = now;
}

-- The primary key and the unique index on the name.
abbrev pub instance_clash : ℕ → String → Text → InstanceRow → Bool
instance_clash id t name r = r.id == id || instance_named t name r

-- createError; the text before a cause is left out.
unfoldable pub create_error : Drafting → Engine → String → Text → Error → Db → Error
unfolding looks_unique
create_error b en t name cause db =
    if looks_unique b.to_lower cause
      && not (is_some (en.fault 1))
      && is_some (find (instance_named t name) db.instances)
    then wrap instance_name_already_exists (external "name")
    else cause

-- The INSERT of Create: the error with which it fails.
abbrev pub insert_error : Drafting → Engine → ℕ → String → Text → Db → Option Error
insert_error b en id t name db = errors_first (en.fault 0) (
    if is_some (find (instance_clash id t name) db.instances)
    then some b.unique_violation
    else none)

-- Create for the id that newID returns.
unfoldable pub insert_instance :
    Unicode
    → Drafting
    → Engine
    → ℕ
    → CreateInstanceInput
    → String
    → ℕ
    → Db
    → Db × Result InstanceRow
unfolding create_error find_instance
insert_instance unicode b en now input t id db =
    let name = trim_space unicode input.name in
    elim (insert_error b en id t name db) [
      | some e ↦ (db, err (create_error b en t name e db))
      | none ↦
          let db' = record db {
            instances = db.instances ++ new_instance b now id t name input ∷ [];
          } in
          (db', find_instance (en.fault 2) (instance_named t (trim_space unicode name)) db')
    ]

-- The body of Create.
unfoldable pub create_of :
    Unicode → Drafting → Engine → ℕ → CreateInstanceInput → String → Db → Db × Result InstanceRow
unfolding insert_instance
create_of unicode b en now input t db = elim (create_refusal unicode b input) [
  | some e ↦ (db, err e)
  | none ↦ elim b.new_id [
    | err e ↦ (db, err e)
    | ok id ↦ insert_instance unicode b en now input t id db
  ]
]

-- The text of the attributes that Update sets: nil is null.
abbrev pub attributes_text : Option Text → Text
attributes_text none = codes "null"
attributes_text (some value) = value

abbrev pub is_blank_name : Unicode → Option Text → Bool
is_blank_name unicode none = false
is_blank_name unicode (some name) = trim_space unicode name == []

abbrev pub is_invalid_attributes : Drafting → Option (Option Text) → Bool
is_invalid_attributes b none = false
is_invalid_attributes b (some value) = not (b.json_valid (attributes_text value))

abbrev pub is_unset : OptionalField → Bool
is_unset unset = true
is_unset (set v) = false

-- `len(sets) == 0`
abbrev pub sets_nothing : UpdateInstanceInput → Bool
sets_nothing input =
    not (is_some input.name)
    && is_unset input.description
    && is_unset input.profile_pic_url
    && not (is_some input.external_attributes)

abbrev pub set_name : Unicode → Option Text → Text → Text
set_name unicode none old = old
set_name unicode (some name) old = trim_space unicode name

abbrev pub set_attributes : Option (Option Text) → Text → Text
set_attributes none old = old
set_attributes (some value) old = attributes_text value

-- The SET clauses of Update.
abbrev pub set_instance : Unicode → UpdateInstanceInput → ℕ → InstanceRow → InstanceRow
set_instance unicode input now r = record r {
  name = set_name unicode input.name r.name;
  description = set_field input.description r.description;
  profile_pic_url = set_field input.profile_pic_url r.profile_pic_url;
  external_attributes = set_attributes input.external_attributes r.external_attributes;
  updated_at = now;
}

-- WHERE tenant_id = t AND name = name AND id <> i, for the name that Update sets; an Update of no name
-- looks for the empty one.
abbrev pub named_otherwise : Unicode → UpdateInstanceInput → String → ℕ → InstanceRow → Bool
named_otherwise unicode input t i r =
    instance_named t (set_name unicode input.name []) r && not (r.id == i)

-- The UPDATE of Update: the error with which it fails.
abbrev pub update_error :
    Unicode → Drafting → Engine → UpdateInstanceInput → String → ℕ → Db → Option Error
update_error unicode b en input t i db = errors_first (en.fault 0) (
    if is_some input.name
      && is_some (find (instance_at t i) db.instances)
      && is_some (find (named_otherwise unicode input t i) db.instances)
    then some b.unique_violation
    else none)

-- What Update returns where its UPDATE fails.
unfoldable pub rename_error :
    Unicode → Drafting → Engine → UpdateInstanceInput → String → ℕ → Error → Db → Error
unfolding looks_unique
rename_error unicode b en input t i cause db =
    if looks_unique b.to_lower cause
      && not (is_some (en.fault 1))
      && is_some (find (named_otherwise unicode input t i) db.instances)
    then sentinel instance_name_already_exists
    else cause

-- Update where it sets a column.
unfoldable pub update_columns :
    Unicode
    → Drafting
    → Engine
    → ℕ
    → ℕ
    → UpdateInstanceInput
    → String
    → Db
    → Db × Result InstanceRow
unfolding rename_error find_instance
update_columns unicode b en now i input t db = elim (update_error unicode b en input t i db) [
  | some e ↦ (db, err (rename_error unicode b en input t i e db))
  | none ↦
      let db' = record db {
        instances = update (instance_at t i) (set_instance unicode input now) db.instances;
      } in
      if affected (instance_at t i) db.instances == 0
      then (db', fail instance_not_found)
      else (db', find_instance (en.fault 2) (instance_at t i) db')
]

-- The body of Update.
unfoldable pub update_of :
    Unicode
    → Drafting
    → Engine
    → ℕ
    → ℕ
    → UpdateInstanceInput
    → String
    → Db
    → Db × Result InstanceRow
unfolding update_columns
update_of unicode b en now i input t db =
    if is_blank_name unicode input.name
    then (db, fail invalid_input)
    else if is_invalid_attributes b input.external_attributes
    then (db, fail invalid_json)
    else if sets_nothing input
    then (db, find_instance (en.fault 2) (instance_at t i) db)
    else update_columns unicode b en now i input t db
