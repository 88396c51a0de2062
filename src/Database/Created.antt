-- ===== src/Database/Created.antt =====
-- What Create of internal/database/repository/instance_repository.go leaves, and what findByName finds then.
use arandu_whatsapp.Authz.Checks.{tenant_from_grant}
use arandu_whatsapp.Authz.Security.{Security, instance_create}
use arandu_whatsapp.Database.{Db, Engine, InstanceRow}
use arandu_whatsapp.Database.Creation.{
  CreateInstanceInput, Drafting, create_error, create_of, create_refusal, find_instance,
  insert_error, insert_instance, instance_clash, instance_named, new_instance,
}
use arandu_whatsapp.Database.Doors.{create_instance}
use arandu_whatsapp.Database.Naming.{trim_space-twice}
use arandu_whatsapp.Database.Sql.{find, find-insert}
use arandu_whatsapp.Errors.{Result, err, ok}
use arandu_whatsapp.Policy.{Action-eq}
use arandu_whatsapp.Prelude.{
  ==_iff, ==_refl, List-eq, Option-eq, String, String-eq, [], arith, none, refl, some, subst, ℕ,
  ℕ-eq, ◌++◌, ◌∷◌, ◌≡◌, ◌≢◌,
}
use arandu_whatsapp.Prelude.Text.{Unicode, trim_space}

module _ (unicode : Unicode) (b : Drafting) (now : ℕ) (input : CreateInstanceInput)
    (t : String) where
  -- A row that Create has added and returned: it has the new id and the trimmed name, which is not blank
  -- and which no row of the tenant had, and findByName of the name as it was given finds it.
  pub record IsCreated (db db' : Db) (r : InstanceRow) : Type 0 where
    pub id : ℕ
    pub new : b.new_id ≡ ok id
    pub id_of : r.id ≡ id
    pub tenant_of : r.tenant_id ≡ t
    pub name_of : r.name ≡ trim_space unicode input.name
    pub description_of : r.description ≡ input.description
    pub owner_of : r.owner_jid ≡ input.owner_jid
    pub picture_of : r.profile_pic_url ≡ input.profile_pic_url
    pub unlocked : r.connection_lock_until ≡ none
    pub added : db' ≡ record db { instances = db.instances ++ r ∷ [] }
    pub named : trim_space unicode input.name ≢ []
    pub free : find (instance_clash id t (trim_space unicode input.name)) db.instances ≡ none
    pub readable : find_instance none (instance_named t (trim_space unicode input.name)) db' ≡ ok r

  -- What Create returns: the row that it has added, or an error and nothing is changed.
  abbrev pub IsReturned : Db → Db × Result InstanceRow → Type 0
  IsReturned db (db', ok r) = IsCreated db db' r
  IsReturned db (db', err e) = db' ≡ db

  inserted-eq :
      (en : Engine) (id : ℕ) (db : Db)
      → en.fault 2 ≡ none
      → insert_error b en id t (trim_space unicode input.name) db ≡ none
      → find_instance none (instance_named t (trim_space unicode input.name)) (record db {
        instances =
            db.instances ++ new_instance b now id t (trim_space unicode input.name) input ∷ [];
      })
        ≡ ok (new_instance b now id t (trim_space unicode input.name) input)
  unfolding find_instance
  inserted-eq en id db f q = ground (
    arith,
    find-insert (instance_clash id t (trim_space unicode input.name))
        (instance_named t (trim_space unicode input.name)) db.instances
        (new_instance b now id t (trim_space unicode input.name) input) (λ r k. ground arith),
    ==_refl t,
    ==_refl (trim_space unicode input.name),
  )

  insert-IsReturned :
      (en : Engine) (id : ℕ) (db : Db)
      → en.fault 2 ≡ none
      → b.new_id ≡ ok id
      → trim_space unicode input.name ≢ []
      → IsReturned db (insert_instance unicode b en now input t id db)
  unfolding insert_instance
  insert-IsReturned en id db f n blank =
      let name = trim_space unicode input.name in
      (elim (insert_error b en id t name db)
          as (λ o.
            insert_error b en id t name db ≡ o
            → IsReturned db (insert_instance unicode b en now input t id db)) [
              | some e ↦ λ q.
                  subst (IsReturned db) {x = (db, err (create_error b en t name e db))}
                    (ground arith) refl
              | none ↦ λ q.
                  let r = new_instance b now id t name input in
                  let found = inserted-eq en id db f q in
                  let db' : Db = record db { instances = db.instances ++ r ∷ [] } in
                  subst (IsReturned db) {x = (db', ok r)}
                    (ground (arith, found, f, trim_space-twice unicode input.name))
                    (record {
                      id = id;
                      new = n;
                      id_of = refl;
                      tenant_of = refl;
                      name_of = refl;
                      description_of = refl;
                      owner_of = refl;
                      picture_of = refl;
                      unlocked = refl;
                      added = refl;
                      named = blank;
                      free = ground arith;
                      readable = found;
                    })
            ])
        refl

  create-IsReturned :
      (en : Engine) (db : Db)
      → en.fault 2 ≡ none
      → IsReturned db (create_of unicode b en now input t db)
  unfolding create_of
  create-IsReturned en db f =
      (elim (create_refusal unicode b input)
          as (λ o.
            create_refusal unicode b input ≡ o
            → IsReturned db (create_of unicode b en now input t db)) [
              | some e ↦ λ q. subst (IsReturned db) {x = (db, err e)} (ground arith) refl
              | none ↦ λ q.
                  (elim b.new_id
                      as (λ n.
                        b.new_id ≡ n → IsReturned db (create_of unicode b en now input t db)) [
                          | err e ↦ λ z. subst (IsReturned db) {x = (db, err e)} (ground arith) refl
                          | ok id ↦ λ z.
                              subst (IsReturned db)
                                {x = insert_instance unicode b en now input t id db} (ground arith)
                                (insert-IsReturned en id db f z
                                  (ground (arith, ==_iff (trim_space unicode input.name) [])))
                        ])
                    refl
            ])
        refl

module _ (security : Security) (unicode : Unicode) where
  open security use {Grant, tenant}

  -- What Create returns, where the read after its INSERT does not fail: an error and nothing is changed,
  -- or the one row that it has added, in the tenant of the Grant, with the id of newID, the description,
  -- owner and picture of the input, no lock, and the trimmed name, which is not blank and was free in the
  -- tenant, as was the id; findByName of the name as it was given then finds this row.
  pub create_instance_lem :
      (b : Drafting) (en : Engine) (now : ℕ) (g : Grant) (input : CreateInstanceInput) (db : Db)
      → en.fault 2 ≡ none
      → IsReturned unicode b now input
          (tenant g)
          db
          (create_instance security unicode b en now g input db)
  unfolding create_instance tenant_from_grant
  create_instance_lem b en now g input db f =
      (elim (security.check g instance_create)
          as (λ o.
            security.check g instance_create ≡ o
            → IsReturned unicode b now input (tenant g) db
                (create_instance security unicode b en now g input db)) [
                  | some e ↦ λ q.
                      subst (IsReturned unicode b now input (tenant g) db) {x = (db, err e)}
                        (ground arith) refl
                  | none ↦ λ q.
                      (elim (tenant_from_grant security g)
                          as (λ o.
                            tenant_from_grant security g ≡ o
                            → IsReturned unicode b now input (tenant g) db
                                (create_instance security unicode b en now g input db)) [
                                  | err e ↦ λ z.
                                      subst (IsReturned unicode b now input (tenant g) db)
                                        {x = (db, err e)} (ground arith) refl
                                  | ok t ↦ λ z.
                                      subst (IsReturned unicode b now input (tenant g) db)
                                        {x = create_of unicode b en now input (tenant g) db}
                                        (ground arith)
                                        (create-IsReturned unicode b now input (tenant g) en db f)
                                ])
                        refl
                ])
        refl
