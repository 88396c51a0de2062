-- ===== src/Processing/Sending.antt =====
-- When internal/message/processor.go hands a message to WhatsApp.
use arandu_whatsapp.Authz.Checks.{check_message_by_key, refusal, tenant_from_grant}
use arandu_whatsapp.Authz.Security.{Security, message_send}
use arandu_whatsapp.Database.{Db, InstanceRow, InstanceStatus, status_is_online}
use arandu_whatsapp.Database.Sql.{find}
use arandu_whatsapp.Errors.{Error, Result, err, errors_is, message_not_found, ok}
use arandu_whatsapp.Messages.{MessageStore}
use arandu_whatsapp.Messages.Reads.{find_by_key_id_for_instance}
use arandu_whatsapp.Messages.Store.{find_message, same_key}
use arandu_whatsapp.Policy.{Action-eq}
use arandu_whatsapp.Prelude.{
  ==_iff, Bool, List, List-eq, Option, Option-eq, String, String-eq, [], arith, none, refl, some,
  true, ℕ, ℕ-eq, ◌∷◌, ◌≡◌,
}
use arandu_whatsapp.Prelude.Text.{Text, Unicode}
use arandu_whatsapp.Processing.{MessageSnapshot}
use arandu_whatsapp.Processing.Execution.{
  Answers, find_by_name, mention_refusal, named, process_mention_all_job, send_mention_all,
  send_refusal,
}
use arandu_whatsapp.Processing.Repository.{message_processing_tenant, query_error}

module _ (security : Security) (unicode : Unicode) (json_valid : Text → Bool) where
  open security use {Grant, check, tenant, action, check_exact}

  -- What holds where a job sends its message: the instance of the snapshot is an online one of the
  -- tenant, with a client that is ready, the message is not stored, and the group has participants.
  pub record MaySend (a : Answers) (g : Grant) (s : MessageSnapshot) (db : Db)
      (store : MessageStore) : Type 0 where
    pub instance_row : InstanceRow
    pub loaded : find (named unicode (tenant g) s.instance_name) db.instances ≡ some instance_row
    pub same_instance : instance_row.id ≡ s.instance_id
    pub online : status_is_online instance_row.status ≡ true
    pub unsent : find (same_key (tenant g) s.instance_id s.message_id) store.messages ≡ none
    pub ready : a.client ≡ ok (some true)
    pub group : a.is_group ≡ true
    pub jid : Text
    pub others : List Text
    pub participants : a.group_info ≡ ok (jid ∷ others)

  mention_refusal-none :
      (r : Result (List Text))
      → mention_refusal r ≡ none
      → (jid : Text) × (others : List Text) × (r ≡ ok (jid ∷ others))
  mention_refusal-none (err e) h = absurd (ground arith)
  mention_refusal-none (ok []) h = absurd (ground arith)
  mention_refusal-none (ok (jid ∷ others)) h = (jid, others, refl)

  send_mention_all-true :
      (a : Answers) (i : ℕ) (status : InstanceStatus)
      → (send_mention_all a i status).0 ≡ true
      → (status_is_online status ≡ true)
        × (a.client ≡ ok (some true))
        × (a.is_group ≡ true)
        × (mention_refusal a.group_info ≡ none)
  unfolding send_mention_all send_refusal
  send_mention_all-true a i status h = ground arith

  find_by_key-missing :
      (fault : Option String) (g : Grant) (i : ℕ) (key : Text) (store : MessageStore) (e : Error)
      → message_processing_tenant security g ≡ ok (tenant g)
      → find_by_key_id_for_instance security (query_error fault) g i key store ≡ err e
      → errors_is e message_not_found ≡ true
      → find (same_key (tenant g) i key) store.messages ≡ none
  unfolding find_by_key_id_for_instance find_message check_message_by_key tenant_from_grant
      message_processing_tenant errors_is refusal
  find_by_key-missing fault g i key store e p h z =
      ground (arith, check_exact g message_send, ==_iff (tenant g) "")

  find_by_name-eq_ok :
      (fault : Option Error) (g : Grant) (name : Text) (db : Db) (r : InstanceRow)
      → find_by_name security unicode json_valid fault g name db ≡ ok r
      → find (named unicode (tenant g) name) db.instances ≡ some r
  unfolding find_by_name tenant_from_grant
  find_by_name-eq_ok fault g name db r h = ground arith

  pub process-MaySend :
      (a : Answers) (g : Grant) (s : MessageSnapshot) (db : Db) (store : MessageStore)
      → message_processing_tenant security g ≡ ok (tenant g)
      → (process_mention_all_job security unicode json_valid a g s db store).0 ≡ true
      → MaySend a g s db store
  unfolding process_mention_all_job
  process-MaySend a g s db store p h =
      (elim (find_by_name security unicode json_valid a.instance_fault g s.instance_name db)
          as (λ r.
            find_by_name security unicode json_valid a.instance_fault g s.instance_name db ≡ r
            → MaySend a g s db store) [
              | err e ↦ λ q. absurd (ground arith)
              | ok row ↦ λ q.
                  (elim (find_by_key_id_for_instance security (query_error a.message_fault) g row.id
                        s.message_id store)
                      as (λ r.
                        find_by_key_id_for_instance security (query_error a.message_fault) g row.id
                            s.message_id store
                          ≡ r
                        → MaySend a g s db store) [
                          | ok m ↦ λ z. absurd (ground arith)
                          | err e ↦ λ z.
                              let same : row.id ≡ s.instance_id =
                                ground (arith, ==_iff row.id s.instance_id) in
                              let sends : (send_mention_all a row.id row.status).0 ≡ true =
                                ground arith in
                              let (on, ready, group, mentioned) =
                                send_mention_all-true a row.id row.status sends in
                              let (jid, others, participants) =
                                mention_refusal-none a.group_info mentioned in
                              let unsent =
                                find_by_key-missing a.message_fault g row.id s.message_id store e p
                                  z (ground arith) in
                              record {
                                instance_row = row;
                                loaded =
                                    find_by_name-eq_ok a.instance_fault g s.instance_name db row q;
                                same_instance = same;
                                online = on;
                                unsent = ground (arith, unsent, same);
                                ready = ready;
                                group = group;
                                jid = jid;
                                others = others;
                                participants = participants;
                              }
                        ])
                    refl
            ])
        refl
