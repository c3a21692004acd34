-- ===== src/Owners/Written.antt =====
-- services/scheduler/src/tasks/owner_notifications.py: a record that was written is the run's record.
use codegen_orchestrator.Prelude.{
  ℕ, String, false, none, some, List, [], ◌∷◌, ◌≡◌, refl, ◌∙◌, ap, arith, inl, inr, Bool-cases,
  Option-cases, or_else, eq_refl,
}
use codegen_orchestrator.Prelude.Table
use codegen_orchestrator.Contracts.Json
use codegen_orchestrator.Contracts.Json.{Json, Dict}
use codegen_orchestrator.Contracts.Message.{Message}
use codegen_orchestrator.Contracts.Run.{Run, is_terminal}
use codegen_orchestrator.Session.{Db, Env, ok, respond, discard, db-discard, ◌>>=◌}
use codegen_orchestrator.Actor.{resolve_actor}
use codegen_orchestrator.Runs.Rows.{run_key, find_run, lock_run}
use codegen_orchestrator.Runs.Update.{update_run, updated_run, rewrites, rewrites_result}
use codegen_orchestrator.Dispatch.Hoare.{Claim, Holds, request-Holds}
use codegen_orchestrator.Dispatch.Recipient.{service}
use codegen_orchestrator.Owners.Record.{OwnerNotification, Codec, is_null}
use codegen_orchestrator.Owners.Delivery.{
  notification_key, record_update, write_record, read_owner_notification, read_stored, as_some,
}

get-merge_last :
    (k : String) (v : Json) (d : Dict) → Json.get k (Json.merge d ((k, v) ∷ [])) ≡ some v
unfolding Json.merge
get-merge_last k v d = ground (arith, Json.get-put k k v d, eq_refl k)

module _ ⦃codec : Codec⦄ where
  -- The run's metadata holds the record.
  pub data Carries (run_id : String) (r : OwnerNotification) (db : Db) : Type 0 where
    carries :
        (run : Run)
        → find_run run_id db ≡ some run
        → read_owner_notification (or_else run.run_metadata []) ≡ ok (some r)
        → Carries run_id r db

  stored-value :
      (v : Json) (r : OwnerNotification)
      → is_null v ≡ false
      → codec.model_validate v ≡ ok r
      → read_stored (some v) ≡ ok (some r)
  stored-value Json.null r n e = absurd (ground arith)
  stored-value (Json.boolean b) r n e = ap as_some e
  stored-value (Json.number m) r n e = ap as_some e
  stored-value (Json.text t) r n e = ap as_some e
  stored-value (Json.moment t) r n e = ap as_some e
  stored-value (Json.array xs) r n e = ap as_some e
  stored-value (Json.object f) r n e = ap as_some e

  stored-dump : (r : OwnerNotification) → read_stored (some (codec.model_dump r)) ≡ ok (some r)
  stored-dump r = stored-value (codec.model_dump r) r (codec.dumps_value r) (codec.validates_dump r)

  updated-read :
      (now : ℕ) (r : OwnerNotification) (run : Run)
      → read_owner_notification
          (or_else (updated_run now (record_update r) run.status run).run_metadata [])
        ≡ ok (some r)
  unfolding read_owner_notification record_update updated_run
  updated-read now r run =
      ap read_stored
        (get-merge_last notification_key (codec.model_dump r) (or_else run.run_metadata []))
      ∙ stored-dump r

  abbrev now_carrying : Env → OwnerNotification → Run → Run
  now_carrying env r run = updated_run env.now (record_update r) run.status run

  update-writes :
      (env : Env) (run_id : String) (r : OwnerNotification) (db : Db) (run : Run)
      → find_run run_id db ≡ some run
      → (respond (update_run env service run_id (record_update r)) db).db
        ≡ record db { runs = Table.save run_key (now_carrying env r run) db.runs }
  unfolding update_run lock_run ◌>>=◌ resolve_actor rewrites rewrites_result record_update
  update-writes env run_id r db run e = elim (Bool-cases (is_terminal run.status)) [
    | inl t ↦ ground (arith, e)
    | inr t ↦ ground (arith, e)
  ]

  updated-id :
      (env : Env) (r : OwnerNotification) (run : Run) → (now_carrying env r run).id ≡ run.id
  unfolding updated_run
  updated-id env r run = refl

  find-written :
      (env : Env) (run_id : String) (r : OwnerNotification) (db : Db) (run : Run)
      → find_run run_id db ≡ some run
      → Table.find run_key run_id (Table.save run_key (now_carrying env r run) db.runs)
        ≡ some (now_carrying env r run)
  find-written env run_id r db run e = ground (
    arith,
    Table.find-save run_key (now_carrying env r run) run_id db.runs,
    Table.key-find run_key run_id db.runs run e,
    updated-id env r run,
    eq_refl run_id,
  )

  update_run-missing :
      (env : Env) (run_id : String) (r : OwnerNotification) (db : Db)
      → find_run run_id db ≡ none
      → (respond (discard (update_run env service run_id (record_update r))) db).answer ≡ ok tt
      → ⊥
  unfolding update_run lock_run discard ◌>>=◌
  update_run-missing env run_id r db e h = absurd (ground (arith, e))

  write-Carries :
      (env : Env) (run_id : String) (r : OwnerNotification) (db : Db)
      → (respond (discard (update_run env service run_id (record_update r))) db).answer ≡ ok tt
      → Carries run_id r (respond (discard (update_run env service run_id (record_update r))) db).db
  write-Carries env run_id r db h = elim (Option-cases (find_run run_id db)) [
    | inl e ↦ absurd (update_run-missing env run_id r db e h)
    | inr (run, e) ↦
        carries (now_carrying env r run)
          (ap (λ x. find_run run_id x)
              (db-discard (update_run env service run_id (record_update r)) db
                ∙ update-writes env run_id r db run e)
            ∙ find-written env run_id r db run e)
          (updated-read env.now r run)
  ]

  -- After a record was written, the run carries it.
  pub write_record-Carries :
      (P : Claim) (run_id : String) (r : OwnerNotification) (E : Claim)
      → ((db : Db) (q : List Message) → E db q)
      → Holds P (write_record run_id r) (λ _ db q. Carries run_id r db) E
  unfolding write_record
  write_record-Carries P run_id r E e =
      request-Holds P (λ _ db q. Carries run_id r db) E _
        (λ env a db q p h. write-Carries env run_id r db h) (λ env db q p. e _ q) (λ db q p. e db q)
