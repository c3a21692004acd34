-- ===== src/Runs/Steps.antt =====
-- What a request may do to the rows of `runs`.
use codegen_orchestrator.Prelude.{
  ℕ, String, false, Option, none, some, [], ◌∷◌, ◌++◌, ◌≡◌, refl, sym, subst, arith, inl, inr,
  Option-cases, Bool-cases, ◌&&◌, ◌||◌, or_else,
}
use codegen_orchestrator.Prelude.Table
use codegen_orchestrator.Contracts.Column.{Column, known}
use codegen_orchestrator.Contracts.Run.{Run, RunStatus, RunCreate, RunUpdate, running, is_terminal}
use codegen_orchestrator.Session.{
  Db, Env, Result-cases, ok, Handler, respond, db-discard, discard, opened, ◌>>=◌,
}
use codegen_orchestrator.Actor.{
  Caller, may_act, resolve_actor-cases, require_internal_or_admin-cases,
}
use codegen_orchestrator.Runs.Rows.{
  run_key, find_run, has_recorded_outcome, lock_run, claimed_at, lease_expires_at, is_superseded,
  run_status,
}
use codegen_orchestrator.Runs.Boundary.{
  start_run, claim_run_dispatch, supersede_run_dispatch, withdraw_run_dispatch, claimed_run,
  superseded_run, withdrawn_run, supersede_open, supersede_answer, lease_is_live,
}
use codegen_orchestrator.Runs.Update.{
  update_run, create_run, updated_run, next_status, reopens, rewrites, new_run, check_user-cases,
}
use codegen_orchestrator.Runs.Requests.{
  RunRequest, handle_run, create, update, start, claim, supersede, withdraw,
}

-- How a request may change a stored run.
pub data Change (request : RunRequest) (r r' : Run) : Type 0 where
  started_run :
      is_terminal r.status ≡ false → r' ≡ record r { status = known running } → Change request r r'
  claimed :
      (now : ℕ) (earlier : Option ℕ)
      → is_terminal r.status ≡ false
      → claimed_at r ≡ ok earlier
      → r' ≡ claimed_run now (or_else earlier now) r
      → Change request r r'
  withdrawn :
      (now : ℕ) (reason : String)
      → is_terminal r.status ≡ false
      → r' ≡ withdrawn_run now reason r
      → Change request r r'
  superseded :
      (now : ℕ) (reason : String)
      → (is_terminal r.status && has_recorded_outcome r) ≡ false
      → r' ≡ superseded_run now reason r
      → Change request r r'
  updated :
      (now : ℕ) (id : String) (body : RunUpdate) (status : Column RunStatus)
      → request ≡ update id body
      → next_status body.status r.status ≡ some status
      → (is_terminal r.status && reopens body.status) ≡ false
      → (is_terminal r.status && has_recorded_outcome r && rewrites body r) ≡ false
      → r' ≡ updated_run now body status r
      → Change request r r'

pub data RunStep (request : RunRequest) (db db' : Db) : Type 0 where
  stays : db' ≡ db → RunStep request db db'
  -- A run is queued under a new key.
  insert_step :
      (body : RunCreate)
      → find_run body.id db ≡ none
      → db' ≡ record db { runs = db.runs ++ (new_run body ∷ []) }
      → RunStep request db db'
  change_step :
      (r r' : Run)
      → find_run r.id db ≡ some r
      → r'.id ≡ r.id
      → Change request r r'
      → db' ≡ record db { runs = Table.save run_key r' db.runs }
      → RunStep request db db'

find_run-own :
    (db : Db) (id : String) (r : Run) → find_run id db ≡ some r → find_run r.id db ≡ some r
find_run-own db id r e =
    subst (λ k. find_run k db ≡ some r) (sym (Table.key-find run_key id db.runs r e)) e

discarded :
    {A : Type 0} (request : RunRequest) (m : Handler A) (db : Db)
    → RunStep request db (respond m db).db
    → RunStep request db (respond (discard m) db).db
discarded request m db h = subst (RunStep request db) (sym (db-discard m db)) h

start_run-step :
    (caller : Caller) (id : String) (db : Db)
    → RunStep (start id) db (respond (start_run caller id) db).db
unfolding start_run lock_run ◌>>=◌
start_run-step caller id db = elim (require_internal_or_admin-cases caller (opened db)) [
  | inl (f, g) ↦ stays (ground arith)
  | inr g ↦ elim (Option-cases (find_run id db)) [
    | inl e ↦ stays (ground arith)
    | inr (r, e) ↦ elim (Bool-cases (is_terminal r.status)) [
      | inl t ↦ elim (Result-cases (run_status r.status)) [
        | inl (f, s) ↦ stays (ground arith)
        | inr (s, q) ↦ stays (ground arith)
      ]
      | inr t ↦
          change_step r (record r { status = known running }) (find_run-own db id r e) refl
            (started_run t refl) (ground arith)
    ]
  ]
]

claim_run_dispatch-step :
    (env : Env) (caller : Caller) (id : String) (db : Db)
    → RunStep (claim id) db (respond (claim_run_dispatch env caller id) db).db
unfolding claim_run_dispatch claimed_run lock_run ◌>>=◌
claim_run_dispatch-step env caller id db =
    elim (require_internal_or_admin-cases caller (opened db)) [
      | inl (f, g) ↦ stays (ground arith)
      | inr g ↦ elim (Option-cases (find_run id db)) [
        | inl e ↦ stays (ground arith)
        | inr (r, e) ↦ elim (Bool-cases (is_terminal r.status)) [
          | inl t ↦ stays (ground arith)
          | inr t ↦ elim (Result-cases (claimed_at r)) [
            | inl (f, c) ↦ stays (ground arith)
            | inr (c, q) ↦
                change_step r (claimed_run env.now (or_else c env.now) r) (find_run-own db id r e)
                  refl (claimed env.now c t q refl) (ground arith)
          ]
        ]
      ]
    ]

supersede_run_dispatch-step :
    (env : Env) (caller : Caller) (id reason : String) (db : Db)
    → RunStep (supersede id reason) db (respond (supersede_run_dispatch env caller id reason) db).db
unfolding supersede_run_dispatch supersede_open supersede_answer superseded_run lock_run ◌>>=◌
supersede_run_dispatch-step env caller id reason db =
    elim (require_internal_or_admin-cases caller (opened db)) [
      | inl (f, g) ↦ stays (ground arith)
      | inr g ↦ elim (Option-cases (find_run id db)) [
        | inl e ↦ stays (ground arith)
        | inr (r, e) ↦ elim (Bool-cases (is_terminal r.status && has_recorded_outcome r)) [
          | inl t ↦ stays (ground arith)
          | inr t ↦ elim (Result-cases (claimed_at r)) [
            | inl (f, c) ↦ stays (ground arith)
            | inr (c, q) ↦ elim (Result-cases (lease_expires_at r)) [
              | inl (f, l) ↦ stays (ground arith)
              | inr (l, p) ↦ elim (Option-cases c) [
                | inl n ↦ stays (ground arith)
                | inr (since, n) ↦ elim (Bool-cases (is_superseded r || lease_is_live l env.now)) [
                  | inl k ↦ stays (ground arith)
                  | inr k ↦
                      change_step r (superseded_run env.now reason r) (find_run-own db id r e) refl
                        (superseded env.now reason t refl) (ground arith)
                ]
              ]
            ]
          ]
        ]
      ]
    ]

withdraw_run_dispatch-step :
    (env : Env) (caller : Caller) (id reason : String) (db : Db)
    → RunStep (withdraw id reason) db (respond (withdraw_run_dispatch env caller id reason) db).db
unfolding withdraw_run_dispatch withdrawn_run lock_run ◌>>=◌
withdraw_run_dispatch-step env caller id reason db =
    elim (require_internal_or_admin-cases caller (opened db)) [
      | inl (f, g) ↦ stays (ground arith)
      | inr g ↦ elim (Option-cases (find_run id db)) [
        | inl e ↦ stays (ground arith)
        | inr (r, e) ↦ elim (Bool-cases (is_terminal r.status)) [
          | inl t ↦ stays (ground arith)
          | inr t ↦ elim (Result-cases (claimed_at r)) [
            | inl (f, c) ↦ stays (ground arith)
            | inr (c, q) ↦
                change_step r (withdrawn_run env.now reason r) (find_run-own db id r e) refl
                  (withdrawn env.now reason t refl) (ground arith)
          ]
        ]
      ]
    ]

update_run-step :
    (env : Env) (caller : Caller) (id : String) (body : RunUpdate) (db : Db)
    → RunStep (update id body) db (respond (update_run env caller id body) db).db
unfolding update_run updated_run lock_run ◌>>=◌
update_run-step env caller id body db = elim (Option-cases (find_run id db)) [
  | inl e ↦ stays (ground arith)
  | inr (r, e) ↦ elim (resolve_actor-cases caller (opened db)) [
    | inl (f, g) ↦ stays (ground arith)
    | inr (actor, g) ↦ elim (Bool-cases (may_act actor)) [
      | inr m ↦ stays (ground arith)
      | inl m ↦ elim (Bool-cases (is_terminal r.status && reopens body.status)) [
        | inl o ↦ stays (ground arith)
        | inr o ↦
            elim (Bool-cases (is_terminal r.status && has_recorded_outcome r && rewrites body r)) [
              | inl w ↦ stays (ground arith)
              | inr w ↦ elim (Option-cases (next_status body.status r.status)) [
                | inl n ↦ stays (ground arith)
                | inr (s, n) ↦
                    change_step r (updated_run env.now body s r) (find_run-own db id r e) refl
                      (updated env.now id body s refl n o w refl) (ground arith)
              ]
            ]
      ]
    ]
  ]
]

create_run-step :
    (env : Env) (body : RunCreate) (db : Db)
    → RunStep (create body) db (respond (create_run env body) db).db
unfolding create_run ◌>>=◌
create_run-step env body db = elim (check_user-cases body.user_id (opened db)) [
  | inl (f, c) ↦ stays (ground arith)
  | inr c ↦ elim (Option-cases (find_run body.id db)) [
    | inr (old, e) ↦ stays (ground arith)
    | inl e ↦ elim (Bool-cases env.keys_valid) [
      | inl k ↦ insert_step body e (ground arith)
      | inr k ↦ stays (ground arith)
    ]
  ]
]

-- Every request for a run, whatever it answers, leaves all runs alone, or queues one run under a
-- new key, or changes one stored run in a way that `Change` allows.
pub handle_run-step :
    (env : Env) (caller : Caller) (request : RunRequest) (db : Db)
    → RunStep request db (respond (handle_run env caller request) db).db
unfolding handle_run
handle_run-step env caller (create body) db = discarded _ _ db (create_run-step env body db)
handle_run-step env caller (update id body) db =
    discarded _ _ db (update_run-step env caller id body db)
handle_run-step env caller (start id) db = discarded _ _ db (start_run-step caller id db)
handle_run-step env caller (claim id) db =
    discarded _ _ db (claim_run_dispatch-step env caller id db)
handle_run-step env caller (supersede id reason) db =
    discarded _ _ db (supersede_run_dispatch-step env caller id reason db)
handle_run-step env caller (withdraw id reason) db =
    discarded _ _ db (withdraw_run_dispatch-step env caller id reason db)
