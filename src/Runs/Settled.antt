-- ===== src/Runs/Settled.antt =====
-- A run that is over stays over: what no later request may take back.
use codegen_orchestrator.Prelude.{
  String, Bool, true, false, none, some, List, ◌≡◌, refl, inl, inr, arith, Option-cases, Bool-cases,
  eq_refl,
}
use codegen_orchestrator.Prelude.Table
use codegen_orchestrator.Contracts.Column.{Column, Patch, set, unset}
use codegen_orchestrator.Contracts.Run.{
  Run, RunStatus, is_terminal, DeployDispatchClaim, DeployRunStart, DeployDispatchWithdrawal,
}
use codegen_orchestrator.Session.{Db, Env, Result, ok, err, respond, opened, Result-cases, ◌>>=◌}
use codegen_orchestrator.Actor.{Caller, require_internal_or_admin-cases}
use codegen_orchestrator.Runs.Rows.{run_key, find_run, lock_run, run_status, claimed_at}
use codegen_orchestrator.Runs.Boundary.{
  start_run, claim_run_dispatch, withdraw_run_dispatch, claimed_run, superseded_run, withdrawn_run,
}
use codegen_orchestrator.Runs.Update.{updated_run, reopens, next_status}
use codegen_orchestrator.Runs.Requests.{RunRequest, serve_runs}
use codegen_orchestrator.Runs.Steps.{Change, started_run, claimed, withdrawn, superseded, updated}
use codegen_orchestrator.Runs.Keeps.{Stored, stored, serve_runs-keeps, any_request, all_allowed-any}

-- Whether a run is over.
abbrev pub Over : Run → Type 0
Over r = is_terminal r.status ≡ true

next_status-over :
    (old new : Column RunStatus) (patch : Patch (Column RunStatus))
    → is_terminal old ≡ true
    → next_status patch old ≡ some new
    → reopens patch ≡ false
    → is_terminal new ≡ true
next_status-over old new unset t n o = ground arith
next_status-over old new (set none) t n o = ground arith
next_status-over old new (set (some s)) t n o = ground arith

Change-Over :
    (q : RunRequest) (r r' : Run) → any_request q ≡ true → Change q r r' → Over r → Over r'
unfolding claimed_run superseded_run withdrawn_run updated_run
Change-Over q r r' a (started_run n e) t = ground arith
Change-Over q r r' a (claimed now since n c e) t = ground arith
Change-Over q r r' a (withdrawn now reason n e) t = ground arith
Change-Over q r r' a (superseded now reason n e) t = ground arith
Change-Over q r r' a (updated now id body s p n o w e) t =
    ground (arith, e, next_status-over r.status s body.status)

-- A run that is over stays over, and keeps the time at which it ended and its kind.
pub serve_runs-Over :
    (requests : List (Env × Caller × RunRequest)) (id : String) (db : Db)
    → Stored Over id db
    → Stored Over id (serve_runs requests db)
serve_runs-Over requests id db h =
    serve_runs-keeps Over any_request Change-Over requests id db (all_allowed-any requests) h

-- Whether a worker was let through to the outside.
abbrev pub grants : Result DeployDispatchClaim → Bool
grants (ok answer) = answer.granted
grants (err f) = false

-- Whether a worker was told to begin.
abbrev pub starts : Result DeployRunStart → Bool
starts (ok answer) = answer.started
starts (err f) = false

pub not-grants-Over :
    (env : Env) (caller : Caller) (id : String) (db : Db)
    → Stored Over id db
    → grants (respond (claim_run_dispatch env caller id) db).answer ≡ false
unfolding claim_run_dispatch lock_run ◌>>=◌
not-grants-Over env caller id db (stored r e t) =
    elim (require_internal_or_admin-cases caller (opened db)) [
      | inl (f, g) ↦ ground arith
      | inr g ↦ elim (Result-cases (claimed_at r)) [
        | inl (f, c) ↦ elim (Result-cases (run_status r.status)) [
          | inl (_, _) ↦ ground arith
          | inr (_, _) ↦ ground arith
        ]
        | inr (f, c) ↦ elim (Result-cases (run_status r.status)) [
          | inl (_, _) ↦ ground arith
          | inr (_, _) ↦ ground arith
        ]
      ]
    ]

not-starts-Over :
    (caller : Caller) (id : String) (db : Db)
    → Stored Over id db
    → starts (respond (start_run caller id) db).answer ≡ false
unfolding start_run lock_run ◌>>=◌
not-starts-Over caller id db (stored r e t) =
    elim (require_internal_or_admin-cases caller (opened db)) [
      | inl (f, g) ↦ ground arith
      | inr g ↦ ground arith
    ]

withdrawn-Over :
    (env : Env) (caller : Caller) (id reason : String) (db : Db) (answer : DeployDispatchWithdrawal)
    → (respond (withdraw_run_dispatch env caller id reason) db).answer ≡ ok answer
    → Stored Over id (respond (withdraw_run_dispatch env caller id reason) db).db
unfolding withdraw_run_dispatch withdrawn_run lock_run ◌>>=◌
withdrawn-Over env caller id reason db answer h =
    elim (require_internal_or_admin-cases caller (opened db)) [
      | inl (f, g) ↦ absurd (ground arith)
      | inr g ↦ elim (Option-cases (find_run id db)) [
        | inl m ↦ absurd (ground arith)
        | inr (r, e) ↦ elim (Bool-cases (is_terminal r.status)) [
          | inl t ↦ stored r (ground arith) t
          | inr t ↦ elim (Result-cases (claimed_at r)) [
            | inl (f, c) ↦ absurd (ground arith)
            | inr (c, q) ↦
                stored (withdrawn_run env.now reason r)
                  (ground (
                    arith,
                    Table.find-save run_key (withdrawn_run env.now reason r) id db.runs,
                    Table.key-find run_key id db.runs r e,
                    eq_refl id,
                  ))
                  refl
          ]
        ]
      ]
    ]

-- Once a withdrawal of a run was answered, whatever it answered, the run never starts work again:
-- after any further requests for runs, no claim of its dispatch is granted and no start starts it.
pub withdraw_run_dispatch-closes :
    (env : Env) (caller : Caller) (id reason : String) (db : Db) (answer : DeployDispatchWithdrawal)
    (requests : List (Env × Caller × RunRequest)) (later : Env) (worker : Caller)
    → (respond (withdraw_run_dispatch env caller id reason) db).answer ≡ ok answer
    → let after =
        serve_runs requests (respond (withdraw_run_dispatch env caller id reason) db).db in
      (grants (respond (claim_run_dispatch later worker id) after).answer ≡ false)
      × (starts (respond (start_run worker id) after).answer ≡ false)
withdraw_run_dispatch-closes env caller id reason db answer requests later worker h =
    let over = serve_runs-Over requests id _ (withdrawn-Over env caller id reason db answer h) in
    (not-grants-Over later worker id _ over, not-starts-Over worker id _ over)
