-- ===== src/Runs/Stamped.antt =====
-- Every run that is over carries the time at which it ended.
use codegen_orchestrator.Prelude.{
  true, false, none, some, List, [], ◌∷◌, ◌≡◌, refl, sym, subst, arith, ◌||◌, is_some, not, All,
}
use codegen_orchestrator.Prelude.Table
use codegen_orchestrator.Contracts.Column.{Column, Patch, set, unset}
use codegen_orchestrator.Contracts.Run.{Run, RunStatus, is_terminal}
use codegen_orchestrator.Session.{Db, Env, respond}
use codegen_orchestrator.Actor.{Caller}
use codegen_orchestrator.Runs.Rows.{run_key}
use codegen_orchestrator.Runs.Boundary.{claimed_run, superseded_run, withdrawn_run}
use codegen_orchestrator.Runs.Update.{updated_run, next_status, ends, new_run}
use codegen_orchestrator.Runs.Requests.{RunRequest, handle_run, serve_runs}
use codegen_orchestrator.Runs.Steps.{
  Change, started_run, claimed, withdrawn, superseded, updated, RunStep, stays, insert_step,
  change_step, handle_run-step,
}

-- A run that is over has a time of its end.
abbrev pub Stamped : Run → Type 0
Stamped r = (not (is_terminal r.status) || is_some r.completed_at) ≡ true

next_status-ends :
    (old new : Column RunStatus) (patch : Patch (Column RunStatus))
    → next_status patch old ≡ some new
    → ends patch ≡ false
    → (not (is_terminal new) || is_terminal old) ≡ true
next_status-ends old new unset n d = ground arith
next_status-ends old new (set none) n d = absurd (ground arith)
next_status-ends old new (set (some s)) n d = ground arith

Change-Stamped : (q : RunRequest) (r r' : Run) → Change q r r' → Stamped r → Stamped r'
unfolding claimed_run superseded_run withdrawn_run updated_run
Change-Stamped q r r' (started_run n e) h = ground arith
Change-Stamped q r r' (claimed now since n c e) h = ground arith
Change-Stamped q r r' (withdrawn now reason n e) h = ground arith
Change-Stamped q r r' (superseded now reason n e) h = ground arith
Change-Stamped q r r' (updated now id body new p n o w e) h =
    ground (arith, e, next_status-ends r.status new body.status)

RunStep-Stamped :
    (q : RunRequest) (db db' : Db) → RunStep q db db' → All Stamped db.runs → All Stamped db'.runs
unfolding new_run
RunStep-Stamped q db db' (stays e) h = subst (λ d. All Stamped d.runs) (sym e) h
RunStep-Stamped q db db' (insert_step body e w) h =
    subst (λ d. All Stamped d.runs) (sym w)
      (Table.All-append run_key Stamped (new_run body) db.runs refl h)
RunStep-Stamped q db db' (change_step r r' e same c w) h =
    subst (λ d. All Stamped d.runs) (sym w)
      (Table.All-save run_key Stamped r' db.runs
        (Change-Stamped q r r' c (Table.find-All run_key Stamped r.id db.runs r e h)) h)

-- If every run that is over has a time of its end, so it is after any sequence of requests for
-- runs.
pub serve_runs-Stamped :
    (requests : List (Env × Caller × RunRequest)) (db : Db)
    → All Stamped db.runs
    → All Stamped (serve_runs requests db).runs
unfolding serve_runs
serve_runs-Stamped [] db h = h
serve_runs-Stamped ((env, caller, q) ∷ rest) db h =
    serve_runs-Stamped rest (respond (handle_run env caller q) db).db
      (RunStep-Stamped q db _ (handle_run-step env caller q db) h)
