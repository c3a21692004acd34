-- ===== src/Runs/Recorded.antt =====
-- What a run has recorded about its end is never rewritten.
use codegen_orchestrator.Prelude.{
  ℕ, String, true, false, Option, none, some, List, ◌≡◌, refl, arith, eq_iff, ◌=ₛ◌, is_some, ap,
}
use codegen_orchestrator.Contracts.Column.{
  Column, known, unknown, Patch, set, unset, patched, column_eq,
}
use codegen_orchestrator.Contracts.Json.{Json, json_eq}
use codegen_orchestrator.Contracts.Run.{Run, RunStatus, is, is_sound, is_terminal}
use codegen_orchestrator.Session.{Db, Env}
use codegen_orchestrator.Actor.{Caller}
use codegen_orchestrator.Runs.Rows.{has_recorded_outcome, read_back}
use codegen_orchestrator.Runs.Boundary.{claimed_run, superseded_run, withdrawn_run}
use codegen_orchestrator.Runs.Update.{updated_run, next_status, rewrites, differs, rewrites_result}
use codegen_orchestrator.Runs.Requests.{RunRequest, serve_runs}
use codegen_orchestrator.Runs.Steps.{Change, started_run, claimed, withdrawn, superseded, updated}
use codegen_orchestrator.Runs.Keeps.{Stored, serve_runs-keeps, any_request, all_allowed-any}

-- The run ended with this status and this message, and has an outcome.
abbrev pub Recorded : RunStatus → Option String → Run → Type 0
Recorded status message r =
    (r.status ≡ known status)
    × (r.error_message ≡ message)
    × (is_terminal r.status ≡ true)
    × (has_recorded_outcome r ≡ true)

column_eq-known :
    (s : RunStatus) (c : Column RunStatus) → column_eq is c (known s) ≡ true → c ≡ known s
column_eq-known s (known t) h = ap known (is_sound t s h)
column_eq-known s (unknown t) h = absurd (ground arith)

next_status-same :
    (s : RunStatus) (new : Column RunStatus) (patch : Patch (Column RunStatus))
    → next_status patch (known s) ≡ some new
    → differs (column_eq is) patch (some (known s)) ≡ false
    → new ≡ known s
next_status-same s new unset n d = ground arith
next_status-same s new (set none) n d = absurd (ground arith)
next_status-same s new (set (some t)) n d = ground (arith, column_eq-known s t)

patched-same :
    (message : Option String) (patch : Patch String)
    → differs ◌=ₛ◌ patch message ≡ false
    → patched patch message ≡ message
patched-same message unset d = refl
patched-same none (set none) d = refl
patched-same (some m) (set none) d = absurd (ground arith)
patched-same none (set (some m)) d = absurd (ground arith)
patched-same (some m) (set (some n)) d = ground (arith, eq_iff n m)

differs-is_some :
    (new old : Option Json) → differs json_eq (set new) old ≡ false → is_some new ≡ is_some old
differs-is_some none none d = refl
differs-is_some none (some o) d = absurd (ground arith)
differs-is_some (some n) none d = absurd (ground arith)
differs-is_some (some n) (some o) d = refl

is_some-patched :
    (result : Option Json) (patch : Patch Json)
    → rewrites_result patch result ≡ false
    → is_some (read_back (patched patch result)) ≡ is_some (read_back result)
unfolding rewrites_result
is_some-patched result unset d = refl
is_some-patched result (set new) d = differs-is_some (read_back new) (read_back result) d

module _ (status : RunStatus) (message : Option String) where
  Change-Recorded :
      (q : RunRequest) (r r' : Run)
      → any_request q ≡ true
      → Change q r r'
      → Recorded status message r
      → Recorded status message r'
  unfolding claimed_run superseded_run withdrawn_run updated_run rewrites
  Change-Recorded q r r' a (started_run n e) (s, m, t, o) = absurd (ground arith)
  Change-Recorded q r r' a (claimed now since n c e) (s, m, t, o) = absurd (ground arith)
  Change-Recorded q r r' a (withdrawn now reason n e) (s, m, t, o) = absurd (ground arith)
  Change-Recorded q r r' a (superseded now reason n e) (s, m, t, o) = absurd (ground arith)
  Change-Recorded q r r' a (updated now id body new p n o w e) (s, m, t, h) =
      let same = next_status-same status new body.status (ground arith) (ground arith) in
      (
        ground (arith, e, same),
        ground (arith, e, patched-same r.error_message body.error_message),
        ground (arith, e, same),
        ground (arith, e, same, is_some-patched r.result body.result),
      )

-- A run that ended with an outcome keeps its status and its error message, and never loses the
-- outcome, whatever is requested of runs later.
pub serve_runs-Recorded :
    (requests : List (Env × Caller × RunRequest)) (id : String) (db : Db) (status : RunStatus)
    (message : Option String)
    → Stored (Recorded status message) id db
    → Stored (Recorded status message) id (serve_runs requests db)
serve_runs-Recorded requests id db status message h =
    serve_runs-keeps (Recorded status message) any_request (Change-Recorded status message) requests
      id db (all_allowed-any requests) h

-- The run has this time of its end.
abbrev pub EndedAt : ℕ → Run → Type 0
EndedAt t r = r.completed_at ≡ some t

Change-EndedAt :
    (t : ℕ) (q : RunRequest) (r r' : Run)
    → any_request q ≡ true
    → Change q r r'
    → EndedAt t r
    → EndedAt t r'
unfolding claimed_run superseded_run withdrawn_run updated_run
Change-EndedAt t q r r' a (started_run n e) h = ground arith
Change-EndedAt t q r r' a (claimed now since n c e) h = ground arith
Change-EndedAt t q r r' a (withdrawn now reason n e) h = ground arith
Change-EndedAt t q r r' a (superseded now reason n e) h = ground arith
Change-EndedAt t q r r' a (updated now id body new p n o w e) h = ground arith

-- The time at which a run ended is written once: whatever is requested of runs later, and whatever
-- time a caller sends, it stays.
pub serve_runs-EndedAt :
    (requests : List (Env × Caller × RunRequest)) (id : String) (db : Db) (t : ℕ)
    → Stored (EndedAt t) id db
    → Stored (EndedAt t) id (serve_runs requests db)
serve_runs-EndedAt requests id db t h =
    serve_runs-keeps (EndedAt t) any_request (Change-EndedAt t) requests id db
      (all_allowed-any requests) h
