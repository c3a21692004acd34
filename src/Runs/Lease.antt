-- ===== src/Runs/Lease.antt =====
-- A claim is taken back exactly when its lease has run out.
use codegen_orchestrator.Prelude.{
  ℕ, ◌+◌, String, Bool, true, false, Option, none, some, ◌≡◌, refl, sym, subst, inl, inr, arith,
  Bool-cases, if◌then◌else◌, eq_refl, or_else, ltb, [], ◌∙◌,
}
use codegen_orchestrator.Prelude.Table
use codegen_orchestrator.Contracts.Column.{Column, known}
use codegen_orchestrator.Contracts.Json
use codegen_orchestrator.Contracts.Json.{Json, truthy}
use codegen_orchestrator.Contracts.Run.{
  Run, RunStatus, is_terminal, cancelled, dispatch_claimed_at_key, dispatch_lease_expires_at_key,
  dispatch_superseded_at_key, dispatch_lease, superseded, lease_live, DeployDispatchSupersede,
}
use codegen_orchestrator.Session.{Db, Env, ok, respond, opened, ◌>>=◌}
use codegen_orchestrator.Actor.{Caller, require_internal_or_admin}
use codegen_orchestrator.Runs.Rows.{
  run_key, find_run, lock_run, claimed_at, lease_expires_at, is_superseded,
}
use codegen_orchestrator.Runs.Boundary.{
  claim_run_dispatch, supersede_run_dispatch, supersede_open, supersede_answer, claimed_run,
  superseded_run,
}
use codegen_orchestrator.Runs.Claims.{claimed_at-Claimed, get-claimed_run}

lease_expires_at-claimed_run :
    (now t : ℕ) (r : Run)
    → lease_expires_at (claimed_run now t r) ≡ ok (some (now + dispatch_lease))
unfolding claimed_run lease_expires_at truthy
lease_expires_at-claimed_run now t r = ground (
  arith,
  Json.get-put dispatch_lease_expires_at_key dispatch_lease_expires_at_key
      (Json.moment (now + dispatch_lease))
      (Json.put dispatch_claimed_at_key (Json.moment t) (or_else r.run_metadata [])),
)

is_superseded-claimed_run :
    (now t : ℕ) (r : Run) → is_superseded (claimed_run now t r) ≡ is_superseded r
unfolding claimed_run is_superseded
is_superseded-claimed_run now t r = ground (
  arith,
  Json.get-put dispatch_lease_expires_at_key dispatch_superseded_at_key
      (Json.moment (now + dispatch_lease))
      (Json.put dispatch_claimed_at_key (Json.moment t) (or_else r.run_metadata [])),
  Json.get-put dispatch_claimed_at_key dispatch_superseded_at_key (Json.moment t)
      (or_else r.run_metadata []),
)

-- A service that acts for itself.
abbrev pub service : Caller
service = record { is_internal = true; telegram_id = none }

require_internal_or_admin-service :
    (db : Db) → require_internal_or_admin service (opened db) ≡ (ok tt, opened db)
unfolding require_internal_or_admin ◌>>=◌
require_internal_or_admin-service db = refl

-- A claim of a run whose outcome is open, as a sweep finds it.
module _ (later : Env) (reason : String) (db : Db) (run : Run) (s : RunStatus) (since expires : ℕ)
    (e : find_run run.id db ≡ some run) (k : run.status ≡ known s)
    (o : is_terminal run.status ≡ false) (c : claimed_at run ≡ ok (some since))
    (l : lease_expires_at run ≡ ok (some expires)) (n : is_superseded run ≡ false) where
  supersede-live :
      ltb later.now expires ≡ true
      → respond (supersede_run_dispatch later service run.id reason) db ≡ record {
        answer = ok (record {
          run_id = run.id;
          outcome = lease_live;
          run_status = s;
          claimed_at = some since;
          lease_expires_at = some expires;
        });
        db = db;
        sent = [];
      }
  unfolding supersede_run_dispatch supersede_open supersede_answer lock_run ◌>>=◌
  supersede-live h = ground (arith, require_internal_or_admin-service db)

  supersede-expired :
      ltb later.now expires ≡ false
      → respond (supersede_run_dispatch later service run.id reason) db ≡ record {
        answer = ok (record {
          run_id = run.id;
          outcome = superseded;
          run_status = cancelled;
          claimed_at = some since;
          lease_expires_at = some expires;
        });
        db = record db { runs = Table.save run_key (superseded_run later.now reason run) db.runs };
        sent = [];
      }
  unfolding supersede_run_dispatch supersede_open supersede_answer superseded_run lock_run ◌>>=◌
  supersede-expired h = ground (arith, require_internal_or_admin-service db)

-- The status column of a run, if there is one.
abbrev pub status_of : String → Db → Option (Column RunStatus)
status_of id db = elim (find_run id db) [ none ↦ none | some r ↦ some r.status ]

-- What a sweep is answered.
abbrev pub swept : Bool → RunStatus → String → (since expires : ℕ) → DeployDispatchSupersede
swept live s id since expires = record {
  run_id = id;
  outcome = if live then lease_live else superseded;
  run_status = if live then s else cancelled;
  claimed_at = some since;
  lease_expires_at = some expires;
}

claim_run_dispatch-db :
    (env : Env) (db : Db) (run : Run) (earlier : Option ℕ)
    → find_run run.id db ≡ some run
    → is_terminal run.status ≡ false
    → claimed_at run ≡ ok earlier
    → (respond (claim_run_dispatch env service run.id) db).db ≡ record db {
      runs = Table.save run_key (claimed_run env.now (or_else earlier env.now) run) db.runs;
    }
unfolding claim_run_dispatch lock_run ◌>>=◌
claim_run_dispatch-db env db run earlier e o c =
    ground (arith, require_internal_or_admin-service db)

-- A sweep that finds a stored claim, by whether its lease still runs.
supersede-stored :
    (later : Env) (reason : String) (db : Db) (run : Run) (s : RunStatus) (since expires : ℕ)
    → find_run run.id db ≡ some run
    → run.status ≡ known s
    → is_terminal run.status ≡ false
    → claimed_at run ≡ ok (some since)
    → lease_expires_at run ≡ ok (some expires)
    → is_superseded run ≡ false
    → ((respond (supersede_run_dispatch later service run.id reason) db).answer
        ≡ ok (swept (ltb later.now expires) s run.id since expires))
      × (status_of run.id (respond (supersede_run_dispatch later service run.id reason) db).db
          ≡ some (known (if ltb later.now expires then s else cancelled)))
unfolding superseded_run
supersede-stored later reason db run s since expires e k o c l n =
    elim (Bool-cases (ltb later.now expires)) [
      | inl h ↦
          let live = supersede-live later reason db run s since expires e k o c l n h in
          (ground (arith, live), ground (arith, live))
      | inr h ↦
          let gone = supersede-expired later reason db run s since expires e k o c l n h in
          (
            ground (arith, gone),
            ground (
              arith,
              gone,
              Table.find-save run_key (superseded_run later.now reason run) run.id db.runs,
              eq_refl run.id,
            ),
          )
    ]

-- A sweep that follows a granted claim waits while the claim's lease of five minutes runs, and
-- leaves the run's status; from the moment the lease ends it takes the claim back and the run is
-- `cancelled`. The run is stored in an open status with a readable stamp, not yet taken back, and
-- both requests come from services.
pub supersede_run_dispatch-lease :
    (env later : Env) (reason : String) (db : Db) (run : Run) (s : RunStatus) (earlier : Option ℕ)
    → find_run run.id db ≡ some run
    → run.status ≡ known s
    → is_terminal run.status ≡ false
    → claimed_at run ≡ ok earlier
    → is_superseded run ≡ false
    → let after = (respond (claim_run_dispatch env service run.id) db).db in
      let live = ltb later.now (env.now + dispatch_lease) in
      ((respond (supersede_run_dispatch later service run.id reason) after).answer
        ≡ ok (swept live s run.id (or_else earlier env.now) (env.now + dispatch_lease)))
      × (status_of run.id (respond (supersede_run_dispatch later service run.id reason) after).db
          ≡ some (known (if live then s else cancelled)))
unfolding claimed_run
supersede_run_dispatch-lease env later reason db run s earlier e k o c n =
    let since = or_else earlier env.now in
    let row = claimed_run env.now since run in
    let after = record db { runs = Table.save run_key row db.runs } in
    subst
      (λ d.
        ((respond (supersede_run_dispatch later service run.id reason) d).answer
          ≡ ok (
              swept (ltb later.now (env.now + dispatch_lease)) s run.id since
                (env.now + dispatch_lease)))
        × (status_of run.id (respond (supersede_run_dispatch later service run.id reason) d).db
            ≡ some (known (if ltb later.now (env.now + dispatch_lease) then s else cancelled))))
      (sym (claim_run_dispatch-db env db run earlier e o c))
      (supersede-stored later reason after row s since (env.now + dispatch_lease)
        (ground (arith, Table.find-save run_key row run.id db.runs, eq_refl run.id)) k o
        (claimed_at-Claimed since row (get-claimed_run env.now since run))
        (lease_expires_at-claimed_run env.now since run)
        (is_superseded-claimed_run env.now since run ∙ n))
