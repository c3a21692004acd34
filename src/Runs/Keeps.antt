-- ===== src/Runs/Keeps.antt =====
-- What holds of a run after every sequence of requests, from what holds of one change.
use codegen_orchestrator.Prelude.{
  String, Bool, true, some, List, [], ◌∷◌, ◌≡◌, refl, sym, subst, inl, inr, arith, Bool-cases,
  eq_iff, ◌=ₛ◌, or_else, ◌&&◌, ◌∙◌, ap,
}
use codegen_orchestrator.Prelude.Table
use codegen_orchestrator.Contracts.Run.{Run}
use codegen_orchestrator.Session.{Db, Env, respond}
use codegen_orchestrator.Actor.{Caller}
use codegen_orchestrator.Runs.Rows.{run_key, find_run}
use codegen_orchestrator.Runs.Update.{new_run}
use codegen_orchestrator.Runs.Requests.{RunRequest, handle_run, serve_runs}
use codegen_orchestrator.Runs.Steps.{
  Change, RunStep, stays, insert_step, change_step, handle_run-step,
}

-- A stored run of which `P` holds.
pub data Stored (P : Run → Type 0) (id : String) (db : Db) : Type 0 where
  stored : (r : Run) → find_run id db ≡ some r → P r → Stored P id db

-- The requests of a sequence are all allowed.
abbrev pub all_allowed : (RunRequest → Bool) → List (Env × Caller × RunRequest) → Bool
all_allowed allowed [] = true
all_allowed allowed ((env, caller, q) ∷ rest) = allowed q && all_allowed allowed rest

same_row :
    (db : Db) (id : String) (r s : Run)
    → find_run r.id db ≡ some r
    → find_run id db ≡ some s
    → r.id ≡ id
    → s ≡ r
same_row db id r s e f q = ap (λ o. or_else o s) (sym f ∙ ap (λ k. find_run k db) (sym q) ∙ e)

module _ (P : Run → Type 0) (allowed : RunRequest → Bool)
    (keeps : (q : RunRequest) (r r' : Run) → allowed q ≡ true → Change q r r' → P r → P r') where
  RunStep-keeps :
      (q : RunRequest) (id : String) (db db' : Db)
      → allowed q ≡ true
      → RunStep q db db'
      → Stored P id db
      → Stored P id db'
  RunStep-keeps q id db db' a (stays e) (stored r f p) = stored r (ground (arith, e)) p
  RunStep-keeps q id db db' a (insert_step body e h) (stored r f p) =
      stored r (ground (arith, h, Table.find-append run_key (new_run body) id db.runs)) p
  RunStep-keeps q id db db' a (change_step r r' e same c h) (stored s f p) =
      elim (Bool-cases (r.id =ₛ id)) [
        | inr n ↦
            stored s
              (ground (arith, h, same, Table.find-save run_key r' id db.runs, eq_iff r.id id)) p
        | inl y ↦
            stored r'
              (ground (arith, h, same, Table.find-save run_key r' id db.runs, eq_iff r.id id))
              (keeps q r r' a c
                (subst P (same_row db id r s e f (ground (arith, eq_iff r.id id))) p))
      ]

  pub serve_runs-keeps :
      (requests : List (Env × Caller × RunRequest)) (id : String) (db : Db)
      → all_allowed allowed requests ≡ true
      → Stored P id db
      → Stored P id (serve_runs requests db)
  unfolding serve_runs
  serve_runs-keeps [] id db a h = h
  serve_runs-keeps ((env, caller, q) ∷ rest) id db a h =
      serve_runs-keeps rest id (respond (handle_run env caller q) db).db (ground arith)
        (RunStep-keeps q id db _ (ground arith) (handle_run-step env caller q db) h)

abbrev pub any_request : RunRequest → Bool
any_request q = true

pub all_allowed-any :
    (requests : List (Env × Caller × RunRequest)) → all_allowed any_request requests ≡ true
all_allowed-any [] = refl
all_allowed-any (q ∷ rest) = all_allowed-any rest
