-- ===== src/Runs/Update.antt =====
-- services/api/src/routers/runs.py: creating runs and recording what became of them.
use codegen_orchestrator.Prelude.{
  ℕ, String, Bool, true, false, Option, none, some, [], ◌∷◌, ◌++◌, ◌||◌, ◌&&◌, not, ◌==◌, ◌=ₛ◌,
  if◌then◌else◌, or_else, is_some, ◌≡◌, ◌⊎◌, refl, inl, inr, arith, Option-cases, Bool-cases,
}
use codegen_orchestrator.Contracts.Column.{Column, known, column_eq, Patch, unset, set, patched}
use codegen_orchestrator.Contracts.Json.{Json, Dict, json_eq, merge}
use codegen_orchestrator.Contracts.Run.{
  Run, RunStatus, queued, is, is_terminal, RunUpdate, RunCreate,
}
use codegen_orchestrator.Recipients.{find_user}
use codegen_orchestrator.Session.{
  Env, Session, Fault, Handler, ok, err, forbidden, not_found, conflict, internal, pure, raise,
  lift, gets, require, modify, commit, check, ◌>>=◌, ◌>>◌,
}
use codegen_orchestrator.Actor.{Caller, resolve_actor, may_act}
use codegen_orchestrator.Runs.Rows.{
  find_run, lock_run, save_run, first_completion, has_recorded_outcome, read_back,
}

-- `requested_status is not None and requested_status not in _TERMINAL_RUN_STATUSES`
abbrev pub reopens : Patch (Column RunStatus) → Bool
reopens unset = false
reopens (set none) = false
reopens (set (some s)) = not (is_terminal s)

abbrev pub ends : Patch (Column RunStatus) → Bool
ends unset = false
ends (set none) = false
ends (set (some s)) = is_terminal s

-- A field of the update that differs from the recorded one.
abbrev pub differs {ℓ} : {A : Type ℓ} → (A → A → Bool) → Patch A → Option A → Bool
differs same unset old = false
differs same (set none) none = false
differs same (set none) (some o) = true
differs same (set (some n)) none = true
differs same (set (some n)) (some o) = not (same n o)

-- The result is rewritten, where a `null` in the request is `None`.
unfoldable pub rewrites_result : Patch Json → Option Json → Bool
rewrites_result unset old = false
rewrites_result (set new) old = differs json_eq (set (read_back new)) (read_back old)

-- One of the outcome fields is rewritten.
unfoldable pub rewrites : RunUpdate → Run → Bool
rewrites update run =
    differs (column_eq is) update.status (some run.status)
    || rewrites_result update.result run.result
    || differs ◌=ₛ◌ update.error_message run.error_message

abbrev pub merged : Patch Dict → Option Dict → Option Dict
merged unset old = old
merged (set none) old = none
merged (set (some new)) old = some (merge (or_else old []) new)

-- The `setattr` loop of `update_run`, after the terminal stamp. The caller's own `completed_at` is
-- dropped.
unfoldable pub updated_run : ℕ → RunUpdate → Column RunStatus → Run → Run
updated_run now update status run = record run {
  status = status;
  run_metadata = merged update.run_metadata run.run_metadata;
  result = patched update.result run.result;
  error_message = patched update.error_message run.error_message;
  error_traceback = patched update.error_traceback run.error_traceback;
  started_at = patched update.started_at run.started_at;
  completed_at = if ends update.status then first_completion now run else run.completed_at;
  iteration = patched update.iteration run.iteration;
  observability = merge run.observability update.observability;
}

-- The status column after the loop; it is not nullable, and `none` is what the commit refuses.
abbrev pub next_status : Patch (Column RunStatus) → Column RunStatus → Option (Column RunStatus)
next_status unset old = some old
next_status (set new) old = new

unfoldable pub update_run : Env → Caller → String → RunUpdate → Handler Run
unfolding lock_run resolve_actor save_run
update_run env caller id update = do
  run ← lock_run id
  actor ← resolve_actor caller
  lift (check (may_act actor) forbidden)
  lift (check (not (is_terminal run.status && reopens update.status)) conflict)
  lift (
      check (not (is_terminal run.status && has_recorded_outcome run && rewrites update run))
        conflict)
  status ← lift (require internal (next_status update.status run.status))
  save_run (updated_run env.now update status run)
  commit
  pure (updated_run env.now update status run)

unfoldable pub new_run : RunCreate → Run
new_run body = record {
  id = body.id;
  type = body.type;
  status = known queued;
  project_id = body.project_id;
  user_id = body.user_id;
  run_metadata = some body.run_metadata;
  result = none;
  error_message = none;
  error_traceback = none;
  started_at = none;
  completed_at = none;
  callback_stream = body.callback_stream;
  story_id = body.story_id;
  task_id = body.task_id;
  iteration = none;
  observability = [];
}

-- A user id of 0 is as good as none.
unfoldable pub check_user : Option ℕ → Handler (Unit {0})
check_user none = pure tt
check_user (some id) =
    if id == 0
    then pure tt
    else do found ← gets (λ db. find_user id db.users); _ ← lift (require not_found found); pure tt

pub check_user-cases :
    (user : Option ℕ) (s : Session)
    → ((f : Fault) × (check_user user s ≡ (err f, s))) ⊎ (check_user user s ≡ (ok tt, s))
unfolding check_user ◌>>=◌
check_user-cases none s = inr refl
check_user-cases (some id) s = elim (Bool-cases (id == 0)) [
  | inl z ↦ inr (ground arith)
  | inr z ↦ elim (Option-cases (find_user id s.working.users)) [
    | inl m ↦ inl (not_found, ground arith)
    | inr (u, m) ↦ inr (ground arith)
  ]
]

unfoldable pub create_run : Env → RunCreate → Handler Run
unfolding check_user new_run
create_run env body = do
  check_user body.user_id
  taken ← gets (find_run body.id)
  if is_some taken then raise internal else do
    modify (λ db. record db { runs = db.runs ++ (new_run body ∷ []) })
    if env.keys_valid then commit else raise internal
    pure (new_run body)
