-- ===== src/Owners/Sweep.antt =====
-- services/scheduler/src/tasks/owner_notifications.py: `supervise_owed_owner_notifications`, and the
-- list of services/api/src/routers/runs.py that it works through.
use codegen_orchestrator.Prelude.{
  ℕ, zero, suc, String, Bool, false, Option, none, some, List, [], ◌∷◌, ◌=ₛ◌, filter, or_else,
}
use codegen_orchestrator.Contracts.Json
use codegen_orchestrator.Contracts.Json.{Json, Dict, lookup_field}
use codegen_orchestrator.Contracts.Run.{Run}
use codegen_orchestrator.Session.{Handler, Fault, Result, ok, err, internal, gets, ◌>>=◌ as bind}
use codegen_orchestrator.Actor.{Caller, require_internal_or_admin}
use codegen_orchestrator.Runs.Rows.{metadata_value}
use codegen_orchestrator.Dispatch.Client.{Client, request, return, from_result, ◌>>=◌}
use codegen_orchestrator.Dispatch.Recipient.{service}
use codegen_orchestrator.Dispatch.Attempts.{read_run, RunView}
use codegen_orchestrator.Owners.Record.{OwnerNotification, Codec}
use codegen_orchestrator.Owners.Delivery.{
  Outcome, notification_key, read_owner_notification, deliver_owed_notification,
}

abbrev state_is_owed : Option Json → Bool
state_is_owed (some (Json.object f)) = elim (lookup_field "state" f) [
  | some (Json.text t) ↦ t =ₛ "owed"
  | _ ↦ false
]
state_is_owed _ = false

unfoldable pub owes : Run → Bool
unfolding lookup_field Json.get
owes r = state_is_owed (metadata_value notification_key r)

-- `limit(n)`
unfoldable pub limit : {A : Type 0} → ℕ → List A → List A
limit zero xs = []
limit (suc n) [] = []
limit (suc n) (x ∷ xs) = x ∷ limit n xs

unfoldable pub list_runs_owing_owner_notification : Caller → (page : ℕ) → Handler (List Run)
unfolding owes limit require_internal_or_admin
list_runs_owing_owner_notification caller page =
    bind (require_internal_or_admin caller) (λ _. gets (λ db. limit page (filter owes db.runs)))

abbrev cons_view :
    Result RunView → Run → Result (List (String × Dict)) → Result (List (String × Dict))
cons_view (err f) r rest = err f
cons_view (ok v) r (err f) = err f
cons_view (ok v) r (ok rs) = ok ((r.id, or_else r.run_metadata []) ∷ rs)

-- `RunDTO.model_validate` of every row, of which the id and the metadata are read.
unfoldable pub check_runs : List Run → Result (List (String × Dict))
unfolding read_run
check_runs [] = ok []
check_runs (r ∷ rs) = cons_view (read_run r) r (check_runs rs)

-- A run that was selected and carries no record is an error.
abbrev carried : Option OwnerNotification → Result OwnerNotification
carried none = err internal
carried (some r) = ok r

module _ ⦃codec : Codec⦄ where
  module _ (explain : Fault → String) where
    -- The outcomes, one for each run that was visited; the source returns how often each occurred.
    unfoldable pub visit_each : List (String × Dict) → Client (List Outcome)
    unfolding read_owner_notification deliver_owed_notification
    visit_each [] = return []
    visit_each ((run_id, metadata) ∷ rest) = do
      read ← from_result (read_owner_notification metadata)
      r ← from_result (carried read)
      outcome ← deliver_owed_notification explain run_id r
      outcomes ← visit_each rest
      return (outcome ∷ outcomes)

    unfoldable pub supervise_owed_owner_notifications : Client (List Outcome)
    unfolding list_runs_owing_owner_notification check_runs visit_each
    supervise_owed_owner_notifications = do
      rows ← request (λ env. list_runs_owing_owner_notification service 100)
      runs ← from_result (check_runs rows)
      visit_each runs
