-- ===== src/Owners/Delivery.antt =====
-- services/scheduler/src/tasks/owner_notifications.py: writing down a message that is owed, and one
-- visit to it. `explain` stands for Python's text of an exception.
use Prim.Native.String.{◌++◌ as append}
use codegen_orchestrator.Prelude.{
  ℕ, suc, String, Bool, true, false, Option, none, some, [], ◌∷◌, not, leb, if◌then◌else◌,
}
use codegen_orchestrator.Contracts.Column.{known, unknown, unset, set}
use codegen_orchestrator.Contracts.Json
use codegen_orchestrator.Contracts.Json.{Json, Dict}
use codegen_orchestrator.Contracts.Message.{Message, owner_event}
use codegen_orchestrator.Contracts.Run.{RunUpdate}
use codegen_orchestrator.Contracts.Story.{Story, StoryStatus, StoryType, value}
use codegen_orchestrator.Contracts.Story as StoryRow
use codegen_orchestrator.Session.{Fault, Result, ok, err, internal, discard}
use codegen_orchestrator.Stories.Actions as Endpoint
use codegen_orchestrator.Runs.Update.{update_run}
use codegen_orchestrator.Dispatch.Client.{
  Client, request, return, from_result, outcome, publish, ◌>>=◌, ◌>>◌,
}
use codegen_orchestrator.Dispatch.Recipient.{service, Recipient, resolve_project_recipient}
use codegen_orchestrator.Owners.Record.{
  OwnerNotification, OwnerNotificationState, owed, delivered, unaddressable, abandoned, voided,
  is_owed, Codec,
}

abbrev pub max_attempts : ℕ
max_attempts = 3

abbrev pub notification_key : String
notification_key = "owner_notification"

pub data Outcome : Type 0 where
  delivery retrying exhausted refusal void skipped : Outcome

abbrev pub as_some : Result OwnerNotification → Result (Option OwnerNotification)
as_some (ok r) = ok (some r)
as_some (err f) = err f

-- A record that settles the matter, or none.
abbrev pub still_counts : Option OwnerNotification → Option OwnerNotification
still_counts none = none
still_counts (some r) = elim r.state [ voided ↦ none | _ ↦ some r ]

-- What the caller of `owe_owner_notification` passes on.
pub record Ending : Type 0 where
  pub event : String
  pub text : String
  pub story_id : String
  pub project_id : String
  pub terminal_status : StoryStatus
  pub task_id : Option String

unfoldable pub owed_record : Ending → (now : ℕ) → OwnerNotification
owed_record e now = record {
  event = e.event;
  text = e.text;
  story_id = e.story_id;
  project_id = e.project_id;
  terminal_status = e.terminal_status;
  task_id = e.task_id;
  state = owed;
  owed_at = now;
  attempts = 0;
  detail = none;
}

unfoldable pub settled :
    OwnerNotification
    → OwnerNotificationState
    → (detail : Option String) → (attempts : ℕ) → OwnerNotification
settled r state detail attempts = record r { state = state; detail = detail; attempts = attempts }

abbrev pub check_story : Story → Result StoryStatus
check_story s = elim s.status [ unknown _ ↦ err internal | known status ↦ ok status ]

-- `api_client.get_story(story_id)`, of which the status is read.
unfoldable pub get_story_status : String → Client StoryStatus
get_story_status id = do
  story ← request (λ env. Endpoint.get_story id)
  from_result (check_story story)

abbrev pub subject : OwnerNotification → String
subject r = elim r.task_id [ none ↦ r.story_id | some id ↦ id ]

unfoldable pub event_of : OwnerNotification → Recipient → Message
event_of r recipient =
    owner_event r.event (subject r) r.text r.story_id recipient.telegram_chat_id
      recipient.owner_user_id r.project_id

module _ ⦃codec : Codec⦄ where
  unfoldable pub record_update : OwnerNotification → RunUpdate
  record_update record' = record {
    status = unset;
    run_metadata = set (some ((notification_key, codec.model_dump record') ∷ []));
    result = unset;
    error_message = unset;
    error_traceback = unset;
    started_at = unset;
    completed_at = unset;
    iteration = unset;
    observability = [];
  }

  unfoldable pub write_record : (run_id : String) → OwnerNotification → Client (Unit {0})
  unfolding record_update
  write_record run_id r = request (λ env. discard (update_run env service run_id (record_update r)))

  abbrev pub read_stored : Option Json → Result (Option OwnerNotification)
  read_stored none = ok none
  read_stored (some Json.null) = ok none
  read_stored (some v) = as_some (codec.model_validate v)

  unfoldable pub read_owner_notification : (run_metadata : Dict) → Result (Option OwnerNotification)
  unfolding Json.get
  read_owner_notification metadata = read_stored (Json.get notification_key metadata)

  abbrev owe_anew : (run_id : String) → Ending → Option OwnerNotification → Client OwnerNotification
  owe_anew run_id e (some existing) w = return existing w
  owe_anew run_id e none w =
      let r = owed_record e (w.coming 0).env.now in (write_record run_id r >> return r) w

  unfoldable pub owe_owner_notification :
      (run_id : String) (run_metadata : Dict) → Ending → Client OwnerNotification
  unfolding read_owner_notification owed_record write_record
  owe_owner_notification run_id metadata e = do
    existing ← from_result (read_owner_notification metadata)
    owe_anew run_id e (still_counts existing)

  unfoldable pub settle :
      (run_id : String)
      → OwnerNotification
      → OwnerNotificationState
      → (detail : Option String) → (attempts : ℕ) → Client (Unit {0})
  unfolding settled write_record
  settle run_id r state detail attempts = write_record run_id (settled r state detail attempts)

  -- The log lines and the alert to the administrators change nothing.
  unfoldable pub spend_failed_attempt :
      (run_id : String) → OwnerNotification → (attempts : ℕ) (error : String) → Client Outcome
  unfolding settle
  spend_failed_attempt run_id r attempts error =
      if leb max_attempts attempts
      then (do settle run_id r abandoned (some error) attempts; return exhausted)
      else (do settle run_id r owed (some error) attempts; return retrying)

  -- Whether the event was published; otherwise the recipient has no chat.
  unfoldable pub send_to :
      (run_id : String) → OwnerNotification → Recipient → Option ℕ → Client Bool
  unfolding settle event_of
  send_to run_id r recipient none = do
    settle run_id r unaddressable (some recipient.unaddressed_reason) (suc r.attempts)
    return false
  send_to run_id r recipient (some chat) = do publish (event_of r recipient); return true

  -- The body of the second `try`.
  unfoldable pub send : (run_id : String) → OwnerNotification → Client Bool
  unfolding send_to
  send run_id r = do
    recipient ← resolve_project_recipient r.project_id
    send_to run_id r recipient recipient.telegram_chat_id

  module _ (explain : Fault → String) (run_id : String) (r : OwnerNotification) where
    unfoldable pub after_send : Result Bool → Client Outcome
    unfolding spend_failed_attempt settle
    after_send (err f) = spend_failed_attempt run_id r (suc r.attempts) (explain f)
    after_send (ok false) = return refusal
    after_send (ok true) = do settle run_id r delivered none (suc r.attempts); return delivery

    abbrev pub mismatch : StoryStatus → String
    mismatch s = append "story is " (append (value s) (append ", not " (value r.terminal_status)))

    unfoldable pub after_story : Result StoryStatus → Client Outcome
    unfolding spend_failed_attempt settle send after_send
    after_story (err f) = spend_failed_attempt run_id r (suc r.attempts) (explain f)
    after_story (ok s) =
        if StoryRow.is s r.terminal_status
        then (do sent ← outcome (send run_id r); after_send sent)
        else (do settle run_id r voided (some (mismatch s)) r.attempts; return void)

    unfoldable pub deliver_owed_notification : Client Outcome
    unfolding get_story_status after_story
    deliver_owed_notification =
        if not (is_owed r.state)
        then return skipped
        else do story ← outcome (get_story_status r.story_id); after_story story
