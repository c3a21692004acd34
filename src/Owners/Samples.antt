-- ===== src/Owners/Samples.antt =====
-- Tests of owner notifications, and their theorems at a concrete record.
use codegen_orchestrator.Prelude.{
  ◌+◌, ◌≤◌, String, none, some, [], ◌∷◌, ◌≡◌, refl, length, arith, ◌==◌, if◌then◌else◌,
}
use codegen_orchestrator.Prelude.Table
use codegen_orchestrator.Contracts.Json
use codegen_orchestrator.Contracts.Run.{RunStatus, RunType}
use codegen_orchestrator.Contracts.Story as Story
use codegen_orchestrator.Contracts.Story.{value}
use codegen_orchestrator.Session.{Db, Fault, Result, ok, ◌>>=◌, discard}
use codegen_orchestrator.Actor.{resolve_actor}
use codegen_orchestrator.Stories.Actions as Endpoint
use codegen_orchestrator.Recipients.{find_user}
use codegen_orchestrator.Runs.Rows.{lock_run, save_run, read_back}
use codegen_orchestrator.Runs.Update.{update_run, updated_run, rewrites, rewrites_result}
use codegen_orchestrator.Dispatch.Client.{answered, lost_request, lost_reply, Circumstance, World}
use codegen_orchestrator.Dispatch.Client as Client
use codegen_orchestrator.Dispatch.Recipient.{get_project, get_user, resolve_project_recipient}
use codegen_orchestrator.Owners.Record.{OwnerNotification, owed}
use codegen_orchestrator.Owners.Fields.{by_fields, dump, validate}
use codegen_orchestrator.Owners.Delivery.{
  Outcome, delivery, retrying, max_attempts, deliver_owed_notification, write_record,
  read_owner_notification, after_send, send,
}
use codegen_orchestrator.Owners.Written.{Carries, carries}
use codegen_orchestrator.Owners.Bounded.{no_visit, visit, Visits-bounded}
use codegen_orchestrator.Owners.Truthful.{Sent, deliver_owed_notification-Sent}
use codegen_orchestrator.Fixtures.{env_at, story_with, run_with, with_stories}

abbrev explained : Fault → String
explained f = "no answer"

abbrev finished : OwnerNotification
finished = record {
  event = "story_completed";
  text = "Your product is ready";
  story_id = "s";
  project_id = "p";
  terminal_status = Story.completed;
  task_id = none;
  state = owed;
  owed_at = 100;
  attempts = 0;
  detail = none;
}

abbrev well : Circumstance
well = record { fate = answered; env = env_at 200 "abc" }

abbrev rows : Db
rows = record (with_stories (story_with Story.completed ∷ [])) {
  runs = run_with RunType.qa RunStatus.completed ∷ [];
}

abbrev waiting : World
waiting = record { db = rows; queue = []; coming = λ n. well }

-- The request for the story is lost.
abbrev unlucky : World
unlucky = record waiting {
  coming = λ n. if n == 0 then record { fate = lost_request; env = env_at 200 "abc" } else well;
}

unfoldable visited : World → Result Outcome × World
unfolding deliver_owed_notification Client.◌>>=◌ Client.request Client.publish Client.outcome
    Client.if_missing ◌>>=◌ discard update_run updated_run rewrites rewrites_result read_back
    lock_run save_run resolve_actor Endpoint.get_story get_project get_user
    resolve_project_recipient find_user Table.find Table.save Json.merge Json.put after_send send
    write_record
visited w = deliver_owed_notification explained "r" finished w

delivered_once : ((visited waiting).0 ≡ ok delivery) × (length (visited waiting).1.queue ≡ 1)
unfolding visited
delivered_once = (refl, refl)

chased : ((visited unlucky).0 ≡ ok retrying) × (length (visited unlucky).1.queue ≡ 0)
unfolding visited
chased = (refl, refl)

abbrev tried : OwnerNotification
tried = record finished { attempts = 1; detail = some "no answer" }

chased-Carries : Carries "r" tried (visited unlucky).1.db
unfolding visited read_owner_notification dump validate
chased-Carries = carries _ refl refl

Visits-bounded_example : 1 + finished.attempts ≤ max_attempts
unfolding visited
Visits-bounded_example =
    Visits-bounded explained "r" 1 finished
      (visit finished tried unlucky (visited unlucky).1 retrying refl refl chased-Carries
        (no_visit tried))
      (ground arith)

deliver_owed_notification-Sent_example :
    Sent finished rows [] (deliver_owed_notification explained "r" finished waiting).1.queue
deliver_owed_notification-Sent_example =
    deliver_owed_notification-Sent explained "r" finished waiting
