-- ===== src/Contracts/Run.antt =====
-- shared/contracts/dto/run.py, shared/contracts/dto/deploy_dispatch.py, shared/models/run.py: run
-- statuses, the answers of the dispatch boundary, and the rows of `runs`.
use codegen_orchestrator.Prelude.{
  ℕ, ◌*◌, String, Bool, true, false, Option, ◌==◌, ◌≡◌, refl, sym, ap, ◌∙◌, arith, if◌then◌else◌,
}
use codegen_orchestrator.Contracts.Column.{Column, known, unknown, Patch}
use codegen_orchestrator.Contracts.Json.{Json, Dict}

pub data RunStatus : Type 0 where
  queued running completed failed cancelled : RunStatus

pub data RunType : Type 0 where
  engineering deploy qa : RunType

-- The member's place in the enumeration, by which members are compared.
abbrev position : RunStatus → ℕ
position queued = 0
position running = 1
position completed = 2
position failed = 3
position cancelled = 4

abbrev pub is : RunStatus → RunStatus → Bool
is s t = position s == position t

member_at : ℕ → RunStatus
member_at n =
    if n == 0
    then queued
    else if n == 1
    then running
    else if n == 2
    then completed
    else if n == 3
    then failed
    else cancelled

member_at-position : (s : RunStatus) → member_at (position s) ≡ s
unfolding member_at
member_at-position queued = refl
member_at-position running = refl
member_at-position completed = refl
member_at-position failed = refl
member_at-position cancelled = refl

position_injective : (s t : RunStatus) → position s ≡ position t → s ≡ t
position_injective s t h = sym (member_at-position s) ∙ ap member_at h ∙ member_at-position t

-- Members that the test takes for the same are the same.
pub is_sound : (s t : RunStatus) → is s t ≡ true → s ≡ t
is_sound s t h = position_injective s t (ground arith)

-- `_TERMINAL_RUN_STATUSES`, asked of a column's text.
abbrev pub is_terminal : Column RunStatus → Bool
is_terminal (known completed) = true
is_terminal (known failed) = true
is_terminal (known cancelled) = true
is_terminal (known _) = false
is_terminal (unknown _) = false

abbrev pub is_qa : Column RunType → Bool
is_qa (known qa) = true
is_qa (known _) = false
is_qa (unknown _) = false

-- A row of `runs`. `observability` holds the columns `input_tokens` … `transcript_truncated`.
pub record Run : Type 0 where
  pub id : String
  pub type : Column RunType
  pub status : Column RunStatus
  pub project_id : Option String
  pub user_id : Option ℕ
  pub run_metadata : Option Dict
  pub result : Option Json
  pub error_message : Option String
  pub error_traceback : Option String
  pub started_at : Option ℕ
  pub completed_at : Option ℕ
  pub callback_stream : Option String
  pub story_id : Option String
  pub task_id : Option String
  pub iteration : Option ℕ
  pub observability : Dict

-- The body of `PATCH /runs/{run_id}`.
pub record RunUpdate : Type 0 where
  pub status : Patch (Column RunStatus)
  pub run_metadata : Patch Dict
  pub result : Patch Json
  pub error_message : Patch String
  pub error_traceback : Patch String
  pub started_at : Patch ℕ
  pub completed_at : Patch ℕ
  pub iteration : Patch ℕ
  pub observability : Dict

-- The body of `POST /runs/`.
pub record RunCreate : Type 0 where
  pub id : String
  pub type : Column RunType
  pub project_id : Option String
  pub user_id : Option ℕ
  pub story_id : Option String
  pub task_id : Option String
  pub run_metadata : Dict
  pub callback_stream : Option String

abbrev pub dispatch_claimed_at_key : String
dispatch_claimed_at_key = "dispatch_claimed_at"

abbrev pub dispatch_lease_expires_at_key : String
dispatch_lease_expires_at_key = "dispatch_lease_expires_at"

abbrev pub dispatch_superseded_at_key : String
dispatch_superseded_at_key = "dispatch_superseded_at"

-- Five minutes, in microseconds.
abbrev pub dispatch_lease : ℕ
dispatch_lease = 5 * 60 * 1000000

pub record DeployRunStart : Type 0 where
  pub run_id : String
  pub started : Bool
  pub run_status : RunStatus

pub record DeployDispatchClaim : Type 0 where
  pub run_id : String
  pub granted : Bool
  pub run_status : RunStatus
  pub claimed_at : Option ℕ
  pub lease_expires_at : Option ℕ

pub data DispatchWithdrawal : Type 0 where
  withdrawn already_dispatched already_terminal : DispatchWithdrawal

pub record DeployDispatchWithdrawal : Type 0 where
  pub run_id : String
  pub outcome : DispatchWithdrawal
  pub run_status : RunStatus
  pub claimed_at : Option ℕ

pub data DispatchSupersede : Type 0 where
  superseded already_settled not_claimed lease_live : DispatchSupersede

pub record DeployDispatchSupersede : Type 0 where
  pub run_id : String
  pub outcome : DispatchSupersede
  pub run_status : RunStatus
  pub claimed_at : Option ℕ
  pub lease_expires_at : Option ℕ
