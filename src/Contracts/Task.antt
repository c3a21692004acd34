-- ===== src/Contracts/Task.antt =====
-- shared/contracts/dto/task.py and shared/models/task.py: task statuses, the transition table, and
-- the rows of `tasks` and `task_events`.
use codegen_orchestrator.Prelude.{
  ℕ, String, Bool, Option, List, [], ◌∷◌, ◌≡◌, refl, ◌==◌, any, ◌=ₛ◌, if◌then◌else◌,
}
use codegen_orchestrator.Prelude.Int.{ℤ}
use codegen_orchestrator.Contracts.Column.{Column, known, unknown}
use codegen_orchestrator.Contracts.Json.{Json, Dict}

pub data TaskStatus : Type 0 where
  backlog todo in_dev in_ci testing done blocked waiting_human_review waiting_resources failed
        cancelled :
      TaskStatus

pub data TaskType : Type 0 where
  create feature fix refactor : TaskType

pub data TaskEventType : Type 0 where
  status_change iteration_start iteration_end note comment worker_report : TaskEventType

-- The member's place in the enumeration, by which members are compared.
abbrev position : TaskStatus → ℕ
position backlog = 0
position todo = 1
position in_dev = 2
position in_ci = 3
position testing = 4
position done = 5
position blocked = 6
position waiting_human_review = 7
position waiting_resources = 8
position failed = 9
position cancelled = 10

abbrev pub is : TaskStatus → TaskStatus → Bool
is s t = position s == position t

-- `StrEnum` values, as stored in the column.
unfoldable pub value : TaskStatus → String
value backlog = "backlog"
value todo = "todo"
value in_dev = "in_dev"
value in_ci = "in_ci"
value testing = "testing"
value done = "done"
value blocked = "blocked"
value waiting_human_review = "waiting_human_review"
value waiting_resources = "waiting_resources"
value failed = "failed"
value cancelled = "cancelled"

abbrev pub all_statuses : List TaskStatus
all_statuses =
    backlog ∷ todo ∷ in_dev ∷ in_ci ∷ testing ∷ done ∷ blocked ∷ waiting_human_review
    ∷ waiting_resources ∷ failed ∷ cancelled ∷ []

lookup_value : String → List TaskStatus → Column TaskStatus
unfolding value
lookup_value text [] = unknown text
lookup_value text (s ∷ rest) = if value s =ₛ text then known s else lookup_value text rest

-- `TaskStatus(text)`
unfoldable pub read_status : String → Column TaskStatus
unfolding lookup_value
read_status text = lookup_value text all_statuses

pub read_status-value : (s : TaskStatus) → read_status (value s) ≡ known s
unfolding read_status
read_status-value backlog = refl
read_status-value _ = refl

-- VALID_TRANSITIONS
unfoldable pub valid_transitions : TaskStatus → List TaskStatus
valid_transitions backlog = todo ∷ cancelled ∷ []
valid_transitions todo = in_dev ∷ backlog ∷ cancelled ∷ []
valid_transitions in_dev =
    in_ci ∷ blocked ∷ waiting_human_review ∷ waiting_resources ∷ failed ∷ cancelled ∷ []
valid_transitions in_ci = in_dev ∷ testing ∷ failed ∷ cancelled ∷ []
valid_transitions testing = done ∷ in_dev ∷ failed ∷ cancelled ∷ []
valid_transitions blocked = in_dev ∷ backlog ∷ cancelled ∷ []
valid_transitions waiting_human_review = in_dev ∷ backlog ∷ failed ∷ cancelled ∷ []
valid_transitions waiting_resources = backlog ∷ waiting_human_review ∷ cancelled ∷ []
valid_transitions done = backlog ∷ []
valid_transitions failed = backlog ∷ waiting_resources ∷ waiting_human_review ∷ cancelled ∷ []
valid_transitions cancelled = []

-- `to_s in VALID_TRANSITIONS[from_s]`
unfoldable pub can_move : TaskStatus → TaskStatus → Bool
unfolding valid_transitions
can_move s t = any (is t) (valid_transitions s)

pub record Task : Type 0 where
  pub id : String
  pub project_id : String
  pub type : Column TaskType
  pub title : String
  pub description : Option String
  pub status : Column TaskStatus
  pub priority : ℤ
  pub acceptance_criteria : Option String
  pub current_iteration : ℕ
  pub max_iterations : ℕ
  pub plan : Option String
  pub need_e2e : Bool
  pub created_by : String
  pub source_brainstorm_id : Option String
  pub repository_id : Option String
  pub story_id : Option String
  pub blocked_by_task_id : Option String
  pub failure_metadata : Option Json

pub record TaskEvent : Type 0 where
  pub task_id : String
  pub event_type : TaskEventType
  pub from_status : Option (Column TaskStatus)
  pub to_status : Option (Column TaskStatus)
  pub iteration : Option ℕ
  pub details : Dict
  pub actor : String
