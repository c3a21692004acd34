-- ===== src/Contracts/Story.antt =====
-- shared/contracts/dto/story.py and shared/models/story.py: story statuses, the transition table,
-- and the rows of `stories`.
use codegen_orchestrator.Prelude.{
  ℕ, String, Bool, true, Option, List, [], ◌∷◌, ◌==◌, any, ◌≡◌, refl, sym, ap, ◌∙◌, arith,
  if◌then◌else◌,
}
use codegen_orchestrator.Prelude.Int.{ℤ}
use codegen_orchestrator.Contracts.Column.{Column}
use codegen_orchestrator.Contracts.Json.{Dict}

pub data StoryStatus : Type 0 where
  created in_progress reopened pr_review deploying testing waiting_human_review waiting_user_secret
        completed failed archived :
      StoryStatus

-- The member's place in the enumeration, by which members are compared.
abbrev position : StoryStatus → ℕ
position created = 0
position in_progress = 1
position reopened = 2
position pr_review = 3
position deploying = 4
position testing = 5
position waiting_human_review = 6
position waiting_user_secret = 7
position completed = 8
position failed = 9
position archived = 10

abbrev pub is : StoryStatus → StoryStatus → Bool
is s t = position s == position t

member_at : ℕ → StoryStatus
member_at n =
    if n == 0
    then created
    else if n == 1
    then in_progress
    else if n == 2
    then reopened
    else if n == 3
    then pr_review
    else if n == 4
    then deploying
    else if n == 5
    then testing
    else if n == 6
    then waiting_human_review
    else if n == 7
    then waiting_user_secret
    else if n == 8
    then completed
    else if n == 9
    then failed
    else archived

member_at-position : (s : StoryStatus) → member_at (position s) ≡ s
unfolding member_at
member_at-position created = refl
member_at-position in_progress = refl
member_at-position reopened = refl
member_at-position pr_review = refl
member_at-position deploying = refl
member_at-position testing = refl
member_at-position waiting_human_review = refl
member_at-position waiting_user_secret = refl
member_at-position completed = refl
member_at-position failed = refl
member_at-position archived = refl

position_injective : (s t : StoryStatus) → position s ≡ position t → s ≡ t
position_injective s t h = sym (member_at-position s) ∙ ap member_at h ∙ member_at-position t

-- Members that the test takes for the same are the same.
pub is_sound : (s t : StoryStatus) → is s t ≡ true → s ≡ t
is_sound s t h = position_injective s t (ground arith)

-- `StrEnum` values, as stored in the column.
unfoldable pub value : StoryStatus → String
value created = "created"
value in_progress = "in_progress"
value reopened = "reopened"
value pr_review = "pr_review"
value deploying = "deploying"
value testing = "testing"
value waiting_human_review = "waiting_human_review"
value waiting_user_secret = "waiting_user_secret"
value completed = "completed"
value failed = "failed"
value archived = "archived"

-- VALID_TRANSITIONS
unfoldable pub valid_transitions : StoryStatus → List StoryStatus
valid_transitions created = in_progress ∷ failed ∷ archived ∷ []
valid_transitions in_progress =
    pr_review ∷ deploying ∷ waiting_human_review ∷ completed ∷ failed ∷ archived ∷ []
valid_transitions reopened = in_progress ∷ failed ∷ []
valid_transitions pr_review = deploying ∷ in_progress ∷ waiting_human_review ∷ failed ∷ []
valid_transitions deploying =
    testing ∷ completed ∷ in_progress ∷ waiting_user_secret ∷ waiting_human_review ∷ failed ∷ []
valid_transitions testing = completed ∷ in_progress ∷ waiting_human_review ∷ failed ∷ []
valid_transitions waiting_human_review = in_progress ∷ failed ∷ []
valid_transitions waiting_user_secret = deploying ∷ failed ∷ []
valid_transitions completed = reopened ∷ archived ∷ []
valid_transitions failed = reopened ∷ []
valid_transitions archived = []

-- `to_s in VALID_TRANSITIONS[from_s]`
unfoldable pub can_move : StoryStatus → StoryStatus → Bool
unfolding valid_transitions
can_move s t = any (is t) (valid_transitions s)

pub data StoryType : Type 0 where
  product technical : StoryType

pub record Story : Type 0 where
  pub id : String
  pub project_id : String
  pub parent_story_id : Option String
  pub title : String
  pub description : Option String
  pub acceptance_criteria : Option String
  pub type : StoryType
  pub status : Column StoryStatus
  pub priority : ℤ
  pub blocked_by_story_id : Option String
  pub created_by : String
  pub user_report : Option String
  pub quarantine_reason : Option Dict
  pub pr_number : Option ℕ
