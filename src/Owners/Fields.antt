-- ===== src/Owners/Fields.antt =====
-- A codec of owner notifications for the tests: one field of an object for each field of the record.
use codegen_orchestrator.Prelude.{
  ℕ, String, Bool, true, Option, none, some, List, [], ◌∷◌, ◌≡◌, refl, arith, ◌=ₛ◌, ◌&&◌,
  if◌then◌else◌,
}
use codegen_orchestrator.Prelude.Texts.{member}
use codegen_orchestrator.Contracts.Json.{
  Json, Fields, null, number, moment, object, field, end_fields, lookup_field,
}
use codegen_orchestrator.Contracts.Story.{StoryStatus, value}
use codegen_orchestrator.Contracts.Story as Story
use codegen_orchestrator.Session.{Result, ok, err, internal}
use codegen_orchestrator.Owners.Record.{
  OwnerNotification, OwnerNotificationState, owed, delivered, unaddressable, abandoned, voided,
  Codec,
}

unfoldable pub state_value : OwnerNotificationState → String
state_value owed = "owed"
state_value delivered = "delivered"
state_value unaddressable = "unaddressable"
state_value abandoned = "abandoned"
state_value voided = "voided"

abbrev optional : Option String → Json
optional none = null
optional (some t) = Json.text t

unfoldable pub dump : OwnerNotification → Json
unfolding state_value value
dump r = object (
    field "event" (Json.text r.event) (
      field "text" (Json.text r.text) (
        field "story_id" (Json.text r.story_id) (
          field "project_id" (Json.text r.project_id) (
            field "terminal_status" (Json.text (value r.terminal_status)) (
              field "task_id" (optional r.task_id) (
                field "state" (Json.text (state_value r.state)) (
                  field "owed_at" (moment r.owed_at) (
                    field "attempts" (number r.attempts)
                      (field "detail" (optional r.detail) end_fields))))))))))

abbrev all_states : List OwnerNotificationState
all_states = owed ∷ delivered ∷ unaddressable ∷ abandoned ∷ voided ∷ []

abbrev all_statuses : List StoryStatus
all_statuses =
    Story.created ∷ Story.in_progress ∷ Story.reopened ∷ Story.pr_review ∷ Story.deploying
    ∷ Story.testing ∷ Story.waiting_human_review ∷ Story.waiting_user_secret ∷ Story.completed
    ∷ Story.failed ∷ Story.archived ∷ []

-- The member of an enumeration with that value.
unfoldable pub member_of : {A : Type 0} → (A → String) → List A → String → Option A
member_of name [] t = none
member_of name (a ∷ as') t = if name a =ₛ t then some a else member_of name as' t

abbrev pub text_of : Option Json → Option String
text_of (some (Json.text t)) = some t
text_of _ = none

-- A field that may be missing or null.
abbrev pub optional_of : Option Json → Option (Option String)
optional_of none = some none
optional_of (some null) = some none
optional_of (some (Json.text t)) = some (some t)
optional_of _ = none

abbrev pub moment_of : Option Json → Option ℕ
moment_of (some (moment t)) = some t
moment_of _ = none

abbrev pub attempts_of : Option Json → Option ℕ
attempts_of none = some 0
attempts_of (some (number n)) = some n
attempts_of _ = none

abbrev known_fields : List String
known_fields =
    "event" ∷ "text" ∷ "story_id" ∷ "project_id" ∷ "terminal_status" ∷ "task_id" ∷ "state"
    ∷ "owed_at" ∷ "attempts" ∷ "detail" ∷ []

unfoldable pub only_known : Fields → Bool
only_known end_fields = true
only_known (field k v f) = member k known_fields && only_known f

infixl 10 ◌>>?◌
unfoldable pub ◌>>?◌ : {A B : Type 0} → Option A → (A → Option B) → Option B
none >>? f = none
some a >>? f = f a

unfoldable pub fields_record : Fields → Option OwnerNotification
unfolding lookup_field member_of state_value value ◌>>?◌
fields_record f = text_of (lookup_field "event" f) >>? λ event.
    text_of (lookup_field "text" f) >>? λ words. text_of (lookup_field "story_id" f) >>? λ story_id.
    text_of (lookup_field "project_id" f) >>? λ project_id.
    text_of (lookup_field "terminal_status" f) >>? λ status_text.
    member_of value all_statuses status_text >>? λ terminal_status.
    optional_of (lookup_field "task_id" f) >>? λ task_id.
    text_of (lookup_field "state" f) >>? λ state_text.
    member_of state_value all_states state_text >>? λ state.
    moment_of (lookup_field "owed_at" f) >>? λ owed_at.
    attempts_of (lookup_field "attempts" f) >>? λ attempts.
    optional_of (lookup_field "detail" f) >>? λ detail. some (record {
      event = event;
      text = words;
      story_id = story_id;
      project_id = project_id;
      terminal_status = terminal_status;
      task_id = task_id;
      state = state;
      owed_at = owed_at;
      attempts = attempts;
      detail = detail;
    })

abbrev or_invalid : {A : Type 0} → Option A → Result A
or_invalid none = err internal
or_invalid (some a) = ok a

unfoldable pub validate : Json → Result OwnerNotification
unfolding only_known fields_record
validate (object f) = if only_known f then or_invalid (fields_record f) else err internal
validate _ = err internal

member_of-state :
    (s : OwnerNotificationState) → member_of state_value all_states (state_value s) ≡ some s
unfolding member_of state_value
member_of-state owed = refl
member_of-state delivered = refl
member_of-state unaddressable = refl
member_of-state abandoned = refl
member_of-state voided = refl

member_of-status : (s : StoryStatus) → member_of value all_statuses (value s) ≡ some s
unfolding member_of value
member_of-status Story.created = refl
member_of-status Story.in_progress = refl
member_of-status Story.reopened = refl
member_of-status Story.pr_review = refl
member_of-status Story.deploying = refl
member_of-status Story.testing = refl
member_of-status Story.waiting_human_review = refl
member_of-status Story.waiting_user_secret = refl
member_of-status Story.completed = refl
member_of-status Story.failed = refl
member_of-status Story.archived = refl

optional_of-optional : (o : Option String) → optional_of (some (optional o)) ≡ some o
optional_of-optional none = refl
optional_of-optional (some t) = refl

pub validate-dump : (r : OwnerNotification) → validate (dump r) ≡ ok r
unfolding validate dump
validate-dump r = ground (
  arith,
  member_of-state r.state,
  member_of-status r.terminal_status,
  optional_of-optional r.task_id,
  optional_of-optional r.detail,
)

instance abbrev pub by_fields : Codec
unfolding dump
by_fields = record {
  model_dump = dump;
  model_validate = validate;
  dumps_value = λ r. refl;
  validates_dump = validate-dump;
}
