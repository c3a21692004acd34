-- ===== src/Owners/Facts.antt =====
-- services/scheduler/src/tasks/owner_notifications.py: what a visit reads before it publishes.
use codegen_orchestrator.Prelude.{
  ℕ, String, Bool, true, false, Option, none, some, List, ◌≡◌, arith, inl, inr, Option-cases,
  if◌then◌else◌, ◌==◌,
}
use codegen_orchestrator.Contracts.Column.{known}
use codegen_orchestrator.Contracts.Message.{Message}
use codegen_orchestrator.Contracts.Project.{Project, User}
use codegen_orchestrator.Contracts.Story.{Story, StoryStatus}
use codegen_orchestrator.Recipients.{find_project, find_user, resolve_project_chat_id}
use codegen_orchestrator.Session as Api
use codegen_orchestrator.Session.{Db, Fault, Result, ok, err}
use codegen_orchestrator.Stories.Actions as Endpoint
use codegen_orchestrator.Stories.Actions.{find_story}
use codegen_orchestrator.Dispatch.Client.{return, ◌>>=◌}
use codegen_orchestrator.Dispatch.Guards.{Found, get_project-Holds}
use codegen_orchestrator.Dispatch.Recipient.{
  addressed, unaddressed, read_user_row, get_user, resolve_owner_recipient, recipient_of,
  resolve_project_recipient,
}
use codegen_orchestrator.Dispatch.Hoare.{
  Unchanged, Seen, Holds, IsRead, read-Holds, return-Holds, onward-Holds, look-Holds,
  if_missing-Holds, from_result-Holds,
}
use codegen_orchestrator.Owners.Delivery.{check_story, get_story_status}

-- The chat is the one that the API would write to.
abbrev pub IsOwner : String → Db → Option ℕ → Type 0
IsOwner id d chat = (c : ℕ) → chat ≡ some c → resolve_project_chat_id id d ≡ some c

user_row-IsRead :
    (id : ℕ) → IsRead (λ env. read_user_row id) (λ db u. find_user id db.users ≡ some u)
unfolding read_user_row Api.◌>>=◌
user_row-IsRead id env db = elim (Option-cases (find_user id db.users)) [
  | inl e ↦ (ground (arith, e), λ a h. absurd (ground (arith, e)))
  | inr (t, e) ↦ (ground (arith, e), λ a h. ground (arith, e))
]

abbrev FoundUser : ℕ → Db → Option User → Type 0
FoundUser id d none = Unit
FoundUser id d (some u) = find_user id d.users ≡ some u

get_user-Holds :
    (d : Db) (q : List Message) (id : ℕ)
    → Holds (Unchanged d q) (get_user id) (λ u. Seen d q (FoundUser id d u)) (Unchanged d q)
unfolding get_user
get_user-Holds d q id =
    if_missing-Holds _ _ _ _
      (read-Holds (λ env. read_user_row id) (λ db u. find_user id db.users ≡ some u) d q
        (user_row-IsRead id))
      (λ db queue u. (u, tt))

addressed-IsOwner :
    (id : String) (d : Db) (p : Project) (u : Option User)
    → find_project id d ≡ some p
    → FoundUser p.owner_id d u
    → IsOwner id d (addressed p.owner_id u).telegram_chat_id
unfolding resolve_project_chat_id
addressed-IsOwner id d p none e f c h = absurd (ground arith)
addressed-IsOwner id d p (some u) e f c h = ground (arith, e, f)

resolve_owner_recipient-Holds :
    (d : Db) (q : List Message) (id : String) (p : Project)
    → find_project id d ≡ some p
    → Holds
        (Unchanged d q)
        (resolve_owner_recipient p.owner_id)
        (λ r. Seen d q (IsOwner id d r.telegram_chat_id))
        (Unchanged d q)
unfolding resolve_owner_recipient
resolve_owner_recipient-Holds d q id p e = go (p.owner_id == 0)
  where
    go :
        (b : Bool)
        → Holds
            (Unchanged d q)
            (if b
              then return (unaddressed none "recipient unresolved: project has no owner")
              else get_user p.owner_id >>= λ u. return (addressed p.owner_id u))
            (λ r. Seen d q (IsOwner id d r.telegram_chat_id))
            (Unchanged d q)
    go true = return-Holds _ _ _ _ (λ db queue u. (u, λ c h. absurd (ground arith)))
    go false =
        onward-Holds _ _ _ (λ u. Seen d q (FoundUser p.owner_id d u)) _ _
          (get_user-Holds d q p.owner_id)
          (λ u. return-Holds _ _ _ _ (λ db queue (w, f). (w, addressed-IsOwner id d p u e f)))

pub resolve_project_recipient-Holds :
    (d : Db) (q : List Message) (id : String)
    → Holds
        (Unchanged d q)
        (resolve_project_recipient id)
        (λ r. Seen d q (IsOwner id d r.telegram_chat_id))
        (Unchanged d q)
unfolding resolve_project_recipient recipient_of
resolve_project_recipient-Holds d q id =
    look-Holds d q _ _ (λ db queue u. u) (Found id d) _ _ (get_project-Holds d q id) of
  where
    of :
        (p : Option Project)
        → Found id d p
        → Holds
            (Unchanged d q)
            (recipient_of p)
            (λ r. Seen d q (IsOwner id d r.telegram_chat_id))
            (Unchanged d q)
    of none f = return-Holds _ _ _ _ (λ db queue u. (u, λ c h. absurd (ground arith)))
    of (some p) f = resolve_owner_recipient-Holds d q id p f

-- The story is in that status.
abbrev pub InStatus : String → Db → StoryStatus → Type 0
InStatus id d s = (story : Story) × ((find_story id d ≡ some story) × (story.status ≡ known s))

story-IsRead :
    (id : String) → IsRead (λ env. Endpoint.get_story id) (λ db s. find_story id db ≡ some s)
unfolding Endpoint.get_story Api.◌>>=◌
story-IsRead id env db = elim (Option-cases (find_story id db)) [
  | inl e ↦ (ground (arith, e), λ a h. absurd (ground (arith, e)))
  | inr (t, e) ↦ (ground (arith, e), λ a h. ground (arith, e))
]

check_story-status :
    (story : Story) (s : StoryStatus) → check_story story ≡ ok s → story.status ≡ known s
check_story-status story s h = ground arith

pub story_status-Holds :
    (d : Db) (q : List Message) (id : String)
    → Holds (Unchanged d q) (get_story_status id) (λ s. Seen d q (InStatus id d s)) (Unchanged d q)
unfolding get_story_status
story_status-Holds d q id =
    onward-Holds _ _ _ (λ s. Seen d q (find_story id d ≡ some s)) _ _
      (read-Holds (λ env. Endpoint.get_story id) (λ db s. find_story id db ≡ some s) d q
        (story-IsRead id))
      (λ story.
        from_result-Holds _ _ _ (check_story story)
          (λ s h db queue (u, k). (u, (story, (k, check_story-status story s h))))
          (λ db queue (u, k). u))
