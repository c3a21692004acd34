-- ===== src/Session.antt =====
-- services/api/src/database.py: one request is one SQLAlchemy session over the tables. A handler
-- reads and changes the session's rows; `commit` makes them the database's, and what a handler
-- changed without a commit is dropped with the session, whether it returned or raised. Messages go
-- to the broker at once, whatever becomes of the session.
use codegen_orchestrator.Prelude.{
  ℕ, String, Bool, true, false, Option, none, some, List, [], ◌∷◌, ◌++◌, if◌then◌else◌, ◌≡◌, refl,
  ap, ◌⊎◌, inl, inr,
}
use codegen_orchestrator.Contracts.Task.{Task, TaskEvent}
use codegen_orchestrator.Contracts.Story.{Story}
use codegen_orchestrator.Contracts.Run.{Run}
use codegen_orchestrator.Contracts.Access.{TemporaryAccessGrant}
use codegen_orchestrator.Contracts.Project.{Project, User}
use codegen_orchestrator.Contracts.Message.{Message}

pub record Db : Type 0 where
  pub tasks : List Task
  pub task_events : List TaskEvent
  pub stories : List Story
  pub runs : List Run
  pub grants : List TemporaryAccessGrant
  pub projects : List Project
  pub users : List User

-- What a request meets outside the code: the clock, the random text behind a new id, whether the
-- broker takes a message, and whether the database accepts the foreign keys of a new row.
pub record Env : Type 0 where
  pub now : ℕ
  pub fresh_id : String
  pub broker_up : Bool
  pub keys_valid : Bool

pub record Session : Type 0 where
  pub working : Db
  pub committed : Db
  pub outbox : List Message

-- The status of an `HTTPException`; `internal` is an exception that nothing handles, a 500.
pub data Fault : Type 0 where
  unauthorized forbidden not_found conflict unprocessable internal : Fault

pub data Result {ℓ} (A : Type ℓ) : Type ℓ where
  ok : A → Result A
  err : Fault → Result A

pub Result-cases {ℓ} :
    {A : Type ℓ} (r : Result A) → ((f : Fault) × (r ≡ err f)) ⊎ ((a : A) × (r ≡ ok a))
Result-cases (ok a) = inr (a, refl)
Result-cases (err f) = inl (f, refl)

abbrev pub Handler : Type 0 → Type 0
Handler A = Session → Result A × Session

module _ {A : Type 0} where
  pub pure : A → Handler A
  pure a s = (ok a, s)

  pub raise : Fault → Handler A
  raise f s = (err f, s)

  pub lift : Result A → Handler A
  lift r s = (r, s)

  -- Reads the session's rows.
  pub gets : (Db → A) → Handler A
  gets f s = (ok (f s.working), s)

  abbrev pub require : Fault → Option A → Result A
  require f none = err f
  require f (some a) = ok a

-- Changes the session's rows.
pub modify : (Db → Db) → Handler (Unit {0})
modify f s = (ok tt, record s { working = f s.working })

pub commit : Handler (Unit {0})
commit s = (ok tt, record s { committed = s.working })

-- `db.rollback()`
pub rollback : Handler (Unit {0})
rollback s = (ok tt, record s { working = s.committed })

-- `redis.publish_message(queue, msg)`
pub publish : Env → Message → Handler (Unit {0})
publish env m s =
    if env.broker_up then (ok tt, record s { outbox = s.outbox ++ (m ∷ []) }) else (err internal, s)

abbrev pub check : Bool → Fault → Result (Unit {0})
check true f = ok tt
check false f = err f

module _ {A B : Type 0} where
  abbrev pub continue : Result A → (A → Handler B) → Handler B
  continue (ok a) f s = f a s
  continue (err e) f s = (err e, s)

  infixl 10 ◌>>=◌ ◌>>◌
  -- Unfolding this unfolds the other building blocks of a handler too.
  unfoldable pub ◌>>=◌ : Handler A → (A → Handler B) → Handler B
  unfolding pure raise lift gets modify commit rollback publish
  ◌>>=◌ m f s = let (r, s') = m s in continue r f s'

  abbrev pub ◌>>◌ : Handler A → Handler B → Handler B
  m >> n = m >>= λ _. n

-- An answer whose body is dropped.
unfoldable pub discard : {A : Type 0} → Handler A → Handler (Unit {0})
discard m = m >>= λ _. pure tt

abbrev pub opened : Db → Session
opened db = record { working = db; committed = db; outbox = [] }

-- What a client is answered, what the database holds afterwards, and what was published.
pub record Response (A : Type 0) : Type 0 where
  pub answer : Result A
  pub db : Db
  pub sent : List Message

abbrev pub respond : {A : Type 0} → Handler A → Db → Response A
respond m db =
    let (r, s) = m (opened db) in record { answer = r; db = s.committed; sent = s.outbox }

pub db-discard :
    {A : Type 0} (m : Handler A) (db : Db) → (respond (discard m) db).db ≡ (respond m db).db
unfolding discard ◌>>=◌
db-discard m db = let (r, s) = m (opened db) in ap (λ (t : Session). t.committed) (go r s)
  where
    go : {A : Type 0} (r : Result A) (s : Session) → (continue r (λ _. pure tt) s).1 ≡ s
    go (ok a) s = refl
    go (err f) s = refl
