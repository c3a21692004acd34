-- ===== src/Dispatch/Client.antt =====
-- services/scheduler/src/clients/api.py: requests to the API over a network that may fail, and the
-- queue.
use codegen_orchestrator.Prelude.{
  ℕ, suc, Bool, true, false, Option, none, some, List, [], ◌∷◌, ◌++◌, ◌&&◌, if◌then◌else◌,
}
use codegen_orchestrator.Contracts.Message.{Message}
use codegen_orchestrator.Session.{
  Db, Env, Handler, Fault, Result, ok, err, internal, not_found, respond,
}

-- What becomes of a request: it is answered, it never arrives, or its answer is lost.
pub data Fate : Type 0 where
  answered lost_request lost_reply : Fate

pub record Circumstance : Type 0 where
  pub fate : Fate
  pub env : Env

-- The database, what the queue holds, and what each coming request will meet.
pub record World : Type 0 where
  pub db : Db
  pub queue : List Message
  pub coming : ℕ → Circumstance

-- A step of the scheduler: a value, or an exception.
abbrev pub Client : Type 0 → Type 0
Client A = World → Result A × World

abbrev pub later : World → World
later w = record w { coming = λ n. w.coming (suc n) }

-- What a client is told: a request or an answer that was lost is an exception of its own.
abbrev pub told : {A : Type 0} → Fate → Result A → Result A
told answered r = r
told lost_request r = err internal
told lost_reply r = err internal

abbrev pub reaches : Fate → Bool
reaches answered = true
reaches lost_request = false
reaches lost_reply = true

module _ {A : Type 0} where
  -- One request. The handlers of this module's clients publish nothing themselves.
  unfoldable pub request : (Env → Handler A) → Client A
  request handler w =
      let c = w.coming 0 in
      let r = respond (handler c.env) w.db in
      (told c.fate r.answer, later (if reaches c.fate then record w { db = r.db } else w))

  unfoldable pub return : A → Client A
  return a w = (ok a, w)

  unfoldable pub fail : Fault → Client A
  fail f w = (err f, w)

  unfoldable pub from_result : Result A → Client A
  from_result r w = (r, w)

  -- What an exception becomes; `none` is no exception.
  abbrev pub caught : Result A → Result (Option A)
  caught (ok a) = ok (some a)
  caught (err f) = ok none

  -- `try: … except Exception`
  unfoldable pub attempt : Client A → Client (Option A)
  attempt m w = let (r, w') = m w in (caught r, w')

  -- `try: … except Exception as exc`, with what was raised.
  unfoldable pub outcome : Client A → Client (Result A)
  outcome m w = let (r, w') = m w in (ok r, w')

  abbrev pub missing : Result A → Result (Option A)
  missing (ok a) = ok (some a)
  missing (err not_found) = ok none
  missing (err f) = err f

  -- A 404 is `None`.
  unfoldable pub if_missing : Client A → Client (Option A)
  if_missing m w = let (r, w') = m w in (missing r, w')

-- What the broker says of a message.
abbrev pub accepted : (broker_up : Bool) → Result (Unit {0})
accepted true = ok tt
accepted false = err internal

-- `redis.publish_message(queue, message)`: the message may be on the queue though the call raised.
unfoldable pub publish : Message → Client (Unit {0})
publish m w =
    let c = w.coming 0 in
    (
      told c.fate (accepted c.env.broker_up),
      later (
          if reaches c.fate && c.env.broker_up
          then record w { queue = w.queue ++ (m ∷ []) }
          else w),
    )

module _ {A B : Type 0} where
  abbrev pub onward : Result A → (A → Client B) → Client B
  onward (ok a) f w = f a w
  onward (err e) f w = (err e, w)

  infixl 10 ◌>>=◌ ◌>>◌
  unfoldable pub ◌>>=◌ : Client A → (A → Client B) → Client B
  unfolding return fail from_result
  ◌>>=◌ m f w = let (r, w') = m w in onward r f w'

  abbrev pub ◌>>◌ : Client A → Client B → Client B
  m >> n = m >>= λ _. n
