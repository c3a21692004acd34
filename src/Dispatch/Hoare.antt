-- ===== src/Dispatch/Hoare.antt =====
-- services/scheduler/src/clients/api.py: claims about the rows and the queue before and after a
-- step of the scheduler, whatever becomes of its requests.
use codegen_orchestrator.Prelude.{
  Bool, true, false, Option, none, some, List, [], ◌∷◌, ◌++◌, ◌≡◌, refl, ◌∙◌, subst, ◌&&◌,
  if◌then◌else◌,
}
use codegen_orchestrator.Contracts.Message.{Message}
use codegen_orchestrator.Session.{
  Db, Env, Handler, Fault, unauthorized, forbidden, not_found, conflict, unprocessable, internal,
  Result, ok, err, Response, respond,
}
use codegen_orchestrator.Dispatch.Client.{
  Fate, later, reaches, answered, lost_request, lost_reply, told, World, Client, request, return,
  from_result, attempt, if_missing, outcome, missing, caught, accepted, publish, onward, ◌>>=◌,
}

abbrev pub Claim : Type 1
Claim = Db → List Message → Type 0

-- The rows and the queue are those.
abbrev pub Unchanged : Db → List Message → Claim
Unchanged d q db queue = (db ≡ d) × (queue ≡ q)

module _ {A : Type 0} where
  -- `Q` of the value, or `E` after an exception.
  abbrev pub Ends : (A → Claim) → Claim → Result A × World → Type 0
  Ends Q E (ok a, w) = Q a w.db w.queue
  Ends Q E (err f, w) = E w.db w.queue

  abbrev pub Holds : Claim → Client A → (A → Claim) → Claim → Type 0
  Holds P m Q E = (w : World) → P w.db w.queue → Ends Q E (m w)

module _ {A : Type 0} (P : Claim) (Q : A → Claim) (E : Claim) where
  pub return-Holds :
      (a : A) → ((db : Db) (q : List Message) → P db q → Q a db q) → Holds P (return a) Q E
  unfolding return
  return-Holds a h w p = h w.db w.queue p

  pub from_result-Holds :
      (r : Result A)
      → ((a : A) → r ≡ ok a → (db : Db) (q : List Message) → P db q → Q a db q)
      → ((db : Db) (q : List Message) → P db q → E db q)
      → Holds P (from_result r) Q E
  unfolding from_result
  from_result-Holds (ok a) h e w p = h a refl w.db w.queue p
  from_result-Holds (err f) h e w p = e w.db w.queue p

  -- A claim about two steps, by one between them.
  pub onward-Holds :
      {B : Type 0} (R : B → Claim) (m : Client B) (f : B → Client A)
      → Holds P m R E
      → ((b : B) → Holds (R b) (f b) Q E)
      → Holds P (m >>= f) Q E
  unfolding ◌>>=◌
  onward-Holds {B = B} R m f h k w p = go (m w) (h w p)
    where
      go : (x : Result B × World) → Ends R E x → Ends Q E (onward x.0 f x.1)
      go (ok b, v) e = k b v e
      go (err g, v) e = e

  -- What a request has to establish, answered or lost.
  pub request-Holds :
      (handler : Env → Handler A)
      → ((env : Env) (a : A) (db : Db) (q : List Message)
          → P db q
          → (respond (handler env) db).answer ≡ ok a
          → Q a (respond (handler env) db).db q)
      → ((env : Env) (db : Db) (q : List Message) → P db q → E (respond (handler env) db).db q)
      → ((db : Db) (q : List Message) → P db q → E db q)
      → Holds P (request handler) Q E
  unfolding request
  request-Holds handler h served lost w p =
      arrive (w.coming 0).fate (respond (handler (w.coming 0).env) w.db)
        (λ a. h (w.coming 0).env a w.db w.queue p) (served (w.coming 0).env w.db w.queue p)
        (lost w.db w.queue p)
    where
      heard :
          (x : Result A) (v : World)
          → ((a : A) → x ≡ ok a → Q a v.db v.queue)
          → E v.db v.queue
          → Ends Q E (x, v)
      heard (ok a) v f e = f a refl
      heard (err g) v f e = e

      arrive :
          (f : Fate) (r : Response A)
          → ((a : A) → r.answer ≡ ok a → Q a r.db w.queue)
          → E r.db w.queue
          → E w.db w.queue
          → Ends Q E (told f r.answer, later (if reaches f then record w { db = r.db } else w))
      arrive answered r g e l = heard r.answer (later (record w { db = r.db })) g e
      arrive lost_request r g e l = l
      arrive lost_reply r g e l = e

-- The claims after a step may be weakened.
pub weaken-Holds :
    {A : Type 0} (P : Claim) (Q R : A → Claim) (E F : Claim) (m : Client A)
    → ((a : A) (db : Db) (q : List Message) → Q a db q → R a db q)
    → ((db : Db) (q : List Message) → E db q → F db q)
    → Holds P m Q E
    → Holds P m R F
weaken-Holds {A = A} P Q R E F m h k s w p = go (m w) (s w p)
  where
    go : (x : Result A × World) → Ends Q E x → Ends R F x
    go (ok a, v) e = h a v.db v.queue e
    go (err f, v) e = k v.db v.queue e

-- A step that is caught: what it leaves behind, whether it raised or not.
pub attempt-Holds :
    {A : Type 0} (P : Claim) (Q : Option A → Claim) (m : Client A)
    → Holds P m (λ a. Q (some a)) (Q none)
    → (E : Claim) → Holds P (attempt m) Q E
unfolding attempt
attempt-Holds {A = A} P Q m h E w p = go (m w) (h w p)
  where
    go : (x : Result A × World) → Ends (λ a. Q (some a)) (Q none) x → Ends Q E (caught x.0, x.1)
    go (ok a, v) e = e
    go (err f, v) e = e

pub if_missing-Holds :
    {A : Type 0} (P : Claim) (Q : Option A → Claim) (E : Claim) (m : Client A)
    → Holds P m (λ a. Q (some a)) E
    → ((db : Db) (q : List Message) → E db q → Q none db q)
    → Holds P (if_missing m) Q E
unfolding if_missing
if_missing-Holds {A = A} P Q E m h n w p = go (m w) (h w p)
  where
    go : (x : Result A × World) → Ends (λ a. Q (some a)) E x → Ends Q E (missing x.0, x.1)
    go (ok a, v) e = e
    go (err not_found, v) e = n v.db v.queue e
    go (err unauthorized, v) e = e
    go (err forbidden, v) e = e
    go (err conflict, v) e = e
    go (err unprocessable, v) e = e
    go (err internal, v) e = e

-- What a message has to establish, whether its sender hears of it or not.
pub publish-Holds :
    (P : Claim) (Q : Unit {0} → Claim) (E : Claim) (m : Message)
    → ((db : Db) (q : List Message) → P db q → Q tt db (q ++ (m ∷ [])))
    → ((db : Db) (q : List Message) → P db q → E db (q ++ (m ∷ [])))
    → ((db : Db) (q : List Message) → P db q → E db q)
    → Holds P (publish m) Q E
unfolding publish
publish-Holds P Q E m h raised e w p = go (w.coming 0).fate (w.coming 0).env.broker_up
  where
    go :
        (f : Fate) (up : Bool)
        → Ends Q E (
          told f (accepted up),
          later (if reaches f && up then record w { queue = w.queue ++ (m ∷ []) } else w),
        )
    go answered true = h w.db w.queue p
    go answered false = e w.db w.queue p
    go lost_request true = e w.db w.queue p
    go lost_request false = e w.db w.queue p
    go lost_reply true = raised w.db w.queue p
    go lost_reply false = e w.db w.queue p

-- Nothing has changed, and `K` is known.
abbrev pub Seen : Db → List Message → Type 0 → Claim
Seen d q K db queue = Unchanged d q db queue × K

-- A request that only reads.
abbrev pub IsRead : {A : Type 0} → (Env → Handler A) → (Db → A → Type 0) → Type 0
IsRead {A} handler K =
    (env : Env) (db : Db)
    → ((respond (handler env) db).db ≡ db)
      × ((a : A) → (respond (handler env) db).answer ≡ ok a → K db a)

pub read-Holds :
    {A : Type 0} (handler : Env → Handler A) (K : Db → A → Type 0) (d : Db) (q : List Message)
    → IsRead handler K
    → Holds (Unchanged d q) (request handler) (λ a. Seen d q (K d a)) (Unchanged d q)
read-Holds handler K d q r =
    request-Holds (Unchanged d q) (λ a. Seen d q (K d a)) (Unchanged d q) handler
      (λ env a db queue (e, f) h. (((r env db).0 ∙ e, f), subst (λ x. K x a) e ((r env db).1 a h)))
      (λ env db queue (e, f). ((r env db).0 ∙ e, f)) (λ db queue p. p)

-- After something was seen, a step that is judged from there.
pub seen-Holds :
    {A : Type 0} (d : Db) (q : List Message) (K : Type 0) (m : Client A) (Q : A → Claim) (E : Claim)
    → (K → Holds (Unchanged d q) m Q E)
    → Holds (Seen d q K) m Q E
seen-Holds d q K m Q E h w (u, k) = h k w u

-- A step that changes nothing, and what follows from what it has seen.
pub look-Holds :
    {A B : Type 0} (d : Db) (q : List Message) (Q : B → Claim) (E : Claim)
    → ((db : Db) (queue : List Message) → Unchanged d q db queue → E db queue)
    → (K : A → Type 0) (m : Client A) (f : A → Client B)
    → Holds (Unchanged d q) m (λ a. Seen d q (K a)) (Unchanged d q)
    → ((a : A) → K a → Holds (Unchanged d q) (f a) Q E)
    → Holds (Unchanged d q) (m >>= f) Q E
look-Holds d q Q E fault K m f h k =
    onward-Holds _ Q E (λ a. Seen d q (K a)) m f
      (weaken-Holds (Unchanged d q) (λ a. Seen d q (K a)) (λ a. Seen d q (K a)) (Unchanged d q) E m
        (λ a db queue p. p) fault h)
      (λ a w (u, e). k a e w u)

-- What an exception is turned into.
pub outcome-Holds :
    {A : Type 0} (P : Claim) (Q : Result A → Claim) (E F : Claim) (m : Client A)
    → Holds P m (λ a. Q (ok a)) F
    → ((f : Fault) (db : Db) (q : List Message) → F db q → Q (err f) db q)
    → Holds P (outcome m) Q E
unfolding outcome
outcome-Holds {A = A} P Q E F m h k w p = go (m w) (h w p)
  where
    go : (x : Result A × World) → Ends (λ a. Q (ok a)) F x → Ends Q E (ok x.0, x.1)
    go (ok a, v) e = e
    go (err f, v) e = k f v.db v.queue e

-- Claims that always hold need no knowledge of the step.
pub anything-Holds :
    {A : Type 0} (P : Claim) (Q : A → Claim) (E : Claim) (m : Client A)
    → ((a : A) (db : Db) (queue : List Message) → Q a db queue)
    → ((db : Db) (queue : List Message) → E db queue)
    → Holds P m Q E
anything-Holds {A = A} P Q E m h k w p = go (m w)
  where
    go : (x : Result A × World) → Ends Q E x
    go (ok a, v) = h a v.db v.queue
    go (err f, v) = k v.db v.queue
