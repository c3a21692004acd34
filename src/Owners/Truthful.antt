-- ===== src/Owners/Truthful.antt =====
-- services/scheduler/src/tasks/owner_notifications.py: what is published, and when.
use codegen_orchestrator.Prelude.{
  ℕ, suc, String, Bool, true, false, Option, none, some, List, [], ◌∷◌, ◌++◌, ◌≡◌, refl, ap, subst,
  not, inl, inr, ◌⊎◌, leb, if◌then◌else◌,
}
use codegen_orchestrator.Contracts.Message.{Message}
use codegen_orchestrator.Contracts.Story.{Story, StoryStatus}
use codegen_orchestrator.Contracts.Story as StoryRow
use codegen_orchestrator.Recipients.{resolve_project_chat_id}
use codegen_orchestrator.Session.{Db, Fault, Result, ok, err}
use codegen_orchestrator.Dispatch.Client.{World, return, outcome, ◌>>=◌, ◌>>◌}
use codegen_orchestrator.Dispatch.Recipient.{Recipient}
use codegen_orchestrator.Dispatch.Hoare.{
  Claim, Unchanged, Seen, Ends, Holds, return-Holds, onward-Holds, outcome-Holds, look-Holds,
  request-Holds, publish-Holds,
}
use codegen_orchestrator.Owners.Record.{
  OwnerNotification, OwnerNotificationState, owed, delivered, unaddressable, abandoned, voided,
  is_owed, Codec,
}
use codegen_orchestrator.Owners.Delivery.{
  Outcome, delivery, retrying, exhausted, void, skipped, refusal, max_attempts, settle,
  write_record, spend_failed_attempt, send, send_to, after_send, after_story, mismatch,
  get_story_status, event_of, deliver_owed_notification,
}
use codegen_orchestrator.Owners.Facts.{
  IsOwner, InStatus, resolve_project_recipient-Holds, story_status-Holds,
}

-- The message was owed, the story was in the record's status, and the record's event went out once,
-- to the owner's chat.
pub data Published (r : OwnerNotification) (d : Db) (q queue : List Message) : Type 0 where
  published :
      (recipient : Recipient) (chat : ℕ)
      → is_owed r.state ≡ true
      → InStatus r.story_id d r.terminal_status
      → recipient.telegram_chat_id ≡ some chat
      → resolve_project_chat_id r.project_id d ≡ some chat
      → queue ≡ q ++ (event_of r recipient ∷ [])
      → Published r d q queue

abbrev pub Sent : OwnerNotification → Db → List Message → List Message → Type 0
Sent r d q queue = (queue ≡ q) ⊎ Published r d q queue

-- A claim about what was published.
abbrev OfQueue : (List Message → Type 0) → Claim
OfQueue T db queue = T queue

module _ ⦃codec : Codec⦄ where
  module _ (run_id : String) (r : OwnerNotification) (T : List Message → Type 0) where
    settle-Quiet :
        (s : OwnerNotificationState) (detail : Option String) (n : ℕ)
        → Holds (OfQueue T) (settle run_id r s detail n) (λ _. OfQueue T) (OfQueue T)
    unfolding settle write_record
    settle-Quiet s detail n =
        request-Holds (OfQueue T) (λ _. OfQueue T) (OfQueue T) _ (λ env a db q t h. t)
          (λ env db q t. t) (λ db q t. t)

    then_return-Quiet :
        {A : Type 0} (a : A) (s : OwnerNotificationState) (detail : Option String) (n : ℕ)
        → Holds (OfQueue T) (settle run_id r s detail n >> return a) (λ _. OfQueue T) (OfQueue T)
    then_return-Quiet a s detail n =
        onward-Holds (OfQueue T) (λ _. OfQueue T) (OfQueue T) (λ _. OfQueue T) _ _
          (settle-Quiet s detail n)
          (λ _. return-Holds (OfQueue T) (λ _. OfQueue T) (OfQueue T) a (λ db q t. t))

    spend-Quiet :
        (n : ℕ) (error : String)
        → Holds (OfQueue T) (spend_failed_attempt run_id r n error) (λ _. OfQueue T) (OfQueue T)
    unfolding spend_failed_attempt
    spend-Quiet n error = go (leb max_attempts n)
      where
        go :
            (b : Bool)
            → Holds
                (OfQueue T)
                (if b
                  then settle run_id r abandoned (some error) n >> return exhausted
                  else settle run_id r owed (some error) n >> return retrying)
                (λ _. OfQueue T)
                (OfQueue T)
        go true = then_return-Quiet exhausted abandoned (some error) n
        go false = then_return-Quiet retrying owed (some error) n

    after_send-Quiet :
        (explain : Fault → String) (x : Result Bool)
        → Holds (OfQueue T) (after_send explain run_id r x) (λ _. OfQueue T) (OfQueue T)
    unfolding after_send
    after_send-Quiet explain (err f) w t = spend-Quiet (suc r.attempts) (explain f) w t
    after_send-Quiet explain (ok false) w t =
        return-Holds (OfQueue T) (λ _. OfQueue T) (OfQueue T) refusal (λ db q x. x) w t
    after_send-Quiet explain (ok true) w t =
        then_return-Quiet delivery delivered none (suc r.attempts) w t

  module _ (run_id : String) (r : OwnerNotification) (d : Db) (q : List Message)
      (is_due : is_owed r.state ≡ true) where
    abbrev S : List Message → Type 0
    S = Sent r d q

    quiet : (db : Db) (queue : List Message) → Unchanged d q db queue → S queue
    quiet db queue (e, f) = inl f

    went_out :
        (recipient : Recipient) (chat : ℕ)
        → InStatus r.story_id d r.terminal_status
        → recipient.telegram_chat_id ≡ some chat
        → resolve_project_chat_id r.project_id d ≡ some chat
        → (db : Db) (queue : List Message) → Unchanged d q db queue
        → S (queue ++ (event_of r recipient ∷ []))
    went_out recipient chat i e o db queue (f, g) =
        inr (published recipient chat is_due i e o (ap (λ l. l ++ (event_of r recipient ∷ [])) g))

    send-Sent :
        InStatus r.story_id d r.terminal_status
        → Holds (Unchanged d q) (send run_id r) (λ _. OfQueue S) (OfQueue S)
    unfolding send
    send-Sent i =
        look-Holds d q (λ _. OfQueue S) (OfQueue S) quiet
          (λ recipient. IsOwner r.project_id d recipient.telegram_chat_id) _ _
          (resolve_project_recipient-Holds d q r.project_id)
          (λ recipient o. to recipient recipient.telegram_chat_id refl o)
      where
        to :
            (recipient : Recipient) (chat : Option ℕ)
            → recipient.telegram_chat_id ≡ chat
            → IsOwner r.project_id d recipient.telegram_chat_id
            → Holds (Unchanged d q) (send_to run_id r recipient chat) (λ _. OfQueue S) (OfQueue S)
        to recipient none e o w u =
            then_return-Quiet run_id r S false unaddressable (some recipient.unaddressed_reason)
              (suc r.attempts) w (quiet w.db w.queue u)
        to recipient (some chat) e o w u =
            onward-Holds (Unchanged d q) (λ _. OfQueue S) (OfQueue S) (λ _. OfQueue S) _ _
              (publish-Holds (Unchanged d q) (λ _. OfQueue S) (OfQueue S) (event_of r recipient)
                (went_out recipient chat i e (o chat e)) (went_out recipient chat i e (o chat e))
                quiet)
              (λ _. return-Holds (OfQueue S) (λ _. OfQueue S) (OfQueue S) true (λ db x s. s)) w u

    after_story-Sent :
        (explain : Fault → String) (s : StoryStatus)
        → InStatus r.story_id d s
        → Holds (Unchanged d q) (after_story explain run_id r (ok s)) (λ _. OfQueue S) (OfQueue S)
    unfolding after_story
    after_story-Sent explain s i = go (StoryRow.is s r.terminal_status) refl
      where
        go :
            (b : Bool)
            → StoryRow.is s r.terminal_status ≡ b
            → Holds
                (Unchanged d q)
                (if b
                  then outcome (send run_id r) >>= (λ sent. after_send explain run_id r sent)
                  else settle run_id r voided (some (mismatch explain run_id r s)) r.attempts
                    >> return void)
                (λ _. OfQueue S)
                (OfQueue S)
        go true e w u =
            onward-Holds (Unchanged d q) (λ _. OfQueue S) (OfQueue S) (λ _. OfQueue S) _ _
              (outcome-Holds (Unchanged d q) (λ _. OfQueue S) (OfQueue S) (OfQueue S) _
                (send-Sent
                  (subst (InStatus r.story_id d) (StoryRow.is_sound s r.terminal_status e) i))
                (λ f db x t. t))
              (after_send-Quiet run_id r S explain) w u
        go false e w u =
            then_return-Quiet run_id r S void voided (some (mismatch explain run_id r s)) r.attempts
              w (quiet w.db w.queue u)

  -- What was read of the story, or nothing.
  abbrev Read : OwnerNotification → World → Result StoryStatus → Claim
  Read r w (ok s) = Seen w.db w.queue (InStatus r.story_id w.db s)
  Read r w (err f) = Unchanged w.db w.queue

  next-Sent :
      (explain : Fault → String) (run_id : String) (r : OwnerNotification) (w : World)
      → is_owed r.state ≡ true
      → (x : Result StoryStatus)
      → Holds
          (Read r w x)
          (after_story explain run_id r x)
          (λ _. OfQueue (Sent r w.db w.queue))
          (OfQueue (Sent r w.db w.queue))
  unfolding after_story
  next-Sent explain run_id r w h (ok s) v (u, i) =
      after_story-Sent run_id r w.db w.queue h explain s i v u
  next-Sent explain run_id r w h (err f) v u =
      spend-Quiet run_id r (Sent r w.db w.queue) (suc r.attempts) (explain f) v
        (quiet run_id r w.db w.queue h v.db v.queue u)

  -- A visit to a record queues nothing, or one message: the record's event, to the chat of the
  -- project's owner. It queues it only if the record was owed and the story was in the status that the
  -- record was written for. This holds whatever requests are lost.
  pub deliver_owed_notification-Sent :
      (explain : Fault → String) (run_id : String) (r : OwnerNotification) (w : World)
      → Sent r w.db w.queue (deliver_owed_notification explain run_id r w).1.queue
  unfolding deliver_owed_notification
  deliver_owed_notification-Sent explain run_id r w =
      finish (deliver_owed_notification explain run_id r w)
        (go (is_owed r.state) refl w (refl, refl))
    where
      S : List Message → Type 0
      S = Sent r w.db w.queue

      go :
          (b : Bool)
          → is_owed r.state ≡ b
          → Holds
              (Unchanged w.db w.queue)
              (if not b then return skipped else do
                story ← outcome (get_story_status r.story_id)
                after_story explain run_id r story)
              (λ _. OfQueue S)
              (OfQueue S)
      go false e v u =
          return-Holds (Unchanged w.db w.queue) (λ _. OfQueue S) (OfQueue S) skipped
            (λ db q (x, f). inl f) v u
      go true e v u =
          onward-Holds (Unchanged w.db w.queue) (λ _. OfQueue S) (OfQueue S) (Read r w) _ _
            (outcome-Holds (Unchanged w.db w.queue) (Read r w) (OfQueue S) (Unchanged w.db w.queue)
              _ (story_status-Holds w.db w.queue r.story_id) (λ f db q x. x))
            (next-Sent explain run_id r w e) v u

      finish : (x : Result Outcome × World) → Ends (λ _. OfQueue S) (OfQueue S) x → S x.1.queue
      finish (ok a, v) s = s
      finish (err f, v) s = s
