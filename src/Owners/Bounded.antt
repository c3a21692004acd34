-- ===== src/Owners/Bounded.antt =====
-- services/scheduler/src/tasks/owner_notifications.py: how often a message is attempted.
use codegen_orchestrator.Prelude.{
  ℕ, suc, ◌+◌, ◌≤◌, ◌<◌, String, Bool, true, false, Option, none, some, not, ◌≡◌, refl, subst,
  arith, inl, inr, ◌⊎◌, leb, if◌then◌else◌,
}
use codegen_orchestrator.Contracts.Story.{StoryStatus}
use codegen_orchestrator.Contracts.Story as Story
use codegen_orchestrator.Session.{Db, Fault, Result, ok, err}
use codegen_orchestrator.Dispatch.Client.{World, return, outcome, ◌>>=◌, ◌>>◌}
use codegen_orchestrator.Dispatch.Recipient.{Recipient, resolve_project_recipient}
use codegen_orchestrator.Dispatch.Hoare.{
  Claim, Ends, Holds, return-Holds, onward-Holds, outcome-Holds, anything-Holds, weaken-Holds,
}
use codegen_orchestrator.Owners.Record.{
  OwnerNotification, OwnerNotificationState, owed, delivered, unaddressable, abandoned, voided,
  is_owed, Codec,
}
use codegen_orchestrator.Owners.Delivery.{
  Outcome, delivery, retrying, exhausted, void, skipped, max_attempts, settle, settled,
  spend_failed_attempt, send, send_to, after_send, after_story, mismatch, get_story_status,
  deliver_owed_notification,
}
use codegen_orchestrator.Owners.Written.{Carries, carries, write_record-Carries}

-- The matter is settled, or one more attempt of the three is spent.
abbrev pub Advanced : OwnerNotification → OwnerNotification → Type 0
Advanced r r' =
    (is_owed r'.state ≡ false) ⊎ ((r'.attempts ≡ suc r.attempts) × (r'.attempts < max_attempts))

abbrev Any : Claim
Any db q = Unit

module _ ⦃codec : Codec⦄ where
  pub data Visited (run_id : String) (r : OwnerNotification) (db : Db) : Type 0 where
    visited : (r' : OwnerNotification) → Carries run_id r' db → Advanced r r' → Visited run_id r db

  module _ (run_id : String) (r : OwnerNotification) where
    settle-Visited :
        (P : Claim) (s : OwnerNotificationState) (detail : Option String) (n : ℕ)
        → Advanced r (settled r s detail n)
        → Holds P (settle run_id r s detail n) (λ _ db q. Visited run_id r db) Any
    unfolding settle
    settle-Visited P s detail n a =
        weaken-Holds P (λ _ db q. Carries run_id (settled r s detail n) db)
          (λ _ db q. Visited run_id r db) Any Any _ (λ _ db q c. visited (settled r s detail n) c a)
          (λ db q e. tt) (write_record-Carries P run_id (settled r s detail n) Any (λ db q. tt))

    then_return-Visited :
        (P : Claim) {A : Type 0} (a : A) (s : OwnerNotificationState) (detail : Option String)
        (n : ℕ)
        → Advanced r (settled r s detail n)
        → Holds P (settle run_id r s detail n >> return a) (λ _ db q. Visited run_id r db) Any
    then_return-Visited P a s detail n h =
        onward-Holds P (λ _ db q. Visited run_id r db) Any (λ _ db q. Visited run_id r db) _ _
          (settle-Visited P s detail n h)
          (λ _. return-Holds _ (λ _ db q. Visited run_id r db) Any a (λ db q v. v))

    spend-Visited :
        (P : Claim) (error : String)
        → Holds P
            (spend_failed_attempt run_id r (suc r.attempts) error)
            (λ _ db q. Visited run_id r db)
            Any
    unfolding spend_failed_attempt settled
    spend-Visited P error = go (leb max_attempts (suc r.attempts)) refl
      where
        go :
            (b : Bool)
            → leb max_attempts (suc r.attempts) ≡ b
            → Holds P
                (if b
                  then settle run_id r abandoned (some error) (suc r.attempts) >> return exhausted
                  else settle run_id r owed (some error) (suc r.attempts) >> return retrying)
                (λ _ db q. Visited run_id r db)
                Any
        go true e =
            then_return-Visited P exhausted abandoned (some error) (suc r.attempts) (inl refl)
        go false e =
            then_return-Visited P retrying owed (some error) (suc r.attempts)
              (inr (refl, ground arith))

    -- Without a chat the record is settled; a publication does not write it.
    abbrev Refused : Bool → Claim
    Refused true db q = Unit
    Refused false db q = Visited run_id r db

    send-Refused : (P : Claim) → Holds P (send run_id r) Refused Any
    unfolding send
    send-Refused P =
        onward-Holds P Refused Any (λ _. Any) (resolve_project_recipient r.project_id) _
          (anything-Holds P (λ _. Any) Any _ (λ _ _ _. tt) (λ _ _. tt))
          (λ recipient. to recipient recipient.telegram_chat_id)
      where
        to :
            (recipient : Recipient) (chat : Option ℕ)
            → Holds Any (send_to run_id r recipient chat) Refused Any
        to recipient none =
            onward-Holds Any Refused Any (λ _ db q. Visited run_id r db) _ _
              (settle-Visited Any unaddressable (some recipient.unaddressed_reason) (suc r.attempts)
                (inl refl))
              (λ _. return-Holds _ Refused Any false (λ db q v. v))
        to recipient (some chat) =
            onward-Holds Any Refused Any (λ _. Any) _ _
              (anything-Holds Any (λ _. Any) Any _ (λ _ _ _. tt) (λ _ _. tt))
              (λ _. return-Holds Any Refused Any true (λ db q v. tt))

    module _ (explain : Fault → String) where
      abbrev After : Result Bool → Claim
      After (ok b) = Refused b
      After (err f) = Any

      after_send-Visited :
          (x : Result Bool)
          → Holds (After x) (after_send explain run_id r x) (λ _ db q. Visited run_id r db) Any
      unfolding after_send
      after_send-Visited (err f) w p = spend-Visited Any (explain f) w p
      after_send-Visited (ok false) w p =
          return-Holds (Refused false) (λ _ db q. Visited run_id r db) Any _ (λ db q v. v) w p
      after_send-Visited (ok true) w p =
          then_return-Visited Any delivery delivered none (suc r.attempts) (inl refl) w p

      after_story-Visited :
          (x : Result StoryStatus)
          → Holds Any (after_story explain run_id r x) (λ _ db q. Visited run_id r db) Any
      unfolding after_story
      after_story-Visited (err f) w p = spend-Visited Any (explain f) w p
      after_story-Visited (ok s) w p = go (Story.is s r.terminal_status) w p
        where
          go :
              (b : Bool)
              → Holds Any
                  (if b
                    then outcome (send run_id r) >>= (λ sent. after_send explain run_id r sent)
                    else settle run_id r voided (some (mismatch explain run_id r s)) r.attempts
                      >> return void)
                  (λ _ db q. Visited run_id r db)
                  Any
          go true =
              onward-Holds Any (λ _ db q. Visited run_id r db) Any After _ _
                (outcome-Holds Any After Any Any _ (send-Refused Any) (λ f db q e. tt))
                after_send-Visited
          go false =
              then_return-Visited Any void voided (some (mismatch explain run_id r s)) r.attempts
                (inl refl)

      deliver-Visited :
          is_owed r.state ≡ true
          → Holds Any
              (deliver_owed_notification explain run_id r)
              (λ _ db q. Visited run_id r db)
              Any
      unfolding deliver_owed_notification
      deliver-Visited h = go (is_owed r.state) h
        where
          go :
              (b : Bool)
              → b ≡ true
              → Holds Any
                  (if not b then return skipped else do
                    story ← outcome (get_story_status r.story_id)
                    after_story explain run_id r story)
                  (λ _ db q. Visited run_id r db)
                  Any
          go true e =
              onward-Holds Any (λ _ db q. Visited run_id r db) Any (λ _. Any) _ _
                (anything-Holds Any (λ _. Any) Any _ (λ _ _ _. tt) (λ _ _. tt)) after_story-Visited
          go false e = absurd (ground arith)

  -- `n` visits that returned, the first to that record, each to the record that the run carried by then.
  pub data Visits (explain : Fault → String) (run_id : String)
      : ℕ → OwnerNotification → Type 0 where
    no_visit : (r : OwnerNotification) → Visits explain run_id 0 r
    visit :
        {n : ℕ} (r r' : OwnerNotification) (w v : World) (o : Outcome)
        → is_owed r.state ≡ true
        → deliver_owed_notification explain run_id r w ≡ (ok o, v)
        → Carries run_id r' v.db
        → Visits explain run_id n r'
        → Visits explain run_id (suc n) r

  carried_same :
      (run_id : String) (r s : OwnerNotification) (db : Db)
      → Carries run_id r db
      → Carries run_id s db
      → r ≡ s
  carried_same run_id r s db (carries a e f) (carries b g h) =
      let same : a ≡ b = ground (arith, e, g) in ground (arith, same, f, h)

  visited_by :
      (explain : Fault → String) (run_id : String) (r : OwnerNotification) (w v : World)
      (o : Outcome)
      → is_owed r.state ≡ true
      → deliver_owed_notification explain run_id r w ≡ (ok o, v)
      → Visited run_id r v.db
  visited_by explain run_id r w v o h e =
      subst (Ends (λ _ db q. Visited run_id r db) Any) e (deliver-Visited run_id r explain h w tt)

  -- If an owed message is visited and the visit returns, the run carries a record that is no longer
  -- owed, or that counts one attempt more and still fewer than three.
  pub deliver_owed_notification-advances :
      (explain : Fault → String) (run_id : String) (r : OwnerNotification) (w v : World)
      (o : Outcome) (r' : OwnerNotification)
      → is_owed r.state ≡ true
      → deliver_owed_notification explain run_id r w ≡ (ok o, v)
      → Carries run_id r' v.db
      → Advanced r r'
  deliver_owed_notification-advances explain run_id r w v o r' h e c =
      go (visited_by explain run_id r w v o h e)
    where
      go : Visited run_id r v.db → Advanced r r'
      go (visited s d a) = subst (Advanced r) (carried_same run_id s r' v.db d c) a

  settled_ends :
      (explain : Fault → String) (run_id : String) (n : ℕ) (r : OwnerNotification)
      → is_owed r.state ≡ false
      → Visits explain run_id n r
      → n ≡ 0
  settled_ends explain run_id n r h (no_visit s) = refl
  settled_ends explain run_id n r h (visit s r' w v o i e c rest) = absurd (ground arith)

  -- A message that was owed with fewer than three attempts is visited at most as often as attempts
  -- remain of the three, where each visit returns and takes the record that the run carries by then:
  -- after that it is settled. The codec is any that reads back each record as it was written, and
  -- never writes `None`.
  pub Visits-bounded :
      (explain : Fault → String) (run_id : String) (n : ℕ) (r : OwnerNotification)
      → Visits explain run_id n r
      → r.attempts < max_attempts
      → n + r.attempts ≤ max_attempts
  Visits-bounded explain run_id n r (no_visit s) b = omega (arith, b)
  Visits-bounded explain run_id (suc n) r (visit s r' w v o i e c rest) b =
      go (deliver_owed_notification-advances explain run_id r w v o r' i e c)
        (λ l. Visits-bounded explain run_id n r' rest l)
    where
      go :
          Advanced r r'
          → (r'.attempts < max_attempts → n + r'.attempts ≤ max_attempts)
          → suc n + r.attempts ≤ max_attempts
      go (inl d) f = omega (arith, b, settled_ends explain run_id n r' d rest)
      go (inr (q, l)) f = omega (arith, q, f l)
