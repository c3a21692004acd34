-- ===== src/Grants/Observe.antt =====
-- services/api/src/routers/temporary_access.py: readings of the running service.
use Prim.Native.String.{◌++◌ as append}
use Prim.Native.Nat.{zero, suc, ◌/◌, ◌%◌}
use codegen_orchestrator.Prelude.{
  ℕ, ◌+◌, String, Bool, true, false, none, some, ◌&&◌, ◌||◌, not, ◌==◌, ◌=ₛ◌, leb, if◌then◌else◌,
  is_some,
}
use codegen_orchestrator.Contracts.Access.{
  TemporaryAccessGrant, TemporaryAccessStatus, revoking, revoked, is_revoked, observed_after_revoke,
  Observation, revoke_confirmation_readings, revoke_confirmation_window,
}
use codegen_orchestrator.Session.{
  Env, Handler, conflict, unprocessable, pure, lift, gets, commit, check, ◌>>=◌, ◌>>◌,
}
use codegen_orchestrator.Actor.{Caller, require_internal_or_admin}
use codegen_orchestrator.Grants.Rows.{load, save_grant, holder}

abbrev pub is_revoking : TemporaryAccessStatus → Bool
is_revoking revoking = true
is_revoking _ = false

-- The reading is kept, whatever it says.
unfoldable pub observed : ℕ → Observation → TemporaryAccessGrant → TemporaryAccessGrant
observed now observation grant = record grant {
  observation_id = some observation.observation_id;
  observed_at = some now;
}

unfoldable pub store : TemporaryAccessGrant → Handler TemporaryAccessGrant
unfolding save_grant
store grant = do save_grant grant; commit; pure grant

-- The reading that the grant was given last.
abbrev pub repeats : Observation → TemporaryAccessGrant → Bool
repeats observation grant = elim grant.observation_id [
  | none ↦ false
  | some id ↦ id =ₛ observation.observation_id
]

abbrev digit : ℕ → String
digit d =
    if d == 0
    then "0"
    else if d == 1
    then "1"
    else if d == 2
    then "2"
    else if d == 3
    then "3"
    else if d == 4
    then "4"
    else if d == 5
    then "5"
    else if d == 6
    then "6"
    else if d == 7
    then "7"
    else if d == 8
    then "8"
    else "9"

-- The decimal text of a number; a number has fewer digits than one more than itself.
show_digits : (fuel n : ℕ) → String → String
show_digits zero n shown = shown
show_digits (suc fuel) n shown = elim (n / 10 == 0) [
  | true ↦ append (digit (n % 10)) shown
  | false ↦ show_digits fuel (n / 10) (append (digit (n % 10)) shown)
]

-- `f"... is set on application ..."`
unfoldable pub reopen_error : (env_key : String) → (application_id : ℕ) → String
unfolding show_digits
reopen_error env_key application_id = append env_key (
    append " is set on application " (
      append (show_digits (suc application_id) application_id "")
        " after the grant was confirmed revoked"))

-- A closed grant whose slot is filled again, and owned by nobody.
unfoldable pub reopened : ℕ → Observation → TemporaryAccessGrant → TemporaryAccessGrant
reopened now observation grant = record grant {
  status = revoking;
  revoke_reason = some observed_after_revoke;
  revoked_at = none;
  reopened_at = some now;
  revoke_attempts = 0;
  slot_clear_since = none;
  slot_clear_readings = 0;
  last_error = some (reopen_error observation.env_key observation.application_id);
}

unfoldable pub read_a_closed_grant :
    TemporaryAccessGrant → Observation → (now : ℕ) → Handler TemporaryAccessGrant
unfolding store reopened
read_a_closed_grant grant observation now =
    if not observation.present
    then store (record grant { slot_clear_readings = suc grant.slot_clear_readings })
    else do
      -- The grant itself was changed and flushed before the query.
      save_grant grant
      answer ← gets (holder grant.project_id grant.env_key)
      owner ← lift answer
      if is_some owner then store grant else store (reopened now observation grant)

-- The slot was found filled: the streak of clear readings is over.
unfoldable pub filled : TemporaryAccessGrant → TemporaryAccessGrant
filled grant = record grant { slot_clear_since = none; slot_clear_readings = 0 }

-- The slot was found clear: the streak of clear readings begins or goes on.
unfoldable pub cleared : ℕ → TemporaryAccessGrant → TemporaryAccessGrant
cleared now grant = elim grant.slot_clear_since [
  | none ↦ record grant { slot_clear_since = some now; slot_clear_readings = 1 }
  | some since ↦ record grant { slot_clear_readings = suc grant.slot_clear_readings }
]

-- Enough clear readings, and over a long enough time.
unfoldable pub confirmed : ℕ → TemporaryAccessGrant → Bool
confirmed now grant =
    leb revoke_confirmation_readings grant.slot_clear_readings && elim grant.slot_clear_since [
      | none ↦ false
      | some since ↦ leb (since + revoke_confirmation_window) now
    ]

unfoldable pub closed : ℕ → TemporaryAccessGrant → TemporaryAccessGrant
closed now grant = record grant { status = revoked; revoked_at = some now }

-- What a clear reading does to a grant that is being revoked.
unfoldable pub settle : ℕ → TemporaryAccessGrant → Handler TemporaryAccessGrant
unfolding store confirmed closed
settle now grant =
    if confirmed now grant
    then (do lift (check (is_some grant.revoke_reason) unprocessable); store (closed now grant))
    else store grant

unfoldable pub record_observation :
    Env → Caller → String → Observation → Handler TemporaryAccessGrant
unfolding require_internal_or_admin load observed read_a_closed_grant filled cleared settle store
record_observation env caller id observation = do
  require_internal_or_admin caller
  grant ← load id
  lift (check (observation.env_key =ₛ grant.env_key) unprocessable)
  lift (check (observation.application_id == grant.qa_message.application_id) unprocessable)
  lift (check (is_revoking grant.status || is_revoked grant.status) conflict)
  if repeats observation grant
      then pure grant
      else if is_revoked grant.status
      then read_a_closed_grant (observed env.now observation grant) observation env.now
      else if observation.present
      then store (filled (observed env.now observation grant))
      else settle env.now (cleared env.now (observed env.now observation grant))
