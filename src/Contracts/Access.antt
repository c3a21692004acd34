-- ===== src/Contracts/Access.antt =====
-- shared/contracts/dto/temporary_access.py and shared/models/temporary_access_grant.py: the record
-- of one temporary access grant, and the readings that settle it.
use codegen_orchestrator.Prelude.{ℕ, ◌*◌, String, Bool, true, false, Option}
use codegen_orchestrator.Contracts.Column.{Patch}
use codegen_orchestrator.Contracts.Json.{Json, Dict}

pub data TemporaryAccessStatus : Type 0 where
  granting granted revoking revoked revoke_failed : TemporaryAccessStatus

abbrev pub is_revoked : TemporaryAccessStatus → Bool
is_revoked revoked = true
is_revoked _ = false

-- LIVE_TEMPORARY_ACCESS_STATUSES
abbrev pub is_live : TemporaryAccessStatus → Bool
is_live granting = true
is_live granted = true
is_live revoking = true
is_live revoke_failed = true
is_live revoked = false

pub data TemporaryAccessRevokeReason : Type 0 where
  run_terminal run_missing expired grant_failed observed_after_revoke : TemporaryAccessRevokeReason

-- Ten minutes, in microseconds.
abbrev pub revoke_confirmation_window : ℕ
revoke_confirmation_window = 10 * 60 * 1000000

abbrev pub revoke_confirmation_readings : ℕ
revoke_confirmation_readings = 2

-- The QA handoff: the application that the grant is tested on, and the rest of the message.
pub record QaMessage : Type 0 where
  pub application_id : ℕ
  pub rest : Dict

pub record TemporaryAccessGrant : Type 0 where
  pub id : String
  pub project_id : String
  pub env_key : String
  pub subject : String
  pub head_sha : String
  pub qa_run_id : String
  pub grant_run_id : String
  pub qa_message : QaMessage
  pub status : TemporaryAccessStatus
  pub granted_at : ℕ
  pub qa_dispatched_at : Option ℕ
  pub revoked_at : Option ℕ
  pub revoke_reason : Option TemporaryAccessRevokeReason
  pub revoke_run_id : Option String
  pub revoke_attempts : ℕ
  pub escalated_at : Option ℕ
  pub last_error : Option String
  pub observed_at : Option ℕ
  pub observation_id : Option String
  pub slot_clear_since : Option ℕ
  pub slot_clear_readings : ℕ
  pub reopened_at : Option ℕ

pub record GrantCreate : Type 0 where
  pub id : String
  pub project_id : String
  pub env_key : String
  pub subject : String
  pub head_sha : String
  pub qa_run_id : String
  pub grant_run_id : String
  pub qa_message : QaMessage

-- The body of `PATCH /temporary-access-grants/{grant_id}`.
pub record GrantUpdate : Type 0 where
  pub status : Patch TemporaryAccessStatus
  pub grant_run_id : Patch String
  pub qa_dispatched : Patch Bool
  pub revoke_reason : Patch TemporaryAccessRevokeReason
  pub revoke_run_id : Patch String
  pub revoke_attempts : Patch ℕ
  pub escalated : Patch Bool
  pub last_error : Patch String

pub record Observation : Type 0 where
  pub observation_id : String
  pub application_id : ℕ
  pub server_handle : String
  pub service_slug : String
  pub env_key : String
  pub present : Bool
  pub containers : ℕ

pub record Escalation : Type 0 where
  pub error : String
  pub run_error_message : String
  pub run_result : Json
