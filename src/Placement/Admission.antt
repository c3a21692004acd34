-- ===== src/Placement/Admission.antt =====
-- shared/server_admission.py: whether a server may host an application at all.
use codegen_orchestrator.Prelude.{
  ℕ, String, Bool, true, false, Option, none, some, List, ◌=ₛ◌, any, not, if◌then◌else◌,
}
use codegen_orchestrator.Contracts.Json
use codegen_orchestrator.Contracts.Json.{Json, Dict, json_eq}

pub data ServerStatus : Type 0 where
  discovered new pending_setup provisioning force_rebuild ready in_use active error unreachable
        maintenance reserved missing decommissioned :
      ServerStatus

-- The fields of a server that a placement reads.
pub record Server : Type 0 where
  pub handle : String
  pub public_ip : String
  pub status : ServerStatus
  pub is_managed : Bool
  pub labels : Dict
  pub capacity_ram_mb : ℕ
  pub capacity_disk_mb : ℕ
  pub used_ram_mb : ℕ
  pub last_health_check : Option ℕ

pub data IncidentType : Type 0 where
  server_unreachable provisioning_failed service_down resource_exhausted ssl_expiring
        provider_api_unavailable :
      IncidentType

pub record Incident : Type 0 where
  pub server_handle : Option String
  pub incident_type : IncidentType

-- ADMITTING_SERVER_STATUSES
abbrev pub admitting : ServerStatus → Bool
admitting active = true
admitting ready = true
admitting in_use = true
admitting _ = false

pub data ServerAdmissionRejection : Type 0 where
  not_managed status_not_admitting provisioning_incomplete provisioning_failed :
      ServerAdmissionRejection

-- `incident.incident_type is IncidentType.PROVISIONING_FAILED`, for this server
abbrev pub is_failure_of : String → Incident → Bool
is_failure_of handle incident = elim incident.incident_type [
  | IncidentType.provisioning_failed ↦ elim incident.server_handle [
    | none ↦ false
    | some h ↦ h =ₛ handle
  ]
  | _ ↦ false
]

-- `handle in provisioning_failed_server_handles(incidents)`
unfoldable pub provisioning_failed_server_handles : List Incident → String → Bool
provisioning_failed_server_handles incidents handle = any (is_failure_of handle) incidents

-- `labels.get("provisioning_phase") == "complete"`
abbrev pub is_provisioned : Dict → Bool
is_provisioned labels = elim (Json.get "provisioning_phase" labels) [
  | none ↦ false
  | some phase ↦ json_eq phase (Json.text "complete")
]

unfoldable pub server_admission_rejection :
    Server → (provisioning_failed_handles : String → Bool) → Option ServerAdmissionRejection
server_admission_rejection server failed_handles =
    if not server.is_managed
    then some not_managed
    else if not (admitting server.status)
    then some status_not_admitting
    else if not (is_provisioned server.labels)
    then some provisioning_incomplete
    else if failed_handles server.handle
    then some ServerAdmissionRejection.provisioning_failed
    else none
