-- ===== src/Placement/Search.antt =====
-- services/langgraph/src/allocations.py: the search for a server with room for an application. What
-- the search reads through the API is one snapshot.
use codegen_orchestrator.Prelude.{
  ℕ, ◌+◌, ◌-◌, ◌*◌, String, Bool, true, false, Option, none, some, List, [], ◌∷◌, ◌=ₛ◌, ◌&&◌, any,
  filter, not, leb, ltb, if◌then◌else◌,
}
use codegen_orchestrator.Placement.Admission.{
  Server, Incident, ServerAdmissionRejection, provisioning_failed_server_handles,
  server_admission_rejection,
}

pub data ApplicationStatus : Type 0 where
  not_deployed deploying running stopping stopped undeploying down degraded : ApplicationStatus

-- The fields of an application that the search reads.
pub record Application : Type 0 where
  pub server_handle : String
  pub status : ApplicationStatus
  pub reserved_ram_mb : ℕ

pub data AllocationFailureReason : Type 0 where
  insufficient_free_memory insufficient_reserved_memory impossible_capacity no_fresh_metrics
        server_not_provisioned :
      AllocationFailureReason

-- What the API and the settings say at the time of a search.
pub record Fleet : Type 0 where
  pub servers : List Server
  pub incidents : List Incident
  pub applications : List Application
  pub now : ℕ
  pub ram_reserve_mb : ℕ
  pub metrics_freshness_seconds : ℕ

abbrev pub holds_ram_reservation : Application → Bool
holds_ram_reservation app = elim app.status [ not_deployed ↦ false | stopped ↦ false | _ ↦ true ]

unfoldable pub sum_reserved : List Application → ℕ
sum_reserved [] = 0
sum_reserved (app ∷ apps) = app.reserved_ram_mb + sum_reserved apps

-- The applications on the server that hold a reservation, summed.
unfoldable pub reserved_ram_mb : Fleet → Server → ℕ
unfolding sum_reserved
reserved_ram_mb fleet srv = sum_reserved (
    filter (λ app. app.server_handle =ₛ srv.handle && holds_ram_reservation app) fleet.applications)

-- Ages are compared in microseconds.
abbrev pub has_fresh_metrics : (now : ℕ) → Option ℕ → (freshness_seconds : ℕ) → Bool
has_fresh_metrics now none freshness_seconds = false
has_fresh_metrics now (some checked) freshness_seconds =
    leb checked now && leb now (checked + freshness_seconds * 1000000)

abbrev pub allocation_required_ram_mb : Fleet → ℕ → ℕ
allocation_required_ram_mb fleet min_ram_mb = min_ram_mb + fleet.ram_reserve_mb

abbrev pub larger : ℕ → ℕ → ℕ
larger a b = if leb a b then b else a

-- What the loop of `_find_suitable_server` makes of one server.
pub data Verdict : Type 0 where
  refused : ServerAdmissionRejection → Verdict
  short_disk short_reserved stale short_free : Verdict
  fits : (headroom : ℕ) → Verdict

unfoldable pub judge : Fleet → (required_ram_mb min_disk_mb : ℕ) → Server → Verdict
judge fleet required_ram_mb min_disk_mb srv =
    elim (server_admission_rejection srv (provisioning_failed_server_handles fleet.incidents)) [
      | some r ↦ refused r
      | none ↦
          let reserved = reserved_ram_mb fleet srv in
          let used = larger reserved srv.used_ram_mb in
          if ltb srv.capacity_disk_mb min_disk_mb
          then short_disk
          else if ltb srv.capacity_ram_mb (reserved + required_ram_mb)
          then short_reserved
          else if not
              (has_fresh_metrics fleet.now srv.last_health_check fleet.metrics_freshness_seconds)
          then stale
          else if ltb srv.capacity_ram_mb (used + required_ram_mb)
          then short_free
          else fits (srv.capacity_ram_mb - used)
    ]

-- `suitable`, in the order of the servers.
unfoldable pub suitable :
    Fleet → (required_ram_mb min_disk_mb : ℕ) → List Server → List (Server × ℕ)
unfolding judge
suitable fleet ram disk [] = []
suitable fleet ram disk (srv ∷ servers) =
    let rest = suitable fleet ram disk servers in
    elim (judge fleet ram disk srv) [ fits headroom ↦ (srv, headroom) ∷ rest | _ ↦ rest ]

abbrev pub is_refused : Verdict → Bool
is_refused (refused r) = true
is_refused _ = false

abbrev pub is_stale : Verdict → Bool
is_stale stale = true
is_stale _ = false

abbrev pub is_short_reserved : Verdict → Bool
is_short_reserved short_reserved = true
is_short_reserved _ = false

abbrev pub could_fit : (required_ram_mb min_disk_mb : ℕ) → Server → Bool
could_fit ram disk srv = leb ram srv.capacity_ram_mb && leb disk srv.capacity_disk_mb

abbrev pub request_exceeds_every_server : List Server → (required_ram_mb min_disk_mb : ℕ) → Bool
request_exceeds_every_server servers ram disk = not (any (could_fit ram disk) servers)

-- `max(suitable, key=...)`: the first of the largest.
unfoldable pub most_headroom : Server × ℕ → List (Server × ℕ) → Server × ℕ
most_headroom best [] = best
most_headroom best (candidate ∷ rest) =
    most_headroom (if ltb best.1 candidate.1 then candidate else best) rest

pub data Placed : Type 0 where
  placed : Server → Placed
  failed : AllocationFailureReason → Placed

-- Why the search failed, from what it made of the servers.
unfoldable pub failure_reason :
    Fleet → (required_ram_mb min_disk_mb : ℕ) → List Server → AllocationFailureReason
unfolding judge
failure_reason fleet ram disk servers =
    if request_exceeds_every_server servers ram disk
    then impossible_capacity
    else if any (λ s. is_refused (judge fleet ram disk s)) servers
    then server_not_provisioned
    else if any (λ s. is_stale (judge fleet ram disk s)) servers
    then no_fresh_metrics
    else if any (λ s. is_short_reserved (judge fleet ram disk s)) servers
    then insufficient_reserved_memory
    else insufficient_free_memory

abbrev pub choose : (List (Server × ℕ)) → AllocationFailureReason → Placed
choose [] reason = failed reason
choose (best ∷ rest) reason = placed (most_headroom best rest).0

-- `list_servers(is_managed=True)`
abbrev pub managed : List Server → List Server
managed servers = filter (λ srv. srv.is_managed) servers

unfoldable pub find_suitable_server : Fleet → (min_ram_mb min_disk_mb : ℕ) → Placed
unfolding suitable most_headroom failure_reason
find_suitable_server fleet min_ram_mb min_disk_mb =
    let ram = allocation_required_ram_mb fleet min_ram_mb in
    let servers = managed fleet.servers in
    choose (suitable fleet ram min_disk_mb servers) (failure_reason fleet ram min_disk_mb servers)
