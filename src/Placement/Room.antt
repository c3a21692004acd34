-- ===== src/Placement/Room.antt =====
-- services/langgraph/src/allocations.py: when the search for a server fails.
use codegen_orchestrator.Prelude.{
  ℕ, ◌+◌, Bool, true, false, none, some, Option, List, [], ◌∷◌, ◌≡◌, inl, inr, refl, arith, any,
  not, leb, ◌&&◌, Bool-cases, Option-cases,
}
use codegen_orchestrator.Placement.Admission.{
  Server, ServerAdmissionRejection, server_admission_rejection, provisioning_failed_server_handles,
}
use codegen_orchestrator.Placement.Search.{
  Fleet, Verdict, refused, short_disk, short_reserved, stale, short_free, fits, judge, suitable,
  failure_reason, find_suitable_server, managed, Placed, placed, failed, reserved_ram_mb,
  has_fresh_metrics, AllocationFailureReason, choose,
}
use codegen_orchestrator.Placement.Chosen.{is_fit}

abbrev pub may_host : Option ServerAdmissionRejection → Bool
may_host none = true
may_host (some rejection) = false

abbrev pub is_failed : Placed → Bool
is_failed (placed srv) = false
is_failed (failed reason) = true

-- The server may host applications, reports fresh metrics, has the disk, and has the memory beside
-- what is reserved on it and beside what is in use.
unfoldable pub has_room : Fleet → (ram disk : ℕ) → Server → Bool
has_room fleet ram disk srv =
    may_host (server_admission_rejection srv (provisioning_failed_server_handles fleet.incidents))
    && has_fresh_metrics fleet.now srv.last_health_check fleet.metrics_freshness_seconds
    && leb disk srv.capacity_disk_mb
    && leb (reserved_ram_mb fleet srv + ram) srv.capacity_ram_mb
    && leb (srv.used_ram_mb + ram) srv.capacity_ram_mb

module _ (fleet : Fleet) (ram disk : ℕ) where
  fit-room : (s : Server) → is_fit (judge fleet ram disk s) ≡ has_room fleet ram disk s
  unfolding judge has_room
  fit-room s =
      elim (Option-cases
        (server_admission_rejection s (provisioning_failed_server_handles fleet.incidents))) [
          | inr (r, a) ↦ ground arith
          | inl a ↦
              elim (Bool-cases
                (has_fresh_metrics fleet.now s.last_health_check fleet.metrics_freshness_seconds)) [
                  | inl m ↦ ground arith
                  | inr m ↦ ground arith
                ]
        ]

  choose-cons :
      (s : Server) (rest : List (Server × ℕ)) (v : Verdict) (reason : AllocationFailureReason)
      → is_failed (choose (elim v [ fits headroom ↦ (s, headroom) ∷ rest | _ ↦ rest ]) reason)
        ≡ (not (is_fit v) && is_failed (choose rest reason))
  choose-cons s rest (refused r) reason = refl
  choose-cons s rest short_disk reason = refl
  choose-cons s rest short_reserved reason = refl
  choose-cons s rest stale reason = refl
  choose-cons s rest short_free reason = refl
  choose-cons s rest (fits h) reason = refl

  choose-room :
      (servers : List Server) (reason : AllocationFailureReason)
      → is_failed (choose (suitable fleet ram disk servers) reason)
        ≡ not (any (has_room fleet ram disk) servers)
  unfolding suitable
  choose-room [] reason = refl
  choose-room (s ∷ servers) reason = ground (
    arith,
    choose-cons s (suitable fleet ram disk servers) (judge fleet ram disk s) reason,
    fit-room s,
    choose-room servers reason,
  )

-- The search fails just where no managed server has room for the application, with the memory that
-- is kept in reserve added to what it asks for.
pub find_suitable_server-failed :
    (fleet : Fleet) (min_ram_mb min_disk_mb : ℕ)
    → is_failed (find_suitable_server fleet min_ram_mb min_disk_mb)
      ≡ not (
          any
            (has_room fleet (min_ram_mb + fleet.ram_reserve_mb) min_disk_mb)
            (managed fleet.servers))
unfolding find_suitable_server
find_suitable_server-failed fleet min_ram_mb disk =
    choose-room fleet (min_ram_mb + fleet.ram_reserve_mb) disk (managed fleet.servers)
      (failure_reason fleet (min_ram_mb + fleet.ram_reserve_mb) disk (managed fleet.servers))
