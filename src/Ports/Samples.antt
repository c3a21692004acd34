-- ===== src/Ports/Samples.antt =====
-- Tests of `allocate_next_port`, and its theorems at a concrete table.
use codegen_orchestrator.Prelude.{
  ℕ, ◌+◌, ◌≤◌, true, none, List, [], ◌∷◌, ◌≡◌, refl, length, ◌==◌, if◌then◌else◌,
}
use codegen_orchestrator.Session.{ok, ◌>>=◌}
use codegen_orchestrator.Actor.{require_internal_or_admin, resolve_actor}
use codegen_orchestrator.Fixtures.{empty_db}
use codegen_orchestrator.Runs.Lease.{service}
use codegen_orchestrator.Ports.Allocation.{
  PortAllocation, AllocateNextPortRequest, Ports, Meanwhile, next_free, allocate_next_port,
}
use codegen_orchestrator.Ports.Least.{IsLeast, next_free-IsLeast}

abbrev row : ℕ → PortAllocation
row port = record {
  server_handle = "h";
  port = port;
  service_name = "backend";
  application_id = none;
}

abbrev backend : AllocateNextPortRequest
backend = record { service_name = "backend"; application_id = none; start_port = 8000 }

abbrev ports : Ports
ports = record { servers = "h" ∷ []; allocations = row 8000 ∷ row 8002 ∷ [] }

-- Another session takes port 8001 before the first attempt commits.
abbrev coming : ℕ → Meanwhile
coming n = record { rivals = if n == 0 then row 8001 ∷ [] else []; keys_valid = true }

raced : (allocate_next_port empty_db service "h" backend coming ports).0 ≡ ok (row 8003)
unfolding allocate_next_port require_internal_or_admin resolve_actor ◌>>=◌
raced = refl

abbrev held : List ℕ
held = 8000 ∷ 8002 ∷ []

next_free-IsLeast_example :
    IsLeast held 8000 (next_free held 8000) × (next_free held 8000 ≤ 8000 + length held)
next_free-IsLeast_example = next_free-IsLeast held 8000
