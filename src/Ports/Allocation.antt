-- ===== src/Ports/Allocation.antt =====
-- services/api/src/routers/servers.py: `allocate_next_port`, and the table of
-- shared/models/port_allocation.py. A start port is not negative.
use codegen_orchestrator.Prelude.{
  ℕ, zero, suc, String, Bool, Option, List, [], ◌∷◌, ◌++◌, ◌=ₛ◌, ◌==◌, ◌&&◌, not, if◌then◌else◌,
  any, filter, map, length,
}
use codegen_orchestrator.Session.{Db, Result, ok, err, conflict, not_found, respond}
use codegen_orchestrator.Actor.{Caller, require_internal_or_admin}

pub record PortAllocation : Type 0 where
  pub server_handle : String
  pub port : ℕ
  pub service_name : String
  pub application_id : Option ℕ

pub record AllocateNextPortRequest : Type 0 where
  pub service_name : String
  pub application_id : Option ℕ
  pub start_port : ℕ

-- What the endpoint reads and writes.
pub record Ports : Type 0 where
  pub servers : List String
  pub allocations : List PortAllocation

-- What happens between an attempt's reading and its commit: the rows that others have committed by
-- then, and whether the database accepts the foreign keys of the new row.
pub record Meanwhile : Type 0 where
  pub rivals : List PortAllocation
  pub keys_valid : Bool

abbrev pub takes : String → ℕ → PortAllocation → Bool
takes handle port a = a.server_handle =ₛ handle && a.port == port

abbrev pub allocated_ports : String → List PortAllocation → List ℕ
allocated_ports handle table =
    map (λ (a : PortAllocation). a.port) (filter (λ a. a.server_handle =ₛ handle) table)

abbrev pub holds : ℕ → List ℕ → Bool
holds port = any (λ p. p == port)

-- `while port in allocated_ports: port += 1`
unfoldable pub search : ℕ → List ℕ → ℕ → ℕ
search zero allocated port = port
search (suc fuel) allocated port =
    let rest = search fuel allocated (suc port) in if holds port allocated then rest else port

-- As many steps as there are allocated ports are enough.
unfoldable pub next_free : List ℕ → ℕ → ℕ
unfolding search
next_free allocated start = search (length allocated) allocated start

unfoldable pub new_allocation : String → AllocateNextPortRequest → ℕ → PortAllocation
new_allocation handle req port = record {
  server_handle = handle;
  port = port;
  service_name = req.service_name;
  application_id = req.application_id;
}

abbrev pub chosen : String → AllocateNextPortRequest → Ports → PortAllocation
chosen handle req ports =
    new_allocation handle req (next_free (allocated_ports handle ports.allocations) req.start_port)

-- The rows that the commit finds.
abbrev pub joined : Meanwhile → Ports → Ports
joined m ports = record ports { allocations = ports.allocations ++ m.rivals }

-- The commit keeps the constraint `uq_server_port`.
abbrev pub commits : Meanwhile → Ports → PortAllocation → Bool
commits m ports a =
    m.keys_valid && not (any (takes a.server_handle a.port) (joined m ports).allocations)

-- One element for each attempt that may still be made.
unfoldable pub attempts :
    String → AllocateNextPortRequest → List Meanwhile → Ports → Result PortAllocation × Ports
unfolding next_free new_allocation
attempts handle req [] ports = (err conflict, ports)
attempts handle req (m ∷ ms) ports =
    let again = attempts handle req ms (joined m ports) in
    if commits m ports (chosen handle req ports)
    then (
      ok (chosen handle req ports),
      record ports { allocations = (joined m ports).allocations ++ (chosen handle req ports ∷ []) },
    )
    else again

-- The first ten of what happens.
unfoldable pub first : ℕ → (ℕ → Meanwhile) → List Meanwhile
first zero coming = []
first (suc n) coming = coming 0 ∷ first n (λ k. coming (suc k))

-- `db` holds the users whom `require_internal_or_admin` looks up.
unfoldable pub allocate_next_port :
    Db
    → Caller
    → String
    → AllocateNextPortRequest
    → (coming : ℕ → Meanwhile) → Ports
    → Result PortAllocation × Ports
unfolding attempts first require_internal_or_admin
allocate_next_port db caller handle req coming ports =
    elim (respond (require_internal_or_admin caller) db).answer [
      | err f ↦ (err f, ports)
      | ok _ ↦
          if any (λ h. h =ₛ handle) ports.servers
          then attempts handle req (first 10 coming) ports
          else (err not_found, ports)
    ]
