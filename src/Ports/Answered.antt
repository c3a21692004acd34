-- ===== src/Ports/Answered.antt =====
-- services/api/src/routers/servers.py: when `allocate_next_port` answers with a port.
use codegen_orchestrator.Prelude.{◌≤◌, String, Bool, false, [], ◌∷◌, ◌≡◌, any}
use codegen_orchestrator.Ports.Allocation.{
  PortAllocation, AllocateNextPortRequest, Ports, Meanwhile, takes,
}

-- Nobody else commits a row during the attempt, and the keys of the new row are valid.
abbrev pub is_calm : Meanwhile → Bool
is_calm m = elim m.rivals [ [] ↦ m.keys_valid | _ ∷ _ ↦ false ]

-- An allocation of the server, on a port that is not below the start and that no row held at first.
pub record IsNew (handle : String) (req : AllocateNextPortRequest) (ports : Ports)
    (a : PortAllocation) : Type 0 where
  pub is_on : a.server_handle ≡ handle
  pub is_from : req.start_port ≤ a.port
  pub is_free : any (takes handle a.port) ports.allocations ≡ false
