-- ===== src/Placement/Samples.antt =====
-- Tests of the search for a server, and its theorems at concrete fleets.
use codegen_orchestrator.Prelude.{
  ℕ, ◌+◌, ◌≤◌, String, true, none, some, List, [], ◌∷◌, ◌≡◌, refl, All, any, not,
}
use codegen_orchestrator.Contracts.Json
use codegen_orchestrator.Placement.Admission.{
  Server, ServerStatus, server_admission_rejection, provisioning_failed_server_handles,
}
use codegen_orchestrator.Placement.Search.{
  ApplicationStatus, Fleet, fits, judge, suitable, most_headroom, find_suitable_server, managed,
  reserved_ram_mb, sum_reserved, has_fresh_metrics,
}
use codegen_orchestrator.Placement.Chosen.{at_most, find_suitable_server-placed}
use codegen_orchestrator.Placement.Room.{is_failed, has_room, find_suitable_server-failed}

abbrev server : (handle : String) → (used_ram_mb : ℕ) → Server
server handle used = record {
  handle = handle;
  public_ip = "10.0.0.1";
  status = ServerStatus.ready;
  is_managed = true;
  labels = ("provisioning_phase", Json.text "complete") ∷ [];
  capacity_ram_mb = 4000;
  capacity_disk_mb = 20000;
  used_ram_mb = used;
  last_health_check = some 1000;
}

abbrev fleet : List Server → Fleet
fleet servers = record {
  servers = servers;
  incidents = [];
  applications =
      record { server_handle = "a"; status = ApplicationStatus.running; reserved_ram_mb = 500 }
      ∷ [];
  now = 2000;
  ram_reserve_mb = 256;
  metrics_freshness_seconds = 60;
}

abbrev roomy : Fleet
roomy = fleet (server "a" 100 ∷ server "b" 1000 ∷ [])

abbrev crowded : Fleet
crowded = fleet (server "a" 3900 ∷ [])

find_suitable_server-placed_example :
    (server "a" 100).is_managed ≡ true
    × (server_admission_rejection (server "a" 100) (provisioning_failed_server_handles []) ≡ none)
    × (1024 ≤ 20000)
    × (reserved_ram_mb roomy (server "a" 100) + (512 + 256) ≤ 4000)
    × (100 + (512 + 256) ≤ 4000)
    × (has_fresh_metrics 2000 (some 1000) 60 ≡ true)
    × ((headroom : ℕ) × (judge roomy (512 + 256) 1024 (server "a" 100) ≡ fits headroom)
        × All
            (λ s. at_most headroom (judge roomy (512 + 256) 1024 s) ≡ true)
            (managed roomy.servers))
unfolding find_suitable_server suitable most_headroom judge server_admission_rejection
    provisioning_failed_server_handles reserved_ram_mb sum_reserved Json.get Json.json_eq
find_suitable_server-placed_example =
    find_suitable_server-placed roomy 512 1024 (server "a" 100) (λ s. s.is_managed ≡ true) refl
      (refl, (refl, tt))

find_suitable_server-failed_example :
    is_failed (find_suitable_server crowded 512 1024)
    ≡ not (any (has_room crowded (512 + 256) 1024) (managed crowded.servers))
find_suitable_server-failed_example = find_suitable_server-failed crowded 512 1024
