-- ===== src/Runs/Rows.antt =====
-- Helpers of services/api/src/routers/runs.py.
use codegen_orchestrator.Prelude.{
  ℕ, String, Bool, false, Option, none, some, [], ◌||◌, ◌&&◌, if◌then◌else◌, or_else, is_some,
}
use codegen_orchestrator.Prelude.Table
use codegen_orchestrator.Contracts.Column.{Column, known, unknown}
use codegen_orchestrator.Contracts.Json
use codegen_orchestrator.Contracts.Json.{Json, Dict, truthy}
use codegen_orchestrator.Contracts.Run.{
  Run, RunStatus, is_terminal, is_qa, dispatch_claimed_at_key, dispatch_lease_expires_at_key,
  dispatch_superseded_at_key,
}
use codegen_orchestrator.Session.{
  Db, Handler, Result, ok, err, not_found, internal, lift, gets, require, modify, ◌>>=◌,
}

abbrev pub run_key : Run → String
run_key r = r.id

abbrev pub find_run : String → Db → Option Run
find_run id db = Table.find run_key id db.runs

-- `_lock_run`: requests are taken one after the other, so the lock itself has no state here.
unfoldable pub lock_run : String → Handler Run
lock_run id = do found ← gets (find_run id); lift (require not_found found)

-- The ORM object was changed in place; the flush writes its row.
unfoldable pub save_run : Run → Handler (Unit {0})
save_run r = modify (λ db. record db { runs = Table.save run_key r db.runs })

-- `_record_first_terminal_completion`
abbrev pub first_completion : ℕ → Run → Option ℕ
first_completion now r = elim r.completed_at [ none ↦ some now | some t ↦ some t ]

-- What a JSON column reads as: the value `null` is Python's `None`, like a missing one.
unfoldable pub read_back : Option Json → Option Json
read_back none = none
read_back (some Json.null) = none
read_back (some v) = some v

-- `_has_recorded_outcome`
abbrev pub has_recorded_outcome : Run → Bool
has_recorded_outcome r = is_some (read_back r.result) || (is_qa r.type && is_terminal r.status)

-- `(run.run_metadata or {}).get(key)`
abbrev pub metadata_value : String → Run → Option Json
metadata_value key r = Json.get key (or_else r.run_metadata [])

abbrev iso_moment : Json → Result (Option ℕ)
iso_moment (Json.moment t) = ok (some t)
iso_moment _ = err internal

-- A stamp in the metadata: what is missing or empty is no stamp, and what is no moment raises.
abbrev read_stamp : Option Json → Result (Option ℕ)
read_stamp none = ok none
read_stamp (some v) = if truthy v then iso_moment v else ok none

unfoldable pub claimed_at : Run → Result (Option ℕ)
claimed_at r = read_stamp (metadata_value dispatch_claimed_at_key r)

unfoldable pub lease_expires_at : Run → Result (Option ℕ)
lease_expires_at r = read_stamp (metadata_value dispatch_lease_expires_at_key r)

-- Whether a claim was taken back.
unfoldable pub is_superseded : Run → Bool
is_superseded r = elim (metadata_value dispatch_superseded_at_key r) [
  | none ↦ false
  | some v ↦ truthy v
]

-- `RunStatus(run.status)`
abbrev pub run_status : Column RunStatus → Result RunStatus
run_status (known s) = ok s
run_status (unknown _) = err internal
