-- ===== src/Runs/Claims.antt =====
-- The two sides of the dispatch boundary: a claim, and whoever takes it back.
use codegen_orchestrator.Prelude.{
  ℕ, ◌+◌, String, Bool, true, false, Option, none, some, List, [], ◌≡◌, refl, inl, inr, arith,
  Option-cases, Bool-cases, is_some, not, eq_refl, or_else,
}
use codegen_orchestrator.Prelude.Table
use codegen_orchestrator.Contracts.Column.{Patch, set, unset}
use codegen_orchestrator.Contracts.Json
use codegen_orchestrator.Contracts.Json.{Json, Dict, truthy}
use codegen_orchestrator.Contracts.Run.{
  Run, is_terminal, dispatch_claimed_at_key, dispatch_lease_expires_at_key,
  dispatch_superseded_at_key, dispatch_lease, DeployDispatchWithdrawal, withdrawn,
}
use codegen_orchestrator.Session.{Db, Env, Result, ok, err, respond, opened, Result-cases, ◌>>=◌}
use codegen_orchestrator.Actor.{Caller, require_internal_or_admin-cases}
use codegen_orchestrator.Runs.Rows.{
  run_key, find_run, lock_run, run_status, claimed_at, metadata_value,
}
use codegen_orchestrator.Runs.Boundary.{
  claim_run_dispatch, withdraw_run_dispatch, claimed_run, superseded_run, withdrawn_run,
}
use codegen_orchestrator.Runs.Update.{updated_run, merged}
use codegen_orchestrator.Runs.Requests.{RunRequest, serve_runs, update}
use codegen_orchestrator.Runs.Steps.{Change, started_run, claimed, superseded, updated}
use codegen_orchestrator.Runs.Steps
use codegen_orchestrator.Runs.Keeps.{Stored, stored, serve_runs-keeps, all_allowed}
use codegen_orchestrator.Runs.Settled.{grants, not-grants-Over}

-- Whether an update of a run leaves the key alone.
abbrev spares : String → Patch Dict → Bool
spares key unset = true
spares key (set none) = false
spares key (set (some new)) = not (is_some (Json.get key new))

-- Whether a request is no update that writes the claim's stamp itself.
abbrev pub spares_claim : RunRequest → Bool
spares_claim (update id body) = spares dispatch_claimed_at_key body.run_metadata
spares_claim _ = true

-- The run carries the stamp of a claim.
abbrev pub Claimed : ℕ → Run → Type 0
Claimed t r = metadata_value dispatch_claimed_at_key r ≡ some (Json.moment t)

pub claimed_at-Claimed : (t : ℕ) (r : Run) → Claimed t r → claimed_at r ≡ ok (some t)
unfolding claimed_at truthy
claimed_at-Claimed t r h = ground arith

get-merged :
    (key : String) (patch : Patch Dict) (old : Option Dict)
    → spares key patch ≡ true
    → Json.get key (or_else (merged patch old) []) ≡ Json.get key (or_else old [])
get-merged key unset old h = refl
get-merged key (set none) old h = absurd (ground arith)
get-merged key (set (some new)) old h =
    ground (arith, Json.get-merge_other key (or_else old []) new)

pub get-claimed_run :
    (now t : ℕ) (r : Run)
    → metadata_value dispatch_claimed_at_key (claimed_run now t r) ≡ some (Json.moment t)
unfolding claimed_run
get-claimed_run now t r = ground (
  arith,
  Json.get-put dispatch_lease_expires_at_key dispatch_claimed_at_key
      (Json.moment (now + dispatch_lease))
      (Json.put dispatch_claimed_at_key (Json.moment t) (or_else r.run_metadata [])),
  Json.get-put dispatch_claimed_at_key dispatch_claimed_at_key (Json.moment t)
      (or_else r.run_metadata []),
)

Change-Claimed :
    (t : ℕ) (q : RunRequest) (r r' : Run)
    → spares_claim q ≡ true
    → Change q r r'
    → Claimed t r
    → Claimed t r'
unfolding superseded_run withdrawn_run updated_run
Change-Claimed t q r r' a (started_run n e) h = ground arith
Change-Claimed t q r r' a (claimed now earlier n c e) h =
    ground (arith, e, get-claimed_run now (or_else earlier now) r, claimed_at-Claimed t r h)
Change-Claimed t q r r' a (Steps.withdrawn now reason n e) h = ground arith
Change-Claimed t q r r' a (superseded now reason n e) h = ground (
  arith,
  e,
  Json.get-put dispatch_superseded_at_key dispatch_claimed_at_key (Json.moment now)
      (or_else r.run_metadata []),
)
Change-Claimed t q r r' a (updated now id body new p n o w e) h =
    ground (arith, e, get-merged dispatch_claimed_at_key body.run_metadata r.run_metadata)

-- Whether the answer says that nothing of the run ever reached the outside.
abbrev pub says_withdrawn : Result DeployDispatchWithdrawal → Bool
says_withdrawn (ok answer) = elim answer.outcome [ withdrawn ↦ true | _ ↦ false ]
says_withdrawn (err f) = false

not_both : (b : Bool) → b ≡ true → b ≡ false → ⊥
not_both b h n = ground arith

grants-Claimed :
    (env : Env) (caller : Caller) (id : String) (db : Db)
    → grants (respond (claim_run_dispatch env caller id) db).answer ≡ true
    → (t : ℕ) × Stored (Claimed t) id (respond (claim_run_dispatch env caller id) db).db
unfolding claim_run_dispatch claimed_run lock_run ◌>>=◌
grants-Claimed env caller id db h = elim (require_internal_or_admin-cases caller (opened db)) [
  | inl (f, g) ↦ absurd (ground arith)
  | inr g ↦ elim (Option-cases (find_run id db)) [
    | inl m ↦ absurd (ground arith)
    | inr (r, e) ↦ elim (Bool-cases (is_terminal r.status)) [
      | inl t ↦ absurd (not_both _ h (not-grants-Over env caller id db (stored r e t)))
      | inr t ↦ elim (Result-cases (claimed_at r)) [
        | inl (f, c) ↦ absurd (ground arith)
        | inr (c, q) ↦ (
          or_else c env.now,
          stored (claimed_run env.now (or_else c env.now) r)
              (ground (
                arith,
                Table.find-save run_key (claimed_run env.now (or_else c env.now) r) id db.runs,
                Table.key-find run_key id db.runs r e,
                eq_refl id,
              ))
              (get-claimed_run env.now (or_else c env.now) r),
        )
      ]
    ]
  ]
]

not-says_withdrawn-Claimed :
    (env : Env) (caller : Caller) (id reason : String) (db : Db) (t : ℕ)
    → Stored (Claimed t) id db
    → says_withdrawn (respond (withdraw_run_dispatch env caller id reason) db).answer ≡ false
unfolding withdraw_run_dispatch lock_run ◌>>=◌
not-says_withdrawn-Claimed env caller id reason db t (stored r e h) =
    elim (require_internal_or_admin-cases caller (opened db)) [
      | inl (f, g) ↦ ground arith
      | inr g ↦ elim (Bool-cases (is_terminal r.status)) [
        | inl o ↦ elim (Result-cases (run_status r.status)) [
          | inl (f, s) ↦ ground (arith, claimed_at-Claimed t r h)
          | inr (s, q) ↦ ground (arith, claimed_at-Claimed t r h)
        ]
        | inr o ↦ ground (arith, claimed_at-Claimed t r h)
      ]
    ]

-- Once a worker was granted the dispatch of a run, no later withdrawal answers that nothing was
-- dispatched, provided that no update in between rewrites or clears the claim's stamp.
pub claim_run_dispatch-visible :
    (env : Env) (worker : Caller) (id : String) (db : Db)
    (requests : List (Env × Caller × RunRequest)) (later : Env) (caller : Caller) (reason : String)
    → grants (respond (claim_run_dispatch env worker id) db).answer ≡ true
    → all_allowed spares_claim requests ≡ true
    → says_withdrawn
        (respond
          (withdraw_run_dispatch later caller id reason)
          (serve_runs requests (respond (claim_run_dispatch env worker id) db).db)).answer
      ≡ false
claim_run_dispatch-visible env worker id db requests later caller reason h a =
    let (t, claim_kept) = grants-Claimed env worker id db h in
    not-says_withdrawn-Claimed later caller id reason _ t
      (serve_runs-keeps (Claimed t) spares_claim (Change-Claimed t) requests id _ a claim_kept)
