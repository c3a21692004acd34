-- ===== src/Grants/Escalation.antt =====
-- Escalating a grant again is the same state again.
use codegen_orchestrator.Prelude.{
  ℕ, String, some, List, ◌≡◌, inl, inr, refl, arith, Option-cases, Bool-cases, eq_refl, eq_iff, ◌∙◌,
}
use codegen_orchestrator.Prelude.Table
use codegen_orchestrator.Contracts.Access.{TemporaryAccessGrant, is_revoked, Escalation}
use codegen_orchestrator.Contracts.Run.{Run, is_terminal}
use codegen_orchestrator.Session.{Db, Env, ok, respond, opened, ◌>>=◌}
use codegen_orchestrator.Actor.{Caller, require_internal_or_admin-cases}
use codegen_orchestrator.Runs.Rows.{run_key}
use codegen_orchestrator.Grants.Rows.{grant_key, find_grant, load}
use codegen_orchestrator.Grants.Life.{
  escalate_grant, escalated_run, escalated_runs, escalated_grant,
}

escalated_run-id : (now : ℕ) (body : Escalation) (r : Run) → (escalated_run now body r).id ≡ r.id
unfolding escalated_run
escalated_run-id now body r = elim (Bool-cases (is_terminal r.status)) [
  | inl t ↦ ground arith
  | inr t ↦ ground arith
]

escalated_run-twice :
    (now now' : ℕ) (body : Escalation) (r : Run)
    → escalated_run now' body (escalated_run now body r) ≡ escalated_run now body r
unfolding escalated_run
escalated_run-twice now now' body r = elim (Bool-cases (is_terminal r.status)) [
  | inl t ↦ ground arith
  | inr t ↦ ground arith
]

escalated_runs-twice :
    (now now' : ℕ) (body : Escalation) (id : String) (runs : List Run)
    → escalated_runs now' body id (escalated_runs now body id runs)
      ≡ escalated_runs now body id runs
escalated_runs-twice now now' body id runs = elim (Option-cases (Table.find run_key id runs)) [
  | inl n ↦ ground arith
  | inr (r, e) ↦
      let row = escalated_run now body r in
      let same : row.id ≡ id = escalated_run-id now body r ∙ Table.key-find run_key id runs r e in
      let found : Table.find run_key id (Table.save run_key row runs) ≡ some row =
        ground (arith, Table.find-save run_key row id runs, eq_iff row.id id) in
      let kept : Table.save run_key row (Table.save run_key row runs)
          ≡ Table.save run_key row runs =
        Table.save-save run_key row row runs refl in
      ground (arith, escalated_run-twice now now' body r)
]

-- The database after an escalation that was let through.
escalate_grant-db :
    (env : Env) (caller : Caller) (id : String) (body : Escalation) (db : Db)
    (answer : TemporaryAccessGrant)
    → (respond (escalate_grant env caller id body) db).answer ≡ ok answer
    → (g : TemporaryAccessGrant) × (find_grant id db ≡ some g)
      × ((respond (escalate_grant env caller id body) db).db ≡ record db {
        runs = escalated_runs env.now body g.qa_run_id db.runs;
        grants = Table.save grant_key (escalated_grant env.now body g) db.grants;
      })
unfolding escalate_grant load ◌>>=◌
escalate_grant-db env caller id body db answer h =
    elim (require_internal_or_admin-cases caller (opened db)) [
      | inl (f, r) ↦ absurd (ground arith)
      | inr r ↦ elim (Option-cases (find_grant id db)) [
        | inl e ↦ absurd (ground arith)
        | inr (g, e) ↦ elim (Bool-cases (is_revoked g.status)) [
          | inl c ↦ absurd (ground arith)
          | inr c ↦ (g, e, ground arith)
        ]
      ]
    ]

escalated_grant-twice :
    (now now' : ℕ) (body : Escalation) (g : TemporaryAccessGrant)
    → escalated_grant now' body (escalated_grant now body g) ≡ escalated_grant now body g
unfolding escalated_grant
escalated_grant-twice now now' body g = ground arith

-- An escalation that is repeated after it was answered, at any later time, leaves the grant, its
-- QA run and every other row as the first one left them.
pub escalate_grant-twice :
    (env later : Env) (caller : Caller) (id : String) (body : Escalation) (db : Db)
    (first second : TemporaryAccessGrant)
    → let db' = (respond (escalate_grant env caller id body) db).db in
      (respond (escalate_grant env caller id body) db).answer ≡ ok first
      → (respond (escalate_grant later caller id body) db').answer ≡ ok second
      → (respond (escalate_grant later caller id body) db').db ≡ db'
unfolding escalated_grant
escalate_grant-twice env later caller id body db first second h k =
    let (g, e, q) = escalate_grant-db env caller id body db first h in
    let row = escalated_grant env.now body g in
    let db' = (respond (escalate_grant env caller id body) db).db in
    let (g', e', q') = escalate_grant-db later caller id body db' second k in
    let stored : find_grant id db' ≡ some row = ground (
      arith,
      q,
      Table.find-save grant_key row id db.grants,
      Table.key-find grant_key id db.grants g e,
      eq_refl id,
    ) in
    let same : g' ≡ row = ground arith in
    ground (
      arith,
      q,
      q',
      same,
      escalated_grant-twice env.now later.now body g,
      escalated_runs-twice env.now later.now body g.qa_run_id db.runs,
      Table.save-save grant_key row row db.grants,
    )
