-- ===== src/Grants/Refinement.antt =====
-- Every request for a grant makes a legal step.
use codegen_orchestrator.Prelude.{
  ℕ, suc, String, true, false, some, ◌≡◌, refl, subst, inl, inr, arith, Option-cases, Bool-cases,
  ◌=ₛ◌, ◌==◌, ◌&&◌, ◌||◌, is_some,
}
use codegen_orchestrator.Prelude.Table
use codegen_orchestrator.Contracts.Access.{TemporaryAccessGrant, is_revoked, Observation}
use codegen_orchestrator.Session.{Db, Env, Result-cases, respond, opened, ◌>>=◌}
use codegen_orchestrator.Actor.{Caller, require_internal_or_admin-cases}
use codegen_orchestrator.Grants.Rows.{grant_key, find_grant, save_grant, holder}
use codegen_orchestrator.Grants.Observe.{
  record_observation, observed, read_a_closed_grant, reopened, filled, cleared, settle, confirmed,
  closed, store, is_revoking, repeats,
}
use codegen_orchestrator.Grants.Requests.{
  GrantRequest, create, update, escalate, observe, handle_grant,
}
use codegen_orchestrator.Grants.Steps.{
  proven, stays_live, read_again, closes, GrantStep, stays, change_step, reopen_step, discarded,
  find_grant-own, create_grant-step, update_grant-step, escalate_grant-step,
}

confirmed-window :
    (now : ℕ) (g : TemporaryAccessGrant)
    → confirmed now g ≡ true
    → is_some g.revoke_reason ≡ true
    → is_some g.observation_id ≡ true
    → proven (closed now g) ≡ true
unfolding confirmed closed
confirmed-window now g c r o = elim (Option-cases g.slot_clear_since) [
  | inl n ↦ absurd (ground arith)
  | inr (s, n) ↦ ground arith
]

-- What a clear reading does, once the grant was found to be under revocation.
settle-step :
    (now : ℕ) (g c : TemporaryAccessGrant) (db : Db)
    → find_grant g.id db ≡ some g
    → is_revoked g.status ≡ false
    → c.id ≡ g.id
    → c.project_id ≡ g.project_id
    → c.env_key ≡ g.env_key
    → c.status ≡ g.status
    → is_some c.observation_id ≡ true
    → GrantStep db (respond (settle now c) db).db
unfolding settle closed store ◌>>=◌
settle-step now g c db e l i p k s o = elim (Bool-cases (confirmed now c)) [
  | inr n ↦ change_step g c e i p k (stays_live l (ground arith)) (ground arith)
  | inl y ↦ elim (Bool-cases (is_some c.revoke_reason)) [
    | inr r ↦ stays (ground arith)
    | inl r ↦
        change_step g (closed now c) e i p k (closes l (confirmed-window now c y r o))
          (ground arith)
  ]
]

settle-cleared-step :
    (now : ℕ) (o : Observation) (g : TemporaryAccessGrant) (db : Db)
    → find_grant g.id db ≡ some g
    → is_revoked g.status ≡ false
    → GrantStep db (respond (settle now (cleared now (observed now o g))) db).db
unfolding cleared observed
settle-cleared-step now o g db e l =
    settle-step now g (cleared now (observed now o g)) db e l (ground arith) (ground arith)
      (ground arith) (ground arith) (ground arith)

read_a_closed_grant-step :
    (now : ℕ) (o : Observation) (g : TemporaryAccessGrant) (db : Db)
    → find_grant g.id db ≡ some g
    → is_revoked g.status ≡ true
    → GrantStep db (respond (read_a_closed_grant (observed now o g) o now) db).db
unfolding read_a_closed_grant observed reopened store save_grant ◌>>=◌
read_a_closed_grant-step now o g db e c = elim (Bool-cases o.present) [
  | inr n ↦
      change_step g (record (observed now o g) { slot_clear_readings = suc g.slot_clear_readings })
        e refl refl refl (read_again c c refl refl refl refl (ground arith)) (ground arith)
  | inl y ↦
      elim (Result-cases (
        holder g.project_id g.env_key
          (record db { grants = Table.save grant_key (observed now o g) db.grants }))) [
            | inl (f, h) ↦ stays (ground arith)
            | inr (owner, h) ↦ elim (Option-cases owner) [
              | inl n ↦ reopen_step now o g e c (ground arith) (
                  ground (
                    arith,
                    Table.save-save grant_key (reopened now o (observed now o g)) (observed now o g)
                        db.grants,
                  ))
              | inr (w, n) ↦
                  change_step g (observed now o g) e refl refl refl
                    (read_again c c refl refl refl refl (ground arith))
                    (ground (
                      arith,
                      Table.save-save grant_key (observed now o g) (observed now o g) db.grants,
                    ))
            ]
          ]
]

record_observation-step :
    (env : Env) (caller : Caller) (id : String) (o : Observation) (db : Db)
    → GrantStep db (respond (record_observation env caller id o) db).db
unfolding record_observation ◌>>=◌
record_observation-step env caller id o db =
    elim (require_internal_or_admin-cases caller (opened db)) [
      | inl (f, r) ↦ stays (ground arith)
      | inr r ↦ elim (Option-cases (find_grant id db)) [
        | inl e ↦ stays (ground arith)
        | inr (g, e) ↦
            elim (Bool-cases
              (o.env_key =ₛ g.env_key && o.application_id == g.qa_message.application_id)) [
                | inr k ↦ stays (ground arith)
                | inl k ↦ elim (Bool-cases (is_revoking g.status || is_revoked g.status)) [
                  | inr s ↦ stays (ground arith)
                  | inl s ↦ elim (Bool-cases (repeats o g)) [
                    | inl p ↦ stays (ground arith)
                    | inr p ↦ elim (Bool-cases (is_revoked g.status)) [
                      | inl c ↦
                          subst (λ d. GrantStep db d) (ground arith)
                            (read_a_closed_grant-step env.now o g db (find_grant-own db id g e) c)
                      | inr c ↦ elim (Bool-cases o.present) [
                        | inl f ↦
                            unfold filled in
                            unfold observed in
                            change_step g (filled (observed env.now o g)) (find_grant-own db id g e)
                              refl refl refl (stays_live c c) (ground arith)
                        | inr f ↦
                            subst (λ d. GrantStep db d) (ground arith)
                              (settle-cleared-step env.now o g db (find_grant-own db id g e) c)
                      ]
                    ]
                  ]
                ]
              ]
      ]
    ]

-- Every request for a grant, whatever it answers, changes the grants by at most one legal step: a
-- grant is added to a slot that no live grant holds; a live grant stays live, or is closed with a
-- reason, on two clear readings at least and over ten minutes at least; a closed grant keeps its
-- evidence, or is opened again when nobody holds its slot. A grant never changes its slot.
pub handle_grant-step :
    (env : Env) (caller : Caller) (request : GrantRequest) (db : Db)
    → GrantStep db (respond (handle_grant env caller request) db).db
unfolding handle_grant
handle_grant-step env caller (create body) db =
    discarded _ db (create_grant-step env caller body db)
handle_grant-step env caller (update id body) db =
    discarded _ db (update_grant-step env caller id body db)
handle_grant-step env caller (escalate id body) db =
    discarded _ db (escalate_grant-step env caller id body db)
handle_grant-step env caller (observe id body) db =
    discarded _ db (record_observation-step env caller id body db)
