-- ===== src/Grants/Exclusive.antt =====
-- A slot of a project's contract has one live grant at most.
use codegen_orchestrator.Prelude.{
  ℕ, ◌≤◌, String, true, none, some, List, [], ◌∷◌, ◌≡◌, inl, inr, refl, arith, ◌&&◌, length, filter,
  ◌=ₛ◌, eq_iff, Bool-cases,
}
use codegen_orchestrator.Prelude.Count.{one, count, count-append, count-save}
use codegen_orchestrator.Prelude.Table
use codegen_orchestrator.Contracts.Access.{TemporaryAccessGrant, is_revoked, Observation}
use codegen_orchestrator.Session.{Db, Env, ok, respond}
use codegen_orchestrator.Actor.{Caller}
use codegen_orchestrator.Grants.Rows.{grant_key, find_grant, holds, holder, one_or_none}
use codegen_orchestrator.Grants.Life.{new_grant}
use codegen_orchestrator.Grants.Observe.{reopened, observed}
use codegen_orchestrator.Grants.Requests.{GrantRequest, handle_grant, serve_grants}
use codegen_orchestrator.Grants.Refinement.{handle_grant-step}
use codegen_orchestrator.Grants.Steps.{
  Change, stays_live, read_again, closes, GrantStep, stays, insert_step, change_step, reopen_step,
}

-- The live grants of a slot.
abbrev pub holders : (project_id env_key : String) → List TemporaryAccessGrant → ℕ
holders p k t = count (holds p k) t

module _ (p k : String) where
  none-holder : (db : Db) → holder p k db ≡ ok none → holders p k db.grants ≡ 0
  unfolding holder
  none-holder db h = go (filter (holds p k) db.grants) h
    where
      go : (l : List TemporaryAccessGrant) → one_or_none l ≡ ok none → length l ≡ 0
      go [] h = refl
      go (x ∷ []) h = absurd (ground arith)
      go (x ∷ y ∷ l) h = absurd (ground arith)

  Change-holds :
      (g g' : TemporaryAccessGrant)
      → Change g g'
      → g'.project_id ≡ g.project_id
      → g'.env_key ≡ g.env_key
      → one (holds p k g') ≤ one (holds p k g)
  Change-holds g g' (stays_live l l') s t = ground arith
  Change-holds g g' (read_again c c' a b d e f) s t = ground arith
  Change-holds g g' (closes l h) s t = elim (Bool-cases (g.project_id =ₛ p)) [
    | inr n ↦ ground arith
    | inl y ↦ elim (Bool-cases (g.env_key =ₛ k)) [
      | inr n ↦ ground arith
      | inl z ↦ elim (Bool-cases (is_revoked g'.status)) [
        | inl r ↦ ground arith
        | inr r ↦ ground arith
      ]
    ]
  ]

  reopen-alone :
      (now : ℕ) (o : Observation) (g : TemporaryAccessGrant) (db : Db)
      → find_grant g.id db ≡ some g
      → is_revoked g.status ≡ true
      → holder p k (record db { grants = Table.save grant_key (observed now o g) db.grants })
        ≡ ok none
      → holders p k db.grants ≡ 0
  unfolding observed
  reopen-alone now o g db e c h = ground (
    arith,
    none-holder (record db { grants = Table.save grant_key (observed now o g) db.grants }) h,
    count-save (holds p k) grant_key (observed now o g) db.grants g e,
  )

  reopen-holders :
      (now : ℕ) (o : Observation) (g : TemporaryAccessGrant) (db : Db)
      → find_grant g.id db ≡ some g
      → is_revoked g.status ≡ true
      → holder g.project_id g.env_key
          (record db { grants = Table.save grant_key (observed now o g) db.grants })
        ≡ ok none
      → holders p k db.grants ≤ 1
      → holders p k (Table.save grant_key (reopened now o (observed now o g)) db.grants) ≤ 1
  unfolding reopened observed
  reopen-holders now o g db e c h b = elim (Bool-cases (g.project_id =ₛ p && g.env_key =ₛ k)) [
    | inr n ↦
        ground (
          arith,
          count-save (holds p k) grant_key (reopened now o (observed now o g)) db.grants g e,
        )
    | inl y ↦
        let same_p : g.project_id ≡ p = ground (arith, eq_iff g.project_id p) in
        let same_k : g.env_key ≡ k = ground (arith, eq_iff g.env_key k) in
        ground (
          arith,
          count-save (holds p k) grant_key (reopened now o (observed now o g)) db.grants g e,
          reopen-alone now o g db e c (ground (arith, same_p, same_k)),
        )
  ]

GrantStep-holders :
    (p k : String) (db db' : Db)
    → GrantStep db db'
    → holders p k db.grants ≤ 1
    → holders p k db'.grants ≤ 1
unfolding new_grant
GrantStep-holders p k db db' (stays e) h = ground (arith, e)
GrantStep-holders p k db db' (insert_step env body e f w) h =
    elim (Bool-cases (body.project_id =ₛ p && body.env_key =ₛ k)) [
      | inr n ↦ ground (arith, w, count-append (holds p k) (new_grant env body) db.grants)
      | inl y ↦
          let same_p : body.project_id ≡ p = ground (arith, eq_iff body.project_id p) in
          let same_k : body.env_key ≡ k = ground (arith, eq_iff body.env_key k) in
          ground (
            arith,
            w,
            count-append (holds p k) (new_grant env body) db.grants,
            none-holder p k db (ground (arith, same_p, same_k)),
          )
    ]
GrantStep-holders p k db db' (change_step g g' e i s t c w) h =
    ground
      (arith, w, i, Change-holds p k g g' c s t, count-save (holds p k) grant_key g' db.grants g)
GrantStep-holders p k db db' (reopen_step now o g e c f w) h =
    ground (arith, w, reopen-holders p k now o g db e c f h)

-- If a slot has at most one live grant, so it has after any sequence of requests for grants.
pub serve_grants-holders :
    (requests : List (Env × Caller × GrantRequest)) (p k : String) (db : Db)
    → holders p k db.grants ≤ 1
    → holders p k (serve_grants requests db).grants ≤ 1
unfolding serve_grants
serve_grants-holders [] p k db h = h
serve_grants-holders ((env, caller, q) ∷ rest) p k db h =
    serve_grants-holders rest p k (respond (handle_grant env caller q) db).db
      (GrantStep-holders p k db _ (handle_grant-step env caller q db) h)
