-- ===== src/Grants/Evidence.antt =====
-- What a closed grant carries.
use codegen_orchestrator.Prelude.{true, List, [], ◌∷◌, ◌≡◌, refl, sym, subst, arith, All}
use codegen_orchestrator.Prelude.Table
use codegen_orchestrator.Contracts.Access.{TemporaryAccessGrant}
use codegen_orchestrator.Session.{Db, Env, respond}
use codegen_orchestrator.Actor.{Caller}
use codegen_orchestrator.Grants.Rows.{grant_key}
use codegen_orchestrator.Grants.Life.{new_grant}
use codegen_orchestrator.Grants.Observe.{reopened, observed}
use codegen_orchestrator.Grants.Requests.{GrantRequest, handle_grant, serve_grants}
use codegen_orchestrator.Grants.Refinement.{handle_grant-step}
use codegen_orchestrator.Grants.Steps.{
  proven, Change, stays_live, read_again, closes, GrantStep, stays, insert_step, change_step,
  reopen_step,
}

abbrev pub Proven : TemporaryAccessGrant → Type 0
Proven g = proven g ≡ true

Change-Proven : (g g' : TemporaryAccessGrant) → Change g g' → Proven g → Proven g'
Change-Proven g g' (stays_live l l') h = ground arith
Change-Proven g g' (read_again c c' r t s o n) h = ground arith
Change-Proven g g' (closes l p) h = p

GrantStep-Proven : (db db' : Db) → GrantStep db db' → All Proven db.grants → All Proven db'.grants
unfolding new_grant reopened observed
GrantStep-Proven db db' (stays e) h = subst (All Proven) (sym e) h
GrantStep-Proven db db' (insert_step env body e f w) h =
    subst (All Proven) (sym w)
      (Table.All-append grant_key Proven (new_grant env body) db.grants refl h)
GrantStep-Proven db db' (change_step g g' e i p k c w) h = subst (All Proven) (sym w) (
    Table.All-save grant_key Proven g' db.grants
      (Change-Proven g g' c (Table.find-All grant_key Proven g.id db.grants g e h)) h)
GrantStep-Proven db db' (reopen_step now o g e c f w) h =
    subst (All Proven) (sym w)
      (Table.All-save grant_key Proven (reopened now o (observed now o g)) db.grants refl h)

-- If every closed grant is proven, so it is after any sequence of requests for grants: each grant
-- that is `revoked` carries a reason, the id of some reading, and a streak of two clear readings at
-- least that began ten minutes or more before the time of its closing.
pub serve_grants-Proven :
    (requests : List (Env × Caller × GrantRequest)) (db : Db)
    → All Proven db.grants
    → All Proven (serve_grants requests db).grants
unfolding serve_grants
serve_grants-Proven [] db h = h
serve_grants-Proven ((env, caller, q) ∷ rest) db h =
    serve_grants-Proven rest (respond (handle_grant env caller q) db).db
      (GrantStep-Proven db _ (handle_grant-step env caller q db) h)
