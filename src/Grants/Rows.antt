-- ===== src/Grants/Rows.antt =====
-- services/api/src/routers/temporary_access.py: reading and writing the rows of
-- `temporary_access_grants`.
use codegen_orchestrator.Prelude.{
  String, Bool, Option, none, some, List, [], ◌∷◌, ◌&&◌, not, ◌=ₛ◌, filter,
}
use codegen_orchestrator.Prelude.Table
use codegen_orchestrator.Contracts.Access.{TemporaryAccessGrant, is_revoked}
use codegen_orchestrator.Session.{
  Db, Handler, Result, ok, err, not_found, internal, lift, gets, require, modify, ◌>>=◌,
}

abbrev pub grant_key : TemporaryAccessGrant → String
grant_key g = g.id

abbrev pub find_grant : String → Db → Option TemporaryAccessGrant
find_grant id db = Table.find grant_key id db.grants

-- `_load`: requests are taken one after the other, so the lock itself has no state here.
unfoldable pub load : String → Handler TemporaryAccessGrant
load id = do found ← gets (find_grant id); lift (require not_found found)

-- The ORM object was changed in place; the flush writes its row.
unfoldable pub save_grant : TemporaryAccessGrant → Handler (Unit {0})
save_grant g = modify (λ db. record db { grants = Table.save grant_key g db.grants })

-- The `where` clause that selects the holder of a slot.
abbrev pub holds : (project_id env_key : String) → TemporaryAccessGrant → Bool
holds project_id env_key g =
    g.project_id =ₛ project_id && g.env_key =ₛ env_key && not (is_revoked g.status)

-- `scalar_one_or_none`: more than one row raises.
abbrev pub one_or_none {ℓ} : {A : Type ℓ} → List A → Result (Option A)
one_or_none [] = ok none
one_or_none (x ∷ []) = ok (some x)
one_or_none (x ∷ y ∷ rest) = err internal

unfoldable pub holder : (project_id env_key : String) → Db → Result (Option TemporaryAccessGrant)
holder project_id env_key db = one_or_none (filter (holds project_id env_key) db.grants)
