-- ===== src/Grants/Requests.antt =====
-- The requests that change grants, and the handler of each.
use codegen_orchestrator.Prelude.{List, [], ◌∷◌, String}
use codegen_orchestrator.Contracts.Access.{GrantCreate, GrantUpdate, Observation, Escalation}
use codegen_orchestrator.Session.{Env, Db, Handler, discard, respond}
use codegen_orchestrator.Actor.{Caller}
use codegen_orchestrator.Grants.Life.{create_grant, update_grant, escalate_grant}
use codegen_orchestrator.Grants.Observe.{record_observation}

pub data GrantRequest : Type 0 where
  create : GrantCreate → GrantRequest
  update : String → GrantUpdate → GrantRequest
  escalate : String → Escalation → GrantRequest
  observe : String → Observation → GrantRequest

unfoldable pub handle_grant : Env → Caller → GrantRequest → Handler (Unit {0})
handle_grant env caller (create body) = discard (create_grant env caller body)
handle_grant env caller (update id body) = discard (update_grant env caller id body)
handle_grant env caller (escalate id body) = discard (escalate_grant env caller id body)
handle_grant env caller (observe id body) = discard (record_observation env caller id body)

-- The tables after a sequence of requests, one session each.
unfoldable pub serve_grants : List (Env × Caller × GrantRequest) → Db → Db
serve_grants [] db = db
serve_grants ((env, caller, q) ∷ rest) db =
    serve_grants rest (respond (handle_grant env caller q) db).db
