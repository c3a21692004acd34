-- ===== src/Actor.antt =====
-- services/api/src/dependencies.py: who is acting on a request. `Caller` is what the headers say: a
-- valid `X-Internal-Key`, and the user named by `X-Telegram-ID`.
use codegen_orchestrator.Prelude.{
  ℕ, Bool, true, Option, none, some, List, [], ◌∷◌, ◌==◌, if◌then◌else◌, ◌≡◌, ◌⊎◌, inl, inr, arith,
  Option-cases, Bool-cases,
}
use codegen_orchestrator.Contracts.Project.{User}
use codegen_orchestrator.Session.{
  Session, Fault, Handler, ok, err, unauthorized, forbidden, not_found, pure, raise, lift, gets,
  require, ◌>>=◌,
}

pub record Caller : Type 0 where
  pub is_internal : Bool
  pub telegram_id : Option ℕ

unfoldable pub find_telegram_user : ℕ → List User → Option User
find_telegram_user id [] = none
find_telegram_user id (u ∷ us) = if u.telegram_id == id then some u else find_telegram_user id us

-- `none` is a service that acts for itself.
unfoldable pub resolve_actor : Caller → Handler (Option User)
resolve_actor caller = elim caller.telegram_id [
  | none ↦ if caller.is_internal then pure none else raise unauthorized
  | some id ↦ do
    found ← gets (λ db. find_telegram_user id db.users)
    user ← lift (require not_found found)
    pure (some user)
]

abbrev pub may_act : Option User → Bool
may_act none = true
may_act (some user) = user.is_admin

unfoldable pub require_internal_or_admin : Caller → Handler (Unit {0})
unfolding resolve_actor
require_internal_or_admin caller = do
  actor ← resolve_actor caller
  if may_act actor then pure tt else raise forbidden

-- Neither of them changes the session, and both either pass or raise.
pub resolve_actor-cases :
    (caller : Caller) (s : Session)
    → ((f : Fault) × (resolve_actor caller s ≡ (err f, s)))
      ⊎ ((actor : Option User) × (resolve_actor caller s ≡ (ok actor, s)))
unfolding resolve_actor ◌>>=◌
resolve_actor-cases caller s = elim (Option-cases caller.telegram_id) [
  | inl n ↦ elim (Bool-cases caller.is_internal) [
    | inl i ↦ inr (none, ground arith)
    | inr i ↦ inl (unauthorized, ground arith)
  ]
  | inr (id, e) ↦ elim (Option-cases (find_telegram_user id s.working.users)) [
    | inl m ↦ inl (not_found, ground arith)
    | inr (user, m) ↦ inr (some user, ground arith)
  ]
]

pub require_internal_or_admin-cases :
    (caller : Caller) (s : Session)
    → ((f : Fault) × (require_internal_or_admin caller s ≡ (err f, s)))
      ⊎ (require_internal_or_admin caller s ≡ (ok tt, s))
unfolding require_internal_or_admin ◌>>=◌
require_internal_or_admin-cases caller s = elim (resolve_actor-cases caller s) [
  | inl (f, e) ↦ inl (f, ground arith)
  | inr (actor, e) ↦ elim (Bool-cases (may_act actor)) [
    | inl m ↦ inr (ground arith)
    | inr m ↦ inl (forbidden, ground arith)
  ]
]
