-- ===== src/Grants/Steps.antt =====
-- What a request may do to the stored grants.
use codegen_orchestrator.Prelude.{
  ℕ, ◌+◌, String, Bool, true, false, Option, none, some, [], ◌∷◌, ◌++◌, ◌≡◌, refl, sym, subst, inl,
  inr, arith, Option-cases, Bool-cases, ◌&&◌, ◌||◌, not, leb, is_some,
}
use codegen_orchestrator.Prelude.Table
use codegen_orchestrator.Contracts.Column.{Patch, unset, set, sets_null, assigned}
use codegen_orchestrator.Contracts.Access.{
  TemporaryAccessGrant, TemporaryAccessStatus, is_revoked, GrantCreate, GrantUpdate, Observation,
  Escalation, revoke_confirmation_window, revoke_confirmation_readings,
}
use codegen_orchestrator.Session.{
  Db, Env, Result-cases, ok, Handler, respond, db-discard, discard, opened, ◌>>=◌,
}
use codegen_orchestrator.Actor.{Caller, require_internal_or_admin-cases}
use codegen_orchestrator.Grants.Rows.{grant_key, find_grant, load, holder}
use codegen_orchestrator.Grants.Life.{
  create_grant, update_grant, escalate_grant, new_grant, insert_grant, updated_grant,
  escalated_grant, asks_revoked,
}
use codegen_orchestrator.Grants.Observe.{observed, reopened}

-- The readings that closed a grant: enough of them, and over a long enough time.
abbrev pub window_kept : (since closed_at : Option ℕ) → Bool
window_kept none t = false
window_kept (some s) none = false
window_kept (some s) (some t) = leb (s + revoke_confirmation_window) t

-- What is asked of a grant that is closed.
abbrev pub proven : TemporaryAccessGrant → Bool
proven g =
    not (is_revoked g.status)
    || (is_some g.revoke_reason
        && is_some g.observation_id
        && leb revoke_confirmation_readings g.slot_clear_readings
        && window_kept g.slot_clear_since g.revoked_at)

pub data Change (g g' : TemporaryAccessGrant) : Type 0 where
  -- A grant that is not closed stays so.
  stays_live : is_revoked g.status ≡ false → is_revoked g'.status ≡ false → Change g g'
  -- A closed grant is read again.
  read_again :
      is_revoked g.status ≡ true
      → is_revoked g'.status ≡ true
      → g'.revoke_reason ≡ g.revoke_reason
      → g'.revoked_at ≡ g.revoked_at
      → g'.slot_clear_since ≡ g.slot_clear_since
      → is_some g'.observation_id ≡ true
      → leb g.slot_clear_readings g'.slot_clear_readings ≡ true
      → Change g g'
  -- A grant is closed on its readings.
  closes : is_revoked g.status ≡ false → proven g' ≡ true → Change g g'

pub data GrantStep (db db' : Db) : Type 0 where
  stays : db'.grants ≡ db.grants → GrantStep db db'
  insert_step :
      (env : Env) (body : GrantCreate)
      → find_grant body.id db ≡ none
      → holder body.project_id body.env_key db ≡ ok none
      → db'.grants ≡ db.grants ++ (new_grant env body ∷ [])
      → GrantStep db db'
  change_step :
      (g g' : TemporaryAccessGrant)
      → find_grant g.id db ≡ some g
      → g'.id ≡ g.id
      → g'.project_id ≡ g.project_id
      → g'.env_key ≡ g.env_key
      → Change g g'
      → db'.grants ≡ Table.save grant_key g' db.grants
      → GrantStep db db'
  -- A closed grant whose slot nobody holds is opened again.
  reopen_step :
      (now : ℕ) (o : Observation) (g : TemporaryAccessGrant)
      → find_grant g.id db ≡ some g
      → is_revoked g.status ≡ true
      → holder g.project_id g.env_key
          (record db { grants = Table.save grant_key (observed now o g) db.grants })
        ≡ ok none
      → db'.grants ≡ Table.save grant_key (reopened now o (observed now o g)) db.grants
      → GrantStep db db'

pub discarded :
    {A : Type 0} (m : Handler A) (db : Db)
    → GrantStep db (respond m db).db
    → GrantStep db (respond (discard m) db).db
discarded m db h = subst (GrantStep db) (sym (db-discard m db)) h

pub find_grant-own :
    (db : Db) (id : String) (g : TemporaryAccessGrant)
    → find_grant id db ≡ some g
    → find_grant g.id db ≡ some g
find_grant-own db id g e =
    subst (λ k. find_grant k db ≡ some g) (sym (Table.key-find grant_key id db.grants g e)) e

pub create_grant-step :
    (env : Env) (caller : Caller) (body : GrantCreate) (db : Db)
    → GrantStep db (respond (create_grant env caller body) db).db
unfolding create_grant insert_grant ◌>>=◌
create_grant-step env caller body db = elim (require_internal_or_admin-cases caller (opened db)) [
  | inl (f, r) ↦ stays (ground arith)
  | inr r ↦ elim (Option-cases (find_grant body.id db)) [
    | inr (g, e) ↦ stays (ground arith)
    | inl e ↦ elim (Result-cases (holder body.project_id body.env_key db)) [
      | inl (f, h) ↦ stays (ground arith)
      | inr (held, h) ↦ elim (Option-cases held) [
        | inr (g, n) ↦ stays (ground arith)
        | inl n ↦ elim (Bool-cases env.keys_valid) [
          | inr k ↦ stays (ground arith)
          | inl k ↦ insert_step env body e (ground arith) (ground arith)
        ]
      ]
    ]
  ]
]

assigned-live :
    (patch : Patch TemporaryAccessStatus) (old : TemporaryAccessStatus)
    → asks_revoked patch ≡ false
    → is_revoked old ≡ false
    → is_revoked (assigned patch old) ≡ false
assigned-live unset old a h = h
assigned-live (set none) old a h = h
assigned-live (set (some s)) old a h = a

pub update_grant-step :
    (env : Env) (caller : Caller) (id : String) (body : GrantUpdate) (db : Db)
    → GrantStep db (respond (update_grant env caller id body) db).db
unfolding update_grant updated_grant load ◌>>=◌
update_grant-step env caller id body db = elim (Bool-cases (asks_revoked body.status)) [
  | inl a ↦ stays (ground arith)
  | inr a ↦ elim (require_internal_or_admin-cases caller (opened db)) [
    | inl (f, r) ↦ stays (ground arith)
    | inr r ↦ elim (Option-cases (find_grant id db)) [
      | inl e ↦ stays (ground arith)
      | inr (g, e) ↦ elim (Bool-cases (is_revoked g.status)) [
        | inl c ↦ stays (ground arith)
        | inr c ↦
            elim (Bool-cases (sets_null body.grant_run_id || sets_null body.revoke_attempts)) [
              | inl n ↦ stays (ground arith)
              | inr n ↦
                  change_step g (updated_grant env.now body g) (find_grant-own db id g e) refl refl
                    refl (stays_live c (assigned-live body.status g.status a c)) (ground arith)
            ]
      ]
    ]
  ]
]

pub escalate_grant-step :
    (env : Env) (caller : Caller) (id : String) (body : Escalation) (db : Db)
    → GrantStep db (respond (escalate_grant env caller id body) db).db
unfolding escalate_grant escalated_grant load ◌>>=◌
escalate_grant-step env caller id body db =
    elim (require_internal_or_admin-cases caller (opened db)) [
      | inl (f, r) ↦ stays (ground arith)
      | inr r ↦ elim (Option-cases (find_grant id db)) [
        | inl e ↦ stays (ground arith)
        | inr (g, e) ↦ elim (Bool-cases (is_revoked g.status)) [
          | inl c ↦ stays (ground arith)
          | inr c ↦
              change_step g (escalated_grant env.now body g) (find_grant-own db id g e) refl refl
                refl (stays_live c refl) (ground arith)
        ]
      ]
    ]
