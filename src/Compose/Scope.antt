-- ===== src/Compose/Scope.antt =====
-- services/worker-manager/src/compose_validator.py: which arguments override the worker's scope.
use Prim.Native.String.{◌++◌ as append}
use text.Mathlib.Text.{starts_with}
use text.Mathlib.TextPositions.{starts_with-append}
use codegen_orchestrator.Prelude.{
  String, Bool, true, false, List, [], ◌∷◌, ◌≡◌, refl, sym, subst, arith, inl, inr, ◌=ₛ◌, ◌&&◌, not,
  any, all, Bool-cases, eq_iff,
}
use codegen_orchestrator.Prelude.Texts.{
  member, member-all, starts_with_trans, apart, starts_with_refl, starts_with-apart,
}
use codegen_orchestrator.Compose.Command.{
  scope_override_flags, global_file_flags, safe_command_flags, safe_value_command_flags, is_flag,
  flag_is_set, overrides_scope, sets_value,
}

-- The argument starts like one of the flags.
abbrev pub starts_like : List String → String → Bool
starts_like flags arg = any (starts_with arg) flags

flag_is_set-starts : (arg flag : String) → flag_is_set arg flag ≡ true → starts_with arg flag ≡ true
unfolding flag_is_set
flag_is_set-starts arg flag h = elim (Bool-cases (arg =ₛ flag)) [
  | inl y ↦
      let same : arg ≡ flag = ground (arith, eq_iff arg flag) in
      subst (λ f. starts_with arg f ≡ true) same (starts_with_refl arg)
  | inr n ↦ elim (Bool-cases (starts_with arg (append flag "="))) [
    | inl y ↦ starts_with_trans arg (append flag "=") flag y (starts_with-append flag "=")
    | inr m ↦
        let same : flag ≡ "-p" = ground (arith, eq_iff flag "-p") in
        subst (λ f. starts_with arg f ≡ true) (sym same) (ground arith)
  ]
]

any-starts :
    (arg : String) (flags : List String)
    → any (flag_is_set arg) flags ≡ true
    → starts_like flags arg ≡ true
any-starts arg [] h = h
any-starts arg (f ∷ fs) h = elim (Bool-cases (flag_is_set arg f)) [
  | inl y ↦ ground (arith, flag_is_set-starts arg f)
  | inr n ↦ ground (arith, any-starts arg fs)
]

-- An argument that starts like no scope flag overrides nothing.
pub starts_like-none :
    (arg : String) → starts_like scope_override_flags arg ≡ false → overrides_scope arg ≡ false
unfolding overrides_scope
starts_like-none arg h = elim (Bool-cases (overrides_scope arg)) [
  | inl y ↦ absurd (ground (arith, any-starts arg scope_override_flags))
  | inr n ↦ n
]

starts_like-flag :
    (arg : String) (flags : List String)
    → all is_flag flags ≡ true
    → starts_like flags arg ≡ true
    → is_flag arg ≡ true
starts_like-flag arg [] h k = absurd (ground arith)
starts_like-flag arg (f ∷ fs) h k = elim (Bool-cases (starts_with arg f)) [
  | inl y ↦ starts_with_trans arg f "-" y (ground arith)
  | inr n ↦ starts_like-flag arg fs (ground arith) (ground arith)
]

pub plain-overrides : (arg : String) → is_flag arg ≡ false → overrides_scope arg ≡ false
plain-overrides arg n =
    starts_like-none arg (elim (Bool-cases (starts_like scope_override_flags arg)) [
      | inl y ↦ absurd (ground (arith, starts_like-flag arg scope_override_flags refl y))
      | inr m ↦ m
    ])

abbrev harmless : String → Bool
harmless arg = not (starts_like scope_override_flags arg)

safe-harmless : (c : String) → all harmless (safe_command_flags c) ≡ true
unfolding safe_command_flags
safe-harmless c = ground arith

values-harmless : (c : String) → all harmless (safe_value_command_flags c) ≡ true
unfolding safe_value_command_flags
values-harmless c = ground arith

pub safe-overrides :
    (c arg : String) → member arg (safe_command_flags c) ≡ true → overrides_scope arg ≡ false
safe-overrides c arg h =
    starts_like-none arg
      (ground (arith, member-all harmless arg (safe_command_flags c) h (safe-harmless c)))

pub value-overrides :
    (c arg : String) → member arg (safe_value_command_flags c) ≡ true → overrides_scope arg ≡ false
value-overrides c arg h =
    starts_like-none arg
      (ground (arith, member-all harmless arg (safe_value_command_flags c) h (values-harmless c)))

apart-starts :
    (arg p : String) (flags : List String)
    → starts_with arg p ≡ true
    → all (apart p) flags ≡ true
    → starts_like flags arg ≡ false
apart-starts arg p [] h k = refl
apart-starts arg p (f ∷ fs) h k =
    ground (arith, starts_with-apart arg p f h, apart-starts arg p fs h)

abbrev harmless_value : String → Bool
harmless_value flag = all (apart (append flag "=")) scope_override_flags

sets_value-all :
    (arg : String) (test : String → Bool) (goal : Bool)
    → ((f : String) → starts_with arg (append f "=") ≡ true → test f ≡ true → goal ≡ false)
    → (flags : List String) → sets_value arg flags ≡ true
    → all test flags ≡ true
    → goal ≡ false
unfolding sets_value
sets_value-all arg test goal g [] h k = absurd (ground arith)
sets_value-all arg test goal g (f ∷ fs) h k = elim (Bool-cases (starts_with arg (append f "="))) [
  | inl y ↦ g f y (ground arith)
  | inr n ↦ sets_value-all arg test goal g fs (ground arith) (ground arith)
]

set_values-harmless : (c : String) → all harmless_value (safe_value_command_flags c) ≡ true
unfolding safe_value_command_flags
set_values-harmless c = ground arith

pub sets_value-overrides :
    (c arg : String)
    → sets_value arg (safe_value_command_flags c) ≡ true
    → overrides_scope arg ≡ false
sets_value-overrides c arg h = starts_like-none arg (
    sets_value-all arg harmless_value (starts_like scope_override_flags arg)
      (λ f. apart-starts arg (append f "=") scope_override_flags) (safe_value_command_flags c) h
      (set_values-harmless c))

pub file-overrides :
    (arg : String) → member arg global_file_flags ≡ true → overrides_scope arg ≡ false
file-overrides arg h =
    starts_like-none arg (ground (arith, member-all harmless arg global_file_flags h refl))

abbrev needs_value : String → String → Bool
needs_value c f = is_flag f && not (member f (safe_command_flags c))

values-needed : (c : String) → all (needs_value c) (safe_value_command_flags c) ≡ true
unfolding safe_value_command_flags safe_command_flags
values-needed c = ground arith

-- A flag that takes a value is not one that takes none.
pub value-needed :
    (c arg : String) → member arg (safe_value_command_flags c) ≡ true → needs_value c arg ≡ true
value-needed c arg h =
    member-all (needs_value c) arg (safe_value_command_flags c) h (values-needed c)

abbrev unassigned : String → String → Bool
unassigned c f = not (sets_value f (safe_value_command_flags c))

values-unassigned : (c : String) → all (unassigned c) (safe_value_command_flags c) ≡ true
unfolding safe_value_command_flags sets_value
values-unassigned c = ground arith

-- A flag that takes the next argument has none of its own.
pub value-unassigned :
    (c arg : String)
    → sets_value arg (safe_value_command_flags c) ≡ true
    → member arg (safe_value_command_flags c) ≡ false
value-unassigned c arg h = elim (Bool-cases (member arg (safe_value_command_flags c))) [
  | inr n ↦ n
  | inl y ↦ absurd (
      ground
        (arith, member-all (unassigned c) arg (safe_value_command_flags c) y (values-unassigned c)))
]
