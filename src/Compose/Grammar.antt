-- ===== src/Compose/Grammar.antt =====
-- services/worker-manager/src/compose_validator.py: the commands that `validate_command` accepts.
use codegen_orchestrator.Prelude.{
  String, true, false, List, [], ◌∷◌, ◌++◌, ◌≡◌, refl, arith, inl, inr, any, Bool-cases,
}
use codegen_orchestrator.Prelude.Texts.{member}
use codegen_orchestrator.Compose.Command.{
  allowed_commands, global_file_flags, safe_command_flags, safe_value_command_flags, is_flag,
  overrides_scope, sets_value, single_option, takes_value, scan_options,
}
use codegen_orchestrator.Compose.Scope.{
  plain-overrides, safe-overrides, value-overrides, sets_value-overrides, file-overrides,
  value-needed, value-unassigned,
}

-- What may follow a subcommand.
pub data Options (command : String) : List String → Type 0 where
  no_more : Options command []
  positional :
      {arg : String} {args : List String}
      → is_flag arg ≡ false
      → Options command args
      → Options command (arg ∷ args)
  switch :
      {arg : String} {args : List String}
      → member arg (safe_command_flags command) ≡ true
      → Options command args
      → Options command (arg ∷ args)
  valued :
      {arg value : String} {args : List String}
      → member arg (safe_value_command_flags command) ≡ true
      → is_flag value ≡ false
      → Options command args
      → Options command (arg ∷ value ∷ args)
  assigned :
      {arg : String} {args : List String}
      → sets_value arg (safe_value_command_flags command) ≡ true
      → Options command args
      → Options command (arg ∷ args)

-- Compose files, each with its path, then an allowed subcommand and its options.
pub data Invocation : List String → Type 0 where
  file :
      {flag path : String} {args : List String}
      → member flag global_file_flags ≡ true
      → is_flag path ≡ false
      → Invocation args
      → Invocation (flag ∷ path ∷ args)
  command :
      {name : String} {args : List String}
      → is_flag name ≡ false
      → member name allowed_commands ≡ true
      → Options name args
      → Invocation (name ∷ args)

Options-harmless :
    (c : String) (args : List String) → Options c args → any overrides_scope args ≡ false
Options-harmless c args no_more = refl
Options-harmless c (arg ∷ args) (positional n o) =
    ground (arith, plain-overrides arg n, Options-harmless c args o)
Options-harmless c (arg ∷ args) (switch m o) =
    ground (arith, safe-overrides c arg m, Options-harmless c args o)
Options-harmless c (arg ∷ value ∷ args) (valued m n o) =
    ground (arith, value-overrides c arg m, plain-overrides value n, Options-harmless c args o)
Options-harmless c (arg ∷ args) (assigned m o) =
    ground (arith, sets_value-overrides c arg m, Options-harmless c args o)

pub Invocation-harmless : (args : List String) → Invocation args → any overrides_scope args ≡ false
Invocation-harmless [] i = elim i [ ]
Invocation-harmless (flag ∷ path ∷ args) (file m n i) =
    ground (arith, file-overrides flag m, plain-overrides path n, Invocation-harmless args i)
Invocation-harmless (name ∷ args) (command n m o) =
    ground (arith, plain-overrides name n, Options-harmless name args o)

pub append-empty : (xs ys : List String) → xs ++ ys ≡ [] → (xs ≡ []) × (ys ≡ [])
append-empty [] ys h = (refl, h)
append-empty (x ∷ xs) ys h = absurd (ground arith)

module _ (c : String) where
  single-Options :
      (arg : String) (args : List String)
      → takes_value c arg ≡ false
      → single_option c arg ≡ []
      → Options c args
      → Options c (arg ∷ args)
  single-Options arg args t h o = elim (Bool-cases (is_flag arg)) [
    | inr n ↦ positional n o
    | inl f ↦ elim (Bool-cases (member arg (safe_command_flags c))) [
      | inl m ↦ switch m o
      | inr m ↦ elim (Bool-cases (sets_value arg (safe_value_command_flags c))) [
        | inl s ↦ assigned s o
        | inr s ↦ absurd (ground arith)
      ]
    ]
  ]

  pub scan_options-Options : (args : List String) → scan_options c args ≡ [] → Options c args
  unfolding scan_options
  scan_options-Options [] h = no_more
  scan_options-Options (arg ∷ []) h = elim (Bool-cases (takes_value c arg)) [
    | inl t ↦ absurd (ground arith)
    | inr t ↦ single-Options arg [] t (ground arith) no_more
  ]
  scan_options-Options (arg ∷ next ∷ args) h = elim (Bool-cases (takes_value c arg)) [
    | inl t ↦ elim (Bool-cases (is_flag next)) [
      | inl f ↦ absurd (ground arith)
      | inr f ↦ valued (ground arith) f (scan_options-Options args (ground arith))
    ]
    | inr t ↦
        let (a, b) =
          append-empty (single_option c arg) (scan_options c (next ∷ args)) (ground arith) in
        single-Options arg (next ∷ args) t a (scan_options-Options (next ∷ args) b)
  ]

  single-scan :
      (arg : String) (args : List String)
      → takes_value c arg ≡ false
      → single_option c arg ≡ []
      → scan_options c args ≡ []
      → scan_options c (arg ∷ args) ≡ []
  unfolding scan_options
  single-scan arg [] t h k = ground arith
  single-scan arg (next ∷ args) t h k = ground arith

  pub Options-scan_options : (args : List String) → Options c args → scan_options c args ≡ []
  unfolding scan_options
  Options-scan_options args no_more = refl
  Options-scan_options (arg ∷ args) (positional n o) =
      single-scan arg args (ground arith) (ground arith) (Options-scan_options args o)
  Options-scan_options (arg ∷ args) (switch m o) =
      single-scan arg args (ground arith) (ground arith) (Options-scan_options args o)
  Options-scan_options (arg ∷ value ∷ args) (valued m n o) =
      ground (arith, value-needed c arg m, Options-scan_options args o)
  Options-scan_options (arg ∷ args) (assigned m o) =
      single-scan arg args (ground (arith, value-unassigned c arg m)) (ground arith)
        (Options-scan_options args o)
