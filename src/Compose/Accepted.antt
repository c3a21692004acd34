-- ===== src/Compose/Accepted.antt =====
-- services/worker-manager/src/compose_validator.py: `validate_command` against the grammar.
use codegen_orchestrator.Prelude.{
  String, true, false, Option, none, some, List, [], ◌∷◌, ◌++◌, ◌≡◌, refl, sym, ap, ◌∙◌, subst,
  arith, inl, inr, ◌↔◌, ◌⊎◌, any, Bool-cases,
}
use codegen_orchestrator.Prelude.Texts.{member, member-all}
use codegen_orchestrator.Compose.Command.{
  allowed_commands, global_file_flags, is_flag, overrides_scope, scan_globals, scan_options, Scan,
  verdict, finished, unknown_command, validate_command,
}
use codegen_orchestrator.Compose.Grammar.{
  Invocation, file, command, Invocation-harmless, append-empty, scan_options-Options,
  Options-scan_options,
}

-- What the second loop and the checks after the first make of its outcome.
abbrev Accepted : Scan → Type 0
Accepted s =
    (c : String) × ((s.subcommand ≡ some c)
      × ((member c allowed_commands ≡ true) × ((s.errors ≡ []) × (scan_options c s.rest ≡ []))))

not_file : (arg : String) → is_flag arg ≡ false → member arg global_file_flags ≡ false
not_file arg n = elim (Bool-cases (member arg global_file_flags)) [
  | inr m ↦ m
  | inl m ↦ absurd (ground (arith, member-all is_flag arg global_file_flags m refl))
]

abbrev starting : String → List String → Scan
starting name args = record { errors = []; subcommand = some name; rest = args }

scan_globals-command :
    (name : String) (args : List String)
    → is_flag name ≡ false
    → scan_globals (name ∷ args) ≡ starting name args
unfolding scan_globals
scan_globals-command name [] n = ground (arith, not_file name n)
scan_globals-command name (next ∷ args) n = ground (arith, not_file name n)

scan_globals-file :
    (arg path : String) (args : List String)
    → member arg global_file_flags ≡ true
    → is_flag path ≡ false
    → scan_globals (arg ∷ path ∷ args) ≡ scan_globals args
unfolding scan_globals
scan_globals-file arg path args m n = ground arith

starting-Invocation :
    (name : String) (args : List String)
    → is_flag name ≡ false
    → Accepted (starting name args)
    → Invocation (name ∷ args)
starting-Invocation name args n (c, (e, (a, (f, g)))) =
    let same : name ≡ c = ground arith in
    command n (subst (λ x. member x allowed_commands ≡ true) (sym same) a)
      (scan_options-Options name args (subst (λ x. scan_options x args ≡ []) (sym same) g))

refused : (s : Scan) → (s.subcommand ≡ none) ⊎ ((s.errors ≡ []) → ⊥) → Accepted s → ⊥
refused s (inl n) (c, (e, a)) = absurd (ground arith)
refused s (inr n) (c, (e, (a, (f, g)))) = n f

scan_globals-Invocation : (args : List String) → Accepted (scan_globals args) → Invocation args
unfolding scan_globals
scan_globals-Invocation [] (c, (e, a)) = absurd (ground arith)
scan_globals-Invocation (arg ∷ []) h = elim (Bool-cases (is_flag arg)) [
  | inr n ↦ starting-Invocation arg [] n (subst Accepted (scan_globals-command arg [] n) h)
  | inl n ↦ absurd (refused (scan_globals (arg ∷ [])) (inl (ground arith)) h)
]
scan_globals-Invocation (arg ∷ path ∷ args) h = elim (Bool-cases (is_flag arg)) [
  | inr n ↦
      starting-Invocation arg (path ∷ args) n
        (subst Accepted (scan_globals-command arg (path ∷ args) n) h)
  | inl n ↦ elim (Bool-cases (member arg global_file_flags)) [
    | inr m ↦
        absurd (refused (scan_globals (arg ∷ path ∷ args)) (inr (λ e. absurd (ground arith))) h)
    | inl m ↦ elim (Bool-cases (is_flag path)) [
      | inl f ↦ absurd (refused (scan_globals (arg ∷ path ∷ args)) (inl (ground arith)) h)
      | inr f ↦
          file m f
            (scan_globals-Invocation args (subst Accepted (scan_globals-file arg path args m f) h))
    ]
  ]
]

Invocation-scan_globals : (args : List String) → Invocation args → Accepted (scan_globals args)
Invocation-scan_globals [] i = elim i [ ]
Invocation-scan_globals (flag ∷ path ∷ args) (file m n i) =
    subst Accepted (sym (scan_globals-file flag path args m n)) (Invocation-scan_globals args i)
Invocation-scan_globals (name ∷ args) (command n m o) =
    subst Accepted (sym (scan_globals-command name args n))
      (name, (refl, (m, (refl, Options-scan_options name args o))))

verdict-empty : (es : List String) → (verdict es).valid ≡ true → es ≡ []
verdict-empty [] h = refl
verdict-empty (e ∷ es) h = absurd (ground arith)

append-some : (es : List String) (e : String) → (es ++ (e ∷ [])) ≡ [] → ⊥
append-some [] e h = absurd (ground arith)
append-some (x ∷ es) e h = absurd (ground arith)

finished-Accepted :
    (s : Scan) (o : Option String) → s.subcommand ≡ o → (finished s o).valid ≡ true → Accepted s
finished-Accepted s none e h =
    absurd
      (append-some s.errors _ (verdict-empty (s.errors ++ ("No subcommand found in args" ∷ [])) h))
finished-Accepted s (some c) e h = elim (Bool-cases (member c allowed_commands)) [
  | inr n ↦ absurd (
      append-some s.errors (unknown_command c)
        (verdict-empty (s.errors ++ (unknown_command c ∷ [])) (ground arith)))
  | inl m ↦
      let (f, g) =
        append-empty s.errors (scan_options c s.rest)
          (verdict-empty (s.errors ++ scan_options c s.rest) (ground arith)) in
      (c, (e, (m, (f, g))))
]

Accepted-finished : (s : Scan) → Accepted s → (finished s s.subcommand).valid ≡ true
Accepted-finished s (c, (e, (m, (f, g)))) =
    ap (λ o. (finished s o).valid) e ∙ ground (arith, m, f, g)

-- A command passes just where it names Compose files, each with its path, then one of the allowed
-- subcommands, and after that only texts that are no flags and the flags listed for the subcommand,
-- those that take a value with it.
pub validate_command-Invocation :
    (args : List String) → ((validate_command args).valid ≡ true) ↔ Invocation args
unfolding validate_command
validate_command-Invocation args = (
  λ h.
      scan_globals-Invocation args
        (finished-Accepted (scan_globals args) (scan_globals args).subcommand refl h),
  λ i. Accepted-finished (scan_globals args) (Invocation-scan_globals args i),
)

-- In a command that passes, no argument sets the project's directory or name, its environment file or
-- the network.
pub validate_command-scope :
    (args : List String) → (validate_command args).valid ≡ true → any overrides_scope args ≡ false
validate_command-scope args h = Invocation-harmless args ((validate_command-Invocation args).0 h)
