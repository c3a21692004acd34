-- ===== src/Compose/Samples.antt =====
-- Tests of `validate_command`, and its theorems at concrete commands.
use codegen_orchestrator.Prelude.{String, true, false, List, [], ◌∷◌, ◌≡◌, refl, ◌↔◌, any}
use codegen_orchestrator.Compose.Command.{validate_command, overrides_scope}
use codegen_orchestrator.Compose.Grammar.{Invocation}
use codegen_orchestrator.Compose.Accepted.{validate_command-Invocation, validate_command-scope}

abbrev up : List String
up = "-f" ∷ "compose.yml" ∷ "up" ∷ "-d" ∷ "--wait-timeout" ∷ "60" ∷ "web" ∷ []

passes : (validate_command up).valid ≡ true
unfolding validate_command
passes = refl

renamed :
    (validate_command ("up" ∷ "-pother" ∷ [])).errors
    ≡ "Flag '-pother' cannot override the worker Compose scope" ∷ []
unfolding validate_command
renamed = refl

without_path :
    (validate_command ("-f" ∷ "-d" ∷ "up" ∷ [])).errors
    ≡ "Compose file flag requires a separate path" ∷ "No subcommand found in args" ∷ []
unfolding validate_command
without_path = refl

validate_command-Invocation_example : ((validate_command up).valid ≡ true) ↔ Invocation up
validate_command-Invocation_example = validate_command-Invocation up

validate_command-scope_example : any overrides_scope up ≡ false
validate_command-scope_example = validate_command-scope up passes
