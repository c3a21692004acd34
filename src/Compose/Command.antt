-- ===== src/Compose/Command.antt =====
-- services/worker-manager/src/compose_validator.py: `validate_command`.
use Prim.Native.String.{◌++◌ as append}
use text.Mathlib.Text.{starts_with}
use codegen_orchestrator.Prelude.{
  String, Bool, true, false, Option, none, some, List, [], ◌∷◌, ◌++◌, ◌=ₛ◌, ◌&&◌, ◌||◌, not,
  if◌then◌else◌, any,
}
use codegen_orchestrator.Prelude.Texts.{member}

pub record ValidationResult : Type 0 where
  pub valid : Bool
  pub errors : List String

-- `ValidationResult(valid=not errors, errors=errors)`
abbrev pub verdict : List String → ValidationResult
verdict [] = record { valid = true; errors = [] }
verdict (e ∷ es) = record { valid = false; errors = e ∷ es }

abbrev pub allowed_commands : List String
allowed_commands = "up" ∷ "down" ∷ "build" ∷ "run" ∷ "ps" ∷ "logs" ∷ "stop" ∷ []

abbrev pub scope_override_flags : List String
scope_override_flags =
    "--project-directory" ∷ "--project-name" ∷ "--env-file" ∷ "-p" ∷ "--network" ∷ []

abbrev pub global_file_flags : List String
global_file_flags = "-f" ∷ "--file" ∷ []

unfoldable pub safe_command_flags : String → List String
safe_command_flags command =
    if command =ₛ "up"
    then "-d" ∷ "--detach" ∷ "--wait" ∷ "--build" ∷ "--no-build" ∷ []
    else if command =ₛ "build"
    then "--no-cache" ∷ "--pull" ∷ []
    else if command =ₛ "down"
    then "-v" ∷ "--volumes" ∷ "--remove-orphans" ∷ []
    else if command =ₛ "ps"
    then "-a" ∷ "--all" ∷ "--quiet" ∷ "-q" ∷ []
    else if command =ₛ "logs"
    then "-f" ∷ "--follow" ∷ "--no-color" ∷ "--timestamps" ∷ []
    else []

unfoldable pub safe_value_command_flags : String → List String
safe_value_command_flags command =
    if command =ₛ "up"
    then "--wait-timeout" ∷ []
    else if command =ₛ "logs"
    then "--tail" ∷ "--since" ∷ "--until" ∷ []
    else []

abbrev pub is_flag : String → Bool
is_flag arg = starts_with arg "-"

unfoldable pub flag_is_set : (arg flag : String) → Bool
flag_is_set arg flag =
    arg =ₛ flag
    || starts_with arg (append flag "=")
    || (flag =ₛ "-p" && starts_with arg "-p" && not (arg =ₛ "-p"))

-- `any(_flag_is_set(arg, flag) for flag in _SCOPE_OVERRIDE_FLAGS)`
unfoldable pub overrides_scope : String → Bool
unfolding flag_is_set
overrides_scope arg = any (flag_is_set arg) scope_override_flags

abbrev quoted : String → String → String → String
quoted before arg after = append before (append arg after)

abbrev pub global_flag_error : String → String
global_flag_error arg =
    if overrides_scope arg
    then quoted "Flag '" arg "' cannot override the worker Compose scope"
    else if starts_with arg "--file=" || (starts_with arg "-f" && not (arg =ₛ "-f"))
    then quoted "Flag '" arg "' must use a separate Compose file path"
    else quoted "Global flag '" arg "' is not allowed"

-- What the first loop leaves: its errors, the subcommand, and the arguments after it.
pub record Scan : Type 0 where
  pub errors : List String
  pub subcommand : Option String
  pub rest : List String

abbrev with_error : String → Scan → Scan
with_error e s = record s { errors = e ∷ s.errors }

abbrev stopped : Scan
stopped = record {
  errors = "Compose file flag requires a separate path" ∷ [];
  subcommand = none;
  rest = [];
}

unfoldable pub scan_globals : List String → Scan
unfolding overrides_scope
scan_globals [] = record { errors = []; subcommand = none; rest = [] }
scan_globals (arg ∷ []) =
    if member arg global_file_flags
    then stopped
    else if is_flag arg
    then record { errors = global_flag_error arg ∷ []; subcommand = none; rest = [] }
    else record { errors = []; subcommand = some arg; rest = [] }
scan_globals (arg ∷ path ∷ args) =
    let after_path = scan_globals args in
    let after_flag = scan_globals (path ∷ args) in
    if member arg global_file_flags
    then if is_flag path then stopped else after_path
    else if is_flag arg
    then with_error (global_flag_error arg) after_flag
    else record { errors = []; subcommand = some arg; rest = path ∷ args }

-- `any(arg.startswith(f"{flag}=") for flag in safe_value_flags)`
unfoldable pub sets_value : String → List String → Bool
sets_value arg flags = any (λ flag. starts_with arg (append flag "=")) flags

abbrev pub option_error : (subcommand arg : String) → String
option_error subcommand arg =
    if overrides_scope arg
    then quoted "Flag '" arg "' cannot override the worker Compose scope"
    else quoted "Flag '" arg (quoted "' is not allowed for '" subcommand "'")

-- The arguments that the second loop takes one at a time: no error, or the flag's.
abbrev pub single_option : (subcommand arg : String) → List String
single_option subcommand arg =
    if not (is_flag arg)
    then []
    else if member arg (safe_command_flags subcommand)
    then []
    else if sets_value arg (safe_value_command_flags subcommand)
    then []
    else option_error subcommand arg ∷ []

-- The flag's value is the next argument.
abbrev pub takes_value : (subcommand arg : String) → Bool
takes_value subcommand arg =
    is_flag arg
    && not (member arg (safe_command_flags subcommand))
    && member arg (safe_value_command_flags subcommand)

abbrev value_error : String → String
value_error arg = quoted "Flag '" arg "' requires a value"

unfoldable pub scan_options : (subcommand : String) → List String → List String
unfolding overrides_scope sets_value
scan_options subcommand [] = []
scan_options subcommand (arg ∷ []) =
    if takes_value subcommand arg then value_error arg ∷ [] else single_option subcommand arg
scan_options subcommand (arg ∷ next ∷ args) =
    let after_value = scan_options subcommand args in
    let after_arg = scan_options subcommand (next ∷ args) in
    if takes_value subcommand arg
    then if is_flag next then value_error arg ∷ after_value else after_value
    else single_option subcommand arg ++ after_arg

abbrev pub unknown_command : String → String
unknown_command subcommand =
    quoted "Command '" subcommand
      "' is not allowed. Allowed: ['build', 'down', 'logs', 'ps', 'run', 'stop', 'up']"

abbrev pub finished : Scan → Option String → ValidationResult
finished scan none = verdict (scan.errors ++ ("No subcommand found in args" ∷ []))
finished scan (some subcommand) =
    if member subcommand allowed_commands
    then verdict (scan.errors ++ scan_options subcommand scan.rest)
    else verdict (scan.errors ++ (unknown_command subcommand ∷ []))

unfoldable pub validate_command : List String → ValidationResult
unfolding scan_globals scan_options safe_command_flags safe_value_command_flags
validate_command args = let scan = scan_globals args in finished scan scan.subcommand
