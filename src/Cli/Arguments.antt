-- ===== src/Cli/Arguments.antt =====
-- `parseCliArguments` of packages/cli/src/arguments.ts. One round of its loop takes an argument, or the
-- value that the option before it waits for.
use Prim.Native.Char.{code}
use junon.Shared.{
  String, Bool, true, false, ◌&&◌, ◌||◌, not, Option, none, some, List, [], ◌∷◌, ◌==◌, eqb,
  if◌then◌else◌,
}
use junon.Shared.Maps.{is_some}
use junon.Shared.Results.{Fallible, ok, err, ◌>>=◌, ◌>>◌, refuse_if}

pub data CliCommand : Type 0 where
  daemon status adapters workspaces doctor : CliCommand

pub data LogLevel : Type 0 where
  debug info warn error silent : LogLevel

pub record ParsedCliArguments : Type 0 where
  pub command : Option CliCommand
  pub discovery_file : Option String
  pub log_level : LogLevel
  pub log_level_specified : Bool
  pub dashboard : Bool
  pub check_updates : Bool
  pub help : Bool

pub data CliUsageError : Type 0 where
  missing_command unknown_command unknown_option missing_option_value : CliUsageError
  invalid_log_level unexpected_argument : CliUsageError

abbrev pub Result {ℓ} : Type ℓ → Type ℓ
Result A = Fallible CliUsageError A

-- `text.startsWith("-")`
unfoldable pub starts_with_dash : String → Bool
starts_with_dash String.[] = false
starts_with_dash (String.◌∷◌ c s) = eqb (code c) b'-'

unfoldable pub command_of : String → Option CliCommand
command_of a =
    if a == "daemon"
    then some daemon
    else if a == "status"
    then some status
    else if a == "adapters"
    then some adapters
    else if a == "workspaces"
    then some workspaces
    else if a == "doctor"
    then some doctor
    else none

unfoldable pub log_level_of : String → Option LogLevel
log_level_of a =
    if a == "debug"
    then some debug
    else if a == "info"
    then some info
    else if a == "warn"
    then some warn
    else if a == "error"
    then some error
    else if a == "silent"
    then some silent
    else none

-- The value that the next argument is.
pub data Pending : Type 0 where
  nothing file level : Pending

abbrev pub initial : ParsedCliArguments
initial = record {
  command = none;
  discovery_file = none;
  log_level = info;
  log_level_specified = false;
  dashboard = false;
  check_updates = false;
  help = false;
}

take_command : Option CliCommand → ParsedCliArguments → Result (Pending × ParsedCliArguments)
take_command none p = err unknown_command
take_command (some c) p = ok (nothing, record p { command = some c })

take_level : Option LogLevel → ParsedCliArguments → Result (Pending × ParsedCliArguments)
take_level none p = err invalid_log_level
take_level (some l) p = ok (nothing, record p { log_level = l; log_level_specified = true })

unfoldable pub take_argument :
    Pending → String → ParsedCliArguments → Result (Pending × ParsedCliArguments)
unfolding take_command take_level
take_argument nothing a p =
    if a == "--help" || a == "-h"
    then ok (nothing, record p { help = true })
    else if a == "--discovery-file"
    then ok (file, p)
    else if a == "--log-level"
    then ok (level, p)
    else if a == "--dashboard"
    then ok (nothing, record p { dashboard = true })
    else if a == "--check-updates"
    then ok (nothing, record p { check_updates = true })
    else if starts_with_dash a
    then err unknown_option
    else if is_some p.command
    then err unexpected_argument
    else take_command (command_of a) p
take_argument file a p =
    if starts_with_dash a
    then err missing_option_value
    else ok (nothing, record p { discovery_file = some a })
take_argument level a p =
    if starts_with_dash a then err missing_option_value else take_level (log_level_of a) p

-- The loop.
unfoldable pub take_arguments :
    List String → Pending → ParsedCliArguments → Result ParsedCliArguments
take_arguments [] nothing p = ok p
take_arguments [] file p = err missing_option_value
take_arguments [] level p = err missing_option_value
take_arguments (a ∷ rest) pending p =
    take_argument pending a p >>= λ next. take_arguments rest next.0 next.1

-- A command that is given is not this one.
unfoldable pub is_not_daemon : Option CliCommand → Bool
is_not_daemon none = false
is_not_daemon (some daemon) = false
is_not_daemon (some _) = true

unfoldable pub is_not_doctor : Option CliCommand → Bool
is_not_doctor none = false
is_not_doctor (some doctor) = false
is_not_doctor (some _) = true

-- The checks after the loop.
unfoldable pub check_arguments : ParsedCliArguments → Result (Unit {0})
check_arguments p = do
  refuse_if (not p.help && not (is_some p.command)) missing_command
  refuse_if (p.log_level_specified && is_not_daemon p.command) unexpected_argument
  refuse_if (p.dashboard && is_not_daemon p.command) unexpected_argument
  refuse_if (p.check_updates && is_not_doctor p.command) unexpected_argument

unfoldable pub parse_cli_arguments : List String → Result ParsedCliArguments
parse_cli_arguments argv = do p ← take_arguments argv nothing initial; check_arguments p; ok p
