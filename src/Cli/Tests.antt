-- ===== src/Cli/Tests.antt =====
-- A command line, and the theorems at it.
use junon.Shared.{String, ◌≡◌, refl, true, false, some, List, [], ◌∷◌, text_discrete, inl}
use junon.Shared.Results.{ok, err}
use junon.Cli.Arguments.{
  daemon, debug, ParsedCliArguments, unexpected_argument, starts_with_dash, command_of,
  log_level_of, take_argument, take_arguments, is_not_daemon, is_not_doctor, check_arguments,
  parse_cli_arguments,
}
use junon.Cli.RoundTrip.{print_arguments, parse_cli_arguments-print}

abbrev verbose : ParsedCliArguments
verbose = record {
  command = some daemon;
  discovery_file = some "/tmp/d.json";
  log_level = debug;
  log_level_specified = true;
  dashboard = true;
  check_updates = false;
  help = false;
}

verbose_checks : check_arguments verbose ≡ ok tt
unfolding check_arguments is_not_daemon is_not_doctor
verbose_checks = refl

parse_cli_arguments-print_example : parse_cli_arguments (print_arguments verbose) ≡ ok verbose
unfolding starts_with_dash
parse_cli_arguments-print_example = parse_cli_arguments-print verbose verbose_checks refl (inl refl)

abbrev argv : List String
argv = "daemon" ∷ "--dashboard" ∷ "--log-level" ∷ "debug" ∷ "--discovery-file" ∷ "/tmp/d.json" ∷ []

argv_parses : parse_cli_arguments argv ≡ ok verbose
unfolding parse_cli_arguments take_arguments take_argument command_of log_level_of starts_with_dash
    check_arguments is_not_daemon is_not_doctor text_discrete
argv_parses = refl

refuses_dashboard : parse_cli_arguments ("status" ∷ "--dashboard" ∷ []) ≡ err unexpected_argument
unfolding parse_cli_arguments take_arguments take_argument command_of starts_with_dash
    check_arguments is_not_daemon is_not_doctor text_discrete
refuses_dashboard = refl
