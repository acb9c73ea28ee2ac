-- ===== src/Cli/RoundTrip.antt =====
-- The command line of parsed arguments, and its parse (packages/cli/src/arguments.ts).
use junon.Shared.{
  String, ◌≡◌, refl, ◌∙◌, Bool, true, false, not, Option, none, some, List, [], ◌∷◌, ◌++◌,
  text_discrete, arith, inl, inr, ◌⊎◌, Option-cases,
}
use junon.Shared.Results.{ok, Result-cases}
use junon.Cli.Arguments.{
  CliCommand, daemon, status, adapters, workspaces, doctor, LogLevel, debug, info, warn, error,
  silent, ParsedCliArguments, Pending, nothing, file, level, initial, starts_with_dash, command_of,
  log_level_of, take_argument, take_arguments, check_arguments, parse_cli_arguments,
}

abbrev pub command_text : CliCommand → String
command_text daemon = "daemon"
command_text status = "status"
command_text adapters = "adapters"
command_text workspaces = "workspaces"
command_text doctor = "doctor"

abbrev pub log_level_text : LogLevel → String
log_level_text debug = "debug"
log_level_text info = "info"
log_level_text warn = "warn"
log_level_text error = "error"
log_level_text silent = "silent"

abbrev pub flag : Bool → String → List String
flag true text = text ∷ []
flag false text = []

abbrev pub file_option : Option String → List String
file_option none = []
file_option (some f) = "--discovery-file" ∷ f ∷ []

abbrev pub level_option : Bool → LogLevel → List String
level_option true l = "--log-level" ∷ log_level_text l ∷ []
level_option false l = []

abbrev pub command_word : Option CliCommand → List String
command_word none = []
command_word (some c) = command_text c ∷ []

-- A command line for the arguments.
unfoldable pub print_arguments : ParsedCliArguments → List String
print_arguments p =
    flag p.help "--help"
    ++ (file_option p.discovery_file
        ++ (level_option p.log_level_specified p.log_level
            ++ (flag p.dashboard "--dashboard"
                ++ (flag p.check_updates "--check-updates" ++ command_word p.command))))

take_arguments-append :
    (xs ys : List String) (pending : Pending) (p q : ParsedCliArguments)
    → take_arguments xs pending p ≡ ok q
    → take_arguments (xs ++ ys) pending p ≡ take_arguments ys nothing q
unfolding take_arguments
take_arguments-append [] ys nothing p q e = ground arith
take_arguments-append [] ys file p q e = ground arith
take_arguments-append [] ys level p q e = ground arith
take_arguments-append (x ∷ xs) ys pending p q e = elim (Result-cases (take_argument pending x p)) [
  | inl (z, stop) ↦ ground (arith, stop)
  | inr ((pending', p'), taken) ↦ ground (arith, taken, take_arguments-append xs ys pending' p' q)
]

take_help :
    (b : Bool) (p : ParsedCliArguments)
    → p.help ≡ false
    → take_arguments (flag b "--help") nothing p ≡ ok (record p { help = b })
unfolding take_arguments take_argument text_discrete
take_help true p h = refl
take_help false p h = ground arith

take_dashboard :
    (b : Bool) (p : ParsedCliArguments)
    → p.dashboard ≡ false
    → take_arguments (flag b "--dashboard") nothing p ≡ ok (record p { dashboard = b })
unfolding take_arguments take_argument text_discrete
take_dashboard true p h = refl
take_dashboard false p h = ground arith

take_check_updates :
    (b : Bool) (p : ParsedCliArguments)
    → p.check_updates ≡ false
    → take_arguments (flag b "--check-updates") nothing p ≡ ok (record p { check_updates = b })
unfolding take_arguments take_argument text_discrete
take_check_updates true p h = refl
take_check_updates false p h = ground arith

-- No dash at the start of the file's name, where there is one.
abbrev pub is_plain_file : Option String → Bool
is_plain_file none = true
is_plain_file (some f) = not (starts_with_dash f)

take_file :
    (f : Option String) (p : ParsedCliArguments)
    → is_plain_file f ≡ true
    → p.discovery_file ≡ none
    → take_arguments (file_option f) nothing p ≡ ok (record p { discovery_file = f })
unfolding take_arguments take_argument text_discrete
take_file none p plain h = ground arith
take_file (some f) p plain h = ground arith

log_level_of-text :
    (l : LogLevel)
    → (log_level_of (log_level_text l) ≡ some l) × (starts_with_dash (log_level_text l) ≡ false)
unfolding log_level_of starts_with_dash text_discrete
log_level_of-text debug = (refl, refl)
log_level_of-text info = (refl, refl)
log_level_of-text warn = (refl, refl)
log_level_of-text error = (refl, refl)
log_level_of-text silent = (refl, refl)

take_level_option :
    (b : Bool) (l : LogLevel) (p : ParsedCliArguments)
    → (b ≡ true) ⊎ (l ≡ info)
    → p.log_level ≡ info
    → p.log_level_specified ≡ false
    → take_arguments (level_option b l) nothing p
      ≡ ok (record p { log_level = l; log_level_specified = b })
unfolding take_arguments take_argument text_discrete
take_level_option true l p default h k = ground (arith, log_level_of-text l)
take_level_option false l p default h k = ground arith

take_command_word :
    (c : Option CliCommand) (p : ParsedCliArguments)
    → p.command ≡ none
    → take_arguments (command_word c) nothing p ≡ ok (record p { command = c })
unfolding take_arguments take_argument command_of starts_with_dash text_discrete
take_command_word none p h = ground arith
take_command_word (some daemon) p h = ground arith
take_command_word (some status) p h = ground arith
take_command_word (some adapters) p h = ground arith
take_command_word (some workspaces) p h = ground arith
take_command_word (some doctor) p h = ground arith

-- Arguments that pass the checks, with a file name that does not start with a dash, and with the level
-- `info` unless a level is specified, are what the parse of their command line gives.
pub parse_cli_arguments-print :
    (p : ParsedCliArguments)
    → check_arguments p ≡ ok tt
    → is_plain_file p.discovery_file ≡ true
    → (p.log_level_specified ≡ true) ⊎ (p.log_level ≡ info)
    → parse_cli_arguments (print_arguments p) ≡ ok p
unfolding parse_cli_arguments print_arguments
parse_cli_arguments-print p checks plain default =
    let a : ParsedCliArguments = record initial { help = p.help } in
    let b : ParsedCliArguments = record a { discovery_file = p.discovery_file } in
    let c : ParsedCliArguments = record b {
      log_level = p.log_level;
      log_level_specified = p.log_level_specified;
    } in
    let d : ParsedCliArguments = record c { dashboard = p.dashboard } in
    let e : ParsedCliArguments = record d { check_updates = p.check_updates } in
    let all : take_arguments (print_arguments p) nothing initial ≡ ok p =
      unfold print_arguments in
      take_arguments-append _ _ nothing initial a (take_help p.help initial refl)
      ∙ take_arguments-append _ _ nothing a b (take_file p.discovery_file a plain refl)
      ∙ take_arguments-append _ _ nothing b c
          (take_level_option p.log_level_specified p.log_level b default refl refl)
      ∙ take_arguments-append _ _ nothing c d (take_dashboard p.dashboard c refl)
      ∙ take_arguments-append _ _ nothing d e (take_check_updates p.check_updates d refl)
      ∙ take_command_word p.command e refl in
    ground (arith, all, checks)

-- What the loop keeps of what it has read.
IsPrintable : ParsedCliArguments → Type 0
IsPrintable p =
    (is_plain_file p.discovery_file ≡ true)
    × ((p.log_level_specified ≡ true) ⊎ (p.log_level ≡ info))

take_argument-IsPrintable :
    (pending : Pending) (a : String) (p : ParsedCliArguments) (next : Pending × ParsedCliArguments)
    → take_argument pending a p ≡ ok next
    → IsPrintable p
    → IsPrintable next.1
unfolding take_argument IsPrintable
take_argument-IsPrintable nothing a p next e x =
    let same_file : next.1.discovery_file ≡ p.discovery_file = ground arith in
    let same_level : next.1.log_level ≡ p.log_level = ground arith in
    let same_mark : next.1.log_level_specified ≡ p.log_level_specified = ground arith in
    (ground (arith, same_file, x.0), rw (same_level, same_mark) x.1)
take_argument-IsPrintable file a p next e x =
    let same_level : next.1.log_level ≡ p.log_level = ground arith in
    let same_mark : next.1.log_level_specified ≡ p.log_level_specified = ground arith in
    (ground arith, rw (same_level, same_mark) x.1)
take_argument-IsPrintable level a p next e x = elim (Option-cases (log_level_of a)) [
  | inl unknown ↦ absurd (ground (arith, unknown))
  | inr (l, known) ↦
      let same_file : next.1.discovery_file ≡ p.discovery_file = ground (arith, known) in
      (ground (arith, same_file, x.0), inl (ground (arith, known)))
]

take_arguments-IsPrintable :
    (argv : List String) (pending : Pending) (p q : ParsedCliArguments)
    → take_arguments argv pending p ≡ ok q
    → IsPrintable p
    → IsPrintable q
unfolding take_arguments
take_arguments-IsPrintable [] nothing p q e x = let same : q ≡ p = ground arith in rw same x
take_arguments-IsPrintable [] file p q e x = absurd (ground arith)
take_arguments-IsPrintable [] level p q e x = absurd (ground arith)
take_arguments-IsPrintable (a ∷ rest) pending p q e x =
    elim (Result-cases (take_argument pending a p)) [
      | inl (z, stop) ↦ absurd (ground (arith, stop))
      | inr (next, taken) ↦
          take_arguments-IsPrintable rest next.0 next.1 q (ground (arith, taken))
            (take_argument-IsPrintable pending a p next taken x)
    ]

-- Whatever command line was parsed, the one that is printed of its result parses to the same.
pub parse-print-parse :
    (argv : List String) (p : ParsedCliArguments)
    → parse_cli_arguments argv ≡ ok p
    → parse_cli_arguments (print_arguments p) ≡ ok p
unfolding parse_cli_arguments IsPrintable
parse-print-parse argv p e = elim (Result-cases (take_arguments argv nothing initial)) [
  | inl (z, stop) ↦ absurd (ground (arith, stop))
  | inr (q, taken) ↦ elim (Result-cases (check_arguments q)) [
    | inl (z, stop) ↦ absurd (ground (arith, taken, stop))
    | inr (done, checked) ↦
        let same : p ≡ q = ground (arith, taken, checked) in
        let x = take_arguments-IsPrintable argv nothing initial q taken (refl, inr refl) in
        rw same (parse_cli_arguments-print q checked x.0 x.1)
  ]
]
