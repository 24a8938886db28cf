-- ===== src/Getargs/Tests.antt =====
-- A parser with an argument of each kind, and command lines for it.
use zenoh_cpp.Base.{
  ℕ, ◌≡◌, ◌≤◌, ◌<◌, ◌↔◌, refl, List, [], ◌∷◌, ◌++◌, ◌-◌, true, false, Option, none, some, arith,
  get_elem?, Text, codes,
}
use zenoh_cpp.Getargs.{
  undefined, CliArgParser, named_flag_arg, named_value_arg, named_values_arg, ok, throws,
  unexpected_option, requires_value, missing_required,
}
use zenoh_cpp.Getargs.Parse.{
  Result, flag_value, arg_value, arg_values, parse_args, parse_loop, index_of, index_named,
  initial_progress, classify,
}
use zenoh_cpp.Getargs.Shape.{Ends}
use zenoh_cpp.Getargs.Complete.{HasBare, IsComplete, parse_args-IsComplete}
use zenoh_cpp.Getargs.Access.{
  positional_of, optional_of, flag, value, values, Returns, parse_args-Returns,
}
use zenoh_cpp.Getargs.Forms.{parse_loop-long_option}
use zenoh_cpp.Getargs.Help.{print_opt, print_help}
use zenoh_cpp.Getargs.Options.{kind_of, classify-print_opt}
use zenoh_cpp.Getargs.Values.{
  PriorityApi, parse_priority, parse_priority_bounds, to_json_array_string,
}
use zenoh_cpp.Getargs.Config.{ConfigApi, run_config}
use zenoh_cpp.Getargs.Reported.{Settles}
use zenoh_cpp.Getargs.Settings.{ThrowsOnly, HasMode, run_config-Settles}

abbrev parser : CliArgParser
parser = record {
  argv = codes "/bin/z_put" ∷ [];
  required = record { name = codes "KEY"; description = [] } ∷ [];
  optionals = record { name = codes "VALUE"; description = []; value = codes "none" } ∷ [];
  named =
      named_value_arg (codes "k" ∷ codes "key" ∷ []) (codes "KEY") [] (codes "default")
      ∷ named_flag_arg (codes "v" ∷ codes "verbose" ∷ []) (codes "Talk")
      ∷ named_values_arg (codes "a" ∷ []) (codes "ADD") []
      ∷ [];
}

abbrev line : List Text
line =
    codes "-v"
    ∷ codes "demo"
    ∷ codes "--key=x"
    ∷ codes "-a"
    ∷ codes "1"
    ∷ codes "-a"
    ∷ codes "2"
    ∷ []

abbrev parsed : Result
unfolding index_of
parsed = record {
  positionals = codes "demo" ∷ [];
  optionals = codes "none" ∷ [];
  named = arg_value (codes "x") ∷ flag_value true ∷ arg_values (codes "1" ∷ codes "2" ∷ []) ∷ [];
  opt_to_named_idx = index_of parser;
}

parse_line : parse_args parser line ≡ ok parsed
unfolding parse_args parsed index_named
parse_line = refl

-- A short option takes no `=`: such an argument is positional.
short_with_value :
    parse_args parser (codes "-k=x" ∷ [])
    ≡ ok (record {
      positionals = codes "-k=x" ∷ [];
      optionals = codes "none" ∷ [];
      named = arg_value (codes "default") ∷ flag_value false ∷ arg_values [] ∷ [];
      opt_to_named_idx = index_of parser;
    })
unfolding parse_args index_named
short_with_value = refl

errors :
    (parse_args parser (codes "demo" ∷ codes "--key" ∷ []) ≡ throws (requires_value (codes "key")))
    × (parse_args parser [] ≡ throws (missing_required (codes "KEY")))
    × (parse_args parser (codes "--" ∷ []) ≡ throws (unexpected_option (codes "--")))
unfolding parse_args index_named
errors = (refl, refl, refl)

help :
    print_help (codes "z_put") (record parser {
      optionals = [];
      named = named_flag_arg (codes "v" ∷ codes "verbose" ∷ []) (codes "Talk") ∷ [];
    })
    ≡ codes
        "Usage: z_put [OPTIONS] <KEY>\nArguments:\n  <KEY> \nOptions:\n  -v, --verbose  Talk\n\n"
unfolding print_help
help = refl

parse_args-IsComplete_example : Ends (HasBare line) (IsComplete parser) (parse_args parser line)
parse_args-IsComplete_example = parse_args-IsComplete parser line

parse_args-Returns_example :
    ((i : ℕ) → i < 1 → Returns (positional_of parsed i))
    × ((i : ℕ) → i < 1 → Returns (optional_of parsed i))
    × ((opt : Text) (i : ℕ) (opts : List Text) (d : Text)
        → index_of parser opt ≡ some i
        → get_elem? parser.named i ≡ some (named_flag_arg opts d)
        → Returns (flag parsed opt))
    × ((opt : Text) (i : ℕ) (opts : List Text) (m d w : Text)
        → index_of parser opt ≡ some i
        → get_elem? parser.named i ≡ some (named_value_arg opts m d w)
        → Returns (value parsed opt))
    × ((opt : Text) (i : ℕ) (opts : List Text) (m d : Text)
        → index_of parser opt ≡ some i
        → get_elem? parser.named i ≡ some (named_values_arg opts m d)
        → Returns (values parsed opt))
parse_args-Returns_example = parse_args-Returns parser line parsed parse_line

parse_loop-long_option_example :
    parse_loop parser
      (index_of parser)
      (codes "--key=x" ∷ codes "demo" ∷ [])
      (initial_progress parser)
    ≡ parse_loop parser
        (index_of parser)
        (codes "--key" ∷ codes "x" ∷ codes "demo" ∷ [])
        (initial_progress parser)
unfolding index_of
parse_loop-long_option_example =
    parse_loop-long_option parser (index_of parser) b'k' (codes "ey") 0
      (named_value_arg (codes "k" ∷ codes "key" ∷ []) (codes "KEY") [] (codes "default"))
      (omega arith) refl refl tt b'x' [] (codes "demo" ∷ []) (initial_progress parser)

classify-print_opt_example :
    classify parser (index_of parser) (codes "--verbose")
    ≡ kind_of parser (codes "--verbose") (codes "verbose") (some 1)
unfolding index_of print_opt
classify-print_opt_example =
    classify-print_opt parser (index_of parser) (codes "verbose") tt (omega arith)

to_json_array_string_two :
    to_json_array_string (codes "tcp/a" ∷ codes "tcp/b" ∷ []) ≡ codes "[\"tcp/a\",\"tcp/a\"]"
unfolding to_json_array_string
to_json_array_string_two = refl

-- Decimal digits.
abbrev read_digit : Text → Option ℕ
read_digit (c ∷ []) = some (c - b'0')
read_digit t = none

abbrev priorities : PriorityApi
priorities = record { atoi = read_digit; real_time = 1; background = 7 }

parse_priority_bounds_example :
    (parse_priority priorities (codes "5") ≡ ok 5)
    ↔ ((read_digit (codes "5") ≡ some 5) × (1 ≤ 5) × (5 ≤ 7))
parse_priority_bounds_example = parse_priority_bounds priorities (codes "5") 5

-- A configuration as the list of what was inserted.
abbrev listing : ConfigApi
listing = record {
  Config = List (Text × Text);
  create_default = ok [];
  from_file = λ file. ok ((codes "file", file) ∷ []);
  insert_json5 = λ c k v. ok (c ++ (k, v) ∷ []);
  listen_key = codes "listen/endpoints";
  connect_key = codes "connect/endpoints";
  mode_key = codes "mode";
  multicast_scouting_key = codes "scouting/multicast/enabled";
}

listing-ThrowsOnly : ThrowsOnly listing
listing-ThrowsOnly = record {
  default_settles = tt;
  from_file_settles = λ file. tt;
  insert_settles = λ c k v. tt;
}

run_config-Settles_example :
    Settles (λ out. HasMode listing listing-ThrowsOnly out.1) (run_config listing parser)
run_config-Settles_example = run_config-Settles listing listing-ThrowsOnly parser (λ h. h)

-- `-=` is cut to `-`, and the character behind it is read.
bare_option : parse_args parser (codes "demo" ∷ codes "-=" ∷ []) ≡ undefined
unfolding parse_args
bare_option = refl
