-- ===== src/Getargs/Parse.antt =====
-- CliArgParser::parse_args and CliArgParser::run.
use zenoh_cpp.Base.{
  ℕ, suc, List, [], ◌∷◌, ◌++◌, Bool, true, false, ◌&&◌, ◌||◌, Option, none, some, ◌==◌, ltb,
  if◌then◌else◌, length, drop, get_elem?, set, Text, text_eq, is_empty, split_at,
}
use zenoh_cpp.Getargs.{
  OptionalPositionalArg, NamedArg, named_flag_arg, named_value_arg, named_values_arg, CliArgParser,
  unexpected_positional, unexpected_option, requires_value, missing_required, bad_variant_access,
  Outcome, ok, throws, exits, undefined, ◌>>=◌,
}

-- Result::NamedArgValue
pub data NamedArgValue : Type 0 where
  flag_value : Bool → NamedArgValue
  arg_value : Text → NamedArgValue
  arg_values : List Text → NamedArgValue

-- opt_to_named_arg_index
abbrev pub Index : Type 0
Index = Text → Option ℕ

abbrev pub opts_of : NamedArg → List Text
opts_of (named_flag_arg opts d) = opts
opts_of (named_value_arg opts n d v) = opts
opts_of (named_values_arg opts n d) = opts

unfoldable pub index_opts : List Text → ℕ → Index → Index
index_opts [] i m = m
index_opts (o ∷ os) i m = index_opts os i (λ x. if text_eq o x then some i else m x)

unfoldable pub index_named : List NamedArg → ℕ → Index → Index
unfolding index_opts
index_named [] i m = m
index_named (n ∷ ns) i m = index_named ns (suc i) (index_opts (opts_of n) i m)

unfoldable pub index_of : CliArgParser → Index
unfolding index_named
index_of p = index_named p.named 0 (λ x. none)

-- What `named_out` starts with.
abbrev pub initial_value : NamedArg → NamedArgValue
initial_value (named_flag_arg opts d) = flag_value false
initial_value (named_value_arg opts n d v) = arg_value v
initial_value (named_values_arg opts n d) = arg_values []

unfoldable pub initial_values : List NamedArg → List NamedArgValue
initial_values [] = []
initial_values (n ∷ ns) = initial_value n ∷ initial_values ns

unfoldable pub defaults_of : List OptionalPositionalArg → List Text
defaults_of [] = []
defaults_of (o ∷ os) = o.value ∷ defaults_of os

-- The variables of the loop.
pub record Progress : Type 0 where
  pub required_out : List Text
  pub optional_out : List Text
  pub num_parsed_optional : ℕ
  pub named_out : List NamedArgValue

abbrev pub at_dash : Text → ℕ → Bool
at_dash a i = elim (get_elem? a i) [ none ↦ false | some c ↦ c == b'-' ]

-- is_named, for an argument that is there
unfoldable pub is_named : Text → Bool
is_named a = length a == 2 && at_dash a 0 || ltb 2 (length a) && at_dash a 0 && at_dash a 1

-- The argument up to the first `=`, and what stands behind it.
unfoldable pub cut_value : Text → Text × Text
unfolding split_at
cut_value arg = elim (split_at b'=' arg) [ none ↦ (arg, []) | some (a, val) ↦ (a, val) ]

-- `a.data() + 2` or `a.data() + 1`, by `a[1]`: `-=` is cut to `-`, which has no `a[1]`.
unfoldable pub opt_name : Text → Outcome Text
opt_name a = elim (get_elem? a 1) [
  | none ↦ undefined
  | some c ↦ ok (if c == b'-' then drop 2 a else drop 1 a)
]

-- `required_out`, then `optional_out`, take an argument that is not named.
unfoldable pub take_positional : CliArgParser → Text → Progress → Outcome Progress
take_positional p a st =
    if ltb (length st.required_out) (length p.required)
    then ok (record st { required_out = st.required_out ++ a ∷ [] })
    else if ltb st.num_parsed_optional (length st.optional_out)
    then ok (record st {
      optional_out = set st.optional_out st.num_parsed_optional a;
      num_parsed_optional = suc st.num_parsed_optional;
    })
    else throws (unexpected_positional a)

-- The writes to `named_out[i]`; std::get throws on another alternative.
unfoldable pub set_flag : ℕ → Progress → Outcome Progress
set_flag i st = elim (get_elem? st.named_out i) [
  | none ↦ undefined
  | some v ↦ elim v [
    | flag_value b ↦ ok (record st { named_out = set st.named_out i (flag_value true) })
    | arg_value t ↦ throws bad_variant_access
    | arg_values ts ↦ throws bad_variant_access
  ]
]

unfoldable pub set_value : ℕ → Text → Progress → Outcome Progress
set_value i val st = elim (get_elem? st.named_out i) [
  | none ↦ undefined
  | some v ↦ elim v [
    | flag_value b ↦ throws bad_variant_access
    | arg_value t ↦ ok (record st { named_out = set st.named_out i (arg_value val) })
    | arg_values ts ↦ throws bad_variant_access
  ]
]

unfoldable pub push_value : ℕ → Text → Progress → Outcome Progress
push_value i val st = elim (get_elem? st.named_out i) [
  | none ↦ undefined
  | some v ↦ elim v [
    | flag_value b ↦ throws bad_variant_access
    | arg_value t ↦ throws bad_variant_access
    | arg_values ts ↦
        ok (record st { named_out = set st.named_out i (arg_values (ts ++ val ∷ [])) })
  ]
]

unfoldable pub store : CliArgParser → ℕ → Text → Progress → Outcome Progress
unfolding set_value push_value
store p i val st = elim (get_elem? p.named i) [
  | none ↦ undefined
  | some n ↦ elim n [
    | named_flag_arg opts d ↦ ok st
    | named_value_arg opts m d v ↦ set_value i val st
    | named_values_arg opts m d ↦ push_value i val st
  ]
]

-- What an argument is: positional, a flag, or an option with a value, which is empty where none is
-- given behind a `=`.
pub data Kind : Type 0 where
  plain : Kind
  flag_at : ℕ → Kind
  value_at : ℕ → Text → Text → Kind

unfoldable pub kind_at : CliArgParser → ℕ → Text → Text → Outcome Kind
kind_at p i name val = elim (get_elem? p.named i) [
  | none ↦ undefined
  | some n ↦ elim n [
    | named_flag_arg opts d ↦ ok (flag_at i)
    | named_value_arg opts m d v ↦ ok (value_at i name val)
    | named_values_arg opts m d ↦ ok (value_at i name val)
  ]
]

-- The option that is looked up under a name.
unfoldable pub name_kind : CliArgParser → Index → Text → Text → Text → Outcome Kind
unfolding kind_at
name_kind p m a val name = elim (m name) [
  | none ↦ throws (unexpected_option a)
  | some i ↦ kind_at p i name val
]

unfoldable pub classify_named : CliArgParser → Index → Text → Text → Outcome Kind
unfolding opt_name name_kind
classify_named p m a val = opt_name a >>= name_kind p m a val

unfoldable pub classify : CliArgParser → Index → Text → Outcome Kind
unfolding is_named cut_value classify_named
classify p m arg =
    if is_named arg then classify_named p m (cut_value arg).0 (cut_value arg).1 else ok plain

-- One round of the loop: `go` goes on with the next argument, and `take_next` takes that one as the
-- value of the option at an index.
unfoldable pub parse_one :
    CliArgParser
    → Index
    → Text
    → (Progress → Outcome Progress)
    → (ℕ → Text → Progress → Outcome Progress)
    → Progress
    → Outcome Progress
unfolding take_positional set_flag store
parse_one p m arg go take_next st = classify p m arg >>= λ k. elim k [
  | plain ↦ take_positional p arg st >>= go
  | flag_at i ↦ set_flag i st >>= go
  | value_at i name val ↦ if is_empty val then take_next i name st else store p i val st >>= go
]

unfoldable pub parse_loop : CliArgParser → Index → List Text → Progress → Outcome Progress
unfolding parse_one classify store
parse_loop p m [] st = ok st
parse_loop p m (arg ∷ []) st =
    parse_one p m arg (λ st'. ok st') (λ i name st'. throws (requires_value name)) st
parse_loop p m (arg ∷ v ∷ rest) st =
    parse_one p m arg (parse_loop p m (v ∷ rest))
      (λ i name st'. store p i v st' >>= parse_loop p m rest) st

-- CliArgParser::Result
pub record Result : Type 0 where
  pub positionals : List Text
  pub optionals : List Text
  pub named : List NamedArgValue
  pub opt_to_named_idx : Index

-- The test after the loop.
unfoldable pub check_required : CliArgParser → Index → Progress → Outcome Result
check_required p m st = elim (get_elem? p.required (length st.required_out)) [
  | some r ↦ throws (missing_required r.name)
  | none ↦ ok (record {
    positionals = st.required_out;
    optionals = st.optional_out;
    named = st.named_out;
    opt_to_named_idx = m;
  })
]

abbrev pub initial_progress : CliArgParser → Progress
initial_progress p = record {
  required_out = [];
  optional_out = defaults_of p.optionals;
  num_parsed_optional = 0;
  named_out = initial_values p.named;
}

unfoldable pub parse_args : CliArgParser → List Text → Outcome Result
unfolding index_of initial_values defaults_of parse_loop check_required
parse_args p args =
    parse_loop p (index_of p) args (initial_progress p) >>= check_required p (index_of p)

-- CliArgParser::run; with the program's name alone and arguments required it prints the help.
unfoldable pub run : CliArgParser → Outcome Result
unfolding parse_args
run p =
    if length p.argv == 1 && ltb 0 (length p.required) then exits else parse_args p (drop 1 p.argv)
