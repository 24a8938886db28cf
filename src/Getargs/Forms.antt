-- ===== src/Getargs/Forms.antt =====
-- The two ways to give an option its value.
use zenoh_cpp.Base.{
  ℕ, ◌≡◌, refl, List, [], ◌∷◌, ◌++◌, true, some, arith, get_elem?, Text, Lacks, split_at-append,
  split_at-Lacks,
}
use zenoh_cpp.Getargs.{
  NamedArg, named_flag_arg, named_value_arg, named_values_arg, CliArgParser, ok,
}
use zenoh_cpp.Getargs.Parse.{
  Index, Progress, is_named, cut_value, value_at, kind_at, name_kind, classify_named, classify,
  parse_one, parse_loop,
}

-- `--` and the option's name
abbrev pub long_option : Text → Text
long_option o = b'-' ∷ b'-' ∷ o

abbrev pub TakesValue : NamedArg → Type 0
TakesValue (named_flag_arg opts d) = ⊥
TakesValue (named_value_arg opts n d v) = Unit {0}
TakesValue (named_values_arg opts n d) = Unit {0}

long_option-Lacks : (o : Text) → Lacks b'=' o → Lacks b'=' (long_option o)
long_option-Lacks o h = ((λ e. ground arith), ((λ e. ground arith), h))

is_named-long_option : (c : ℕ) (o : Text) → is_named (long_option (c ∷ o)) ≡ true
unfolding is_named
is_named-long_option c o = ground arith

cut_value-long_option : (o : Text) → Lacks b'=' o → cut_value (long_option o) ≡ (long_option o, [])
unfolding cut_value
cut_value-long_option o h =
    rw (cut_value, split_at-Lacks b'=' (long_option o) (long_option-Lacks o h))

cut_value-long_option-eq :
    (o v : Text) → Lacks b'=' o → cut_value (long_option (o ++ b'=' ∷ v)) ≡ (long_option o, v)
unfolding cut_value
cut_value-long_option-eq o v h =
    rw (cut_value, split_at-append b'=' (long_option o) v (long_option-Lacks o h))

kind_at-value :
    (p : CliArgParser) (i : ℕ) (n : NamedArg) (name val : Text)
    → get_elem? p.named i ≡ some n
    → TakesValue n
    → kind_at p i name val ≡ ok (value_at i name val)
unfolding kind_at
kind_at-value p i (named_flag_arg opts d) name val e h = elim h [ ]
kind_at-value p i (named_value_arg opts m d v) name val e h = rw (kind_at, e)
kind_at-value p i (named_values_arg opts m d) name val e h = rw (kind_at, e)

module _ (p : CliArgParser) (m : Index) (c : ℕ) (o : Text) (i : ℕ) (n : NamedArg)
    (no_eq : Lacks b'=' (c ∷ o)) (declared : m (c ∷ o) ≡ some i)
    (is_there : get_elem? p.named i ≡ some n) (takes_value : TakesValue n) where
  classify_named-value :
      (val : Text) → classify_named p m (long_option (c ∷ o)) val ≡ ok (value_at i (c ∷ o) val)
  unfolding classify_named name_kind
  classify_named-value val =
      rw (classify_named, name_kind, declared)
        (kind_at-value p i n (c ∷ o) val is_there takes_value)

  classify-alone : classify p m (long_option (c ∷ o)) ≡ ok (value_at i (c ∷ o) [])
  unfolding classify
  classify-alone =
      rw (is_named-long_option c o, cut_value-long_option (c ∷ o) no_eq) (classify_named-value [])

  classify-eq :
      (v : Text) → classify p m (long_option (c ∷ o ++ b'=' ∷ v)) ≡ ok (value_at i (c ∷ o) v)
  unfolding classify
  classify-eq v =
      rw (is_named-long_option c (o ++ b'=' ∷ v), cut_value-long_option-eq (c ∷ o) v no_eq)
        (classify_named-value v)

  -- `--name=value` and `--name value` parse alike, in any state and with any arguments behind them,
  -- for every option that is declared to take a value, whose name has no `=`, and for every value that
  -- is not empty.
  pub parse_loop-long_option :
      (d : ℕ) (v : Text) (rest : List Text) (st : Progress)
      → parse_loop p m (long_option (c ∷ o ++ b'=' ∷ d ∷ v) ∷ rest) st
        ≡ parse_loop p m (long_option (c ∷ o) ∷ (d ∷ v) ∷ rest) st
  unfolding parse_loop parse_one
  parse_loop-long_option d v [] st = rw (classify-alone, classify-eq (d ∷ v)) refl
  parse_loop-long_option d v (next ∷ rest) st = rw (classify-alone, classify-eq (d ∷ v)) refl
