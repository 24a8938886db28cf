-- ===== src/Getargs/Options.antt =====
-- The options as the help prints them, and as the parser reads them.
use zenoh_cpp.Base.{
  ℕ, ◌≡◌, ◌≢◌, refl, [], ◌∷◌, true, Option, none, some, arith, Text, Lacks, split_at-Lacks,
  Option-cases, inl, inr,
}
use zenoh_cpp.Getargs.{ok, CliArgParser, unexpected_option, Outcome, throws}
use zenoh_cpp.Getargs.Parse.{
  Index, is_named, cut_value, opt_name, kind_at, name_kind, classify_named, classify, Kind,
}
use zenoh_cpp.Getargs.Help.{print_opt}

-- The kind of the option `o`, given as `a`, by what the table has for it.
abbrev pub kind_of : CliArgParser → (a o : Text) → Option ℕ → Outcome Kind
kind_of p a o none = throws (unexpected_option a)
kind_of p a o (some i) = kind_at p i o []

classify_named-kind_of :
    (p : CliArgParser) (m : Index) (a o : Text)
    → opt_name a ≡ ok o
    → classify_named p m a [] ≡ kind_of p a o (m o)
unfolding classify_named name_kind
classify_named-kind_of p m a o name = elim (Option-cases (m o)) [
  | inl unknown ↦ rw (classify_named, name, name_kind, unknown)
  | inr (i, known) ↦ rw (classify_named, name, name_kind, known)
]

cut_value-Lacks : (a : Text) → Lacks b'=' a → cut_value a ≡ (a, [])
unfolding cut_value
cut_value-Lacks a h = rw (cut_value, split_at-Lacks b'=' a h)

-- What an argument with no `=` is, where its parts are known.
classify-named :
    (p : CliArgParser) (m : Index) (a o : Text)
    → is_named a ≡ true
    → opt_name a ≡ ok o
    → Lacks b'=' a
    → classify p m a ≡ kind_of p a o (m o)
unfolding classify
classify-named p m a o named name no_eq =
    rw (named, cut_value-Lacks a no_eq) (classify_named-kind_of p m a o name)

print_opt-long : (c d : ℕ) (o : Text) → print_opt (c ∷ d ∷ o) ≡ b'-' ∷ b'-' ∷ c ∷ d ∷ o
unfolding print_opt
print_opt-long c d o = ground arith

-- An option is one that can be given: it has a name, which is not a lone dash.
abbrev pub CanBeGiven : Text → Type 0
CanBeGiven [] = ⊥
CanBeGiven (c ∷ []) = c ≢ b'-'
CanBeGiven (c ∷ d ∷ o) = Unit {0}

-- The parser reads an option, written as the help prints it, as that option: every name that is not
-- empty, not a lone dash, and has no `=`. A declared one is found by its own name, and one that is
-- not declared is refused.
pub classify-print_opt :
    (p : CliArgParser) (m : Index) (o : Text)
    → CanBeGiven o
    → Lacks b'=' o
    → classify p m (print_opt o) ≡ kind_of p (print_opt o) o (m o)
unfolding print_opt is_named opt_name
classify-print_opt p m [] can no_eq = elim can [ ]
classify-print_opt p m (c ∷ []) can no_eq =
    classify-named p m (b'-' ∷ c ∷ []) (c ∷ []) (ground arith) (ground arith)
      ((λ e. ground arith), no_eq)
classify-print_opt p m (c ∷ d ∷ o) can no_eq = rw (print_opt-long c d o) (
    classify-named p m (b'-' ∷ b'-' ∷ c ∷ d ∷ o) (c ∷ d ∷ o) (ground arith) refl
      ((λ e. ground arith), ((λ e. ground arith), no_eq)))
