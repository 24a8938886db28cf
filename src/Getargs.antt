-- ===== src/Getargs.antt =====
-- examples/getargs.hxx: the command line parser that the programs share, and the functions beside it.
pub mod Parse
pub mod Access
pub mod Help
pub mod Config
pub mod Values
pub mod Shape
pub mod Complete
pub mod Forms
pub mod Options
pub mod Reported
pub mod Declared
pub mod Settings
mod Tests
use zenoh_cpp.Base.{ℕ, List, [], ◌∷◌, ◌++◌, Text}

pub record PositionalArg : Type 0 where
  pub name : Text
  pub description : Text

pub record OptionalPositionalArg : Type 0 where
  pub name : Text
  pub description : Text
  pub value : Text

-- NamedArg, a variant of NamedFlag, NamedValue and NamedValues: the options' names first.
pub data NamedArg : Type 0 where
  named_flag_arg : (opts : List Text) (description : Text) → NamedArg
  named_value_arg : (opts : List Text) (name description value : Text) → NamedArg
  named_values_arg : (opts : List Text) (name description : Text) → NamedArg

-- CliArgParser; `argv` is the array of the `_argc` arguments, the program's name first.
pub record CliArgParser : Type 0 where
  pub argv : List Text
  pub required : List PositionalArg
  pub optionals : List OptionalPositionalArg
  pub named : List NamedArg

-- The exceptions that the code throws, by what it says, and those of the standard library.
pub data Error : Type 0 where
  unexpected_positional : Text → Error
  unexpected_option : Text → Error
  requires_value : Text → Error
  missing_required : Text → Error
  bad_mode : Error
  expected_key_value : Text → Error
  unsupported_target : Text → Error
  unsupported_priority : Error
  out_of_range : Error
  bad_variant_access : Error
  zenoh_error : ℕ → Error

-- How a call ends: with a value, with an exception, in exit(0), or in undefined behaviour (an index
-- out of the range of a vector).
pub data Outcome (A : Type 0) : Type 0 where
  ok : A → Outcome A
  throws : Error → Outcome A
  exits : Outcome A
  undefined : Outcome A

infixl 5 ◌>>=◌ ◌>>◌
abbrev pub ◌>>=◌ : {A B : Type 0} → Outcome A → (A → Outcome B) → Outcome B
ok a >>= f = f a
throws e >>= f = throws e
exits >>= f = exits
undefined >>= f = undefined

abbrev pub ◌>>◌ : {A B : Type 0} → Outcome A → Outcome B → Outcome B
m >> k = m >>= λ _. k

-- The methods that declare arguments.
unfoldable pub positional : Text → Text → CliArgParser → CliArgParser
positional name description p = record p {
  required = p.required ++ record { name = name; description = description } ∷ [];
}

unfoldable pub optional : Text → Text → Text → CliArgParser → CliArgParser
optional name description value p = record p {
  optionals = p.optionals ++ record { name = name; description = description; value = value } ∷ [];
}

unfoldable pub named_flag : List Text → Text → CliArgParser → CliArgParser
named_flag opts description p = record p { named = p.named ++ named_flag_arg opts description ∷ [] }

unfoldable pub named_value : List Text → Text → Text → Text → CliArgParser → CliArgParser
named_value opts name description value p = record p {
  named = p.named ++ named_value_arg opts name description value ∷ [];
}

unfoldable pub named_values : List Text → Text → Text → CliArgParser → CliArgParser
named_values opts name description p = record p {
  named = p.named ++ named_values_arg opts name description ∷ [];
}
