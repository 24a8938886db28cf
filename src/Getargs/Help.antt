-- ===== src/Getargs/Help.antt =====
-- CliArgParser::print_help and what it calls: the text that goes to the stream.
use zenoh_cpp.Base.{
  List, [], ◌∷◌, ◌++◌, Bool, true, false, ◌&&◌, ltb, ◌==◌, if◌then◌else◌, length, Text, codes,
}
use zenoh_cpp.Getargs.{
  PositionalArg, OptionalPositionalArg, NamedArg, named_flag_arg, named_value_arg, named_values_arg,
  CliArgParser,
}

-- One option of print_opts.
unfoldable pub print_opt : Text → Text
print_opt o = if length o == 1 then b'-' ∷ o else if ltb 1 (length o) then b'-' ∷ b'-' ∷ o else []

unfoldable pub print_opts : List Text → Text
unfolding print_opt
print_opts [] = []
print_opts (o ∷ []) = print_opt o
print_opts (o ∷ p ∷ os) = print_opt o ++ codes ", " ++ print_opts (p ∷ os)

unfoldable pub print_help_string : NamedArg → Text
unfolding print_opts
print_help_string (named_flag_arg opts description) = print_opts opts ++ codes "  " ++ description
print_help_string (named_value_arg opts name description value) =
    print_opts opts
    ++ codes " <"
    ++ name
    ++ codes ">"
    ++ codes "  "
    ++ description
    ++ codes " [default: "
    ++ value
    ++ codes "]"
print_help_string (named_values_arg opts name description) =
    print_opts opts ++ codes " <" ++ name ++ codes ">" ++ codes "  " ++ description

abbrev endl : Text
endl = 10 ∷ []

-- A loop that prints each element.
abbrev print_each : {A : Type 0} → (A → Text) → List A → Text
print_each f [] = []
print_each f (x ∷ xs) = f x ++ print_each f xs

abbrev is_nil : {A : Type 0} → List A → Bool
is_nil [] = true
is_nil (x ∷ xs) = false

-- `program` is the file name of `_argv[0]`.
unfoldable pub print_help : Text → CliArgParser → Text
unfolding print_help_string
print_help program p =
    codes "Usage: "
    ++ program
    ++ (if is_nil p.named then [] else codes " [OPTIONS]")
    ++ print_each (λ (a : PositionalArg). codes " <" ++ a.name ++ codes ">") p.required
    ++ print_each (λ (a : OptionalPositionalArg). codes " [<" ++ a.name ++ codes ">]") p.optionals
    ++ endl
    ++ (if is_nil p.required && is_nil p.optionals then [] else codes "Arguments:" ++ endl)
    ++ print_each
        (λ (a : PositionalArg). codes "  <" ++ a.name ++ codes "> " ++ a.description ++ endl)
        p.required
    ++ print_each
        (λ (a : OptionalPositionalArg).
          codes "  [<"
          ++ a.name
          ++ codes ">] "
          ++ a.description
          ++ codes " [default: "
          ++ a.value
          ++ codes "]"
          ++ endl)
        p.optionals
    ++ codes "Options:"
    ++ endl
    ++ print_each (λ n. codes "  " ++ print_help_string n ++ endl) p.named
    ++ endl
