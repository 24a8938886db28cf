-- ===== src/Getargs/Access.antt =====
-- CliArgParser::Result: the accessors, by index and by option.
use zenoh_cpp.Base.{
  ℕ, ◌<◌, ◌≡◌, List, Bool, none, some, length, get_elem?, get_elem?-lt, Text, ◌∙◌, ap, subst,
}
use zenoh_cpp.Getargs.{
  NamedArg, named_flag_arg, named_value_arg, named_values_arg, CliArgParser, out_of_range,
  bad_variant_access, Outcome, ok, throws, undefined, ◌>>=◌,
}
use zenoh_cpp.Getargs.Parse.{
  NamedArgValue, flag_value, arg_value, arg_values, index_of, Result, parse_args,
}
use zenoh_cpp.Getargs.Shape.{Ends, HasShape, HaveShape-get_elem?}
use zenoh_cpp.Getargs.Complete.{HasBare, IsComplete, parse_args-IsComplete}

-- A vector's element; an index out of range is undefined.
abbrev pub element : {A : Type 0} → List A → ℕ → Outcome A
element xs i = elim (get_elem? xs i) [ none ↦ undefined | some x ↦ ok x ]

unfoldable pub positional_of : Result → ℕ → Outcome Text
positional_of r idx = element r.positionals idx

unfoldable pub optional_of : Result → ℕ → Outcome Text
optional_of r idx = element r.optionals idx

unfoldable pub get_flag : NamedArgValue → Outcome Bool
get_flag (flag_value b) = ok b
get_flag (arg_value t) = throws bad_variant_access
get_flag (arg_values ts) = throws bad_variant_access

unfoldable pub get_value : NamedArgValue → Outcome Text
get_value (flag_value b) = throws bad_variant_access
get_value (arg_value t) = ok t
get_value (arg_values ts) = throws bad_variant_access

unfoldable pub get_values : NamedArgValue → Outcome (List Text)
get_values (flag_value b) = throws bad_variant_access
get_values (arg_value t) = throws bad_variant_access
get_values (arg_values ts) = ok ts

-- `_opt_to_named_idx.at(opt)`
unfoldable pub index_at : Result → Text → Outcome ℕ
index_at r opt = elim (r.opt_to_named_idx opt) [ none ↦ throws out_of_range | some i ↦ ok i ]

-- `_named[_opt_to_named_idx.at(opt)]`
unfoldable pub named_at : Result → Text → Outcome NamedArgValue
unfolding index_at
named_at r opt = index_at r opt >>= element r.named

unfoldable pub flag : Result → Text → Outcome Bool
unfolding named_at get_flag
flag r opt = named_at r opt >>= get_flag

unfoldable pub value : Result → Text → Outcome Text
unfolding named_at get_value
value r opt = named_at r opt >>= get_value

unfoldable pub values : Result → Text → Outcome (List Text)
unfolding named_at get_values
values r opt = named_at r opt >>= get_values

abbrev pub Returns : {A : Type 0} → Outcome A → Type 0
Returns {A} m = (a : A) × (m ≡ ok a)

element-Returns : {A : Type 0} (xs : List A) (i : ℕ) → i < length xs → Returns (element xs i)
element-Returns xs i lt = let (x, e) = get_elem?-lt xs i lt in (x, (rw (element, e)))

module _ (p : CliArgParser) (r : Result) (complete : IsComplete p r) (opt : Text) (i : ℕ)
    (ei : index_of p opt ≡ some i) where
  -- The value at a declared option, of the declared alternative.
  found :
      (n : NamedArg)
      → get_elem? p.named i ≡ some n
      → (v : NamedArgValue) × (named_at r opt ≡ ok v) × HasShape n v
  unfolding named_at index_at
  found n en =
      let (v, ev, hv) = HaveShape-get_elem? p.named r.named i n complete.shaped en in
      let at_opt : r.opt_to_named_idx opt ≡ some i = ap (λ m. m opt) complete.same_index ∙ ei in
      (v, (rw (named_at, index_at, at_opt) (rw (element, ev))), hv)

  pub flag-Returns :
      (opts : List Text) (d : Text)
      → get_elem? p.named i ≡ some (named_flag_arg opts d)
      → Returns (flag r opt)
  unfolding flag get_flag
  flag-Returns opts d en = go (found _ en)
    where
      go :
          (v : NamedArgValue) × (named_at r opt ≡ ok v) × HasShape (named_flag_arg opts d) v
          → Returns (flag r opt)
      go (flag_value b, e, h) = (b, (rw (flag, e)))
      go (arg_value t, e, h) = elim h [ ]
      go (arg_values ts, e, h) = elim h [ ]

  pub value-Returns :
      (opts : List Text) (m d w : Text)
      → get_elem? p.named i ≡ some (named_value_arg opts m d w)
      → Returns (value r opt)
  unfolding value get_value
  value-Returns opts m d w en = go (found _ en)
    where
      go :
          (v : NamedArgValue) × (named_at r opt ≡ ok v) × HasShape (named_value_arg opts m d w) v
          → Returns (value r opt)
      go (arg_value t, e, h) = (t, (rw (value, e)))
      go (flag_value b, e, h) = elim h [ ]
      go (arg_values ts, e, h) = elim h [ ]

  pub values-Returns :
      (opts : List Text) (m d : Text)
      → get_elem? p.named i ≡ some (named_values_arg opts m d)
      → Returns (values r opt)
  unfolding values get_values
  values-Returns opts m d en = go (found _ en)
    where
      go :
          (v : NamedArgValue) × (named_at r opt ≡ ok v) × HasShape (named_values_arg opts m d) v
          → Returns (values r opt)
      go (arg_values ts, e, h) = (ts, (rw (values, e)))
      go (flag_value b, e, h) = elim h [ ]
      go (arg_value t, e, h) = elim h [ ]

-- A result of parse_args is complete.
pub IsComplete-result :
    (p : CliArgParser) (args : List Text) (r : Result) → parse_args p args ≡ ok r → IsComplete p r
IsComplete-result p args r e =
    subst (Ends (HasBare args) (IsComplete p)) e (parse_args-IsComplete p args)

-- After parse_args has returned a result, its accessors return, with no exception and no access out
-- of range, for the index of every required and of every optional argument, and for every declared
-- option by the accessor of its kind.
pub parse_args-Returns :
    (p : CliArgParser) (args : List Text) (r : Result)
    → parse_args p args ≡ ok r
    → ((i : ℕ) → i < length p.required → Returns (positional_of r i))
      × ((i : ℕ) → i < length p.optionals → Returns (optional_of r i))
      × ((opt : Text) (i : ℕ) (opts : List Text) (d : Text)
          → index_of p opt ≡ some i
          → get_elem? p.named i ≡ some (named_flag_arg opts d)
          → Returns (flag r opt))
      × ((opt : Text) (i : ℕ) (opts : List Text) (m d w : Text)
          → index_of p opt ≡ some i
          → get_elem? p.named i ≡ some (named_value_arg opts m d w)
          → Returns (value r opt))
      × ((opt : Text) (i : ℕ) (opts : List Text) (m d : Text)
          → index_of p opt ≡ some i
          → get_elem? p.named i ≡ some (named_values_arg opts m d)
          → Returns (values r opt))
unfolding positional_of optional_of
parse_args-Returns p args r e =
    let complete = IsComplete-result p args r e in
    (
      (λ i lt. element-Returns r.positionals i (rw complete.all_required lt)),
      (λ i lt. element-Returns r.optionals i (rw complete.all_optional lt)),
      (λ opt i opts d ei en. flag-Returns p r complete opt i ei opts d en),
      (λ opt i opts m d w ei en. value-Returns p r complete opt i ei opts m d w en),
      λ opt i opts m d ei en. values-Returns p r complete opt i ei opts m d en,
    )
