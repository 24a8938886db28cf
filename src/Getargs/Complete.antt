-- ===== src/Getargs/Complete.antt =====
-- The vectors of a parse: in every round they have the shape that the declared arguments give them,
-- so that no access of the loop is out of range or of the wrong alternative.
use zenoh_cpp.Base.{
  ℕ, suc, ◌+◌, ◌<◌, ◌≤◌, ◌≡◌, ◌≢◌, ◌⊎◌, refl, ◌∙◌, List, [], ◌∷◌, ◌++◌, true, none, some, arith,
  ltb, if◌then◌else◌, Bool-cases, Option-cases, inl, inr, length, get_elem?, set, length-append,
  length-set, get_elem?-lt, Text, is_empty, codes, split_at, ◌==◌,
}
use zenoh_cpp.Getargs.{
  NamedArg, named_flag_arg, named_value_arg, named_values_arg, CliArgParser, requires_value,
  Outcome, ok, throws, undefined, ◌>>=◌,
}
use zenoh_cpp.Getargs.Parse.{
  NamedArgValue, flag_value, arg_value, arg_values, Index, opts_of, index_opts, index_named,
  index_of, Progress, initial_progress, is_named, cut_value, opt_name, take_positional, set_flag,
  set_value, push_value, store, Kind, plain, flag_at, value_at, kind_at, name_kind, classify_named,
  classify, parse_one, parse_loop, Result, check_required, parse_args,
}
use zenoh_cpp.Getargs.Shape.{
  Ends, Ends->>=, HasShape, HaveShape, HaveShape-get_elem?, HaveShape-set, initial_values-HaveShape,
  length-defaults_of,
}

-- What the loop keeps.
pub record IsProgress (p : CliArgParser) (st : Progress) : Type 0 where
  pub shaped : HaveShape p.named st.named_out
  pub optional_length : length st.optional_out ≡ length p.optionals
  pub required_le : length st.required_out ≤ length p.required

module _ (U : Type 0) (p : CliArgParser) where
  initial-IsProgress : IsProgress p (initial_progress p)
  initial-IsProgress = record {
    shaped = initial_values-HaveShape p.named;
    optional_length = length-defaults_of p.optionals;
    required_le = omega arith;
  }

  take_positional-Ends :
      (a : Text) (st : Progress) → IsProgress p st → Ends U (IsProgress p) (take_positional p a st)
  unfolding take_positional
  take_positional-Ends a st h =
      elim (Bool-cases (ltb (length st.required_out) (length p.required))) [
        | inl lt ↦ rw lt (record {
          shaped = h.shaped;
          optional_length = h.optional_length;
          required_le = ground (arith, length-append st.required_out (a ∷ []));
        })
        | inr ge ↦ rw ge (elim (Bool-cases (ltb st.num_parsed_optional (length st.optional_out))) [
          | inl lt ↦ rw lt (record {
            shaped = h.shaped;
            optional_length =
                length-set st.optional_out st.num_parsed_optional a ∙ h.optional_length;
            required_le = h.required_le;
          })
          | inr ge' ↦ rw ge' tt
        ])
      ]

  with_value :
      (st : Progress) (i : ℕ) (n : NamedArg) (v : NamedArgValue)
      → IsProgress p st
      → get_elem? p.named i ≡ some n
      → HasShape n v
      → IsProgress p (record st { named_out = set st.named_out i v })
  with_value st i n v h e hv = record {
    shaped = HaveShape-set p.named st.named_out i n v h.shaped e hv;
    optional_length = h.optional_length;
    required_le = h.required_le;
  }

  set_flag-Ends :
      (i : ℕ) (opts : List Text) (d : Text) (st : Progress)
      → IsProgress p st
      → get_elem? p.named i ≡ some (named_flag_arg opts d)
      → Ends U (IsProgress p) (set_flag i st)
  unfolding set_flag
  set_flag-Ends i opts d st h e = go (HaveShape-get_elem? p.named st.named_out i _ h.shaped e)
    where
      go :
          (v : NamedArgValue) × (get_elem? st.named_out i ≡ some v)
            × HasShape (named_flag_arg opts d) v
          → Ends U (IsProgress p) (set_flag i st)
      go (flag_value b, ev, hv) = rw (set_flag, ev) (with_value st i _ (flag_value true) h e tt)
      go (arg_value t, ev, hv) = elim hv [ ]
      go (arg_values ts, ev, hv) = elim hv [ ]

  store-Ends :
      (i : ℕ) (val : Text) (n : NamedArg) (st : Progress)
      → IsProgress p st
      → get_elem? p.named i ≡ some n
      → Ends U (IsProgress p) (store p i val st)
  unfolding store set_value push_value
  store-Ends i val n st h e = go n e (HaveShape-get_elem? p.named st.named_out i n h.shaped e)
    where
      go :
          (n : NamedArg)
          → get_elem? p.named i ≡ some n
          → (v : NamedArgValue) × (get_elem? st.named_out i ≡ some v) × HasShape n v
          → Ends U (IsProgress p) (store p i val st)
      go (named_flag_arg opts d) e found = rw (store, e) h
      go (named_value_arg opts m d w) e (arg_value t, ev, hv) =
          rw (store, e) (rw (set_value, ev) (with_value st i _ (arg_value val) h e tt))
      go (named_value_arg opts m d w) e (flag_value b, ev, hv) = elim hv [ ]
      go (named_value_arg opts m d w) e (arg_values ts, ev, hv) = elim hv [ ]
      go (named_values_arg opts m d) e (arg_values ts, ev, hv) =
          rw (store, e)
            (rw (push_value, ev) (with_value st i _ (arg_values (ts ++ val ∷ [])) h e tt))
      go (named_values_arg opts m d) e (flag_value b, ev, hv) = elim hv [ ]
      go (named_values_arg opts m d) e (arg_value t, ev, hv) = elim hv [ ]

  -- What the kind of an argument says of the option at its index.
  abbrev Fits : Kind → Type 0
  Fits plain = Unit {0}
  Fits (flag_at i) = (o : List Text × Text) × (get_elem? p.named i ≡ some (named_flag_arg o.0 o.1))
  Fits (value_at i name val) = (n : NamedArg) × (get_elem? p.named i ≡ some n)

-- The indices of the table are below `n`.
abbrev pub IsBelow : ℕ → Index → Type 0
IsBelow n m = (x : Text) (i : ℕ) → m x ≡ some i → i < n

index_opts-IsBelow :
    (os : List Text) (i n : ℕ) (m : Index) → IsBelow n m → i < n → IsBelow n (index_opts os i m)
unfolding index_opts
index_opts-IsBelow [] i n m h lt = h
index_opts-IsBelow (o ∷ os) i n m h lt =
    index_opts-IsBelow os i n _ (λ x j e. ground (arith, h x j)) lt

index_named-IsBelow :
    (ns : List NamedArg) (i : ℕ) (m : Index)
    → IsBelow (i + length ns) m
    → IsBelow (i + length ns) (index_named ns i m)
unfolding index_named
index_named-IsBelow [] i m h = h
index_named-IsBelow (n ∷ ns) i m h =
    let bounded = index_named-IsBelow ns (suc i) _ (
      index_opts-IsBelow (opts_of n) i (suc i + length ns) m (λ x j e. omega (arith, h x j e))
        (omega arith)) in
    λ x j e. omega (arith, bounded x j e)

pub index_of-IsBelow : (p : CliArgParser) → IsBelow (length p.named) (index_of p)
unfolding index_of
index_of-IsBelow p x i e =
    omega (arith, index_named-IsBelow p.named 0 (λ x. none) (λ x j h. absurd (cc)) x i e)

-- The argument `-=`, and whether it is among the arguments.
abbrev pub IsBare : Text → Type 0
IsBare arg = arg ≡ codes "-="

abbrev pub HasBare : List Text → Type 0
HasBare [] = ⊥
HasBare (a ∷ args) = IsBare a ⊎ HasBare args

-- `U` follows from each of the arguments that is `-=`.
abbrev AnyBare : Type 0 → List Text → Type 0
AnyBare U [] = Unit {0}
AnyBare U (a ∷ args) = (IsBare a → U) × AnyBare U args

HasBare-AnyBare : (U : Type 0) (args : List Text) → (HasBare args → U) → AnyBare U args
HasBare-AnyBare U [] h = tt
HasBare-AnyBare U (a ∷ args) h = ((λ e. h (inl e)), HasBare-AnyBare U args (λ later. h (inr later)))

bare_name : (arg : Text) → IsBare arg → opt_name (cut_value arg).0 ≡ undefined
unfolding opt_name cut_value split_at
bare_name arg e = rw e refl

-- The argument up to the first `=`, where that is not one of its first two characters.
cut_value-two :
    (c d : ℕ) (s : Text)
    → c ≢ b'='
    → d ≢ b'='
    → (r : Text) × ((cut_value (c ∷ d ∷ s)).0 ≡ c ∷ d ∷ r)
unfolding cut_value split_at
cut_value-two c d s ne ne' = elim (Option-cases (split_at b'=' s)) [
  | inl none_there ↦ (s, ground (arith, none_there))
  | inr ((a, b), found) ↦ (a, ground (arith, found))
]

-- A named argument has a name to look up, unless it is `-=`.
opt_name-cases :
    (arg : Text)
    → is_named arg ≡ true
    → ((name : Text) × (opt_name (cut_value arg).0 ≡ ok name)) ⊎ IsBare arg
unfolding is_named opt_name
opt_name-cases [] h = absurd (cc)
opt_name-cases (c ∷ []) h = absurd (ground arith)
opt_name-cases (c ∷ d ∷ s) h = elim (Bool-cases (d == b'=')) [
  | inl bare ↦ inr (ground arith)
  | inr other ↦
      let (r, e) = cut_value-two c d s (λ k. ground arith) (λ k. ground arith) in
      inl ((if d == b'-' then r else d ∷ r), rw (e))
]

module _ (U : Type 0) (p : CliArgParser) (m : Index) (below : IsBelow (length p.named) m) where
  kind_at-Ends :
      (i : ℕ) (name val : Text) → i < length p.named → Ends U (Fits U p) (kind_at p i name val)
  unfolding kind_at
  kind_at-Ends i name val lt = go (get_elem?-lt p.named i lt)
    where
      go :
          (n : NamedArg) × (get_elem? p.named i ≡ some n) → Ends U (Fits U p) (kind_at p i name val)
      go (named_flag_arg opts d, e) = rw (kind_at, e) ((opts, d), e)
      go (named_value_arg opts n d v, e) = rw (kind_at, e) (named_value_arg opts n d v, e)
      go (named_values_arg opts n d, e) = rw (kind_at, e) (named_values_arg opts n d, e)

  classify-Ends : (arg : Text) → (IsBare arg → U) → Ends U (Fits U p) (classify p m arg)
  unfolding classify classify_named name_kind
  classify-Ends arg bare = elim (Bool-cases (is_named arg)) [
    | inr other ↦ rw other tt
    | inl named ↦ rw named (elim (opt_name-cases arg named) [
      | inr is_bare ↦ rw (classify_named, bare_name arg is_bare) (bare is_bare)
      | inl (name, e) ↦
          rw (classify_named, e)
            (elim (Option-cases (m name)) [
              | inl unknown ↦ rw (name_kind, unknown) tt
              | inr (i, known) ↦ rw (name_kind, known) (kind_at-Ends i _ _ (below _ i known))
            ])
    ])
  ]

  -- One round keeps the vectors in shape, whatever follows it.
  parse_one-Ends :
      (arg : Text) (go : Progress → Outcome Progress)
      (take_next : ℕ → Text → Progress → Outcome Progress) (st : Progress)
      → (IsBare arg → U)
      → ((st' : Progress) → IsProgress p st' → Ends U (IsProgress p) (go st'))
      → ((i : ℕ) (name : Text) (st' : Progress)
          → (n : NamedArg) × (get_elem? p.named i ≡ some n)
          → IsProgress p st'
          → Ends U (IsProgress p) (take_next i name st'))
      → IsProgress p st
      → Ends U (IsProgress p) (parse_one p m arg go take_next st)
  unfolding parse_one
  parse_one-Ends arg go take_next st bare hgo hnext h =
      Ends->>= U (Fits U p) (IsProgress p) (classify p m arg) _ (classify-Ends arg bare) after
    where
      after :
          (k : Kind)
          → Fits U p k
          → Ends U (IsProgress p) (elim k [
            | plain ↦ take_positional p arg st >>= go
            | flag_at i ↦ set_flag i st >>= go
            | value_at i name val ↦
                if is_empty val then take_next i name st else store p i val st >>= go
          ])
      after plain fits =
          Ends->>= U (IsProgress p) (IsProgress p) _ go (take_positional-Ends U p arg st h) hgo
      after (flag_at i) ((opts, d), e) =
          Ends->>= U (IsProgress p) (IsProgress p) _ go (set_flag-Ends U p i opts d st h e) hgo
      after (value_at i name val) (n, e) = elim (Bool-cases (is_empty val)) [
        | inl none_given ↦ rw none_given (hnext i name st (n, e) h)
        | inr given ↦
            rw given
              (Ends->>= U (IsProgress p) (IsProgress p) _ go (store-Ends U p i val n st h e) hgo)
      ]

  parse_loop-Ends :
      (args : List Text) (st : Progress)
      → AnyBare U args
      → IsProgress p st
      → Ends U (IsProgress p) (parse_loop p m args st)
  unfolding parse_loop
  parse_loop-Ends [] st bare h = h
  parse_loop-Ends (arg ∷ []) st (bare, others) h =
      parse_one-Ends arg _ (λ i name st'. throws (requires_value name)) st bare (λ st' h'. h')
        (λ i name st' known h'. tt) h
  parse_loop-Ends (arg ∷ v ∷ rest) st (bare, others) h =
      parse_one-Ends arg _ _ st bare (λ st' h'. parse_loop-Ends (v ∷ rest) st' others h')
        (λ i name st' known h'.
          Ends->>= U (IsProgress p) (IsProgress p) _ _ (store-Ends U p i v known.0 st' h' known.1)
            (λ st'' h''. parse_loop-Ends rest st'' others.1 h''))
        h

-- A result with an element for every argument that the parser declares, of the right alternative.
pub record IsComplete (p : CliArgParser) (r : Result) : Type 0 where
  pub all_required : length r.positionals ≡ length p.required
  pub all_optional : length r.optionals ≡ length p.optionals
  pub shaped : HaveShape p.named r.named
  pub same_index : r.opt_to_named_idx ≡ index_of p

check_required-Ends :
    (U : Type 0) (p : CliArgParser) (st : Progress)
    → IsProgress p st
    → Ends U (IsComplete p) (check_required p (index_of p) st)
unfolding check_required
check_required-Ends U p st h = elim (Option-cases (get_elem? p.required (length st.required_out))) [
  | inr (r, missing) ↦ rw (check_required, missing) tt
  | inl full ↦
      rw (check_required, full)
        (record {
          all_required = elim (Bool-cases (ltb (length st.required_out) (length p.required))) [
            | inl lt ↦
                let (r, e) = get_elem?-lt p.required (length st.required_out) (ground arith) in
                absurd (cc)
            | inr ge ↦ ground (arith, h.required_le)
          ];
          all_optional = h.optional_length;
          shaped = h.shaped;
          same_index = refl;
        })
]

-- Whatever the arguments are, parse_args ends: with one of its messages about the arguments, or with a
-- result that has a value for every required and every optional argument, and one of the declared
-- alternative for every named one. It indexes no vector out of range, std::get never throws, and it
-- reads behind the end of an argument only if one of them is `-=`.
pub parse_args-IsComplete :
    (p : CliArgParser) (args : List Text) → Ends (HasBare args) (IsComplete p) (parse_args p args)
unfolding parse_args
parse_args-IsComplete p args =
    let U = HasBare args in
    Ends->>= U (IsProgress p) (IsComplete p) _ _
      (parse_loop-Ends U p (index_of p) (index_of-IsBelow p) args _
        (HasBare-AnyBare U args (λ h. h)) (initial-IsProgress U p))
      (check_required-Ends U p)
