-- ===== src/Getargs/Declared.antt =====
-- The options that every program has: each is found at its place, whatever the program declared.
use zenoh_cpp.Base.{
  ℕ, zero, suc, ◌+◌, ◌≡◌, refl, ap, ◌∙◌, List, [], ◌∷◌, ◌++◌, append_assoc, none, some, arith,
  length, get_elem?, Text, codes,
}
use zenoh_cpp.Getargs.{NamedArg, named_flag_arg, named_value_arg, named_values_arg, CliArgParser}
use zenoh_cpp.Getargs.Parse.{Index, index_named, index_of, Result}
use zenoh_cpp.Getargs.Complete.{IsComplete}
use zenoh_cpp.Getargs.Access.{
  flag, value, values, Returns, flag-Returns, value-Returns, values-Returns,
}
use zenoh_cpp.Getargs.Config.{declare_config_args}

-- The arguments that declare_config_args adds.
abbrev config_args : List NamedArg
unfolding declare_config_args
config_args =
    (declare_config_args (record { argv = []; required = []; optionals = []; named = [] })).named

declare_config_args-named :
    (p : CliArgParser) → (declare_config_args p).named ≡ p.named ++ config_args
unfolding declare_config_args
declare_config_args-named p = simp (append_assoc)

index_named-append :
    (xs ys : List NamedArg) (i : ℕ) (m : Index)
    → index_named (xs ++ ys) i m ≡ index_named ys (i + length xs) (index_named xs i m)
unfolding index_named
index_named-append [] ys i m = ap (λ k. index_named ys k m) (omega arith)
index_named-append (x ∷ xs) ys i m =
    index_named-append xs ys (suc i) _
    ∙ ap (λ k. index_named ys k (index_named (x ∷ xs) i m)) (omega arith)

get_elem?-append :
    {A : Type 0} (xs ys : List A) (k n : ℕ)
    → n ≡ k + length xs
    → get_elem? (xs ++ ys) n ≡ get_elem? ys k
get_elem?-append [] ys k n e = ap (get_elem? ys) (omega (arith, e))
get_elem?-append (x ∷ xs) ys k zero e = absurd (omega arith)
get_elem?-append (x ∷ xs) ys k (suc n) e = get_elem?-append xs ys k n (omega arith)

-- `k` places after `j`.
abbrev place : ℕ → ℕ → ℕ
place zero j = j
place (suc k) j = suc (place k j)

place-add : (k j : ℕ) → place k j ≡ k + j
place-add zero j = omega arith
place-add (suc k) j = omega (arith, place-add k j)

-- An option of theirs is found at its place, whatever the program declared before.
module _ (p : CliArgParser) (o : Text) (k : ℕ) (n : NamedArg) where
  found_at :
      ((j : ℕ) (m : Index) → index_named config_args j m o ≡ some (place k j))
      → index_of (declare_config_args p) o ≡ some (k + length p.named)
  unfolding index_of
  found_at here =
      ap (λ (l : List NamedArg). index_named l 0 (λ x. none) o) (declare_config_args-named p)
      ∙ ap (λ (m : Index). m o) (index_named-append p.named config_args 0 (λ x. none))
      ∙ here (0 + length p.named) (index_named p.named 0 (λ x. none))
      ∙ ap some (place-add k (0 + length p.named) ∙ omega arith)

  element_at :
      get_elem? config_args k ≡ some n
      → get_elem? (declare_config_args p).named (k + length p.named) ≡ some n
  element_at here =
      ap (λ (l : List NamedArg). get_elem? l (k + length p.named)) (declare_config_args-named p)
      ∙ get_elem?-append p.named config_args k (k + length p.named) refl
      ∙ here

module _ (p : CliArgParser) (r : Result) (complete : IsComplete (declare_config_args p) r) where
  flag_at :
      (o : Text) (k : ℕ) (opts : List Text) (d : Text)
      → ((j : ℕ) (m : Index) → index_named config_args j m o ≡ some (place k j))
      → get_elem? config_args k ≡ some (named_flag_arg opts d)
      → Returns (flag r o)
  flag_at o k opts d here is =
      flag-Returns _ r complete o _ (found_at p o k (named_flag_arg opts d) here) opts d
        (element_at p o k _ is)

  value_at :
      (o : Text) (k : ℕ) (opts : List Text) (n d v : Text)
      → ((j : ℕ) (m : Index) → index_named config_args j m o ≡ some (place k j))
      → get_elem? config_args k ≡ some (named_value_arg opts n d v)
      → Returns (value r o)
  value_at o k opts n d v here is =
      value-Returns _ r complete o _ (found_at p o k (named_value_arg opts n d v) here) opts n d v
        (element_at p o k _ is)

  values_at :
      (o : Text) (k : ℕ) (opts : List Text) (n d : Text)
      → ((j : ℕ) (m : Index) → index_named config_args j m o ≡ some (place k j))
      → get_elem? config_args k ≡ some (named_values_arg opts n d)
      → Returns (values r o)
  values_at o k opts n d here is =
      values-Returns _ r complete o _ (found_at p o k (named_values_arg opts n d) here) opts n d
        (element_at p o k _ is)

  pub config_flags : Returns (flag r (codes "h")) × Returns (flag r (codes "no-multicast-scouting"))
  unfolding declare_config_args index_named
  config_flags = (
    flag_at (codes "h") 6 _ _ (λ j m. refl) refl,
    flag_at (codes "no-multicast-scouting") 5 _ _ (λ j m. refl) refl,
  )

  pub config_value : Returns (value r (codes "c")) × Returns (value r (codes "m"))
  unfolding declare_config_args index_named
  config_value = (
    value_at (codes "c") 0 _ _ _ _ (λ j m. refl) refl,
    value_at (codes "m") 4 _ _ _ _ (λ j m. refl) refl,
  )

  pub config_values :
      Returns (values r (codes "e"))
      × Returns (values r (codes "l"))
      × Returns (values r (codes "cfg"))
  unfolding declare_config_args index_named
  config_values = (
    values_at (codes "e") 1 _ _ _ (λ j m. refl) refl,
    values_at (codes "l") 2 _ _ _ (λ j m. refl) refl,
    values_at (codes "cfg") 3 _ _ _ (λ j m. refl) refl,
  )
