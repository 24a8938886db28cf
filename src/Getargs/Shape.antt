-- ===== src/Getargs/Shape.antt =====
-- How a call ends that may only fail with a message about the arguments; and the alternatives of the
-- values of the named arguments.
use zenoh_cpp.Base.{ℕ, zero, suc, ◌≡◌, refl, ap, List, [], ◌∷◌, some, arith, length, get_elem?, set}
use zenoh_cpp.Getargs.{
  OptionalPositionalArg, NamedArg, named_flag_arg, named_value_arg, named_values_arg, Error,
  unexpected_positional, unexpected_option, requires_value, missing_required, Outcome, ok, throws,
  exits, undefined, ◌>>=◌,
}
use zenoh_cpp.Getargs.Parse.{
  NamedArgValue, flag_value, arg_value, arg_values, initial_value, initial_values, defaults_of,
}

abbrev pub IsUsageError : Error → Type 0
IsUsageError (unexpected_positional a) = Unit {0}
IsUsageError (unexpected_option a) = Unit {0}
IsUsageError (requires_value o) = Unit {0}
IsUsageError (missing_required n) = Unit {0}
IsUsageError e = ⊥

-- The call ends with a value that has the property, or with one of the messages about the arguments;
-- it is undefined only under the condition `U`.
abbrev pub Ends : {A : Type 0} → Type 0 → (A → Type 0) → Outcome A → Type 0
Ends U P (ok a) = P a
Ends U P (throws e) = IsUsageError e
Ends U P exits = ⊥
Ends U P undefined = U

pub Ends->>= :
    {A B : Type 0} (U : Type 0) (P : A → Type 0) (Q : B → Type 0) (m : Outcome A)
    (f : A → Outcome B)
    → Ends U P m
    → ((a : A) → P a → Ends U Q (f a))
    → Ends U Q (m >>= f)
Ends->>= U P Q (ok a) f h k = k a h
Ends->>= U P Q (throws e) f h k = h
Ends->>= U P Q exits f h k = h
Ends->>= U P Q undefined f h k = h

-- The alternative of a value is that of its declaration.
abbrev pub HasShape : NamedArg → NamedArgValue → Type 0
HasShape (named_flag_arg opts d) (flag_value b) = Unit {0}
HasShape (named_value_arg opts n d v) (arg_value t) = Unit {0}
HasShape (named_values_arg opts n d) (arg_values ts) = Unit {0}
HasShape n v = ⊥

abbrev pub HaveShape : List NamedArg → List NamedArgValue → Type 0
HaveShape [] [] = Unit {0}
HaveShape (n ∷ ns) (v ∷ vs) = HasShape n v × HaveShape ns vs
HaveShape ns vs = ⊥

pub HaveShape-get_elem? :
    (ns : List NamedArg) (vs : List NamedArgValue) (i : ℕ) (n : NamedArg)
    → HaveShape ns vs
    → get_elem? ns i ≡ some n
    → (v : NamedArgValue) × (get_elem? vs i ≡ some v) × HasShape n v
HaveShape-get_elem? [] [] i n h e = absurd (cc)
HaveShape-get_elem? [] (v ∷ vs) i n h e = elim h [ ]
HaveShape-get_elem? (m ∷ ns) [] i n h e = elim h [ ]
HaveShape-get_elem? (m ∷ ns) (v ∷ vs) zero n (h, hs) e =
    let same : m ≡ n = ground arith in (v, refl, rw⁻¹ same h)
HaveShape-get_elem? (m ∷ ns) (v ∷ vs) (suc i) n (h, hs) e = HaveShape-get_elem? ns vs i n hs e

pub HaveShape-set :
    (ns : List NamedArg) (vs : List NamedArgValue) (i : ℕ) (n : NamedArg) (v : NamedArgValue)
    → HaveShape ns vs
    → get_elem? ns i ≡ some n
    → HasShape n v
    → HaveShape ns (set vs i v)
HaveShape-set [] [] i n v h e hv = absurd (cc)
HaveShape-set [] (w ∷ vs) i n v h e hv = elim h [ ]
HaveShape-set (m ∷ ns) [] i n v h e hv = elim h [ ]
HaveShape-set (m ∷ ns) (w ∷ vs) zero n v (h, hs) e hv =
    let same : m ≡ n = ground arith in (rw same hv, hs)
HaveShape-set (m ∷ ns) (w ∷ vs) (suc i) n v (h, hs) e hv = (h, HaveShape-set ns vs i n v hs e hv)

initial_value-HasShape : (n : NamedArg) → HasShape n (initial_value n)
initial_value-HasShape (named_flag_arg opts d) = tt
initial_value-HasShape (named_value_arg opts n d v) = tt
initial_value-HasShape (named_values_arg opts n d) = tt

pub initial_values-HaveShape : (ns : List NamedArg) → HaveShape ns (initial_values ns)
unfolding initial_values
initial_values-HaveShape [] = tt
initial_values-HaveShape (n ∷ ns) = (initial_value-HasShape n, initial_values-HaveShape ns)

pub length-defaults_of : (os : List OptionalPositionalArg) → length (defaults_of os) ≡ length os
unfolding defaults_of
length-defaults_of [] = refl
length-defaults_of (o ∷ os) = ap suc (length-defaults_of os)
