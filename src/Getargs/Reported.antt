-- ===== src/Getargs/Reported.antt =====
-- How a call ends that may print the help, or fail with a message to the user.
use zenoh_cpp.Base.{◌≡◌}
use zenoh_cpp.Getargs.{
  Error, bad_mode, expected_key_value, zenoh_error, unexpected_positional, unexpected_option,
  requires_value, missing_required, Outcome, ok, throws, exits, undefined, ◌>>=◌,
}
use zenoh_cpp.Getargs.Shape.{IsUsageError, Ends}
use zenoh_cpp.Getargs.Access.{Returns}

-- The exceptions that tell the user something.
abbrev pub IsReported : Error → Type 0
IsReported bad_mode = Unit {0}
IsReported (expected_key_value t) = Unit {0}
IsReported (zenoh_error n) = Unit {0}
IsReported e = IsUsageError e

abbrev pub Settles : {A : Type 0} → (A → Type 0) → Outcome A → Type 0
Settles P (ok a) = P a
Settles P (throws e) = IsReported e
Settles P exits = Unit {0}
Settles P undefined = ⊥

pub Settles->>= :
    {A B : Type 0} (P : A → Type 0) (Q : B → Type 0) (m : Outcome A) (f : A → Outcome B)
    → Settles P m
    → ((a : A) → P a → Settles Q (f a))
    → Settles Q (m >>= f)
Settles->>= P Q (ok a) f h k = k a h
Settles->>= P Q (throws e) f h k = h
Settles->>= P Q exits f h k = tt
Settles->>= P Q undefined f h k = h

IsUsageError-IsReported : (e : Error) → IsUsageError e → IsReported e
IsUsageError-IsReported (unexpected_positional a) h = tt
IsUsageError-IsReported (unexpected_option a) h = tt
IsUsageError-IsReported (requires_value a) h = tt
IsUsageError-IsReported (missing_required a) h = tt
IsUsageError-IsReported bad_mode h = tt
IsUsageError-IsReported (expected_key_value t) h = tt
IsUsageError-IsReported (zenoh_error n) h = tt
IsUsageError-IsReported e h = h

pub Ends-Settles :
    {A : Type 0} (U : Type 0) (P : A → Type 0) (m : Outcome A) → (U → ⊥) → Ends U P m → Settles P m
Ends-Settles U P (ok a) never h = h
Ends-Settles U P (throws e) never h = IsUsageError-IsReported e h
Ends-Settles U P exits never h = tt
Ends-Settles U P undefined never h = never h

-- A call that returns, and then another.
pub Returns->>= :
    {A B : Type 0} (Q : B → Type 0) (m : Outcome A) (f : A → Outcome B)
    → Returns m
    → ((a : A) → m ≡ ok a → Settles Q (f a))
    → Settles Q (m >>= f)
Returns->>= Q m f (a, e) k = rw (e, ◌>>=◌) (k a e)
