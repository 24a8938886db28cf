-- ===== src/Base/Strings.antt =====
-- Text as a list of code points, as std::string and std::string_view hold it where the sources
-- compare, search and cut it.
use Prim.Native.Nat.{ℕ}
use Prim.Native.Char.{code}
use Prim.Native.String.{String}
use mathlib.Core.Path.{◌≡◌, refl, ap}
use mathlib.Core.Logic.{◌≢◌, ◌↔◌, inl, inr}
use mathlib.Core.Bool.{Bool, true, false, ◌&&◌}
use mathlib.Core.Option.{Option, none, some}
use mathlib.Core.List.{List, [], ◌∷◌, ◌++◌}
use native.Mathlib.Omega.{arith}
use zenoh_cpp.Base.Test.{◌==◌, if◌then◌else◌, Bool-cases}

abbrev pub Text : Type 0
Text = List ℕ

abbrev pub codes : String → Text
codes String.[] = []
codes (String.◌∷◌ c s) = code c ∷ codes s

abbrev pub text_eq : Text → Text → Bool
text_eq [] [] = true
text_eq [] (d ∷ t) = false
text_eq (c ∷ s) [] = false
text_eq (c ∷ s) (d ∷ t) = c == d && text_eq s t

pub text_eq_refl : (s : Text) → text_eq s s ≡ true
text_eq_refl [] = refl
text_eq_refl (c ∷ s) = ground (arith, text_eq_refl s)

pub text_eq→eq : (s t : Text) → text_eq s t ≡ true → s ≡ t
text_eq→eq [] [] h = refl
text_eq→eq [] (d ∷ t) h = absurd (cc)
text_eq→eq (c ∷ s) [] h = absurd (cc)
text_eq→eq (c ∷ s) (d ∷ t) h = ground (arith, text_eq→eq s t)

pub text_eq_iff : (s t : Text) → (text_eq s t ≡ true) ↔ (s ≡ t)
text_eq_iff s t = (text_eq→eq s t, λ e. rw e (text_eq_refl t))

abbrev pub is_empty : Text → Bool
is_empty [] = true
is_empty (c ∷ s) = false

abbrev add_first : ℕ → Option (Text × Text) → Option (Text × Text)
add_first d none = none
add_first d (some (a, b)) = some (d ∷ a, b)

-- What stands before the first `c` and after it; `none` where `find` returns npos.
unfoldable pub split_at : ℕ → Text → Option (Text × Text)
split_at c [] = none
split_at c (d ∷ s) = if d == c then some ([], s) else add_first d (split_at c s)

-- `c` does not stand in the text.
abbrev pub Lacks : ℕ → Text → Type 0
Lacks c [] = Unit {0}
Lacks c (d ∷ s) = (d ≢ c) × Lacks c s

pub split_at-append : (c : ℕ) (s t : Text) → Lacks c s → split_at c (s ++ c ∷ t) ≡ some (s, t)
unfolding split_at
split_at-append c [] t h = ground arith
split_at-append c (d ∷ s) t (ne, h) = ground (arith, split_at-append c s t h)

pub split_at-Lacks : (c : ℕ) (s : Text) → Lacks c s → split_at c s ≡ none
unfolding split_at
split_at-Lacks c [] h = refl
split_at-Lacks c (d ∷ s) (ne, h) = ground (arith, split_at-Lacks c s h)

-- What `split_at` finds is where the text is put together again.
module _ (c : ℕ) where
  first-some :
      (d : ℕ) (s : Text) (found : Option (Text × Text)) (a b : Text)
      → d ≢ c
      → ((a' b' : Text) → found ≡ some (a', b') → (s ≡ a' ++ c ∷ b') × Lacks c a')
      → add_first d found ≡ some (a, b)
      → (d ∷ s ≡ a ++ c ∷ b) × Lacks c a
  first-some d s none a b ne ih h = absurd (cc)
  first-some d s (some (a', b')) a b ne ih h =
      let (e, lacks) = ih a' b' refl in
      let ea : d ∷ a' ≡ a = ground arith in
      let eb : b' ≡ b = ground arith in rw⁻¹ (ea, eb) (ap (λ l. d ∷ l) e, (ne, lacks))

  -- What `split_at` finds is where the text is put together again.
  pub split_at-some : (s a b : Text) → split_at c s ≡ some (a, b) → (s ≡ a ++ c ∷ b) × Lacks c a
  unfolding split_at
  split_at-some [] a b h = absurd (cc)
  split_at-some (d ∷ s) a b h = elim (Bool-cases (d == c)) [
    | inl e ↦
        let ea : [] ≡ a = ground arith in
        let eb : s ≡ b = ground arith in
        let ed : d ≡ c = ground arith in rw⁻¹ (ea, eb) (ap (λ x. x ∷ s) ed, tt)
    | inr e ↦ first-some d s (split_at c s) a b (λ same. ground arith) (split_at-some s) (rw e at h)
  ]

  first-none : (d : ℕ) (found : Option (Text × Text)) → add_first d found ≡ none → found ≡ none
  first-none d none h = refl
  first-none d (some (a, b)) h = absurd (cc)

  pub split_at-none : (s : Text) → split_at c s ≡ none → Lacks c s
  unfolding split_at
  split_at-none [] h = tt
  split_at-none (d ∷ s) h = elim (Bool-cases (d == c)) [
    | inl e ↦ absurd (cc (rw e at h))
    | inr e ↦ ((λ same. ground arith), split_at-none s (first-none d (split_at c s) (rw e at h)))
  ]
