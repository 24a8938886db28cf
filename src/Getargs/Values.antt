-- ===== src/Getargs/Values.antt =====
-- The functions that read single values: parse_query_target, parse_selector, parse_priority, and
-- ConfigCliArgParser::to_json_array_string.
use zenoh_cpp.Base.{
  ℕ, suc, ◌≡◌, ◌≤◌, ◌⊎◌, ◌↔◌, refl, List, [], ◌∷◌, ◌++◌, ◌||◌, Option, none, some, arith, ltb,
  if◌then◌else◌, inl, inr, length, replicate, Text, codes, text_eq, Lacks, split_at,
  split_at-append, split_at-some, split_at-Lacks, split_at-none, Option-cases,
}
use zenoh_cpp.Getargs.{unsupported_target, unsupported_priority, Outcome, ok, throws}

pub data QueryTarget : Type 0 where
  best_matching all all_complete : QueryTarget

unfoldable pub parse_query_target : Text → Outcome QueryTarget
parse_query_target v =
    if text_eq v (codes "BEST_MATCHING")
    then ok best_matching
    else if text_eq v (codes "ALL")
    then ok all
    else if text_eq v (codes "ALL_COMPLETE")
    then ok all_complete
    else throws (unsupported_target v)

pub record Selector : Type 0 where
  pub key_expr : Text
  pub parameters : Text

unfoldable pub parse_selector : Text → Selector
unfolding split_at
parse_selector s = elim (split_at b'?' s) [
  | none ↦ record { key_expr = s; parameters = [] }
  | some (a, b) ↦ record { key_expr = a; parameters = b }
]

-- std::atoi, and the bounds of the C enumeration; a priority below zero is below the first bound.
pub record PriorityApi : Type 0 where
  pub atoi : Text → Option ℕ
  pub real_time : ℕ
  pub background : ℕ

-- `none` of atoi is a negative number.
unfoldable pub parse_priority : PriorityApi → Text → Outcome ℕ
parse_priority api arg = elim (api.atoi arg) [
  | none ↦ throws unsupported_priority
  | some p ↦
      if ltb p api.real_time || ltb api.background p then throws unsupported_priority else ok p
]

-- The elements behind the first one: the loop writes `v[0]` in every round.
unfoldable pub json_rest : Text → List Text → Text
json_rest first [] = []
json_rest first (t ∷ ts) = b',' ∷ b'"' ∷ first ++ b'"' ∷ json_rest first ts

unfoldable pub to_json_array_string : List Text → Text
unfolding json_rest
to_json_array_string [] = codes "[]"
to_json_array_string (t ∷ ts) = b'[' ∷ b'"' ∷ t ++ b'"' ∷ json_rest t ts ++ b']' ∷ []

-- The array of all the strings.
abbrev pub elements : List Text → Text
elements [] = []
elements (t ∷ ts) = b',' ∷ b'"' ∷ t ++ b'"' ∷ elements ts

abbrev pub json_array : List Text → Text
json_array [] = codes "[]"
json_array (t ∷ ts) = b'[' ∷ b'"' ∷ t ++ b'"' ∷ elements ts ++ b']' ∷ []

json_rest-elements :
    (t : Text) (ts : List Text) → json_rest t ts ≡ elements (replicate (length ts) t)
unfolding json_rest
json_rest-elements t [] = refl
json_rest-elements t (u ∷ us) = rw (json_rest-elements t us)

-- to_json_array_string writes the array of as many strings as it is given, each of them the first
-- one: the other strings have no effect.
pub to_json_array_string-replicate :
    (t : Text) (ts : List Text)
    → to_json_array_string (t ∷ ts) ≡ json_array (replicate (suc (length ts)) t)
unfolding to_json_array_string
to_json_array_string-replicate t ts = rw (json_rest-elements t ts)

-- parse_selector cuts at the first `?`: a key expression without one and any parameters are found
-- again from their text, a text without one is the key expression, and whatever the text is, the two
-- parts are the text again, with no `?` in the first.
pub parse_selector_lem :
    ((k ps : Text)
      → Lacks b'?' k
      → parse_selector (k ++ b'?' ∷ ps) ≡ record { key_expr = k; parameters = ps })
    × ((k : Text) → Lacks b'?' k → parse_selector k ≡ record { key_expr = k; parameters = [] })
    × ((s : Text)
        → Lacks b'?' (parse_selector s).key_expr
          × ((s ≡ (parse_selector s).key_expr)
              ⊎ (s ≡ (parse_selector s).key_expr ++ b'?' ∷ (parse_selector s).parameters)))
unfolding parse_selector
parse_selector_lem = (
  (λ k ps h. rw (parse_selector, split_at-append b'?' k ps h)),
  (λ k h. rw (parse_selector, split_at-Lacks b'?' k h)),
  λ s. elim (Option-cases (split_at b'?' s)) [
    | inl whole ↦ rw (parse_selector, whole) (split_at-none b'?' s whole, inl refl)
    | inr ((a, b), cut) ↦
        let (e, lacks) = split_at-some b'?' s a b cut in rw (parse_selector, cut) (lacks, inr e)
  ],
)

-- A priority that parse_priority returns lies between the two bounds, and every number that atoi
-- reads between them is returned.
pub parse_priority_bounds :
    (api : PriorityApi) (arg : Text) (p : ℕ)
    → (parse_priority api arg ≡ ok p)
      ↔ ((api.atoi arg ≡ some p) × (api.real_time ≤ p) × (p ≤ api.background))
unfolding parse_priority
parse_priority_bounds api arg p =
    ((λ h. (ground arith, ground arith, ground arith)), (λ h. ground arith))
