-- ===== src/Closures/Tests.antt =====
-- A subscriber's callback that collects what it gets, and a second closure beside it.
use zenoh_cpp.Base.{ℕ, ◌≤◌, ◌≡◌, refl, List, [], ◌∷◌, ◌++◌, none, some}
use zenoh_cpp.Closures.{
  Closure, Process, sample, query, into_context, CClosure, zenoh_on_sample_call,
  zenoh_on_query_call, Use, calls, drops, run, use_closure,
}
use zenoh_cpp.Closures.Lifetime.{
  IsFresh, calls_then_drop, drops_of, run-into_context, heard, run-heard,
}

abbrev collector : Closure (List ℕ) ℕ
collector = record { arg = sample; call = λ v u. u ++ v ∷ []; drop = λ u. u ++ 0 ∷ [] }

abbrev idle : Process (List ℕ) ℕ
idle = record { user = []; next = 0; closures = λ a. none }

idle-IsFresh : IsFresh idle
idle-IsFresh = record { above = λ a h. refl }

run-into_context_example :
    (q : Process (List ℕ) ℕ) × (run
        (calls_then_drop
          (record { function = zenoh_on_sample_call; context = (into_context collector idle).0 })
          (5 ∷ 6 ∷ []))
        (into_context collector idle).1
      ≡ some q)
    × (q.user ≡ 5 ∷ 6 ∷ 0 ∷ [])
    × (q.next ≡ 1)
    × ((a : ℕ) → q.closures a ≡ none)
run-into_context_example =
    run-into_context zenoh_on_sample_call collector (5 ∷ 6 ∷ []) idle idle-IsFresh refl

-- Two closures in turn.
abbrev two : Process (List ℕ) ℕ
two =
    (into_context (record { arg = query; call = λ v u. v ∷ u; drop = λ u. u })
      (into_context collector idle).1).1

abbrev first : CClosure
first = record { function = zenoh_on_sample_call; context = 0 }

abbrev second : CClosure
second = record { function = zenoh_on_query_call; context = 1 }

-- A use after the drop is undefined.
use_after_drop : run ((first, drops) ∷ (first, calls 1) ∷ []) two ≡ none
unfolding run use_closure into_context
use_after_drop = refl

abbrev turns : List (CClosure × Use ℕ)
turns = (first, calls 1) ∷ (second, calls 2) ∷ (first, drops) ∷ []

run-heard_example :
    (2 ∷ 1 ∷ 0 ∷ [] ≡ heard two.closures turns []) × ((a : ℕ) → drops_of a turns ≤ 1)
unfolding run use_closure into_context
run-heard_example = run-heard turns two _ refl
