-- ===== src/KeyExpr/Handles.antt =====
-- Every operation keeps the balance of handles.
use zenoh_cpp.Base.{
  subst, ℕ, ◌<◌, ◌≡◌, List, [], ◌∷◌, Bool, true, false, Option, none, some, if◌then◌else◌,
  Option-cases, inl, inr, Text,
}
use zenoh_cpp.Result.{ZResult}
use zenoh_cpp.Owned.{OwnedType, Contract, Memory}
use zenoh_cpp.Owned.Moves.{IsBelow}
use zenoh_cpp.KeyExpr.{
  KeyExprApi, KeyExprOp, from_string, copies, assigns, concats, joins, owned, construct_from_string,
  copy_construct, copy_assign, concat, join, keyexpr_step, keyexpr_run,
}
use zenoh_cpp.KeyExpr.Balance.{KeyExprContract}
use zenoh_cpp.Owned.Emplace.{left_by, emplace, emplace-IsBalanced}
use zenoh_cpp.Owned.Given.{GivenContract, IsBalanced, Keeps, BalancedIf}
use zenoh_cpp.Owned.Copied.{CloneContract, step-Keeps, clone_into-Keeps, clone_onto-Keeps}

module _ (c : OwnedType) (contract : Contract c) (gives : GivenContract c contract)
    (api : KeyExprApi c) (keys : KeyExprContract c contract gives api) where
  from_string-Keeps :
      (n this : ℕ) (t : Text) (canon : Bool) (err : Option ZResult)
      → this < n
      → Keeps c contract gives n (keyexpr_step c api (from_string this t canon err))
  unfolding keyexpr_step construct_from_string left_by
  from_string-Keeps n this t canon err h m m' e balanced = elim (Option-cases (m.objects this)) [
    | inr (x, live) ↦ absurd (cc (rw (keyexpr_step, construct_from_string, live, left_by) at e))
    | inl free ↦ go canon free (rw (keyexpr_step, construct_from_string, free) at e)
  ]
    where
      go :
          (canon' : Bool)
          → m.objects this ≡ none
          → left_by (
              some (
                emplace c this
                  (if canon'
                    then api.z_keyexpr_from_substr_autocanonize t m.world
                    else api.z_keyexpr_from_substr t m.world)
                  err
                  m))
            ≡ some m'
          → IsBalanced c contract gives n m'
      go true free e' =
          emplace-IsBalanced c contract gives n this _ _ _ err m m' h free
            (keys.autocanonize_gives t m.world) e' balanced
      go false free e' =
          emplace-IsBalanced c contract gives n this _ _ _ err m m' h free
            (keys.substr_gives t m.world) e' balanced

  cloned : CloneContract c contract gives api.z_keyexpr_clone
  cloned = record { clone_gives = keys.clone_gives }

  concats-Keeps :
      (n result this : ℕ) (t : Text) (err : Option ZResult)
      → result < n
      → Keeps c contract gives n (keyexpr_step c api (concats result this t err))
  unfolding keyexpr_step concat left_by
  concats-Keeps n result this t err h m m' e balanced = elim (Option-cases (m.objects result)) [
    | inr (x, live) ↦ absurd (cc (rw (keyexpr_step, concat, live, left_by) at e))
    | inl free ↦ elim (Option-cases (m.objects this)) [
      | inl gone ↦ absurd (cc (rw (keyexpr_step, concat, free, gone, left_by) at e))
      | inr (y, live) ↦
          emplace-IsBalanced c contract gives n result _ _ _ err m m' h free
            (keys.concat_gives y t m.world) (rw (keyexpr_step, concat, free, live) at e) balanced
    ]
  ]

  joins-Keeps :
      (n result this other : ℕ) (err : Option ZResult)
      → result < n
      → Keeps c contract gives n (keyexpr_step c api (joins result this other err))
  unfolding keyexpr_step join left_by
  joins-Keeps n result this other err h m m' e balanced = elim (Option-cases (m.objects result)) [
    | inr (x, live) ↦ absurd (cc (rw (keyexpr_step, join, live, left_by) at e))
    | inl free ↦ elim (Option-cases (m.objects this)) [
      | inl gone ↦ absurd (cc (rw (keyexpr_step, join, free, gone, left_by) at e))
      | inr (y, live) ↦ elim (Option-cases (m.objects other)) [
        | inl gone ↦ absurd (cc (rw (keyexpr_step, join, free, live, gone, left_by) at e))
        | inr (z, live') ↦
            emplace-IsBalanced c contract gives n result _ _ _ err m m' h free
              (keys.join_gives y z m.world) (rw (keyexpr_step, join, free, live, live') at e)
              balanced
      ]
    ]
  ]

  -- The addresses at which an operation makes or changes objects are below `n`.
  abbrev pub IsInRange : ℕ → KeyExprOp → Type 0
  IsInRange n (from_string this t canon err) = this < n
  IsInRange n (copies this other) = this < n
  IsInRange n (assigns this other) = this < n
  IsInRange n (concats result this t err) = result < n
  IsInRange n (joins result this other err) = result < n
  IsInRange n (owned op) = IsBelow c contract n op

  abbrev pub AreInRange : ℕ → List KeyExprOp → Type 0
  AreInRange n [] = Unit {0}
  AreInRange n (op ∷ ops) = IsInRange n op × AreInRange n ops

  keyexpr_step-Keeps :
      (n : ℕ) (op : KeyExprOp) → IsInRange n op → Keeps c contract gives n (keyexpr_step c api op)
  unfolding keyexpr_step copy_construct copy_assign
  keyexpr_step-Keeps n (from_string this t canon err) h = from_string-Keeps n this t canon err h
  keyexpr_step-Keeps n (copies this other) h =
      clone_into-Keeps c contract gives api.z_keyexpr_clone cloned n this other h
  keyexpr_step-Keeps n (assigns this other) h =
      clone_onto-Keeps c contract gives api.z_keyexpr_clone cloned n this other h
  keyexpr_step-Keeps n (concats result this t err) h = concats-Keeps n result this t err h
  keyexpr_step-Keeps n (joins result this other err) h = joins-Keeps n result this other err h
  keyexpr_step-Keeps n (owned op) h = step-Keeps c contract gives n op h

  -- Along every sequence of constructions from strings, copies, assignments, concats, joins, moves and
  -- destructions of key expressions below `n` with no undefined step, whether the calls return, write
  -- an error to `*err` or throw: what the C library has given out stays what the objects hold and what
  -- was released, so that nothing leaks, on no path of an error either, and nothing is released
  -- twice.
  pub keyexpr_run-IsBalanced :
      (ops : List KeyExprOp) (n : ℕ) (m m' : Memory c)
      → AreInRange n ops
      → keyexpr_run c api ops m ≡ some m'
      → IsBalanced c contract gives n m
      → IsBalanced c contract gives n m'
  unfolding keyexpr_run
  keyexpr_run-IsBalanced [] n m m' h e balanced = subst (BalancedIf c contract gives n) e balanced
  keyexpr_run-IsBalanced (op ∷ ops) n m m' (h, hs) e balanced =
      elim (Option-cases (keyexpr_step c api op m)) [
        | inl gone ↦ absurd (cc (rw (keyexpr_run, gone) at e))
        | inr (m₁, made) ↦
            keyexpr_run-IsBalanced ops n m₁ m' hs (rw (keyexpr_run, made) at e)
              (keyexpr_step-Keeps n op h m m₁ made balanced)
      ]
