-- ===== src/Made/Kept.antt =====
-- Objects whose value a C function makes or changes keep the balance of handles.
use zenoh_cpp.Base.{
  subst, refl, sym, ◌∙◌, ℕ, ◌+◌, ◌<◌, ◌≡◌, Option, none, some, Bool-cases, Option-cases, inl, inr,
}
use zenoh_cpp.Result.{ZResult, is_ok, result_check}
use zenoh_cpp.Owned.{OwnedType, Contract}
use zenoh_cpp.Owned.Moves.{IsBelow}
use zenoh_cpp.Owned.Given.{GivenContract, Keeps, BalancedIf}
use zenoh_cpp.Owned.Copied.{step-Keeps}
use zenoh_cpp.Owned.Emplace.{left_by, emplace-IsBalanced, exchange-IsBalanced}
use zenoh_cpp.Made.{MadeApi, MadeOp, makes, changes, owned, make_object, change_object, made_step}

-- What the documentation of the C functions promises. One that makes a value has given out what this
-- value holds, and has released nothing; one that changes a value accounts for what it adds to it and
-- takes from it.
pub record MadeContract (c : OwnedType) (contract : Contract c) (gives : GivenContract c contract)
    {Request Change : Type 0} (api : MadeApi c Request Change) : Type 0 where
  pub make_gives :
      (q : Request) (w : c.World) (r : ℕ)
      → let ((code, v), w') = api.make q w in
        (gives.given w' r ≡ contract.holds v r + gives.given w r)
        × (contract.released w' r ≡ contract.released w r)
  pub change_exchanges :
      (q : Change) (x : c.Inner) (w : c.World) (r : ℕ)
      → let ((code, v), w') = api.change q x w in
        contract.holds v r + contract.released w' r + gives.given w r
        ≡ contract.holds x r + contract.released w r + gives.given w' r

-- A check leaves the state as it is, whether it returns or throws.
result_check-left_by :
    {S : Type 0} (code : ZResult) (err : Option ZResult) (s : S)
    → left_by (some (result_check code err s)) ≡ some s
unfolding left_by result_check
result_check-left_by code (some e) s = refl
result_check-left_by code none s = elim (Bool-cases (is_ok code)) [
  | inl good ↦ rw (good, left_by)
  | inr bad ↦ rw (bad, left_by)
]

module _ (c : OwnedType) (contract : Contract c) (gives : GivenContract c contract)
    {Request Change : Type 0} (api : MadeApi c Request Change)
    (promised : MadeContract c contract gives api) where
  makes-Keeps :
      (n this : ℕ) (q : Request) (err : Option ZResult)
      → this < n
      → Keeps c contract gives n (made_step c api (makes this q err))
  unfolding made_step make_object left_by
  makes-Keeps n this q err h m m' e balanced = elim (Option-cases (m.objects this)) [
    | inr (x, live) ↦ absurd (cc (rw (made_step, make_object, live, left_by) at e))
    | inl free ↦
        emplace-IsBalanced c contract gives n this _ _ _ err m m' h free
          (promised.make_gives q m.world) (rw (made_step, make_object, free) at e) balanced
  ]

  changes-Keeps :
      (n this : ℕ) (q : Change) (err : Option ZResult)
      → this < n
      → Keeps c contract gives n (made_step c api (changes this q err))
  unfolding made_step change_object left_by
  changes-Keeps n this q err h m m' e balanced = elim (Option-cases (m.objects this)) [
    | inl gone ↦ absurd (cc (rw (made_step, change_object, gone, left_by) at e))
    | inr (x, live) ↦
        subst (BalancedIf c contract gives n)
          (sym (result_check-left_by _ err _) ∙ rw (made_step, change_object, live) at e)
          (exchange-IsBalanced c contract gives n this x _ _ m h live
            (promised.change_exchanges q x m.world) balanced)
  ]

  -- The address at which an operation makes or changes an object is below `n`.
  abbrev pub MadeInRange : ℕ → MadeOp Request Change → Type 0
  MadeInRange n (makes this q err) = this < n
  MadeInRange n (changes this q err) = this < n
  MadeInRange n (owned op) = IsBelow c contract n op

  pub made_step-Keeps :
      (n : ℕ) (op : MadeOp Request Change)
      → MadeInRange n op
      → Keeps c contract gives n (made_step c api op)
  unfolding made_step
  made_step-Keeps n (makes this q err) h = makes-Keeps n this q err h
  made_step-Keeps n (changes this q err) h = changes-Keeps n this q err h
  made_step-Keeps n (owned op) h = step-Keeps c contract gives n op h
