-- ===== src/Owned/Emplace.antt =====
-- Constructors that let a C function put the value into place and then check its code, as those of
-- KeyExpr, Config, Encoding and Session do, and the balance of handles behind them.
use zenoh_cpp.Base.{subst, ℕ, ◌+◌, ◌<◌, ◌≡◌, Option, none, some, Bool-cases, inl, inr, arith}
use zenoh_cpp.Result.{ZResult, Run, returned, threw, is_ok, result_check}
use zenoh_cpp.Owned.{OwnedType, Contract, Memory, set}
use zenoh_cpp.Owned.Moves.{held-set}
use zenoh_cpp.Owned.Given.{
  GivenContract, IsBalanced, BalancedIf, Fresh, put-IsBalanced, drop-IsBalanced,
}

-- The state when a call has returned or thrown.
unfoldable pub left_by : {S : Type 0} → Option (Run S (Unit {0})) → Option S
left_by none = none
left_by (some (returned u err s)) = some s
left_by (some (threw code s)) = some s

module _ (c : OwnedType) where
  open c use {Inner, World, z_drop}

  -- The end of a function that makes an object at `this` from what the C library answers: on a throw
  -- its value is dropped, by the destructor of the base or of the local; a local that is returned is
  -- the object at `this` itself.
  unfoldable pub emplace :
      ℕ → (ZResult × Inner) × World → Option ZResult → Memory c → Run (Memory c) (Unit {0})
  unfolding result_check
  emplace this ((code, v), w) err m = elim (result_check code err w) [
    | returned u err' w' ↦
        returned tt err' (record m { objects = set c m.objects this (some v); world = w' })
    | threw code' w' ↦ threw code' (record m { world = (z_drop v w').1 })
  ]

module _ (c : OwnedType) (contract : Contract c) (gives : GivenContract c contract) where
  open c use {Inner, World}
  open contract use {holds, released}
  open gives use {given}

  -- A value that the library gives, put where there is none, or dropped.
  pub emplace-IsBalanced :
      (n this : ℕ) (code : ZResult) (v : Inner) (w : World) (err : Option ZResult) (m m' : Memory c)
      → this < n
      → m.objects this ≡ none
      → Fresh c contract gives v w m
      → left_by (some (emplace c this ((code, v), w) err m)) ≡ some m'
      → IsBalanced c contract gives n m
      → IsBalanced c contract gives n m'
  unfolding emplace left_by result_check
  emplace-IsBalanced n this code v w (some e') m m' h free fresh e balanced =
      subst (BalancedIf c contract gives n) e
        (put-IsBalanced c contract gives n this v w m h free fresh balanced)
  emplace-IsBalanced n this code v w none m m' h free fresh e balanced =
      elim (Bool-cases (is_ok code)) [
        | inl good ↦
            subst (BalancedIf c contract gives n) (rw (emplace, good, left_by) at e)
              (put-IsBalanced c contract gives n this v w m h free fresh balanced)
        | inr bad ↦
            subst (BalancedIf c contract gives n) (rw (emplace, bad, left_by) at e)
              (drop-IsBalanced c contract gives n v w m fresh balanced)
      ]

  -- A C function turns the value `x` into `v`: what it gives out is what `v` holds beyond `x` and what
  -- it releases.
  abbrev pub Exchanged : Inner → World → Inner → World → Type 0
  Exchanged x w v w' =
      (r : ℕ) → holds v r + released w' r + given w r ≡ holds x r + released w r + given w' r

  pub exchange-IsBalanced :
      (n this : ℕ) (x v : Inner) (w : World) (m : Memory c)
      → this < n
      → m.objects this ≡ some x
      → Exchanged x m.world v w
      → IsBalanced c contract gives n m
      → IsBalanced c contract gives n
          (record m { objects = set c m.objects this (some v); world = w })
  exchange-IsBalanced n this x v w m h live exchanged balanced r =
      ground
        (arith, live, held-set c contract n m.objects this (some v) r h, exchanged r, balanced r)
