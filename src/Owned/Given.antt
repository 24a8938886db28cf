-- ===== src/Owned/Given.antt =====
-- The balance of handles: what the C library has given out is what the objects hold and what was
-- released.
use zenoh_cpp.Base.{ℕ, ◌+◌, ◌<◌, ◌≡◌, Option, none, some, arith}
use zenoh_cpp.Owned.{OwnedType, Contract, Memory, set}
use zenoh_cpp.Owned.Moves.{held, held-set}

-- What the documentation of the C functions promises, beside the contract of the owned type: how often
-- the library has given out a resource. A drop gives out nothing.
pub record GivenContract (c : OwnedType) (contract : Contract c) : Type 0 where
  pub given : c.World → ℕ → ℕ
  pub drop_gives : (v : c.Inner) (w : c.World) (r : ℕ) → given (c.z_drop v w).1 r ≡ given w r

module _ (c : OwnedType) (contract : Contract c) (gives : GivenContract c contract) where
  open c use {Inner, World, z_drop}
  open contract use {holds, released}
  open gives use {given}

  -- For each resource: the objects below `n` hold it, and the library has released it, as often
  -- together as the library has given it out.
  abbrev pub IsBalanced : ℕ → Memory c → Type 0
  IsBalanced n m = (r : ℕ) → held c contract n m.objects r + released m.world r ≡ given m.world r

  abbrev pub Keeps : ℕ → (Memory c → Option (Memory c)) → Type 0
  Keeps n f = (m m' : Memory c) → f m ≡ some m' → IsBalanced n m → IsBalanced n m'

  -- What the library has given out and released when it leaves the value `v` and the state `w`.
  abbrev pub Fresh : Inner → World → Memory c → Type 0
  Fresh v w m =
      (r : ℕ) → (given w r ≡ holds v r + given m.world r) × (released w r ≡ released m.world r)

  pub put-IsBalanced :
      (n this : ℕ) (v : Inner) (w : World) (m : Memory c)
      → this < n
      → m.objects this ≡ none
      → Fresh v w m
      → IsBalanced n m
      → IsBalanced n (record m { objects = set c m.objects this (some v); world = w })
  put-IsBalanced n this v w m h free fresh balanced r = ground (
    arith,
    free,
    held-set c contract n m.objects this (some v) r h,
    (fresh r).0,
    (fresh r).1,
    balanced r,
  )

  pub drop-IsBalanced :
      (n : ℕ) (v : Inner) (w : World) (m : Memory c)
      → Fresh v w m
      → IsBalanced n m
      → IsBalanced n (record m { world = (z_drop v w).1 })
  drop-IsBalanced n v w m fresh balanced r = ground (
    arith,
    contract.drop_releases v w r,
    gives.drop_gives v w r,
    (fresh r).0,
    (fresh r).1,
    balanced r,
  )

  -- Of the memory after a step with no undefined behaviour.
  abbrev pub BalancedIf : ℕ → Option (Memory c) → Type 0
  BalancedIf n none = Unit {0}
  BalancedIf n (some m) = IsBalanced n m
