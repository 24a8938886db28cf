-- ===== src/Owned/Copied.antt =====
-- Copies and copy assignments keep the balance of handles.
use zenoh_cpp.Base.{
  sym, subst, ℕ, ◌+◌, ◌<◌, ◌≡◌, ◌∙◌, List, [], ◌∷◌, some, arith, ◌==◌, Bool-cases, Option-cases,
  inl, inr,
}
use zenoh_cpp.Owned.{OwnedType, Contract, Memory, set, Op, step}
use zenoh_cpp.Owned.Moves.{held-set, IsBelow, step-total}
use zenoh_cpp.Owned.Worlds.{step-view}
use zenoh_cpp.Owned.Given.{GivenContract, IsBalanced, Keeps, BalancedIf, put-IsBalanced}
use zenoh_cpp.Owned.Copies.{
  CopyOp, copies, assigns, owned, Clone, clone_into, clone_onto, copy_step, copy_run,
}

-- A clone has given out what it holds, and has released nothing.
pub record CloneContract (c : OwnedType) (contract : Contract c) (gives : GivenContract c contract)
    (clone : Clone c) : Type 0 where
  pub clone_gives :
      (x : c.Inner) (w : c.World) (r : ℕ)
      → let (v, w') = clone x w in
        (gives.given w' r ≡ contract.holds v r + gives.given w r)
        × (contract.released w' r ≡ contract.released w r)

module _ (c : OwnedType) (contract : Contract c) (gives : GivenContract c contract) where
  open c use {Inner, z_drop}
  open gives use {given}

  -- Moves and destructions, and the operations of Owned alone.
  pub step-Keeps :
      (n : ℕ) (op : Op) → IsBelow c contract n op → Keeps c contract gives n (step c op)
  step-Keeps n op h m m' e balanced r =
      step-total c contract op n h m m' r e
      ∙ balanced r
      ∙ sym (step-view c (λ w. given w r) (λ v w. gives.drop_gives v w r) op m m' e)

  module _ (clone : Clone c) (cloned : CloneContract c contract gives clone) where
    pub clone_into-Keeps :
        (n this other : ℕ) → this < n → Keeps c contract gives n (clone_into c clone this other)
    unfolding clone_into
    clone_into-Keeps n this other h m m' e balanced = elim (Option-cases (m.objects this)) [
      | inr (x, live) ↦ absurd (cc (rw (clone_into, live) at e))
      | inl free ↦ elim (Option-cases (m.objects other)) [
        | inl gone ↦ absurd (cc (rw (clone_into, free, gone) at e))
        | inr (y, live) ↦ subst (BalancedIf c contract gives n) (rw (clone_into, free, live) at e) (
            put-IsBalanced c contract gives n this _ _ m h free (cloned.clone_gives y m.world)
              balanced)
      ]
    ]

    -- The value at `this` is dropped, and a clone put in its place.
    replace-IsBalanced :
        (n this : ℕ) (x y : Inner) (m : Memory c)
        → this < n
        → m.objects this ≡ some x
        → IsBalanced c contract gives n m
        → let w = (z_drop x m.world).1 in
          IsBalanced c contract gives n (record m {
            objects = set c m.objects this (some (clone y w).0);
            world = (clone y w).1;
          })
    replace-IsBalanced n this x y m h live balanced r =
        let w = (z_drop x m.world).1 in
        ground (
          arith,
          live,
          held-set c contract n m.objects this (some (clone y w).0) r h,
          (cloned.clone_gives y w r).0,
          (cloned.clone_gives y w r).1,
          contract.drop_releases x m.world r,
          gives.drop_gives x m.world r,
          balanced r,
        )

    pub clone_onto-Keeps :
        (n this other : ℕ) → this < n → Keeps c contract gives n (clone_onto c clone this other)
    unfolding clone_onto
    clone_onto-Keeps n this other h m m' e balanced = elim (Option-cases (m.objects this)) [
      | inl gone ↦ absurd (cc (rw (clone_onto, gone) at e))
      | inr (x, live) ↦ elim (Option-cases (m.objects other)) [
        | inl gone ↦ absurd (cc (rw (clone_onto, live, gone) at e))
        | inr (y, live') ↦ elim (Bool-cases (this == other)) [
          | inl same ↦
              subst (BalancedIf c contract gives n) (rw (clone_onto, live, live', same) at e)
                balanced
          | inr differ ↦
              subst (BalancedIf c contract gives n) (rw (clone_onto, live, live', differ) at e)
                (replace-IsBalanced n this x y m h live balanced)
        ]
      ]
    ]

    -- The addresses at which an operation makes or changes objects are below `n`.
    abbrev pub CopyInRange : ℕ → CopyOp → Type 0
    CopyInRange n (copies this other) = this < n
    CopyInRange n (assigns this other) = this < n
    CopyInRange n (owned op) = IsBelow c contract n op

    abbrev pub CopiesInRange : ℕ → List CopyOp → Type 0
    CopiesInRange n [] = Unit {0}
    CopiesInRange n (op ∷ ops) = CopyInRange n op × CopiesInRange n ops

    copy_step-Keeps :
        (n : ℕ) (op : CopyOp) → CopyInRange n op → Keeps c contract gives n (copy_step c clone op)
    unfolding copy_step
    copy_step-Keeps n (copies this other) h = clone_into-Keeps n this other h
    copy_step-Keeps n (assigns this other) h = clone_onto-Keeps n this other h
    copy_step-Keeps n (owned op) h = step-Keeps n op h

    -- Along every sequence of copies, copy assignments, moves and destructions of objects below `n`
    -- with no undefined step, what the C library has given out stays what the objects hold and what
    -- was released: nothing leaks, and nothing is released twice.
    pub copy_run-IsBalanced :
        (ops : List CopyOp) (n : ℕ) (m m' : Memory c)
        → CopiesInRange n ops
        → copy_run c clone ops m ≡ some m'
        → IsBalanced c contract gives n m
        → IsBalanced c contract gives n m'
    unfolding copy_run
    copy_run-IsBalanced [] n m m' h e balanced = subst (BalancedIf c contract gives n) e balanced
    copy_run-IsBalanced (op ∷ ops) n m m' (h, hs) e balanced =
        elim (Option-cases (copy_step c clone op m)) [
          | inl gone ↦ absurd (cc (rw (copy_run, gone) at e))
          | inr (m₁, made) ↦
              copy_run-IsBalanced ops n m₁ m' hs (rw (copy_run, made) at e)
                (copy_step-Keeps n op h m m₁ made balanced)
        ]
