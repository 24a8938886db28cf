-- ===== src/Batch/Lifetimes.antt =====
-- Histories of guards, and what a move does.
use zenoh_cpp.Base.{
  subst, ℕ, suc, ◌<◌, ◌≡◌, refl, List, [], ◌∷◌, true, Option, none, some, arith, Option-cases, inl,
  inr, ◌∙◌, sym,
}
use zenoh_cpp.Result.{ZResult, Run, returned, threw}
use zenoh_cpp.Batch.{
  BatchApi, GuardOp, starts, flushes, moves, assigns_guard, ends, Guards, put_guard, guard_of,
  guard_step, guard_run,
}
use zenoh_cpp.Batch.References.{
  BatchContract, valid_below, valid_below-put, IsCounted, CountedIf, StartCounts,
  start_batching-StartCounts, flush-references, end_guard-references,
}

module _ (api : BatchApi) (contract : BatchContract api) where
  open api use {State, Session, Counted, check}
  open contract use {references}

  abbrev IsKept : ℕ → (Guards api → Option (Guards api)) → Type 0
  IsKept n f =
      (g g' : Guards api) → f g ≡ some g' → IsCounted api contract n g → IsCounted api contract n g'

  guard_of-IsCounted :
      (n this : ℕ) (r : Run State Counted) (g : Guards api)
      → this < n
      → g.guards this ≡ none
      → StartCounts api contract g.state r
      → IsCounted api contract n g
      → IsCounted api contract n (guard_of api this r g.guards)
  unfolding guard_of
  guard_of-IsCounted n this (returned v err s) g h free counts counted =
      ground (arith, free, counts, counted, valid_below-put api contract n g.guards this (some v) h)
  guard_of-IsCounted n this (threw code s) g h free counts counted = ground (arith, counts, counted)

  starts-IsKept :
      (n this : ℕ) (x : Session) (err : Option ZResult)
      → this < n
      → IsKept n (guard_step api (starts this x err))
  unfolding guard_step
  starts-IsKept n this x err h g g' e counted = elim (Option-cases (g.guards this)) [
    | inr (v, live) ↦ absurd (cc (rw (guard_step, live) at e))
    | inl free ↦ subst (CountedIf api contract n) (rw (guard_step, free) at e) (
        guard_of-IsCounted n this _ g h free (start_batching-StartCounts api contract x err g.state)
          counted)
  ]

  flushes-IsKept :
      (n this : ℕ) (err : Option ZResult) → IsKept n (guard_step api (flushes this err))
  unfolding guard_step
  flushes-IsKept n this err g g' e counted = elim (Option-cases (g.guards this)) [
    | inl gone ↦ absurd (cc (rw (guard_step, gone) at e))
    | inr (v, live) ↦
        subst (CountedIf api contract n) (rw (guard_step, live) at e)
          (counted ∙ sym (flush-references api contract v err g.state))
  ]

  ends-IsKept : (n this : ℕ) → this < n → IsKept n (guard_step api (ends this))
  unfolding guard_step
  ends-IsKept n this h g g' e counted = elim (Option-cases (g.guards this)) [
    | inl gone ↦ absurd (cc (rw (guard_step, gone) at e))
    | inr (v, live) ↦ subst (CountedIf api contract n) (rw (guard_step, live) at e) (
        ground (
          arith,
          live,
          counted,
          valid_below-put api contract n g.guards this none h,
          end_guard-references api contract v g.state,
        ))
  ]

  -- An operation that is no move, on a guard below `n`.
  abbrev pub IsUnmoved : ℕ → GuardOp Session → Type 0
  IsUnmoved n (starts this x err) = this < n
  IsUnmoved n (flushes this err) = Unit {0}
  IsUnmoved n (moves this other) = ⊥
  IsUnmoved n (assigns_guard this other) = ⊥
  IsUnmoved n (ends this) = this < n

  abbrev pub AreUnmoved : ℕ → List (GuardOp Session) → Type 0
  AreUnmoved n [] = Unit {0}
  AreUnmoved n (op ∷ ops) = IsUnmoved n op × AreUnmoved n ops

  guard_step-IsKept : (n : ℕ) (op : GuardOp Session) → IsUnmoved n op → IsKept n (guard_step api op)
  guard_step-IsKept n (starts this x err) h = starts-IsKept n this x err h
  guard_step-IsKept n (flushes this err) h = flushes-IsKept n this err
  guard_step-IsKept n (moves this other) h = absurd h
  guard_step-IsKept n (assigns_guard this other) h = absurd h
  guard_step-IsKept n (ends this) h = ends-IsKept n this h

  guard_run-IsCounted :
      (ops : List (GuardOp Session)) (n : ℕ) (g g' : Guards api)
      → AreUnmoved n ops
      → guard_run api ops g ≡ some g'
      → IsCounted api contract n g
      → IsCounted api contract n g'
  unfolding guard_run
  guard_run-IsCounted [] n g g' h e counted = subst (CountedIf api contract n) e counted
  guard_run-IsCounted (op ∷ ops) n g g' (h, hs) e counted =
      elim (Option-cases (guard_step api op g)) [
        | inl gone ↦ absurd (cc (rw (guard_run, gone) at e))
        | inr (g₁, made) ↦
            guard_run-IsCounted ops n g₁ g' hs (rw (guard_run, made) at e)
              (guard_step-IsKept n op h g g₁ made counted)
      ]

  -- A move of a valid guard into a free place leaves two valid guards for one reference.
  moves-overcount :
      (n this other : ℕ) (v : Counted) (g : Guards api)
      → this < n
      → g.guards this ≡ none
      → g.guards other ≡ some v
      → check v ≡ true
      → IsCounted api contract n g
      → (g' : Guards api) × (guard_step api (moves this other) g ≡ some g')
        × (valid_below api contract n g'.guards ≡ suc (references g'.state))
  unfolding guard_step
  moves-overcount n this other v g h free live valid counted = (
    record g { guards = put_guard api g.guards this (some v) },
    rw (guard_step, free, live) refl,
    ground (arith, free, valid, counted, valid_below-put api contract n g.guards this (some v) h),
  )

  -- As long as no guard is moved, along every sequence of starts, flushes and ends of guards below `n`
  -- with no undefined step, whether calls return or throw, the C library counts as many references
  -- to sessions as there are valid guards. The defaulted move constructor of a valid guard breaks
  -- this: it leaves two valid guards where the library counts a reference for one.
  pub guard_references :
      (n : ℕ) (g : Guards api)
      → IsCounted api contract n g
      → ((ops : List (GuardOp Session)) (g' : Guards api)
          → AreUnmoved n ops
          → guard_run api ops g ≡ some g'
          → IsCounted api contract n g')
        × ((this other : ℕ) (v : Counted)
            → this < n
            → g.guards this ≡ none
            → g.guards other ≡ some v
            → check v ≡ true
            → (g' : Guards api) × (guard_step api (moves this other) g ≡ some g')
              × (valid_below api contract n g'.guards ≡ suc (references g'.state)))
  guard_references n g counted = (
    (λ ops g' h e. guard_run-IsCounted ops n g g' h e counted),
    λ this other v h free live valid. moves-overcount n this other v g h free live valid counted,
  )
