-- ===== src/Owned/Moves.antt =====
-- Conservation: whatever is constructed, moved and destroyed, no resource is lost and none is released
-- twice.
use zenoh_cpp.Base.{
  ℕ, zero, suc, ◌+◌, ◌<◌, ◌≤◌, ◌≡◌, ◌≢◌, refl, ◌∙◌, List, [], ◌∷◌, Option, none, some, arith, ◌==◌,
  Bool-cases, Option-cases, inl, inr,
}
use zenoh_cpp.Owned.{
  OwnedType, Contract, Memory, set, moved, construct, move_assign, move_construct, destroy,
  move_to_c_obj, Op, constructs, move_constructs, move_assigns, moves_to_c, destroys, step, run,
}

module _ (c : OwnedType) (contract : Contract c) where
  open c use {Inner, null, check, z_drop, z_take, z_take_from_loaned, is_take_from_loaned_available}
  open contract use {holds, released}

  abbrev pub holds_at : Option Inner → ℕ → ℕ
  holds_at none r = 0
  holds_at (some v) r = holds v r

  -- How often the objects below `n` hold `r`.
  abbrev pub held : ℕ → (ℕ → Option Inner) → ℕ → ℕ
  held zero f r = 0
  held (suc n) f r = holds_at (f n) r + held n f r

  held-set_above :
      (n : ℕ) (f : ℕ → Option Inner) (a : ℕ) (x : Option Inner) (r : ℕ)
      → n ≤ a
      → held n (set c f a x) r ≡ held n f r
  held-set_above zero f a x r h = refl
  held-set_above (suc n) f a x r h = ground (arith, held-set_above n f a x r (ground arith))

  pub held-set :
      (n : ℕ) (f : ℕ → Option Inner) (a : ℕ) (x : Option Inner) (r : ℕ)
      → a < n
      → held n (set c f a x) r + holds_at (f a) r ≡ held n f r + holds_at x r
  held-set zero f a x r h = absurd (omega arith)
  held-set (suc n) f a x r h = elim (Bool-cases (a == n)) [
    | inl e ↦ ground (arith, held-set_above n f a x r)
    | inr e ↦ ground (arith, held-set n f a x r)
  ]

  held-set_two :
      (n : ℕ) (f : ℕ → Option Inner) (a b : ℕ) (x y : Option Inner) (r : ℕ)
      → a < n
      → b < n
      → a ≢ b
      → held n (set c (set c f a x) b y) r + holds_at (f a) r + holds_at (f b) r
        ≡ held n f r + holds_at x r + holds_at y r
  held-set_two n f a b x y r ha hb ne =
      ground (arith, held-set n f a x r ha, held-set n (set c f a x) b y r hb)

  pub moved-holds :
      (v : Inner) (r : ℕ) → (holds (moved c v).0 r ≡ holds v r) × (holds (moved c v).1 r ≡ 0)
  unfolding moved
  moved-holds v r = ground (
    arith,
    contract.null_holds r,
    contract.unchecked_holds v r,
    contract.take_moves v r,
    contract.take_leaves v r,
    contract.take_from_loaned_moves v r,
    contract.take_from_loaned_leaves v r,
  )

  -- How often `r` is held or was released.
  abbrev pub total : ℕ → Memory c → ℕ → ℕ
  total n m r = held n m.objects r + released m.world r

  abbrev pub Conserves : (Memory c → Option (Memory c)) → ℕ → Type 0
  Conserves f n = (m m' : Memory c) (r : ℕ) → f m ≡ some m' → total n m' r ≡ total n m r

  -- An access to memory with no live object is undefined.
  destroy-total : (this n : ℕ) → this < n → Conserves (destroy c this) n
  unfolding destroy
  destroy-total this n h m m' r e = elim (Option-cases (m.objects this)) [
    | inl gone ↦ absurd (cc (rw (destroy, gone) at e))
    | inr (x, live) ↦
        ground (arith, held-set n m.objects this none r h, contract.drop_releases x m.world r)
  ]

  construct-total :
      (this : ℕ) (pv : Option ℕ) (n : ℕ)
      → this < n
      → ((p : ℕ) → pv ≡ some p → p < n)
      → Conserves (construct c this pv) n
  unfolding construct
  construct-total this none n h hp m m' r e = elim (Option-cases (m.objects this)) [
    | inl free ↦ ground (arith, held-set n m.objects this (some null) r h, contract.null_holds r)
    | inr (x, live) ↦ absurd (cc (rw (construct, live) at e))
  ]
  construct-total this (some p) n h hp m m' r e = elim (Option-cases (m.objects this)) [
    | inr (x, live) ↦ absurd (cc (rw (construct, live) at e))
    | inl free ↦ elim (Option-cases (m.objects p)) [
      | inl gone ↦ absurd (cc (rw (construct, free, gone) at e))
      | inr (v, live) ↦ ground (
        arith,
        held-set_two n m.objects this p (some (z_take v).0) (some (z_take v).1) r h (hp p refl)
            (λ same. cc),
        contract.take_moves v r,
        contract.take_leaves v r,
      )
    ]
  ]

  move_assign-total : (this v n : ℕ) → this < n → v < n → Conserves (move_assign c this v) n
  unfolding move_assign
  move_assign-total this v n h hv m m' r e = elim (Option-cases (m.objects this)) [
    | inl gone ↦ absurd (cc (rw (move_assign, gone) at e))
    | inr (x, live) ↦ elim (Option-cases (m.objects v)) [
      | inl gone ↦ absurd (cc (rw (move_assign, live, gone) at e))
      | inr (y, live') ↦ elim (Bool-cases (this == v)) [
        | inl same ↦ ground arith
        | inr other ↦ ground (
          arith,
          held-set_two n m.objects this v (some (moved c y).0) (some (moved c y).1) r h hv
              (λ same. ground arith),
          (moved-holds y r).0,
          (moved-holds y r).1,
          contract.drop_releases x m.world r,
        )
      ]
    ]
  ]

  move_construct-total : (this v n : ℕ) → this < n → v < n → Conserves (move_construct c this v) n
  unfolding move_construct
  move_construct-total this v n h hv m m' r e = elim (Option-cases (construct c this none m)) [
    | inl gone ↦ absurd (cc (rw (move_construct, gone) at e))
    | inr (m₁, made) ↦
        move_assign-total this v n h hv m₁ m' r (rw (move_construct, made) at e)
        ∙ construct-total this none n h (λ p h'. absurd (cc)) m m₁ r made
  ]

  move_to_c_obj-total : (o v n : ℕ) → o < n → v < n → Conserves (move_to_c_obj c o v) n
  unfolding move_to_c_obj
  move_to_c_obj-total o v n h hv m m' r e = elim (Option-cases (m.objects o)) [
    | inr (x, live) ↦ absurd (cc (rw (move_to_c_obj, live) at e))
    | inl free ↦ elim (Option-cases (m.objects v)) [
      | inl gone ↦ absurd (cc (rw (move_to_c_obj, free, gone) at e))
      | inr (y, live) ↦ ground (
        arith,
        held-set_two n m.objects o v (some y) (some null) r h hv (λ same. cc),
        contract.null_holds r,
      )
    ]
  ]

  -- The addresses of an operation are below `n`.
  abbrev pub IsBelow : ℕ → Op → Type 0
  IsBelow n (constructs this pv) = (this < n) × ((p : ℕ) → pv ≡ some p → p < n)
  IsBelow n (move_constructs this v) = (this < n) × (v < n)
  IsBelow n (move_assigns this v) = (this < n) × (v < n)
  IsBelow n (moves_to_c o v) = (o < n) × (v < n)
  IsBelow n (destroys this) = this < n

  abbrev pub AreBelow : ℕ → List Op → Type 0
  AreBelow n [] = Unit {0}
  AreBelow n (op ∷ ops) = IsBelow n op × AreBelow n ops

  pub step-total : (op : Op) (n : ℕ) → IsBelow n op → Conserves (step c op) n
  unfolding step
  step-total (constructs this pv) n (h, hp) = construct-total this pv n h hp
  step-total (move_constructs this v) n (h, hv) = move_construct-total this v n h hv
  step-total (move_assigns this v) n (h, hv) = move_assign-total this v n h hv
  step-total (moves_to_c o v) n (h, hv) = move_to_c_obj-total o v n h hv
  step-total (destroys this) n h = destroy-total this n h

  -- Along every sequence of constructions, moves and destructions of objects below `n` with no
  -- undefined step, the number of times that a resource is held by an object or was released stays
  -- the same: under the contract of the C functions, nothing leaks and nothing is released twice.
  pub run-conserves :
      (ops : List Op) (n : ℕ) (m m' : Memory c) (r : ℕ)
      → AreBelow n ops
      → run c ops m ≡ some m'
      → held n m'.objects r + released m'.world r ≡ held n m.objects r + released m.world r
  unfolding run
  run-conserves [] n m m' r below e = ground arith
  run-conserves (op ∷ ops) n m m' r (h, below) e = elim (Option-cases (step c op m)) [
    | inl gone ↦ absurd (cc (rw (run, gone) at e))
    | inr (m₁, made) ↦
        run-conserves ops n m₁ m' r below (rw (run, made) at e) ∙ step-total op n h m m₁ r made
  ]

  -- A move assignment between two live objects that are not the same releases what the target held,
  -- gives it what the source held, leaves the source with nothing, and touches no other object.
  pub move_assign_lem :
      (this v : ℕ) (m : Memory c) (x y : Inner)
      → m.objects this ≡ some x
      → m.objects v ≡ some y
      → this ≢ v
      → (m' : Memory c) × (move_assign c this v m ≡ some m')
        × ((r : ℕ) → holds_at (m'.objects this) r ≡ holds y r)
        × ((r : ℕ) → holds_at (m'.objects v) r ≡ 0)
        × ((r : ℕ) → released m'.world r ≡ holds x r + released m.world r)
        × ((a : ℕ) → a ≢ this → a ≢ v → m'.objects a ≡ m.objects a)
  unfolding move_assign
  move_assign_lem this v m x y ex ey ne = (
    record {
      objects = set c (set c m.objects this (some (moved c y).0)) v (some (moved c y).1);
      world = (z_drop x m.world).1;
    },
    ground arith,
    (λ r. ground (arith, (moved-holds y r).0)),
    (λ r. ground (arith, (moved-holds y r).1)),
    (λ r. contract.drop_releases x m.world r),
    λ a na nv. ground arith,
  )
