-- ===== src/Owned/Worlds.antt =====
-- What the operations do to the state of the C library: they only drop values.
use zenoh_cpp.Base.{
  ℕ, ◌≡◌, refl, Option, none, some, subst, ◌==◌, Bool-cases, Option-cases, inl, inr,
}
use zenoh_cpp.Owned.{
  OwnedType, Memory, Op, constructs, move_constructs, move_assigns, moves_to_c, destroys, step,
  construct, move_construct, move_assign, move_to_c_obj, destroy,
}

-- A view of the library's state that no drop changes.
module _ (c : OwnedType) {A : Type 0} (view : c.World → A)
    (kept : (v : c.Inner) (w : c.World) → view (c.z_drop v w).1 ≡ view w) where
  abbrev SameView : Memory c → Option (Memory c) → Type 0
  SameView m none = Unit {0}
  SameView m (some m') = view m'.world ≡ view m.world

  destroy-SameView : (this : ℕ) (m : Memory c) → SameView m (destroy c this m)
  unfolding destroy
  destroy-SameView this m = elim (Option-cases (m.objects this)) [
    | inl gone ↦ rw (destroy, gone) tt
    | inr (x, live) ↦ rw (destroy, live) (kept x m.world)
  ]

  construct-SameView :
      (this : ℕ) (pv : Option ℕ) (m : Memory c) → SameView m (construct c this pv m)
  unfolding construct
  construct-SameView this pv m = elim (Option-cases (m.objects this)) [
    | inr (x, live) ↦ rw (construct, live) tt
    | inl free ↦ go pv free
  ]
    where
      go : (pv' : Option ℕ) → m.objects this ≡ none → SameView m (construct c this pv' m)
      go none free = rw (construct, free) refl
      go (some p) free = elim (Option-cases (m.objects p)) [
        | inl gone ↦ rw (construct, free, gone) tt
        | inr (v, live) ↦ rw (construct, free, live) refl
      ]

  move_assign-SameView : (this v : ℕ) (m : Memory c) → SameView m (move_assign c this v m)
  unfolding move_assign
  move_assign-SameView this v m = elim (Option-cases (m.objects this)) [
    | inl gone ↦ rw (move_assign, gone) tt
    | inr (x, live) ↦ elim (Option-cases (m.objects v)) [
      | inl gone ↦ rw (move_assign, live, gone) tt
      | inr (y, live') ↦ elim (Bool-cases (this == v)) [
        | inl same ↦ rw (move_assign, live, live', same) refl
        | inr differ ↦ rw (move_assign, live, live', differ) (kept x m.world)
      ]
    ]
  ]

  move_construct-SameView : (this v : ℕ) (m : Memory c) → SameView m (move_construct c this v m)
  unfolding move_construct
  move_construct-SameView this v m = elim (Option-cases (construct c this none m)) [
    | inl gone ↦ rw (move_construct, gone) tt
    | inr (m₁, made) ↦
        rw (move_construct, made)
          (subst (λ w. Step w (move_assign c this v m₁))
            (subst (SameView m) made (construct-SameView this none m))
            (move_assign-SameView this v m₁))
  ]
    where
      Step : A → Option (Memory c) → Type 0
      Step w none = Unit {0}
      Step w (some m') = view m'.world ≡ w

  move_to_c_obj-SameView : (o v : ℕ) (m : Memory c) → SameView m (move_to_c_obj c o v m)
  unfolding move_to_c_obj
  move_to_c_obj-SameView o v m = elim (Option-cases (m.objects o)) [
    | inr (x, live) ↦ rw (move_to_c_obj, live) tt
    | inl free ↦ elim (Option-cases (m.objects v)) [
      | inl gone ↦ rw (move_to_c_obj, free, gone) tt
      | inr (y, live) ↦ rw (move_to_c_obj, free, live) refl
    ]
  ]

  -- No operation changes such a view.
  pub step-view : (op : Op) (m m' : Memory c) → step c op m ≡ some m' → view m'.world ≡ view m.world
  unfolding step
  step-view (constructs this pv) m m' e = subst (SameView m) e (construct-SameView this pv m)
  step-view (move_constructs this v) m m' e =
      subst (SameView m) e (move_construct-SameView this v m)
  step-view (move_assigns this v) m m' e = subst (SameView m) e (move_assign-SameView this v m)
  step-view (moves_to_c o v) m m' e = subst (SameView m) e (move_to_c_obj-SameView o v m)
  step-view (destroys this) m m' e = subst (SameView m) e (destroy-SameView this m)
