-- ===== src/Owned.antt =====
-- include/zenoh/api/base.hxx, class Owned, and move_to_c_obj of interop.hxx: C++ objects that own a C
-- value, their construction, move and destruction.
pub mod Moves
pub mod Worlds
pub mod Numbered
pub mod Given
pub mod Copies
pub mod Copied
pub mod Emplace
pub mod Ledger
pub mod Cloneable
mod Tests
use zenoh_cpp.Base.{
  ℕ, ◌+◌, ◌≡◌, List, [], ◌∷◌, Bool, true, false, Option, none, some, ◌==◌, if◌then◌else◌,
}

-- The C functions for one owned type: z_internal_null, z_internal_check, z_drop with what it leaves
-- behind, and z_take and z_take_from_loaned with what the destination and the source then hold. `World`
-- is the state of the C library.
pub record OwnedType : Type 1 where
  pub Inner : Type 0
  pub World : Type 0
  pub null : Inner
  pub check : Inner → Bool
  pub z_drop : Inner → World → Inner × World
  pub z_take : Inner → Inner × Inner
  pub is_take_from_loaned_available : Bool
  pub z_take_from_loaned : Inner → Inner × Inner

-- What the documentation of these functions promises: how often a value holds a resource, how often
-- the library has released it, and that nothing else changes these counts.
pub record Contract (c : OwnedType) : Type 0 where
  pub holds : c.Inner → ℕ → ℕ
  pub released : c.World → ℕ → ℕ
  pub null_holds : (r : ℕ) → holds c.null r ≡ 0
  pub unchecked_holds : (v : c.Inner) (r : ℕ) → c.check v ≡ false → holds v r ≡ 0
  pub drop_leaves : (v : c.Inner) (w : c.World) (r : ℕ) → holds (c.z_drop v w).0 r ≡ 0
  pub drop_releases :
      (v : c.Inner) (w : c.World) (r : ℕ) → released (c.z_drop v w).1 r ≡ holds v r + released w r
  pub take_moves : (v : c.Inner) (r : ℕ) → holds (c.z_take v).0 r ≡ holds v r
  pub take_leaves : (v : c.Inner) (r : ℕ) → holds (c.z_take v).1 r ≡ 0
  pub take_from_loaned_moves :
      (v : c.Inner) (r : ℕ) → c.check v ≡ true → holds (c.z_take_from_loaned v).0 r ≡ holds v r
  pub take_from_loaned_leaves :
      (v : c.Inner) (r : ℕ) → c.check v ≡ true → holds (c.z_take_from_loaned v).1 r ≡ 0

-- One operation, on addresses.
pub data Op : Type 0 where
  constructs : ℕ → Option ℕ → Op
  move_constructs move_assigns moves_to_c : ℕ → ℕ → Op
  destroys : ℕ → Op

module _ (c : OwnedType) where
  open c use {
    Inner, World, null, check, z_drop, z_take, is_take_from_loaned_available, z_take_from_loaned,
  }

  -- The C++ objects and C structs that are alive, by address.
  pub record Memory : Type 0 where
    pub objects : ℕ → Option Inner
    pub world : World

  abbrev pub set : (ℕ → Option Inner) → ℕ → Option Inner → ℕ → Option Inner
  set f a x b = if a == b then x else f b

  -- What the destination and the source of a move assignment then hold.
  unfoldable pub moved : Inner → Inner × Inner
  moved v =
      if is_take_from_loaned_available
      then (if check v then z_take_from_loaned v else (null, v))
      else z_take v

  -- Owned(OwnedType* pv). An operation on memory with no live object, or a constructor on memory with
  -- one, is `none`.
  unfoldable pub construct : ℕ → Option ℕ → Memory → Option Memory
  construct this pv m = elim (m.objects this) [
    | some x ↦ none
    | none ↦ elim pv [
      | none ↦ some (record m { objects = set m.objects this (some null) })
      | some p ↦ elim (m.objects p) [
        | none ↦ none
        | some v ↦ some (record m {
          objects = set (set m.objects this (some (z_take v).0)) p (some (z_take v).1);
        })
      ]
    ]
  ]

  -- operator=(Owned&& v)
  unfoldable pub move_assign : ℕ → ℕ → Memory → Option Memory
  unfolding moved
  move_assign this v m = elim (m.objects this) [
    | none ↦ none
    | some x ↦ elim (m.objects v) [
      | none ↦ none
      | some y ↦
          if this == v
          then some m
          else some (record m {
            objects = set (set m.objects this (some (moved y).0)) v (some (moved y).1);
            world = (z_drop x m.world).1;
          })
    ]
  ]

  -- Owned(Owned&& v)
  unfoldable pub move_construct : ℕ → ℕ → Memory → Option Memory
  unfolding construct move_assign
  move_construct this v m = elim (construct this none m) [
    | none ↦ none
    | some m' ↦ move_assign this v m'
  ]

  -- ~Owned()
  unfoldable pub destroy : ℕ → Memory → Option Memory
  destroy this m = elim (m.objects this) [
    | none ↦ none
    | some x ↦ some (record m { objects = set m.objects this none; world = (z_drop x m.world).1 })
  ]

  -- interop::move_to_c_obj, into the C struct `o`: a copy of the bytes, and then z_internal_null.
  unfoldable pub move_to_c_obj : ℕ → ℕ → Memory → Option Memory
  move_to_c_obj o v m = elim (m.objects o) [
    | some x ↦ none
    | none ↦ elim (m.objects v) [
      | none ↦ none
      | some y ↦ some (record m { objects = set (set m.objects o (some y)) v (some null) })
    ]
  ]

  unfoldable pub step : Op → Memory → Option Memory
  unfolding construct move_construct move_assign destroy move_to_c_obj
  step (constructs this pv) = construct this pv
  step (move_constructs this v) = move_construct this v
  step (move_assigns this v) = move_assign this v
  step (moves_to_c o v) = move_to_c_obj o v
  step (destroys this) = destroy this

  unfoldable pub run : List Op → Memory → Option Memory
  unfolding step
  run [] m = some m
  run (op ∷ ops) m = elim (step op m) [ none ↦ none | some m' ↦ run ops m' ]
