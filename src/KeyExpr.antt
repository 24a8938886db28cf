-- ===== src/KeyExpr.antt =====
-- include/zenoh/api/keyexpr.hxx: the constructors of KeyExpr, its copies and assignments, concat and
-- join, on the objects of an owned C type.
pub mod Balance
pub mod Handles
mod Tests
use zenoh_cpp.Base.{ℕ, List, [], ◌∷◌, Bool, Option, none, some, ◌==◌, if◌then◌else◌, Text}
use zenoh_cpp.Result.{ZResult, Run, returned, threw, result_check}
use zenoh_cpp.Owned.{OwnedType, Memory, Op, set, step}
use zenoh_cpp.Owned.Copies.{clone_into, clone_onto}
use zenoh_cpp.Owned.Emplace.{emplace, left_by}

-- The C functions. One with a result code leaves a value in its output parameter in any case.
pub record KeyExprApi (c : OwnedType) : Type 0 where
  pub z_keyexpr_from_substr_autocanonize : Text → c.World → (ZResult × c.Inner) × c.World
  pub z_keyexpr_from_substr : Text → c.World → (ZResult × c.Inner) × c.World
  pub z_keyexpr_clone : c.Inner → c.World → c.Inner × c.World
  pub z_keyexpr_concat : c.Inner → Text → c.World → (ZResult × c.Inner) × c.World
  pub z_keyexpr_join : c.Inner → c.Inner → c.World → (ZResult × c.Inner) × c.World

-- One operation, on addresses, and its `err`; a move or a destruction is one of Owned.
pub data KeyExprOp : Type 0 where
  from_string : (this : ℕ) → Text → (autocanonize : Bool) → Option ZResult → KeyExprOp
  copies assigns : (this other : ℕ) → KeyExprOp
  concats : (result this : ℕ) → Text → Option ZResult → KeyExprOp
  joins : (result this other : ℕ) → Option ZResult → KeyExprOp
  owned : Op → KeyExprOp

module _ (c : OwnedType) (api : KeyExprApi c) where
  open c use {Inner, World, null, z_drop}
  open api use {
    z_keyexpr_from_substr_autocanonize, z_keyexpr_from_substr, z_keyexpr_clone, z_keyexpr_concat,
    z_keyexpr_join,
  }

  -- KeyExpr(std::string_view, bool, ZResult*). Memory that has an object is no place for another, and
  -- memory without one has nothing to read: `none`.
  unfoldable pub construct_from_string :
      ℕ → Text → Bool → Option ZResult → Memory c → Option (Run (Memory c) (Unit {0}))
  unfolding emplace
  construct_from_string this text autocanonize err m = elim (m.objects this) [
    | some x ↦ none
    | none ↦
        let answer =
          if autocanonize
          then z_keyexpr_from_substr_autocanonize text m.world
          else z_keyexpr_from_substr text m.world in
        some (emplace c this answer err m)
  ]

  -- KeyExpr(const KeyExpr&)
  unfoldable pub copy_construct : ℕ → ℕ → Memory c → Option (Memory c)
  copy_construct this other m = clone_into c z_keyexpr_clone this other m

  -- operator=(const KeyExpr&)
  unfoldable pub copy_assign : ℕ → ℕ → Memory c → Option (Memory c)
  copy_assign this other m = clone_onto c z_keyexpr_clone this other m

  -- KeyExpr::concat; `result` is where the returned object stands.
  unfoldable pub concat :
      (result this : ℕ) → Text → Option ZResult → Memory c → Option (Run (Memory c) (Unit {0}))
  unfolding emplace
  concat result this s err m = elim (m.objects result) [
    | some x ↦ none
    | none ↦ elim (m.objects this) [
      | none ↦ none
      | some y ↦ some (emplace c result (z_keyexpr_concat y s m.world) err m)
    ]
  ]

  -- KeyExpr::join
  unfoldable pub join :
      (result this other : ℕ) → Option ZResult → Memory c → Option (Run (Memory c) (Unit {0}))
  unfolding emplace
  join result this other err m = elim (m.objects result) [
    | some x ↦ none
    | none ↦ elim (m.objects this) [
      | none ↦ none
      | some y ↦ elim (m.objects other) [
        | none ↦ none
        | some z ↦ some (emplace c result (z_keyexpr_join y z m.world) err m)
      ]
    ]
  ]

  unfoldable pub keyexpr_step : KeyExprOp → Memory c → Option (Memory c)
  unfolding construct_from_string copy_construct copy_assign concat join left_by step
  keyexpr_step (from_string this t canon err) m = left_by (construct_from_string this t canon err m)
  keyexpr_step (copies this other) m = copy_construct this other m
  keyexpr_step (assigns this other) m = copy_assign this other m
  keyexpr_step (concats result this t err) m = left_by (concat result this t err m)
  keyexpr_step (joins result this other err) m = left_by (join result this other err m)
  keyexpr_step (owned op) m = step c op m

  unfoldable pub keyexpr_run : List KeyExprOp → Memory c → Option (Memory c)
  unfolding keyexpr_step
  keyexpr_run [] m = some m
  keyexpr_run (op ∷ ops) m = elim (keyexpr_step op m) [ none ↦ none | some m' ↦ keyexpr_run ops m' ]
