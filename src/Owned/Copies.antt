-- ===== src/Owned/Copies.antt =====
-- The copy constructors and copy assignments of KeyExpr, Encoding, Hello, Link, Transport and
-- CancellationToken, which have one body each over the function that clones their C value.
use zenoh_cpp.Base.{ℕ, List, [], ◌∷◌, Option, none, some, ◌==◌, if◌then◌else◌}
use zenoh_cpp.Owned.{OwnedType, Memory, Op, set, step}

-- One operation, on addresses; a move or a destruction is one of Owned.
pub data CopyOp : Type 0 where
  copies assigns : (this other : ℕ) → CopyOp
  owned : Op → CopyOp

module _ (c : OwnedType) where
  open c use {Inner, World, z_drop}

  abbrev pub Clone : Type 0
  Clone = Inner → World → Inner × World

  module _ (clone : Clone) where
    -- T(const T& other) : Owned(nullptr). Memory that has an object is no place for another, and memory
    -- without one has nothing to read: `none`.
    unfoldable pub clone_into : (this other : ℕ) → Memory c → Option (Memory c)
    clone_into this other m = elim (m.objects this) [
      | some x ↦ none
      | none ↦ elim (m.objects other) [
        | none ↦ none
        | some y ↦ some (record m {
          objects = set c m.objects this (some (clone y m.world).0);
          world = (clone y m.world).1;
        })
      ]
    ]

    -- operator=(const T& other)
    unfoldable pub clone_onto : (this other : ℕ) → Memory c → Option (Memory c)
    clone_onto this other m = elim (m.objects this) [
      | none ↦ none
      | some x ↦ elim (m.objects other) [
        | none ↦ none
        | some y ↦
            if this == other
            then some m
            else (let w = (z_drop x m.world).1 in
                some (record m {
                  objects = set c m.objects this (some (clone y w).0);
                  world = (clone y w).1;
                }))
      ]
    ]

    unfoldable pub copy_step : CopyOp → Memory c → Option (Memory c)
    unfolding clone_into clone_onto step
    copy_step (copies this other) m = clone_into this other m
    copy_step (assigns this other) m = clone_onto this other m
    copy_step (owned op) m = step c op m

    unfoldable pub copy_run : List CopyOp → Memory c → Option (Memory c)
    unfolding copy_step
    copy_run [] m = some m
    copy_run (op ∷ ops) m = elim (copy_step op m) [ none ↦ none | some m' ↦ copy_run ops m' ]
