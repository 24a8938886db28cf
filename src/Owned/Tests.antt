-- ===== src/Owned/Tests.antt =====
-- A history of numbered objects.
use zenoh_cpp.Base.{◌+◌, ◌≡◌, refl, List, [], ◌∷◌, Option, none, some, ◌==◌, if◌then◌else◌, arith}
use zenoh_cpp.Owned.{
  Memory, Op, move_constructs, move_assigns, destroys, moves_to_c, run, step, construct,
  move_construct, move_assign, destroy, moved, move_to_c_obj,
}
use zenoh_cpp.Owned.Numbered.{count, numbered, numbered-Contract}
use zenoh_cpp.Owned.Moves.{held, run-conserves, AreBelow}

-- Two objects, and a free place.
abbrev start : Memory numbered
start = record {
  objects = λ a. if a == 0 then some 7 else if a == 1 then some 8 else none;
  world = [];
}

abbrev ops : List Op
ops =
    move_constructs 2 0
    ∷ move_assigns 2 1
    ∷ move_assigns 1 1
    ∷ moves_to_c 3 2
    ∷ destroys 0
    ∷ destroys 1
    ∷ []

abbrev from_some : {A : Type 0} → A → Option A → A
from_some a none = a
from_some a (some b) = b

unfoldable after : Memory numbered
unfolding run step construct move_construct move_assign destroy moved move_to_c_obj
after = from_some start (run numbered ops start)

-- What is left is the C struct with 8; the library has released 7 once.
after_world : after.world ≡ 0 ∷ 0 ∷ 7 ∷ 0 ∷ []
unfolding after
after_world = refl

ops-AreBelow : AreBelow numbered numbered-Contract 4 ops
ops-AreBelow = (
  (omega arith, omega arith),
  (
    (omega arith, omega arith),
    ((omega arith, omega arith), ((omega arith, omega arith), (omega arith, (omega arith, tt)))),
  ),
)

-- A use of an object after its destruction is undefined.
use_after_destroy : run numbered (destroys 0 ∷ move_assigns 1 0 ∷ []) start ≡ none
unfolding run step move_assign destroy
use_after_destroy = refl

run-conserves_example :
    held numbered numbered-Contract 4 after.objects 7 + count after.world 7
    ≡ held numbered numbered-Contract 4 start.objects 7 + 0
unfolding after run step construct move_construct move_assign destroy moved move_to_c_obj
    numbered-Contract
run-conserves_example =
    run-conserves numbered numbered-Contract ops 4 start after 7 ops-AreBelow refl
