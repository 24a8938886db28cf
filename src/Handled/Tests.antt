-- ===== src/Handled/Tests.antt =====
-- Subscribers and handlers that hold a resource number; the base 9 cannot be undeclared.
use zenoh_cpp.Base.{
  true, false, ℕ, ◌≡◌, refl, List, [], ◌∷◌, Option, none, some, ◌==◌, if◌then◌else◌, arith,
}
use zenoh_cpp.Result.{ZResult, z_ok, other, is_ok, returned, threw}
use zenoh_cpp.Owned.{Memory, destroys, construct, move_construct, destroy, step}
use zenoh_cpp.Owned.Numbered.{numbered, numbered-Contract, count}
use zenoh_cpp.Handled.Undeclared.{undeclared, Delivers, undeclare_handled_branches}
use zenoh_cpp.Handled.{
  undeclare_handled, Undeclare, HandledOp, makes, moves_into, undeclares, ends, on_base, on_handler,
  Parts, handled_run,
}
use zenoh_cpp.Handled.Conserved.{UndeclareContract, Same, handled_run-conserves}

abbrev undeclare : Undeclare numbered numbered
undeclare v w = ((if v == 9 then other 3 else z_ok, 0), v ∷ w)

undeclare-Contract :
    UndeclareContract numbered numbered numbered-Contract numbered-Contract undeclare
unfolding numbered-Contract
undeclare-Contract = record { undeclare_leaves = λ v w r. refl; undeclare_releases = λ v w r. refl }

-- The bases 7 and 9 stand at 0 and 1, the handlers 5 and 6 at the same addresses.
abbrev start : Parts numbered numbered
start = record {
  bases = record {
    objects = λ a. if a == 0 then some 7 else if a == 1 then some 9 else none;
    world = [];
  };
  handlers = record {
    objects = λ a. if a == 0 then some 5 else if a == 1 then some 6 else none;
    world = [];
  };
}

-- The object of 7 is moved, undeclared and destroyed; undeclaring that of 9 throws.
abbrev ops : List HandledOp
ops =
    makes 2 0 0
    ∷ makes 3 1 1
    ∷ moves_into 4 2
    ∷ undeclares 4 5 none
    ∷ undeclares 3 6 none
    ∷ ends 4
    ∷ ends 3
    ∷ on_handler (destroys 5)
    ∷ on_base (destroys 0)
    ∷ []

-- How often 7 and 9, and 5 and 6, were released.
abbrev releases : Option (Parts numbered numbered) → List ℕ
releases none = []
releases (some p) =
    count p.bases.world 7
    ∷ count p.bases.world 9
    ∷ count p.handlers.world 5
    ∷ count p.handlers.world 6
    ∷ []

released_once : releases (handled_run numbered numbered undeclare ops start) ≡ 1 ∷ 1 ∷ 1 ∷ 1 ∷ []
unfolding handled_run construct move_construct destroy step
released_once = refl

abbrev from_some : {A : Type 0} → A → Option A → A
from_some a none = a
from_some a (some b) = b

unfoldable after : Parts numbered numbered
unfolding handled_run construct move_construct destroy step
after = from_some start (handled_run numbered numbered undeclare ops start)

handled_run-conserves_example :
    Same numbered numbered numbered-Contract numbered-Contract undeclare 7 start after
unfolding after handled_run construct move_construct destroy step
handled_run-conserves_example =
    handled_run-conserves numbered numbered numbered-Contract numbered-Contract undeclare 7
      undeclare-Contract ops start after (omega arith) refl

-- The base 9 cannot be undeclared: undeclare throws, or writes the code and returns the handler 6.
abbrev joined : Parts numbered numbered
joined = record {
  bases = record { objects = λ a. if a == 3 then some 9 else none; world = [] };
  handlers = record { objects = λ a. if a == 3 then some 6 else none; world = [] };
}

undeclare_handled_branches_example :
    let bs = undeclared numbered numbered numbered-Contract undeclare 3 9 joined.bases in
    (is_ok (other 3) ≡ false
      → undeclare_handled numbered numbered undeclare 3 4 none joined
        ≡ some (threw (other 3) (record joined { bases = bs })))
    × ((hs : Memory numbered) × Delivers numbered numbered numbered-Contract undeclare 3 4 6
          joined.handlers hs
        × (is_ok (other 3) ≡ true
            → undeclare_handled numbered numbered undeclare 3 4 none joined
              ≡ some (returned tt none (record { bases = bs; handlers = hs })))
        × ((e : ZResult)
            → undeclare_handled numbered numbered undeclare 3 4 (some e) joined
              ≡ some (returned tt (some (other 3)) (record { bases = bs; handlers = hs }))))
undeclare_handled_branches_example =
    undeclare_handled_branches numbered numbered numbered-Contract undeclare 3 4 joined 9 6 refl
      refl refl
