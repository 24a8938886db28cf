-- ===== src/Owned/Ledger.antt =====
-- Owned objects whose C values are a resource number, 0 for none, and a library that keeps a list of
-- what it released and one of what it gave out.
use zenoh_cpp.Base.{ℕ, refl, List, ◌∷◌, true, not, ◌==◌}
use zenoh_cpp.Owned.{OwnedType, Contract}
use zenoh_cpp.Owned.Given.{GivenContract}
use zenoh_cpp.Owned.Numbered.{is_one_of, count, unchecked}

-- What was released, and what was given out.
abbrev pub Ledger : Type 0
Ledger = List ℕ × List ℕ

abbrev pub ledgered : OwnedType
ledgered = record {
  Inner = ℕ;
  World = Ledger;
  null = 0;
  check = λ v. not (v == 0);
  z_drop = λ v w. (0, (v ∷ w.0, w.1));
  z_take = λ v. (v, 0);
  is_take_from_loaned_available = true;
  z_take_from_loaned = λ v. (v, 0);
}

unfoldable pub ledgered-Contract : Contract ledgered
ledgered-Contract = record {
  holds = is_one_of;
  released = λ w. count w.0;
  null_holds = λ r. refl;
  unchecked_holds = unchecked;
  drop_leaves = λ v w r. refl;
  drop_releases = λ v w r. refl;
  take_moves = λ v r. refl;
  take_leaves = λ v r. refl;
  take_from_loaned_moves = λ v r h. refl;
  take_from_loaned_leaves = λ v r h. refl;
}

unfoldable pub ledgered-Given : GivenContract ledgered ledgered-Contract
unfolding ledgered-Contract
ledgered-Given = record { given = λ w. count w.1; drop_gives = λ v w r. refl }
