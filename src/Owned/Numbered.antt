-- ===== src/Owned/Numbered.antt =====
-- Owned objects whose C values are a resource number, 0 for none, and a library that keeps a list of
-- what it released.
use zenoh_cpp.Base.{
  ℕ, zero, suc, ◌+◌, ◌≡◌, refl, List, [], ◌∷◌, true, false, not, ◌==◌, if◌then◌else◌, arith,
}
use zenoh_cpp.Owned.{OwnedType, Contract}

abbrev pub is_one_of : ℕ → ℕ → ℕ
is_one_of zero r = 0
is_one_of (suc v) r = if suc v == r then 1 else 0

abbrev pub count : List ℕ → ℕ → ℕ
count [] r = 0
count (v ∷ vs) r = is_one_of v r + count vs r

abbrev pub numbered : OwnedType
numbered = record {
  Inner = ℕ;
  World = List ℕ;
  null = 0;
  check = λ v. not (v == 0);
  z_drop = λ v w. (0, v ∷ w);
  z_take = λ v. (v, 0);
  is_take_from_loaned_available = true;
  z_take_from_loaned = λ v. (v, 0);
}

pub unchecked : (v r : ℕ) → not (v == 0) ≡ false → is_one_of v r ≡ 0
unchecked v r h = ground arith

unfoldable pub numbered-Contract : Contract numbered
numbered-Contract = record {
  holds = is_one_of;
  released = count;
  null_holds = λ r. refl;
  unchecked_holds = unchecked;
  drop_leaves = λ v w r. refl;
  drop_releases = λ v w r. refl;
  take_moves = λ v r. refl;
  take_leaves = λ v r. refl;
  take_from_loaned_moves = λ v r h. refl;
  take_from_loaned_leaves = λ v r h. refl;
}
