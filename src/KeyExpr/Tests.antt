-- ===== src/KeyExpr/Tests.antt =====
-- Key expressions that are resource numbers, and a library that refuses the empty text.
use zenoh_cpp.Base.{
  ℕ, suc, ◌+◌, ◌≡◌, refl, List, [], ◌∷◌, true, false, Option, none, some, length, arith, Text,
  codes,
}
use zenoh_cpp.Result.{ZResult, z_ok, other}
use zenoh_cpp.Owned.{Memory, destroys}
use zenoh_cpp.Owned.Numbered.{is_one_of, count}
use zenoh_cpp.Owned.Ledger.{Ledger, ledgered, ledgered-Contract, ledgered-Given}
use zenoh_cpp.KeyExpr.{
  KeyExprApi, KeyExprOp, copy_construct, copy_assign, from_string, assigns, joins, owned,
  keyexpr_run,
}
use zenoh_cpp.KeyExpr.Balance.{KeyExprContract}
use zenoh_cpp.Owned.Given.{IsBalanced}
use zenoh_cpp.Owned.Copies.{clone_onto}
use zenoh_cpp.KeyExpr.Handles.{AreInRange, keyexpr_run-IsBalanced}

abbrev gives_number : ℕ → Ledger → ℕ × Ledger
gives_number v w = (v, (w.0, v ∷ w.1))

-- A number for a text: its length.
abbrev of_text : Text → Ledger → (ZResult × ℕ) × Ledger
of_text [] w = ((other 1, 0), w)
of_text (b ∷ bs) w = ((z_ok, suc (length bs)), (w.0, suc (length bs) ∷ w.1))

abbrev key_api : KeyExprApi ledgered
key_api = record {
  z_keyexpr_from_substr_autocanonize = of_text;
  z_keyexpr_from_substr = of_text;
  z_keyexpr_clone = gives_number;
  z_keyexpr_concat = λ x t w. of_text t w;
  z_keyexpr_join = λ x y w. let (v, w') = gives_number (x + y) w in ((z_ok, v), w');
}

of_text_gives :
    (t : Text) (w : Ledger) (r : ℕ)
    → (count (of_text t w).1.1 r ≡ is_one_of (of_text t w).0.1 r + count w.1 r)
      × (count (of_text t w).1.0 r ≡ count w.0 r)
of_text_gives [] w r = (ground arith, refl)
of_text_gives (b ∷ bs) w r = (refl, refl)

unfoldable key_api-Contract : KeyExprContract ledgered ledgered-Contract ledgered-Given key_api
unfolding ledgered-Contract ledgered-Given
key_api-Contract = record {
  autocanonize_gives = of_text_gives;
  substr_gives = of_text_gives;
  clone_gives = λ x w r. (refl, refl);
  concat_gives = λ x t w r. of_text_gives t w r;
  join_gives = λ x y w r. (refl, refl);
}

abbrev empty : Memory ledgered
empty = record { objects = λ a. none; world = ([], []) }

-- A construction that fails and throws, a self-assignment, a join and a copy.
abbrev history : List KeyExprOp
history =
    from_string 0 (codes "ab") true none
    ∷ from_string 1 [] true none
    ∷ from_string 1 (codes "abc") false none
    ∷ assigns 1 1
    ∷ joins 2 0 1 none
    ∷ assigns 1 0
    ∷ owned (destroys 0)
    ∷ []

abbrev from_some : {A : Type 0} → A → Option A → A
from_some a none = a
from_some a (some b) = b

unfoldable after : Memory ledgered
unfolding keyexpr_run copy_construct copy_assign clone_onto
after = from_some empty (keyexpr_run ledgered key_api history empty)

-- 2 was given out twice and released once, 3 was given out and released, 5 is held.
after_world : after.world ≡ (2 ∷ 3 ∷ 0 ∷ [], 2 ∷ 5 ∷ 3 ∷ 2 ∷ [])
unfolding after
after_world = refl

history-AreInRange :
    AreInRange ledgered ledgered-Contract ledgered-Given key_api key_api-Contract 4 history
history-AreInRange = (
  omega arith,
  (omega arith, (omega arith, (omega arith, (omega arith, (omega arith, (omega arith, tt)))))),
)

keyexpr_run-IsBalanced_example : IsBalanced ledgered ledgered-Contract ledgered-Given 4 after
unfolding after keyexpr_run key_api-Contract ledgered-Given ledgered-Contract clone_onto
keyexpr_run-IsBalanced_example =
    keyexpr_run-IsBalanced ledgered ledgered-Contract ledgered-Given key_api key_api-Contract
      history 4 empty after history-AreInRange refl (λ r. refl)
