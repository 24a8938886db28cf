-- ===== src/KeyExpr/Balance.antt =====
-- What the C functions of key expressions give out.
use zenoh_cpp.Base.{ℕ, ◌+◌, ◌≡◌, Text}
use zenoh_cpp.Owned.{OwnedType, Contract}
use zenoh_cpp.Owned.Given.{GivenContract}
use zenoh_cpp.KeyExpr.{KeyExprApi}

-- What the documentation of the C functions promises: a call that makes a value has given out what this
-- value holds, and has released nothing.
pub record KeyExprContract (c : OwnedType) (contract : Contract c)
    (gives : GivenContract c contract) (api : KeyExprApi c) : Type 0 where
  pub autocanonize_gives :
      (t : Text) (w : c.World) (r : ℕ)
      → let ((code, v), w') = api.z_keyexpr_from_substr_autocanonize t w in
        (gives.given w' r ≡ contract.holds v r + gives.given w r)
        × (contract.released w' r ≡ contract.released w r)
  pub substr_gives :
      (t : Text) (w : c.World) (r : ℕ)
      → let ((code, v), w') = api.z_keyexpr_from_substr t w in
        (gives.given w' r ≡ contract.holds v r + gives.given w r)
        × (contract.released w' r ≡ contract.released w r)
  pub clone_gives :
      (x : c.Inner) (w : c.World) (r : ℕ)
      → let (v, w') = api.z_keyexpr_clone x w in
        (gives.given w' r ≡ contract.holds v r + gives.given w r)
        × (contract.released w' r ≡ contract.released w r)
  pub concat_gives :
      (x : c.Inner) (t : Text) (w : c.World) (r : ℕ)
      → let ((code, v), w') = api.z_keyexpr_concat x t w in
        (gives.given w' r ≡ contract.holds v r + gives.given w r)
        × (contract.released w' r ≡ contract.released w r)
  pub join_gives :
      (x y : c.Inner) (w : c.World) (r : ℕ)
      → let ((code, v), w') = api.z_keyexpr_join x y w in
        (gives.given w' r ≡ contract.holds v r + gives.given w r)
        × (contract.released w' r ≡ contract.released w r)
