-- ===== src/Result.antt =====
-- include/zenoh/api/base.hxx, error handling: ZResult, ZException and __ZENOH_RESULT_CHECK.
-- A C++ function with a parameter `ZResult* err` is a computation over the cell that `err` points
-- to (`none` is nullptr) and the state `S` of the objects and of the C library behind them.
pub mod Modes
pub mod Inversion
use zenoh_cpp.Base.{ℕ, Bool, true, false, ◌&&◌, Option, none, some, if◌then◌else◌}

-- `::z_result_t`: the codes that the sources name, and every other code. Of the codes only Z_OK
-- stands for success. `length_error` is no code: it stands for std::length_error, where a throw carries
-- it in place of a code.
pub data ZResult : Type 0 where
  z_ok z_edeserialize z_channel_disconnected z_channel_nodata : ZResult
  length_error : ZResult
  other : ℕ → ZResult

abbrev pub is_ok : ZResult → Bool
is_ok z_ok = true
is_ok _ = false

-- How a call ends: it returns a value, with what `*err` then holds, or it throws a ZException that
-- carries the code, or std::length_error.
pub data Run (S A : Type 0) : Type 0 where
  returned : A → Option ZResult → S → Run S A
  threw : ZResult → S → Run S A

abbrev pub M : Type 0 → Type 0 → Type 0
M S A = Option ZResult → S → Run S A

abbrev pub pure : {S A : Type 0} → A → M S A
pure a err s = returned a err s

infixl 5 ◌>>=◌ ◌>>◌
abbrev pub ◌>>=◌ : {S A B : Type 0} → M S A → (A → M S B) → M S B
◌>>=◌ m f err s = elim (m err s) [ returned a err' s' ↦ f a err' s' | threw c s' ↦ threw c s' ]

abbrev pub ◌>>◌ : {S A B : Type 0} → M S A → M S B → M S B
m >> k = m >>= λ _. k

-- A call of the C library: a result code, and the state after it.
abbrev pub c_call : {S A : Type 0} → (S → A × S) → M S A
c_call f err s = let (a, s') = f s in returned a err s'

-- __ZENOH_RESULT_CHECK
unfoldable pub result_check : {S : Type 0} → ZResult → M S (Unit {0})
result_check c none s = if is_ok c then returned tt none s else threw c s
result_check c (some _) s = returned tt (some c) s

-- `err == nullptr || *err == Z_OK`
unfoldable pub succeeded : {S : Type 0} → M S Bool
succeeded none s = returned true none s
succeeded (some c) s = returned (is_ok c) (some c) s

-- `a && b` on calls that return a bool: `b` is made only if `a` returns true.
unfoldable pub and_then : {S : Type 0} → M S Bool → M S Bool → M S Bool
and_then a b = do ok ← a; if ok then b else pure false

-- A run over the state of a local variable, seen by the caller, whose own state is `t`.
abbrev pub locally : {S T A B : Type 0} → (A → S → B) → T → Run S A → Run T B
locally result t (returned a err s) = returned (result a s) err t
locally result t (threw c s) = threw c t

-- How a call that fails with `code` ends: it throws, or it writes `code` and returns.
abbrev pub fails_with : {S A : Type 0} → ZResult → A → Option ZResult → S → Run S A
fails_with code a none s = threw code s
fails_with code a (some e) s = returned a (some code) s
