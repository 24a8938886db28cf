-- ===== src/Result/Modes.antt =====
-- The two ways to report an error: with `err` null a call throws, otherwise it writes the code and
-- returns. Here is the relation between them, and the rules that carry it through a function.
use zenoh_cpp.Base.{◌≡◌, refl, Bool, true, false, none, some, if◌then◌else◌}
use zenoh_cpp.Result.{
  ZResult, z_ok, z_edeserialize, z_channel_disconnected, z_channel_nodata, length_error, other,
  is_ok, Run, returned, threw, M, pure, ◌>>=◌, ◌>>◌, c_call, result_check, succeeded, and_then,
}

-- `r` is a run with `err` null, and `r'` the run with `*err` equal to Z_OK before the call. Either
-- both return the same value, a good one, in the same state, and `*err` is still Z_OK; or the first
-- throws the code that the second writes, in the same state, and the second returns a bad one; or
-- both throw std::length_error, which is not reported by a code, in the same state.
pub data Agrees {S A : Type 0} (Good Bad : A → Type 0) : Run S A → Run S A → Type 0 where
  same : (a : A) (s : S) → Good a → Agrees Good Bad (returned a none s) (returned a (some z_ok) s)
  reported :
      (c : ZResult) (a : A) (s : S)
      → is_ok c ≡ false
      → Bad a
      → Agrees Good Bad (threw c s) (returned a (some c) s)
  raised : (s : S) → Agrees Good Bad (threw length_error s) (threw length_error s)

-- The two modes of a call agree from every state.
abbrev pub ModesAgree : {S A : Type 0} → (A → Type 0) → (A → Type 0) → M S A → Type 0
ModesAgree {S} Good Bad m = (s : S) → Agrees Good Bad (m none s) (m (some z_ok) s)

abbrev pub IsTrue : Bool → Type 0
IsTrue b = b ≡ true

abbrev pub IsFalse : Bool → Type 0
IsFalse b = b ≡ false

abbrev pub Any : {A : Type 0} → A → Type 0
Any a = Unit {0}

-- A call that returns one value and leaves `*err` alone.
pub pure-ModesAgree :
    {S A : Type 0} (Good Bad : A → Type 0) (a : A) → Good a → ModesAgree {S = S} Good Bad (pure a)
pure-ModesAgree Good Bad a good s = same a s good

-- What follows a bad value returns a bad value, and touches neither `*err` nor the state.
abbrev pub Skips : {S A B : Type 0} → (A → Type 0) → (B → Type 0) → (A → M S B) → Type 0
Skips {S} {A} {B} F G f =
    (a : A) (c : ZResult) (s : S)
    → F a
    → is_ok c ≡ false
    → (b : B) × G b × (f a (some c) s ≡ returned b (some c) s)

module _ {S A B : Type 0} (Good Bad : A → Type 0) (Good' Bad' : B → Type 0) (f : A → M S B) where
  abbrev then_do : Run S A → Run S B
  then_do r = elim r [ returned a err' s' ↦ f a err' s' | threw c s' ↦ threw c s' ]

  Agrees-then_do :
      ((a : A) → Good a → ModesAgree Good' Bad' (f a))
      → Skips Bad Bad' f
      → {r r' : Run S A} → Agrees Good Bad r r'
      → Agrees Good' Bad' (then_do r) (then_do r')
  Agrees-then_do next skip (same a s good) = next a good s
  Agrees-then_do next skip (reported c a s ne bad) =
      let (b, worse, e) = skip a c s bad ne in rw e (reported c b s ne worse)
  Agrees-then_do next skip (raised s) = raised s

  -- The rule for a sequence of two calls.
  pub bind-ModesAgree :
      (m : M S A)
      → ModesAgree Good Bad m
      → ((a : A) → Good a → ModesAgree Good' Bad' (f a))
      → Skips Bad Bad' f
      → ModesAgree Good' Bad' (m >>= f)
  bind-ModesAgree m first next skip s = Agrees-then_do next skip (first s)

-- `__ZENOH_RESULT_CHECK(code, err, ..)` at the end of a function that returns nothing.
pub result_check-ModesAgree :
    {S : Type 0} (c : ZResult) → ModesAgree {S = S} Any Any (result_check c)
unfolding result_check
result_check-ModesAgree z_ok s = same tt s tt
result_check-ModesAgree z_edeserialize s = reported z_edeserialize tt s refl tt
result_check-ModesAgree z_channel_disconnected s = reported z_channel_disconnected tt s refl tt
result_check-ModesAgree z_channel_nodata s = reported z_channel_nodata tt s refl tt
result_check-ModesAgree length_error s = reported length_error tt s refl tt
result_check-ModesAgree (other n) s = reported (other n) tt s refl tt

-- `__ZENOH_RESULT_CHECK(call, err, ..); return err == nullptr || *err == Z_OK;` with a value that
-- the call leaves in an output parameter.
abbrev pub checked_value : {S A B : Type 0} → (A → B) → (S → (ZResult × A) × S) → M S (Bool × B)
checked_value {A} {B} g f = do
  (code, x) ← c_call f
  result_check code
  ok ← succeeded
  pure {A = Bool × B} (ok, g x)

abbrev pub FirstTrue : {A : Type 0} → Bool × A → Type 0
FirstTrue r = r.0 ≡ true

abbrev pub FirstFalse : {A : Type 0} → Bool × A → Type 0
FirstFalse r = r.0 ≡ false

checked_value_at :
    {S B : Type 0} (c : ZResult) (b : B) (s : S)
    → Agrees FirstTrue FirstFalse
        ((do result_check c; ok ← succeeded; pure {A = Bool × B} (ok, b)) none s)
        ((do result_check c; ok ← succeeded; pure {A = Bool × B} (ok, b)) (some z_ok) s)
unfolding result_check succeeded
checked_value_at z_ok b s = same (true, b) s refl
checked_value_at z_edeserialize b s = reported z_edeserialize (false, b) s refl refl
checked_value_at z_channel_disconnected b s = reported z_channel_disconnected (false, b) s refl refl
checked_value_at z_channel_nodata b s = reported z_channel_nodata (false, b) s refl refl
checked_value_at length_error b s = reported length_error (false, b) s refl refl
checked_value_at (other n) b s = reported (other n) (false, b) s refl refl

pub checked_value-ModesAgree :
    {S A B : Type 0} (g : A → B) (f : S → (ZResult × A) × S)
    → ModesAgree FirstTrue FirstFalse (checked_value g f)
checked_value-ModesAgree g f s = checked_value_at (f s).0.0 (g (f s).0.1) (f s).1

-- The same with no output parameter.
abbrev pub checked : {S : Type 0} → (S → ZResult × S) → M S Bool
checked f = do code ← c_call f; result_check code; succeeded

checked_at :
    {S : Type 0} (c : ZResult) (s : S)
    → Agrees IsTrue IsFalse
        ((result_check c >>= λ _. succeeded) none s)
        ((result_check c >>= λ _. succeeded) (some z_ok) s)
unfolding result_check succeeded
checked_at z_ok s = same true s refl
checked_at z_edeserialize s = reported z_edeserialize false s refl refl
checked_at z_channel_disconnected s = reported z_channel_disconnected false s refl refl
checked_at z_channel_nodata s = reported z_channel_nodata false s refl refl
checked_at length_error s = reported length_error false s refl refl
checked_at (other n) s = reported (other n) false s refl refl

pub checked-ModesAgree : {S : Type 0} (f : S → ZResult × S) → ModesAgree IsTrue IsFalse (checked f)
checked-ModesAgree f s = checked_at (f s).0 (f s).1

pub and_then-ModesAgree :
    {S : Type 0} (a b : M S Bool)
    → ModesAgree IsTrue IsFalse a
    → ModesAgree IsTrue IsFalse b
    → ModesAgree IsTrue IsFalse (and_then a b)
unfolding and_then
and_then-ModesAgree {S} a b ha hb =
    bind-ModesAgree IsTrue IsFalse IsTrue IsFalse _ a ha next (λ ok c s h ne. (false, refl, rw h))
  where
    next :
        (ok : Bool) → IsTrue ok → ModesAgree {S = S} IsTrue IsFalse (if ok then b else pure false)
    next true h = hb
    next false h = absurd (cc)

-- `return err == nullptr || *err == Z_OK;` after calls that went well.
pub succeeded-ModesAgree : {S : Type 0} → ModesAgree {S = S} IsTrue IsFalse succeeded
unfolding succeeded
succeeded-ModesAgree s = same true s refl
