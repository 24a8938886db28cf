-- ===== src/Serialization/Reads.antt =====
-- Readers at the encoding of a value: the rules for one reader after another.
use zenoh_cpp.Base.{
  ℕ, ◌≡◌, refl, ◌∙◌, ap, List, ◌≤◌, ◌++◌, append_assoc, Bool, true, Option, none, some, arith, ◌==◌,
  ◌<◌,
}
use zenoh_cpp.Result.{
  ZResult, z_ok, returned, M, pure, ◌>>=◌, ◌>>◌, c_call, result_check, succeeded,
}
use zenoh_cpp.Result.Inversion.{bind_step}
use zenoh_cpp.Serialization.{
  Arith, Value, Values, number, text, couple, sequence, nil, cons, length,
}
use zenoh_cpp.Serialization.Api.{Api, Format, range, size_range}
use zenoh_cpp.Serialization.Containers.{All, AppendsLast, insert_all, insert_all_rebuilds, Pairwise}
use zenoh_cpp.Serialization.Read.{
  Program, reserve, read_elements, read_array, read_arith, read_string, sequence_begin,
  read_container, read_fixed, read_pair,
}
use zenoh_cpp.Serialization.Typing.{Fits}
use zenoh_cpp.Serialization.Encoding.{encode, encode_all}

-- No error is pending: `err` is null, or `*err` is Z_OK.
pub data Clean : Option ZResult → Type 0 where
  unset : Clean none
  fine : Clean (some z_ok)

result_check_ok :
    {S : Type 0} (err : Option ZResult) (s : S)
    → Clean err
    → result_check z_ok err s ≡ returned tt err s
unfolding result_check
result_check_ok err s unset = refl
result_check_ok err s fine = refl

pub succeeded-Clean :
    {S : Type 0} (err : Option ZResult) (s : S) → Clean err → succeeded err s ≡ returned true err s
unfolding succeeded
succeeded-Clean err s unset = refl
succeeded-Clean err s fine = refl

-- A call of the C library that returns Z_OK and a value, as read_arith makes it.
c_call_reads :
    {S A B : Type 0} (f : S → (ZResult × A) × S) (g : A → B) (a : A) (err : Option ZResult)
    (s s' : S)
    → Clean err
    → f s ≡ ((z_ok, a), s')
    → (do (code, x) ← c_call f; result_check code; ok ← succeeded; pure {A = Bool × B} (ok, g x))
        err s
      ≡ returned (true, g a) err s'
unfolding result_check succeeded
c_call_reads f g a err s s' unset e = rw e
c_call_reads f g a err s s' fine e = rw e

module _ (api : Api) (format : Format api) (p : Program) where
  open format use {unread, written, arith_code, string_code, length_code}

  -- At bytes that start with `bytes`, `m` returns `a` and moves behind them.
  abbrev pub Reads : {A : Type 0} → M api.De (Bool × A) → List ℕ → A → Type 0
  Reads m bytes a =
      (err : Option ZResult) (rest : List ℕ) (d : api.De)
      → Clean err
      → unread d ≡ bytes ++ rest
      → (d' : api.De) × (m err d ≡ returned (true, a) err d') × (unread d' ≡ rest)

  pub read_arith-Reads :
      (k : Arith) (n : ℕ) → n < range k → Reads (read_arith api p k) (arith_code k n) (number k n)
  unfolding read_arith
  read_arith-Reads k n h err rest d c e =
      let (d', e', u) = format.get_arith_reads k n rest d h e in
      (d', c_call_reads (api.get_arith k) (number k) n err d d' c e', u)

  pub read_string-Reads : (t : List ℕ) → Reads (read_string api p) (string_code t) (text t)
  unfolding read_string
  read_string-Reads t err rest d c e =
      let (d', e', u) = format.get_string_reads t rest d e in
      (d', c_call_reads api.get_string text t err d d' c e', u)

  pub sequence_begin-Reads :
      (n : ℕ) → n < size_range → Reads (sequence_begin api p) (length_code n) n
  unfolding sequence_begin
  sequence_begin-Reads n h err rest d c e =
      let (d', e', u) = format.get_length_reads n rest d h e in
      (d', c_call_reads api.get_length (λ x. x) n err d d' c e', u)

  -- One reader after another.
  read_elements-Reads :
      (element : M api.De (Bool × Value)) (ins : Value → Values → Values) (vs acc : Values)
      → All (λ v. Reads element (encode api format v) v) vs
      → Reads
          (read_elements element ins (length vs) acc)
          (encode_all api format vs)
          (insert_all ins acc vs)
  unfolding read_elements insert_all encode
  read_elements-Reads element ins nil acc h err rest d c e = (d, refl, e)
  read_elements-Reads element ins (cons v vs) acc h err rest d c e =
      let (d₁, e₁, u₁) =
        h.0 err (encode_all api format vs ++ rest) d c
          (e ∙ append_assoc (encode api format v) (encode_all api format vs) rest) in
      let (d₂, e₂, u₂) = read_elements-Reads element ins vs (ins v acc) h.1 err rest d₁ c u₁ in
      (d₂, bind_step element _ e₁ e₂, u₂)

  read_array-Reads :
      (element : M api.De (Bool × Value)) (blank : Value) (vs : Values)
      → All (λ v. Reads element (encode api format v) v) vs
      → Reads (read_array element blank (length vs)) (encode_all api format vs) vs
  unfolding read_array encode
  read_array-Reads element blank nil h err rest d c e = (d, refl, e)
  read_array-Reads element blank (cons v vs) h err rest d c e =
      let (d₁, e₁, u₁) =
        h.0 err (encode_all api format vs ++ rest) d c
          (e ∙ append_assoc (encode api format v) (encode_all api format vs) rest) in
      let (d₂, e₂, u₂) = read_array-Reads element blank vs h.1 err rest d₁ c u₁ in
      (d₂, bind_step element _ e₁ (bind_step (read_array element blank (length vs)) _ e₂ refl), u₂)

  -- A vector that may be as long as `n` reserves without an exception.
  abbrev pub Reserves : (ℕ → M api.De (Unit {0})) → ℕ → Type 0
  Reserves reserves n = (err : Option ZResult) (d : api.De) → reserves n err d ≡ returned tt err d

  pub reserve-Reserves : (n : ℕ) → n ≤ p.max_size → Reserves (reserve api p) n
  unfolding reserve
  reserve-Reserves n room err d = ground arith

  pub read_container-Reads :
      (reserves : ℕ → M api.De (Unit {0})) (element : M api.De (Bool × Value))
      (ins : Value → Values → Values) (R : Value → Value → Type 0) (vs : Values)
      → AppendsLast ins R
      → Fits vs
      → Pairwise R vs
      → Reserves reserves (length vs)
      → All (λ v. Reads element (encode api format v) v) vs
      → Reads
          (read_container api p reserves element ins)
          (encode api format (sequence vs))
          (sequence vs)
  unfolding read_container encode
  read_container-Reads reserves element ins R vs last fits pw room h err rest d c e =
      let (d₁, e₁, u₁) =
        sequence_begin-Reads (length vs) fits err (encode_all api format vs ++ rest) d c
          (e ∙ append_assoc (length_code (length vs)) (encode_all api format vs) rest) in
      let (d₂, e₂, u₂) = read_elements-Reads element ins vs nil h err rest d₁ c u₁ in
      (
        d₂,
        bind_step (sequence_begin api p) _ e₁ (
            bind_step (reserves (length vs)) _ (room err d₁) (
              bind_step (read_elements element ins (length vs) nil) _ e₂ (
                bind_step succeeded _ (succeeded-Clean err d₂ c) (
                  ap (λ xs. returned (true, sequence xs) err d₂)
                    (insert_all_rebuilds ins R last vs pw))))),
        u₂,
      )

  pub read_fixed-Reads :
      (n : ℕ) (element : M api.De (Bool × Value)) (blank : Value) (vs : Values)
      → Fits vs
      → length vs ≡ n
      → All (λ v. Reads element (encode api format v) v) vs
      → Reads (read_fixed api p n element blank) (encode api format (sequence vs)) (sequence vs)
  unfolding read_fixed encode
  read_fixed-Reads n element blank vs fits size h err rest d c e =
      let (d₁, e₁, u₁) =
        sequence_begin-Reads (length vs) fits err (encode_all api format vs ++ rest) d c
          (e ∙ append_assoc (length_code (length vs)) (encode_all api format vs) rest) in
      let (d₂, e₂, u₂) = read_array-Reads element blank vs h err rest d₁ c u₁ in
      let same_size : ((length vs == n) ≡ true) = ground arith in
      (
        d₂,
        bind_step (sequence_begin api p) _ e₁ (
            bind_step succeeded _ (succeeded-Clean err d₁ c) (
              rw same_size (
                bind_step (read_array element blank (length vs)) _ e₂
                  (bind_step succeeded _ (succeeded-Clean err d₂ c) refl)))),
        u₂,
      )

  pub read_pair-Reads :
      (x y : M api.De (Bool × Value)) (blank a b : Value)
      → Reads x (encode api format a) a
      → Reads y (encode api format b) b
      → Reads (read_pair api p x y blank) (encode api format (couple a b)) (couple a b)
  unfolding read_pair encode
  read_pair-Reads x y blank a b ha hb err rest d c e =
      let (d₁, e₁, u₁) =
        ha err (encode api format b ++ rest) d c
          (e ∙ append_assoc (encode api format a) (encode api format b) rest) in
      let (d₂, e₂, u₂) = hb err rest d₁ c u₁ in (d₂, bind_step x _ e₁ (bind_step y _ e₂ refl), u₂)
