-- ===== src/Serialization/Encoding.antt =====
-- The bytes that a value is written as: what `write` appends when every call of the C library
-- succeeds.
use zenoh_cpp.Base.{ℕ, ◌≡◌, ◌∙◌, List, [], ◌++◌, append_assoc, append-nil, Bool, true, Option}
use zenoh_cpp.Result.{ZResult, returned, M, pure, and_then}
use zenoh_cpp.Result.Inversion.{checked-returned, and_then-returned}
use zenoh_cpp.Serialization.{
  Arith, Value, Values, number, text, fields, couple, sequence, nil, cons, length,
}
use zenoh_cpp.Serialization.Api.{Api, Format}
use zenoh_cpp.Serialization.Write.{write_arith, write_string, write_length, write, write_all}

module _ (api : Api) (format : Format api) where
  open format use {arith_code, string_code, length_code}

  unfoldable mutual
    pub encode : Value → List ℕ
    encode (number k n) = arith_code k n
    encode (text t) = string_code t
    encode (fields vs) = encode_all vs
    encode (couple x y) = encode x ++ encode y
    encode (sequence vs) = length_code (length vs) ++ encode_all vs

    pub encode_all : Values → List ℕ
    encode_all nil = []
    encode_all (cons v vs) = encode v ++ encode_all vs

  -- A call that returns true appends these bytes.
  abbrev pub Appends : M api.Ser Bool → List ℕ → Type 0
  Appends m bytes =
      (err : Option ZResult) (s : api.Ser) (err' : Option ZResult) (s' : api.Ser)
      → m err s ≡ returned true err' s'
      → format.written s' ≡ format.written s ++ bytes

  and_then-Appends :
      (a b : M api.Ser Bool) (xs ys : List ℕ)
      → Appends a xs
      → Appends b ys
      → Appends (and_then a b) (xs ++ ys)
  and_then-Appends a b xs ys ha hb err s err' s' h =
      let (err₁, s₁, e₁, e₂) = and_then-returned a b err s h in
      hb err₁ s₁ err' s' e₂ ∙ rw (ha err s err₁ s₁ e₁) (append_assoc (format.written s) xs ys)

  write_arith-Appends : (k : Arith) (n : ℕ) → Appends (write_arith api k n) (arith_code k n)
  unfolding write_arith
  write_arith-Appends k n err s err' s' h =
      let (e₁, e₂) = checked-returned (api.put_arith k n) err s h in
      rw (← e₂) (format.put_arith_appends k n s e₁)

  write_string-Appends : (t : List ℕ) → Appends (write_string api t) (string_code t)
  unfolding write_string
  write_string-Appends t err s err' s' h =
      let (e₁, e₂) = checked-returned (api.put_string t) err s h in
      rw (← e₂) (format.put_string_appends t s e₁)

  write_length-Appends : (n : ℕ) → Appends (write_length api n) (length_code n)
  unfolding write_length
  write_length-Appends n err s err' s' h =
      let (e₁, e₂) = checked-returned (api.put_length n) err s h in
      rw (← e₂) (format.put_length_appends n s e₁)

  nothing-Appends : Appends (pure true) []
  nothing-Appends err s err' s' h = rw (append-nil (format.written s)) (cc)

  mutual
    unfolding write encode

    write-Appends_each : (v : Value) → Appends (write api v) (encode v)
    write-Appends_each (number k n) = write_arith-Appends k n
    write-Appends_each (text t) = write_string-Appends t
    write-Appends_each (fields vs) = write_all-Appends vs
    write-Appends_each (couple x y) =
        and_then-Appends (write api x) (write api y) (encode x) (encode y) (write-Appends_each x)
          (write-Appends_each y)
    write-Appends_each (sequence vs) =
        and_then-Appends (write_length api (length vs)) (write_all api vs) (length_code (length vs))
          (encode_all vs) (write_length-Appends (length vs)) (write_all-Appends vs)

    write_all-Appends : (vs : Values) → Appends (write_all api vs) (encode_all vs)
    write_all-Appends nil = nothing-Appends
    write_all-Appends (cons v vs) =
        and_then-Appends (write api v) (write_all api vs) (encode v) (encode_all vs)
          (write-Appends_each v) (write_all-Appends vs)

  -- What `write` appends when it returns true is the encoding of the value.
  pub write-Appends : (v : Value) → Appends (write api v) (encode v)
  write-Appends v = write-Appends_each v
