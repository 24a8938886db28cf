-- ===== src/Serialization/RoundTrip.antt =====
-- What was serialized deserializes to the same value.
use zenoh_cpp.Base.{
  ◌≡◌, refl, sym, ◌∙◌, ap, [], ◌++◌, append_assoc, append-nil, Bool, true, Option, none, some,
}
use zenoh_cpp.Result.{ZResult, z_ok, is_ok, Run, returned, threw, M, succeeded, locally}
use zenoh_cpp.Result.Inversion.{bind_step}
use zenoh_cpp.Serialization.{
  Ty, Tys, Value, Values, tuple, no_types, also_type, fields, nil, cons, whole, first,
}
use zenoh_cpp.Serialization.Api.{Api, Format}
use zenoh_cpp.Serialization.Containers.{
  All, any_order, push_back, insert_sorted, insert_unordered, push_back_last, insert_sorted_last,
  insert_unordered_last,
}
use zenoh_cpp.Serialization.Write.{write, serializer_serialize, serialize}
use zenoh_cpp.Serialization.Read.{
  reserve, no_reserve, Program, default, read_pair, read, read_all, deserializer_deserialize,
  check_done, deserialize,
}
use zenoh_cpp.Serialization.Typing.{
  HasType, HaveTypes, Each, is_number, is_text, is_tuple, is_pair, is_vector, is_deque, is_array,
  is_set, is_unordered_set, is_map, is_unordered_map, no_fields, also_field, no_element,
  also_element,
}
use zenoh_cpp.Serialization.Encoding.{encode, encode_all, write-Appends}
use zenoh_cpp.Serialization.ErrorModes.{write-ModesAgree}
use zenoh_cpp.Result.Modes.{Agrees, same, reported, raised, IsTrue, IsFalse}
use zenoh_cpp.Serialization.Reads.{
  Clean, unset, fine, succeeded-Clean, Reads, read_arith-Reads, read_string-Reads, reserve-Reserves,
  read_container-Reads, read_fixed-Reads, read_pair-Reads,
}

module _ (api : Api) (format : Format api) (p : Program) where
  open format use {unread}

  abbrev ReadsBack : Ty → Value → Type 0
  ReadsBack t v = Reads api format p (read api p t) (encode api format v) v

  tuple_back :
      (ts : Tys) {vs : Values}
      → Reads api format p (read_all api p ts) (encode_all api format vs) vs
      → ReadsBack (tuple ts) (fields vs)
  unfolding read encode
  tuple_back ts h err rest d c e =
      let (d', e', u) = h err rest d c e in (d', bind_step (read_all api p ts) _ e' refl, u)

  no_fields_back : Reads api format p (read_all api p no_types) (encode_all api format nil) nil
  unfolding read encode
  no_fields_back err rest d c e = (d, refl, e)

  also_field_back :
      (t : Ty) (ts : Tys) {v : Value} {vs : Values}
      → ReadsBack t v
      → Reads api format p (read_all api p ts) (encode_all api format vs) vs
      → Reads api format p
          (read_all api p (also_type t ts))
          (encode_all api format (cons v vs))
          (cons v vs)
  unfolding read encode
  also_field_back t ts {v} {vs} h hs err rest d c e =
      let (d₁, e₁, u₁) =
        h err (encode_all api format vs ++ rest) d c
          (e ∙ append_assoc (encode api format v) (encode_all api format vs) rest) in
      let (d₂, e₂, u₂) = hs err rest d₁ c u₁ in
      (d₂, bind_step (read api p t) _ e₁ (bind_step (read_all api p ts) _ e₂ refl), u₂)

  -- A map reads its elements as pairs.
  abbrev read_entry : Ty → Ty → M api.De (Bool × Value)
  read_entry a b = read_pair api p (read api p a) (read api p b) (default p b)

  mutual
    unfolding read encode

    recover : {t : Ty} {v : Value} → HasType p t v → ReadsBack t v
    recover (is_number k n h) = read_arith-Reads api format p k n h
    recover (is_text t) = read_string-Reads api format p t
    recover (is_tuple {ts} h) = tuple_back ts (recover_fields h)
    recover (is_pair {a} {b} {x} {y} ha hb) =
        read_pair-Reads api format p (read api p a) (read api p b) (default p b) x y (recover ha)
          (recover hb)
    recover (is_vector {t} {vs} fits room h) =
        read_container-Reads api format p (reserve api p) (read api p t) push_back _ vs
          push_back_last fits (any_order vs) (reserve-Reserves api format p _ room)
          (recover_elements h)
    recover (is_deque {t} {vs} fits h) =
        read_container-Reads api format p (no_reserve api p) (read api p t) push_back _ vs
          push_back_last fits (any_order vs) (λ err d. refl) (recover_elements h)
    recover (is_array {n} {t} {vs} fits h size) =
        read_fixed-Reads api format p n (read api p t) (default p t) vs fits size
          (recover_elements h)
    recover (is_set {t} {vs} fits h order) =
        read_container-Reads api format p (no_reserve api p) (read api p t)
          (insert_sorted p.less whole) _ vs (insert_sorted_last p.less whole) fits order
          (λ err d. refl) (recover_elements h)
    recover (is_unordered_set {t} {vs} fits h order) =
        read_container-Reads api format p (no_reserve api p) (read api p t)
          (insert_unordered p.key_equal whole) _ vs (insert_unordered_last p.key_equal whole) fits
          order (λ err d. refl) (recover_elements h)
    recover (is_map {a} {b} {vs} fits h order) =
        read_container-Reads api format p (no_reserve api p) (read_entry a b)
          (insert_sorted p.less first) _ vs (insert_sorted_last p.less first) fits order
          (λ err d. refl) (recover_elements h)
    recover (is_unordered_map {a} {b} {vs} fits h order) =
        read_container-Reads api format p (no_reserve api p) (read_entry a b)
          (insert_unordered p.key_equal first) _ vs (insert_unordered_last p.key_equal first) fits
          order (λ err d. refl) (recover_elements h)

    recover_fields :
        {ts : Tys} {vs : Values}
        → HaveTypes p ts vs
        → Reads api format p (read_all api p ts) (encode_all api format vs) vs
    recover_fields no_fields = no_fields_back
    recover_fields (also_field {t} {ts} h hs) = also_field_back t ts (recover h) (recover_fields hs)

    recover_elements : {t : Ty} {vs : Values} → Each p t vs → All (λ v. ReadsBack t v) vs
    recover_elements no_element = tt
    recover_elements (also_element h hs) = (recover h, recover_elements hs)

  -- From a payload that starts with the encoding of a value of the type, `read` gets that value.
  pub read-encode : (t : Ty) (v : Value) → HasType p t v → ReadsBack t v
  read-encode t v h = recover h

  check_done_end :
      (err : Option ZResult) (d : api.De)
      → Clean err
      → unread d ≡ []
      → check_done api p err d ≡ returned tt err d
  unfolding check_done
  check_done_end err d c u =
      bind_step succeeded _ (succeeded-Clean err d c) (rw (format.is_done_at_end d u))

  -- A value of the type, with nothing behind it, deserializes to itself.
  deserialize_written :
      (t : Ty) (v : Value) (b : api.Payload) (err : Option ZResult)
      → HasType p t v
      → Clean err
      → unread (api.from_bytes b) ≡ encode api format v
      → deserialize api p t b err tt ≡ returned v err tt
  unfolding deserialize deserializer_deserialize
  deserialize_written t v b err h c u =
      let (d', e, u') =
        recover h err [] (api.from_bytes b) c (u ∙ sym (append-nil (encode api format v))) in
      ap (locally (λ x d. x) tt) (
        bind_step (deserializer_deserialize api p t) _ (bind_step (read api p t) _ e refl)
          (bind_step (check_done api p) _ (check_done_end err d' c u') refl))

  -- What `serialize` makes of a run of `write` on its own serializer.
  abbrev payload_of : Run api.Ser Bool → Run (Unit {0}) api.Payload
  payload_of r =
      locally (λ done ser. api.finish ser) tt
        (elim r [ returned ok err s ↦ returned tt err s | threw c s ↦ threw c s ])

  abbrev Finished : Run api.Ser Bool → Option ZResult → api.Payload → Type 0
  Finished r err b = (s : api.Ser) × (r ≡ returned true err s) × (b ≡ api.finish s)

  outcome_unset :
      {r r' : Run api.Ser Bool} {err : Option ZResult} {b : api.Payload}
      → Agrees IsTrue IsFalse r r'
      → payload_of r ≡ returned b err tt
      → Finished r none b
  outcome_unset (same ok s good) e = (s, rw good, cc)
  outcome_unset (reported c ok s ne bad) e = absurd (cc)
  outcome_unset (raised s) e = absurd (cc)

  outcome_fine :
      {r r' : Run api.Ser Bool} {err : Option ZResult} {b : api.Payload}
      → Agrees IsTrue IsFalse r r'
      → payload_of r' ≡ returned b err tt
      → Clean err
      → Finished r' (some z_ok) b
  outcome_fine (same ok s good) e c = (s, rw good, cc)
  outcome_fine (raised s) e c = absurd (cc)
  outcome_fine (reported c ok s ne bad) e unset = absurd (cc)
  outcome_fine (reported c ok s ne bad) e fine = absurd (cc (ap code_of e))
    where
      code_of : Run (Unit {0}) api.Payload → Bool
      code_of (returned b none s) = true
      code_of (returned b (some d) s) = is_ok d
      code_of (threw d s) = true

  serialize-Finished :
      (v : Value) (err err' : Option ZResult) (b : api.Payload)
      → Clean err
      → Clean err'
      → serialize api v err tt ≡ returned b err' tt
      → Finished (write api v err api.empty) err b
  unfolding serialize serializer_serialize
  serialize-Finished v err err' b unset c' e = outcome_unset (write-ModesAgree api v api.empty) e
  serialize-Finished v err err' b fine c' e = outcome_fine (write-ModesAgree api v api.empty) e c'

  payload_encodes :
      (v : Value) (err err' : Option ZResult) (b : api.Payload)
      → Clean err
      → Clean err'
      → serialize api v err tt ≡ returned b err' tt
      → unread (api.from_bytes b) ≡ encode api format v
  payload_encodes v err err' b c c' e =
      let (s, e₁, e₂) = serialize-Finished v err err' b c c' e in
      rw (
        e₂,
        format.unread-from_bytes s,
        write-Appends api format v err api.empty err s e₁,
        format.written-empty,
      )

  -- If `serialize` reports no error, then `deserialize` at the value's type returns the value and
  -- reports no error, for every value of every type, in whichever of the two ways each call reports
  -- errors: with `err` null, or with `*err` equal to Z_OK before the call.
  pub deserialize-serialize :
      (t : Ty) (v : Value) (err err' err_d : Option ZResult) (b : api.Payload)
      → HasType p t v
      → Clean err
      → Clean err'
      → Clean err_d
      → serialize api v err tt ≡ returned b err' tt
      → deserialize api p t b err_d tt ≡ returned v err_d tt
  deserialize-serialize t v err err' err_d b h c c' c_d e =
      deserialize_written t v b err_d h c_d (payload_encodes v err err' b c c' e)
