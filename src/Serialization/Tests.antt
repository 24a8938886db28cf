-- ===== src/Serialization/Tests.antt =====
-- Runs of the serializer over the toy format, and the theorems at concrete values.
use zenoh_cpp.Base.{ℕ, ◌≡◌, refl, List, [], ◌∷◌, Bool, false, Option, none, some, arith, ltb, ◌==◌}
use zenoh_cpp.Result.{
  ZResult, length_error, z_ok, z_edeserialize, returned, threw, result_check, succeeded, and_then,
}
use zenoh_cpp.Result.Modes.{Agrees, Any}
use zenoh_cpp.Serialization.{
  uint8, uint16, Ty, Value, arith_ty, string, tuple, vector, array, map, no_types, number, text,
  fields, couple, sequence, nil, cons,
}
use zenoh_cpp.Serialization.Toy.{toy, toy_format}
use zenoh_cpp.Serialization.Write.{write, serialize, write_length, write_arith, write_string}
use zenoh_cpp.Serialization.Read.{
  Program, read, deserialize, read_container, reserve, read_pair, read_arith, read_string,
}
use zenoh_cpp.Serialization.Containers.{insert_sorted}
use zenoh_cpp.Serialization.Encoding.{encode}
use zenoh_cpp.Serialization.Typing.{
  HasType, is_number, is_text, is_pair, is_map, no_element, also_element,
}
use zenoh_cpp.Serialization.Reads.{unset, fine}
use zenoh_cpp.Serialization.RoundTrip.{deserialize-serialize}
use zenoh_cpp.Serialization.Rejects.{deserialize_trailing, read_array_wrong_size}
use zenoh_cpp.Serialization.ErrorModes.{deserialize-ModesAgree}

abbrev below : Value → Value → Bool
below (number j a) (number k b) = ltb a b
below v w = false

abbrev same_key : Value → Value → Bool
same_key (number j a) (number k b) = a == b
same_key v w = false

abbrev program : Program
program = record { less = below; key_equal = same_key; blank = λ k. 0; max_size = 1000 }

-- std::map<uint8_t, std::string>{{1, "a"}, {2, ""}}
abbrev names_ty : Ty
names_ty = map (arith_ty uint8) string

abbrev names : Value
names =
    sequence (
      cons (couple (number uint8 1) (text (97 ∷ [])))
        (cons (couple (number uint8 2) (text [])) nil))

names-HasType : HasType program names_ty names
names-HasType =
    is_map (omega arith)
      (also_element (is_pair (is_number uint8 1 (omega arith)) (is_text _))
        (also_element (is_pair (is_number uint8 2 (omega arith)) (is_text _)) no_element))
      (((refl, refl), tt), (tt, tt))

names_written : serialize toy names none tt ≡ returned (2 ∷ 1 ∷ 1 ∷ 97 ∷ 2 ∷ 0 ∷ []) none tt
unfolding serialize write and_then write_length result_check succeeded write_arith write_string
names_written = refl

-- A pair with the key 1 again is not inserted.
duplicate_key :
    deserialize toy program names_ty (2 ∷ 1 ∷ 0 ∷ 1 ∷ 1 ∷ 98 ∷ []) none tt
    ≡ returned (sequence (cons (couple (number uint8 1) (text [])) nil)) none tt
unfolding deserialize read read_container result_check succeeded read_pair read_arith read_string
    insert_sorted
duplicate_key = refl

-- With `err` given, the elements before the one that fails are in the container.
cut_off :
    deserialize toy program (vector (arith_ty uint16)) (3 ∷ 7 ∷ 8 ∷ []) (some z_ok) tt
    ≡ returned
        (sequence (cons (number uint16 7) (cons (number uint16 8) nil)))
        (some z_edeserialize)
        tt
unfolding deserialize read read_container reserve result_check succeeded read_arith
cut_off = refl

-- std::tuple<> leaves `*err` as it was, so an old error code hides the bytes that are left over.
stale_error :
    deserialize toy program (tuple no_types) (5 ∷ []) (some (ZResult.other 1)) tt
    ≡ returned (fields nil) (some (ZResult.other 1)) tt
unfolding deserialize read succeeded
stale_error = refl

deserialize-serialize_example :
    deserialize toy program names_ty (2 ∷ 1 ∷ 1 ∷ 97 ∷ 2 ∷ 0 ∷ []) (some z_ok) tt
    ≡ returned names (some z_ok) tt
deserialize-serialize_example =
    deserialize-serialize toy toy_format program names_ty names none none (some z_ok) _
      names-HasType unset unset fine names_written

deserialize_trailing_example :
    deserialize toy program (arith_ty uint8) (5 ∷ 6 ∷ []) (some z_ok) tt
    ≡ returned (number uint8 5) (some z_edeserialize) tt
unfolding encode
deserialize_trailing_example =
    deserialize_trailing toy toy_format program (arith_ty uint8) (number uint8 5) (6 ∷ [])
      (5 ∷ 6 ∷ []) (some z_ok) (is_number uint8 5 (omega arith)) fine (λ e. cc) refl

read_array_wrong_size_example :
    (d' : List ℕ) × (read toy program (array 3 (arith_ty uint8)) none (2 ∷ 8 ∷ 9 ∷ [])
      ≡ threw z_edeserialize d')
    × (d' ≡ 8 ∷ 9 ∷ [])
read_array_wrong_size_example =
    read_array_wrong_size toy toy_format program 3 2 (arith_ty uint8) (8 ∷ 9 ∷ []) (2 ∷ 8 ∷ 9 ∷ [])
      none unset (omega arith) (omega arith) refl

deserialize-ModesAgree_example :
    Agrees {S = Unit {0}} Any Any
      (deserialize toy program names_ty (2 ∷ 1 ∷ []) none tt)
      (deserialize toy program names_ty (2 ∷ 1 ∷ []) (some z_ok) tt)
deserialize-ModesAgree_example = deserialize-ModesAgree toy program names_ty (2 ∷ 1 ∷ []) tt

abbrev given_ok : Option ZResult → Option ZResult
given_ok none = none
given_ok (some e) = some z_ok

-- A vector that could never be as long as the payload says throws std::length_error in both ways.
too_long :
    (err : Option ZResult)
    → deserialize toy
        (record program { max_size = 2 })
        (vector (arith_ty uint16))
        (3 ∷ 7 ∷ 8 ∷ [])
        (given_ok err)
        tt
      ≡ threw length_error tt
unfolding deserialize read read_container reserve result_check succeeded read_arith
too_long none = refl
too_long (some e) = refl
