-- ===== src/Serialization/Api.antt =====
-- The functions of the C library that serialization.hxx calls (ze_serializer_*, ze_deserializer_*),
-- as a parameter, and what their documentation promises.
use zenoh_cpp.Base.{ℕ, ◌≡◌, ◌≢◌, ◌^◌, ◌<◌, List, [], ◌++◌, Bool, true, false}
use zenoh_cpp.Result.{ZResult, z_ok}
use zenoh_cpp.Serialization.{
  Arith, uint8, uint16, uint32, uint64, int8, int16, int32, int64, float, double, bool,
}

pub record Api : Type 1 where
  -- ze_owned_serializer_t, ze_deserializer_t, z_owned_bytes_t
  pub Ser : Type 0
  pub De : Type 0
  pub Payload : Type 0
  -- ze_serializer_empty, ze_serializer_finish
  pub empty : Ser
  pub finish : Ser → Payload
  -- ze_serializer_serialize_uint8 and so on, _substr, _sequence_length
  pub put_arith : Arith → ℕ → Ser → ZResult × Ser
  pub put_string : List ℕ → Ser → ZResult × Ser
  pub put_length : ℕ → Ser → ZResult × Ser
  -- ze_deserializer_from_bytes, ze_deserializer_is_done
  pub from_bytes : Payload → De
  pub is_done : De → Bool
  -- ze_deserializer_deserialize_uint8 and so on, _string, _sequence_length: the code, and what the
  -- output parameter holds after the call
  pub get_arith : Arith → De → (ZResult × ℕ) × De
  pub get_string : De → (ZResult × List ℕ) × De
  pub get_length : De → (ZResult × ℕ) × De

-- The number of values of an arithmetic type, and of size_t.
abbrev pub range : Arith → ℕ
range uint8 = 2 ^ 8
range uint16 = 2 ^ 16
range uint32 = 2 ^ 32
range uint64 = 2 ^ 64
range int8 = 2 ^ 8
range int16 = 2 ^ 16
range int32 = 2 ^ 32
range int64 = 2 ^ 64
range float = 2 ^ 32
range double = 2 ^ 64
range bool = 2

abbrev pub size_range : ℕ
size_range = 2 ^ 64

-- Each `put` that returns Z_OK appends the encoding of its argument, each `get` at such an encoding
-- reads it and moves behind it, and a deserializer starts with what the serializer has written.
pub record Format (api : Api) : Type 0 where
  pub written : api.Ser → List ℕ
  pub unread : api.De → List ℕ
  pub arith_code : Arith → ℕ → List ℕ
  pub string_code : List ℕ → List ℕ
  pub length_code : ℕ → List ℕ
  pub written-empty : written api.empty ≡ []
  pub put_arith_appends :
      (k : Arith) (n : ℕ) (s : api.Ser)
      → (api.put_arith k n s).0 ≡ z_ok
      → written (api.put_arith k n s).1 ≡ written s ++ arith_code k n
  pub put_string_appends :
      (t : List ℕ) (s : api.Ser)
      → (api.put_string t s).0 ≡ z_ok
      → written (api.put_string t s).1 ≡ written s ++ string_code t
  pub put_length_appends :
      (n : ℕ) (s : api.Ser)
      → (api.put_length n s).0 ≡ z_ok
      → written (api.put_length n s).1 ≡ written s ++ length_code n
  pub unread-from_bytes : (s : api.Ser) → unread (api.from_bytes (api.finish s)) ≡ written s
  pub get_arith_reads :
      (k : Arith) (n : ℕ) (rest : List ℕ) (d : api.De)
      → n < range k
      → unread d ≡ arith_code k n ++ rest
      → (d' : api.De) × (api.get_arith k d ≡ ((z_ok, n), d')) × (unread d' ≡ rest)
  pub get_string_reads :
      (t rest : List ℕ) (d : api.De)
      → unread d ≡ string_code t ++ rest
      → (d' : api.De) × (api.get_string d ≡ ((z_ok, t), d')) × (unread d' ≡ rest)
  pub get_length_reads :
      (n : ℕ) (rest : List ℕ) (d : api.De)
      → n < size_range
      → unread d ≡ length_code n ++ rest
      → (d' : api.De) × (api.get_length d ≡ ((z_ok, n), d')) × (unread d' ≡ rest)
  pub is_done_at_end : (d : api.De) → unread d ≡ [] → api.is_done d ≡ true
  pub is_done_before_end : (d : api.De) → unread d ≢ [] → api.is_done d ≡ false
