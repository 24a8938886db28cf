-- ===== src/Serialization.antt =====
-- include/zenoh/api/ext/serialization.hxx: the C++ types that can be serialized, and their values.
pub mod Api
pub mod Containers
pub mod Write
pub mod Read
pub mod Typing
pub mod Encoding
pub mod Reads
pub mod RoundTrip
pub mod Rejects
pub mod ErrorModes
pub mod Toy
mod Tests
use zenoh_cpp.Base.{ℕ, zero, suc, List}

-- The types of __ZENOH_SERIALIZE_ARITHMETIC and __ZENOH_DESERIALIZE_ARITHMETIC.
pub data Arith : Type 0 where
  uint8 uint16 uint32 uint64 int8 int16 int32 int64 float double bool : Arith

-- The type that a call of `deserialize<T>` is instantiated at.
mutual
  pub data Ty : Type 0 where
    arith_ty : Arith → Ty
    string : Ty
    tuple : Tys → Ty
    pair : Ty → Ty → Ty
    vector deque set unordered_set : Ty → Ty
    array : ℕ → Ty → Ty
    map unordered_map : Ty → Ty → Ty

  pub data Tys : Type 0 where
    no_types : Tys
    also_type : Ty → Tys → Tys

-- A number is its object representation, read as an unsigned number. A string (std::string,
-- std::string_view or const char*) is its bytes. A container of any kind is the sequence of its
-- elements from begin() to end(); the element of a map is a pair.
mutual
  pub data Value : Type 0 where
    number : Arith → ℕ → Value
    text : List ℕ → Value
    fields : Values → Value
    couple : Value → Value → Value
    sequence : Values → Value

  pub data Values : Type 0 where
    nil : Values
    cons : Value → Values → Values

-- `size()`
abbrev pub length : Values → ℕ
length nil = 0
length (cons v vs) = suc (length vs)

abbrev pub append : Values → Values → Values
append nil ys = ys
append (cons x xs) ys = cons x (append xs ys)

abbrev pub replicate : ℕ → Value → Values
replicate zero v = nil
replicate (suc n) v = cons v (replicate n v)

-- The part of an element by which a set (the element) or a map (its `first`) compares.
abbrev pub whole : Value → Value
whole v = v

abbrev pub first : Value → Value
first (couple k v) = k
first v = v
