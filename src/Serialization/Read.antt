-- ===== src/Serialization/Read.antt =====
-- include/zenoh/api/ext/serialization.hxx, the reading half: Deserializer, the overloads of
-- __zenoh_deserialize_with_deserializer, and `deserialize`.
-- The object that a call reads into is freshly constructed wherever the code makes one: `T t;` in
-- Deserializer::deserialize, `T v;` in the loops, and the parts of a fresh tuple, pair or array. So
-- a call returns its bool with the object as it then stands, also where it was filled in part.
use zenoh_cpp.Base.{ℕ, zero, suc, [], not, Bool, true, false, ltb, ◌==◌, if◌then◌else◌, ◌&&◌}
use zenoh_cpp.Result.{
  z_edeserialize, length_error, M, returned, threw, pure, ◌>>=◌, ◌>>◌, c_call, result_check,
  succeeded, locally,
}
use zenoh_cpp.Serialization.{
  Arith, Ty, Tys, Value, Values, arith_ty, string, tuple, pair, vector, deque, set, unordered_set,
  array, map, unordered_map, no_types, also_type, number, text, fields, couple, sequence, nil, cons,
  replicate, whole, first,
}
use zenoh_cpp.Serialization.Api.{Api}
use zenoh_cpp.Serialization.Containers.{push_back, insert_sorted, insert_unordered}

-- What the C++ program brings: the Compare of its ordered containers, the key_equal of its unordered
-- ones, what a variable of an arithmetic type holds before it is written, and what max_size of its
-- vectors returns. C++ sets such a member of a fresh pair or tuple to 0; here it may hold anything.
pub record Program : Type 0 where
  pub less : Value → Value → Bool
  pub key_equal : Value → Value → Bool
  pub blank : Arith → ℕ
  pub max_size : ℕ

module _ (p : Program) where
  -- A default-constructed object.
  unfoldable mutual
    pub default : Ty → Value
    default (arith_ty k) = number k (p.blank k)
    default string = text []
    default (tuple ts) = fields (defaults ts)
    default (pair a b) = couple (default a) (default b)
    default (array n t) = sequence (replicate n (default t))
    default (vector t) = sequence nil
    default (deque t) = sequence nil
    default (set t) = sequence nil
    default (unordered_set t) = sequence nil
    default (map k v) = sequence nil
    default (unordered_map k v) = sequence nil

    pub defaults : Tys → Values
    defaults no_types = nil
    defaults (also_type t ts) = cons (default t) (defaults ts)

-- The loop of a container: read an element, put it in.
unfoldable pub read_elements :
    {S : Type 0} → M S (Bool × Value) → (Value → Values → Values) → ℕ → Values → M S (Bool × Values)
read_elements element ins zero acc = pure (true, acc)
read_elements element ins (suc n) acc = do
  (ok, v) ← element
  elim ok [ true ↦ read_elements element ins n (ins v acc) | false ↦ pure (false, acc) ]

-- The loop of std::array: element i is read into value[i]; the rest of the array is as it was.
unfoldable pub read_array : {S : Type 0} → M S (Bool × Value) → Value → ℕ → M S (Bool × Values)
read_array element blank zero = pure (true, nil)
read_array element blank (suc n) = do
  (ok, v) ← element
  elim ok [
    | true ↦ do (ok', vs) ← read_array element blank n; pure (ok', cons v vs)
    | false ↦ pure (false, cons v (replicate n blank))
  ]

module _ (api : Api) (p : Program) where
  open api use {De, Payload, from_bytes, is_done, get_arith, get_string, get_length}

  -- __ZENOH_DESERIALIZE_ARITHMETIC
  unfoldable pub read_arith : Arith → M De (Bool × Value)
  read_arith k = do
    (code, n) ← c_call (get_arith k)
    result_check code
    ok ← succeeded
    pure (ok, number k n)

  unfoldable pub read_string : M De (Bool × Value)
  read_string = do
    (code, t) ← c_call get_string
    result_check code
    ok ← succeeded
    pure (ok, text t)

  -- _ZENOH_DESERIALIZE_SEQUENCE_BEGIN: the length, and whether the code goes on.
  unfoldable pub sequence_begin : M De (Bool × ℕ)
  sequence_begin = do (code, n) ← c_call get_length; result_check code; ok ← succeeded; pure (ok, n)

  -- `value.reserve(value.size() + len)` of an empty vector. That memory runs out is not modelled.
  unfoldable pub reserve : ℕ → M De (Unit {0})
  reserve n err d = if ltb p.max_size n then threw length_error d else returned tt err d

  -- The other containers do not reserve.
  abbrev pub no_reserve : ℕ → M De (Unit {0})
  no_reserve n = pure tt

  -- The body that the overloads for vector, deque, set, unordered_set, map and unordered_map share,
  -- with _ZENOH_DESERIALIZE_SEQUENCE_END.
  unfoldable pub read_container :
      (ℕ → M De (Unit {0})) → M De (Bool × Value) → (Value → Values → Values) → M De (Bool × Value)
  unfolding sequence_begin read_elements
  read_container reserves element ins = do
    (ok, n) ← sequence_begin
    elim ok [
      | false ↦ pure (false, sequence nil)
      | true ↦ do
        reserves n
        (ok', vs) ← read_elements element ins n nil
        elim ok' [
          | false ↦ pure (false, sequence vs)
          | true ↦ do ok'' ← succeeded; pure (ok'', sequence vs)
        ]
    ]

  -- The overload for std::array<T, N>: a length other than N is an error.
  unfoldable pub wrong_size : ℕ → Value → M De (Bool × Value)
  wrong_size size blank = do
    result_check z_edeserialize
    pure (false, sequence (replicate size blank))

  unfoldable pub fixed_elements : ℕ → M De (Bool × Value) → Value → M De (Bool × Value)
  unfolding read_array
  fixed_elements n element blank = do
    (ok, vs) ← read_array element blank n
    elim ok [
      | false ↦ pure (false, sequence vs)
      | true ↦ do ok' ← succeeded; pure (ok', sequence vs)
    ]

  unfoldable pub read_fixed : ℕ → M De (Bool × Value) → Value → M De (Bool × Value)
  unfolding sequence_begin wrong_size fixed_elements
  read_fixed size element blank = do
    (ok, n) ← sequence_begin
    elim ok [
      | false ↦ pure (false, sequence (replicate size blank))
      | true ↦ do
        no_error ← succeeded
        elim (not (n == size) && no_error) [
          | true ↦ wrong_size size blank
          | false ↦ fixed_elements n element blank
        ]
    ]

  -- The overload for std::pair, which also reads the elements of a map.
  unfoldable pub read_pair : M De (Bool × Value) → M De (Bool × Value) → Value → M De (Bool × Value)
  read_pair x y blank = do
    (ok, a) ← x
    elim ok [
      | true ↦ do (ok', b) ← y; pure (ok', couple a b)
      | false ↦ pure (false, couple a blank)
    ]

  -- deserialize_with_deserializer, which picks the overload; `read_all` is the fold of a tuple.
  unfoldable mutual
    pub read : Ty → M De (Bool × Value)
    read (arith_ty k) = read_arith k
    read string = read_string
    read (tuple ts) = do (ok, vs) ← read_all ts; pure (ok, fields vs)
    read (pair a b) = read_pair (read a) (read b) (default p b)
    read (array n t) = read_fixed n (read t) (default p t)
    read (vector t) = read_container reserve (read t) push_back
    read (deque t) = read_container no_reserve (read t) push_back
    read (set t) = read_container no_reserve (read t) (insert_sorted p.less whole)
    read (unordered_set t) = read_container no_reserve (read t) (insert_unordered p.key_equal whole)
    read (map k v) =
        read_container no_reserve (read_pair (read k) (read v) (default p v))
          (insert_sorted p.less first)
    read (unordered_map k v) =
        read_container no_reserve (read_pair (read k) (read v) (default p v))
          (insert_unordered p.key_equal first)

    pub read_all : Tys → M De (Bool × Values)
    read_all no_types = pure (true, nil)
    read_all (also_type t ts) = do
      (ok, v) ← read t
      elim ok [
        | true ↦ do (ok', vs) ← read_all ts; pure (ok', cons v vs)
        | false ↦ pure (false, cons v (defaults p ts))
      ]

  -- Deserializer::deserialize
  unfoldable pub deserializer_deserialize : Ty → M De Value
  unfolding read
  deserializer_deserialize t = do (ok, v) ← read t; pure v

  -- The test at the end of `deserialize`: all of the payload is used.
  unfoldable pub check_done : M De (Unit {0})
  check_done = do
    done ← c_call (λ d. (is_done d, d))
    ok ← succeeded
    if not done && ok then result_check z_edeserialize else pure tt

  -- `deserialize`: the deserializer is a local variable.
  unfoldable pub deserialize : Ty → Payload → M (Unit {0}) Value
  unfolding deserializer_deserialize check_done
  deserialize t b err s =
      locally (λ v d. v) s
        ((do v ← deserializer_deserialize t; check_done; pure v) err (from_bytes b))
