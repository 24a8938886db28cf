-- ===== src/Serialization/Write.antt =====
-- include/zenoh/api/ext/serialization.hxx, the writing half: Serializer, the overloads of
-- __zenoh_serialize_with_serializer, and `serialize`.
use zenoh_cpp.Base.{ℕ, List, Bool, true}
use zenoh_cpp.Result.{M, pure, ◌>>=◌, ◌>>◌, c_call, result_check, succeeded, and_then, locally}
use zenoh_cpp.Serialization.{
  Arith, Value, Values, number, text, fields, couple, sequence, nil, cons, length,
}
use zenoh_cpp.Serialization.Api.{Api}

module _ (api : Api) where
  open api use {Ser, Payload, empty, finish, put_arith, put_string, put_length}

  -- __ZENOH_SERIALIZE_ARITHMETIC
  unfoldable pub write_arith : Arith → ℕ → M Ser Bool
  write_arith k n = do code ← c_call (put_arith k n); result_check code; succeeded

  unfoldable pub write_string : List ℕ → M Ser Bool
  write_string t = do code ← c_call (put_string t); result_check code; succeeded

  -- The head of __serialize_sequence_with_serializer.
  unfoldable pub write_length : ℕ → M Ser Bool
  write_length n = do code ← c_call (put_length n); result_check code; succeeded

  -- serialize_with_serializer, which picks the overload. `write_all` is the fold of a tuple over
  -- `&&` and the loop over a container, which returns at the first element that fails.
  unfoldable mutual
    pub write : Value → M Ser Bool
    write (number k n) = write_arith k n
    write (text t) = write_string t
    write (fields vs) = write_all vs
    write (couple x y) = and_then (write x) (write y)
    write (sequence vs) = and_then (write_length (length vs)) (write_all vs)

    pub write_all : Values → M Ser Bool
    write_all nil = pure true
    write_all (cons v vs) = and_then (write v) (write_all vs)

  -- Serializer::serialize
  unfoldable pub serializer_serialize : Value → M Ser (Unit {0})
  unfolding write
  serializer_serialize v = do write v; pure tt

  -- `serialize`: the serializer is a local variable, and has no state outside the call.
  unfoldable pub serialize : Value → M (Unit {0}) Payload
  unfolding serializer_serialize
  serialize v err s = locally (λ done ser. finish ser) s (serializer_serialize v err empty)
