-- ===== src/Serialization/Typing.antt =====
-- The values of a C++ type: numbers in range, containers whose iteration order is one that the
-- container can have, arrays of their size, and vectors that are no longer than a vector can be.
use zenoh_cpp.Base.{ℕ, ◌≡◌, ◌<◌, ◌≤◌, List}
use zenoh_cpp.Serialization.{
  Arith, Ty, Tys, Value, Values, arith_ty, string, tuple, pair, vector, deque, set, unordered_set,
  array, map, unordered_map, no_types, also_type, number, text, fields, couple, sequence, nil, cons,
  length, whole, first,
}
use zenoh_cpp.Serialization.Api.{range, size_range}
use zenoh_cpp.Serialization.Containers.{Pairwise, Before, Differs}
use zenoh_cpp.Serialization.Read.{Program}

abbrev pub Fits : Values → Type 0
Fits vs = length vs < size_range

mutual
  pub data HasType (p : Program) : Ty → Value → Type 0 where
    is_number : (k : Arith) (n : ℕ) → n < range k → HasType p (arith_ty k) (number k n)
    is_text : (t : List ℕ) → HasType p string (text t)
    is_tuple : {ts : Tys} {vs : Values} → HaveTypes p ts vs → HasType p (tuple ts) (fields vs)
    is_pair :
        {a b : Ty} {x y : Value} → HasType p a x → HasType p b y → HasType p (pair a b) (couple x y)
    is_vector :
        {t : Ty} {vs : Values}
        → Fits vs
        → length vs ≤ p.max_size
        → Each p t vs
        → HasType p (vector t) (sequence vs)
    is_deque : {t : Ty} {vs : Values} → Fits vs → Each p t vs → HasType p (deque t) (sequence vs)
    is_array :
        {n : ℕ} {t : Ty} {vs : Values}
        → Fits vs
        → Each p t vs
        → length vs ≡ n
        → HasType p (array n t) (sequence vs)
    is_set :
        {t : Ty} {vs : Values}
        → Fits vs
        → Each p t vs
        → Pairwise (Before p.less whole) vs
        → HasType p (set t) (sequence vs)
    is_unordered_set :
        {t : Ty} {vs : Values}
        → Fits vs
        → Each p t vs
        → Pairwise (Differs p.key_equal whole) vs
        → HasType p (unordered_set t) (sequence vs)
    is_map :
        {a b : Ty} {vs : Values}
        → Fits vs
        → Each p (pair a b) vs
        → Pairwise (Before p.less first) vs
        → HasType p (map a b) (sequence vs)
    is_unordered_map :
        {a b : Ty} {vs : Values}
        → Fits vs
        → Each p (pair a b) vs
        → Pairwise (Differs p.key_equal first) vs
        → HasType p (unordered_map a b) (sequence vs)

  pub data HaveTypes (p : Program) : Tys → Values → Type 0 where
    no_fields : HaveTypes p no_types nil
    also_field :
        {t : Ty} {ts : Tys} {v : Value} {vs : Values}
        → HasType p t v
        → HaveTypes p ts vs
        → HaveTypes p (also_type t ts) (cons v vs)

  pub data Each (p : Program) : Ty → Values → Type 0 where
    no_element : {t : Ty} → Each p t nil
    also_element :
        {t : Ty} {v : Value} {vs : Values} → HasType p t v → Each p t vs → Each p t (cons v vs)
