-- ===== src/Serialization/Containers.antt =====
-- How the loops of __zenoh_deserialize_with_deserializer put one more element into a container:
-- push_back of a vector or deque, insert of a set, map, unordered_set or unordered_map.
use zenoh_cpp.Base.{◌≡◌, refl, sym, ◌∙◌, ap, Bool, true, false, if◌then◌else◌}
use zenoh_cpp.Serialization.{Value, Values, nil, cons, append}

abbrev pub push_back : Value → Values → Values
push_back v vs = append vs (cons v nil)

-- std::set and std::map over the order `less` of their Compare: an element that is equivalent to
-- one present is not inserted.
unfoldable pub insert_sorted : (Value → Value → Bool) → (Value → Value) → Value → Values → Values
insert_sorted less key v nil = cons v nil
insert_sorted less key v (cons x xs) =
    if less (key v) (key x)
    then cons v (cons x xs)
    else if less (key x) (key v)
    then cons x (insert_sorted less key v xs)
    else cons x xs

-- std::unordered_set and std::unordered_map over their key_equal `eq`. Their iteration order is
-- unspecified; here it is that of insertion.
unfoldable pub insert_unordered : (Value → Value → Bool) → (Value → Value) → Value → Values → Values
insert_unordered eq key v nil = cons v nil
insert_unordered eq key v (cons x xs) =
    if eq (key v) (key x) then cons x xs else cons x (insert_unordered eq key v xs)

-- Every element of a sequence, and every pair of an earlier and a later element.
abbrev pub All : (Value → Type 0) → Values → Type 0
All P nil = Unit {0}
All P (cons x xs) = P x × All P xs

abbrev pub Pairwise : (Value → Value → Type 0) → Values → Type 0
Pairwise R nil = Unit {0}
Pairwise R (cons x xs) = All (R x) xs × Pairwise R xs

-- The elements put in one after another.
unfoldable pub insert_all : (Value → Values → Values) → Values → Values → Values
insert_all ins acc nil = acc
insert_all ins acc (cons v vs) = insert_all ins (ins v acc) vs

-- What an ordered container guarantees of its iteration order, and an unordered one.
abbrev pub Before : (Value → Value → Bool) → (Value → Value) → Value → Value → Type 0
Before less key x y = (less (key x) (key y) ≡ true) × (less (key y) (key x) ≡ false)

abbrev pub Differs : (Value → Value → Bool) → (Value → Value) → Value → Value → Type 0
Differs eq key x y = eq (key y) (key x) ≡ false

append-nil : (xs : Values) → append xs nil ≡ xs
append-nil nil = refl
append-nil (cons x xs) = ap (cons x) (append-nil xs)

append_assoc : (xs ys zs : Values) → append (append xs ys) zs ≡ append xs (append ys zs)
append_assoc nil ys zs = refl
append_assoc (cons x xs) ys zs = ap (cons x) (append_assoc xs ys zs)

All-append : (P : Value → Type 0) (xs ys : Values) → All P xs → All P ys → All P (append xs ys)
All-append P nil ys hx hy = hy
All-append P (cons x xs) ys hx hy = (hx.0, All-append P xs ys hx.1 hy)

module _ (ins : Value → Values → Values) (R : Value → Value → Type 0) where
  -- An element that comes after all those present goes to the end.
  abbrev pub AppendsLast : Type 0
  AppendsLast = (v : Value) (acc : Values) → All (λ x. R x v) acc → ins v acc ≡ push_back v acc

  grow :
      (v : Value) (acc vs : Values)
      → All (R v) vs
      → All (λ y. All (λ x. R x y) acc) vs
      → All (λ y. All (λ x. R x y) (push_back v acc)) vs
  grow v acc nil h k = tt
  grow v acc (cons y vs) h k =
      (All-append (λ x. R x y) acc (cons v nil) k.0 (h.0, tt), grow v acc vs h.1 k.1)

  insert_all-append :
      AppendsLast
      → (acc vs : Values) → All (λ y. All (λ x. R x y) acc) vs
      → Pairwise R vs
      → insert_all ins acc vs ≡ append acc vs
  unfolding insert_all
  insert_all-append last acc nil h p = sym (append-nil acc)
  insert_all-append last acc (cons v vs) h p = rw (last v acc h.0) (
      insert_all-append last (push_back v acc) vs (grow v acc vs p.0 h.1) p.1
      ∙ append_assoc acc (cons v nil) vs)

  none_before : (vs : Values) → All (λ y. All (λ x. R x y) nil) vs
  none_before nil = tt
  none_before (cons y vs) = (tt, none_before vs)

  -- Inserting the elements in iteration order rebuilds the container.
  pub insert_all_rebuilds : AppendsLast → (vs : Values) → Pairwise R vs → insert_all ins nil vs ≡ vs
  insert_all_rebuilds last vs p = insert_all-append last nil vs (none_before vs) p

pub push_back_last : AppendsLast push_back (λ x y. Unit {0})
push_back_last v acc h = refl

pub insert_sorted_last :
    (less : Value → Value → Bool) (key : Value → Value)
    → AppendsLast (insert_sorted less key) (Before less key)
unfolding insert_sorted
insert_sorted_last less key v nil h = refl
insert_sorted_last less key v (cons x xs) h =
    rw (h.0.1, h.0.0) (ap (cons x) (insert_sorted_last less key v xs h.1))

pub insert_unordered_last :
    (eq : Value → Value → Bool) (key : Value → Value)
    → AppendsLast (insert_unordered eq key) (Differs eq key)
unfolding insert_unordered
insert_unordered_last eq key v nil h = refl
insert_unordered_last eq key v (cons x xs) h =
    rw h.0 (ap (cons x) (insert_unordered_last eq key v xs h.1))

no_order : (v : Value) (vs : Values) → All (λ y. Unit {0}) vs
no_order v nil = tt
no_order v (cons x xs) = (tt, no_order v xs)

-- A vector or deque puts no condition on the order of its elements.
pub any_order : (vs : Values) → Pairwise (λ x y. Unit {0}) vs
any_order nil = tt
any_order (cons x xs) = (no_order x xs, any_order xs)
