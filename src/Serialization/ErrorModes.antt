-- ===== src/Serialization/ErrorModes.antt =====
-- The two ways to report an error agree for every call of serialization.hxx: what throws a
-- ZException with `err` null writes the same code with `*err` equal to Z_OK, and leaves the same state.
use zenoh_cpp.Base.{
  ℕ, zero, suc, ◌≡◌, refl, Bool, true, false, none, some, not, ltb, ◌&&◌, ◌==◌, if◌then◌else◌,
  Bool-cases, inl, inr,
}
use zenoh_cpp.Result.{
  ZResult, z_ok, z_edeserialize, is_ok, Run, returned, M, pure, ◌>>=◌, ◌>>◌, result_check,
  succeeded, locally,
}
use zenoh_cpp.Result.Modes.{
  ModesAgree, Agrees, same, reported, raised, IsTrue, IsFalse, Any, FirstTrue, FirstFalse,
  pure-ModesAgree, bind-ModesAgree, checked-ModesAgree, checked_value-ModesAgree,
  and_then-ModesAgree, succeeded-ModesAgree,
}
use zenoh_cpp.Result.Inversion.{bind_step}
use zenoh_cpp.Serialization.{
  Ty, Tys, Value, Values, arith_ty, string, tuple, pair, vector, deque, set, unordered_set, array,
  map, unordered_map, no_types, also_type, number, text, fields, couple, sequence, nil, cons,
  length, replicate, whole, first,
}
use zenoh_cpp.Serialization.Api.{Api}
use zenoh_cpp.Serialization.Containers.{push_back, insert_sorted, insert_unordered}
use zenoh_cpp.Serialization.Write.{write_arith, write_string, write_length, write, write_all}
use zenoh_cpp.Serialization.Read.{
  Program, default, defaults, read_elements, read_array, read_arith, read_string, sequence_begin,
  reserve, no_reserve, read_container, wrong_size, fixed_elements, read_fixed, read_pair, read,
  read_all, deserializer_deserialize, check_done, deserialize,
}

module _ (api : Api) where
  abbrev WriteAgrees : M api.Ser Bool → Type 0
  WriteAgrees = ModesAgree IsTrue IsFalse

  write_length-Agrees : (n : ℕ) → WriteAgrees (write_length api n)
  unfolding write_length
  write_length-Agrees n = checked-ModesAgree (api.put_length n)

  mutual
    unfolding write write_arith write_string

    write-Agrees : (v : Value) → WriteAgrees (write api v)
    write-Agrees (number k n) = checked-ModesAgree (api.put_arith k n)
    write-Agrees (text t) = checked-ModesAgree (api.put_string t)
    write-Agrees (fields vs) = write_all-Agrees vs
    write-Agrees (couple x y) =
        and_then-ModesAgree (write api x) (write api y) (write-Agrees x) (write-Agrees y)
    write-Agrees (sequence vs) =
        and_then-ModesAgree (write_length api (length vs)) (write_all api vs)
          (write_length-Agrees (length vs)) (write_all-Agrees vs)

    write_all-Agrees : (vs : Values) → WriteAgrees (write_all api vs)
    write_all-Agrees nil = pure-ModesAgree IsTrue IsFalse true refl
    write_all-Agrees (cons v vs) =
        and_then-ModesAgree (write api v) (write_all api vs) (write-Agrees v) (write_all-Agrees vs)

  -- For every value and serializer: either both modes return true with the same serializer and no
  -- error, or one throws a code other than Z_OK where the other returns false and writes that code.
  pub write-ModesAgree : (v : Value) → ModesAgree IsTrue IsFalse (write api v)
  write-ModesAgree v = write-Agrees v

-- No value.
abbrev Never : {A : Type 0} → A → Type 0
Never a = ⊥

-- A reader's result is its bool and the object that it filled.
abbrev ReadAgrees : {S A : Type 0} → M S (Bool × A) → Type 0
ReadAgrees = ModesAgree FirstTrue FirstFalse

module _ {S A B : Type 0} where
  -- A reader, and what is done with the object when it succeeded, or else.
  abbrev on_success : M S (Bool × A) → (A → M S (Bool × B)) → (A → B) → M S (Bool × B)
  on_success m good bad = do (ok, a) ← m; elim ok [ true ↦ good a | false ↦ pure (false, bad a) ]

  on_success-Agrees :
      (m : M S (Bool × A)) (good : A → M S (Bool × B)) (bad : A → B)
      → ReadAgrees m
      → ((a : A) → ReadAgrees (good a))
      → ReadAgrees (on_success m good bad)
  on_success-Agrees m good bad hm hg =
      bind-ModesAgree FirstTrue FirstFalse FirstTrue FirstFalse (branch) m hm next
        (λ r c s h ne. ((false, bad r.1), refl, skip r c s h))
    where
      branch : Bool × A → M S (Bool × B)
      branch (ok, a) = elim ok [ true ↦ good a | false ↦ pure (false, bad a) ]

      next : (r : Bool × A) → FirstTrue r → ReadAgrees (branch r)
      next (true, a) h = hg a
      next (false, a) h = absurd (cc)

      skip :
          (r : Bool × A) (c : ZResult) (s : S)
          → FirstFalse r
          → branch r (some c) s ≡ returned (false, bad r.1) (some c) s
      skip (true, a) c s h = absurd (cc)
      skip (false, a) c s h = refl

module _ {S : Type 0} where
  abbrev finish_with : {A : Type 0} → A → M S (Bool × A)
  finish_with {A} a = do ok ← succeeded; pure {A = Bool × A} (ok, a)

  finish_with-Agrees : {A : Type 0} (a : A) → ReadAgrees (finish_with a)
  finish_with-Agrees a =
      bind-ModesAgree IsTrue IsFalse FirstTrue FirstFalse _ succeeded succeeded-ModesAgree
        (λ ok h. pure-ModesAgree FirstTrue FirstFalse (ok, a) h) (λ ok c s h ne. ((ok, a), h, refl))

  abbrev then_map : {A B : Type 0} → M S (Bool × A) → (A → B) → M S (Bool × B)
  then_map {A} {B} m g = do (ok, a) ← m; pure {A = Bool × B} (ok, g a)

  then_map-Agrees :
      {A B : Type 0} (m : M S (Bool × A)) (g : A → B) → ReadAgrees m → ReadAgrees (then_map m g)
  then_map-Agrees m g h =
      bind-ModesAgree FirstTrue FirstFalse FirstTrue FirstFalse _ m h
        (λ r k. pure-ModesAgree FirstTrue FirstFalse (r.0, g r.1) k)
        (λ r c s k ne. ((r.0, g r.1), k, refl))

  read_elements-Agrees :
      (element : M S (Bool × Value)) (ins : Value → Values → Values) (n : ℕ) (acc : Values)
      → ReadAgrees element
      → ReadAgrees (read_elements element ins n acc)
  unfolding read_elements
  read_elements-Agrees element ins zero acc h =
      pure-ModesAgree FirstTrue FirstFalse (true, acc) refl
  read_elements-Agrees element ins (suc n) acc h =
      on_success-Agrees element (λ v. read_elements element ins n (ins v acc)) (λ v. acc) h
        (λ v. read_elements-Agrees element ins n (ins v acc) h)

  read_array-Agrees :
      (element : M S (Bool × Value)) (blank : Value) (n : ℕ)
      → ReadAgrees element
      → ReadAgrees (read_array element blank n)
  unfolding read_array
  read_array-Agrees element blank zero h = pure-ModesAgree FirstTrue FirstFalse (true, nil) refl
  read_array-Agrees element blank (suc n) h =
      on_success-Agrees element (λ v. then_map (read_array element blank n) (cons v))
        (λ v. cons v (replicate n blank)) h
        (λ v.
          then_map-Agrees (read_array element blank n) (cons v)
            (read_array-Agrees element blank n h))

module _ (api : Api) (p : Program) where
  sequence_begin-Agrees : ReadAgrees (sequence_begin api p)
  unfolding sequence_begin
  sequence_begin-Agrees = checked_value-ModesAgree (λ n. n) api.get_length

  reserve-Agrees : (n : ℕ) → ModesAgree Any Never (reserve api p n)
  unfolding reserve
  reserve-Agrees n d = elim (Bool-cases (ltb p.max_size n)) [
    | inl much ↦ rw much (raised d)
    | inr room ↦ rw room (same tt d tt)
  ]

  no_reserve-Agrees : (n : ℕ) → ModesAgree Any Never (no_reserve api p n)
  no_reserve-Agrees n d = same tt d tt

  read_container-Agrees :
      (reserves : ℕ → M api.De (Unit {0})) (element : M api.De (Bool × Value))
      (ins : Value → Values → Values)
      → ((n : ℕ) → ModesAgree Any Never (reserves n))
      → ReadAgrees element
      → ReadAgrees (read_container api p reserves element ins)
  unfolding read_container
  read_container-Agrees reserves element ins hr h =
      on_success-Agrees (sequence_begin api p)
        (λ n. do
          reserves n
          on_success (read_elements element ins n nil) (λ vs. finish_with (sequence vs)) sequence)
        (λ n. sequence nil) sequence_begin-Agrees
        (λ n.
          bind-ModesAgree Any Never FirstTrue FirstFalse _ (reserves n) (hr n)
            (λ u k.
              on_success-Agrees (read_elements element ins n nil) (λ vs. finish_with (sequence vs))
                sequence (read_elements-Agrees element ins n nil h)
                (λ vs. finish_with-Agrees (sequence vs)))
            (λ u c s bad ne. elim bad [ ]))

  read_pair-Agrees :
      (x y : M api.De (Bool × Value)) (blank : Value)
      → ReadAgrees x
      → ReadAgrees y
      → ReadAgrees (read_pair api p x y blank)
  unfolding read_pair
  read_pair-Agrees x y blank hx hy =
      on_success-Agrees x (λ a. then_map y (couple a)) (λ a. couple a blank) hx
        (λ a. then_map-Agrees y (couple a) hy)

  wrong_size-Agrees : (n : ℕ) (blank : Value) → ReadAgrees (wrong_size api p n blank)
  unfolding wrong_size result_check
  wrong_size-Agrees n blank s =
      reported z_edeserialize (false, sequence (replicate n blank)) s refl refl

  fixed_elements-Agrees :
      (n : ℕ) (element : M api.De (Bool × Value)) (blank : Value)
      → ReadAgrees element
      → ReadAgrees (fixed_elements api p n element blank)
  unfolding fixed_elements
  fixed_elements-Agrees n element blank h =
      on_success-Agrees (read_array element blank n) (λ vs. finish_with (sequence vs)) sequence
        (read_array-Agrees element blank n h) (λ vs. finish_with-Agrees (sequence vs))

  read_fixed-Agrees :
      (n : ℕ) (element : M api.De (Bool × Value)) (blank : Value)
      → ReadAgrees element
      → ReadAgrees (read_fixed api p n element blank)
  unfolding read_fixed succeeded
  read_fixed-Agrees n element blank h =
      on_success-Agrees (sequence_begin api p) after_length (λ m. sequence (replicate n blank))
        sequence_begin-Agrees (λ m s. by_size (not (m == n) && true) m s)
    where
      choose : Bool → ℕ → M api.De (Bool × Value)
      choose wrong m = elim wrong [
        | true ↦ wrong_size api p n blank
        | false ↦ fixed_elements api p m element blank
      ]

      after_length : ℕ → M api.De (Bool × Value)
      after_length m = do no_error ← succeeded; choose (not (m == n) && no_error) m

      by_size : (wrong : Bool) (m : ℕ) → ReadAgrees (choose wrong m)
      by_size true m = wrong_size-Agrees n blank
      by_size false m = fixed_elements-Agrees m element blank h

  mutual
    unfolding read read_arith read_string

    read-Agrees : (t : Ty) → ReadAgrees (read api p t)
    read-Agrees (arith_ty k) = checked_value-ModesAgree (number k) (api.get_arith k)
    read-Agrees string = checked_value-ModesAgree text api.get_string
    read-Agrees (tuple ts) = then_map-Agrees (read_all api p ts) fields (read_all-Agrees ts)
    read-Agrees (pair a b) =
        read_pair-Agrees (read api p a) (read api p b) (default p b) (read-Agrees a) (read-Agrees b)
    read-Agrees (array n t) = read_fixed-Agrees n (read api p t) (default p t) (read-Agrees t)
    read-Agrees (vector t) =
        read_container-Agrees (reserve api p) (read api p t) push_back reserve-Agrees
          (read-Agrees t)
    read-Agrees (deque t) =
        read_container-Agrees (no_reserve api p) (read api p t) push_back no_reserve-Agrees
          (read-Agrees t)
    read-Agrees (set t) =
        read_container-Agrees (no_reserve api p) (read api p t) (insert_sorted p.less whole)
          no_reserve-Agrees (read-Agrees t)
    read-Agrees (unordered_set t) =
        read_container-Agrees (no_reserve api p) (read api p t) (insert_unordered p.key_equal whole)
          no_reserve-Agrees (read-Agrees t)
    read-Agrees (map a b) =
        read_container-Agrees (no_reserve api p)
          (read_pair api p (read api p a) (read api p b) (default p b)) (insert_sorted p.less first)
          no_reserve-Agrees
          (read_pair-Agrees (read api p a) (read api p b) (default p b) (read-Agrees a)
            (read-Agrees b))
    read-Agrees (unordered_map a b) =
        read_container-Agrees (no_reserve api p)
          (read_pair api p (read api p a) (read api p b) (default p b))
          (insert_unordered p.key_equal first) no_reserve-Agrees
          (read_pair-Agrees (read api p a) (read api p b) (default p b) (read-Agrees a)
            (read-Agrees b))

    read_all-Agrees : (ts : Tys) → ReadAgrees (read_all api p ts)
    read_all-Agrees no_types = pure-ModesAgree FirstTrue FirstFalse (true, nil) refl
    read_all-Agrees (also_type t ts) =
        on_success-Agrees (read api p t) (λ v. then_map (read_all api p ts) (cons v))
          (λ v. cons v (defaults p ts)) (read-Agrees t)
          (λ v. then_map-Agrees (read_all api p ts) (cons v) (read_all-Agrees ts))

  check_done-Agrees : ModesAgree Any Any (check_done api p)
  unfolding check_done succeeded result_check
  check_done-Agrees d = by_done (api.is_done d)
    where
      end : Bool → M api.De (Unit {0})
      end done = if not done && true then result_check z_edeserialize else pure tt

      by_done : (done : Bool) → Agrees Any Any (end done none d) (end done (some z_ok) d)
      by_done true = same tt d tt
      by_done false = reported z_edeserialize tt d refl tt

  -- After an error the rest of the payload is not looked at.
  check_done_error :
      (c : ZResult) (d : api.De)
      → is_ok c ≡ false
      → check_done api p (some c) d ≡ returned tt (some c) d
  unfolding check_done succeeded
  check_done_error c d ne =
      rw ne (elim (Bool-cases (api.is_done d)) [ inl e ↦ rw e | inr e ↦ rw e ])

  object_only : (t : Ty) → ModesAgree Any Any (deserializer_deserialize api p t)
  unfolding deserializer_deserialize
  object_only t =
      bind-ModesAgree FirstTrue FirstFalse Any Any _ (read api p t) (read-Agrees t)
        (λ r h. pure-ModesAgree Any Any r.1 tt) (λ r c s h ne. (r.1, tt, refl))

  Agrees-locally :
      {S A B : Type 0} (g : A → S → B) {r r' : Run S A}
      → Agrees Any Any r r'
      → Agrees {S = Unit {0}} Any Any (locally g tt r) (locally g tt r')
  Agrees-locally g (same a s good) = same (g a s) tt tt
  Agrees-locally g (raised s) = raised tt
  Agrees-locally g (reported c a s ne bad) = reported c (g a s) tt ne tt

  -- `read` at every type: a failure is the same code in both modes, with the deserializer at the
  -- same place, unless a vector throws std::length_error in both.
  pub read-ModesAgree : (t : Ty) → ModesAgree FirstTrue FirstFalse (read api p t)
  read-ModesAgree t = read-Agrees t

  -- `deserialize` at every type and payload, with `err` null and with `*err` equal to Z_OK before the
  -- call: either both ways return the same object, and `*err` is still Z_OK; or the one throws the code
  -- that the other writes to `*err` and returns; or both throw std::length_error, which is the
  -- exception of a vector that can never be as long as the payload says.
  pub deserialize-ModesAgree :
      (t : Ty) (b : api.Payload) → ModesAgree Any Any (deserialize api p t b)
  unfolding deserialize
  deserialize-ModesAgree t b caller =
      Agrees-locally (λ v d. v)
        (bind-ModesAgree Any Any Any Any _ (deserializer_deserialize api p t) (object_only t)
          (λ v h.
            bind-ModesAgree Any Any Any Any _ (check_done api p) check_done-Agrees
              (λ u k. pure-ModesAgree Any Any v tt) (λ u c s k ne. (v, tt, refl)))
          (λ v c s h ne. (v, tt, bind_step (check_done api p) _ (check_done_error c s ne) refl))
          (api.from_bytes b))
