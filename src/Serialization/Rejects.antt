-- ===== src/Serialization/Rejects.antt =====
-- The payloads that `deserialize` refuses although their first bytes can be read.
use zenoh_cpp.Base.{
  ℕ, ◌≡◌, ◌≢◌, refl, sym, ◌∙◌, ap, List, [], ◌++◌, true, false, Option, none, some, arith, not,
  ◌==◌, ◌<◌,
}
use zenoh_cpp.Result.{
  ZResult, z_edeserialize, M, pure, ◌>>◌, result_check, succeeded, locally, fails_with,
}
use zenoh_cpp.Result.Inversion.{bind_step, bind_threw}
use zenoh_cpp.Serialization.{Ty, Value, array, sequence, replicate}
use zenoh_cpp.Serialization.Api.{Api, Format, size_range}
use zenoh_cpp.Serialization.Read.{
  Program, default, read, sequence_begin, read_fixed, wrong_size, check_done,
  deserializer_deserialize, deserialize,
}
use zenoh_cpp.Serialization.Typing.{HasType}
use zenoh_cpp.Serialization.Encoding.{encode}
use zenoh_cpp.Serialization.Reads.{Clean, unset, fine, succeeded-Clean, sequence_begin-Reads}
use zenoh_cpp.Serialization.RoundTrip.{read-encode}

module _ (api : Api) (format : Format api) (p : Program) where
  open format use {unread, length_code}

  check_done_trailing :
      (err : Option ZResult) (d : api.De)
      → Clean err
      → unread d ≢ []
      → check_done api p err d ≡ fails_with z_edeserialize tt err d
  unfolding check_done result_check succeeded
  check_done_trailing none d unset more = rw (format.is_done_before_end d more)
  check_done_trailing (some e) d fine more = rw (format.is_done_before_end d more)

  -- If `err` is null, or `*err` is Z_OK before the call, a payload with bytes behind the encoding of a
  -- value of the type is refused with Z_EDESERIALIZE, thrown or written to `*err`.
  pub deserialize_trailing :
      (t : Ty) (v : Value) (rest : List ℕ) (b : api.Payload) (err : Option ZResult)
      → HasType p t v
      → Clean err
      → rest ≢ []
      → unread (api.from_bytes b) ≡ encode api format v ++ rest
      → deserialize api p t b err tt ≡ fails_with z_edeserialize v err tt
  unfolding deserialize deserializer_deserialize
  deserialize_trailing t v rest b err h c more u =
      let (d, e, u') = read-encode api format p t v h err rest (api.from_bytes b) c u in
      ap (locally (λ x d'. x) tt) (
        bind_step (deserializer_deserialize api p t) _ (bind_step (read api p t) _ e refl)
          (end err d c (check_done_trailing err d c (λ k. more (sym u' ∙ k)))))
      ∙ seen err d c
    where
      rest_of : M api.De Value
      rest_of = do check_done api p; pure v

      end :
          (err : Option ZResult) (d : api.De)
          → Clean err
          → check_done api p err d ≡ fails_with z_edeserialize tt err d
          → rest_of err d ≡ fails_with z_edeserialize v err d
      end none d unset e = bind_threw (check_done api p) _ e
      end (some e₀) d fine e = bind_step (check_done api p) _ e refl

      seen :
          (err : Option ZResult) (d : api.De)
          → Clean err
          → locally (λ (x : Value) (d' : api.De). x) tt (fails_with z_edeserialize v err d)
            ≡ fails_with z_edeserialize v err tt
      seen none d unset = refl
      seen (some e₀) d fine = refl

  wrong_size_fails :
      (n : ℕ) (blank : Value) (err : Option ZResult) (d : api.De)
      → wrong_size api p n blank err d
        ≡ fails_with z_edeserialize (false, sequence (replicate n blank)) err d
  unfolding wrong_size result_check
  wrong_size_fails n blank none d = refl
  wrong_size_fails n blank (some e) d = refl

  -- If `err` is null, or `*err` is Z_OK before the call, an array is refused when the payload holds a sequence of another length, whatever its elements
  -- are: nothing behind the length is read, and every element keeps its default.
  pub read_array_wrong_size :
      (n m : ℕ) (t : Ty) (rest : List ℕ) (d : api.De) (err : Option ZResult)
      → Clean err
      → m < size_range
      → m ≢ n
      → unread d ≡ length_code m ++ rest
      → (d' : api.De) × (read api p (array n t) err d
          ≡ fails_with z_edeserialize (false, sequence (replicate n (default p t))) err d')
        × (unread d' ≡ rest)
  unfolding read read_fixed
  read_array_wrong_size n m t rest d err c fits ne u =
      let (d', e, u') = sequence_begin-Reads api format p m fits err rest d c u in
      let differs : (not (m == n) ≡ true) = ground arith in
      (
        d',
        bind_step (sequence_begin api p) _ e (
            bind_step succeeded _ (succeeded-Clean err d' c)
              (rw differs (wrong_size_fails n (default p t) err d'))),
        u',
      )
