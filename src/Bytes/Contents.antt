-- ===== src/Bytes/Contents.antt =====
-- What a payload holds: the conversions return it, whichever constructor made it.
use zenoh_cpp.Base.{
  length, take, replicate, length-replicate, take-length, ℕ, ◌≡◌, refl, ap, ◌∙◌, List, [], ◌∷◌,
}
use zenoh_cpp.Bytes.{
  OwnedBuffer, BytesApi, Heap, take_over, take_pointer, of_vector, of_string, of_moved, of_pointer,
  overwrite, as_vector, as_string,
}

-- What the C functions promise of the bytes that a payload holds, and of those that a reader has left.
pub record BytesContract (api : BytesApi) : Type 0 where
  pub content : api.Payload → List ℕ
  pub rest : api.Reader → List ℕ
  pub copy_content : (bs : List ℕ) → content (api.z_bytes_copy_from_buf bs) ≡ bs
  pub string_content : (bs : List ℕ) → content (api.z_bytes_copy_from_string bs) ≡ bs
  pub from_buf_content :
      (o : OwnedBuffer) (bs : List ℕ) → content (api.z_bytes_from_buf o bs) ≡ take o.len bs
  pub len_content : (p : api.Payload) → api.z_bytes_len p ≡ length (content p)
  pub reader_rest : (p : api.Payload) → rest (api.z_bytes_get_reader p) ≡ content p
  pub reads_rest : (n : ℕ) (r : api.Reader) → (api.z_bytes_reader_read n r).0 ≡ take n (rest r)

overwrite-replicate : (bs : List ℕ) → overwrite (replicate (length bs) 0) bs ≡ bs
overwrite-replicate [] = refl
overwrite-replicate (b ∷ bs) = ap (λ l. b ∷ l) (overwrite-replicate bs)

module _ (api : BytesApi) (contract : BytesContract api) where
  open contract use {content}

  pub as_vector-content : (p : api.Payload) → as_vector api p ≡ content p
  unfolding as_vector
  as_vector-content p =
      rw
        (
          contract.reads_rest, contract.reader_rest, contract.len_content, length-replicate,
          take-length,
        )
        (overwrite-replicate (content p))

  as_string-as_vector : (p : api.Payload) → as_string api p ≡ as_vector api p
  unfolding as_string as_vector
  as_string-as_vector p = refl

  -- A payload made of a vector or a string, by copying or by taking it over, is converted back to the
  -- same bytes, and one made of a pointer and a length to the first `len` bytes at the pointer.
  pub as_vector-of :
      {U : Type 0} (bs : List ℕ) (h : Heap U) (ptr len : ℕ) (deleter : ℕ → U → U)
      → (as_vector api (of_vector api bs) ≡ bs)
        × (as_string api (of_string api bs) ≡ bs)
        × (as_vector api (of_moved api bs h).0 ≡ bs)
        × (as_string api (of_moved api bs h).0 ≡ bs)
        × (as_vector api (of_pointer api ptr bs len deleter h).0 ≡ take len bs)
  unfolding of_vector of_string of_moved of_pointer take_over take_pointer
  as_vector-of bs h ptr len deleter =
      let moved = contract.from_buf_content (take_over bs h).0 bs ∙ take-length bs in
      (
        as_vector-content _ ∙ contract.copy_content bs,
        as_string-as_vector _ ∙ as_vector-content _ ∙ contract.string_content bs,
        as_vector-content _ ∙ moved,
        as_string-as_vector _ ∙ as_vector-content _ ∙ moved,
        as_vector-content _ ∙ contract.from_buf_content (take_pointer ptr len deleter h).0 bs,
      )
