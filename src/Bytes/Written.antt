-- ===== src/Bytes/Written.antt =====
-- What a writer has written is what a payload holds, whole or slice by slice.
use zenoh_cpp.Base.{
  sym, ap, ◌∙◌, ℕ, suc, ◌≡◌, ◌⊎◌, refl, List, [], ◌∷◌, ◌++◌, append_assoc, append-nil, true, false,
  Option, none, some, length, Bool-cases, inl, inr,
}
use zenoh_cpp.Result.{ZResult, is_ok, Run, returned, threw, ◌>>=◌, result_check}
use zenoh_cpp.Bytes.{BytesApi, as_vector}
use zenoh_cpp.Bytes.Contents.{BytesContract, as_vector-content}
use zenoh_cpp.Bytes.Stream.{
  StreamApi, new_writer, write_all, append, finish, slice_iter, next, Piece, raw, payload,
  write_piece, write_pieces, take_slices,
}

abbrev pub concat_all : List (List ℕ) → List ℕ
concat_all [] = []
concat_all (bs ∷ rest) = bs ++ concat_all rest

abbrev pub first_of : List (List ℕ) → Option (List ℕ)
first_of [] = none
first_of (bs ∷ rest) = some bs

abbrev pub rest_of : List (List ℕ) → List (List ℕ)
rest_of [] = []
rest_of (bs ∷ rest) = rest

-- What the C functions promise: a write or an append that succeeds adds the bytes behind those that
-- are written, a finished payload holds what was written, and an iterator goes through slices that
-- make up the content.
pub record StreamContract (api : BytesApi) (bytes : BytesContract api) (stream : StreamApi api)
    : Type 0 where
  pub written : stream.Writer → List ℕ
  pub slices : stream.SliceIterator → List (List ℕ)
  pub empty_written : written stream.z_bytes_writer_empty ≡ []
  pub write_all_written :
      (bs : List ℕ) (w : stream.Writer)
      → is_ok (stream.z_bytes_writer_write_all bs w).0 ≡ true
      → written (stream.z_bytes_writer_write_all bs w).1 ≡ written w ++ bs
  pub append_written :
      (p : api.Payload) (w : stream.Writer)
      → is_ok (stream.z_bytes_writer_append p w).0 ≡ true
      → written (stream.z_bytes_writer_append p w).1 ≡ written w ++ bytes.content p
  pub finish_content :
      (w : stream.Writer) → bytes.content (stream.z_bytes_writer_finish w) ≡ written w
  pub iterator_slices :
      (p : api.Payload)
      → concat_all (slices (stream.z_bytes_get_slice_iterator p)) ≡ bytes.content p
  pub next_slice :
      (it : stream.SliceIterator) → (stream.z_bytes_slice_iterator_next it).0 ≡ first_of (slices it)
  pub next_rest :
      (it : stream.SliceIterator)
      → slices (stream.z_bytes_slice_iterator_next it).1 ≡ rest_of (slices it)

module _ (api : BytesApi) (bytes : BytesContract api) (stream : StreamApi api)
    (contract : StreamContract api bytes stream) where
  open stream use {Writer, SliceIterator}
  open contract use {written, slices}

  abbrev pub bytes_of : Piece api stream → List ℕ
  bytes_of (raw bs) = bs
  bytes_of (payload p) = bytes.content p

  abbrev pub all_bytes : List (Piece api stream) → List ℕ
  all_bytes [] = []
  all_bytes (x ∷ xs) = bytes_of x ++ all_bytes xs

  -- What the C function for a piece answers.
  abbrev pub piece_answer : Piece api stream → Writer → ZResult × Writer
  piece_answer (raw bs) w = stream.z_bytes_writer_write_all bs w
  piece_answer (payload p) w = stream.z_bytes_writer_append p w

  -- A run that ends in the exception of the first piece that the C library refuses: the pieces before
  -- it are written, and those behind it are not tried.
  abbrev pub Refused : List (Piece api stream) → Writer → Run Writer (Unit {0}) → Type 0
  Refused xs w r =
      (done : List (Piece api stream)) × (x : Piece api stream) × (later : List (Piece api stream))
      × (w₁ : Writer) × (xs ≡ done ++ x ∷ later)
      × (written w₁ ≡ written w ++ all_bytes done)
      × (is_ok (piece_answer x w₁).0 ≡ false)
      × (r ≡ threw (piece_answer x w₁).0 (piece_answer x w₁).1)

  -- A run that has written the pieces, or was refused.
  abbrev Writes : List (Piece api stream) → Writer → Run Writer (Unit {0}) → Type 0
  Writes xs w r =
      ((w' : Writer) × (r ≡ returned tt none w') × (written w' ≡ written w ++ all_bytes xs))
      ⊎ Refused xs w r

  write_piece-answer :
      (x : Piece api stream) (w : Writer)
      → write_piece api stream x none w
        ≡ result_check (piece_answer x w).0 none (piece_answer x w).1
  unfolding write_piece write_all append
  write_piece-answer (raw bs) w = refl
  write_piece-answer (payload p) w = refl

  piece_written :
      (x : Piece api stream) (w : Writer)
      → is_ok (piece_answer x w).0 ≡ true
      → written (piece_answer x w).1 ≡ written w ++ bytes_of x
  piece_written (raw bs) w good = contract.write_all_written bs w good
  piece_written (payload p) w good = contract.append_written p w good

  write_pieces-Writes :
      (xs : List (Piece api stream)) (w : Writer) → Writes xs w (write_pieces api stream xs none w)
  unfolding write_pieces result_check
  write_pieces-Writes [] w = inl (w, refl, sym (append-nil (written w)))
  write_pieces-Writes (x ∷ xs) w = elim (Bool-cases (is_ok (piece_answer x w).0)) [
    | inr bad ↦ inr (
      [],
      x,
      xs,
      w,
      refl,
      sym (append-nil (written w)),
      bad,
      rw (◌>>=◌, write_piece-answer x w, result_check, bad) refl,
    )
    | inl good ↦
        let joined : (ys : List (Piece api stream))
            → written (piece_answer x w).1 ++ all_bytes ys ≡ written w ++ all_bytes (x ∷ ys) =
          λ ys.
            ap (λ bs. bs ++ all_bytes ys) (piece_written x w good)
            ∙ append_assoc (written w) (bytes_of x) (all_bytes ys) in
        elim (write_pieces-Writes xs (piece_answer x w).1) [
          | inr (done, y, later, w₁, split, before, bad, e) ↦ inr (
            x ∷ done,
            y,
            later,
            w₁,
            ap (λ ys. x ∷ ys) split,
            before ∙ joined done,
            bad,
            rw (◌>>=◌, write_piece-answer x w, result_check, good) e,
          )
          | inl (w', e, added) ↦
              inl (w', rw (◌>>=◌, write_piece-answer x w, result_check, good) e, added ∙ joined xs)
        ]
  ]

  take_slices-slices :
      (l : List (List ℕ)) (it : SliceIterator)
      → slices it ≡ l
      → take_slices api stream (suc (length l)) it ≡ l
  unfolding take_slices next
  take_slices-slices [] it e = rw (take_slices, next, contract.next_slice it, e) refl
  take_slices-slices (bs ∷ l) it e =
      let rest =
        take_slices-slices l (next api stream it).1 (contract.next_rest it ∙ ap rest_of e) in
      rw (take_slices, next, contract.next_slice it, e) (ap (λ t. bs ∷ t) rest)

  slices_of-content :
      (p : api.Payload)
      → let it = slice_iter api stream p in
        concat_all (take_slices api stream (suc (length (slices it))) it) ≡ bytes.content p
  unfolding slice_iter
  slices_of-content p =
      ap concat_all
        (take_slices-slices (slices (slice_iter api stream p)) (slice_iter api stream p) refl)
      ∙ contract.iterator_slices p

  -- A program that writes pieces to a new writer, each of them bytes or a payload to append, has a
  -- writer whose finished payload holds all the pieces in order: as_vector returns them, and so do the
  -- slices that the iterator returns until it ends, put together. Or it gets the code of the C function
  -- for the first piece that this refuses, when those before it are written.
  pub write_pieces-content :
      (xs : List (Piece api stream))
      → ((w : Writer) × (write_pieces api stream xs none (new_writer api stream)
            ≡ returned tt none w)
          × (as_vector api (finish api stream w) ≡ all_bytes xs)
          × (let it = slice_iter api stream (finish api stream w) in
              concat_all (take_slices api stream (suc (length (slices it))) it) ≡ all_bytes xs))
        ⊎ ((done : List (Piece api stream)) × (x : Piece api stream) × (later : List
              (Piece api stream))
            × (w₁ : Writer) × (xs ≡ done ++ x ∷ later)
            × (written w₁ ≡ all_bytes done)
            × (is_ok (piece_answer x w₁).0 ≡ false)
            × (write_pieces api stream xs none (new_writer api stream)
                ≡ threw (piece_answer x w₁).0 (piece_answer x w₁).1))
  unfolding new_writer finish
  write_pieces-content xs =
      let fresh : (bs : List ℕ) → written (new_writer api stream) ++ bs ≡ bs =
        λ bs. ap (λ l. l ++ bs) contract.empty_written in
      elim (write_pieces-Writes xs (new_writer api stream)) [
        | inr (done, x, later, w₁, split, before, bad, e) ↦
            inr (done, x, later, w₁, split, before ∙ fresh (all_bytes done), bad, e)
        | inl (w, e, added) ↦
            let holds : bytes.content (finish api stream w) ≡ all_bytes xs =
              contract.finish_content w ∙ added ∙ fresh (all_bytes xs) in
            inl (w, e, as_vector-content api bytes _ ∙ holds, slices_of-content _ ∙ holds)
      ]
