-- ===== src/Bytes/Tests.antt =====
-- Payloads and readers as lists of bytes.
use zenoh_cpp.Base.{
  suc, ◌++◌, ◌⊎◌, append-nil, ap, false, length, take, drop, ℕ, ◌≡◌, refl, List, [], ◌∷◌, none,
  some,
}
use zenoh_cpp.Bytes.{
  BytesApi, Heap, take_over, take_pointer, of_vector, of_string, of_moved, of_pointer, as_vector,
  as_string, drop_with_context,
}
use zenoh_cpp.Bytes.Contents.{BytesContract, as_vector-of}
use zenoh_cpp.Bytes.Release.{IsFresh, memory_released_once}
use zenoh_cpp.Bytes.Stream.{
  StreamApi, Piece, raw, payload, new_writer, write_pieces, finish, slice_iter, take_slices,
}
use zenoh_cpp.Bytes.Written.{
  concat_all, first_of, rest_of, StreamContract, all_bytes, piece_answer, write_pieces-content,
}
use zenoh_cpp.Result.{z_ok, is_ok, returned, threw}

abbrev plain : BytesApi
plain = record {
  Payload = List ℕ;
  Reader = List ℕ;
  z_bytes_copy_from_buf = λ bs. bs;
  z_bytes_copy_from_string = λ bs. bs;
  z_bytes_from_buf = λ o bs. take o.len bs;
  z_bytes_len = length;
  z_bytes_get_reader = λ bs. bs;
  z_bytes_reader_read = λ n bs. (take n bs, drop n bs);
}

unfoldable plain-BytesContract : BytesContract plain
plain-BytesContract = record {
  content = λ bs. bs;
  rest = λ bs. bs;
  copy_content = λ bs. refl;
  string_content = λ bs. refl;
  from_buf_content = λ o bs. refl;
  len_content = λ p. refl;
  reader_rest = λ p. refl;
  reads_rest = λ n r. refl;
}

abbrev start : Heap (List ℕ)
start = record { user = []; next = 10; buffers = λ a. none; droppables = λ a. none }

start-IsFresh : IsFresh start
start-IsFresh = record { no_buffer = λ a h. refl; no_droppable = λ a h. refl }

abbrev deleter : ℕ → List ℕ → List ℕ
deleter p u = p ∷ u

as_vector-of_example :
    (as_vector plain (of_vector plain (1 ∷ 2 ∷ 3 ∷ [])) ≡ 1 ∷ 2 ∷ 3 ∷ [])
    × (as_string plain (of_string plain (1 ∷ 2 ∷ 3 ∷ [])) ≡ 1 ∷ 2 ∷ 3 ∷ [])
    × (as_vector plain (of_moved plain (1 ∷ 2 ∷ 3 ∷ []) start).0 ≡ 1 ∷ 2 ∷ 3 ∷ [])
    × (as_string plain (of_moved plain (1 ∷ 2 ∷ 3 ∷ []) start).0 ≡ 1 ∷ 2 ∷ 3 ∷ [])
    × (as_vector plain (of_pointer plain 5 (1 ∷ 2 ∷ 3 ∷ []) 2 deleter start).0 ≡ 1 ∷ 2 ∷ [])
as_vector-of_example = as_vector-of plain plain-BytesContract (1 ∷ 2 ∷ 3 ∷ []) start 5 2 deleter

memory_released_once_example :
    ((v : List ℕ)
      → let (o, h') = take_over v start in
        (h'.buffers o.data_at ≡ some v)
        × ((q : Heap (List ℕ)) × (drop_with_context o.context h' ≡ some q)
            × (q.user ≡ [])
            × ((a : ℕ) → q.buffers a ≡ none)
            × ((a : ℕ) → q.droppables a ≡ none)
            × (drop_with_context o.context q ≡ none)))
    × ((ptr len : ℕ) (del : ℕ → List ℕ → List ℕ)
        → let (o, h') = take_pointer ptr len del start in
          (h'.user ≡ [])
          × ((q : Heap (List ℕ)) × (drop_with_context o.context h' ≡ some q)
              × (q.user ≡ del ptr [])
              × ((a : ℕ) → q.buffers a ≡ none)
              × ((a : ℕ) → q.droppables a ≡ none)
              × (drop_with_context o.context q ≡ none)))
memory_released_once_example = memory_released_once start start-IsFresh

-- A writer keeps its bytes; a payload is one slice, and none if it is empty.
abbrev one_slice : List ℕ → List (List ℕ)
one_slice [] = []
one_slice (b ∷ bs) = (b ∷ bs) ∷ []

abbrev plain_stream : StreamApi plain
plain_stream = record {
  Writer = List ℕ;
  SliceIterator = List (List ℕ);
  z_bytes_writer_empty = [];
  z_bytes_writer_write_all = λ bs w. (z_ok, w ++ bs);
  z_bytes_writer_append = λ p w. (z_ok, w ++ p);
  z_bytes_writer_finish = λ w. w;
  z_bytes_get_slice_iterator = one_slice;
  z_bytes_slice_iterator_next = λ it. (first_of it, rest_of it);
}

one_slice-content : (p : List ℕ) → concat_all (one_slice p) ≡ p
one_slice-content [] = refl
one_slice-content (b ∷ bs) = ap (λ t. b ∷ t) (append-nil bs)

unfoldable plain_stream-Contract : StreamContract plain plain-BytesContract plain_stream
unfolding plain-BytesContract
plain_stream-Contract = record {
  written = λ w. w;
  slices = λ it. it;
  empty_written = refl;
  write_all_written = λ bs w h. refl;
  append_written = λ p w h. refl;
  finish_content = λ w. refl;
  iterator_slices = one_slice-content;
  next_slice = λ it. refl;
  next_rest = λ it. refl;
}

abbrev pieces : List (Piece plain plain_stream)
pieces = raw (1 ∷ 2 ∷ []) ∷ payload (3 ∷ []) ∷ raw [] ∷ []

write_pieces-content_example :
    ((w : List ℕ) × (write_pieces plain plain_stream pieces none (new_writer plain plain_stream)
        ≡ returned tt none w)
      × (as_vector plain (finish plain plain_stream w) ≡ 1 ∷ 2 ∷ 3 ∷ [])
      × (let it = slice_iter plain plain_stream (finish plain plain_stream w) in
          concat_all
            (take_slices plain plain_stream (suc (length (plain_stream-Contract.slices it))) it)
          ≡ 1 ∷ 2 ∷ 3 ∷ []))
    ⊎ ((done : List (Piece plain plain_stream)) × (x : Piece plain plain_stream) × (later : List
          (Piece plain plain_stream))
        × (w₁ : List ℕ) × (pieces ≡ done ++ x ∷ later)
        × (w₁ ≡ all_bytes plain plain-BytesContract plain_stream plain_stream-Contract done)
        × (is_ok (piece_answer plain plain-BytesContract plain_stream plain_stream-Contract x w₁).0
            ≡ false)
        × (write_pieces plain plain_stream pieces none (new_writer plain plain_stream)
            ≡ threw
                (piece_answer plain plain-BytesContract plain_stream plain_stream-Contract x w₁).0
                (piece_answer plain plain-BytesContract plain_stream plain_stream-Contract x w₁).1))
unfolding plain-BytesContract plain_stream-Contract
write_pieces-content_example =
    write_pieces-content plain plain-BytesContract plain_stream plain_stream-Contract pieces
