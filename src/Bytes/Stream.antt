-- ===== src/Bytes/Stream.antt =====
-- Bytes::Writer and Bytes::SliceIterator.
use zenoh_cpp.Base.{ℕ, zero, suc, List, [], ◌∷◌, Option, none, some}
use zenoh_cpp.Result.{ZResult, M, pure, ◌>>=◌, ◌>>◌, c_call, result_check}
use zenoh_cpp.Bytes.{BytesApi}

-- The C functions of a writer and of an iterator over the slices of a payload; a slice is its bytes.
pub record StreamApi (api : BytesApi) : Type 1 where
  pub Writer : Type 0
  pub SliceIterator : Type 0
  pub z_bytes_writer_empty : Writer
  pub z_bytes_writer_write_all : List ℕ → Writer → ZResult × Writer
  pub z_bytes_writer_append : api.Payload → Writer → ZResult × Writer
  pub z_bytes_writer_finish : Writer → api.Payload
  pub z_bytes_get_slice_iterator : api.Payload → SliceIterator
  -- The slice, if it returns true.
  pub z_bytes_slice_iterator_next : SliceIterator → Option (List ℕ) × SliceIterator

module _ (api : BytesApi) (stream : StreamApi api) where
  open stream use {
    Writer, SliceIterator, z_bytes_writer_empty, z_bytes_writer_write_all, z_bytes_writer_append,
    z_bytes_writer_finish, z_bytes_get_slice_iterator, z_bytes_slice_iterator_next,
  }

  -- Writer(), write_all, append and finish
  unfoldable pub new_writer : Writer
  new_writer = z_bytes_writer_empty

  unfoldable pub write_all : List ℕ → M Writer (Unit {0})
  unfolding result_check
  write_all src = do res ← c_call (z_bytes_writer_write_all src); result_check res

  unfoldable pub append : api.Payload → M Writer (Unit {0})
  unfolding result_check
  append data_ = do res ← c_call (z_bytes_writer_append data_); result_check res

  unfoldable pub finish : Writer → api.Payload
  finish w = z_bytes_writer_finish w

  -- Bytes::slice_iter, and SliceIterator::next
  unfoldable pub slice_iter : api.Payload → SliceIterator
  slice_iter p = z_bytes_get_slice_iterator p

  unfoldable pub next : SliceIterator → Option (List ℕ) × SliceIterator
  next it = z_bytes_slice_iterator_next it

  -- What a program writes: bytes, or a payload to append.
  pub data Piece : Type 0 where
    raw : List ℕ → Piece
    payload : api.Payload → Piece

  unfoldable pub write_piece : Piece → M Writer (Unit {0})
  unfolding write_all append
  write_piece (raw bs) = write_all bs
  write_piece (payload p) = append p

  unfoldable pub write_pieces : List Piece → M Writer (Unit {0})
  unfolding write_piece
  write_pieces [] = pure tt
  write_pieces (x ∷ xs) = do write_piece x; write_pieces xs

  -- The slices that `n` calls of `next` return.
  unfoldable pub take_slices : ℕ → SliceIterator → List (List ℕ)
  unfolding next
  take_slices zero it = []
  take_slices (suc n) it =
      let rest = take_slices n (next it).1 in elim (next it).0 [ none ↦ [] | some s ↦ s ∷ rest ]
