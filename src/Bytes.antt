-- ===== src/Bytes.antt =====
-- include/zenoh/api/bytes.hxx: Bytes, its constructors that copy and those that take over a buffer, its
-- conversions, and the Droppable of detail/closures.hxx that frees the buffer.
pub mod Contents
pub mod Release
pub mod Stream
pub mod Written
mod Tests
use zenoh_cpp.Base.{
  length, take, replicate, ℕ, zero, suc, ◌≡◌, List, [], ◌∷◌, Option, none, some, ◌==◌,
  if◌then◌else◌,
}

-- A pointer and a length handed to C with the function that drops the data.
pub record OwnedBuffer : Type 0 where
  pub data_at : ℕ
  pub len : ℕ
  pub context : ℕ

-- The C functions of a payload: `Payload` is z_owned_bytes_t and `Reader` z_bytes_reader_t. The bytes
-- of z_bytes_from_buf are those at its pointer.
pub record BytesApi : Type 1 where
  pub Payload : Type 0
  pub Reader : Type 0
  pub z_bytes_copy_from_buf : List ℕ → Payload
  pub z_bytes_copy_from_string : List ℕ → Payload
  pub z_bytes_from_buf : OwnedBuffer → List ℕ → Payload
  pub z_bytes_len : Payload → ℕ
  pub z_bytes_get_reader : Payload → Reader
  -- The bytes that it writes to the destination, at most as many as asked for.
  pub z_bytes_reader_read : ℕ → Reader → List ℕ × Reader

-- The lambdas that the constructors hand to Droppable: `delete p`, or `del(p)`.
pub data Drop (U : Type 0) : Type 0 where
  deletes : ℕ → Drop U
  calls_deleter : (ℕ → U → U) → ℕ → Drop U

-- The C++ program: its own state, and the buffers and the Droppable objects that `new` made.
pub record Heap (U : Type 0) : Type 0 where
  pub user : U
  pub next : ℕ
  pub buffers : ℕ → Option (List ℕ)
  pub droppables : ℕ → Option (Drop U)

abbrev pub set : {A : Type 0} → (ℕ → Option A) → ℕ → Option A → ℕ → Option A
set f a x b = if a == b then x else f b

module _ {U : Type 0} where
  -- Droppable::into_context
  unfoldable pub droppable_into_context : Drop U → Heap U → ℕ × Heap U
  droppable_into_context d h =
      (h.next, record h { next = suc h.next; droppables = set h.droppables h.next (some d) })

  -- Droppable::drop; a second `delete` of a buffer is undefined, `none`.
  unfoldable pub run_drop : Drop U → Heap U → Option (Heap U)
  run_drop (deletes p) h = elim (h.buffers p) [
    | none ↦ none
    | some bs ↦ some (record h { buffers = set h.buffers p none })
  ]
  run_drop (calls_deleter del p) h = some (record h { user = del p h.user })

  -- _zenoh_drop_with_context
  unfoldable pub drop_with_context : ℕ → Heap U → Option (Heap U)
  unfolding run_drop
  drop_with_context context h = elim (h.droppables context) [
    | none ↦ none
    | some d ↦ elim (run_drop d h) [
      | none ↦ none
      | some h' ↦ some (record h' { droppables = set h'.droppables context none })
    ]
  ]

  -- `new std::vector(std::move(v))` or `new std::string(..)`, and the Droppable that deletes it. One
  -- address stands for the object and for its characters, which live and end together.
  unfoldable pub take_over : List ℕ → Heap U → OwnedBuffer × Heap U
  unfolding droppable_into_context
  take_over v h =
      let ptr = h.next in
      let h₁ = record h { next = suc h.next; buffers = set h.buffers ptr (some v) } in
      let (context, h₂) = droppable_into_context (deletes ptr) h₁ in
      (record { data_at = ptr; len = length v; context = context }, h₂)

  -- The same for a pointer with a deleter.
  unfoldable pub take_pointer : (ptr len : ℕ) → (ℕ → U → U) → Heap U → OwnedBuffer × Heap U
  unfolding droppable_into_context
  take_pointer ptr len deleter h =
      let (context, h₁) = droppable_into_context (calls_deleter deleter ptr) h in
      (record { data_at = ptr; len = len; context = context }, h₁)

-- What the first bytes of a destination become.
abbrev pub overwrite : List ℕ → List ℕ → List ℕ
overwrite dst [] = dst
overwrite [] (b ∷ bs) = []
overwrite (d ∷ dst) (b ∷ bs) = b ∷ overwrite dst bs

module _ (api : BytesApi) where
  open api use {
    Payload, z_bytes_copy_from_buf, z_bytes_copy_from_string, z_bytes_from_buf, z_bytes_len,
    z_bytes_get_reader, z_bytes_reader_read,
  }

  -- Bytes(const std::vector<uint8_t>&), Bytes(std::string_view)
  unfoldable pub of_vector : List ℕ → Payload
  of_vector v = z_bytes_copy_from_buf v

  unfoldable pub of_string : List ℕ → Payload
  of_string s = z_bytes_copy_from_string s

  -- Bytes(std::vector<uint8_t>&&), Bytes(std::string&&)
  unfoldable pub of_moved : {U : Type 0} → List ℕ → Heap U → Payload × Heap U
  unfolding take_over
  of_moved v h = let (o, h') = take_over v h in (z_bytes_from_buf o v, h')

  -- Bytes(uint8_t* ptr, size_t len, Deleter deleter), with the bytes at `ptr`.
  unfoldable pub of_pointer :
      {U : Type 0} → (ptr : ℕ) → List ℕ → (len : ℕ) → (ℕ → U → U) → Heap U → Payload × Heap U
  unfolding take_pointer
  of_pointer ptr at_ptr len deleter h =
      let (o, h') = take_pointer ptr len deleter h in (z_bytes_from_buf o at_ptr, h')

  -- Bytes::as_vector and Bytes::as_string: a zeroed buffer of the payload's size, which a reader fills.
  unfoldable pub as_vector : Payload → List ℕ
  as_vector p =
      let v = replicate (z_bytes_len p) 0 in
      overwrite v (z_bytes_reader_read (length v) (z_bytes_get_reader p)).0

  unfoldable pub as_string : Payload → List ℕ
  as_string p =
      let s = replicate (z_bytes_len p) 0 in
      overwrite s (z_bytes_reader_read (length s) (z_bytes_get_reader p)).0
