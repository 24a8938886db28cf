-- ===== src/Bytes/Release.antt =====
-- The memory behind a payload that took over a buffer: it stays until the C library drops the payload,
-- and is freed once.
use zenoh_cpp.Base.{ℕ, suc, ◌≤◌, ◌≡◌, refl, List, none, some, arith}
use zenoh_cpp.Bytes.{
  Heap, Drop, set, droppable_into_context, run_drop, drop_with_context, take_over, take_pointer,
}

pub record IsFresh {U : Type 0} (h : Heap U) : Type 0 where
  pub no_buffer : (a : ℕ) → h.next ≤ a → h.buffers a ≡ none
  pub no_droppable : (a : ℕ) → h.next ≤ a → h.droppables a ≡ none

module _ {U : Type 0} where
  take_over_lem :
      (v : List ℕ) (h : Heap U)
      → IsFresh h
      → let (o, h') = take_over v h in
        (h'.buffers o.data_at ≡ some v)
        × ((q : Heap U) × (drop_with_context o.context h' ≡ some q)
            × (q.user ≡ h.user)
            × ((a : ℕ) → q.buffers a ≡ h.buffers a)
            × ((a : ℕ) → q.droppables a ≡ h.droppables a)
            × (drop_with_context o.context q ≡ none))
  unfolding take_over droppable_into_context drop_with_context run_drop
  take_over_lem v h fresh = (
    ground arith,
    (
      record h {
        next = suc (suc h.next);
        buffers = set (set h.buffers h.next (some v)) h.next none;
        droppables =
            set (set h.droppables (suc h.next) (some (Drop.deletes h.next))) (suc h.next) none;
      },
      ground arith,
      refl,
      (λ a. ground (arith, fresh.no_buffer a)),
      (λ a. ground (arith, fresh.no_droppable a)),
      ground arith,
    ),
  )

  take_pointer_lem :
      (ptr len : ℕ) (deleter : ℕ → U → U) (h : Heap U)
      → IsFresh h
      → let (o, h') = take_pointer ptr len deleter h in
        (h'.user ≡ h.user)
        × ((q : Heap U) × (drop_with_context o.context h' ≡ some q)
            × (q.user ≡ deleter ptr h.user)
            × ((a : ℕ) → q.buffers a ≡ h.buffers a)
            × ((a : ℕ) → q.droppables a ≡ h.droppables a)
            × (drop_with_context o.context q ≡ none))
  unfolding take_pointer droppable_into_context drop_with_context run_drop
  take_pointer_lem ptr len deleter h fresh = (
    refl,
    (
      record h {
        user = deleter ptr h.user;
        next = suc h.next;
        droppables =
            set (set h.droppables h.next (some (Drop.calls_deleter deleter ptr))) h.next none;
      },
      ground arith,
      refl,
      (λ a. refl),
      (λ a. ground (arith, fresh.no_droppable a)),
      ground arith,
    ),
  )

  -- The constructors of Bytes that take memory over. Those of a vector or a string keep its bytes at the
  -- pointer that C gets; when C drops the data, the buffer and the Droppable are gone, every address
  -- of the heap holds what it held before, and the program's own state is untouched. The one with a
  -- deleter leaves the program's state as it is; when C drops the data, the deleter has run once, on
  -- the pointer, and the heap is as before. A second drop is undefined in either case.
  pub memory_released_once :
      (h : Heap U)
      → IsFresh h
      → ((v : List ℕ)
          → let (o, h') = take_over v h in
            (h'.buffers o.data_at ≡ some v)
            × ((q : Heap U) × (drop_with_context o.context h' ≡ some q)
                × (q.user ≡ h.user)
                × ((a : ℕ) → q.buffers a ≡ h.buffers a)
                × ((a : ℕ) → q.droppables a ≡ h.droppables a)
                × (drop_with_context o.context q ≡ none)))
        × ((ptr len : ℕ) (deleter : ℕ → U → U)
            → let (o, h') = take_pointer ptr len deleter h in
              (h'.user ≡ h.user)
              × ((q : Heap U) × (drop_with_context o.context h' ≡ some q)
                  × (q.user ≡ deleter ptr h.user)
                  × ((a : ℕ) → q.buffers a ≡ h.buffers a)
                  × ((a : ℕ) → q.droppables a ≡ h.droppables a)
                  × (drop_with_context o.context q ≡ none)))
  memory_released_once h fresh =
      ((λ v. take_over_lem v h fresh), λ ptr len deleter. take_pointer_lem ptr len deleter h fresh)
