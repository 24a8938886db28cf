-- ===== src/Shm/Histories.antt =====
-- Histories of C++ clients and providers: C++ makes them, and the C library calls what it was handed,
-- in any order, and lets go of it. Beside each step stands what the virtual functions make of it.
use zenoh_cpp.Base.{ℕ, List, [], ◌∷◌, Bool, Option, none, some}
use zenoh_cpp.Shm.Objects.{
  ShmTypes, Heap, Object, client_object, backend_object, CppShmClient, CppShmProviderBackend,
  CSegment, CClient, store_at, make_unique, shm_client,
}
use zenoh_cpp.Shm.Backend.{CBackend, cpp_shm_provider}

module _ (t : ShmTypes) where
  open t use {User, MemoryLayout, ChunkDescriptor, ChunkAllocResult}

  -- What the C library calls on a provider.
  pub data BackendCall : Type 0 where
    allocs : MemoryLayout → BackendCall
    frees : ChunkDescriptor → BackendCall
    defragments asks_available : BackendCall
    lays_out : MemoryLayout → BackendCall
    asks_protocol : BackendCall

  -- An event; the address is that of the object that a context stands for.
  pub data Event : Type 0 where
    makes_client : CppShmClient t → Event
    makes_provider : (threadsafe : Bool) → CppShmProviderBackend t → Event
    attaches : (client segment_id : ℕ) → Event
    asks_client : ℕ → Event
    maps : (segment chunk : ℕ) → Event
    calls_backend : ℕ → BackendCall → Event
    deletes : ℕ → Event

  -- What the C library gets from a call.
  pub data Answer : Type 0 where
    number : ℕ → Answer
    chunk : ChunkAllocResult → Answer
    layout : MemoryLayout → Answer
    nothing : Answer

  -- What the library keeps: structs with a context.
  pub data Held : Type 0 where
    held_segment : CSegment t → Held
    held_client : CClient t → Held
    held_backend : CBackend t → Held

  -- `held` has the structs of the library, by the address in their context.
  pub record State : Type 0 where
    pub heap : Heap t
    pub held : ℕ → Option Held
    pub answers : List Answer

  -- The library puts down an answer.
  abbrev answered : Answer → Heap t → State → State
  answered a h s = record s { heap = h; answers = a ∷ s.answers }

  abbrev pub number_of : Option (ℕ × Heap t) → Option (Answer × Heap t)
  number_of none = none
  number_of (some (n, h)) = some (number n, h)

  -- A call of one of the callbacks of a provider.
  unfoldable pub call_backend : CBackend t → BackendCall → Heap t → Option (Answer × Heap t)
  call_backend b (allocs l) h = elim (b.alloc_fn l b.context h) [
    | none ↦ none
    | some (r, h') ↦ some (chunk r, h')
  ]
  call_backend b (frees c) h = elim (b.free_fn c b.context h) [
    | none ↦ none
    | some h' ↦ some (nothing, h')
  ]
  call_backend b defragments h = number_of (b.defragment_fn b.context h)
  call_backend b asks_available h = number_of (b.available_fn b.context h)
  call_backend b (lays_out l) h = elim (b.layout_for_fn l b.context h) [
    | none ↦ none
    | some (r, h') ↦ some (layout r, h')
  ]
  call_backend b asks_protocol h = number_of (b.id_fn b.context h)

  abbrev keep_answer : Option (Answer × Heap t) → State → Option State
  keep_answer none s = none
  keep_answer (some (a, h)) s = some (answered a h s)

  -- The library keeps the segment that attach_fn gave it.
  abbrev pub keep_segment : Option (Option (CSegment t) × Heap t) → State → Option State
  keep_segment none s = none
  keep_segment (some (none, h)) s = some (record s { heap = h })
  keep_segment (some (some seg, h)) s =
      some (record s { heap = h; held = store_at t s.held seg.context (some (held_segment seg)) })

  abbrev let_go : ℕ → Option (Heap t) → State → Option State
  let_go a none s = none
  let_go a (some h) s = some (record s { heap = h; held = store_at t s.held a none })

  -- The library calls only what it holds, by the functions of its kind.
  abbrev attach_by : Option Held → ℕ → State → Option State
  attach_by none i s = some s
  attach_by (some (held_segment g)) i s = some s
  attach_by (some (held_client c)) i s = keep_segment (c.attach_fn i c.context s.heap) s
  attach_by (some (held_backend b)) i s = some s

  abbrev ask_client_by : Option Held → State → Option State
  ask_client_by none s = some s
  ask_client_by (some (held_segment g)) s = some s
  ask_client_by (some (held_client c)) s = keep_answer (number_of (c.id_fn c.context s.heap)) s
  ask_client_by (some (held_backend b)) s = some s

  abbrev map_by : Option Held → ℕ → State → Option State
  map_by none i s = some s
  map_by (some (held_segment g)) i s = keep_answer (number_of (g.map_fn i g.context s.heap)) s
  map_by (some (held_client c)) i s = some s
  map_by (some (held_backend b)) i s = some s

  abbrev call_backend_by : Option Held → BackendCall → State → Option State
  call_backend_by none call s = some s
  call_backend_by (some (held_segment g)) call s = some s
  call_backend_by (some (held_client c)) call s = some s
  call_backend_by (some (held_backend b)) call s = keep_answer (call_backend b call s.heap) s

  abbrev delete_by : ℕ → Option Held → State → Option State
  delete_by a none s = some s
  delete_by a (some (held_segment g)) s = let_go a (g.delete_fn g.context s.heap) s
  delete_by a (some (held_client c)) s = let_go a (c.delete_fn c.context s.heap) s
  delete_by a (some (held_backend b)) s = let_go a (b.delete_fn b.context s.heap) s

  -- An object is made, and its struct handed to the library.
  abbrev hand_over : Object t → (ℕ → Held) → State → State
  hand_over o struct s =
      let (ptr, h) = make_unique t o s.heap in
      record s { heap = h; held = store_at t s.held ptr (some (struct ptr)) }

  -- One event; `none` is undefined behaviour.
  unfoldable pub event : Event → State → Option State
  unfolding make_unique shm_client cpp_shm_provider call_backend
  event (makes_client c) s =
      some (hand_over (client_object c) (λ ptr. held_client (shm_client t ptr)) s)
  event (makes_provider safe b) s =
      some (hand_over (backend_object b) (λ ptr. held_backend (cpp_shm_provider t safe ptr)) s)
  event (attaches a i) s = attach_by (s.held a) i s
  event (asks_client a) s = ask_client_by (s.held a) s
  event (maps a i) s = map_by (s.held a) i s
  event (calls_backend a call) s = call_backend_by (s.held a) call s
  event (deletes a) s = delete_by a (s.held a) s

  unfoldable pub history : List Event → State → Option State
  unfolding event
  history [] s = some s
  history (e ∷ es) s = elim (event e s) [ none ↦ none | some s' ↦ history es s' ]
