-- ===== src/Shm/Objects.antt =====
-- include/zenoh/api/shm: the C++ backends of shared memory providers, the C++ clients and their
-- segments, behind the contexts that the C library keeps, and the extern "C" functions that it calls.
use zenoh_cpp.Base.{ℕ, suc, Option, none, some, ◌==◌, if◌then◌else◌}

-- The state of the C++ program, and the C types that the functions pass on.
pub record ShmTypes : Type 1 where
  pub User : Type 0
  pub MemoryLayout : Type 0
  pub ChunkDescriptor : Type 0
  pub ChunkAllocResult : Type 0

module _ (t : ShmTypes) where
  open t use {User, MemoryLayout, ChunkDescriptor, ChunkAllocResult}

  -- The classes of the C++ interfaces: their virtual functions, and the destructor. A method acts on
  -- the state of the program; one that is const reads it.
  pub record CppShmSegment : Type 0 where
    pub map : (chunk : ℕ) → User → ℕ × User
    pub on_delete : User → User

  pub record CppShmClient : Type 0 where
    pub attach : (segment_id : ℕ) → User → Option CppShmSegment × User
    pub id : User → ℕ
    pub on_delete : User → User

  pub record CppShmProviderBackend : Type 0 where
    pub alloc : MemoryLayout → User → ChunkAllocResult × User
    pub free : ChunkDescriptor → User → User
    pub defragment : User → ℕ × User
    pub available : User → ℕ
    pub layout_for : MemoryLayout → User → MemoryLayout × User
    pub id : User → ℕ
    pub on_delete : User → User

  pub data Object : Type 0 where
    segment_object : CppShmSegment → Object
    client_object : CppShmClient → Object
    backend_object : CppShmProviderBackend → Object

  -- The objects on the heap, by address.
  pub record Heap : Type 0 where
    pub user : User
    pub next : ℕ
    pub objects : ℕ → Option Object

  abbrev pub store_at {ℓ} : {A : Type ℓ} → (ℕ → Option A) → ℕ → Option A → ℕ → Option A
  store_at f a x b = if a == b then x else f b

  -- `new`, as std::make_unique does it.
  unfoldable pub make_unique : Object → Heap → ℕ × Heap
  make_unique o h =
      (h.next, record h { next = suc h.next; objects = store_at h.objects h.next (some o) })

  -- static_cast of a context; `none` is undefined behaviour, a dangling context or another class.
  abbrev pub as_segment : Option Object → Option CppShmSegment
  as_segment none = none
  as_segment (some (segment_object s)) = some s
  as_segment (some (client_object c)) = none
  as_segment (some (backend_object b)) = none

  abbrev pub as_client : Option Object → Option CppShmClient
  as_client none = none
  as_client (some (segment_object s)) = none
  as_client (some (client_object c)) = some c
  as_client (some (backend_object b)) = none

  abbrev pub as_backend : Option Object → Option CppShmProviderBackend
  as_backend none = none
  as_backend (some (segment_object s)) = none
  as_backend (some (client_object c)) = none
  as_backend (some (backend_object b)) = some b

  -- The virtual destructor runs, and the memory is free.
  abbrev pub delete_at : ℕ → (User → User) → Heap → Heap
  delete_at context on_delete h = record h {
    user = on_delete h.user;
    objects = store_at h.objects context none;
  }

  -- shm_segment.hxx
  unfoldable pub segment_map_fn : (chunk context : ℕ) → Heap → Option (ℕ × Heap)
  segment_map_fn chunk context h = elim (as_segment (h.objects context)) [
    | none ↦ none
    | some s ↦ some ((s.map chunk h.user).0, record h { user = (s.map chunk h.user).1 })
  ]

  unfoldable pub segment_drop_fn : ℕ → Heap → Option Heap
  segment_drop_fn context h = elim (as_segment (h.objects context)) [
    | none ↦ none
    | some s ↦ some (delete_at context s.on_delete h)
  ]

  -- z_shm_segment_t: a context, and function pointers.
  pub record CSegment : Type 0 where
    pub context : ℕ
    pub delete_fn : ℕ → Heap → Option Heap
    pub map_fn : (chunk context : ℕ) → Heap → Option (ℕ × Heap)

  -- shm_client.hxx: what attach_fn writes to *out_segment, and `none` where it returns false. The
  -- segment that `attach` returns is on the heap.
  unfoldable pub attached_segment : Option CppShmSegment × User → Heap → Option CSegment × Heap
  unfolding make_unique
  attached_segment (none, u) h = (none, record h { user = u })
  attached_segment (some s, u) h =
      let (ptr, h') = make_unique (segment_object s) (record h { user = u }) in
      (some (record { context = ptr; delete_fn = segment_drop_fn; map_fn = segment_map_fn }), h')

  unfoldable pub client_attach_fn : (id context : ℕ) → Heap → Option (Option CSegment × Heap)
  unfolding attached_segment
  client_attach_fn id context h = elim (as_client (h.objects context)) [
    | none ↦ none
    | some c ↦ some (attached_segment (c.attach id h.user) h)
  ]

  unfoldable pub client_id_fn : ℕ → Heap → Option (ℕ × Heap)
  client_id_fn context h = elim (as_client (h.objects context)) [
    | none ↦ none
    | some c ↦ some (c.id h.user, h)
  ]

  unfoldable pub client_drop_fn : ℕ → Heap → Option Heap
  client_drop_fn context h = elim (as_client (h.objects context)) [
    | none ↦ none
    | some c ↦ some (delete_at context c.on_delete h)
  ]

  -- What z_shm_client_new gets, and ShmClient(std::unique_ptr<CppShmClient>&&) at the pointer that it
  -- releases.
  pub record CClient : Type 0 where
    pub context : ℕ
    pub delete_fn : ℕ → Heap → Option Heap
    pub attach_fn : (id context : ℕ) → Heap → Option (Option CSegment × Heap)
    pub id_fn : ℕ → Heap → Option (ℕ × Heap)

  unfoldable pub shm_client : ℕ → CClient
  shm_client cpp_interface = record {
    context = cpp_interface;
    delete_fn = client_drop_fn;
    attach_fn = client_attach_fn;
    id_fn = client_id_fn;
  }
