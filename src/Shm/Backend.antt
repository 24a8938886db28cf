-- ===== src/Shm/Backend.antt =====
-- include/zenoh/api/shm/provider: the extern "C" functions of a C++ backend (shm_provider_backend.hxx),
-- and the constructors of CppShmProvider (shm_provider.hxx) that hand them to C.
use zenoh_cpp.Base.{ℕ, Bool, Option, none, some}
use zenoh_cpp.Shm.Objects.{ShmTypes, Heap, as_backend, delete_at}

module _ (t : ShmTypes) where
  open t use {MemoryLayout, ChunkDescriptor, ChunkAllocResult}

  unfoldable pub backend_drop_fn : ℕ → Heap t → Option (Heap t)
  backend_drop_fn context h = elim (as_backend t (h.objects context)) [
    | none ↦ none
    | some b ↦ some (delete_at t context b.on_delete h)
  ]

  -- The returned object is moved into *out_result.
  unfoldable pub backend_alloc_fn : MemoryLayout → ℕ → Heap t → Option (ChunkAllocResult × Heap t)
  backend_alloc_fn layout context h = elim (as_backend t (h.objects context)) [
    | none ↦ none
    | some b ↦ some ((b.alloc layout h.user).0, record h { user = (b.alloc layout h.user).1 })
  ]

  unfoldable pub backend_free_fn : ChunkDescriptor → ℕ → Heap t → Option (Heap t)
  backend_free_fn chunk context h = elim (as_backend t (h.objects context)) [
    | none ↦ none
    | some b ↦ some (record h { user = b.free chunk h.user })
  ]

  unfoldable pub backend_defragment_fn : ℕ → Heap t → Option (ℕ × Heap t)
  backend_defragment_fn context h = elim (as_backend t (h.objects context)) [
    | none ↦ none
    | some b ↦ some ((b.defragment h.user).0, record h { user = (b.defragment h.user).1 })
  ]

  unfoldable pub backend_available_fn : ℕ → Heap t → Option (ℕ × Heap t)
  backend_available_fn context h = elim (as_backend t (h.objects context)) [
    | none ↦ none
    | some b ↦ some (b.available h.user, h)
  ]

  -- The layout is changed in place: what *layout holds then.
  unfoldable pub backend_layout_for_fn : MemoryLayout → ℕ → Heap t → Option (MemoryLayout × Heap t)
  backend_layout_for_fn layout context h = elim (as_backend t (h.objects context)) [
    | none ↦ none
    | some b ↦
        some ((b.layout_for layout h.user).0, record h { user = (b.layout_for layout h.user).1 })
  ]

  unfoldable pub backend_id_fn : ℕ → Heap t → Option (ℕ × Heap t)
  backend_id_fn context h = elim (as_backend t (h.objects context)) [
    | none ↦ none
    | some b ↦ some (b.id h.user, h)
  ]

  -- What z_shm_provider_new or z_shm_provider_threadsafe_new gets: the context, and the callbacks.
  pub record CBackend : Type 0 where
    pub threadsafe : Bool
    pub context : ℕ
    pub delete_fn : ℕ → Heap t → Option (Heap t)
    pub alloc_fn : MemoryLayout → ℕ → Heap t → Option (ChunkAllocResult × Heap t)
    pub free_fn : ChunkDescriptor → ℕ → Heap t → Option (Heap t)
    pub defragment_fn : ℕ → Heap t → Option (ℕ × Heap t)
    pub available_fn : ℕ → Heap t → Option (ℕ × Heap t)
    pub layout_for_fn : MemoryLayout → ℕ → Heap t → Option (MemoryLayout × Heap t)
    pub id_fn : ℕ → Heap t → Option (ℕ × Heap t)

  -- CppShmProvider(std::unique_ptr<CppShmProviderBackend>), and the one of a
  -- CppShmProviderBackendThreadsafe, at the pointer that it releases.
  unfoldable pub cpp_shm_provider : (threadsafe : Bool) → ℕ → CBackend
  cpp_shm_provider threadsafe backend = record {
    threadsafe = threadsafe;
    context = backend;
    delete_fn = backend_drop_fn;
    alloc_fn = backend_alloc_fn;
    free_fn = backend_free_fn;
    defragment_fn = backend_defragment_fn;
    available_fn = backend_available_fn;
    layout_for_fn = backend_layout_for_fn;
    id_fn = backend_id_fn;
  }
