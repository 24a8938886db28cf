-- ===== src/Shm/Alloc.antt =====
-- shm/provider/types_impl.hxx, shm_provider.hxx and precomputed_layout.hxx: the allocations, and the
-- conversion of what the C library leaves in its result struct. A buffer is an owned C value.
use zenoh_cpp.Base.{ℕ}
use zenoh_cpp.Owned.{OwnedType, moved}

-- zc_buf_layout_alloc_status_t and zc_buf_alloc_status_t; `other_status` is any other number.
pub data AllocStatus : Type 0 where
  status_ok status_layout_error status_alloc_error : AllocStatus
  other_status : ℕ → AllocStatus

-- z_alloc_error_t and z_layout_error_t are numbers.
pub record CResult (Buf : Type 0) : Type 0 where
  pub status : AllocStatus
  pub buf : Buf
  pub alloc_error : ℕ
  pub layout_error : ℕ

-- BufLayoutAllocResult; BufAllocResult has no layout errors.
pub data BufLayoutAllocResult (Buf : Type 0) : Type 0 where
  allocated : Buf → BufLayoutAllocResult Buf
  alloc_failed : ℕ → BufLayoutAllocResult Buf
  layout_failed : ℕ → BufLayoutAllocResult Buf

pub data BufAllocResult (Buf : Type 0) : Type 0 where
  buf_allocated : Buf → BufAllocResult Buf
  buf_alloc_failed : ℕ → BufAllocResult Buf

module _ (c : OwnedType) where
  open c use {Inner}

  -- The move of ZShmMut out of the struct: what the variant holds, and what the struct holds then.
  abbrev pub move_buf : CResult Inner → Inner × CResult Inner
  unfolding moved
  move_buf r = ((moved c r.buf).0, record r { buf = (moved c r.buf).1 })

  -- Converters::from
  unfoldable pub from_layout_alloc : CResult Inner → BufLayoutAllocResult Inner × CResult Inner
  unfolding move_buf
  from_layout_alloc r = elim r.status [
    | status_ok ↦ let (b, r') = move_buf r in (allocated b, r')
    | status_layout_error ↦ (layout_failed r.layout_error, r)
    | status_alloc_error ↦ (alloc_failed r.alloc_error, r)
    | other_status n ↦ (alloc_failed r.alloc_error, r)
  ]

  unfoldable pub from_alloc : CResult Inner → BufAllocResult Inner × CResult Inner
  unfolding move_buf
  from_alloc r = elim r.status [
    | status_ok ↦ let (b, r') = move_buf r in (buf_allocated b, r')
    | status_layout_error ↦ (buf_alloc_failed r.alloc_error, r)
    | status_alloc_error ↦ (buf_alloc_failed r.alloc_error, r)
    | other_status n ↦ (buf_alloc_failed r.alloc_error, r)
  ]

-- The C functions of the allocations.
pub data ProviderCall : Type 0 where
  z_shm_provider_alloc z_shm_provider_alloc_gc : (size : ℕ) → ProviderCall
  z_shm_provider_alloc_gc_defrag z_shm_provider_alloc_gc_defrag_dealloc : (size : ℕ) → ProviderCall
  z_shm_provider_alloc_gc_defrag_blocking : (size : ℕ) → ProviderCall
  z_shm_provider_alloc_aligned : (size alignment : ℕ) → ProviderCall
  z_shm_provider_alloc_gc_aligned : (size alignment : ℕ) → ProviderCall
  z_shm_provider_alloc_gc_defrag_aligned : (size alignment : ℕ) → ProviderCall
  z_shm_provider_alloc_gc_defrag_dealloc_aligned : (size alignment : ℕ) → ProviderCall
  z_shm_provider_alloc_gc_defrag_blocking_aligned : (size alignment : ℕ) → ProviderCall

pub data LayoutCall : Type 0 where
  z_precomputed_layout_alloc z_precomputed_layout_alloc_gc : LayoutCall
  z_precomputed_layout_alloc_gc_defrag z_precomputed_layout_alloc_gc_defrag_dealloc : LayoutCall
  z_precomputed_layout_alloc_gc_defrag_blocking : LayoutCall

-- The C library: each call fills the result struct.
pub record AllocApi : Type 1 where
  pub State : Type 0
  pub buffers : OwnedType
  pub provider_alloc : ProviderCall → State → CResult buffers.Inner × State
  pub layout_alloc : LayoutCall → State → CResult buffers.Inner × State

module _ (api : AllocApi) where
  open api use {State, buffers, provider_alloc, layout_alloc}

  abbrev pub Layouted : Type 0
  Layouted = BufLayoutAllocResult buffers.Inner × CResult buffers.Inner

  -- The body of the functions of ShmProvider: the variant, what the local struct holds at the end,
  -- which C++ does not drop, and the state.
  unfoldable pub provider_allocate : ProviderCall → State → Layouted × State
  unfolding from_layout_alloc
  provider_allocate call s =
      let (r, s') = provider_alloc call s in (from_layout_alloc buffers r, s')

  unfoldable pub layout_allocate :
      LayoutCall → State → (BufAllocResult buffers.Inner × CResult buffers.Inner) × State
  unfolding from_alloc
  layout_allocate call s = let (r, s') = layout_alloc call s in (from_alloc buffers r, s')
