-- ===== src/Shm/HistoryTests.antt =====
-- A client that refuses the segment 0, and a backend with one chunk; the program notes what they do.
use zenoh_cpp.Base.{
  ℕ, ◌+◌, ◌*◌, ◌≡◌, refl, List, [], ◌∷◌, false, Option, none, some, ◌==◌, if◌then◌else◌,
}
use zenoh_cpp.Shm.Objects.{ShmTypes, Heap, CppShmSegment, CppShmClient, CppShmProviderBackend}
use zenoh_cpp.Shm.Histories.{
  Event, makes_client, makes_provider, attaches, asks_client, maps, calls_backend, deletes, allocs,
  asks_available, lays_out, number, chunk, layout, State, history,
}
use zenoh_cpp.Shm.Virtuals.{virtual_history}
use zenoh_cpp.Shm.Standing.{overlay, Hands, state, program}
use zenoh_cpp.Shm.Served.{history-virtual_history}

abbrev noting : ShmTypes
noting = record {
  User = List ℕ;
  MemoryLayout = ℕ;
  ChunkDescriptor = ℕ;
  ChunkAllocResult = Option ℕ;
}

abbrev segment_of : ℕ → CppShmSegment noting
segment_of i = record { map = λ c u. (100 * i + c, c ∷ u); on_delete = λ u. i ∷ u }

abbrev one_client : CppShmClient noting
one_client = record {
  attach = λ i u. if i == 0 then (none, u) else (some (segment_of i), u);
  id = λ u. 7;
  on_delete = λ u. 50 ∷ u;
}

abbrev one_backend : CppShmProviderBackend noting
one_backend = record {
  alloc = λ l u. (some l, l ∷ u);
  free = λ c u. u;
  defragment = λ u. (0, u);
  available = λ u. 9;
  layout_for = λ l u. (l + 1, u);
  id = λ u. 8;
  on_delete = λ u. 60 ∷ u;
}

abbrev fresh_heap : Heap noting
fresh_heap = record { user = []; next = 4; objects = λ a. none }

-- The client stands at 4, the provider at 5, the segment at 6.
abbrev events : List (Event noting)
events =
    makes_client one_client
    ∷ makes_provider false one_backend
    ∷ attaches 4 0
    ∷ attaches 4 3
    ∷ deletes 4
    ∷ maps 6 2
    ∷ asks_client 4
    ∷ calls_backend 5 (allocs 30)
    ∷ calls_backend 5 asks_available
    ∷ calls_backend 5 (lays_out 30)
    ∷ deletes 6
    ∷ deletes 5
    ∷ []

events_user :
    (virtual_history noting events (program noting [] 4 (λ a. none) [])).user
    ≡ 60 ∷ 3 ∷ 30 ∷ 2 ∷ 50 ∷ []
unfolding virtual_history
events_user = refl

events_answers :
    (virtual_history noting events (program noting [] 4 (λ a. none) [])).answers
    ≡ layout 31 ∷ number 9 ∷ chunk (some 30) ∷ number 302 ∷ []
unfolding virtual_history
events_answers = refl

history-virtual_history_example :
    let p = virtual_history noting events (program noting [] 4 (λ a. none) []) in
    (s : State noting) × (history noting events (state noting [] 4 (λ a. none) (λ a. none) [])
      ≡ some s)
    × (s.heap.user ≡ p.user)
    × (s.answers ≡ p.answers)
    × ((a : ℕ) → s.heap.objects a ≡ overlay noting (p.table a) none)
    × ((a : ℕ) → Hands noting a (p.table a) (s.held a))
history-virtual_history_example = history-virtual_history noting fresh_heap (λ a h. refl) events
