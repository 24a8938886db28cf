-- ===== src/Shm/Served.antt =====
-- The contexts serve the objects, along every history.
use zenoh_cpp.Base.{ℕ, ◌≡◌, refl, List, [], ◌∷◌, Option, none, some, arith}
use zenoh_cpp.Shm.Objects.{ShmTypes, Heap, Object}
use zenoh_cpp.Shm.Histories.{Event, Held, State, history}
use zenoh_cpp.Shm.Virtuals.{Program, virtual_event, virtual_history}
use zenoh_cpp.Shm.Standing.{Hands, overlay, state, program, IsFresh, Serves}
use zenoh_cpp.Shm.Calls.{event-Goes}

module _ (t : ShmTypes) where
  open t use {User}

  module _ (start : Heap t) (fresh : IsFresh t start) where
    history-Goes :
        (es : List (Event t)) (p : Program t) (objects : ℕ → Option (Object t))
        (held : ℕ → Option (Held t))
        → Serves t start fresh p.next p.table objects held
        → let p' = virtual_history t es p in
          (objects' : ℕ → Option (Object t)) × (held' : ℕ → Option (Held t)) × (history t es
              (state t p.user p.next objects held p.answers)
            ≡ some (state t p'.user p'.next objects' held' p'.answers))
          × Serves t start fresh p'.next p'.table objects' held'
    unfolding history virtual_history
    history-Goes [] p objects held s = (objects, held, refl, s)
    history-Goes (e ∷ es) p objects held s =
        let (objects', held', step, s') =
          event-Goes t start fresh p.user p.next p.table p.answers objects held s e in
        rw (history, step) (history-Goes es (virtual_event t e p) objects' held' s')

    -- From any heap whose addresses from `next` on are free, along every history of C++ clients and
    -- providers, no step is undefined, whatever their methods do, and in whatever order the C library
    -- calls what it was handed and lets go of it. The library gets the answers of the virtual functions
    -- of the objects, and these calls alone change the state of the program. An object is on the heap
    -- as long as the library holds a struct for it, which has its address and the functions of its
    -- class, and every other address holds what it held at the start.
    pub history-virtual_history :
        (es : List (Event t))
        → let p = virtual_history t es (program t start.user start.next (λ a. none) []) in
          (s : State t) × (history t es (state t start.user start.next start.objects (λ a. none) [])
            ≡ some s)
          × (s.heap.user ≡ p.user)
          × (s.answers ≡ p.answers)
          × ((a : ℕ) → s.heap.objects a ≡ overlay t (p.table a) (start.objects a))
          × ((a : ℕ) → Hands t a (p.table a) (s.held a))
    history-virtual_history es =
        let (objects, held, runs, s) =
          history-Goes es (program t start.user start.next (λ a. none) []) start.objects (λ a. none)
            (record {
              above = omega arith;
              hands = λ a. refl;
              lies = λ a. refl;
              made = λ a o e. absurd (cc);
            }) in
        let p : Program t = virtual_history t es (program t start.user start.next (λ a. none) []) in
        (state t p.user p.next objects held p.answers, runs, refl, refl, s.lies, s.hands)
