-- ===== src/Shm/Standing.antt =====
-- What the C library holds, the objects on the heap, and how they stand to one another.
use zenoh_cpp.Base.{
  ℕ, suc, ◌≤◌, ◌≡◌, subst, List, Bool, Option, none, some, arith, ◌==◌, Bool-cases, inl, inr,
}
use zenoh_cpp.Shm.Objects.{
  ShmTypes, Heap, Object, segment_object, client_object, backend_object, CSegment, store_at,
  shm_client, segment_map_fn, segment_drop_fn,
}
use zenoh_cpp.Shm.Backend.{cpp_shm_provider}
use zenoh_cpp.Shm.Histories.{Answer, Held, held_segment, held_client, held_backend, State}
use zenoh_cpp.Shm.Virtuals.{Program}

module _ (t : ShmTypes) where
  open t use {User}

  abbrev pub segment_struct : ℕ → CSegment t
  segment_struct a = record {
    context = a;
    delete_fn = segment_drop_fn t;
    map_fn = segment_map_fn t;
  }

  -- The struct for an object at `a` holds that address, and the functions of its class.
  abbrev pub Hands : ℕ → Option (Object t) → Option (Held t) → Type 0
  Hands a none held = held ≡ none
  Hands a (some (segment_object g)) held = held ≡ some (held_segment (segment_struct a))
  Hands a (some (client_object c)) held = held ≡ some (held_client (shm_client t a))
  Hands a (some (backend_object b)) held =
      (safe : Bool) × (held ≡ some (held_backend (cpp_shm_provider t safe a)))

  -- An object that the library holds, or else what the heap held at first.
  abbrev pub overlay : Option (Object t) → Option (Object t) → Option (Object t)
  overlay none old = old
  overlay (some o) old = some o

  abbrev pub state :
      User → ℕ → (ℕ → Option (Object t)) → (ℕ → Option (Held t)) → List (Answer t) → State t
  state u n objects held answers = record {
    heap = record { user = u; next = n; objects = objects };
    held = held;
    answers = answers;
  }

  abbrev pub program : User → ℕ → (ℕ → Option (Object t)) → List (Answer t) → Program t
  program u n table answers = record { user = u; next = n; table = table; answers = answers }

  -- Addresses from `next` on are free.
  abbrev pub IsFresh : Heap t → Type 0
  IsFresh h = (a : ℕ) → h.next ≤ a → h.objects a ≡ none

  module _ (start : Heap t) (fresh : IsFresh start) where
    pub record Serves (n : ℕ) (table objects : ℕ → Option (Object t)) (held : ℕ → Option (Held t))
        : Type 0 where
      pub above : start.next ≤ n
      pub hands : (a : ℕ) → Hands a (table a) (held a)
      pub lies : (a : ℕ) → objects a ≡ overlay (table a) (start.objects a)
      pub made : (a : ℕ) (o : Object t) → table a ≡ some o → start.objects a ≡ none

    pub new-Serves :
        (n : ℕ) (table objects : ℕ → Option (Object t)) (held : ℕ → Option (Held t)) (o : Object t)
        (struct : Held t)
        → Hands n (some o) (some struct)
        → Serves n table objects held
        → Serves
            (suc n)
            (store_at t table n (some o))
            (store_at t objects n (some o))
            (store_at t held n (some struct))
    new-Serves n table objects held o struct h s = record {
      above = omega arith;
      hands = λ a. elim (Bool-cases (n == a)) [
        | inl same ↦
            rw same
              (let e : n ≡ a = ground arith in subst (λ x. Hands x (some o) (some struct)) e h)
        | inr differ ↦ rw differ (s.hands a)
      ];
      lies = λ a. elim (Bool-cases (n == a)) [
        | inl same ↦ rw same
        | inr differ ↦ rw differ (s.lies a)
      ];
      made = λ a o' e. elim (Bool-cases (n == a)) [
        | inl same ↦ fresh a (let low : start.next ≤ n = s.above in ground arith)
        | inr differ ↦ s.made a o' (rw differ at e)
      ];
    }

    pub gone-Serves :
        (a : ℕ) (o : Object t) (n : ℕ) (table objects : ℕ → Option (Object t))
        (held : ℕ → Option (Held t))
        → table a ≡ some o
        → Serves n table objects held
        → Serves n (store_at t table a none) (store_at t objects a none) (store_at t held a none)
    gone-Serves a o n table objects held live s = record {
      above = s.above;
      hands = λ b. elim (Bool-cases (a == b)) [
        | inl same ↦ rw same
        | inr differ ↦ rw differ (s.hands b)
      ];
      lies = λ b. elim (Bool-cases (a == b)) [
        | inl same ↦ rw same (ground (arith, s.made a o live))
        | inr differ ↦ rw differ (s.lies b)
      ];
      made = λ b o' e. elim (Bool-cases (a == b)) [
        | inl same ↦ absurd (cc (rw same at e))
        | inr differ ↦ s.made b o' (rw differ at e)
      ];
    }
