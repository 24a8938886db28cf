-- ===== src/Shm/Virtuals.antt =====
-- What the events of a history come to for the C++ objects: calls of their virtual functions.
use zenoh_cpp.Base.{ℕ, suc, List, [], ◌∷◌, Option, none, some}
use zenoh_cpp.Shm.Objects.{
  ShmTypes, Object, segment_object, client_object, backend_object, CppShmSegment,
  CppShmProviderBackend, store_at,
}
use zenoh_cpp.Shm.Histories.{
  BackendCall, allocs, frees, defragments, asks_available, lays_out, asks_protocol, Event,
  makes_client, makes_provider, attaches, asks_client, maps, calls_backend, deletes, Answer, number,
  chunk, layout, nothing,
}

module _ (t : ShmTypes) where
  open t use {User}

  -- The program, the objects that the C library may call, and what it was told.
  pub record Program : Type 0 where
    pub user : User
    pub next : ℕ
    pub table : ℕ → Option (Object t)
    pub answers : List (Answer t)

  abbrev pub backend_call : CppShmProviderBackend t → BackendCall t → User → Answer t × User
  backend_call b (allocs l) u = (chunk (b.alloc l u).0, (b.alloc l u).1)
  backend_call b (frees c) u = (nothing, b.free c u)
  backend_call b defragments u = (number (b.defragment u).0, (b.defragment u).1)
  backend_call b asks_available u = (number (b.available u), u)
  backend_call b (lays_out l) u = (layout (b.layout_for l u).0, (b.layout_for l u).1)
  backend_call b asks_protocol u = (number (b.id u), u)

  abbrev told : Answer t × User → Program → Program
  told (a, u) p = record p { user = u; answers = a ∷ p.answers }

  abbrev pub add_object : Object t → Program → Program
  add_object o p = record p { next = suc p.next; table = store_at t p.table p.next (some o) }

  abbrev pub add_segment : Option (CppShmSegment t) × User → Program → Program
  add_segment (none, u) p = record p { user = u }
  add_segment (some s, u) p = add_object (segment_object s) (record p { user = u })

  abbrev attach_on : Option (Object t) → ℕ → Program → Program
  attach_on none i p = p
  attach_on (some (segment_object g)) i p = p
  attach_on (some (client_object c)) i p = add_segment (c.attach i p.user) p
  attach_on (some (backend_object b)) i p = p

  abbrev ask_client_on : Option (Object t) → Program → Program
  ask_client_on none p = p
  ask_client_on (some (segment_object g)) p = p
  ask_client_on (some (client_object c)) p = told (number (c.id p.user), p.user) p
  ask_client_on (some (backend_object b)) p = p

  abbrev map_on : Option (Object t) → ℕ → Program → Program
  map_on none i p = p
  map_on (some (segment_object g)) i p = told (number (g.map i p.user).0, (g.map i p.user).1) p
  map_on (some (client_object c)) i p = p
  map_on (some (backend_object b)) i p = p

  abbrev call_on : Option (Object t) → BackendCall t → Program → Program
  call_on none call p = p
  call_on (some (segment_object g)) call p = p
  call_on (some (client_object c)) call p = p
  call_on (some (backend_object b)) call p = told (backend_call b call p.user) p

  abbrev pub destructor : Object t → User → User
  destructor (segment_object g) = g.on_delete
  destructor (client_object c) = c.on_delete
  destructor (backend_object b) = b.on_delete

  abbrev delete_on : ℕ → Option (Object t) → Program → Program
  delete_on a none p = p
  delete_on a (some o) p = record p {
    user = destructor o p.user;
    table = store_at t p.table a none;
  }

  unfoldable pub virtual_event : Event t → Program → Program
  virtual_event (makes_client c) p = add_object (client_object c) p
  virtual_event (makes_provider safe b) p = add_object (backend_object b) p
  virtual_event (attaches a i) p = attach_on (p.table a) i p
  virtual_event (asks_client a) p = ask_client_on (p.table a) p
  virtual_event (maps a i) p = map_on (p.table a) i p
  virtual_event (calls_backend a call) p = call_on (p.table a) call p
  virtual_event (deletes a) p = delete_on a (p.table a) p

  unfoldable pub virtual_history : List (Event t) → Program → Program
  unfolding virtual_event
  virtual_history [] p = p
  virtual_history (e ∷ es) p = virtual_history es (virtual_event e p)
