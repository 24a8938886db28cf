-- ===== src/Shm/Calls.antt =====
-- Each event of a history is the call of a virtual function.
use zenoh_cpp.Base.{ℕ, ◌≡◌, refl, subst, ◌∙◌, List, Bool, Option, none, some}
use zenoh_cpp.Shm.Objects.{
  ShmTypes, Heap, Object, segment_object, client_object, backend_object, CppShmSegment,
  CppShmClient, CppShmProviderBackend, store_at, make_unique, shm_client, segment_map_fn,
  segment_drop_fn, attached_segment, client_attach_fn, client_id_fn, client_drop_fn,
}
use zenoh_cpp.Shm.Backend.{
  cpp_shm_provider, backend_drop_fn, backend_alloc_fn, backend_free_fn, backend_defragment_fn,
  backend_available_fn, backend_layout_for_fn, backend_id_fn,
}
use zenoh_cpp.Shm.Histories.{
  BackendCall, allocs, frees, defragments, asks_available, lays_out, asks_protocol, Event,
  makes_client, makes_provider, attaches, asks_client, maps, calls_backend, deletes, Answer, Held,
  held_segment, held_client, held_backend, call_backend, keep_segment, event,
}
use zenoh_cpp.Shm.Virtuals.{Program, backend_call, add_segment, virtual_event}
use zenoh_cpp.Shm.Standing.{
  segment_struct, Hands, state, program, IsFresh, Serves, new-Serves, gone-Serves,
}

module _ (t : ShmTypes) where
  open t use {User}

  module _ (start : Heap t) (fresh : IsFresh t start) where
    -- An event has no undefined step, and the library again serves the program that the call of the
    -- virtual function leaves.
    abbrev pub Goes :
        Event t
        → User
        → ℕ
        → (ℕ → Option (Object t))
        → List (Answer t)
        → (ℕ → Option (Object t))
        → (ℕ → Option (Held t))
        → Type 0
    Goes e u n table answers objects held =
        let p : Program t = virtual_event t e (program t u n table answers) in
        (objects' : ℕ → Option (Object t)) × (held' : ℕ → Option (Held t)) × (event t e
            (state t u n objects held answers)
          ≡ some (state t p.user p.next objects' held' p.answers))
        × Serves t start fresh p.next p.table objects' held'

    module _ (u : User) (n : ℕ) (table : ℕ → Option (Object t)) (answers : List (Answer t))
        (objects : ℕ → Option (Object t)) (held : ℕ → Option (Held t))
        (s : Serves t start fresh n table objects held) where
      lies_at : (a : ℕ) (o : Object t) → table a ≡ some o → objects a ≡ some o
      lies_at a o e = s.lies a ∙ rw e

      Hands-at : (a : ℕ) (o : Option (Object t)) → table a ≡ o → Hands t a o (held a)
      Hands-at a o e = subst (λ x. Hands t a x (held a)) e (s.hands a)

      makes_client-Goes :
          (c : CppShmClient t) → Goes (makes_client c) u n table answers objects held
      unfolding event virtual_event make_unique
      makes_client-Goes c = (
        store_at t objects n (some (client_object c)),
        store_at t held n (some (held_client (shm_client t n))),
        refl,
        new-Serves t start fresh n table objects held (client_object c)
            (held_client (shm_client t n)) refl s,
      )

      -- What `attach` returns, wherever it comes from.
      segment-Goes :
          (r : Option (CppShmSegment t) × User)
          → let p = add_segment t r (program t u n table answers) in
            (objects' : ℕ → Option (Object t)) × (held' : ℕ → Option (Held t)) × (keep_segment t
                (some (attached_segment t r (record { user = u; next = n; objects = objects })))
                (state t u n objects held answers)
              ≡ some (state t p.user p.next objects' held' p.answers))
            × Serves t start fresh p.next p.table objects' held'
      unfolding attached_segment make_unique
      segment-Goes (none, u') = (objects, held, refl, s)
      segment-Goes (some g, u') = (
        store_at t objects n (some (segment_object g)),
        store_at t held n (some (held_segment (segment_struct t n))),
        refl,
        new-Serves t start fresh n table objects held (segment_object g)
            (held_segment (segment_struct t n)) refl s,
      )

      attaches-Goes :
          (a i : ℕ) (o : Option (Object t))
          → table a ≡ o
          → Goes (attaches a i) u n table answers objects held
      unfolding event virtual_event shm_client client_attach_fn
      attaches-Goes a i none e = rw (Hands-at a none e, e) (objects, held, refl, s)
      attaches-Goes a i (some (segment_object g)) e =
          rw (Hands-at a (some (segment_object g)) e, e) (objects, held, refl, s)
      attaches-Goes a i (some (client_object c)) e =
          rw
            (
              Hands-at a (some (client_object c)) e,
              e,
              client_attach_fn,
              lies_at a (client_object c) e,
            )
            (segment-Goes (c.attach i u))
      attaches-Goes a i (some (backend_object b)) e =
          rw ((Hands-at a (some (backend_object b)) e).1, e) (objects, held, refl, s)

      asks_client-Goes :
          (a : ℕ) (o : Option (Object t))
          → table a ≡ o
          → Goes (asks_client a) u n table answers objects held
      unfolding event virtual_event shm_client client_id_fn
      asks_client-Goes a none e = rw (Hands-at a none e, e) (objects, held, refl, s)
      asks_client-Goes a (some (segment_object g)) e =
          rw (Hands-at a (some (segment_object g)) e, e) (objects, held, refl, s)
      asks_client-Goes a (some (client_object c)) e =
          rw (Hands-at a (some (client_object c)) e, e, client_id_fn, lies_at a (client_object c) e)
            (objects, held, refl, s)
      asks_client-Goes a (some (backend_object b)) e =
          rw ((Hands-at a (some (backend_object b)) e).1, e) (objects, held, refl, s)

      maps-Goes :
          (a i : ℕ) (o : Option (Object t))
          → table a ≡ o
          → Goes (maps a i) u n table answers objects held
      unfolding event virtual_event segment_map_fn
      maps-Goes a i none e = rw (Hands-at a none e, e) (objects, held, refl, s)
      maps-Goes a i (some (segment_object g)) e =
          rw
            (
              Hands-at a (some (segment_object g)) e,
              e,
              segment_map_fn,
              lies_at a (segment_object g) e,
            )
            (objects, held, refl, s)
      maps-Goes a i (some (client_object c)) e =
          rw (Hands-at a (some (client_object c)) e, e) (objects, held, refl, s)
      maps-Goes a i (some (backend_object b)) e =
          rw ((Hands-at a (some (backend_object b)) e).1, e) (objects, held, refl, s)

      backend_answers :
          (a : ℕ) (safe : Bool) (b : CppShmProviderBackend t) (call : BackendCall t)
          → objects a ≡ some (backend_object b)
          → call_backend t
              (cpp_shm_provider t safe a)
              call
              (record { user = u; next = n; objects = objects })
            ≡ some (
              (backend_call t b call u).0,
              record { user = (backend_call t b call u).1; next = n; objects = objects },
            )
      unfolding call_backend cpp_shm_provider backend_alloc_fn backend_free_fn backend_defragment_fn
          backend_available_fn backend_layout_for_fn backend_id_fn
      backend_answers a safe b (allocs l) e = rw (call_backend, backend_alloc_fn, e)
      backend_answers a safe b (frees c) e = rw (call_backend, backend_free_fn, e)
      backend_answers a safe b defragments e = rw (call_backend, backend_defragment_fn, e)
      backend_answers a safe b asks_available e = rw (call_backend, backend_available_fn, e)
      backend_answers a safe b (lays_out l) e = rw (call_backend, backend_layout_for_fn, e)
      backend_answers a safe b asks_protocol e = rw (call_backend, backend_id_fn, e)

      calls_backend-Goes :
          (a : ℕ) (call : BackendCall t) (o : Option (Object t))
          → table a ≡ o
          → Goes (calls_backend a call) u n table answers objects held
      unfolding event virtual_event
      calls_backend-Goes a call none e = rw (Hands-at a none e, e) (objects, held, refl, s)
      calls_backend-Goes a call (some (segment_object g)) e =
          rw (Hands-at a (some (segment_object g)) e, e) (objects, held, refl, s)
      calls_backend-Goes a call (some (client_object c)) e =
          rw (Hands-at a (some (client_object c)) e, e) (objects, held, refl, s)
      calls_backend-Goes a call (some (backend_object b)) e =
          let (safe, stands) = Hands-at a (some (backend_object b)) e in
          rw (stands, e, backend_answers a safe b call (lies_at a (backend_object b) e))
            (objects, held, refl, s)

      deletes-Goes :
          (a : ℕ) (o : Option (Object t))
          → table a ≡ o
          → Goes (deletes a) u n table answers objects held
      unfolding event virtual_event shm_client cpp_shm_provider segment_drop_fn client_drop_fn
          backend_drop_fn
      deletes-Goes a none e = rw (Hands-at a none e, e) (objects, held, refl, s)
      deletes-Goes a (some (segment_object g)) e =
          rw
            (
              Hands-at a (some (segment_object g)) e,
              e,
              segment_drop_fn,
              lies_at a (segment_object g) e,
            )
            (
              store_at t objects a none,
              store_at t held a none,
              refl,
              gone-Serves t start fresh a (segment_object g) n table objects held e s,
            )
      deletes-Goes a (some (client_object c)) e =
          rw
            (
              Hands-at a (some (client_object c)) e,
              e,
              client_drop_fn,
              lies_at a (client_object c) e,
            )
            (
              store_at t objects a none,
              store_at t held a none,
              refl,
              gone-Serves t start fresh a (client_object c) n table objects held e s,
            )
      deletes-Goes a (some (backend_object b)) e =
          rw
            (
              (Hands-at a (some (backend_object b)) e).1,
              e,
              backend_drop_fn,
              lies_at a (backend_object b) e,
            )
            (
              store_at t objects a none,
              store_at t held a none,
              refl,
              gone-Serves t start fresh a (backend_object b) n table objects held e s,
            )

      makes_provider-Goes :
          (safe : Bool) (b : CppShmProviderBackend t)
          → Goes (makes_provider safe b) u n table answers objects held
      unfolding event virtual_event make_unique
      makes_provider-Goes safe b = (
        store_at t objects n (some (backend_object b)),
        store_at t held n (some (held_backend (cpp_shm_provider t safe n))),
        refl,
        new-Serves t start fresh n table objects held (backend_object b)
            (held_backend (cpp_shm_provider t safe n)) (safe, refl) s,
      )

      pub event-Goes : (e : Event t) → Goes e u n table answers objects held
      event-Goes (makes_client c) = makes_client-Goes c
      event-Goes (makes_provider safe b) = makes_provider-Goes safe b
      event-Goes (attaches a i) = attaches-Goes a i (table a) refl
      event-Goes (asks_client a) = asks_client-Goes a (table a) refl
      event-Goes (maps a i) = maps-Goes a i (table a) refl
      event-Goes (calls_backend a call) = calls_backend-Goes a call (table a) refl
      event-Goes (deletes a) = deletes-Goes a (table a) refl
