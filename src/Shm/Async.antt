-- ===== src/Shm/Async.antt =====
-- ShmProvider::alloc_gc_defrag_async and PrecomputedLayout::alloc_gc_defrag_async: the receiver that
-- the C library gets as a context, with the result struct that is a member of it.
use zenoh_cpp.Base.{ℕ, List, [], ◌∷◌, Option, none, some, ◌==◌, if◌then◌else◌}
use zenoh_cpp.Result.{ZResult}

-- A ShmProviderAsyncInterface or PrecomputedLayoutAsyncInterface: `C` is the C struct and `R` the
-- variant, and on_result acts on the state `U` of the C++ program.
pub record Receiver (U C R : Type 0) : Type 0 where
  pub result_slot : C
  pub on_result : R → U → U

-- The program: its state, and the receivers on the heap by address.
pub record Receivers (U C R : Type 0) : Type 0 where
  pub user : U
  pub objects : ℕ → Option (Receiver U C R)

-- What the library gets: where to write the result, and the context; `drop` and `result` are the
-- extern "C" functions.
pub record AsyncCall : Type 0 where
  pub result_at : ℕ
  pub context : ℕ

-- What the library does with it.
pub data AsyncUse (C : Type 0) : Type 0 where
  completes : C → AsyncUse C
  releases : AsyncUse C

module _ {U C R : Type 0} (from : C → R × C) where
  abbrev pub place :
      (ℕ → Option (Receiver U C R)) → ℕ → Option (Receiver U C R) → ℕ → Option (Receiver U C R)
  place f a x b = if a == b then x else f b

  -- The library writes the struct through the pointer that it got; `none` if it dangles.
  unfoldable pub write_result : ℕ → C → Receivers U C R → Option (Receivers U C R)
  write_result a c p = elim (p.objects a) [
    | none ↦ none
    | some rcv ↦
        some (record p { objects = place p.objects a (some (record rcv { result_slot = c })) })
  ]

  -- result(context, result): the conversion moves the buffer out of the struct at `a`.
  unfoldable pub result : ℕ → ℕ → Receivers U C R → Option (Receivers U C R)
  result context a p = elim (p.objects a) [
    | none ↦ none
    | some slot ↦ elim (p.objects context) [
      | none ↦ none
      | some interface ↦ some (record p {
        user = interface.on_result (from slot.result_slot).0 p.user;
        objects =
            place p.objects a (some (record slot { result_slot = (from slot.result_slot).1 }));
      })
    ]
  ]

  -- drop(context): `delete interface;`
  unfoldable pub drop_receiver : ℕ → Receivers U C R → Option (Receivers U C R)
  drop_receiver context p = elim (p.objects context) [
    | none ↦ none
    | some interface ↦ some (record p { objects = place p.objects context none })
  ]

  unfoldable pub use_async : AsyncCall → AsyncUse C → Receivers U C R → Option (Receivers U C R)
  unfolding write_result result drop_receiver
  use_async call (completes c) p = elim (write_result call.result_at c p) [
    | none ↦ none
    | some p' ↦ result call.context call.result_at p'
  ]
  use_async call releases p = drop_receiver call.context p

  unfoldable pub run_async :
      AsyncCall → List (AsyncUse C) → Receivers U C R → Option (Receivers U C R)
  unfolding use_async
  run_async call [] p = some p
  run_async call (u ∷ us) p = elim (use_async call u p) [
    | none ↦ none
    | some p' ↦ run_async call us p'
  ]

-- The body of alloc_gc_defrag_async: `receiver` is the unique_ptr, released here; a null one is
-- undefined behaviour. The library answers with a code.
unfoldable pub alloc_async :
    {L : Type 0} → (AsyncCall → L → ZResult × L) → Option ℕ → L → Option (AsyncCall × (ZResult × L))
alloc_async submit none l = none
alloc_async submit (some rcv) l =
    let call : AsyncCall = record { result_at = rcv; context = rcv } in some (call, submit call l)
