-- ===== src/Shm/Received.antt =====
-- What an asynchronous allocation delivers, and what becomes of its receiver.
use zenoh_cpp.Base.{
  ℕ, ◌≡◌, ◌≢◌, refl, [], ◌∷◌, true, Option, none, some, arith, ◌==◌, if◌then◌else◌,
}
use zenoh_cpp.Result.{ZResult}
use zenoh_cpp.Owned.{OwnedType, Contract}
use zenoh_cpp.Owned.Moves.{moved-holds}
use zenoh_cpp.Shm.Alloc.{
  AllocStatus, status_ok, status_layout_error, status_alloc_error, other_status, CResult,
  BufLayoutAllocResult, allocated, alloc_failed, layout_failed, from_layout_alloc,
}
use zenoh_cpp.Shm.Async.{
  place, Receiver, Receivers, AsyncCall, AsyncUse, completes, releases, write_result, result,
  drop_receiver, use_async, run_async, alloc_async,
}

self_test : (a : ℕ) → (a == a) ≡ true
self_test a = ground arith

module _ {U C R : Type 0} (from : C → R × C) where
  abbrev objects_with :
      (ℕ → Option (Receiver U C R)) → ℕ → Option (Receiver U C R) → ℕ → Option (Receiver U C R)
  objects_with = place from

  place_self :
      (f : ℕ → Option (Receiver U C R)) (a : ℕ) (x : Option (Receiver U C R))
      → objects_with f a x a ≡ x
  place_self f a x = ground arith

  abbrev with_slot : Receiver U C R → C → Option (Receiver U C R)
  with_slot interface c = some (record interface { result_slot = c })

  -- The program after a completion.
  abbrev completed : ℕ → Receiver U C R → C → Receivers U C R → Receivers U C R
  completed rcv interface c p = record p {
    user = interface.on_result (from c).0 p.user;
    objects =
        objects_with (objects_with p.objects rcv (with_slot interface c)) rcv
          (with_slot interface (from c).1);
  }

  use_async-completes :
      (rcv : ℕ) (interface : Receiver U C R) (c : C) (p : Receivers U C R)
      → p.objects rcv ≡ some interface
      → use_async from (record { result_at = rcv; context = rcv }) (completes c) p
        ≡ some (completed rcv interface c p)
  unfolding use_async write_result result
  use_async-completes rcv interface c p at_rcv =
      rw (use_async, write_result, at_rcv, result, self_test rcv, self_test rcv) refl

  use_async-releases :
      (rcv : ℕ) (interface : Receiver U C R) (p : Receivers U C R)
      → p.objects rcv ≡ some interface
      → use_async from (record { result_at = rcv; context = rcv }) releases p
        ≡ some (record p { objects = objects_with p.objects rcv none })
  unfolding use_async drop_receiver
  use_async-releases rcv interface p at_rcv = rw (use_async, drop_receiver, at_rcv) refl

  -- What a receiver goes through: it is called with the converted result, and deleted; then the
  -- context dangles.
  pub completes_then_releases :
      (rcv : ℕ) (interface : Receiver U C R) (c : C) (p : Receivers U C R)
      → p.objects rcv ≡ some interface
      → let call : AsyncCall = record { result_at = rcv; context = rcv } in
        (q : Receivers U C R) × (run_async from call (completes c ∷ releases ∷ []) p ≡ some q)
        × (q.user ≡ interface.on_result (from c).0 p.user)
        × ((a : ℕ) → q.objects a ≡ (if rcv == a then none else p.objects a))
        × ((u : AsyncUse C) → use_async from call u q ≡ none)
  unfolding run_async use_async write_result drop_receiver
  completes_then_releases rcv interface c p at_rcv =
      let p' = completed rcv interface c p in
      let at_rcv' =
        place_self (objects_with p.objects rcv (with_slot interface c)) rcv
          (with_slot interface (from c).1) in
      let q = record p' { objects = objects_with p'.objects rcv none } in
      let gone : q.objects rcv ≡ none = place_self p'.objects rcv none in
      (
        q,
        rw
            (
              run_async,
              use_async-completes rcv interface c p at_rcv,
              run_async,
              use_async-releases rcv (record interface { result_slot = (from c).1 }) p' at_rcv',
              run_async,
            )
            refl,
        refl,
        (λ a. ground arith),
        λ u. dangling q gone u,
      )
    where
      dangling :
          (q : Receivers U C R)
          → q.objects rcv ≡ none
          → (u : AsyncUse C) → use_async from (record { result_at = rcv; context = rcv }) u q ≡ none
      dangling q gone (completes c') = rw (use_async, write_result, gone) refl
      dangling q gone releases = rw (use_async, drop_receiver, gone) refl

module _ (c : OwnedType) (contract : Contract c) where
  open c use {Inner}
  open contract use {holds}

  -- What a variant stands for: a buffer with all that the struct held, or the error of the status.
  abbrev pub StandsFor : CResult Inner → BufLayoutAllocResult Inner → Type 0
  StandsFor r (allocated b) = (r.status ≡ status_ok) × ((x : ℕ) → holds b x ≡ holds r.buf x)
  StandsFor r (alloc_failed e) =
      (r.status ≢ status_ok) × (r.status ≢ status_layout_error) × (e ≡ r.alloc_error)
  StandsFor r (layout_failed e) = (r.status ≡ status_layout_error) × (e ≡ r.layout_error)

  -- What the struct then still holds.
  abbrev pub IsEmptied : CResult Inner → CResult Inner → Type 0
  IsEmptied r left = (r.status ≡ status_ok → (x : ℕ) → holds left.buf x ≡ 0)

  from_layout_alloc-StandsFor :
      (r : CResult Inner)
      → StandsFor r (from_layout_alloc c r).0 × IsEmptied r (from_layout_alloc c r).1
  unfolding from_layout_alloc
  from_layout_alloc-StandsFor r = go r.status refl
    where
      go :
          (s : AllocStatus)
          → r.status ≡ s
          → StandsFor r (from_layout_alloc c r).0 × IsEmptied r (from_layout_alloc c r).1
      go status_ok e =
          rw (from_layout_alloc, e)
            (
              (refl, λ x. (moved-holds c contract r.buf x).0),
              λ h x. (moved-holds c contract r.buf x).1,
            )
      go status_layout_error e = rw (from_layout_alloc, e) ((refl, refl), λ h. absurd (cc))
      go status_alloc_error e =
          rw (from_layout_alloc, e) (((λ h. cc), (λ h. cc), refl), λ h. absurd (cc))
      go (other_status n) e =
          rw (from_layout_alloc, e) (((λ h. cc), (λ h. cc), refl), λ h. absurd (cc))

  -- The call of alloc_gc_defrag_async with a receiver on the heap can be completed by the C library
  -- with any result, and then released, with no undefined step: `on_result` runs once, on the buffer
  -- with all that the result held if its status is OK and on the error of its status if not, the
  -- receiver is deleted, every other object is as before, and any further use of the call is
  -- undefined.
  pub alloc_async-delivers :
      {U L : Type 0} (submit : AsyncCall → L → ZResult × L) (l : L) (rcv : ℕ)
      (interface : Receiver U (CResult Inner) (BufLayoutAllocResult Inner)) (r : CResult Inner)
      (p : Receivers U (CResult Inner) (BufLayoutAllocResult Inner))
      → p.objects rcv ≡ some interface
      → (call : AsyncCall) × (alloc_async submit (some rcv) l ≡ some (call, submit call l))
        × (q : Receivers U (CResult Inner) (BufLayoutAllocResult Inner)) × (run_async
              (from_layout_alloc c)
              call
              (completes r ∷ releases ∷ [])
              p
            ≡ some q)
        × (v : BufLayoutAllocResult Inner) × (q.user ≡ interface.on_result v p.user)
        × StandsFor r v
        × ((a : ℕ) → q.objects a ≡ (if rcv == a then none else p.objects a))
        × ((u : AsyncUse (CResult Inner)) → use_async (from_layout_alloc c) call u q ≡ none)
  unfolding alloc_async
  alloc_async-delivers submit l rcv interface r p at_rcv =
      let (q, runs, user, heap, dangling) =
        completes_then_releases (from_layout_alloc c) rcv interface r p at_rcv in
      (
        record { result_at = rcv; context = rcv },
        refl,
        q,
        runs,
        (from_layout_alloc c r).0,
        user,
        (from_layout_alloc-StandsFor r).0,
        heap,
        dangling,
      )
