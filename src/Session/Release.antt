-- ===== src/Session/Release.antt =====
-- What a failed call leaves behind: no closure on the heap, `on_drop` run once, and a handler that
-- is dropped if the caller will not get it.
use zenoh_cpp.Base.{ℕ, suc, ◌≡◌, refl, false, Option, none, some, arith}
use zenoh_cpp.Result.{ZResult, is_ok, pure, ◌>>=◌, result_check, fails_with}
use zenoh_cpp.Closures.{Process, CClosure, update, into_context, delete_from_context}
use zenoh_cpp.Closures.Lifetime.{IsFresh}
use zenoh_cpp.Session.Requests.{
  AnyClosure, callback, channel_closure, moved_closure, World, Library, Contract,
}
use zenoh_cpp.Session.Callbacks.{Plan, new_closure, execute}
use zenoh_cpp.Session.Handlers.{Channel, ChannelPlan, into_cb_handler_pair}

-- The end of a function that has called C and checks the code `r`.
check_end :
    {S A : Type 0} (r : ZResult) (a : A) (err : Option ZResult) (s : S)
    → is_ok r ≡ false
    → (result_check r >>= λ _. pure a) err s ≡ fails_with r a err s
unfolding result_check
check_end r a none s h = rw (h, ◌>>=◌)
check_end r a (some e) s h = refl

module _ {U V : Type 0} (lib : Library U V) where
  open lib use {State, Obj, Pod, invoke, z_drop}

  -- The closure as the library gets it, and the world with it on the heap.
  abbrev pub submitted : Plan U V Obj Pod → World U V State → CClosure
  submitted plan w = record {
    function = plan.function;
    context = (new_closure lib plan.closure w).0;
  }

  abbrev pub with_closure : Plan U V Obj Pod → World U V State → World U V State
  with_closure plan w = (new_closure lib plan.closure w).1

  -- The C call of a plan.
  abbrev pub answer : Plan U V Obj Pod → World U V State → (ZResult × Obj) × World U V State
  answer plan w = invoke (plan.request (callback (submitted plan w))) (with_closure plan w)

  -- The heap as `new` and then `delete` leave it.
  abbrev pub deleted : Plan U V Obj Pod → Process U V → Process U V
  deleted plan p = record p {
    user = plan.closure.drop p.user;
    next = suc p.next;
    closures = update (update p.closures p.next (some plan.closure)) p.next none;
  }

  pub delete-submitted :
      (plan : Plan U V Obj Pod) (w : World U V State)
      → delete_from_context (submitted plan w).context (with_closure plan w).process
        ≡ some (deleted plan w.process)
  unfolding into_context delete_from_context
  delete-submitted plan w = ground arith

  -- A function with a callback whose C call fails ends by throwing the code, or by writing it to
  -- `*err`. Either way, under the contract of the C library, the callback's `on_drop` has run once
  -- and every address of the heap holds what it held before the call.
  pub execute_failure :
      (contract : Contract lib) (plan : Plan U V Obj Pod) (err : Option ZResult)
      (w : World U V State)
      → IsFresh w.process
      → ((c : AnyClosure Obj) → moved_closure (plan.request c) ≡ some c)
      → is_ok (answer plan w).0.0 ≡ false
      → (execute lib plan err w
          ≡ fails_with (answer plan w).0.0 (answer plan w).0.1 err (answer plan w).1)
        × ((answer plan w).1.process.user ≡ plan.closure.drop w.process.user)
        × ((a : ℕ) → (answer plan w).1.process.closures a ≡ w.process.closures a)
  unfolding execute
  execute_failure contract plan err w fresh moves fails =
      let end =
        contract.drops_on_error _ _ (with_closure plan w) _ (moves _) (delete-submitted plan w)
          fails in
      (
        check_end (answer plan w).0.0 (answer plan w).0.1 err (answer plan w).1 fails,
        ground (arith, end),
        λ a. ground (arith, end, fresh.above a),
      )

  -- The C call of a function with a channel.
  abbrev pub channel_pair :
      Channel → ChannelPlan Obj Pod → World U V State → (Obj × Obj) × World U V State
  channel_pair ch plan w = into_cb_handler_pair lib ch plan.arg w

  abbrev pub channel_answer :
      Channel → ChannelPlan Obj Pod → World U V State → (ZResult × Obj) × World U V State
  channel_answer ch plan w =
      invoke (plan.request (channel_closure (channel_pair ch plan w).0.0))
        (channel_pair ch plan w).1
