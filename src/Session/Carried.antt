-- ===== src/Session/Carried.antt =====
-- What follows from the closure of a plan alone: whether the extern "C" function that it is given
-- casts to the class that it is of.
use zenoh_cpp.Result.{ZResult, is_ok, fails_with}
use zenoh_cpp.Base.{ap, arith, ◌∙◌, ℕ, ◌≡◌, refl, List, [], ◌∷◌, true, false, Option, none, some}
use zenoh_cpp.Closures.{
  call_from_context, Closure, Process, same_arg, cast_to, calls, drops, use_closure, run,
  into_context,
}
use zenoh_cpp.Closures.Lifetime.{IsFresh, calls_then_drop, seen, run-into_context}
use zenoh_cpp.Session.Requests.{AnyClosure, moved_closure, World, Library, Contract}
use zenoh_cpp.Session.Callbacks.{Plan, execute}
use zenoh_cpp.Session.Release.{
  submitted, with_closure, answer, deleted, delete-submitted, execute_failure,
}

-- The closure is made of `on` and `on_drop`, its class is the one of the extern "C" function, and the
-- C call takes it.
abbrev pub Carries : {U V Obj Pod : Type 0} → (V → U → U) → (U → U) → Plan U V Obj Pod → Type 0
Carries {Obj = Obj} on on_drop plan =
    (same_arg (cast_to plan.function) plan.closure.arg ≡ true)
    × (plan.closure.call ≡ on)
    × (plan.closure.drop ≡ on_drop)
    × ((k : AnyClosure Obj) → moved_closure (plan.request k) ≡ some k)

-- What a program sees whose callback gets the values `vs` in order, and is then dropped.
abbrev pub on_each : {U V : Type 0} → (V → U → U) → (U → U) → List V → U → U
on_each on on_drop [] u = on_drop u
on_each on on_drop (v ∷ vs) u = on_each on on_drop vs (on v u)

module _ {U V : Type 0} (lib : Library U V) where
  open lib use {State, Obj, Pod}

  seen-on_each :
      (on : V → U → U) (on_drop : U → U) (c : Closure U V) (vs : List V) (u : U)
      → c.call ≡ on
      → c.drop ≡ on_drop
      → seen c vs u ≡ on_each on on_drop vs u
  seen-on_each on on_drop c [] u ec ed = cc
  seen-on_each on on_drop c (v ∷ vs) u ec ed = rw (ec) (seen-on_each on on_drop c vs (on v u) ec ed)

  -- The library can call the closure of a plan with any values and then drop it.
  pub carried_calls :
      (on : V → U → U) (on_drop : U → U) (plan : Plan U V Obj Pod) (vs : List V)
      (w : World U V State)
      → Carries on on_drop plan
      → IsFresh w.process
      → (q : Process U V) × (run
            (calls_then_drop (submitted lib plan w) vs)
            (with_closure lib plan w).process
          ≡ some q)
        × (q.user ≡ on_each on on_drop vs w.process.user)
        × ((a : ℕ) → q.closures a ≡ w.process.closures a)
  carried_calls on on_drop plan vs w (usable, ec, ed, moves) fresh =
      let (q, e, eu, en, heap) =
        run-into_context plan.function plan.closure vs w.process fresh usable in
      (q, e, eu ∙ seen-on_each on on_drop plan.closure vs w.process.user ec ed, heap)

  -- A failed call has dropped the closure of a plan, and nothing else.
  pub carried_failure :
      (contract : Contract lib) (on : V → U → U) (on_drop : U → U) (plan : Plan U V Obj Pod)
      (err : Option ZResult) (w : World U V State)
      → Carries on on_drop plan
      → IsFresh w.process
      → is_ok (answer lib plan w).0.0 ≡ false
      → let ((code, obj), w') = answer lib plan w in
        (execute lib plan err w ≡ fails_with code obj err w')
        × (w'.process.user ≡ on_drop w.process.user)
        × ((a : ℕ) → w'.process.closures a ≡ w.process.closures a)
  carried_failure contract on on_drop plan err w (usable, ec, ed, moves) fresh fails =
      let (e, eu, heap) = execute_failure lib contract plan err w fresh moves fails in
      (e, eu ∙ ap (λ d. d w.process.user) ed, heap)

  -- A closure of another class than the extern "C" function casts to cannot be called; it can be
  -- dropped.
  pub miscast_unusable :
      (plan : Plan U V Obj Pod) (v : V) (w : World U V State)
      → same_arg (cast_to plan.function) plan.closure.arg ≡ false
      → (use_closure (submitted lib plan w) (calls v) (with_closure lib plan w).process ≡ none)
        × ((q : Process U V) × (use_closure
                (submitted lib plan w)
                drops
                (with_closure lib plan w).process
              ≡ some q)
            × (q.user ≡ plan.closure.drop w.process.user))
  unfolding use_closure call_from_context into_context
  miscast_unusable plan v w wrong =
      (ground (arith, wrong), (deleted lib plan w.process, delete-submitted lib plan w, refl))
