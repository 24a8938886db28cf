-- ===== src/Session/Usable.antt =====
-- Which callback the library may call: the class of the closure that a function makes against the
-- class that its extern "C" function casts to.
use zenoh_cpp.Result.{ZResult, is_ok, fails_with}
use zenoh_cpp.Base.{ℕ, ◌≡◌, refl, List, false, Option, none, some}
use zenoh_cpp.Closures.{Process, calls, drops, use_closure, run}
use zenoh_cpp.Closures.Lifetime.{IsFresh, calls_then_drop}
use zenoh_cpp.Session.Options.{
  GetOptions, QueryableOptions, SubscriberOptions, HistoryOptions, LinkEventsListenerOptions,
  LivelinessGetOptions, QuerierGetOptions,
}
use zenoh_cpp.Session.Requests.{World, Library, Contract}
use zenoh_cpp.Session.Callbacks.{
  Plan, execute, get, declare_queryable, declare_background_queryable, declare_subscriber,
  declare_background_subscriber, declare_transport_events_listener,
  declare_background_transport_events_listener, declare_link_events_listener,
  declare_background_link_events_listener, liveliness_declare_subscriber,
  liveliness_declare_background_subscriber, liveliness_get, querier_get,
  publisher_matching_listener, publisher_background_matching_listener, querier_matching_listener,
  querier_background_matching_listener, scout,
}
use zenoh_cpp.Session.Carried.{Carries, on_each, carried_calls, carried_failure, miscast_unusable}
use zenoh_cpp.Session.Release.{submitted, with_closure, answer}

-- Every call that takes a callback, with its arguments.
pub data CallbackCall (Obj Pod : Type 0) : Type 0 where
  of_get : (session key : Obj) (parameters : List ℕ) → GetOptions Obj Pod → CallbackCall Obj Pod
  of_queryable : (session key : Obj) → QueryableOptions Obj Pod → CallbackCall Obj Pod
  of_background_queryable : (session key : Obj) → QueryableOptions Obj Pod → CallbackCall Obj Pod
  of_subscriber : (session key : Obj) → SubscriberOptions Obj Pod → CallbackCall Obj Pod
  of_background_subscriber : (session key : Obj) → SubscriberOptions Obj Pod → CallbackCall Obj Pod
  of_transport_events : (session : Obj) → HistoryOptions Obj Pod → CallbackCall Obj Pod
  of_background_transport_events : (session : Obj) → HistoryOptions Obj Pod → CallbackCall Obj Pod
  of_link_events : (session : Obj) → LinkEventsListenerOptions Obj Pod → CallbackCall Obj Pod
  of_background_link_events :
      (session : Obj) → LinkEventsListenerOptions Obj Pod → CallbackCall Obj Pod
  of_liveliness_subscriber : (session key : Obj) → HistoryOptions Obj Pod → CallbackCall Obj Pod
  of_liveliness_background_subscriber :
      (session key : Obj) → HistoryOptions Obj Pod → CallbackCall Obj Pod
  of_liveliness_get : (session key : Obj) → LivelinessGetOptions Obj Pod → CallbackCall Obj Pod
  of_querier_get :
      (querier : Obj) (parameters : List ℕ) → QuerierGetOptions Obj Pod → CallbackCall Obj Pod
  of_publisher_matching : (publisher : Obj) → CallbackCall Obj Pod
  of_publisher_background_matching : (publisher : Obj) → CallbackCall Obj Pod
  of_querier_matching : (querier : Obj) → CallbackCall Obj Pod
  of_querier_background_matching : (querier : Obj) → CallbackCall Obj Pod

module _ {U V : Type 0} (lib : Library U V) where
  open lib use {State, Obj, Pod}

  abbrev pub plan_of : (V → U → U) → (U → U) → CallbackCall Obj Pod → Plan U V Obj Pod
  plan_of f d (of_get s k q o) = get f d s k q o
  plan_of f d (of_queryable s k o) = declare_queryable f d s k o
  plan_of f d (of_background_queryable s k o) = declare_background_queryable f d s k o
  plan_of f d (of_subscriber s k o) = declare_subscriber f d s k o
  plan_of f d (of_background_subscriber s k o) = declare_background_subscriber f d s k o
  plan_of f d (of_transport_events s o) = declare_transport_events_listener f d s o
  plan_of f d (of_background_transport_events s o) =
      declare_background_transport_events_listener f d s o
  plan_of f d (of_link_events s o) = declare_link_events_listener f d s o
  plan_of f d (of_background_link_events s o) = declare_background_link_events_listener f d s o
  plan_of f d (of_liveliness_subscriber s k o) = liveliness_declare_subscriber f d s k o
  plan_of f d (of_liveliness_background_subscriber s k o) =
      liveliness_declare_background_subscriber f d s k o
  plan_of f d (of_liveliness_get s k o) = liveliness_get f d s k o
  plan_of f d (of_querier_get q ps o) = querier_get f d q ps o
  plan_of f d (of_publisher_matching p) = publisher_matching_listener f d p
  plan_of f d (of_publisher_background_matching p) = publisher_background_matching_listener f d p
  plan_of f d (of_querier_matching q) = querier_matching_listener f d q
  plan_of f d (of_querier_background_matching q) = querier_background_matching_listener f d q

  -- What the closure of a call is made of.
  plan_of-fields :
      (on : V → U → U) (on_drop : U → U) (c : CallbackCall Obj Pod)
      → Carries on on_drop (plan_of on on_drop c)
  unfolding get declare_queryable declare_background_queryable declare_subscriber
      declare_background_subscriber declare_transport_events_listener
      declare_background_transport_events_listener declare_link_events_listener
      declare_background_link_events_listener liveliness_declare_subscriber
      liveliness_declare_background_subscriber liveliness_get querier_get
      publisher_matching_listener publisher_background_matching_listener querier_matching_listener
      querier_background_matching_listener
  plan_of-fields f d (of_get s k q o) = (refl, refl, refl, λ x. refl)
  plan_of-fields f d (of_queryable s k o) = (refl, refl, refl, λ x. refl)
  plan_of-fields f d (of_background_queryable s k o) = (refl, refl, refl, λ x. refl)
  plan_of-fields f d (of_subscriber s k o) = (refl, refl, refl, λ x. refl)
  plan_of-fields f d (of_background_subscriber s k o) = (refl, refl, refl, λ x. refl)
  plan_of-fields f d (of_transport_events s o) = (refl, refl, refl, λ x. refl)
  plan_of-fields f d (of_background_transport_events s o) = (refl, refl, refl, λ x. refl)
  plan_of-fields f d (of_link_events s o) = (refl, refl, refl, λ x. refl)
  plan_of-fields f d (of_background_link_events s o) = (refl, refl, refl, λ x. refl)
  plan_of-fields f d (of_liveliness_subscriber s k o) = (refl, refl, refl, λ x. refl)
  plan_of-fields f d (of_liveliness_background_subscriber s k o) = (refl, refl, refl, λ x. refl)
  plan_of-fields f d (of_liveliness_get s k o) = (refl, refl, refl, λ x. refl)
  plan_of-fields f d (of_querier_get q ps o) = (refl, refl, refl, λ x. refl)
  plan_of-fields f d (of_publisher_matching p) = (refl, refl, refl, λ x. refl)
  plan_of-fields f d (of_publisher_background_matching p) = (refl, refl, refl, λ x. refl)
  plan_of-fields f d (of_querier_matching q) = (refl, refl, refl, λ x. refl)
  plan_of-fields f d (of_querier_background_matching q) = (refl, refl, refl, λ x. refl)

  -- Every function of Session, Publisher and Querier that takes a callback submits a closure that the
  -- C library can call with any values and then drop, with no undefined step: the program sees `on`
  -- run on each value in order and then `on_drop` once, and no address of the heap is left in use.
  pub plan_of-calls :
      (on : V → U → U) (on_drop : U → U) (c : CallbackCall Obj Pod) (vs : List V)
      (w : World U V State)
      → IsFresh w.process
      → (q : Process U V) × (run
            (calls_then_drop (submitted lib (plan_of on on_drop c) w) vs)
            (with_closure lib (plan_of on on_drop c) w).process
          ≡ some q)
        × (q.user ≡ on_each on on_drop vs w.process.user)
        × ((a : ℕ) → q.closures a ≡ w.process.closures a)
  plan_of-calls on on_drop c vs w =
      carried_calls lib on on_drop _ vs w (plan_of-fields on on_drop c)

  -- The closure that zenoh::scout submits cannot be called: the extern "C" function casts its context
  -- to a class that it is not, whatever the value is. It can still be dropped.
  pub scout-unusable :
      (on : V → U → U) (on_drop : U → U) (config : Obj) (timeout_ms what : ℕ) (v : V)
      (w : World U V State)
      → let plan = scout on on_drop config timeout_ms what in
        (use_closure (submitted lib plan w) (calls v) (with_closure lib plan w).process ≡ none)
        × ((q : Process U V) × (use_closure
                (submitted lib plan w)
                drops
                (with_closure lib plan w).process
              ≡ some q)
            × (q.user ≡ on_drop w.process.user))
  unfolding scout
  scout-unusable on on_drop config timeout_ms what v w =
      miscast_unusable lib (scout on on_drop config timeout_ms what) v w refl

  -- A function of Session, Publisher or Querier that takes a callback, when its C call fails, throws the
  -- code or writes it to `*err`. Under the contract of the C library, `on_drop` has then run once and
  -- `on` never, and every address of the heap holds what it held before the call.
  pub plan_of-failure :
      (contract : Contract lib) (on : V → U → U) (on_drop : U → U) (c : CallbackCall Obj Pod)
      (err : Option ZResult) (w : World U V State)
      → IsFresh w.process
      → is_ok (answer lib (plan_of on on_drop c) w).0.0 ≡ false
      → let ((code, obj), w') = answer lib (plan_of on on_drop c) w in
        (execute lib (plan_of on on_drop c) err w ≡ fails_with code obj err w')
        × (w'.process.user ≡ on_drop w.process.user)
        × ((a : ℕ) → w'.process.closures a ≡ w.process.closures a)
  plan_of-failure contract on on_drop c err w =
      carried_failure lib contract on on_drop _ err w (plan_of-fields on on_drop c)
