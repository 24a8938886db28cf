-- ===== src/Extension/Miscast.antt =====
-- The closures whose extern "C" function casts their context to another class, of scout.hxx and of the
-- extension.
use zenoh_cpp.Base.{ℕ, ◌≡◌, none, some}
use zenoh_cpp.Closures.{Process, calls, drops, use_closure}
use zenoh_cpp.Session.Requests.{World, Library}
use zenoh_cpp.Session.Callbacks.{Plan, scout}
use zenoh_cpp.Session.Release.{submitted, with_closure}
use zenoh_cpp.Session.Usable.{scout-unusable}
use zenoh_cpp.Extension.Usable.{ConstSampleCall, const_sample_plan, const_sample_plan-unusable}

pub data MiscastCall (Obj Pod : Type 0) : Type 0 where
  of_scout : (config : Obj) (timeout_ms what : ℕ) → MiscastCall Obj Pod
  of_const_sample : ConstSampleCall Obj Pod → MiscastCall Obj Pod

module _ {U V : Type 0} (lib : Library U V) where
  open lib use {State, Obj, Pod}

  abbrev pub miscast_plan : (V → U → U) → (U → U) → MiscastCall Obj Pod → Plan U V Obj Pod
  miscast_plan f d (of_scout config timeout_ms what) = scout f d config timeout_ms what
  miscast_plan f d (of_const_sample c) = const_sample_plan lib f d c

  -- The closures that zenoh::scout, declare_background_querying_subscriber, declare_advanced_subscriber
  -- and declare_background_advanced_subscriber submit cannot be called, whatever the value is: the
  -- extern "C" function casts the context to a class that the closure is not of. They can still be
  -- dropped, which runs `on_drop`.
  pub miscast_plan-unusable :
      (on : V → U → U) (on_drop : U → U) (c : MiscastCall Obj Pod) (v : V) (w : World U V State)
      → let plan = miscast_plan on on_drop c in
        (use_closure (submitted lib plan w) (calls v) (with_closure lib plan w).process ≡ none)
        × ((q : Process U V) × (use_closure
                (submitted lib plan w)
                drops
                (with_closure lib plan w).process
              ≡ some q)
            × (q.user ≡ on_drop w.process.user))
  miscast_plan-unusable f d (of_scout config timeout_ms what) v w =
      scout-unusable lib f d config timeout_ms what v w
  miscast_plan-unusable f d (of_const_sample c) v w = const_sample_plan-unusable lib f d c v w
