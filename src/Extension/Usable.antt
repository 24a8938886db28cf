-- ===== src/Extension/Usable.antt =====
-- Which callbacks of the extension the C library may call, and what a failed call leaves.
use zenoh_cpp.Base.{ℕ, ◌≡◌, ◌⊎◌, refl, ap, ◌∙◌, List, none, some, Option, false, inl, inr}
use zenoh_cpp.Result.{ZResult, is_ok, fails_with}
use zenoh_cpp.Closures.{Process, calls, drops, use_closure, run}
use zenoh_cpp.Closures.Lifetime.{IsFresh, calls_then_drop}
use zenoh_cpp.Session.Options.{HistoryOptions}
use zenoh_cpp.Session.Requests.{AnyClosure, moved_closure, World, Library, Contract}
use zenoh_cpp.Session.Callbacks.{Plan, execute}
use zenoh_cpp.Session.Release.{submitted, with_closure, answer, execute_failure}
use zenoh_cpp.Session.Carried.{Carries, on_each, carried_calls, miscast_unusable}
use zenoh_cpp.Extension.Options.{QueryingSubscriberOptions, AdvancedSubscriberOptions, Defaults}
use zenoh_cpp.Extension.Callbacks.{
  declare_querying_subscriber, declare_background_querying_subscriber, declare_advanced_subscriber,
  declare_background_advanced_subscriber, advanced_matching_listener,
  advanced_background_matching_listener, declare_sample_miss_listener,
  declare_background_sample_miss_listener, detect_publishers, detect_publishers_background,
}

-- The calls whose closure is of the class that its extern "C" function casts to.
pub data MatchedCall (Obj Pod : Type 0) : Type 0 where
  of_querying_subscriber :
      (session key : Obj) → QueryingSubscriberOptions Obj Pod → MatchedCall Obj Pod
  of_advanced_matching : (publisher : Obj) → MatchedCall Obj Pod
  of_advanced_background_matching : (publisher : Obj) → MatchedCall Obj Pod
  of_sample_miss : (subscriber : Obj) → MatchedCall Obj Pod
  of_background_sample_miss : (subscriber : Obj) → MatchedCall Obj Pod
  of_detect_publishers : (subscriber : Obj) → HistoryOptions Obj Pod → MatchedCall Obj Pod
  of_detect_publishers_background :
      (subscriber : Obj) → HistoryOptions Obj Pod → MatchedCall Obj Pod

-- The calls whose closure is of `const Sample&`.
pub data ConstSampleCall (Obj Pod : Type 0) : Type 0 where
  of_background_querying_subscriber :
      (session key : Obj) → QueryingSubscriberOptions Obj Pod → ConstSampleCall Obj Pod
  of_advanced_subscriber :
      Defaults → (session key : Obj) → AdvancedSubscriberOptions Obj Pod → ConstSampleCall Obj Pod
  of_background_advanced_subscriber :
      Defaults → (session key : Obj) → AdvancedSubscriberOptions Obj Pod → ConstSampleCall Obj Pod

module _ {U V : Type 0} (lib : Library U V) where
  open lib use {State, Obj, Pod}

  abbrev pub matched_plan : (V → U → U) → (U → U) → MatchedCall Obj Pod → Plan U V Obj Pod
  matched_plan f d (of_querying_subscriber s k o) = declare_querying_subscriber f d s k o
  matched_plan f d (of_advanced_matching p) = advanced_matching_listener f d p
  matched_plan f d (of_advanced_background_matching p) = advanced_background_matching_listener f d p
  matched_plan f d (of_sample_miss s) = declare_sample_miss_listener f d s
  matched_plan f d (of_background_sample_miss s) = declare_background_sample_miss_listener f d s
  matched_plan f d (of_detect_publishers s o) = detect_publishers f d s o
  matched_plan f d (of_detect_publishers_background s o) = detect_publishers_background f d s o

  abbrev pub const_sample_plan : (V → U → U) → (U → U) → ConstSampleCall Obj Pod → Plan U V Obj Pod
  const_sample_plan f d (of_background_querying_subscriber s k o) =
      declare_background_querying_subscriber f d s k o
  const_sample_plan f d (of_advanced_subscriber c s k o) = declare_advanced_subscriber f d c s k o
  const_sample_plan f d (of_background_advanced_subscriber c s k o) =
      declare_background_advanced_subscriber f d c s k o

  matched_plan-Carries :
      (on : V → U → U) (on_drop : U → U) (c : MatchedCall Obj Pod)
      → Carries on on_drop (matched_plan on on_drop c)
  unfolding declare_querying_subscriber advanced_matching_listener
      advanced_background_matching_listener declare_sample_miss_listener
      declare_background_sample_miss_listener detect_publishers detect_publishers_background
  matched_plan-Carries f d (of_querying_subscriber s k o) = (refl, refl, refl, λ x. refl)
  matched_plan-Carries f d (of_advanced_matching p) = (refl, refl, refl, λ x. refl)
  matched_plan-Carries f d (of_advanced_background_matching p) = (refl, refl, refl, λ x. refl)
  matched_plan-Carries f d (of_sample_miss s) = (refl, refl, refl, λ x. refl)
  matched_plan-Carries f d (of_background_sample_miss s) = (refl, refl, refl, λ x. refl)
  matched_plan-Carries f d (of_detect_publishers s o) = (refl, refl, refl, λ x. refl)
  matched_plan-Carries f d (of_detect_publishers_background s o) = (refl, refl, refl, λ x. refl)

  -- The closures that declare_querying_subscriber, the matching listeners of an AdvancedPublisher and
  -- the miss listeners and detect_publishers of an AdvancedSubscriber submit can be called by the C
  -- library with any values and then dropped, with no undefined step: the program sees `on` run on
  -- each value in order and then `on_drop` once, and no address of the heap is left in use.
  pub matched_plan-calls :
      (on : V → U → U) (on_drop : U → U) (c : MatchedCall Obj Pod) (vs : List V)
      (w : World U V State)
      → IsFresh w.process
      → (q : Process U V) × (run
            (calls_then_drop (submitted lib (matched_plan on on_drop c) w) vs)
            (with_closure lib (matched_plan on on_drop c) w).process
          ≡ some q)
        × (q.user ≡ on_each on on_drop vs w.process.user)
        × ((a : ℕ) → q.closures a ≡ w.process.closures a)
  matched_plan-calls on on_drop c vs w =
      carried_calls lib on on_drop _ vs w (matched_plan-Carries on on_drop c)

  const_sample_plan-moves :
      (on : V → U → U) (on_drop : U → U) (c : ConstSampleCall Obj Pod) (k : AnyClosure Obj)
      → moved_closure ((const_sample_plan on on_drop c).request k) ≡ some k
  unfolding declare_background_querying_subscriber declare_advanced_subscriber
      declare_background_advanced_subscriber
  const_sample_plan-moves f d (of_background_querying_subscriber s k o) x = refl
  const_sample_plan-moves f d (of_advanced_subscriber c s k o) x = refl
  const_sample_plan-moves f d (of_background_advanced_subscriber c s k o) x = refl

  -- The closures that declare_background_querying_subscriber, declare_advanced_subscriber and
  -- declare_background_advanced_subscriber submit cannot be called, whatever the value is: the extern
  -- "C" function casts the context to a class that the closure is not of. They can still be dropped,
  -- which runs `on_drop`.
  pub const_sample_plan-unusable :
      (on : V → U → U) (on_drop : U → U) (c : ConstSampleCall Obj Pod) (v : V) (w : World U V State)
      → let plan = const_sample_plan on on_drop c in
        (use_closure (submitted lib plan w) (calls v) (with_closure lib plan w).process ≡ none)
        × ((q : Process U V) × (use_closure
                (submitted lib plan w)
                drops
                (with_closure lib plan w).process
              ≡ some q)
            × (q.user ≡ on_drop w.process.user))
  unfolding declare_background_querying_subscriber declare_advanced_subscriber
      declare_background_advanced_subscriber
  const_sample_plan-unusable f d (of_background_querying_subscriber s k o) v w =
      miscast_unusable lib (declare_background_querying_subscriber f d s k o) v w refl
  const_sample_plan-unusable f d (of_advanced_subscriber c s k o) v w =
      miscast_unusable lib (declare_advanced_subscriber f d c s k o) v w refl
  const_sample_plan-unusable f d (of_background_advanced_subscriber c s k o) v w =
      miscast_unusable lib (declare_background_advanced_subscriber f d c s k o) v w refl

  -- The plan of each call of the extension that takes a callback.
  abbrev pub extension_plan :
      (V → U → U) → (U → U) → MatchedCall Obj Pod ⊎ ConstSampleCall Obj Pod → Plan U V Obj Pod
  extension_plan f d (inl c) = matched_plan f d c
  extension_plan f d (inr c) = const_sample_plan f d c

  extension_plan-fields :
      (on : V → U → U) (on_drop : U → U) (c : MatchedCall Obj Pod ⊎ ConstSampleCall Obj Pod)
      → ((extension_plan on on_drop c).closure.drop ≡ on_drop)
        × ((k : AnyClosure Obj) → moved_closure ((extension_plan on on_drop c).request k) ≡ some k)
  unfolding declare_background_querying_subscriber declare_advanced_subscriber
      declare_background_advanced_subscriber
  extension_plan-fields f d (inl c) =
      let (usable, ec, ed, moves) = matched_plan-Carries f d c in (ed, moves)
  extension_plan-fields f d (inr (of_background_querying_subscriber s k o)) = (refl, λ x. refl)
  extension_plan-fields f d (inr (of_advanced_subscriber c s k o)) = (refl, λ x. refl)
  extension_plan-fields f d (inr (of_background_advanced_subscriber c s k o)) = (refl, λ x. refl)

  -- A function of the extension that takes a callback, when its C call fails, throws the code or
  -- writes it to `*err`. Under the contract of the C library, `on_drop` has then run once and `on`
  -- never, and every address of the heap holds what it held before the call.
  pub extension_plan-failure :
      (contract : Contract lib) (on : V → U → U) (on_drop : U → U)
      (c : MatchedCall Obj Pod ⊎ ConstSampleCall Obj Pod) (err : Option ZResult)
      (w : World U V State)
      → IsFresh w.process
      → is_ok (answer lib (extension_plan on on_drop c) w).0.0 ≡ false
      → let ((code, obj), w') = answer lib (extension_plan on on_drop c) w in
        (execute lib (extension_plan on on_drop c) err w ≡ fails_with code obj err w')
        × (w'.process.user ≡ on_drop w.process.user)
        × ((a : ℕ) → w'.process.closures a ≡ w.process.closures a)
  extension_plan-failure contract on on_drop c err w fresh fails =
      let (ed, moves) = extension_plan-fields on on_drop c in
      let (e, eu, heap) = execute_failure lib contract _ err w fresh moves fails in
      (e, eu ∙ ap (λ d. d w.process.user) ed, heap)
