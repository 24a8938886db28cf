-- ===== src/Session/Requests.antt =====
-- The C library behind a session, as a parameter: the functions that the C++ code calls, with the
-- arguments that it passes, and the promises that the code relies on.
use zenoh_cpp.Base.{ℕ, ◌≡◌, List, false, Option, none, some}
use zenoh_cpp.Result.{ZResult, is_ok}
use zenoh_cpp.Closures.{Process, CClosure, Arg, delete_from_context}
use zenoh_cpp.Session.Options.{COptions}
use zenoh_cpp.Extension.Options.{ExtOptions}

-- A C closure over a C++ callback, or the one that fills a channel.
pub data AnyClosure (Obj : Type 0) : Type 0 where
  callback : CClosure → AnyClosure Obj
  channel_closure : Obj → AnyClosure Obj

-- A call of a C function. The first argument is the object that it is called on.
module _ (Obj Pod : Type 0) where
  pub data Request : Type 0 where
    z_get : (session key : Obj) (parameters : List ℕ) → AnyClosure Obj → COptions Obj Pod → Request
    z_liveliness_get : (session key : Obj) → AnyClosure Obj → COptions Obj Pod → Request
    z_querier_get :
        (querier : Obj) (parameters : List ℕ) → AnyClosure Obj → COptions Obj Pod → Request
    z_declare_queryable : (session key : Obj) → AnyClosure Obj → COptions Obj Pod → Request
    z_declare_background_queryable :
        (session key : Obj) → AnyClosure Obj → COptions Obj Pod → Request
    z_declare_subscriber : (session key : Obj) → AnyClosure Obj → COptions Obj Pod → Request
    z_declare_background_subscriber :
        (session key : Obj) → AnyClosure Obj → COptions Obj Pod → Request
    z_liveliness_declare_subscriber :
        (session key : Obj) → AnyClosure Obj → COptions Obj Pod → Request
    z_liveliness_declare_background_subscriber :
        (session key : Obj) → AnyClosure Obj → COptions Obj Pod → Request
    z_declare_transport_events_listener :
        (session : Obj) → AnyClosure Obj → COptions Obj Pod → Request
    z_declare_background_transport_events_listener :
        (session : Obj) → AnyClosure Obj → COptions Obj Pod → Request
    z_declare_link_events_listener : (session : Obj) → AnyClosure Obj → COptions Obj Pod → Request
    z_declare_background_link_events_listener :
        (session : Obj) → AnyClosure Obj → COptions Obj Pod → Request
    z_publisher_declare_matching_listener : (publisher : Obj) → AnyClosure Obj → Request
    z_publisher_declare_background_matching_listener : (publisher : Obj) → AnyClosure Obj → Request
    z_querier_declare_matching_listener : (querier : Obj) → AnyClosure Obj → Request
    z_querier_declare_background_matching_listener : (querier : Obj) → AnyClosure Obj → Request
    z_scout : (config : Obj) → AnyClosure Obj → (timeout_ms what : ℕ) → Request
    z_put : (session key payload : Obj) → COptions Obj Pod → Request
    z_delete : (session key : Obj) → COptions Obj Pod → Request
    z_publisher_put : (publisher payload : Obj) → COptions Obj Pod → Request
    z_publisher_delete : (publisher : Obj) → COptions Obj Pod → Request
    z_query_reply : (query key payload : Obj) → COptions Obj Pod → Request
    z_query_reply_err : (query payload : Obj) → COptions Obj Pod → Request
    z_query_reply_del : (query key : Obj) → COptions Obj Pod → Request
    z_declare_publisher : (session key : Obj) → COptions Obj Pod → Request
    z_declare_querier : (session key : Obj) → COptions Obj Pod → Request
    z_declare_keyexpr : (session key : Obj) → Request
    z_undeclare_keyexpr : (session key : Obj) → Request
    z_liveliness_declare_token : (session key : Obj) → Request
    z_undeclare_subscriber : (subscriber : Obj) → Request
    z_undeclare_queryable : (queryable : Obj) → Request
    z_undeclare_publisher : (publisher : Obj) → Request
    z_undeclare_querier : (querier : Obj) → Request
    z_undeclare_matching_listener : (listener : Obj) → Request
    z_undeclare_transport_events_listener : (listener : Obj) → Request
    z_undeclare_link_events_listener : (listener : Obj) → Request
    z_liveliness_undeclare_token : (token : Obj) → Request
    z_close : (session : Obj) → Request
    ze_declare_querying_subscriber :
        (session key : Obj) → AnyClosure Obj → ExtOptions Obj Pod → Request
    ze_declare_background_querying_subscriber :
        (session key : Obj) → AnyClosure Obj → ExtOptions Obj Pod → Request
    ze_declare_advanced_subscriber :
        (session key : Obj) → AnyClosure Obj → ExtOptions Obj Pod → Request
    ze_declare_background_advanced_subscriber :
        (session key : Obj) → AnyClosure Obj → ExtOptions Obj Pod → Request
    ze_advanced_subscriber_detect_publishers :
        (subscriber : Obj) → AnyClosure Obj → COptions Obj Pod → Request
    ze_advanced_subscriber_detect_publishers_background :
        (subscriber : Obj) → AnyClosure Obj → COptions Obj Pod → Request
    ze_advanced_publisher_declare_matching_listener : (publisher : Obj) → AnyClosure Obj → Request
    ze_advanced_publisher_declare_background_matching_listener :
        (publisher : Obj) → AnyClosure Obj → Request
    ze_advanced_subscriber_declare_sample_miss_listener :
        (subscriber : Obj) → AnyClosure Obj → Request
    ze_advanced_subscriber_declare_background_sample_miss_listener :
        (subscriber : Obj) → AnyClosure Obj → Request
    ze_declare_publication_cache : (session key : Obj) → ExtOptions Obj Pod → Request
    ze_declare_background_publication_cache : (session key : Obj) → ExtOptions Obj Pod → Request
    ze_declare_advanced_publisher : (session key : Obj) → ExtOptions Obj Pod → Request
    ze_advanced_publisher_put : (publisher payload : Obj) → ExtOptions Obj Pod → Request
    ze_advanced_publisher_delete : (publisher : Obj) → ExtOptions Obj Pod → Request
    ze_querying_subscriber_get : (subscriber key : Obj) → COptions Obj Pod → Request
    ze_undeclare_advanced_publisher : (publisher : Obj) → Request
    ze_undeclare_advanced_subscriber : (subscriber : Obj) → Request
    ze_undeclare_querying_subscriber : (subscriber : Obj) → Request
    ze_undeclare_publication_cache : (cache : Obj) → Request
    ze_undeclare_sample_miss_listener : (listener : Obj) → Request

-- The closure of a C++ callback that a call moves into the library.
abbrev pub moved_closure : {Obj Pod : Type 0} → Request Obj Pod → Option (AnyClosure Obj)
moved_closure (z_get s k q c o) = some c
moved_closure (z_liveliness_get s k c o) = some c
moved_closure (z_querier_get s q c o) = some c
moved_closure (z_declare_queryable s k c o) = some c
moved_closure (z_declare_background_queryable s k c o) = some c
moved_closure (z_declare_subscriber s k c o) = some c
moved_closure (z_declare_background_subscriber s k c o) = some c
moved_closure (z_liveliness_declare_subscriber s k c o) = some c
moved_closure (z_liveliness_declare_background_subscriber s k c o) = some c
moved_closure (z_declare_transport_events_listener s c o) = some c
moved_closure (z_declare_background_transport_events_listener s c o) = some c
moved_closure (z_declare_link_events_listener s c o) = some c
moved_closure (z_declare_background_link_events_listener s c o) = some c
moved_closure (z_publisher_declare_matching_listener s c) = some c
moved_closure (z_publisher_declare_background_matching_listener s c) = some c
moved_closure (z_querier_declare_matching_listener s c) = some c
moved_closure (z_querier_declare_background_matching_listener s c) = some c
moved_closure (z_scout s c t w) = some c
moved_closure (ze_declare_querying_subscriber s k c o) = some c
moved_closure (ze_declare_background_querying_subscriber s k c o) = some c
moved_closure (ze_declare_advanced_subscriber s k c o) = some c
moved_closure (ze_declare_background_advanced_subscriber s k c o) = some c
moved_closure (ze_advanced_subscriber_detect_publishers s c o) = some c
moved_closure (ze_advanced_subscriber_detect_publishers_background s c o) = some c
moved_closure (ze_advanced_publisher_declare_matching_listener s c) = some c
moved_closure (ze_advanced_publisher_declare_background_matching_listener s c) = some c
moved_closure (ze_advanced_subscriber_declare_sample_miss_listener s c) = some c
moved_closure (ze_advanced_subscriber_declare_background_sample_miss_listener s c) = some c
moved_closure r = none

-- The C++ process and the state of the C library.
pub record World (U V L : Type 0) : Type 0 where
  pub process : Process U V
  pub library : L

pub data ChannelKind : Type 0 where
  fifo ring : ChannelKind

pub record Library (U V : Type 0) : Type 1 where
  pub State : Type 0
  pub Obj : Type 0
  pub Pod : Type 0
  -- The result code, and the object that the call leaves in its output parameter.
  pub invoke : Request Obj Pod → World U V State → (ZResult × Obj) × World U V State
  -- z_drop(z_move(x))
  pub z_drop : Obj → World U V State → World U V State
  -- z_fifo_channel_sample_new and so on: a closure and the handler that it fills.
  pub channel_new : ChannelKind → Arg → ℕ → World U V State → (Obj × Obj) × World U V State

-- A C function that takes a closure owns it: when the call fails, it has dropped the closure and
-- nothing else of the C++ program.
pub record Contract {U V : Type 0} (lib : Library U V) : Type 0 where
  pub drops_on_error :
      (r : Request lib.Obj lib.Pod) (k : CClosure) (w : World U V lib.State) (p : Process U V)
      → moved_closure r ≡ some (callback k)
      → delete_from_context k.context w.process ≡ some p
      → is_ok (lib.invoke r w).0.0 ≡ false
      → (lib.invoke r w).1.process ≡ p
