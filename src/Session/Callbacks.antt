-- ===== src/Session/Callbacks.antt =====
-- The functions that take a callback `on` and an `on_drop`: get, declare_* and scout.
-- Each makes a Closure on the heap, wraps it with the extern "C" function for its argument type,
-- calls one C function with it, and checks the result. A `Plan` is what differs between them.
use zenoh_cpp.Base.{ℕ, List}
use zenoh_cpp.Result.{M, pure, ◌>>=◌, ◌>>◌, c_call, result_check}
use zenoh_cpp.Closures.{
  Closure, reply, sample, query, const_hello, transport_event, link_event, matching_status,
  CallFunction, zenoh_on_reply_call, zenoh_on_sample_call, zenoh_on_query_call, zenoh_on_hello_call,
  zenoh_on_transport_event_call, zenoh_on_link_event_call, zenoh_on_status_change_call,
  into_context,
}
use zenoh_cpp.Session.Options.{
  GetOptions, QueryableOptions, SubscriberOptions, HistoryOptions, LinkEventsListenerOptions,
  LivelinessGetOptions, QuerierGetOptions, get_to_c, queryable_to_c, subscriber_to_c,
  transport_events_to_c, liveliness_subscriber_to_c, link_events_to_c, liveliness_get_to_c,
  querier_get_to_c,
}
use zenoh_cpp.Session.Requests.{
  AnyClosure, callback, Request, z_get, z_liveliness_get, z_querier_get, z_declare_queryable,
  z_declare_background_queryable, z_declare_subscriber, z_declare_background_subscriber,
  z_liveliness_declare_subscriber, z_liveliness_declare_background_subscriber,
  z_declare_transport_events_listener, z_declare_background_transport_events_listener,
  z_declare_link_events_listener, z_declare_background_link_events_listener,
  z_publisher_declare_matching_listener, z_publisher_declare_background_matching_listener,
  z_querier_declare_matching_listener, z_querier_declare_background_matching_listener, z_scout,
  World, Library,
}

-- `Closure<Cval, Dval, void, Args...>`, the extern "C" function given to z_closure, and the C call.
pub record Plan (U V Obj Pod : Type 0) : Type 0 where
  pub closure : Closure U V
  pub function : CallFunction
  pub request : AnyClosure Obj → Request Obj Pod

module _ {U V : Type 0} (lib : Library U V) where
  open lib use {State, Obj, Pod, invoke}

  -- `new Closure(..)`
  abbrev pub new_closure : Closure U V → World U V State → ℕ × World U V State
  new_closure c w =
      let (context, p) = into_context c w.process in (context, record w { process = p })

  -- The body that these functions share. The value is the declared object, for those that return it.
  unfoldable pub execute : Plan U V Obj Pod → M (World U V State) Obj
  execute plan = do
    context ← c_call (new_closure plan.closure)
    let c_closure = callback (record { function = plan.function; context = context })
    (res, obj) ← c_call (invoke (plan.request c_closure))
    result_check res
    pure obj

module _ {U V Obj Pod : Type 0} (on : V → U → U) (on_drop : U → U) where
  -- Session::get
  unfoldable pub get :
      (session key : Obj) (parameters : List ℕ) → GetOptions Obj Pod → Plan U V Obj Pod
  get session key parameters o = record {
    closure = record { arg = reply; call = on; drop = on_drop };
    function = zenoh_on_reply_call;
    request = λ c. z_get session key parameters c (get_to_c o);
  }

  unfoldable pub declare_queryable :
      (session key : Obj) → QueryableOptions Obj Pod → Plan U V Obj Pod
  declare_queryable session key o = record {
    closure = record { arg = query; call = on; drop = on_drop };
    function = zenoh_on_query_call;
    request = λ c. z_declare_queryable session key c (queryable_to_c o);
  }

  unfoldable pub declare_background_queryable :
      (session key : Obj) → QueryableOptions Obj Pod → Plan U V Obj Pod
  declare_background_queryable session key o = record {
    closure = record { arg = query; call = on; drop = on_drop };
    function = zenoh_on_query_call;
    request = λ c. z_declare_background_queryable session key c (queryable_to_c o);
  }

  unfoldable pub declare_subscriber :
      (session key : Obj) → SubscriberOptions Obj Pod → Plan U V Obj Pod
  declare_subscriber session key o = record {
    closure = record { arg = sample; call = on; drop = on_drop };
    function = zenoh_on_sample_call;
    request = λ c. z_declare_subscriber session key c (subscriber_to_c o);
  }

  unfoldable pub declare_background_subscriber :
      (session key : Obj) → SubscriberOptions Obj Pod → Plan U V Obj Pod
  declare_background_subscriber session key o = record {
    closure = record { arg = sample; call = on; drop = on_drop };
    function = zenoh_on_sample_call;
    request = λ c. z_declare_background_subscriber session key c (subscriber_to_c o);
  }

  unfoldable pub declare_transport_events_listener :
      (session : Obj) → HistoryOptions Obj Pod → Plan U V Obj Pod
  declare_transport_events_listener session o = record {
    closure = record { arg = transport_event; call = on; drop = on_drop };
    function = zenoh_on_transport_event_call;
    request = λ c. z_declare_transport_events_listener session c (transport_events_to_c o);
  }

  unfoldable pub declare_background_transport_events_listener :
      (session : Obj) → HistoryOptions Obj Pod → Plan U V Obj Pod
  declare_background_transport_events_listener session o = record {
    closure = record { arg = transport_event; call = on; drop = on_drop };
    function = zenoh_on_transport_event_call;
    request =
        λ c. z_declare_background_transport_events_listener session c (transport_events_to_c o);
  }

  unfoldable pub declare_link_events_listener :
      (session : Obj) → LinkEventsListenerOptions Obj Pod → Plan U V Obj Pod
  declare_link_events_listener session o = record {
    closure = record { arg = link_event; call = on; drop = on_drop };
    function = zenoh_on_link_event_call;
    request = λ c. z_declare_link_events_listener session c (link_events_to_c o);
  }

  unfoldable pub declare_background_link_events_listener :
      (session : Obj) → LinkEventsListenerOptions Obj Pod → Plan U V Obj Pod
  declare_background_link_events_listener session o = record {
    closure = record { arg = link_event; call = on; drop = on_drop };
    function = zenoh_on_link_event_call;
    request = λ c. z_declare_background_link_events_listener session c (link_events_to_c o);
  }

  unfoldable pub liveliness_declare_subscriber :
      (session key : Obj) → HistoryOptions Obj Pod → Plan U V Obj Pod
  liveliness_declare_subscriber session key o = record {
    closure = record { arg = sample; call = on; drop = on_drop };
    function = zenoh_on_sample_call;
    request = λ c. z_liveliness_declare_subscriber session key c (liveliness_subscriber_to_c o);
  }

  unfoldable pub liveliness_declare_background_subscriber :
      (session key : Obj) → HistoryOptions Obj Pod → Plan U V Obj Pod
  liveliness_declare_background_subscriber session key o = record {
    closure = record { arg = sample; call = on; drop = on_drop };
    function = zenoh_on_sample_call;
    request = λ c.
        z_liveliness_declare_background_subscriber session key c (liveliness_subscriber_to_c o);
  }

  unfoldable pub liveliness_get :
      (session key : Obj) → LivelinessGetOptions Obj Pod → Plan U V Obj Pod
  liveliness_get session key o = record {
    closure = record { arg = reply; call = on; drop = on_drop };
    function = zenoh_on_reply_call;
    request = λ c. z_liveliness_get session key c (liveliness_get_to_c o);
  }

  -- Querier::get
  unfoldable pub querier_get :
      (querier : Obj) (parameters : List ℕ) → QuerierGetOptions Obj Pod → Plan U V Obj Pod
  querier_get querier parameters o = record {
    closure = record { arg = reply; call = on; drop = on_drop };
    function = zenoh_on_reply_call;
    request = λ c. z_querier_get querier parameters c (querier_get_to_c o);
  }

  -- Publisher::declare_matching_listener and Querier::declare_matching_listener
  unfoldable pub publisher_matching_listener : (publisher : Obj) → Plan U V Obj Pod
  publisher_matching_listener publisher = record {
    closure = record { arg = matching_status; call = on; drop = on_drop };
    function = zenoh_on_status_change_call;
    request = z_publisher_declare_matching_listener publisher;
  }

  unfoldable pub publisher_background_matching_listener : (publisher : Obj) → Plan U V Obj Pod
  publisher_background_matching_listener publisher = record {
    closure = record { arg = matching_status; call = on; drop = on_drop };
    function = zenoh_on_status_change_call;
    request = z_publisher_declare_background_matching_listener publisher;
  }

  unfoldable pub querier_matching_listener : (querier : Obj) → Plan U V Obj Pod
  querier_matching_listener querier = record {
    closure = record { arg = matching_status; call = on; drop = on_drop };
    function = zenoh_on_status_change_call;
    request = z_querier_declare_matching_listener querier;
  }

  unfoldable pub querier_background_matching_listener : (querier : Obj) → Plan U V Obj Pod
  querier_background_matching_listener querier = record {
    closure = record { arg = matching_status; call = on; drop = on_drop };
    function = zenoh_on_status_change_call;
    request = z_querier_declare_background_matching_listener querier;
  }

  -- zenoh::scout: its Closure is of `const Hello&`, and its extern "C" function casts to `Hello&`.
  unfoldable pub scout : (config : Obj) (timeout_ms what : ℕ) → Plan U V Obj Pod
  scout config timeout_ms what = record {
    closure = record { arg = const_hello; call = on; drop = on_drop };
    function = zenoh_on_hello_call;
    request = λ c. z_scout config c timeout_ms what;
  }
