-- ===== src/Session/Handlers.antt =====
-- The functions that take a channel in place of a callback, and return the object with the handler
-- that the channel fills; channels.hxx for FifoChannel and RingChannel.
use zenoh_cpp.Base.{ℕ, List, none, some, if◌then◌else◌}
use zenoh_cpp.Result.{ZResult, is_ok, returned, M, pure, ◌>>=◌, ◌>>◌, c_call, result_check}
use zenoh_cpp.Closures.{Arg, reply, sample, query, transport_event, link_event}
use zenoh_cpp.Session.Options.{
  GetOptions, QueryableOptions, SubscriberOptions, HistoryOptions, LinkEventsListenerOptions,
  LivelinessGetOptions, QuerierGetOptions, get_to_c, queryable_to_c, subscriber_to_c,
  transport_events_to_c, liveliness_subscriber_to_c, link_events_to_c, liveliness_get_to_c,
  querier_get_to_c,
}
use zenoh_cpp.Session.Requests.{
  AnyClosure, channel_closure, Request, z_get, z_liveliness_get, z_querier_get, z_declare_queryable,
  z_declare_subscriber, z_liveliness_declare_subscriber, z_declare_transport_events_listener,
  z_declare_link_events_listener, z_publisher_declare_matching_listener,
  z_querier_declare_matching_listener, World, ChannelKind, Library,
}

-- FifoChannel and RingChannel: `_capacity`, and which.
pub record Channel : Type 0 where
  pub kind : ChannelKind
  pub capacity : ℕ

-- What the channel carries, and the C call.
pub record ChannelPlan (Obj Pod : Type 0) : Type 0 where
  pub arg : Arg
  pub request : AnyClosure Obj → Request Obj Pod

module _ {U V : Type 0} (lib : Library U V) where
  open lib use {State, Obj, Pod, invoke, z_drop, channel_new}

  -- into_cb_handler_pair
  unfoldable pub into_cb_handler_pair :
      Channel → Arg → World U V State → (Obj × Obj) × World U V State
  into_cb_handler_pair ch arg = channel_new ch.kind arg ch.capacity

  -- `if (res != Z_OK && err == nullptr) z_drop(handler)`: the exception that follows would lose it.
  unfoldable pub drop_before_throw : ZResult → Obj → M (World U V State) (Unit {0})
  drop_before_throw res handler none w =
      returned tt none (if is_ok res then w else z_drop handler w)
  drop_before_throw res handler (some e) w = returned tt (some e) w

  -- The body that these functions share.
  unfoldable pub execute_channel : Channel → ChannelPlan Obj Pod → M (World U V State) (Obj × Obj)
  execute_channel ch plan = do
    (closure, handler) ← c_call (into_cb_handler_pair ch plan.arg)
    (res, obj) ← c_call (invoke (plan.request (channel_closure closure)))
    drop_before_throw res handler
    result_check res
    pure {A = Obj × Obj} (obj, handler)

module _ {Obj Pod : Type 0} where
  -- Session::get
  unfoldable pub get_channel :
      (session key : Obj) (parameters : List ℕ) → GetOptions Obj Pod → ChannelPlan Obj Pod
  get_channel session key parameters o = record {
    arg = reply;
    request = λ c. z_get session key parameters c (get_to_c o);
  }

  unfoldable pub declare_queryable_channel :
      (session key : Obj) → QueryableOptions Obj Pod → ChannelPlan Obj Pod
  declare_queryable_channel session key o = record {
    arg = query;
    request = λ c. z_declare_queryable session key c (queryable_to_c o);
  }

  unfoldable pub declare_subscriber_channel :
      (session key : Obj) → SubscriberOptions Obj Pod → ChannelPlan Obj Pod
  declare_subscriber_channel session key o = record {
    arg = sample;
    request = λ c. z_declare_subscriber session key c (subscriber_to_c o);
  }

  unfoldable pub transport_events_channel :
      (session : Obj) → HistoryOptions Obj Pod → ChannelPlan Obj Pod
  transport_events_channel session o = record {
    arg = transport_event;
    request = λ c. z_declare_transport_events_listener session c (transport_events_to_c o);
  }

  unfoldable pub link_events_channel :
      (session : Obj) → LinkEventsListenerOptions Obj Pod → ChannelPlan Obj Pod
  link_events_channel session o = record {
    arg = link_event;
    request = λ c. z_declare_link_events_listener session c (link_events_to_c o);
  }

  unfoldable pub liveliness_subscriber_channel :
      (session key : Obj) → HistoryOptions Obj Pod → ChannelPlan Obj Pod
  liveliness_subscriber_channel session key o = record {
    arg = sample;
    request = λ c. z_liveliness_declare_subscriber session key c (liveliness_subscriber_to_c o);
  }

  unfoldable pub liveliness_get_channel :
      (session key : Obj) → LivelinessGetOptions Obj Pod → ChannelPlan Obj Pod
  liveliness_get_channel session key o = record {
    arg = reply;
    request = λ c. z_liveliness_get session key c (liveliness_get_to_c o);
  }

  -- Querier::get
  unfoldable pub querier_get_channel :
      (querier : Obj) (parameters : List ℕ) → QuerierGetOptions Obj Pod → ChannelPlan Obj Pod
  querier_get_channel querier parameters o = record {
    arg = reply;
    request = λ c. z_querier_get querier parameters c (querier_get_to_c o);
  }

  -- Publisher::declare_matching_listener and Querier::declare_matching_listener: the pair is made for
  -- Query, and the function returns it as a handler of MatchingStatus.
  unfoldable pub publisher_matching_channel : (publisher : Obj) → ChannelPlan Obj Pod
  publisher_matching_channel publisher = record {
    arg = query;
    request = z_publisher_declare_matching_listener publisher;
  }

  unfoldable pub querier_matching_channel : (querier : Obj) → ChannelPlan Obj Pod
  querier_matching_channel querier = record {
    arg = query;
    request = z_querier_declare_matching_listener querier;
  }
