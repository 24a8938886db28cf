-- ===== src/Session/Options.antt =====
-- The options of include/zenoh/api/session.hxx, publisher.hxx and query.hxx, and the C structs that
-- they become (to_c_opts, and the assignments in put, delete_resource, declare_querier, reply and so
-- on). The build is the one over zenoh-c with the unstable API.
-- `Obj` is the content of an owned C object and `Pod` a copyable C struct; a pointer made by
-- as_moved_c_ptr or as_copyable_c_ptr from an empty optional is nullptr, here `none`. Enumerators and
-- times are numbers.
use zenoh_cpp.Base.{ℕ, Bool, Option}

module _ (Obj Pod : Type 0) where
  pub record GetOptions : Type 0 where
    pub target : ℕ
    pub consolidation : Pod
    pub priority : ℕ
    pub congestion_control : ℕ
    pub is_express : Bool
    pub payload : Option Obj
    pub encoding : Option Obj
    pub source_info : Option Pod
    pub accept_replies : ℕ
    pub allowed_destination : ℕ
    pub attachment : Option Obj
    pub timeout_ms : ℕ
    pub cancellation_token : Option Obj

  pub record QueryableOptions : Type 0 where
    pub complete : Bool
    pub allowed_origin : ℕ

  pub record SubscriberOptions : Type 0 where
    pub allowed_origin : ℕ

  pub record DeleteOptions : Type 0 where
    pub priority : ℕ
    pub congestion_control : ℕ
    pub is_express : Bool
    pub reliability : ℕ
    pub timestamp : Option Pod

  pub record PutOptions : Type 0 where
    pub priority : ℕ
    pub congestion_control : ℕ
    pub is_express : Bool
    pub allowed_destination : ℕ
    pub timestamp : Option Pod
    pub encoding : Option Obj
    pub reliability : ℕ
    pub source_info : Option Pod
    pub attachment : Option Obj

  pub record PublisherOptions : Type 0 where
    pub congestion_control : ℕ
    pub priority : ℕ
    pub is_express : Bool
    pub reliability : ℕ
    pub allowed_destination : ℕ
    pub encoding : Option Obj

  pub record QuerierOptions : Type 0 where
    pub target : ℕ
    pub consolidation : Pod
    pub priority : ℕ
    pub congestion_control : ℕ
    pub is_express : Bool
    pub accept_replies : ℕ
    pub allowed_destination : ℕ
    pub timeout_ms : ℕ

  -- TransportEventsListenerOptions and LivelinessSubscriberOptions
  pub record HistoryOptions : Type 0 where
    pub history : Bool

  pub record LinkEventsListenerOptions : Type 0 where
    pub history : Bool
    pub transport : Option Obj

  pub record LivelinessGetOptions : Type 0 where
    pub timeout_ms : ℕ
    pub cancellation_token : Option Obj

  pub record PublisherPutOptions : Type 0 where
    pub encoding : Option Obj
    pub timestamp : Option Pod
    pub source_info : Option Pod
    pub attachment : Option Obj

  pub record PublisherDeleteOptions : Type 0 where
    pub timestamp : Option Pod

  pub record QuerierGetOptions : Type 0 where
    pub payload : Option Obj
    pub encoding : Option Obj
    pub source_info : Option Pod
    pub attachment : Option Obj
    pub cancellation_token : Option Obj

  -- Query::ReplyOptions; its priority and congestion_control are deprecated.
  pub record ReplyOptions : Type 0 where
    pub encoding : Option Obj
    pub priority : ℕ
    pub congestion_control : ℕ
    pub is_express : Bool
    pub timestamp : Option Pod
    pub source_info : Option Pod
    pub attachment : Option Obj

  pub record ReplyErrOptions : Type 0 where
    pub encoding : Option Obj

  pub record ReplyDelOptions : Type 0 where
    pub priority : ℕ
    pub congestion_control : ℕ
    pub is_express : Bool
    pub timestamp : Option Pod
    pub source_info : Option Pod
    pub attachment : Option Obj

  -- The fields of the C structs that the sources assign.
  pub data COptions : Type 0 where
    z_get_options :
        (target : ℕ) (consolidation : Pod) (congestion_control priority : ℕ) (is_express : Bool)
        (payload encoding : Option Obj) (source_info : Option Pod) (accept_replies : ℕ)
        (allowed_destination : ℕ) (attachment : Option Obj) (timeout_ms : ℕ)
        (cancellation_token : Option Obj)
        → COptions
    z_queryable_options : (complete : Bool) (allowed_origin : ℕ) → COptions
    z_subscriber_options : (allowed_origin : ℕ) → COptions
    z_delete_options :
        (congestion_control priority : ℕ) (is_express : Bool) (reliability : ℕ) → COptions
    z_put_options :
        (encoding : Option Obj) (congestion_control priority : ℕ) (is_express : Bool)
        (reliability : ℕ) (source_info : Option Pod) (allowed_destination : ℕ)
        (attachment : Option Obj) (timestamp : Option Pod)
        → COptions
    z_publisher_options :
        (congestion_control priority : ℕ) (is_express : Bool) (reliability allowed_destination : ℕ)
        (encoding : Option Obj)
        → COptions
    z_querier_options :
        (target : ℕ) (consolidation : Pod) (congestion_control priority : ℕ) (is_express : Bool)
        (accept_replies allowed_destination timeout_ms : ℕ)
        → COptions
    z_transport_events_listener_options : (history : Bool) → COptions
    z_liveliness_subscriber_options : (history : Bool) → COptions
    z_link_events_listener_options : (history : Bool) (transport : Option Obj) → COptions
    z_liveliness_get_options : (timeout_ms : ℕ) (cancellation_token : Option Obj) → COptions
    z_publisher_put_options :
        (encoding : Option Obj) (source_info : Option Pod) (attachment : Option Obj)
        (timestamp : Option Pod)
        → COptions
    z_publisher_delete_options : (timestamp : Option Pod) → COptions
    z_querier_get_options :
        (payload encoding : Option Obj) (source_info : Option Pod)
        (attachment cancellation_token : Option Obj)
        → COptions
    z_query_reply_options :
        (encoding : Option Obj) (is_express : Bool) (timestamp source_info : Option Pod)
        (attachment : Option Obj)
        → COptions
    z_query_reply_err_options : (encoding : Option Obj) → COptions
    z_query_reply_del_options :
        (is_express : Bool) (timestamp source_info : Option Pod) (attachment : Option Obj)
        → COptions
    no_options : COptions

module _ {Obj Pod : Type 0} where
  -- The conversions, one for each options type.
  unfoldable pub get_to_c : GetOptions Obj Pod → COptions Obj Pod
  get_to_c o =
      z_get_options o.target o.consolidation o.congestion_control o.priority o.is_express o.payload
        o.encoding o.source_info o.accept_replies o.allowed_destination o.attachment o.timeout_ms
        o.cancellation_token

  unfoldable pub queryable_to_c : QueryableOptions Obj Pod → COptions Obj Pod
  queryable_to_c o = z_queryable_options o.complete o.allowed_origin

  unfoldable pub subscriber_to_c : SubscriberOptions Obj Pod → COptions Obj Pod
  subscriber_to_c o = z_subscriber_options o.allowed_origin

  unfoldable pub delete_to_c : DeleteOptions Obj Pod → COptions Obj Pod
  delete_to_c o = z_delete_options o.congestion_control o.priority o.is_express o.reliability

  unfoldable pub put_to_c : PutOptions Obj Pod → COptions Obj Pod
  put_to_c o =
      z_put_options o.encoding o.congestion_control o.priority o.is_express o.reliability
        o.source_info o.allowed_destination o.attachment o.timestamp

  unfoldable pub publisher_to_c : PublisherOptions Obj Pod → COptions Obj Pod
  publisher_to_c o =
      z_publisher_options o.congestion_control o.priority o.is_express o.reliability
        o.allowed_destination o.encoding

  unfoldable pub querier_to_c : QuerierOptions Obj Pod → COptions Obj Pod
  querier_to_c o =
      z_querier_options o.target o.consolidation o.congestion_control o.priority o.is_express
        o.accept_replies o.allowed_destination o.timeout_ms

  unfoldable pub transport_events_to_c : HistoryOptions Obj Pod → COptions Obj Pod
  transport_events_to_c o = z_transport_events_listener_options o.history

  unfoldable pub liveliness_subscriber_to_c : HistoryOptions Obj Pod → COptions Obj Pod
  liveliness_subscriber_to_c o = z_liveliness_subscriber_options o.history

  unfoldable pub link_events_to_c : LinkEventsListenerOptions Obj Pod → COptions Obj Pod
  link_events_to_c o = z_link_events_listener_options o.history o.transport

  unfoldable pub liveliness_get_to_c : LivelinessGetOptions Obj Pod → COptions Obj Pod
  liveliness_get_to_c o = z_liveliness_get_options o.timeout_ms o.cancellation_token

  unfoldable pub publisher_put_to_c : PublisherPutOptions Obj Pod → COptions Obj Pod
  publisher_put_to_c o = z_publisher_put_options o.encoding o.source_info o.attachment o.timestamp

  unfoldable pub publisher_delete_to_c : PublisherDeleteOptions Obj Pod → COptions Obj Pod
  publisher_delete_to_c o = z_publisher_delete_options o.timestamp

  unfoldable pub querier_get_to_c : QuerierGetOptions Obj Pod → COptions Obj Pod
  querier_get_to_c o =
      z_querier_get_options o.payload o.encoding o.source_info o.attachment o.cancellation_token

  unfoldable pub reply_to_c : ReplyOptions Obj Pod → COptions Obj Pod
  reply_to_c o =
      z_query_reply_options o.encoding o.is_express o.timestamp o.source_info o.attachment

  unfoldable pub reply_err_to_c : ReplyErrOptions Obj Pod → COptions Obj Pod
  reply_err_to_c o = z_query_reply_err_options o.encoding

  unfoldable pub reply_del_to_c : ReplyDelOptions Obj Pod → COptions Obj Pod
  reply_del_to_c o = z_query_reply_del_options o.is_express o.timestamp o.source_info o.attachment
