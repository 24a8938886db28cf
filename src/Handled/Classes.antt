-- ===== src/Handled/Classes.antt =====
-- The eight class templates with a handler, each with the C function that undeclares its base.
use zenoh_cpp.Base.{Option}
use zenoh_cpp.Owned.{OwnedType}
use zenoh_cpp.Handled.{Undeclare, HandledOp, Parts, handled_step}

-- The owned C types of the bases, and the functions that undeclare them.
pub record UndeclareApi (h : OwnedType) : Type 1 where
  pub z_owned_subscriber_t : OwnedType
  pub z_owned_queryable_t : OwnedType
  pub z_owned_matching_listener_t : OwnedType
  pub z_owned_transport_events_listener_t : OwnedType
  pub z_owned_link_events_listener_t : OwnedType
  pub ze_owned_sample_miss_listener_t : OwnedType
  pub ze_owned_querying_subscriber_t : OwnedType
  pub ze_owned_advanced_subscriber_t : OwnedType
  pub z_undeclare_subscriber : Undeclare z_owned_subscriber_t h
  pub z_undeclare_queryable : Undeclare z_owned_queryable_t h
  pub z_undeclare_matching_listener : Undeclare z_owned_matching_listener_t h
  pub z_undeclare_transport_events_listener : Undeclare z_owned_transport_events_listener_t h
  pub z_undeclare_link_events_listener : Undeclare z_owned_link_events_listener_t h
  pub ze_undeclare_sample_miss_listener : Undeclare ze_owned_sample_miss_listener_t h
  pub ze_undeclare_querying_subscriber : Undeclare ze_owned_querying_subscriber_t h
  pub ze_undeclare_advanced_subscriber : Undeclare ze_owned_advanced_subscriber_t h

module _ {h : OwnedType} (api : UndeclareApi h) where
  -- Subscriber<Handler>
  abbrev pub subscriber_step :
      HandledOp → Parts api.z_owned_subscriber_t h → Option (Parts api.z_owned_subscriber_t h)
  subscriber_step = handled_step api.z_owned_subscriber_t h api.z_undeclare_subscriber

  -- Queryable<Handler>
  abbrev pub queryable_step :
      HandledOp → Parts api.z_owned_queryable_t h → Option (Parts api.z_owned_queryable_t h)
  queryable_step = handled_step api.z_owned_queryable_t h api.z_undeclare_queryable

  -- MatchingListener<Handler>
  abbrev pub matching_listener_step :
      HandledOp
      → Parts api.z_owned_matching_listener_t h
      → Option (Parts api.z_owned_matching_listener_t h)
  matching_listener_step =
      handled_step api.z_owned_matching_listener_t h api.z_undeclare_matching_listener

  -- TransportEventsListener<Handler>
  abbrev pub transport_events_listener_step :
      HandledOp
      → Parts api.z_owned_transport_events_listener_t h
      → Option (Parts api.z_owned_transport_events_listener_t h)
  transport_events_listener_step =
      handled_step api.z_owned_transport_events_listener_t h
        api.z_undeclare_transport_events_listener

  -- LinkEventsListener<Handler>
  abbrev pub link_events_listener_step :
      HandledOp
      → Parts api.z_owned_link_events_listener_t h
      → Option (Parts api.z_owned_link_events_listener_t h)
  link_events_listener_step =
      handled_step api.z_owned_link_events_listener_t h api.z_undeclare_link_events_listener

  -- ext::SampleMissListener<Handler>
  abbrev pub sample_miss_listener_step :
      HandledOp
      → Parts api.ze_owned_sample_miss_listener_t h
      → Option (Parts api.ze_owned_sample_miss_listener_t h)
  sample_miss_listener_step =
      handled_step api.ze_owned_sample_miss_listener_t h api.ze_undeclare_sample_miss_listener

  -- ext::QueryingSubscriber<Handler>
  abbrev pub querying_subscriber_step :
      HandledOp
      → Parts api.ze_owned_querying_subscriber_t h
      → Option (Parts api.ze_owned_querying_subscriber_t h)
  querying_subscriber_step =
      handled_step api.ze_owned_querying_subscriber_t h api.ze_undeclare_querying_subscriber

  -- ext::AdvancedSubscriber<Handler>
  abbrev pub advanced_subscriber_step :
      HandledOp
      → Parts api.ze_owned_advanced_subscriber_t h
      → Option (Parts api.ze_owned_advanced_subscriber_t h)
  advanced_subscriber_step =
      handled_step api.ze_owned_advanced_subscriber_t h api.ze_undeclare_advanced_subscriber
