-- ===== src/Extension/Options.antt =====
-- The options of include/zenoh/api/ext/session_ext.hxx and ext/advanced_publisher.hxx, and the C
-- structs that they become (to_c_opts). A C struct starts with the defaults of the C library, which
-- are a parameter where the conversion keeps some of them.
use zenoh_cpp.Base.{ℕ, ltb, Bool, true, Option, none, some, if◌then◌else◌}
use zenoh_cpp.Session.Options.{
  PublisherOptions, SubscriberOptions, PublisherPutOptions, PublisherDeleteOptions, COptions,
  publisher_to_c, subscriber_to_c, publisher_put_to_c, publisher_delete_to_c,
}

-- AdvancedPublisherOptions::CacheOptions
pub record CacheOptions : Type 0 where
  pub max_samples : ℕ
  pub congestion_control : ℕ
  pub priority : ℕ
  pub is_express : Bool

-- SampleMissDetectionOptions::heartbeat
pub data Heartbeat : Type 0 where
  heartbeat_none : Heartbeat
  heartbeat_periodic heartbeat_sporadic : (period_ms : ℕ) → Heartbeat

pub record SampleMissDetectionOptions : Type 0 where
  pub heartbeat : Heartbeat

-- AdvancedSubscriberOptions::HistoryOptions
pub record SampleHistoryOptions : Type 0 where
  pub detect_late_publishers : Bool
  pub max_samples : ℕ
  pub max_age_ms : ℕ

-- RecoveryOptions::last_sample_miss_detection, a variant of Heartbeat and PeriodicQueriesOptions
pub data LastSampleMissDetection : Type 0 where
  by_heartbeat : LastSampleMissDetection
  periodic_queries : (period_ms : ℕ) → LastSampleMissDetection

pub record RecoveryOptions : Type 0 where
  pub last_sample_miss_detection : Option LastSampleMissDetection

module _ (Obj Pod : Type 0) where
  pub record PublicationCacheOptions : Type 0 where
    pub queryable_suffix : Option Obj
    pub queryable_origin : ℕ
    pub queryable_complete : Bool
    pub history : ℕ
    pub resources_limit : ℕ

  pub record QueryingSubscriberOptions : Type 0 where
    pub query_keyexpr : Option Obj
    pub allowed_origin : ℕ
    pub query_accept_replies : ℕ
    pub query_target : ℕ
    pub query_consolidation : Pod
    pub query_timeout_ms : ℕ

  pub record AdvancedPublisherOptions : Type 0 where
    pub publisher_options : PublisherOptions Obj Pod
    pub cache : Option CacheOptions
    pub sample_miss_detection : Option SampleMissDetectionOptions
    pub publisher_detection : Bool
    pub publisher_detection_metadata : Option Obj

  pub record AdvancedSubscriberOptions : Type 0 where
    pub subscriber_options : SubscriberOptions Obj Pod
    pub history : Option SampleHistoryOptions
    pub recovery : Option RecoveryOptions
    pub query_timeout_ms : ℕ
    pub subscriber_detection : Bool
    pub subscriber_detection_metadata : Option Obj

  -- AdvancedPublisher::PutOptions and DeleteOptions
  pub record AdvancedPutOptions : Type 0 where
    pub put_options : PublisherPutOptions Obj Pod

  pub record AdvancedDeleteOptions : Type 0 where
    pub delete_options : PublisherDeleteOptions Obj Pod

-- The parts of the C structs that have an `is_enabled`.
pub record CCache : Type 0 where
  pub is_enabled : Bool
  pub max_samples : ℕ
  pub congestion_control : ℕ
  pub priority : ℕ
  pub is_express : Bool

pub data HeartbeatMode : Type 0 where
  mode_none mode_periodic mode_sporadic : HeartbeatMode

pub record CMissDetection : Type 0 where
  pub is_enabled : Bool
  pub heartbeat_mode : HeartbeatMode
  pub heartbeat_period_ms : ℕ

pub record CHistory : Type 0 where
  pub is_enabled : Bool
  pub detect_late_publishers : Bool
  pub max_samples : ℕ
  pub max_age_ms : ℕ

pub record CLastSample : Type 0 where
  pub is_enabled : Bool
  pub periodic_queries_period_ms : ℕ

pub record CRecovery : Type 0 where
  pub is_enabled : Bool
  pub last_sample_miss_detection : CLastSample

-- ze_advanced_publisher_options_default and ze_advanced_subscriber_options_default
pub record Defaults : Type 0 where
  pub cache : CCache
  pub sample_miss_detection : CMissDetection
  pub history : CHistory
  pub recovery : CRecovery

-- The fields of the C structs that the sources assign.
pub data ExtOptions (Obj Pod : Type 0) : Type 0 where
  ze_publication_cache_options :
      (queryable_suffix : Option Obj) (queryable_origin : ℕ) (queryable_complete : Bool)
      (history resources_limit : ℕ)
      → ExtOptions Obj Pod
  ze_querying_subscriber_options :
      (query_selector : Option Obj) (allowed_origin query_accept_replies query_target : ℕ)
      (query_consolidation : Pod) (query_timeout_ms : ℕ)
      → ExtOptions Obj Pod
  ze_advanced_publisher_options :
      (publisher_options : COptions Obj Pod) (cache : CCache)
      (sample_miss_detection : CMissDetection) (publisher_detection : Bool)
      (publisher_detection_metadata : Option Obj)
      → ExtOptions Obj Pod
  ze_advanced_subscriber_options :
      (subscriber_options : COptions Obj Pod) (history : CHistory) (recovery : CRecovery)
      (query_timeout_ms : ℕ) (subscriber_detection : Bool)
      (subscriber_detection_metadata : Option Obj)
      → ExtOptions Obj Pod
  ze_advanced_publisher_put_options : (put_options : COptions Obj Pod) → ExtOptions Obj Pod
  ze_advanced_publisher_delete_options : (delete_options : COptions Obj Pod) → ExtOptions Obj Pod

-- `opts.cache`
unfoldable pub cache_to_c : CCache → Option CacheOptions → CCache
cache_to_c default none = default
cache_to_c default (some o) = record {
  is_enabled = true;
  max_samples = o.max_samples;
  congestion_control = o.congestion_control;
  priority = o.priority;
  is_express = o.is_express;
}

-- `opts.sample_miss_detection`
unfoldable pub heartbeat_to_c : CMissDetection → Heartbeat → CMissDetection
heartbeat_to_c c heartbeat_none = record c { heartbeat_mode = mode_none }
heartbeat_to_c c (heartbeat_periodic ms) = record c {
  heartbeat_mode = mode_periodic;
  heartbeat_period_ms = ms;
}
heartbeat_to_c c (heartbeat_sporadic ms) = record c {
  heartbeat_mode = mode_sporadic;
  heartbeat_period_ms = ms;
}

unfoldable pub miss_detection_to_c :
    CMissDetection → Option SampleMissDetectionOptions → CMissDetection
unfolding heartbeat_to_c
miss_detection_to_c default none = default
miss_detection_to_c default (some o) =
    heartbeat_to_c (record default { is_enabled = true }) o.heartbeat

-- `opts.history`
unfoldable pub history_to_c : CHistory → Option SampleHistoryOptions → CHistory
history_to_c default none = default
history_to_c default (some o) = record {
  is_enabled = true;
  detect_late_publishers = o.detect_late_publishers;
  max_samples = o.max_samples;
  max_age_ms = o.max_age_ms;
}

-- `std::max<uint64_t>(1, ms)`
abbrev pub at_least_one : ℕ → ℕ
at_least_one ms = if ltb 1 ms then ms else 1

-- `opts.recovery`
unfoldable pub last_sample_to_c : CLastSample → Option LastSampleMissDetection → CLastSample
last_sample_to_c default none = default
last_sample_to_c default (some by_heartbeat) = record {
  is_enabled = true;
  periodic_queries_period_ms = 0;
}
last_sample_to_c default (some (periodic_queries ms)) = record {
  is_enabled = true;
  periodic_queries_period_ms = at_least_one ms;
}

unfoldable pub recovery_to_c : CRecovery → Option RecoveryOptions → CRecovery
unfolding last_sample_to_c
recovery_to_c default none = default
recovery_to_c default (some o) = record {
  is_enabled = true;
  last_sample_miss_detection =
      last_sample_to_c default.last_sample_miss_detection o.last_sample_miss_detection;
}

module _ {Obj Pod : Type 0} where
  unfoldable pub publication_cache_to_c : PublicationCacheOptions Obj Pod → ExtOptions Obj Pod
  publication_cache_to_c o =
      ze_publication_cache_options o.queryable_suffix o.queryable_origin o.queryable_complete
        o.history o.resources_limit

  unfoldable pub querying_subscriber_to_c : QueryingSubscriberOptions Obj Pod → ExtOptions Obj Pod
  querying_subscriber_to_c o =
      ze_querying_subscriber_options o.query_keyexpr o.allowed_origin o.query_accept_replies
        o.query_target o.query_consolidation o.query_timeout_ms

  unfoldable pub advanced_publisher_to_c :
      Defaults → AdvancedPublisherOptions Obj Pod → ExtOptions Obj Pod
  unfolding publisher_to_c cache_to_c miss_detection_to_c
  advanced_publisher_to_c d o =
      ze_advanced_publisher_options (publisher_to_c o.publisher_options)
        (cache_to_c d.cache o.cache)
        (miss_detection_to_c d.sample_miss_detection o.sample_miss_detection) o.publisher_detection
        o.publisher_detection_metadata

  unfoldable pub advanced_subscriber_to_c :
      Defaults → AdvancedSubscriberOptions Obj Pod → ExtOptions Obj Pod
  unfolding subscriber_to_c history_to_c recovery_to_c
  advanced_subscriber_to_c d o =
      ze_advanced_subscriber_options (subscriber_to_c o.subscriber_options)
        (history_to_c d.history o.history) (recovery_to_c d.recovery o.recovery) o.query_timeout_ms
        o.subscriber_detection o.subscriber_detection_metadata

  unfoldable pub advanced_put_to_c : AdvancedPutOptions Obj Pod → ExtOptions Obj Pod
  unfolding publisher_put_to_c
  advanced_put_to_c o = ze_advanced_publisher_put_options (publisher_put_to_c o.put_options)

  unfoldable pub advanced_delete_to_c : AdvancedDeleteOptions Obj Pod → ExtOptions Obj Pod
  unfolding publisher_delete_to_c
  advanced_delete_to_c o =
      ze_advanced_publisher_delete_options (publisher_delete_to_c o.delete_options)
