-- ===== src/Extension/Callbacks.antt =====
-- The functions of the extension that take a callback: SessionExt::declare_querying_subscriber,
-- SessionExt::declare_advanced_subscriber and their background forms, the matching listeners of an
-- AdvancedPublisher, and the miss listeners and detect_publishers of an AdvancedSubscriber.
use zenoh_cpp.Closures.{
  sample, const_sample, matching_status, miss, zenoh_on_sample_call, zenoh_on_status_change_call,
  zenoh_on_miss_detected_call,
}
use zenoh_cpp.Session.Options.{HistoryOptions, liveliness_subscriber_to_c}
use zenoh_cpp.Session.Requests.{
  ze_declare_querying_subscriber, ze_declare_background_querying_subscriber,
  ze_declare_advanced_subscriber, ze_declare_background_advanced_subscriber,
  ze_advanced_subscriber_detect_publishers, ze_advanced_subscriber_detect_publishers_background,
  ze_advanced_publisher_declare_matching_listener,
  ze_advanced_publisher_declare_background_matching_listener,
  ze_advanced_subscriber_declare_sample_miss_listener,
  ze_advanced_subscriber_declare_background_sample_miss_listener,
}
use zenoh_cpp.Session.Callbacks.{Plan}
use zenoh_cpp.Extension.Options.{
  QueryingSubscriberOptions, AdvancedSubscriberOptions, Defaults, querying_subscriber_to_c,
  advanced_subscriber_to_c,
}

module _ {U V Obj Pod : Type 0} (on : V → U → U) (on_drop : U → U) where
  unfoldable pub declare_querying_subscriber :
      (session key : Obj) → QueryingSubscriberOptions Obj Pod → Plan U V Obj Pod
  declare_querying_subscriber session key o = record {
    closure = record { arg = sample; call = on; drop = on_drop };
    function = zenoh_on_sample_call;
    request = λ c. ze_declare_querying_subscriber session key c (querying_subscriber_to_c o);
  }

  -- This closure and those of the advanced subscribers are of `const Sample&`.
  unfoldable pub declare_background_querying_subscriber :
      (session key : Obj) → QueryingSubscriberOptions Obj Pod → Plan U V Obj Pod
  declare_background_querying_subscriber session key o = record {
    closure = record { arg = const_sample; call = on; drop = on_drop };
    function = zenoh_on_sample_call;
    request =
        λ c. ze_declare_background_querying_subscriber session key c (querying_subscriber_to_c o);
  }

  unfoldable pub declare_advanced_subscriber :
      Defaults → (session key : Obj) → AdvancedSubscriberOptions Obj Pod → Plan U V Obj Pod
  declare_advanced_subscriber d session key o = record {
    closure = record { arg = const_sample; call = on; drop = on_drop };
    function = zenoh_on_sample_call;
    request = λ c. ze_declare_advanced_subscriber session key c (advanced_subscriber_to_c d o);
  }

  unfoldable pub declare_background_advanced_subscriber :
      Defaults → (session key : Obj) → AdvancedSubscriberOptions Obj Pod → Plan U V Obj Pod
  declare_background_advanced_subscriber d session key o = record {
    closure = record { arg = const_sample; call = on; drop = on_drop };
    function = zenoh_on_sample_call;
    request =
        λ c. ze_declare_background_advanced_subscriber session key c (advanced_subscriber_to_c d o);
  }

  unfoldable pub advanced_matching_listener : (publisher : Obj) → Plan U V Obj Pod
  advanced_matching_listener publisher = record {
    closure = record { arg = matching_status; call = on; drop = on_drop };
    function = zenoh_on_status_change_call;
    request = ze_advanced_publisher_declare_matching_listener publisher;
  }

  unfoldable pub advanced_background_matching_listener : (publisher : Obj) → Plan U V Obj Pod
  advanced_background_matching_listener publisher = record {
    closure = record { arg = matching_status; call = on; drop = on_drop };
    function = zenoh_on_status_change_call;
    request = ze_advanced_publisher_declare_background_matching_listener publisher;
  }

  unfoldable pub declare_sample_miss_listener : (subscriber : Obj) → Plan U V Obj Pod
  declare_sample_miss_listener subscriber = record {
    closure = record { arg = miss; call = on; drop = on_drop };
    function = zenoh_on_miss_detected_call;
    request = ze_advanced_subscriber_declare_sample_miss_listener subscriber;
  }

  unfoldable pub declare_background_sample_miss_listener : (subscriber : Obj) → Plan U V Obj Pod
  declare_background_sample_miss_listener subscriber = record {
    closure = record { arg = miss; call = on; drop = on_drop };
    function = zenoh_on_miss_detected_call;
    request = ze_advanced_subscriber_declare_background_sample_miss_listener subscriber;
  }

  unfoldable pub detect_publishers : (subscriber : Obj) → HistoryOptions Obj Pod → Plan U V Obj Pod
  detect_publishers subscriber o = record {
    closure = record { arg = sample; call = on; drop = on_drop };
    function = zenoh_on_sample_call;
    request =
        λ c. ze_advanced_subscriber_detect_publishers subscriber c (liveliness_subscriber_to_c o);
  }

  unfoldable pub detect_publishers_background :
      (subscriber : Obj) → HistoryOptions Obj Pod → Plan U V Obj Pod
  detect_publishers_background subscriber o = record {
    closure = record { arg = sample; call = on; drop = on_drop };
    function = zenoh_on_sample_call;
    request = λ c.
        ze_advanced_subscriber_detect_publishers_background subscriber c
          (liveliness_subscriber_to_c o);
  }
