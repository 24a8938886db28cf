-- ===== src/Extension/Channels.antt =====
-- The functions of the extension that take a channel. detect_publishers and
-- AdvancedPublisher::declare_matching_listener have one, too, which no compiler accepts: they pass the
-- loaned pointer of an advanced object to a C function of another class.
use zenoh_cpp.Closures.{sample}
use zenoh_cpp.Session.Requests.{ze_declare_querying_subscriber, ze_declare_advanced_subscriber}
use zenoh_cpp.Session.Handlers.{ChannelPlan}
use zenoh_cpp.Extension.Options.{
  QueryingSubscriberOptions, AdvancedSubscriberOptions, Defaults, querying_subscriber_to_c,
  advanced_subscriber_to_c,
}

module _ {Obj Pod : Type 0} where
  unfoldable pub querying_subscriber_channel :
      (session key : Obj) → QueryingSubscriberOptions Obj Pod → ChannelPlan Obj Pod
  querying_subscriber_channel session key o = record {
    arg = sample;
    request = λ c. ze_declare_querying_subscriber session key c (querying_subscriber_to_c o);
  }

  unfoldable pub advanced_subscriber_channel :
      Defaults → (session key : Obj) → AdvancedSubscriberOptions Obj Pod → ChannelPlan Obj Pod
  advanced_subscriber_channel d session key o = record {
    arg = sample;
    request = λ c. ze_declare_advanced_subscriber session key c (advanced_subscriber_to_c d o);
  }
