-- ===== src/Extension/Operations.antt =====
-- The functions of the extension that make one C call with no closure.
use zenoh_cpp.Base.{ℕ, ◌≡◌, ◌↔◌, Bool, Option, arith}
use zenoh_cpp.Result.{M}
use zenoh_cpp.Session.Options.{GetOptions, COptions, z_get_options}
use zenoh_cpp.Session.Requests.{
  ze_declare_publication_cache, ze_declare_background_publication_cache,
  ze_declare_advanced_publisher, ze_advanced_publisher_put, ze_advanced_publisher_delete,
  ze_querying_subscriber_get, ze_undeclare_advanced_publisher, ze_undeclare_advanced_subscriber,
  ze_undeclare_querying_subscriber, ze_undeclare_publication_cache,
  ze_undeclare_sample_miss_listener, World, Library,
}
use zenoh_cpp.Session.Operations.{operate, obtain}
use zenoh_cpp.Extension.Options.{
  PublicationCacheOptions, AdvancedPublisherOptions, AdvancedPutOptions, AdvancedDeleteOptions,
  Defaults, publication_cache_to_c, advanced_publisher_to_c, advanced_put_to_c,
  advanced_delete_to_c,
}

-- z_get_options_default, for the fields that QueryingSubscriber::get leaves alone
pub record GetDefaults (Obj : Type 0) : Type 0 where
  pub congestion_control : ℕ
  pub priority : ℕ
  pub is_express : Bool
  pub cancellation_token : Option Obj

-- QueryingSubscriberBase::get (the options)
unfoldable pub querying_get_to_c :
    {Obj Pod : Type 0} → GetDefaults Obj → GetOptions Obj Pod → COptions Obj Pod
querying_get_to_c d o =
    z_get_options o.target o.consolidation d.congestion_control d.priority d.is_express o.payload
      o.encoding o.source_info o.accept_replies o.allowed_destination o.attachment o.timeout_ms
      d.cancellation_token

module _ {U V : Type 0} (lib : Library U V) where
  open lib use {State, Obj, Pod}

  unfoldable pub declare_publication_cache :
      (session key : Obj) → PublicationCacheOptions Obj Pod → M (World U V State) Obj
  unfolding obtain
  declare_publication_cache session key o =
      obtain lib (ze_declare_publication_cache session key (publication_cache_to_c o))

  unfoldable pub declare_background_publication_cache :
      (session key : Obj) → PublicationCacheOptions Obj Pod → M (World U V State) (Unit {0})
  unfolding operate
  declare_background_publication_cache session key o =
      operate lib (ze_declare_background_publication_cache session key (publication_cache_to_c o))

  unfoldable pub declare_advanced_publisher :
      Defaults → (session key : Obj) → AdvancedPublisherOptions Obj Pod → M (World U V State) Obj
  unfolding obtain
  declare_advanced_publisher d session key o =
      obtain lib (ze_declare_advanced_publisher session key (advanced_publisher_to_c d o))

  unfoldable pub advanced_put :
      (publisher payload : Obj) → AdvancedPutOptions Obj Pod → M (World U V State) (Unit {0})
  unfolding operate
  advanced_put publisher payload o =
      operate lib (ze_advanced_publisher_put publisher payload (advanced_put_to_c o))

  unfoldable pub advanced_delete :
      (publisher : Obj) → AdvancedDeleteOptions Obj Pod → M (World U V State) (Unit {0})
  unfolding operate
  advanced_delete publisher o =
      operate lib (ze_advanced_publisher_delete publisher (advanced_delete_to_c o))

  -- QueryingSubscriber::get
  unfoldable pub querying_get :
      GetDefaults Obj → (subscriber key : Obj) → GetOptions Obj Pod → M (World U V State) (Unit {0})
  unfolding operate
  querying_get d subscriber key o =
      operate lib (ze_querying_subscriber_get subscriber key (querying_get_to_c d o))

  unfoldable pub undeclare_advanced_publisher : (publisher : Obj) → M (World U V State) (Unit {0})
  unfolding operate
  undeclare_advanced_publisher publisher = operate lib (ze_undeclare_advanced_publisher publisher)

  unfoldable pub undeclare_advanced_subscriber : (subscriber : Obj) → M (World U V State) (Unit {0})
  unfolding operate
  undeclare_advanced_subscriber subscriber =
      operate lib (ze_undeclare_advanced_subscriber subscriber)

  unfoldable pub undeclare_querying_subscriber : (subscriber : Obj) → M (World U V State) (Unit {0})
  unfolding operate
  undeclare_querying_subscriber subscriber =
      operate lib (ze_undeclare_querying_subscriber subscriber)

  unfoldable pub undeclare_publication_cache : (cache : Obj) → M (World U V State) (Unit {0})
  unfolding operate
  undeclare_publication_cache cache = operate lib (ze_undeclare_publication_cache cache)

  unfoldable pub undeclare_sample_miss_listener : (listener : Obj) → M (World U V State) (Unit {0})
  unfolding operate
  undeclare_sample_miss_listener listener = operate lib (ze_undeclare_sample_miss_listener listener)

module _ (Obj Pod : Type 0) where
  -- Two structs are equal exactly when nine of the options agree.
  pub querying_get_to_c-eq_iff :
      (d : GetDefaults Obj) (x y : GetOptions Obj Pod)
      → (querying_get_to_c d x ≡ querying_get_to_c d y) ↔ (
          x ≡ record y {
            congestion_control = x.congestion_control;
            priority = x.priority;
            is_express = x.is_express;
            cancellation_token = x.cancellation_token;
          })
  unfolding querying_get_to_c
  querying_get_to_c-eq_iff d x y = ((λ e. ground arith), (λ e. ground arith))
