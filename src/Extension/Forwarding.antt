-- ===== src/Extension/Forwarding.antt =====
-- Which options of the extension reach the C library: the C structs read back as options.
use zenoh_cpp.Base.{
  ℕ, zero, suc, ◌≡◌, ◌↔◌, refl, sym, ◌∙◌, ap, arith, true, false, Option, none, some, if◌then◌else◌,
}
use zenoh_cpp.Session.Forwarding.{
  Injective, publisher_to_c-Injective, subscriber_to_c-Injective, publisher_put_to_c-Injective,
  publisher_delete_to_c-Injective,
}
use zenoh_cpp.Session.Options.{GetOptions}
use zenoh_cpp.Extension.Operations.{GetDefaults, querying_get_to_c, querying_get_to_c-eq_iff}
use zenoh_cpp.Extension.Options.{
  CacheOptions, Heartbeat, heartbeat_none, heartbeat_periodic, heartbeat_sporadic,
  SampleMissDetectionOptions, SampleHistoryOptions, LastSampleMissDetection, by_heartbeat,
  periodic_queries, RecoveryOptions, AdvancedSubscriberOptions, CCache, HeartbeatMode, mode_none,
  mode_periodic, mode_sporadic, CMissDetection, CHistory, CLastSample, CRecovery, Defaults,
  cache_to_c, heartbeat_to_c, miss_detection_to_c, history_to_c, at_least_one, last_sample_to_c,
  recovery_to_c, publication_cache_to_c, querying_subscriber_to_c, advanced_publisher_to_c,
  advanced_subscriber_to_c, advanced_put_to_c, advanced_delete_to_c,
}

-- By default the C library caches nothing, detects no miss, and recovers no history and no sample.
pub record AllDisabled (d : Defaults) : Type 0 where
  pub no_cache : d.cache.is_enabled ≡ false
  pub no_miss_detection : d.sample_miss_detection.is_enabled ≡ false
  pub no_history : d.history.is_enabled ≡ false
  pub no_recovery : d.recovery.is_enabled ≡ false
  pub no_last_sample : d.recovery.last_sample_miss_detection.is_enabled ≡ false

-- What each part of a C struct asks for.
abbrev read_cache : CCache → Option CacheOptions
read_cache c =
    if c.is_enabled
    then some (record {
      max_samples = c.max_samples;
      congestion_control = c.congestion_control;
      priority = c.priority;
      is_express = c.is_express;
    })
    else none

abbrev read_heartbeat : HeartbeatMode → ℕ → Heartbeat
read_heartbeat mode_none ms = heartbeat_none
read_heartbeat mode_periodic ms = heartbeat_periodic ms
read_heartbeat mode_sporadic ms = heartbeat_sporadic ms

abbrev read_miss_detection : CMissDetection → Option SampleMissDetectionOptions
read_miss_detection c =
    if c.is_enabled
    then some (record { heartbeat = read_heartbeat c.heartbeat_mode c.heartbeat_period_ms })
    else none

abbrev read_history : CHistory → Option SampleHistoryOptions
read_history c =
    if c.is_enabled
    then some (record {
      detect_late_publishers = c.detect_late_publishers;
      max_samples = c.max_samples;
      max_age_ms = c.max_age_ms;
    })
    else none

-- A period of zero stands for the heartbeat.
abbrev read_period : ℕ → LastSampleMissDetection
read_period zero = by_heartbeat
read_period (suc ms) = periodic_queries (suc ms)

abbrev read_last_sample : CLastSample → Option LastSampleMissDetection
read_last_sample c = if c.is_enabled then some (read_period c.periodic_queries_period_ms) else none

abbrev read_recovery : CRecovery → Option RecoveryOptions
read_recovery c =
    if c.is_enabled
    then some
        (record { last_sample_miss_detection = read_last_sample c.last_sample_miss_detection })
    else none

-- The recovery options with a period of zero raised to one.
abbrev pub raise_detection : Option LastSampleMissDetection → Option LastSampleMissDetection
raise_detection none = none
raise_detection (some by_heartbeat) = some by_heartbeat
raise_detection (some (periodic_queries ms)) = some (periodic_queries (at_least_one ms))

abbrev pub raise_recovery : Option RecoveryOptions → Option RecoveryOptions
raise_recovery none = none
raise_recovery (some o) =
    some (record { last_sample_miss_detection = raise_detection o.last_sample_miss_detection })

read_cache-cache_to_c :
    (c : CCache) (o : Option CacheOptions) → c.is_enabled ≡ false → read_cache (cache_to_c c o) ≡ o
unfolding cache_to_c
read_cache-cache_to_c c none h = rw h
read_cache-cache_to_c c (some o) h = refl

read_miss_detection-heartbeat_to_c :
    (c : CMissDetection) (b : Heartbeat)
    → c.is_enabled ≡ true
    → read_miss_detection (heartbeat_to_c c b) ≡ some (record { heartbeat = b })
unfolding heartbeat_to_c
read_miss_detection-heartbeat_to_c c heartbeat_none h = rw h
read_miss_detection-heartbeat_to_c c (heartbeat_periodic ms) h = rw h
read_miss_detection-heartbeat_to_c c (heartbeat_sporadic ms) h = rw h

read_miss_detection-to_c :
    (c : CMissDetection) (o : Option SampleMissDetectionOptions)
    → c.is_enabled ≡ false
    → read_miss_detection (miss_detection_to_c c o) ≡ o
unfolding miss_detection_to_c
read_miss_detection-to_c c none h = rw h
read_miss_detection-to_c c (some o) h =
    read_miss_detection-heartbeat_to_c (record c { is_enabled = true }) o.heartbeat refl

read_history-history_to_c :
    (c : CHistory) (o : Option SampleHistoryOptions)
    → c.is_enabled ≡ false
    → read_history (history_to_c c o) ≡ o
unfolding history_to_c
read_history-history_to_c c none h = rw h
read_history-history_to_c c (some o) h = refl

at_least_one-suc : (ms : ℕ) → at_least_one (suc ms) ≡ suc ms
at_least_one-suc ms = ground arith

read_period-at_least_one :
    (ms : ℕ) → read_period (at_least_one ms) ≡ periodic_queries (at_least_one ms)
read_period-at_least_one zero = refl
read_period-at_least_one (suc ms) = rw (at_least_one-suc ms) refl

read_last_sample-to_c :
    (c : CLastSample) (o : Option LastSampleMissDetection)
    → c.is_enabled ≡ false
    → read_last_sample (last_sample_to_c c o) ≡ raise_detection o
unfolding last_sample_to_c
read_last_sample-to_c c none h = rw h
read_last_sample-to_c c (some by_heartbeat) h = refl
read_last_sample-to_c c (some (periodic_queries ms)) h = rw (read_period-at_least_one ms)

read_recovery-to_c :
    (c : CRecovery) (o : Option RecoveryOptions)
    → c.is_enabled ≡ false
    → c.last_sample_miss_detection.is_enabled ≡ false
    → read_recovery (recovery_to_c c o) ≡ raise_recovery o
unfolding recovery_to_c
read_recovery-to_c c none h hl = rw h
read_recovery-to_c c (some o) h hl =
    rw (read_last_sample-to_c c.last_sample_miss_detection o.last_sample_miss_detection hl)

-- Two periods that are raised to the same number give the same C struct.
last_sample_to_c-raise :
    (c : CLastSample) (o : Option LastSampleMissDetection)
    → last_sample_to_c c (raise_detection o) ≡ last_sample_to_c c o
unfolding last_sample_to_c
last_sample_to_c-raise c none = refl
last_sample_to_c-raise c (some by_heartbeat) = refl
last_sample_to_c-raise c (some (periodic_queries zero)) = refl
last_sample_to_c-raise c (some (periodic_queries (suc ms))) =
    rw (at_least_one-suc ms, at_least_one-suc ms)

recovery_to_c-raise :
    (c : CRecovery) (o : Option RecoveryOptions)
    → recovery_to_c c (raise_recovery o) ≡ recovery_to_c c o
unfolding recovery_to_c
recovery_to_c-raise c none = refl
recovery_to_c-raise c (some o) =
    rw (last_sample_to_c-raise c.last_sample_miss_detection o.last_sample_miss_detection)

-- A reader of the converted value makes the conversion injective.
read-Injective :
    {A B : Type 0} (f : A → B) (read : B → A) → ((x : A) → read (f x) ≡ x) → Injective f
read-Injective f read h x y e = sym (h x) ∙ ap read e ∙ h y

module _ (Obj Pod : Type 0) where
  -- No option of an AdvancedPublisher, of its put and delete_resource, of a publication cache or of a
  -- querying subscriber is lost on the way into its C struct, the defaults of the C library being
  -- those that disable the cache and the detection of misses.
  pub ext_to_c_opts-Injective :
      (d : Defaults)
      → AllDisabled d
      → Injective (advanced_publisher_to_c {Obj = Obj} {Pod = Pod} d)
        × Injective (advanced_put_to_c {Obj = Obj} {Pod = Pod})
        × Injective (advanced_delete_to_c {Obj = Obj} {Pod = Pod})
        × Injective (publication_cache_to_c {Obj = Obj} {Pod = Pod})
        × Injective (querying_subscriber_to_c {Obj = Obj} {Pod = Pod})
  unfolding advanced_publisher_to_c advanced_put_to_c advanced_delete_to_c publication_cache_to_c
      querying_subscriber_to_c
  ext_to_c_opts-Injective d off = (
    (λ x y e.
        let ep =
          publisher_to_c-Injective Obj Pod x.publisher_options y.publisher_options (ground arith) in
        let ec =
          read-Injective (cache_to_c d.cache) read_cache
            (λ o. read_cache-cache_to_c d.cache o off.no_cache) x.cache y.cache (ground arith) in
        let em =
          read-Injective (miss_detection_to_c d.sample_miss_detection) read_miss_detection
            (λ o. read_miss_detection-to_c d.sample_miss_detection o off.no_miss_detection)
            x.sample_miss_detection y.sample_miss_detection (ground arith) in
        ground (arith, ep, ec, em)),
    (λ x y e.
        let ep = publisher_put_to_c-Injective Obj Pod x.put_options y.put_options (ground arith) in
        ground (arith, ep)),
    (λ x y e.
        let ep =
          publisher_delete_to_c-Injective Obj Pod x.delete_options y.delete_options
            (ground arith) in
        ground (arith, ep)),
    (λ x y e. ground arith),
    (λ x y e. ground arith),
  )

  -- Two options values of an AdvancedSubscriber give the same C struct exactly when they agree in
  -- every field, a period of zero between the recovery queries counting as one: heartbeat and
  -- periodic queries are never confused, the C struct marking the former by a period of zero. The
  -- defaults of the C library are those that recover nothing.
  pub advanced_subscriber_to_c-eq_iff :
      (d : Defaults) (x y : AdvancedSubscriberOptions Obj Pod)
      → AllDisabled d
      → (advanced_subscriber_to_c d x ≡ advanced_subscriber_to_c d y) ↔ (
          record x { recovery = raise_recovery x.recovery }
          ≡ record y { recovery = raise_recovery y.recovery })
  unfolding advanced_subscriber_to_c
  advanced_subscriber_to_c-eq_iff d x y off = (
    (λ e.
        let es =
          subscriber_to_c-Injective Obj Pod x.subscriber_options y.subscriber_options
            (ground arith) in
        let eh =
          read-Injective (history_to_c d.history) read_history
            (λ o. read_history-history_to_c d.history o off.no_history) x.history y.history
            (ground arith) in
        let to_c : recovery_to_c d.recovery x.recovery ≡ recovery_to_c d.recovery y.recovery =
          ground arith in
        let read : (o : Option RecoveryOptions)
            → read_recovery (recovery_to_c d.recovery o) ≡ raise_recovery o =
          λ o. read_recovery-to_c d.recovery o off.no_recovery off.no_last_sample in
        let er : raise_recovery x.recovery ≡ raise_recovery y.recovery =
          sym (read x.recovery) ∙ ap read_recovery to_c ∙ read y.recovery in
        ground (arith, es, eh, er)),
    λ e.
        let er : raise_recovery x.recovery ≡ raise_recovery y.recovery = ap (λ o. o.recovery) e in
        let ec : recovery_to_c d.recovery x.recovery ≡ recovery_to_c d.recovery y.recovery =
          sym (recovery_to_c-raise d.recovery x.recovery)
          ∙ ap (recovery_to_c d.recovery) er
          ∙ recovery_to_c-raise d.recovery y.recovery in
        ground (arith, ec),
  )

  -- The defaults of the C library being those that disable what is optional: no option of an
  -- AdvancedPublisher, of its put and delete_resource, of a publication cache or of a querying
  -- subscriber is lost on the way into its C struct; and two options values of an AdvancedSubscriber
  -- give the same C struct exactly when they agree in every field, a period of zero between the
  -- recovery queries counting as one, so that heartbeat and periodic queries are never confused.
  -- QueryingSubscriber::get, whatever the defaults are, hands the C library nine of its options: two
  -- calls get the same struct exactly when these agree, whatever their congestion control, priority,
  -- is_express and cancellation token are.
  pub ext_to_c_opts_lem :
      (d : Defaults) (g : GetDefaults Obj)
      → AllDisabled d
      → Injective (advanced_publisher_to_c {Obj = Obj} {Pod = Pod} d)
        × Injective (advanced_put_to_c {Obj = Obj} {Pod = Pod})
        × Injective (advanced_delete_to_c {Obj = Obj} {Pod = Pod})
        × Injective (publication_cache_to_c {Obj = Obj} {Pod = Pod})
        × Injective (querying_subscriber_to_c {Obj = Obj} {Pod = Pod})
        × ((x y : AdvancedSubscriberOptions Obj Pod)
            → (advanced_subscriber_to_c d x ≡ advanced_subscriber_to_c d y) ↔ (
                record x { recovery = raise_recovery x.recovery }
                ≡ record y { recovery = raise_recovery y.recovery }))
        × ((x y : GetOptions Obj Pod)
            → (querying_get_to_c g x ≡ querying_get_to_c g y) ↔ (
                x ≡ record y {
                  congestion_control = x.congestion_control;
                  priority = x.priority;
                  is_express = x.is_express;
                  cancellation_token = x.cancellation_token;
                }))
  ext_to_c_opts_lem d g off =
      let (pub_opts, put_opts, delete_opts, cache_opts, sub_opts) = ext_to_c_opts-Injective d off in
      (
        pub_opts,
        put_opts,
        delete_opts,
        cache_opts,
        sub_opts,
        λ x y. advanced_subscriber_to_c-eq_iff d x y off,
        λ x y. querying_get_to_c-eq_iff Obj Pod g x y,
      )
