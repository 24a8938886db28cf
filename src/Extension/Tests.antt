-- ===== src/Extension/Tests.antt =====
-- Options of the extension, and calls on a library that refuses them all.
use zenoh_cpp.Base.{ℕ, ◌≡◌, ◌↔◌, refl, List, [], ◌∷◌, false, none, some, inr}
use zenoh_cpp.Result.{other, threw}
use zenoh_cpp.Closures.{Process, use_closure, run, calls, drops}
use zenoh_cpp.Closures.Lifetime.{calls_then_drop}
use zenoh_cpp.Session.Options.{GetOptions}
use zenoh_cpp.Session.Forwarding.{Injective}
use zenoh_cpp.Session.Callbacks.{execute}
use zenoh_cpp.Session.Release.{submitted, with_closure, answer}
use zenoh_cpp.Session.Refusing.{
  refusing, refusing-Contract, start, start-IsFresh, on_sample, on_drop,
}
use zenoh_cpp.Extension.Options.{
  by_heartbeat, LastSampleMissDetection, AdvancedSubscriberOptions, mode_none, Defaults,
  publication_cache_to_c, querying_subscriber_to_c, advanced_publisher_to_c,
  advanced_subscriber_to_c, advanced_put_to_c, advanced_delete_to_c,
}
use zenoh_cpp.Extension.Forwarding.{AllDisabled, ext_to_c_opts_lem, raise_recovery}
use zenoh_cpp.Extension.Miscast.{of_const_sample, miscast_plan, miscast_plan-unusable}
use zenoh_cpp.Extension.Operations.{GetDefaults, querying_get_to_c}
use zenoh_cpp.Extension.Usable.{
  MatchedCall, of_sample_miss, ConstSampleCall, of_advanced_subscriber, matched_plan,
  matched_plan-calls, extension_plan, extension_plan-failure,
}

abbrev defaults : Defaults
defaults = record {
  cache = record {
    is_enabled = false;
    max_samples = 1;
    congestion_control = 0;
    priority = 5;
    is_express = false;
  };
  sample_miss_detection = record {
    is_enabled = false;
    heartbeat_mode = mode_none;
    heartbeat_period_ms = 0;
  };
  history = record {
    is_enabled = false;
    detect_late_publishers = false;
    max_samples = 0;
    max_age_ms = 0;
  };
  recovery = record {
    is_enabled = false;
    last_sample_miss_detection = record { is_enabled = false; periodic_queries_period_ms = 0 };
  };
}

defaults-AllDisabled : AllDisabled defaults
defaults-AllDisabled = record {
  no_cache = refl;
  no_miss_detection = refl;
  no_history = refl;
  no_recovery = refl;
  no_last_sample = refl;
}

-- A subscriber that recovers lost samples.
abbrev recovering : LastSampleMissDetection → AdvancedSubscriberOptions ℕ ℕ
recovering detection = record {
  subscriber_options = record { allowed_origin = 0 };
  history = none;
  recovery = some (record { last_sample_miss_detection = some detection });
  query_timeout_ms = 0;
  subscriber_detection = false;
  subscriber_detection_metadata = none;
}

abbrev get_defaults : GetDefaults ℕ
get_defaults = record {
  congestion_control = 0;
  priority = 5;
  is_express = false;
  cancellation_token = none;
}

ext_to_c_opts_lem_example :
    Injective (advanced_publisher_to_c {Obj = ℕ} {Pod = ℕ} defaults)
    × Injective (advanced_put_to_c {Obj = ℕ} {Pod = ℕ})
    × Injective (advanced_delete_to_c {Obj = ℕ} {Pod = ℕ})
    × Injective (publication_cache_to_c {Obj = ℕ} {Pod = ℕ})
    × Injective (querying_subscriber_to_c {Obj = ℕ} {Pod = ℕ})
    × ((x y : AdvancedSubscriberOptions ℕ ℕ)
        → (advanced_subscriber_to_c defaults x ≡ advanced_subscriber_to_c defaults y) ↔ (
            record x { recovery = raise_recovery x.recovery }
            ≡ record y { recovery = raise_recovery y.recovery }))
    × ((x y : GetOptions ℕ ℕ)
        → (querying_get_to_c get_defaults x ≡ querying_get_to_c get_defaults y) ↔ (
            x ≡ record y {
              congestion_control = x.congestion_control;
              priority = x.priority;
              is_express = x.is_express;
              cancellation_token = x.cancellation_token;
            }))
ext_to_c_opts_lem_example = ext_to_c_opts_lem ℕ ℕ defaults get_defaults defaults-AllDisabled

abbrev misses : MatchedCall ℕ ℕ
misses = of_sample_miss 9

matched_plan-calls_example :
    (q : Process (List ℕ) ℕ) × (run
        (calls_then_drop
          (submitted refusing (matched_plan refusing on_sample on_drop misses) start)
          (5 ∷ 6 ∷ []))
        (with_closure refusing (matched_plan refusing on_sample on_drop misses) start).process
      ≡ some q)
    × (q.user ≡ 5 ∷ 6 ∷ 0 ∷ [])
    × ((a : ℕ) → q.closures a ≡ none)
matched_plan-calls_example =
    matched_plan-calls refusing on_sample on_drop misses (5 ∷ 6 ∷ []) start start-IsFresh

abbrev subscribe : ConstSampleCall ℕ ℕ
subscribe = of_advanced_subscriber defaults 7 8 (recovering by_heartbeat)

miscast_plan-unusable_example :
    let plan = miscast_plan refusing on_sample on_drop (of_const_sample subscribe) in
    (use_closure
        (submitted refusing plan start)
        (calls 5)
        (with_closure refusing plan start).process
      ≡ none)
    × ((q : Process (List ℕ) ℕ) × (use_closure
            (submitted refusing plan start)
            drops
            (with_closure refusing plan start).process
          ≡ some q)
        × (q.user ≡ 0 ∷ []))
miscast_plan-unusable_example =
    miscast_plan-unusable refusing on_sample on_drop (of_const_sample subscribe) 5 start

extension_plan-failure_example :
    let plan = extension_plan refusing on_sample on_drop (inr subscribe) in
    let w' = (answer refusing plan start).1 in
    (execute refusing plan none start ≡ threw (other 1) w')
    × (w'.process.user ≡ 0 ∷ [])
    × ((a : ℕ) → w'.process.closures a ≡ none)
extension_plan-failure_example =
    extension_plan-failure refusing refusing-Contract on_sample on_drop (inr subscribe) none start
      start-IsFresh refl
