-- ===== src/Session/Tests.antt =====
-- Calls on a library that refuses them all.
use zenoh_cpp.Base.{ℕ, ◌≡◌, refl, List, [], ◌∷◌, false, Option, none, some, ◌↔◌}
use zenoh_cpp.Result.{other, threw}
use zenoh_cpp.Closures.{Process, run}
use zenoh_cpp.Closures.Lifetime.{calls_then_drop}
use zenoh_cpp.Session.Options.{
  DeleteOptions, ReplyOptions, ReplyDelOptions, get_to_c, queryable_to_c, subscriber_to_c,
  delete_to_c, put_to_c, publisher_to_c, querier_to_c, transport_events_to_c,
  liveliness_subscriber_to_c, link_events_to_c, liveliness_get_to_c, publisher_put_to_c,
  publisher_delete_to_c, querier_get_to_c, reply_to_c, reply_err_to_c, reply_del_to_c,
}
use zenoh_cpp.Session.Forwarding.{Injective, to_c_opts-Injective, ignored_options}
use zenoh_cpp.Session.Requests.{fifo, z_close}
use zenoh_cpp.Session.Callbacks.{execute}
use zenoh_cpp.Session.Handlers.{
  Channel, ChannelPlan, declare_subscriber_channel, into_cb_handler_pair,
}
use zenoh_cpp.Session.Release.{submitted, with_closure, answer}
use zenoh_cpp.Session.Usable.{CallbackCall, of_subscriber, plan_of, plan_of-calls, plan_of-failure}
use zenoh_cpp.Session.Refusing.{
  drop_moved, refusing, refusing-Contract, start, start-IsFresh, on_sample, on_drop,
}
use zenoh_cpp.Session.Modes.{ApiCall, connects, operates, throwing, checking, calls-first_failure}

abbrev subscribe : CallbackCall ℕ ℕ
subscribe = of_subscriber 7 8 (record { allowed_origin = 0 })

plan_of-calls_example :
    (q : Process (List ℕ) ℕ) × (run
        (calls_then_drop
          (submitted refusing (plan_of refusing on_sample on_drop subscribe) start)
          (5 ∷ 6 ∷ []))
        (with_closure refusing (plan_of refusing on_sample on_drop subscribe) start).process
      ≡ some q)
    × (q.user ≡ 5 ∷ 6 ∷ 0 ∷ [])
    × ((a : ℕ) → q.closures a ≡ none)
plan_of-calls_example =
    plan_of-calls refusing on_sample on_drop subscribe (5 ∷ 6 ∷ []) start start-IsFresh

plan_of-failure_example :
    let w' = (answer refusing (plan_of refusing on_sample on_drop subscribe) start).1 in
    (execute refusing (plan_of refusing on_sample on_drop subscribe) none start
      ≡ threw (other 1) w')
    × (w'.process.user ≡ 0 ∷ [])
    × ((a : ℕ) → w'.process.closures a ≡ none)
plan_of-failure_example =
    plan_of-failure refusing refusing-Contract on_sample on_drop subscribe none start start-IsFresh
      refl

abbrev channel : Channel
channel = record { kind = fifo; capacity = 4 }

abbrev subscribe_channel : ChannelPlan ℕ ℕ
subscribe_channel = declare_subscriber_channel 7 8 (record { allowed_origin = 0 })

-- A subscriber with a channel is refused; the query behind it is not made.
abbrev program : List (ApiCall (List ℕ) ℕ ℕ ℕ)
program = connects channel subscribe_channel ∷ operates (z_close 7) ∷ []

calls-first_failure_example :
    (throwing refusing program none start
      ≡ threw (other 1) (record { process = start.process; library = 6 }))
    × (checking refusing program start ≡ (other 1, record { process = start.process; library = 6 }))
unfolding declare_subscriber_channel into_cb_handler_pair drop_moved
calls-first_failure_example = calls-first_failure refusing program start

to_c_opts-Injective_example :
    Injective (get_to_c {Obj = ℕ} {Pod = ℕ})
    × Injective (queryable_to_c {Obj = ℕ} {Pod = ℕ})
    × Injective (subscriber_to_c {Obj = ℕ} {Pod = ℕ})
    × Injective (put_to_c {Obj = ℕ} {Pod = ℕ})
    × Injective (publisher_to_c {Obj = ℕ} {Pod = ℕ})
    × Injective (querier_to_c {Obj = ℕ} {Pod = ℕ})
    × Injective (transport_events_to_c {Obj = ℕ} {Pod = ℕ})
    × Injective (liveliness_subscriber_to_c {Obj = ℕ} {Pod = ℕ})
    × Injective (link_events_to_c {Obj = ℕ} {Pod = ℕ})
    × Injective (liveliness_get_to_c {Obj = ℕ} {Pod = ℕ})
    × Injective (publisher_put_to_c {Obj = ℕ} {Pod = ℕ})
    × Injective (publisher_delete_to_c {Obj = ℕ} {Pod = ℕ})
    × Injective (querier_get_to_c {Obj = ℕ} {Pod = ℕ})
    × Injective (reply_err_to_c {Obj = ℕ} {Pod = ℕ})
to_c_opts-Injective_example = to_c_opts-Injective ℕ ℕ

ignored_options_example :
    ((x y : DeleteOptions ℕ ℕ)
      → (delete_to_c x ≡ delete_to_c y) ↔ (x ≡ record y { timestamp = x.timestamp }))
    × ((x y : ReplyOptions ℕ ℕ)
        → (reply_to_c x ≡ reply_to_c y)
          ↔ (x ≡ record y { priority = x.priority; congestion_control = x.congestion_control }))
    × ((x y : ReplyDelOptions ℕ ℕ)
        → (reply_del_to_c x ≡ reply_del_to_c y)
          ↔ (x ≡ record y { priority = x.priority; congestion_control = x.congestion_control }))
ignored_options_example = ignored_options ℕ ℕ

-- Options that differ in the timestamp only give the same struct.
abbrev delete_at : Option ℕ → DeleteOptions ℕ ℕ
delete_at t = record {
  priority = 5;
  congestion_control = 1;
  is_express = false;
  reliability = 1;
  timestamp = t;
}

same_struct : delete_to_c (delete_at none) ≡ delete_to_c (delete_at (some 4))
unfolding delete_to_c
same_struct = refl
