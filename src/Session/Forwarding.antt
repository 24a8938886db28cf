-- ===== src/Session/Forwarding.antt =====
-- Which options reach the C library: whether two options values that differ become C structs that
-- differ.
use zenoh_cpp.Base.{◌≡◌, ◌↔◌, arith}
use zenoh_cpp.Session.Options.{
  DeleteOptions, ReplyOptions, ReplyDelOptions, get_to_c, queryable_to_c, subscriber_to_c,
  delete_to_c, put_to_c, publisher_to_c, querier_to_c, transport_events_to_c,
  liveliness_subscriber_to_c, link_events_to_c, liveliness_get_to_c, publisher_put_to_c,
  publisher_delete_to_c, querier_get_to_c, reply_to_c, reply_err_to_c, reply_del_to_c,
}

abbrev pub Injective : {A B : Type 0} → (A → B) → Type 0
Injective {A} f = (x y : A) → f x ≡ f y → x ≡ y

module _ (Obj Pod : Type 0) where
  get_to_c-Injective : Injective (get_to_c {Obj = Obj} {Pod = Pod})
  unfolding get_to_c
  get_to_c-Injective x y e = ground arith

  queryable_to_c-Injective : Injective (queryable_to_c {Obj = Obj} {Pod = Pod})
  unfolding queryable_to_c
  queryable_to_c-Injective x y e = ground arith

  pub subscriber_to_c-Injective : Injective (subscriber_to_c {Obj = Obj} {Pod = Pod})
  unfolding subscriber_to_c
  subscriber_to_c-Injective x y e = ground arith

  put_to_c-Injective : Injective (put_to_c {Obj = Obj} {Pod = Pod})
  unfolding put_to_c
  put_to_c-Injective x y e = ground arith

  pub publisher_to_c-Injective : Injective (publisher_to_c {Obj = Obj} {Pod = Pod})
  unfolding publisher_to_c
  publisher_to_c-Injective x y e = ground arith

  querier_to_c-Injective : Injective (querier_to_c {Obj = Obj} {Pod = Pod})
  unfolding querier_to_c
  querier_to_c-Injective x y e = ground arith

  transport_events_to_c-Injective : Injective (transport_events_to_c {Obj = Obj} {Pod = Pod})
  unfolding transport_events_to_c
  transport_events_to_c-Injective x y e = ground arith

  liveliness_subscriber_to_c-Injective :
      Injective (liveliness_subscriber_to_c {Obj = Obj} {Pod = Pod})
  unfolding liveliness_subscriber_to_c
  liveliness_subscriber_to_c-Injective x y e = ground arith

  link_events_to_c-Injective : Injective (link_events_to_c {Obj = Obj} {Pod = Pod})
  unfolding link_events_to_c
  link_events_to_c-Injective x y e = ground arith

  liveliness_get_to_c-Injective : Injective (liveliness_get_to_c {Obj = Obj} {Pod = Pod})
  unfolding liveliness_get_to_c
  liveliness_get_to_c-Injective x y e = ground arith

  pub publisher_put_to_c-Injective : Injective (publisher_put_to_c {Obj = Obj} {Pod = Pod})
  unfolding publisher_put_to_c
  publisher_put_to_c-Injective x y e = ground arith

  pub publisher_delete_to_c-Injective : Injective (publisher_delete_to_c {Obj = Obj} {Pod = Pod})
  unfolding publisher_delete_to_c
  publisher_delete_to_c-Injective x y e = ground arith

  querier_get_to_c-Injective : Injective (querier_get_to_c {Obj = Obj} {Pod = Pod})
  unfolding querier_get_to_c
  querier_get_to_c-Injective x y e = ground arith

  reply_err_to_c-Injective : Injective (reply_err_to_c {Obj = Obj} {Pod = Pod})
  unfolding reply_err_to_c
  reply_err_to_c-Injective x y e = ground arith

  -- No option is lost on the way into the C structs of z_get, z_declare_queryable,
  -- z_declare_subscriber, z_put, z_declare_publisher, z_declare_querier, the listeners, the liveliness
  -- calls, z_publisher_put, z_publisher_delete, z_querier_get and z_query_reply_err: options that give
  -- the same struct are equal in every field.
  pub to_c_opts-Injective :
      Injective (get_to_c {Obj = Obj} {Pod = Pod})
      × Injective (queryable_to_c {Obj = Obj} {Pod = Pod})
      × Injective (subscriber_to_c {Obj = Obj} {Pod = Pod})
      × Injective (put_to_c {Obj = Obj} {Pod = Pod})
      × Injective (publisher_to_c {Obj = Obj} {Pod = Pod})
      × Injective (querier_to_c {Obj = Obj} {Pod = Pod})
      × Injective (transport_events_to_c {Obj = Obj} {Pod = Pod})
      × Injective (liveliness_subscriber_to_c {Obj = Obj} {Pod = Pod})
      × Injective (link_events_to_c {Obj = Obj} {Pod = Pod})
      × Injective (liveliness_get_to_c {Obj = Obj} {Pod = Pod})
      × Injective (publisher_put_to_c {Obj = Obj} {Pod = Pod})
      × Injective (publisher_delete_to_c {Obj = Obj} {Pod = Pod})
      × Injective (querier_get_to_c {Obj = Obj} {Pod = Pod})
      × Injective (reply_err_to_c {Obj = Obj} {Pod = Pod})
  to_c_opts-Injective = (
    get_to_c-Injective, queryable_to_c-Injective, subscriber_to_c-Injective, put_to_c-Injective,
    publisher_to_c-Injective, querier_to_c-Injective, transport_events_to_c-Injective,
    liveliness_subscriber_to_c-Injective, link_events_to_c-Injective, liveliness_get_to_c-Injective,
    publisher_put_to_c-Injective, publisher_delete_to_c-Injective, querier_get_to_c-Injective,
    reply_err_to_c-Injective,
  )

  -- The options that do not reach the C library are the timestamp of Session::delete_resource, and the
  -- deprecated priority and congestion_control of Query::reply and Query::reply_del: two calls of one of
  -- these functions get the same struct exactly when all their other options agree.
  pub ignored_options :
      ((x y : DeleteOptions Obj Pod)
        → (delete_to_c x ≡ delete_to_c y) ↔ (x ≡ record y { timestamp = x.timestamp }))
      × ((x y : ReplyOptions Obj Pod)
          → (reply_to_c x ≡ reply_to_c y)
            ↔ (x ≡ record y { priority = x.priority; congestion_control = x.congestion_control }))
      × ((x y : ReplyDelOptions Obj Pod)
          → (reply_del_to_c x ≡ reply_del_to_c y)
            ↔ (x ≡ record y { priority = x.priority; congestion_control = x.congestion_control }))
  unfolding delete_to_c reply_to_c reply_del_to_c
  ignored_options = (
    (λ x y. ((λ e. ground arith), (λ e. ground arith))),
    (λ x y. ((λ e. ground arith), (λ e. ground arith))),
    λ x y. ((λ e. ground arith), (λ e. ground arith)),
  )
