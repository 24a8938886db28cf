-- ===== src/Session/Operations.antt =====
-- The functions that make one C call with no closure: put, delete_resource, the replies of a Query,
-- the declarations that return an object, undeclare and close.
use zenoh_cpp.Result.{M, pure, ◌>>=◌, ◌>>◌, c_call, result_check}
use zenoh_cpp.Session.Options.{
  PutOptions, DeleteOptions, PublisherOptions, QuerierOptions, PublisherPutOptions,
  PublisherDeleteOptions, ReplyOptions, ReplyErrOptions, ReplyDelOptions, put_to_c, delete_to_c,
  publisher_to_c, querier_to_c, publisher_put_to_c, publisher_delete_to_c, reply_to_c,
  reply_err_to_c, reply_del_to_c,
}
use zenoh_cpp.Session.Requests.{
  Request, z_put, z_delete, z_publisher_put, z_publisher_delete, z_query_reply, z_query_reply_err,
  z_query_reply_del, z_declare_publisher, z_declare_querier, z_declare_keyexpr, z_undeclare_keyexpr,
  z_liveliness_declare_token, z_undeclare_subscriber, z_undeclare_queryable, z_undeclare_publisher,
  z_undeclare_querier, z_undeclare_matching_listener, z_undeclare_transport_events_listener,
  z_undeclare_link_events_listener, z_liveliness_undeclare_token, z_close, World, Library,
}

module _ {U V : Type 0} (lib : Library U V) where
  open lib use {State, Obj, Pod, invoke}

  -- One call, and the check of its result.
  unfoldable pub operate : Request Obj Pod → M (World U V State) (Unit {0})
  operate r = do (res, obj) ← c_call (invoke r); result_check res

  -- The same with an output parameter, which is returned.
  unfoldable pub obtain : Request Obj Pod → M (World U V State) Obj
  obtain r = do (res, obj) ← c_call (invoke r); result_check res; pure obj

  unfoldable pub put :
      (session key payload : Obj) → PutOptions Obj Pod → M (World U V State) (Unit {0})
  unfolding operate
  put session key payload o = operate (z_put session key payload (put_to_c o))

  unfoldable pub delete_resource :
      (session key : Obj) → DeleteOptions Obj Pod → M (World U V State) (Unit {0})
  unfolding operate
  delete_resource session key o = operate (z_delete session key (delete_to_c o))

  unfoldable pub publisher_put :
      (publisher payload : Obj) → PublisherPutOptions Obj Pod → M (World U V State) (Unit {0})
  unfolding operate
  publisher_put publisher payload o =
      operate (z_publisher_put publisher payload (publisher_put_to_c o))

  unfoldable pub publisher_delete :
      (publisher : Obj) → PublisherDeleteOptions Obj Pod → M (World U V State) (Unit {0})
  unfolding operate
  publisher_delete publisher o = operate (z_publisher_delete publisher (publisher_delete_to_c o))

  unfoldable pub query_reply :
      (query key payload : Obj) → ReplyOptions Obj Pod → M (World U V State) (Unit {0})
  unfolding operate
  query_reply query key payload o = operate (z_query_reply query key payload (reply_to_c o))

  unfoldable pub query_reply_err :
      (query payload : Obj) → ReplyErrOptions Obj Pod → M (World U V State) (Unit {0})
  unfolding operate
  query_reply_err query payload o = operate (z_query_reply_err query payload (reply_err_to_c o))

  unfoldable pub query_reply_del :
      (query key : Obj) → ReplyDelOptions Obj Pod → M (World U V State) (Unit {0})
  unfolding operate
  query_reply_del query key o = operate (z_query_reply_del query key (reply_del_to_c o))

  unfoldable pub undeclare_keyexpr : (session key : Obj) → M (World U V State) (Unit {0})
  unfolding operate
  undeclare_keyexpr session key = operate (z_undeclare_keyexpr session key)

  unfoldable pub undeclare_subscriber : (subscriber : Obj) → M (World U V State) (Unit {0})
  unfolding operate
  undeclare_subscriber subscriber = operate (z_undeclare_subscriber subscriber)

  unfoldable pub undeclare_queryable : (queryable : Obj) → M (World U V State) (Unit {0})
  unfolding operate
  undeclare_queryable queryable = operate (z_undeclare_queryable queryable)

  unfoldable pub undeclare_publisher : (publisher : Obj) → M (World U V State) (Unit {0})
  unfolding operate
  undeclare_publisher publisher = operate (z_undeclare_publisher publisher)

  unfoldable pub undeclare_querier : (querier : Obj) → M (World U V State) (Unit {0})
  unfolding operate
  undeclare_querier querier = operate (z_undeclare_querier querier)

  unfoldable pub undeclare_matching_listener : (listener : Obj) → M (World U V State) (Unit {0})
  unfolding operate
  undeclare_matching_listener listener = operate (z_undeclare_matching_listener listener)

  unfoldable pub undeclare_transport_events_listener :
      (listener : Obj) → M (World U V State) (Unit {0})
  unfolding operate
  undeclare_transport_events_listener listener =
      operate (z_undeclare_transport_events_listener listener)

  unfoldable pub undeclare_link_events_listener : (listener : Obj) → M (World U V State) (Unit {0})
  unfolding operate
  undeclare_link_events_listener listener = operate (z_undeclare_link_events_listener listener)

  unfoldable pub undeclare_token : (token : Obj) → M (World U V State) (Unit {0})
  unfolding operate
  undeclare_token token = operate (z_liveliness_undeclare_token token)

  unfoldable pub close : (session : Obj) → M (World U V State) (Unit {0})
  unfolding operate
  close session = operate (z_close session)

  unfoldable pub declare_publisher :
      (session key : Obj) → PublisherOptions Obj Pod → M (World U V State) Obj
  unfolding obtain
  declare_publisher session key o = obtain (z_declare_publisher session key (publisher_to_c o))

  unfoldable pub declare_querier :
      (session key : Obj) → QuerierOptions Obj Pod → M (World U V State) Obj
  unfolding obtain
  declare_querier session key o = obtain (z_declare_querier session key (querier_to_c o))

  unfoldable pub declare_keyexpr : (session key : Obj) → M (World U V State) Obj
  unfolding obtain
  declare_keyexpr session key = obtain (z_declare_keyexpr session key)

  unfoldable pub liveliness_declare_token : (session key : Obj) → M (World U V State) Obj
  unfolding obtain
  liveliness_declare_token session key = obtain (z_liveliness_declare_token session key)

  -- Subscriber<Handler>::undeclare and Queryable<Handler>::undeclare hand the handler back.
  unfoldable pub undeclare_with_handler :
      (undeclare : Request Obj Pod) (handler : Obj) → M (World U V State) Obj
  unfolding operate
  undeclare_with_handler undeclare handler = do operate undeclare; pure handler
