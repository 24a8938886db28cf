-- ===== src/Session/Info.antt =====
-- get_routers_z_id, get_peers_z_id, get_transports and get_links of include/zenoh/api/session.hxx: each
-- collects what the C library lists in a local vector, by a callback that has a reference to it.
use zenoh_cpp.Base.{
  ℕ, ◌≡◌, refl, ◌∙◌, ap, List, [], ◌∷◌, ◌++◌, append_assoc, append-nil, Option, none, some, true,
}
use zenoh_cpp.Result.{ZResult, z_ok, returned, M, ◌>>=◌, ◌>>◌, c_call, result_check}
use zenoh_cpp.Closures.{
  Arg, id, link, Closure, Process, CallFunction, zenoh_on_id_call, zenoh_on_transport_call,
  zenoh_on_link_call, CClosure, into_context, run, same_arg, cast_to,
}
use zenoh_cpp.Closures.Lifetime.{IsFresh, calls_then_drop, seen, run-into_context}

pub data InfoRequest (Obj : Type 0) : Type 0 where
  z_info_routers_zid z_info_peers_zid z_info_transports : (session : Obj) → InfoRequest Obj
  z_info_links : (session : Obj) → (transport : Option Obj) → InfoRequest Obj

-- The C++ program with the vector `out` of the function that runs.
pub record Frame (U V : Type 0) : Type 0 where
  pub out : List V
  pub program : U

pub record InfoWorld (U V L : Type 0) : Type 0 where
  pub process : Process (Frame U V) V
  pub library : L

-- The C functions z_info_*, and what the library lists for a request.
pub record InfoLibrary (U V : Type 0) : Type 1 where
  pub State : Type 0
  pub Obj : Type 0
  pub inform : InfoRequest Obj → CClosure → InfoWorld U V State → ZResult × InfoWorld U V State
  pub listed : InfoRequest Obj → InfoWorld U V State → List V

-- Such a C function owns its closure. When it succeeds, it has called it for each listed item in order
-- and dropped it, and has done nothing else to the C++ program.
pub record InfoContract {U V : Type 0} (lib : InfoLibrary U V) : Type 0 where
  pub calls_each :
      (r : InfoRequest lib.Obj) (k : CClosure) (w : InfoWorld U V lib.State)
      (p : Process (Frame U V) V)
      → (lib.inform r k w).0 ≡ z_ok
      → run (calls_then_drop k (lib.listed r w)) w.process ≡ some p
      → (lib.inform r k w).1.process ≡ p

module _ {U V : Type 0} (lib : InfoLibrary U V) where
  open lib use {State, Obj, inform, listed}

  -- `[&out](x) { out.push_back(x); }` with `closures::none`
  abbrev pub pusher : Arg → Closure (Frame U V) V
  pusher arg = record { arg = arg; call = λ v u. record u { out = u.out ++ v ∷ [] }; drop = λ u. u }

  -- `std::vector<..> out;` and then `new Closure(..)`
  abbrev pub enter : Arg → InfoWorld U V State → ℕ × InfoWorld U V State
  enter arg w =
      let p = record w.process { user = record w.process.user { out = [] } } in
      let (context, q) = into_context (pusher arg) p in (context, record w { process = q })

  abbrev pub read_out : InfoWorld U V State → List V × InfoWorld U V State
  read_out w = (w.process.user.out, w)

  -- The body that the four functions share.
  unfoldable pub collect : Arg → CallFunction → InfoRequest Obj → M (InfoWorld U V State) (List V)
  collect arg f r = do
    context ← c_call (enter arg)
    res ← c_call (inform r (record { function = f; context = context }))
    result_check res
    c_call read_out

  unfoldable pub get_routers_z_id : (session : Obj) → M (InfoWorld U V State) (List V)
  unfolding collect
  get_routers_z_id session = collect id zenoh_on_id_call (z_info_routers_zid session)

  unfoldable pub get_peers_z_id : (session : Obj) → M (InfoWorld U V State) (List V)
  unfolding collect
  get_peers_z_id session = collect id zenoh_on_id_call (z_info_peers_zid session)

  unfoldable pub get_transports : (session : Obj) → M (InfoWorld U V State) (List V)
  unfolding collect
  get_transports session = collect Arg.transport zenoh_on_transport_call (z_info_transports session)

  unfoldable pub get_links :
      (session : Obj) (of_transport : Option Obj) → M (InfoWorld U V State) (List V)
  unfolding collect
  get_links session of_transport =
      collect link zenoh_on_link_call (z_info_links session of_transport)

  -- The function that makes a request.
  abbrev pub fetch : InfoRequest Obj → M (InfoWorld U V State) (List V)
  fetch (z_info_routers_zid s) = get_routers_z_id s
  fetch (z_info_peers_zid s) = get_peers_z_id s
  fetch (z_info_transports s) = get_transports s
  fetch (z_info_links s t) = get_links s t

  abbrev pub arg_of : InfoRequest Obj → Arg
  arg_of (z_info_routers_zid s) = id
  arg_of (z_info_peers_zid s) = id
  arg_of (z_info_transports s) = Arg.transport
  arg_of (z_info_links s t) = link

  abbrev pub function_of : InfoRequest Obj → CallFunction
  function_of (z_info_routers_zid s) = zenoh_on_id_call
  function_of (z_info_peers_zid s) = zenoh_on_id_call
  function_of (z_info_transports s) = zenoh_on_transport_call
  function_of (z_info_links s t) = zenoh_on_link_call

  fetch-collect : (r : InfoRequest Obj) → fetch r ≡ collect (arg_of r) (function_of r) r
  unfolding get_routers_z_id get_peers_z_id get_transports get_links
  fetch-collect (z_info_routers_zid s) = refl
  fetch-collect (z_info_peers_zid s) = refl
  fetch-collect (z_info_transports s) = refl
  fetch-collect (z_info_links s t) = refl

  arg_of-function_of : (r : InfoRequest Obj) → same_arg (cast_to (function_of r)) (arg_of r) ≡ true
  arg_of-function_of (z_info_routers_zid s) = refl
  arg_of-function_of (z_info_peers_zid s) = refl
  arg_of-function_of (z_info_transports s) = refl
  arg_of-function_of (z_info_links s t) = refl

  seen-pusher :
      (arg : Arg) (vs : List V) (u : Frame U V)
      → seen (pusher arg) vs u ≡ record u { out = u.out ++ vs }
  seen-pusher arg [] u = rw (append-nil u.out)
  seen-pusher arg (v ∷ vs) u =
      seen-pusher arg vs (record u { out = u.out ++ v ∷ [] })
      ∙ ap (λ l. record u { out = l }) (append_assoc u.out (v ∷ []) vs)

  -- The call of C by `fetch r`, and the world in which it is made.
  abbrev pub call_world : InfoRequest Obj → InfoWorld U V State → InfoWorld U V State
  call_world r w = (enter (arg_of r) w).1

  abbrev pub call_answer : InfoRequest Obj → InfoWorld U V State → ZResult × InfoWorld U V State
  call_answer r w =
      inform r (record { function = function_of r; context = (enter (arg_of r) w).0 })
        (call_world r w)

  -- The process that the C call leaves.
  answer-process :
      (contract : InfoContract lib) (r : InfoRequest Obj) (w : InfoWorld U V State)
      → IsFresh w.process
      → (call_answer r w).0 ≡ z_ok
      → ((call_answer r w).1.process.user
          ≡ record w.process.user { out = listed r (call_world r w) })
        × ((a : ℕ) → (call_answer r w).1.process.closures a ≡ w.process.closures a)
  answer-process contract r w fresh ok =
      let p = record w.process { user = record w.process.user { out = [] } } in
      let items = listed r (call_world r w) in
      let (q, e, eu, en, heap) =
        run-into_context (function_of r) (pusher (arg_of r)) items p
          (record { above = fresh.above }) (arg_of-function_of r) in
      let same = contract.calls_each r _ (call_world r w) q ok e in
      (
        ap (λ p. p.user) same ∙ eu ∙ seen-pusher (arg_of r) items _,
        λ a. ap (λ p. p.closures a) same ∙ heap a,
      )

  -- When the C function succeeds, get_routers_z_id, get_peers_z_id, get_transports and get_links return
  -- what the library lists, all of it and in order, with `err` null or not; the program around the
  -- call and every address of the heap are as before.
  pub fetch_lem :
      (contract : InfoContract lib) (r : InfoRequest Obj) (w : InfoWorld U V State)
      → IsFresh w.process
      → (call_answer r w).0 ≡ z_ok
      → let items = listed r (call_world r w) in
        let w' = (call_answer r w).1 in
        (fetch r none w ≡ returned items none w')
        × ((e : ZResult) → fetch r (some e) w ≡ returned items (some z_ok) w')
        × (w'.process.user.program ≡ w.process.user.program)
        × ((a : ℕ) → w'.process.closures a ≡ w.process.closures a)
  unfolding collect result_check
  fetch_lem contract r w fresh ok =
      let (eu, heap) = answer-process contract r w fresh ok in
      (
        rw (fetch-collect r, ok, ◌>>=◌) (ap (λ u. returned u.out none (call_answer r w).1) eu),
        (λ e.
            rw (fetch-collect r, ok, ◌>>=◌)
              (ap (λ u. returned u.out (some z_ok) (call_answer r w).1) eu)),
        ap (λ u. u.program) eu,
        heap,
      )
