-- ===== src/Closures.antt =====
-- include/zenoh/detail/closures.hxx and closures_concrete.hxx: the heap objects that carry a C++
-- callback through the `void* context` of a C closure, and the extern "C" functions that run them.
pub mod Lifetime
mod Tests
use zenoh_cpp.Base.{
  ℕ, suc, ◌+◌, List, [], ◌∷◌, Bool, true, false, Option, none, some, ◌==◌, if◌then◌else◌,
}

-- The `Args...` of an IClosure<void, Args...>. `static_cast` of a context to the closure class of
-- other arguments is undefined behaviour.
pub data Arg : Type 0 where
  reply sample query id hello const_hello transport link transport_event link_event : Arg
  matching_status miss const_sample : Arg

abbrev pub same_arg : Arg → Arg → Bool
same_arg reply reply = true
same_arg sample sample = true
same_arg query query = true
same_arg id id = true
same_arg hello hello = true
same_arg const_hello const_hello = true
same_arg transport transport = true
same_arg link link = true
same_arg transport_event transport_event = true
same_arg link_event link_event = true
same_arg matching_status matching_status = true
same_arg miss miss = true
same_arg const_sample const_sample = true
same_arg a b = false

-- Closure<C, D, void, Args...>: `_call` and `_drop` act on the state `U` of the C++ program; `V` is
-- what the C library passes.
pub record Closure (U V : Type 0) : Type 0 where
  pub arg : Arg
  pub call : V → U → U
  pub drop : U → U

-- The program: its state, and the closures that `new` made, by address.
pub record Process (U V : Type 0) : Type 0 where
  pub user : U
  pub next : ℕ
  pub closures : ℕ → Option (Closure U V)

module _ {U V : Type 0} where
  abbrev pub update :
      (ℕ → Option (Closure U V)) → ℕ → Option (Closure U V) → ℕ → Option (Closure U V)
  update f a c b = if a == b then c else f b

  -- Closure::into_context: `new`, and the address as a context.
  unfoldable pub into_context : Closure U V → Process U V → ℕ × Process U V
  into_context c p =
      (p.next, record p { next = suc p.next; closures = update p.closures p.next (some c) })

  -- IClosure::call_from_context at the argument types `arg`; `none` is undefined behaviour, a
  -- dangling context or one of another class.
  unfoldable pub call_from_context : Arg → ℕ → V → Process U V → Option (Process U V)
  call_from_context arg context v p = elim (p.closures context) [
    | none ↦ none
    | some c ↦ if same_arg arg c.arg then some (record p { user = c.call v p.user }) else none
  ]

  -- IDroppable::delete_from_context: run `drop`, then `delete`.
  unfoldable pub delete_from_context : ℕ → Process U V → Option (Process U V)
  delete_from_context context p = elim (p.closures context) [
    | none ↦ none
    | some c ↦ some (record p { user = c.drop p.user; closures = update p.closures context none })
  ]

-- The extern "C" functions of closures_concrete.hxx, and the two of matching.hxx and miss.hxx.
pub data CallFunction : Type 0 where
  zenoh_on_reply_call zenoh_on_sample_call zenoh_on_query_call zenoh_on_id_call : CallFunction
  zenoh_on_hello_call zenoh_on_transport_call zenoh_on_link_call : CallFunction
  zenoh_on_transport_event_call zenoh_on_link_event_call zenoh_on_status_change_call : CallFunction
  zenoh_on_miss_detected_call : CallFunction

-- The class that each casts its context to.
abbrev pub cast_to : CallFunction → Arg
cast_to zenoh_on_reply_call = reply
cast_to zenoh_on_sample_call = sample
cast_to zenoh_on_query_call = query
cast_to zenoh_on_id_call = id
cast_to zenoh_on_hello_call = hello
cast_to zenoh_on_transport_call = transport
cast_to zenoh_on_link_call = link
cast_to zenoh_on_transport_event_call = transport_event
cast_to zenoh_on_link_event_call = link_event
cast_to zenoh_on_status_change_call = matching_status
cast_to zenoh_on_miss_detected_call = miss

-- `z_closure(&c_closure, call, _zenoh_on_drop, context)`
pub record CClosure : Type 0 where
  pub function : CallFunction
  pub context : ℕ

-- What the C library does with a closure that it owns.
pub data Use (V : Type 0) : Type 0 where
  calls : V → Use V
  drops : Use V

module _ {U V : Type 0} where
  unfoldable pub use_closure : CClosure → Use V → Process U V → Option (Process U V)
  unfolding call_from_context delete_from_context
  use_closure c (calls v) p = call_from_context (cast_to c.function) c.context v p
  use_closure c drops p = delete_from_context c.context p

  -- A history of uses, each of some closure; `none` once one of them is undefined.
  unfoldable pub run : List (CClosure × Use V) → Process U V → Option (Process U V)
  run [] p = some p
  run ((c, u) ∷ rest) p = elim (use_closure c u p) [ none ↦ none | some q ↦ run rest q ]
