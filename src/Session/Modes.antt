-- ===== src/Session/Modes.antt =====
-- Programs that call one function of the API after another, and stop at the first error: those that
-- leave `err` null and get an exception, and those that give an `err` and look at it after each call.
use zenoh_cpp.Base.{
  ◌≡◌, refl, List, [], ◌∷◌, true, false, Option, none, some, if◌then◌else◌, Bool-cases, inl, inr,
}
use zenoh_cpp.Result.{
  ZResult, z_ok, is_ok, Run, returned, threw, M, pure, ◌>>=◌, ◌>>◌, result_check,
}
use zenoh_cpp.Session.Requests.{Request, World, Library}
use zenoh_cpp.Session.Callbacks.{Plan, execute}
use zenoh_cpp.Session.Operations.{operate, obtain}
use zenoh_cpp.Session.Handlers.{Channel, ChannelPlan, execute_channel, drop_before_throw}
use zenoh_cpp.Session.Release.{answer, channel_pair, channel_answer}

-- A function with a callback, one with a channel, one that returns what C declares, and one that
-- returns nothing.
pub data ApiCall (U V Obj Pod : Type 0) : Type 0 where
  executes : Plan U V Obj Pod → ApiCall U V Obj Pod
  connects : Channel → ChannelPlan Obj Pod → ApiCall U V Obj Pod
  obtains operates : Request Obj Pod → ApiCall U V Obj Pod

module _ {U V : Type 0} (lib : Library U V) where
  open lib use {State, Obj, Pod, invoke, z_drop}

  -- The call, with the handler that it returns.
  unfoldable pub api_call : ApiCall U V Obj Pod → M (World U V State) (Option Obj)
  unfolding execute execute_channel obtain operate
  api_call (executes plan) = do execute lib plan; pure none
  api_call (connects ch plan) = do (obj, handler) ← execute_channel lib ch plan; pure (some handler)
  api_call (obtains r) = do obtain lib r; pure none
  api_call (operates r) = do operate lib r; pure none

  -- `err` null: an exception ends the program.
  unfoldable pub throwing : List (ApiCall U V Obj Pod) → M (World U V State) (Unit {0})
  unfolding api_call
  throwing [] = pure tt
  throwing (c ∷ cs) = do api_call c; throwing cs

  -- A handler that goes out of scope is dropped.
  abbrev pub leave_scope : Option Obj → World U V State → World U V State
  leave_scope none w = w
  leave_scope (some handler) w = z_drop handler w

  -- `ZResult err = Z_OK; auto x = call(.., &err); if (err != Z_OK) return err;`
  unfoldable pub checking : List (ApiCall U V Obj Pod) → World U V State → ZResult × World U V State
  unfolding api_call
  checking [] w = (z_ok, w)
  checking (c ∷ cs) w = elim (api_call c (some z_ok) w) [
    | threw code w' ↦ (code, w')
    | returned h err w' ↦ elim err [
      | none ↦ (z_ok, w')
      | some code ↦
          let rest = checking cs w' in if is_ok code then rest else (code, leave_scope h w')
    ]
  ]

  -- What the C library answers to a call, and the handler that was made for it.
  abbrev pub c_answer : ApiCall U V Obj Pod → World U V State → ZResult × World U V State
  c_answer (executes plan) w = ((answer lib plan w).0.0, (answer lib plan w).1)
  c_answer (connects ch plan) w =
      ((channel_answer lib ch plan w).0.0, (channel_answer lib ch plan w).1)
  c_answer (obtains r) w = ((invoke r w).0.0, (invoke r w).1)
  c_answer (operates r) w = ((invoke r w).0.0, (invoke r w).1)

  abbrev pub made_handler : ApiCall U V Obj Pod → World U V State → Option Obj
  made_handler (connects ch plan) w = some (channel_pair lib ch plan w).0.1
  made_handler c w = none

  -- The C calls alone: the first code that is not Z_OK, if there is one, and the state at the end, with
  -- the handler of the call that failed dropped.
  abbrev pub first_failure :
      List (ApiCall U V Obj Pod) → World U V State → Option ZResult × World U V State
  first_failure [] w = (none, w)
  first_failure (c ∷ cs) w =
      let rest = first_failure cs (c_answer c w).1 in
      if is_ok (c_answer c w).0
      then rest
      else (some (c_answer c w).0, leave_scope (made_handler c w) (c_answer c w).1)

  abbrev pub as_exception : Option ZResult × World U V State → Run (World U V State) (Unit {0})
  as_exception (none, w) = returned tt none w
  as_exception (some code, w) = threw code w

  abbrev pub as_code : Option ZResult × World U V State → ZResult × World U V State
  as_code (none, w) = (z_ok, w)
  as_code (some code, w) = (code, w)

  api_call-writes :
      (c : ApiCall U V Obj Pod) (w : World U V State)
      → api_call c (some z_ok) w
        ≡ returned (made_handler c w) (some (c_answer c w).0) (c_answer c w).1
  unfolding api_call execute execute_channel drop_before_throw obtain operate result_check
  api_call-writes (executes plan) w = refl
  api_call-writes (connects ch plan) w = refl
  api_call-writes (obtains r) w = refl
  api_call-writes (operates r) w = refl

  api_call-returns :
      (c : ApiCall U V Obj Pod) (w : World U V State)
      → is_ok (c_answer c w).0 ≡ true
      → api_call c none w ≡ returned (made_handler c w) none (c_answer c w).1
  unfolding api_call execute execute_channel drop_before_throw obtain operate result_check
  api_call-returns (executes plan) w good = rw (◌>>=◌, good) refl
  api_call-returns (connects ch plan) w good = rw (◌>>=◌, good) refl
  api_call-returns (obtains r) w good = rw (◌>>=◌, good) refl
  api_call-returns (operates r) w good = rw (◌>>=◌, good) refl

  api_call-throws :
      (c : ApiCall U V Obj Pod) (w : World U V State)
      → is_ok (c_answer c w).0 ≡ false
      → api_call c none w ≡ threw (c_answer c w).0 (leave_scope (made_handler c w) (c_answer c w).1)
  unfolding api_call execute execute_channel drop_before_throw obtain operate result_check
  api_call-throws (executes plan) w bad = rw (◌>>=◌, bad) refl
  api_call-throws (connects ch plan) w bad = rw (◌>>=◌, bad) refl
  api_call-throws (obtains r) w bad = rw (◌>>=◌, bad) refl
  api_call-throws (operates r) w bad = rw (◌>>=◌, bad) refl

  throwing-first_failure :
      (cs : List (ApiCall U V Obj Pod)) (w : World U V State)
      → throwing cs none w ≡ as_exception (first_failure cs w)
  unfolding throwing
  throwing-first_failure [] w = refl
  throwing-first_failure (c ∷ cs) w = elim (Bool-cases (is_ok (c_answer c w).0)) [
    | inl good ↦
        rw (◌>>=◌, api_call-returns c w good, good) (throwing-first_failure cs (c_answer c w).1)
    | inr bad ↦ rw (◌>>=◌, api_call-throws c w bad, bad) refl
  ]

  checking-first_failure :
      (cs : List (ApiCall U V Obj Pod)) (w : World U V State)
      → checking cs w ≡ as_code (first_failure cs w)
  unfolding checking
  checking-first_failure [] w = refl
  checking-first_failure (c ∷ cs) w = elim (Bool-cases (is_ok (c_answer c w).0)) [
    | inl good ↦
        rw (checking, api_call-writes c w, good) (checking-first_failure cs (c_answer c w).1)
    | inr bad ↦ rw (checking, api_call-writes c w, bad) refl
  ]

  -- For every sequence of calls with a callback, with a channel, of declarations and of operations: the
  -- C library gets the calls in order up to the first that it refuses, and none behind it. With `err`
  -- null the program then ends with this call's code as the exception, and a program that gives an
  -- `err` and returns when it is not Z_OK returns the same code; both leave the same state, in which
  -- the handler of a call that failed was dropped once. Without a refusal both go through all calls.
  pub calls-first_failure :
      (cs : List (ApiCall U V Obj Pod)) (w : World U V State)
      → (throwing cs none w ≡ as_exception (first_failure cs w))
        × (checking cs w ≡ as_code (first_failure cs w))
  calls-first_failure cs w = (throwing-first_failure cs w, checking-first_failure cs w)
