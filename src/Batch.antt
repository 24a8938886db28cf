-- ===== src/Batch.antt =====
-- include/zenoh/api/session.hxx, Session::BatchGuard and Session::start_batching, in the build over
-- zenoh-pico with batching.
pub mod References
pub mod Lifetimes
mod Tests
use zenoh_cpp.Base.{ℕ, List, [], ◌∷◌, Bool, true, false, Option, none, some, ◌==◌, if◌then◌else◌}
use zenoh_cpp.Result.{
  ZResult, z_ok, Run, returned, threw, M, pure, ◌>>=◌, ◌>>◌, c_call, result_check, succeeded,
}

-- The C functions: `Counted` is z_owned_session_t, a counted reference to a session, and Z_EINVAL a
-- code.
pub record BatchApi : Type 1 where
  pub State : Type 0
  pub Session : Type 0
  pub Counted : Type 0
  pub z_einval : ZResult
  pub null : Counted
  pub check : Counted → Bool
  pub z_session_rc_clone : Session → State → Counted × State
  pub zp_batch_start : Session → State → ZResult × State
  pub zp_batch_flush : Counted → State → ZResult × State
  pub zp_batch_stop : Counted → State → State
  pub z_drop : Counted → State → State

-- One operation, on the addresses of guards.
pub data GuardOp (Session : Type 0) : Type 0 where
  starts : (this : ℕ) → Session → Option ZResult → GuardOp Session
  flushes : (this : ℕ) → Option ZResult → GuardOp Session
  moves : (this other : ℕ) → GuardOp Session
  assigns_guard : (this other : ℕ) → GuardOp Session
  ends : (this : ℕ) → GuardOp Session

module _ (api : BatchApi) where
  open api use {
    State, Session, Counted, z_einval, null, check, z_session_rc_clone, zp_batch_start,
    zp_batch_flush, zp_batch_stop, z_drop,
  }

  -- The guards that are alive, by address.
  pub record Guards : Type 0 where
    pub guards : ℕ → Option Counted
    pub state : State

  abbrev pub put_guard : (ℕ → Option Counted) → ℕ → Option Counted → ℕ → Option Counted
  put_guard f a x b = if a == b then x else f b

  -- Session::start_batching: what the guard then holds.
  unfoldable pub start_batching : Session → M State Counted
  unfolding result_check succeeded
  start_batching s = do
    res ← c_call (zp_batch_start s)
    result_check res
    ok ← succeeded
    if ok then c_call (z_session_rc_clone s) else pure null

  -- BatchGuard::flush
  unfoldable pub flush : Counted → M State (Unit {0})
  unfolding result_check succeeded
  flush session = do
    result_check (if check session then z_ok else z_einval)
    ok ← succeeded
    if ok then (do res ← c_call (zp_batch_flush session); result_check res) else pure tt

  -- ~BatchGuard
  unfoldable pub end_guard : Counted → State → State
  end_guard session s = if check session then z_drop session (zp_batch_stop session s) else s

  -- What a call leaves: a guard at `this` if it returns one.
  unfoldable pub guard_of : ℕ → Run State Counted → (ℕ → Option Counted) → Guards
  guard_of this (returned v err s) f = record { guards = put_guard f this (some v); state = s }
  guard_of this (threw code s) f = record { guards = f; state = s }

  unfoldable pub state_after : {A : Type 0} → Run State A → State
  state_after (returned a err s) = s
  state_after (threw code s) = s

  -- A step is `none` where it uses a guard that is not there, or makes one where there is one. The
  -- move constructor and the move assignment are defaulted: they copy the C struct.
  unfoldable pub guard_step : GuardOp Session → Guards → Option Guards
  unfolding start_batching flush end_guard guard_of state_after
  guard_step (starts this s err) g = elim (g.guards this) [
    | some x ↦ none
    | none ↦ some (guard_of this (start_batching s err g.state) g.guards)
  ]
  guard_step (flushes this err) g = elim (g.guards this) [
    | none ↦ none
    | some x ↦ some (record g { state = state_after (flush x err g.state) })
  ]
  guard_step (moves this other) g = elim (g.guards this) [
    | some x ↦ none
    | none ↦ elim (g.guards other) [
      | none ↦ none
      | some y ↦ some (record g { guards = put_guard g.guards this (some y) })
    ]
  ]
  guard_step (assigns_guard this other) g = elim (g.guards this) [
    | none ↦ none
    | some x ↦ elim (g.guards other) [
      | none ↦ none
      | some y ↦ some (record g { guards = put_guard g.guards this (some y) })
    ]
  ]
  guard_step (ends this) g = elim (g.guards this) [
    | none ↦ none
    | some x ↦ some (record { guards = put_guard g.guards this none; state = end_guard x g.state })
  ]

  unfoldable pub guard_run : List (GuardOp Session) → Guards → Option Guards
  unfolding guard_step
  guard_run [] g = some g
  guard_run (op ∷ ops) g = elim (guard_step op g) [ none ↦ none | some g' ↦ guard_run ops g' ]
