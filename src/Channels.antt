-- ===== src/Channels.antt =====
-- include/zenoh/api/channels.hxx, FifoHandler and RingHandler: the receiving side of a channel. The two
-- classes have the same code over the C handler of their kind.
pub mod Polling
mod Tests
use zenoh_cpp.Base.{ℕ, zero, suc, ◌≡◌, List, [], ◌∷◌, Bool, true, false}
use zenoh_cpp.Result.{
  ZResult, z_ok, z_channel_disconnected, z_channel_nodata, other, z_edeserialize, is_ok,
}

pub data RecvError : Type 0 where
  z_disconnected z_nodata : RecvError

-- std::variant<T, RecvError>
pub data Received (T : Type 0) : Type 0 where
  entry : T → Received T
  failure : RecvError → Received T

-- z_recv and z_try_recv on the state of a C handler: the code, and what the output parameter holds.
pub record ChannelApi (T : Type 0) : Type 1 where
  pub State : Type 0
  pub z_recv : State → (ZResult × T) × State
  pub z_try_recv : State → (ZResult × T) × State

-- The documented behaviour, with no sender at work between the calls: z_recv is not specified on an
-- empty open channel, where it blocks.
pub record ChannelContract {T : Type 0} (api : ChannelApi T) : Type 0 where
  pub buffered : api.State → List T
  pub is_closed : api.State → Bool
  pub recv_entry :
      (s : api.State) (v : T) (vs : List T)
      → buffered s ≡ v ∷ vs
      → ((api.z_recv s).0 ≡ (z_ok, v))
        × (buffered (api.z_recv s).1 ≡ vs)
        × (is_closed (api.z_recv s).1 ≡ is_closed s)
  pub recv_closed :
      (s : api.State)
      → buffered s ≡ []
      → is_closed s ≡ true
      → ((api.z_recv s).0.0 ≡ z_channel_disconnected)
        × (buffered (api.z_recv s).1 ≡ [])
        × (is_closed (api.z_recv s).1 ≡ true)
  pub try_recv_entry :
      (s : api.State) (v : T) (vs : List T)
      → buffered s ≡ v ∷ vs
      → ((api.z_try_recv s).0 ≡ (z_ok, v))
        × (buffered (api.z_try_recv s).1 ≡ vs)
        × (is_closed (api.z_try_recv s).1 ≡ is_closed s)
  pub try_recv_closed :
      (s : api.State)
      → buffered s ≡ []
      → is_closed s ≡ true
      → ((api.z_try_recv s).0.0 ≡ z_channel_disconnected)
        × (buffered (api.z_try_recv s).1 ≡ [])
        × (is_closed (api.z_try_recv s).1 ≡ true)
  pub try_recv_open :
      (s : api.State)
      → buffered s ≡ []
      → is_closed s ≡ false
      → ((api.z_try_recv s).0.0 ≡ z_channel_nodata)
        × (buffered (api.z_try_recv s).1 ≡ [])
        × (is_closed (api.z_try_recv s).1 ≡ false)

module _ {T : Type 0} (api : ChannelApi T) where
  open api use {State, z_recv, z_try_recv}

  unfoldable pub recv_result : ZResult → T → Received T
  recv_result z_ok v = entry v
  recv_result _ v = failure z_disconnected

  unfoldable pub try_recv_result : ZResult → T → Received T
  try_recv_result z_ok v = entry v
  try_recv_result z_channel_nodata v = failure z_nodata
  try_recv_result _ v = failure z_disconnected

  unfoldable pub recv : State → Received T × State
  unfolding recv_result
  recv s = let ((res, v), s') = z_recv s in (recv_result res v, s')

  unfoldable pub try_recv : State → Received T × State
  unfolding try_recv_result
  try_recv s = let ((res, v), s') = z_try_recv s in (try_recv_result res v, s')
