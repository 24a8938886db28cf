-- ===== src/Channels/Tests.antt =====
-- A channel of numbers as a list and a flag.
use zenoh_cpp.Base.{ℕ, ◌≡◌, List, [], ◌∷◌, Bool, true, false}
use zenoh_cpp.Result.{ZResult, z_ok, z_channel_disconnected, z_channel_nodata}
use zenoh_cpp.Channels.{
  z_disconnected, Received, entry, failure, ChannelApi, ChannelContract, recv, try_recv,
}
use zenoh_cpp.Channels.Polling.{poll, poll-expected}

abbrev next : List ℕ × Bool → (ZResult × ℕ) × (List ℕ × Bool)
next (v ∷ vs, closed) = ((z_ok, v), (vs, closed))
next ([], true) = ((z_channel_disconnected, 0), ([], true))
next ([], false) = ((z_channel_nodata, 0), ([], false))

abbrev listed : ChannelApi ℕ
listed = record { State = List ℕ × Bool; z_recv = next; z_try_recv = next }

next_entry :
    (s : List ℕ × Bool) (v : ℕ) (vs : List ℕ)
    → s.0 ≡ v ∷ vs
    → ((next s).0 ≡ (z_ok, v)) × ((next s).1.0 ≡ vs) × ((next s).1.1 ≡ s.1)
next_entry (l, closed) v vs e = (rw e, rw e, rw e)

next_closed :
    (s : List ℕ × Bool)
    → s.0 ≡ []
    → s.1 ≡ true
    → ((next s).0.0 ≡ z_channel_disconnected) × ((next s).1.0 ≡ []) × ((next s).1.1 ≡ true)
next_closed (l, closed) e ec = (rw (e, ec), rw (e, ec), rw (e, ec))

next_open :
    (s : List ℕ × Bool)
    → s.0 ≡ []
    → s.1 ≡ false
    → ((next s).0.0 ≡ z_channel_nodata) × ((next s).1.0 ≡ []) × ((next s).1.1 ≡ false)
next_open (l, closed) e ec = (rw (e, ec), rw (e, ec), rw (e, ec))

unfoldable listed-ChannelContract : ChannelContract listed
listed-ChannelContract = record {
  buffered = λ s. s.0;
  is_closed = λ s. s.1;
  recv_entry = next_entry;
  recv_closed = next_closed;
  try_recv_entry = next_entry;
  try_recv_closed = next_closed;
  try_recv_open = next_open;
}

abbrev got : List (Received ℕ)
got = entry 4 ∷ entry 5 ∷ failure z_disconnected ∷ []

abbrev start : List ℕ × Bool
start = (4 ∷ 5 ∷ [], true)

poll-expected_example :
    (poll (try_recv listed) 3 start ≡ got) × (true ≡ true → poll (recv listed) 3 start ≡ got)
unfolding listed-ChannelContract
poll-expected_example = poll-expected listed listed-ChannelContract 3 start
