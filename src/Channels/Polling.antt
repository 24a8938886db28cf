-- ===== src/Channels/Polling.antt =====
-- What a receiver gets that calls recv or try_recv again and again.
use zenoh_cpp.Base.{ℕ, zero, suc, ◌≡◌, refl, ap, ◌∙◌, List, [], ◌∷◌, Bool, true, false}
use zenoh_cpp.Channels.{
  z_disconnected, z_nodata, Received, entry, failure, ChannelApi, ChannelContract, recv_result,
  try_recv_result, recv, try_recv,
}

-- The results of `n` calls.
abbrev pub poll : {S R : Type 0} → (S → R × S) → ℕ → S → List R
poll f zero s = []
poll f (suc n) s = let (r, s') = f s in r ∷ poll f n s'

-- The first `n` of: the buffered entries in order, and then the same error for ever.
abbrev pub expected : {T : Type 0} → ℕ → List T → Bool → List (Received T)
expected zero vs closed = []
expected (suc n) (v ∷ vs) closed = entry v ∷ expected n vs closed
expected (suc n) [] true = failure z_disconnected ∷ expected n [] true
expected (suc n) [] false = failure z_nodata ∷ expected n [] false

module _ {T : Type 0} (api : ChannelApi T) (contract : ChannelContract api) where
  open contract use {buffered, is_closed}

  try_recv-expected :
      (n : ℕ) (s : api.State) (vs : List T) (closed : Bool)
      → buffered s ≡ vs
      → is_closed s ≡ closed
      → poll (try_recv api) n s ≡ expected n vs closed
  unfolding try_recv try_recv_result
  try_recv-expected zero s vs closed e ec = refl
  try_recv-expected (suc n) s (v ∷ vs) closed e ec =
      let (got, left, same) = contract.try_recv_entry s v vs e in
      rw (got) (ap (λ l. entry v ∷ l) (try_recv-expected n _ vs closed left (same ∙ ec)))
  try_recv-expected (suc n) s [] true e ec =
      let (got, left, same) = contract.try_recv_closed s e ec in
      rw (got) (ap (λ l. failure z_disconnected ∷ l) (try_recv-expected n _ [] true left same))
  try_recv-expected (suc n) s [] false e ec =
      let (got, left, same) = contract.try_recv_open s e ec in
      rw (got) (ap (λ l. failure z_nodata ∷ l) (try_recv-expected n _ [] false left same))

  recv-expected :
      (n : ℕ) (s : api.State) (vs : List T)
      → buffered s ≡ vs
      → is_closed s ≡ true
      → poll (recv api) n s ≡ expected n vs true
  unfolding recv recv_result
  recv-expected zero s vs e ec = refl
  recv-expected (suc n) s (v ∷ vs) e ec =
      let (got, left, same) = contract.recv_entry s v vs e in
      rw (got) (ap (λ l. entry v ∷ l) (recv-expected n _ vs left (same ∙ ec)))
  recv-expected (suc n) s [] e ec =
      let (got, left, same) = contract.recv_closed s e ec in
      rw (got) (ap (λ l. failure z_disconnected ∷ l) (recv-expected n _ [] left same))

  -- A receiver that polls a handler while nothing is sent gets the buffered entries in order, each
  -- once, and then the same error for ever: with try_recv, Z_DISCONNECTED if the channel is closed and
  -- Z_NODATA if it is open; with recv on a closed channel, Z_DISCONNECTED.
  pub poll-expected :
      (n : ℕ) (s : api.State)
      → (poll (try_recv api) n s ≡ expected n (buffered s) (is_closed s))
        × (is_closed s ≡ true → poll (recv api) n s ≡ expected n (buffered s) true)
  poll-expected n s =
      (try_recv-expected n s _ _ refl refl, λ closed. recv-expected n s _ refl closed)
