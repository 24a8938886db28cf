-- ===== src/Examples/Rounds.antt =====
-- The rounds of z_sub_thr.cxx: which message ends a round, what is printed, and when the program exits.
use zenoh_cpp.Base.{ℕ, zero, suc, ◌+◌, ◌*◌, ◌<◌, ◌≤◌, ◌≡◌, subst, List, [], ◌∷◌, arith}
use Prim.Native.Nat.{◌%◌}
use native.Mathlib.Nat.{mod-eq_of_lt}
use zenoh_cpp.Examples.Throughput.{
  Rate, Stats, StatsRun, running, exited, new_stats, take_sample, next_sample, print_total, receive,
}

-- The first message of the round `k`; a round has one message more than it counts.
abbrev pub starts_at : ℕ → ℕ → ℕ
starts_at m zero = 0
starts_at m (suc k) = starts_at m k + m + 1

starts_at-eq-mul : (m k : ℕ) → starts_at m k ≡ (m + 1) * k
starts_at-eq-mul m zero = grind arith
starts_at-eq-mul m (suc k) = grind (arith, starts_at-eq-mul m k)

module _ (word m r : ℕ) (now : ℕ → ℕ) where
  -- A line for each of the first `k` rounds: `m` messages, from the first of the round to the last.
  abbrev pub lines : ℕ → List Rate
  lines zero = []
  lines (suc k) =
      record { messages = m; from_time = now (starts_at m k); to_time = now (starts_at m k + m) }
      ∷ lines k

  -- `c` messages into the round `k`.
  pub record IsAt (k c : ℕ) (s : Stats) : Type 0 where
    pub counts : s.count ≡ c
    pub finished : s.finished_rounds ≡ k
    pub rounds : s.max_rounds ≡ r
    pub messages : s.messages_per_round ≡ m
    pub prints : s.out ≡ lines k
    pub started : 0 < c → s.start ≡ now (starts_at m k)
    pub first : 0 < starts_at m k + c → 0 < now 0 → s.first_start ≡ now 0
    pub unset : starts_at m k + c ≡ 0 → s.first_start ≡ 0

  abbrev pub RunsAt : ℕ → ℕ → StatsRun → Type 0
  RunsAt k c (running s) = IsAt k c s
  RunsAt k c (exited s) = ⊥

  first_sample :
      (k : ℕ) (s : Stats)
      → 1 % word ≡ 1
      → IsAt k 0 s
      → RunsAt k 1 (take_sample word (now (starts_at m k)) s)
  unfolding take_sample
  first_sample k s small at = ground arith

  count_sample :
      (k c : ℕ) (s : Stats)
      → suc c % word ≡ suc c
      → 0 < c
      → c < m
      → IsAt k c s
      → RunsAt k (suc c) (take_sample word (now (starts_at m k + c)) s)
  unfolding take_sample
  count_sample k c s small pos lt at = ground arith

  -- The last message of a round, and of the last round.
  last_sample :
      (k : ℕ) (s : Stats)
      → suc k % word ≡ suc k
      → 0 < m
      → k < r
      → IsAt k m s
      → RunsAt (suc k) 0 (take_sample word (now (starts_at m k + m)) s)
  unfolding take_sample
  last_sample k s small pos lt at = ground arith

  abbrev pub ExitsAt : ℕ → StatsRun → Type 0
  ExitsAt k (running s) = ⊥
  ExitsAt k (exited s) = IsAt k 0 s

  exit_sample :
      (s : Stats)
      → suc r % word ≡ suc r
      → 0 < m
      → IsAt r m s
      → ExitsAt (suc r) (take_sample word (now (starts_at m r + m)) s)
  unfolding take_sample
  exit_sample s small pos at = ground arith

  -- One message more.
  next_RunsAt :
      (k c : ℕ) (o : StatsRun)
      → suc c < word
      → c < m
      → RunsAt k c o
      → RunsAt k (suc c) (next_sample word (now (starts_at m k + c)) o)
  next_RunsAt k zero (running s) small lt at =
      subst (λ i. RunsAt k 1 (take_sample word (now i) s)) (omega arith)
        (first_sample k s (mod-eq_of_lt small) at)
  next_RunsAt k (suc c) (running s) small lt at =
      count_sample k (suc c) s (mod-eq_of_lt small) (omega arith) lt at
  next_RunsAt k c (exited s) small lt at = elim at [ ]

  next_round :
      (k : ℕ) (o : StatsRun)
      → suc k < word
      → 0 < m
      → k < r
      → RunsAt k m o
      → RunsAt (suc k) 0 (next_sample word (now (starts_at m k + m)) o)
  next_round k (running s) small pos lt at = last_sample k s (mod-eq_of_lt small) pos lt at
  next_round k (exited s) small pos lt at = elim at [ ]

  exit_round :
      (o : StatsRun)
      → suc r < word
      → 0 < m
      → RunsAt r m o
      → ExitsAt (suc r) (next_sample word (now (starts_at m r + m)) o)
  exit_round (running s) small pos at = exit_sample s (mod-eq_of_lt small) pos at
  exit_round (exited s) small pos at = elim at [ ]

  stays_out : (o : StatsRun) (t : ℕ) → ExitsAt (suc r) o → ExitsAt (suc r) (next_sample word t o)
  stays_out (running s) t at = elim at [ ]
  stays_out (exited s) t at = at

  module _ (pos : 0 < m) (small : m < word) (few : r + 1 < word) where
    abbrev after : ℕ → StatsRun
    after n = receive word now n (new_stats r m)

    runs : (k c : ℕ) → k ≤ r → c ≤ m → RunsAt k c (after (starts_at m k + c))
    unfolding receive new_stats
    runs zero zero hk hc = ground arith
    runs (suc k) zero hk hc =
        let e : suc (starts_at m k + m) ≡ starts_at m (suc k) + 0 = omega arith in
        subst (λ n. RunsAt (suc k) 0 (after n)) e
          (next_round k (after (starts_at m k + m)) (omega arith) pos (omega arith)
            (runs k m (omega arith) (omega arith)))
    runs k (suc c) hk hc =
        let e : suc (starts_at m k + c) ≡ starts_at m k + suc c = omega arith in
        subst (λ n. RunsAt k (suc c) (after n)) e
          (next_RunsAt k c (after (starts_at m k + c)) (omega arith) (omega arith)
            (runs k c hk (omega arith)))

    exits : (extra : ℕ) → ExitsAt (suc r) (after (starts_at m (suc r) + extra))
    unfolding receive new_stats
    exits zero =
        let e : suc (starts_at m r + m) ≡ starts_at m (suc r) + 0 = omega arith in
        subst (λ n. ExitsAt (suc r) (after n)) e
          (exit_round (after (starts_at m r + m)) (omega arith) pos
            (runs r m (omega arith) (omega arith)))
    exits (suc extra) =
        let e : suc (starts_at m (suc r) + extra) ≡ starts_at m (suc r) + suc extra = omega arith in
        subst (λ n. ExitsAt (suc r) (after n)) e
          (stays_out (after (starts_at m (suc r) + extra)) (now (starts_at m (suc r) + extra))
            (exits extra))

    -- With a positive number `m` of messages for a round, below the modulus of the machine word, and a
    -- number `r` of measurements of which the successor is below it, too: after `k` rounds of m + 1
    -- messages and `c` more the program runs, with these counts and a line printed for each round, as
    -- long as `k` is at most `r` and `c` at most `m`; it exits at the end of the round behind these,
    -- after r + 1 measurements, and stays so. If the subscriber is dropped before, and the number of
    -- messages received is below the modulus, the total that it prints is short of this number by one
    -- for each finished round.
    pub receive-rounds :
        ((k c : ℕ)
          → k ≤ r
          → c ≤ m
          → RunsAt k c (receive word now ((m + 1) * k + c) (new_stats r m)))
        × ((extra : ℕ)
            → ExitsAt (suc r) (receive word now ((m + 1) * suc r + extra) (new_stats r m)))
        × ((k c t : ℕ) (s : Stats)
            → IsAt k c s
            → (m + 1) * k + c < word
            → (print_total word t s).messages + k ≡ (m + 1) * k + c)
    unfolding print_total
    receive-rounds = (
      λ k c hk hc. rw (← starts_at-eq-mul m k) (runs k c hk hc),
      λ extra. rw (← starts_at-eq-mul m (suc r)) (exits extra),
      λ k c t s at h.
          let e : s.messages_per_round * s.finished_rounds + s.count ≡ m * k + c = ground arith in
          let sum : (m + 1) * k + c ≡ m * k + c + k = grind arith in
          let lt : m * k + c < word = omega arith in rw (e, mod-eq_of_lt lt, sum),
    )
