-- ===== src/Examples/Throughput.antt =====
-- examples/universal/z_sub_thr.cxx: struct Stats, which measures the rate of the messages. Times are
-- numbers of microseconds, and a default time_point is 0. `word` is the modulus of an unsigned long.
use zenoh_cpp.Base.{ℕ, zero, suc, ◌+◌, ◌*◌, List, [], ◌∷◌, ltb, ◌==◌, if◌then◌else◌}
use Prim.Native.Nat.{◌%◌}

-- A line that is printed: so many messages, from one time to another.
pub record Rate : Type 0 where
  pub messages : ℕ
  pub from_time : ℕ
  pub to_time : ℕ

-- `out` is what was printed, the newest line first.
pub record Stats : Type 0 where
  pub count : ℕ
  pub finished_rounds : ℕ
  pub start : ℕ
  pub first_start : ℕ
  pub max_rounds : ℕ
  pub messages_per_round : ℕ
  pub out : List Rate

-- The program goes on, or has called std::exit.
pub data StatsRun : Type 0 where
  running : Stats → StatsRun
  exited : Stats → StatsRun

-- Stats(size_t samples, size_t messages)
unfoldable pub new_stats : (samples messages : ℕ) → Stats
new_stats samples messages = record {
  count = 0;
  finished_rounds = 0;
  start = 0;
  first_start = 0;
  max_rounds = samples;
  messages_per_round = messages;
  out = [];
}

module _ (word : ℕ) where
  -- operator()(const Sample&), at a time.
  unfoldable pub take_sample : ℕ → Stats → StatsRun
  take_sample now s =
      if s.count == 0
      then running (record s {
        start = now;
        first_start = if s.first_start == 0 then now else s.first_start;
        count = suc s.count % word;
      })
      else if ltb s.count s.messages_per_round
      then running (record s { count = suc s.count % word })
      else (let s' = record s {
        finished_rounds = suc s.finished_rounds % word;
        out =
            record { messages = s.messages_per_round; from_time = s.start; to_time = now } ∷ s.out;
        count = 0;
      } in
          if ltb s.max_rounds s'.finished_rounds then exited s' else running s')

  -- print(), when the subscriber is dropped: the messages, and the time that they took.
  unfoldable pub print_total : (end_time : ℕ) → Stats → Rate
  print_total end_time s = record {
    messages = (s.messages_per_round * s.finished_rounds + s.count) % word;
    from_time = s.first_start;
    to_time = end_time;
  }

  abbrev pub next_sample : ℕ → StatsRun → StatsRun
  next_sample now (running s) = take_sample now s
  next_sample now (exited s) = exited s

  -- `n` messages, the i-th at the time `now i`.
  unfoldable pub receive : (ℕ → ℕ) → ℕ → Stats → StatsRun
  unfolding take_sample
  receive now zero s = running s
  receive now (suc n) s = next_sample (now n) (receive now n s)
