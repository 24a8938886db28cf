-- ===== src/Examples/Tests.antt =====
-- One measurement of two messages, by a clock that counts; and a storage of three keys.
use zenoh_cpp.Base.{
  ℕ, suc, ◌+◌, ◌*◌, ◌^◌, ◌<◌, ◌≤◌, ◌≡◌, refl, List, [], ◌∷◌, none, arith, if◌then◌else◌, not, Bool,
  Text, text_eq,
}
use zenoh_cpp.Examples.Throughput.{Stats, new_stats, receive, print_total}
use zenoh_cpp.Examples.Storage.{
  Sample, SampleKind, z_sample_kind_put, z_sample_kind_delete, stored, qbl_handler,
}
use zenoh_cpp.Examples.Latest.{latest, reply_for, replies_for, at_most_one, qbl_handler-latest}
use zenoh_cpp.Examples.Rounds.{IsAt, RunsAt, ExitsAt, receive-rounds}

abbrev clock : ℕ → ℕ
clock i = 10 + i

receive-rounds_example :
    ((k c : ℕ)
      → k ≤ 1
      → c ≤ 2
      → RunsAt (2 ^ 64) 2 1 clock k c (receive (2 ^ 64) clock ((2 + 1) * k + c) (new_stats 1 2)))
    × ((extra : ℕ)
        → ExitsAt
            (2 ^ 64)
            2
            1
            clock
            2
            (receive (2 ^ 64) clock ((2 + 1) * suc 1 + extra) (new_stats 1 2)))
    × ((k c t : ℕ) (s : Stats)
        → IsAt (2 ^ 64) 2 1 clock k c s
        → (2 + 1) * k + c < 2 ^ 64
        → (print_total (2 ^ 64) t s).messages + k ≡ (2 + 1) * k + c)
receive-rounds_example = receive-rounds (2 ^ 64) 2 1 clock (omega arith) (omega arith) (omega arith)

abbrev sample_of : SampleKind → ℕ → ℕ → Sample ℕ
sample_of kind key payload = record { kind = kind; keyexpr = key ∷ []; payload = payload }

-- The key 1 is put twice, 2 is put and deleted, 3 is put; the last sample stands first.
abbrev samples : List (Sample ℕ)
samples =
    sample_of z_sample_kind_put 3 30
    ∷ sample_of z_sample_kind_put 1 11
    ∷ sample_of z_sample_kind_delete 2 0
    ∷ sample_of z_sample_kind_put 2 20
    ∷ sample_of z_sample_kind_put 1 10
    ∷ []

-- The query intersects all keys but 3.
abbrev all_but_three : Text → Bool
all_but_three k = not (text_eq k (3 ∷ []))

answers_of_samples : qbl_handler all_but_three (stored samples) ≡ (1 ∷ [], 11) ∷ []
unfolding stored qbl_handler
answers_of_samples = refl

qbl_handler-latest_example :
    let replies = qbl_handler all_but_three (stored samples) in
    (reply_for (1 ∷ []) replies
      ≡ (if all_but_three (1 ∷ []) then latest (1 ∷ []) samples else none))
    × (replies_for (1 ∷ []) replies ≡ at_most_one (reply_for (1 ∷ []) replies))
qbl_handler-latest_example = qbl_handler-latest all_but_three samples (1 ∷ [])
