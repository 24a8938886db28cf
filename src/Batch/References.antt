-- ===== src/Batch/References.antt =====
-- The references that guards hold against those that the C library counts.
use zenoh_cpp.Base.{
  ℕ, zero, suc, ◌+◌, ◌-◌, ◌<◌, ◌≤◌, ◌≡◌, refl, true, false, Option, none, some, arith, ◌==◌,
  if◌then◌else◌, Bool-cases, inl, inr,
}
use zenoh_cpp.Result.{
  ZResult, is_ok, z_ok, Run, returned, threw, ◌>>=◌, ◌>>◌, c_call, pure, result_check, succeeded,
}
use zenoh_cpp.Batch.{BatchApi, Guards, put_guard, start_batching, flush, end_guard, state_after}

-- What the C library promises: a clone is a valid reference and counts as one more, a drop of a valid
-- one counts as one less if there is one, and no other function changes the count.
pub record BatchContract (api : BatchApi) : Type 0 where
  pub references : api.State → ℕ
  pub null_check : api.check api.null ≡ false
  pub clone_check :
      (x : api.Session) (s : api.State) → api.check (api.z_session_rc_clone x s).0 ≡ true
  pub clone_counts :
      (x : api.Session) (s : api.State)
      → references (api.z_session_rc_clone x s).1 ≡ suc (references s)
  pub drop_counts :
      (v : api.Counted) (s : api.State)
      → api.check v ≡ true
      → references (api.z_drop v s) ≡ references s - 1
  pub start_counts :
      (x : api.Session) (s : api.State) → references (api.zp_batch_start x s).1 ≡ references s
  pub flush_counts :
      (v : api.Counted) (s : api.State) → references (api.zp_batch_flush v s).1 ≡ references s
  pub stop_counts :
      (v : api.Counted) (s : api.State) → references (api.zp_batch_stop v s) ≡ references s

module _ (api : BatchApi) (contract : BatchContract api) where
  open api use {State, Session, Counted, check, zp_batch_start, z_session_rc_clone, zp_batch_flush}
  open contract use {references}

  -- Whether a guard holds a valid reference, and how many of those below `n` do.
  abbrev pub valid_at : Option Counted → ℕ
  valid_at none = 0
  valid_at (some v) = if check v then 1 else 0

  abbrev pub valid_below : ℕ → (ℕ → Option Counted) → ℕ
  valid_below zero f = 0
  valid_below (suc n) f = valid_at (f n) + valid_below n f

  valid_below-put_above :
      (n : ℕ) (f : ℕ → Option Counted) (a : ℕ) (x : Option Counted)
      → n ≤ a
      → valid_below n (put_guard api f a x) ≡ valid_below n f
  valid_below-put_above zero f a x h = refl
  valid_below-put_above (suc n) f a x h =
      ground (arith, valid_below-put_above n f a x (ground arith))

  pub valid_below-put :
      (n : ℕ) (f : ℕ → Option Counted) (a : ℕ) (x : Option Counted)
      → a < n
      → valid_below n (put_guard api f a x) + valid_at (f a) ≡ valid_below n f + valid_at x
  valid_below-put zero f a x h = absurd (omega arith)
  valid_below-put (suc n) f a x h = elim (Bool-cases (a == n)) [
    | inl e ↦ ground (arith, valid_below-put_above n f a x)
    | inr e ↦ ground (arith, valid_below-put n f a x)
  ]

  -- The library counts as many references as the guards below `n` hold.
  abbrev pub IsCounted : ℕ → Guards api → Type 0
  IsCounted n g = valid_below n g.guards ≡ references g.state

  abbrev pub CountedIf : ℕ → Option (Guards api) → Type 0
  CountedIf n none = Unit {0}
  CountedIf n (some g) = IsCounted n g

  -- What start_batching counts: one for a valid reference that it returns.
  abbrev pub StartCounts : State → Run State Counted → Type 0
  StartCounts s (returned v err s') = references s' ≡ valid_at (some v) + references s
  StartCounts s (threw code s') = references s' ≡ references s

  cloned-counts :
      (x : Session) (s : State)
      → let (v, s') = z_session_rc_clone x (zp_batch_start x s).1 in
        references s' ≡ valid_at (some v) + references s
  cloned-counts x s =
      let s' = (zp_batch_start x s).1 in
      ground
        (arith, contract.clone_check x s', contract.clone_counts x s', contract.start_counts x s)

  pub start_batching-StartCounts :
      (x : Session) (err : Option ZResult) (s : State) → StartCounts s (start_batching api x err s)
  unfolding start_batching result_check succeeded
  start_batching-StartCounts x none s = elim (Bool-cases (is_ok (zp_batch_start x s).0)) [
    | inl good ↦ rw (start_batching, ◌>>=◌, result_check, good) (cloned-counts x s)
    | inr bad ↦ rw (start_batching, ◌>>=◌, result_check, bad) (contract.start_counts x s)
  ]
  start_batching-StartCounts x (some e) s = elim (Bool-cases (is_ok (zp_batch_start x s).0)) [
    | inl good ↦ rw (start_batching, ◌>>=◌, good) (cloned-counts x s)
    | inr bad ↦
        rw (start_batching, ◌>>=◌, bad, contract.null_check)
          (ground (arith, contract.start_counts x s))
  ]

  flush_call-references :
      (v : Counted) (err : Option ZResult) (s : State)
      → references (state_after api ((c_call (zp_batch_flush v) >>= result_check) err s))
        ≡ references s
  unfolding state_after result_check
  flush_call-references v none s = elim (Bool-cases (is_ok (zp_batch_flush v s).0)) [
    | inl good ↦ rw (◌>>=◌, good, state_after) (contract.flush_counts v s)
    | inr bad ↦ rw (◌>>=◌, bad, state_after) (contract.flush_counts v s)
  ]
  flush_call-references v (some e) s = contract.flush_counts v s

  pub flush-references :
      (v : Counted) (err : Option ZResult) (s : State)
      → references (state_after api (flush api v err s)) ≡ references s
  unfolding flush state_after result_check succeeded
  flush-references v err s = go err (if check v then z_ok else api.z_einval)
    where
      go :
          (err' : Option ZResult) (code : ZResult)
          → references (
              state_after api (
                (result_check code
                    >> (succeeded >>= λ ok.
                        if ok then (c_call (zp_batch_flush v) >>= result_check) else pure tt))
                  err' s))
            ≡ references s
      go none code = elim (Bool-cases (is_ok code)) [
        | inl good ↦ rw (◌>>=◌, good) (flush_call-references v none s)
        | inr bad ↦ rw (◌>>=◌, bad, state_after) refl
      ]
      go (some e) code = elim (Bool-cases (is_ok code)) [
        | inl good ↦ rw (good) (flush_call-references v (some code) s)
        | inr bad ↦ rw (bad, state_after) refl
      ]

  pub end_guard-references :
      (v : Counted) (s : State) → references (end_guard api v s) ≡ references s - valid_at (some v)
  unfolding end_guard
  end_guard-references v s = elim (Bool-cases (check v)) [
    | inl valid ↦ rw (valid) (
        ground
          (arith, contract.drop_counts v (api.zp_batch_stop v s) valid, contract.stop_counts v s))
    | inr invalid ↦ rw (invalid) (ground arith)
  ]
