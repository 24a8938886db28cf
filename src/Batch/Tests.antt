-- ===== src/Batch/Tests.antt =====
-- A library that counts references and batches; a reference is valid or not.
use zenoh_cpp.Base.{
  ℕ, suc, ◌-◌, ◌<◌, ◌≡◌, refl, List, [], ◌∷◌, Bool, true, false, ◌==◌, if◌then◌else◌, none, some,
}
use zenoh_cpp.Result.{z_ok, other}
use zenoh_cpp.Batch.{BatchApi, GuardOp, starts, moves, ends, Guards, guard_step, guard_run}
use zenoh_cpp.Batch.References.{BatchContract, valid_below, IsCounted}
use zenoh_cpp.Batch.Lifetimes.{AreUnmoved, guard_references}

-- The references, and how often a batch was stopped.
abbrev counting : BatchApi
counting = record {
  State = ℕ × ℕ;
  Session = Unit {0};
  Counted = Bool;
  z_einval = other 1;
  null = false;
  check = λ v. v;
  z_session_rc_clone = λ x s. (true, (suc s.0, s.1));
  zp_batch_start = λ x s. (z_ok, s);
  zp_batch_flush = λ v s. (z_ok, s);
  zp_batch_stop = λ v s. (s.0, suc s.1);
  z_drop = λ v s. (s.0 - 1, s.1);
}

unfoldable counting-Contract : BatchContract counting
counting-Contract = record {
  references = λ s. s.0;
  null_check = refl;
  clone_check = λ x s. refl;
  clone_counts = λ x s. refl;
  drop_counts = λ v s h. refl;
  start_counts = λ x s. refl;
  flush_counts = λ v s. refl;
  stop_counts = λ v s. refl;
}

abbrev no_guards : Guards counting
no_guards = record { guards = λ a. none; state = (0, 0) }

-- A guard that is started, moved, and then ended in both places stops the batch twice.
moved_guard :
    (g : Guards counting) × (guard_run counting
        (starts 0 tt none ∷ moves 1 0 ∷ ends 0 ∷ ends 1 ∷ [])
        no_guards
      ≡ some g)
    × (g.state ≡ (0, 2))
unfolding guard_run
moved_guard = (_, refl, refl)

-- One guard, at 0.
abbrev one_guard : Guards counting
one_guard = record { guards = λ a. if a == 0 then some true else none; state = (1, 0) }

guard_references_example :
    ((ops : List (GuardOp (Unit {0}))) (g' : Guards counting)
      → AreUnmoved counting counting-Contract 2 ops
      → guard_run counting ops one_guard ≡ some g'
      → IsCounted counting counting-Contract 2 g')
    × ((this other : ℕ) (v : Bool)
        → this < 2
        → one_guard.guards this ≡ none
        → one_guard.guards other ≡ some v
        → v ≡ true
        → (g' : Guards counting) × (guard_step counting (moves this other) one_guard ≡ some g')
          × (valid_below counting counting-Contract 2 g'.guards ≡ suc g'.state.0))
unfolding counting-Contract
guard_references_example = guard_references counting counting-Contract 2 one_guard refl
