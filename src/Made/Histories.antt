-- ===== src/Made/Histories.antt =====
-- Histories of configs, sessions and the providers that sessions share.
use zenoh_cpp.Base.{subst, ℕ, ◌<◌, ◌≡◌, List, [], ◌∷◌, some, Option-cases, inl, inr}
use zenoh_cpp.Owned.{OwnedType, step}
use zenoh_cpp.Owned.Moves.{IsBelow}
use zenoh_cpp.Owned.Copied.{step-Keeps}
use zenoh_cpp.Made.{ConfigApi, config_made, made_step}
use zenoh_cpp.Made.Opening.{
  SessionApi, Holdings, SessionOp, on_configs, opens, obtains, on_sessions, on_providers,
  session_step, session_run,
}
use zenoh_cpp.Made.Kept.{MadeContract, MadeInRange, made_step-Keeps}
use zenoh_cpp.Made.Opened.{
  Contracts, SessionContract, AreBalanced, AreBalancedIf, Balances, opens-Balances,
  obtains-Balances,
}

module _ (g s p : OwnedType) (k : Contracts g s p) (config_api : ConfigApi g)
    (api : SessionApi g s p)
    (made : MadeContract g k.configs k.configs_given (config_made g config_api))
    (promised : SessionContract g s p k api) where
  -- The addresses at which an operation makes or changes objects are below `n`.
  abbrev pub OpInRange : ℕ → SessionOp g s p config_api api → Type 0
  OpInRange n (on_configs op) =
      MadeInRange g k.configs k.configs_given (config_made g config_api) made n op
  OpInRange n (opens this config storage err) = (this < n) × (config < n)
  OpInRange n (obtains result this) = result < n
  OpInRange n (on_sessions op) = IsBelow s k.sessions n op
  OpInRange n (on_providers op) = IsBelow p k.providers n op

  abbrev pub OpsInRange : ℕ → List (SessionOp g s p config_api api) → Type 0
  OpsInRange n [] = Unit {0}
  OpsInRange n (op ∷ ops) = OpInRange n op × OpsInRange n ops

  session_step-Balances :
      (n : ℕ) (op : SessionOp g s p config_api api)
      → OpInRange n op
      → Balances g s p k config_api api promised n (session_step g s p config_api api op)
  unfolding session_step
  session_step-Balances n (opens this config storage err) (below, below') h h' e balanced =
      opens-Balances g s p k config_api api promised n this config storage err below below' h h' e
        balanced
  session_step-Balances n (obtains result this) below h h' e balanced =
      obtains-Balances g s p k config_api api promised n result this below h h' e balanced
  session_step-Balances n (on_configs op) below h h' e (configs, sessions, providers) =
      elim (Option-cases (made_step g (config_made g config_api) op h.configs)) [
        | inl gone ↦ absurd (cc (rw (session_step, gone) at e))
        | inr (m, made_it) ↦ subst (AreBalancedIf g s p k n) (rw (session_step, made_it) at e) (
          made_step-Keeps g k.configs k.configs_given (config_made g config_api) made n op below
              h.configs m made_it configs,
          sessions,
          providers,
        )
      ]
  session_step-Balances n (on_sessions op) below h h' e (configs, sessions, providers) =
      elim (Option-cases (step s op h.sessions)) [
        | inl gone ↦ absurd (cc (rw (session_step, gone) at e))
        | inr (m, done) ↦ subst (AreBalancedIf g s p k n) (rw (session_step, done) at e) (
          configs,
          step-Keeps s k.sessions k.sessions_given n op below h.sessions m done sessions,
          providers,
        )
      ]
  session_step-Balances n (on_providers op) below h h' e (configs, sessions, providers) =
      elim (Option-cases (step p op h.providers)) [
        | inl gone ↦ absurd (cc (rw (session_step, gone) at e))
        | inr (m, done) ↦ subst (AreBalancedIf g s p k n) (rw (session_step, done) at e) (
          configs,
          sessions,
          step-Keeps p k.providers k.providers_given n op below h.providers m done providers,
        )
      ]

  -- Along every sequence of constructions of configs from the default, the environment, files and
  -- strings, of insertions into them, of sessions opened from them, of shared providers obtained from
  -- sessions, and of moves and destructions of all three, at addresses below `n` and with no undefined
  -- step, whether the calls return, write an error to `*err` or throw: for configs, sessions and
  -- shared providers alike, what the C library has given out stays what the objects hold and what was
  -- released. So a session that fails to open leaks neither itself nor its config, and a provider that
  -- is not ready is not leaked.
  pub session_run-AreBalanced :
      (ops : List (SessionOp g s p config_api api)) (n : ℕ) (h h' : Holdings g s p)
      → OpsInRange n ops
      → session_run g s p config_api api ops h ≡ some h'
      → AreBalanced g s p k n h
      → AreBalanced g s p k n h'
  unfolding session_run
  session_run-AreBalanced [] n h h' below e balanced = subst (AreBalancedIf g s p k n) e balanced
  session_run-AreBalanced (op ∷ ops) n h h' (below, belows) e balanced =
      elim (Option-cases (session_step g s p config_api api op h)) [
        | inl gone ↦ absurd (cc (rw (session_run, gone) at e))
        | inr (h₁, made_it) ↦
            session_run-AreBalanced ops n h₁ h' belows (rw (session_run, made_it) at e)
              (session_step-Balances n op below h h₁ made_it balanced)
      ]
