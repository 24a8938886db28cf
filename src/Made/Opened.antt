-- ===== src/Made/Opened.antt =====
-- Opening sessions keeps the balance of the handles of configs, sessions and shared providers.
use zenoh_cpp.Base.{
  subst, refl, sym, ◌∙◌, ℕ, ◌+◌, ◌<◌, ◌≡◌, Option, none, some, Option-cases, inl, inr, arith,
}
use zenoh_cpp.Result.{ZResult, Run, returned, threw}
use zenoh_cpp.Owned.{OwnedType, Contract, Memory, set, moved}
use zenoh_cpp.Owned.Moves.{moved-holds}
use zenoh_cpp.Owned.Given.{GivenContract, IsBalanced, Fresh, put-IsBalanced, drop-IsBalanced}
use zenoh_cpp.Owned.Emplace.{emplace, left_by, emplace-IsBalanced, exchange-IsBalanced}
use zenoh_cpp.Made.{ConfigApi}
use zenoh_cpp.Made.Opening.{
  Opened, SessionApi, ShmProviderNotReadyState, Holdings, with_sessions, opens, obtains,
  finish_open, call_open, open_session, obtain_shm_provider, session_step, keep_if_ready,
}

-- The contracts of the three owned types, and what their functions give out.
pub record Contracts (g s p : OwnedType) : Type 0 where
  pub configs : Contract g
  pub configs_given : GivenContract g configs
  pub sessions : Contract s
  pub sessions_given : GivenContract s sessions
  pub providers : Contract p
  pub providers_given : GivenContract p providers

module _ (g s p : OwnedType) (k : Contracts g s p) where
  -- What the C function that opens a session promises: the config is released and what is left of it
  -- holds nothing, and the session holds what was given out for it. This is so with every code.
  abbrev pub IsOpened : g.Inner → g.World → s.World → Opened g s p → Type 0
  IsOpened x gw sw o =
      (r : ℕ)
      → (k.configs.holds o.left r ≡ 0)
        × (k.configs.released o.configs r ≡ k.configs.holds x r + k.configs.released gw r)
        × (k.configs_given.given o.configs r ≡ k.configs_given.given gw r)
        × (k.sessions_given.given o.sessions r
            ≡ k.sessions.holds o.session r + k.sessions_given.given sw r)
        × (k.sessions.released o.sessions r ≡ k.sessions.released sw r)

  pub record SessionContract (api : SessionApi g s p) : Type 0 where
    pub open_takes :
        (x : g.Inner) (gw : g.World) (sw : s.World)
        → IsOpened x gw sw (api.z_open x api.z_open_options_default gw sw)
    pub open_with_clients_takes :
        (x : g.Inner) (storage : api.ShmClientStorage) (gw : g.World) (sw : s.World)
        → IsOpened x gw sw (api.z_open_with_custom_shm_clients x storage gw sw)
    pub obtain_gives :
        (y : s.Inner) (w : p.World) (r : ℕ)
        → let ((v, state), w') = api.z_obtain_shm_provider y w in
          (k.providers_given.given w' r ≡ k.providers.holds v r + k.providers_given.given w r)
          × (k.providers.released w' r ≡ k.providers.released w r)

  -- For configs, sessions and shared providers alike: what the library has given out is what the
  -- objects below `n` hold and what was released.
  abbrev pub AreBalanced : ℕ → Holdings g s p → Type 0
  AreBalanced n h =
      IsBalanced g k.configs k.configs_given n h.configs
      × IsBalanced s k.sessions k.sessions_given n h.sessions
      × IsBalanced p k.providers k.providers_given n h.providers

  abbrev pub AreBalancedIf : ℕ → Option (Holdings g s p) → Type 0
  AreBalancedIf n none = Unit {0}
  AreBalancedIf n (some h) = AreBalanced n h

  -- The state behind a constructor of Session, taken apart.
  with_sessions-left_by :
      (h : Holdings g s p) (run : Run (Memory s) (Unit {0}))
      → (m : Memory s) × (left_by (some run) ≡ some m)
        × (left_by (some (with_sessions g s p h run)) ≡ some (record h { sessions = m }))
  unfolding left_by
  with_sessions-left_by h (returned u err m) = (m, refl, refl)
  with_sessions-left_by h (threw code m) = (m, refl, refl)

  module _ (config_api : ConfigApi g) (api : SessionApi g s p)
      (promised : SessionContract api) where
    finish_open-AreBalanced :
        (n this config : ℕ) (x : g.Inner) (o : Opened g s p) (err : Option ZResult)
        (h h' : Holdings g s p)
        → this < n
        → config < n
        → h.sessions.objects this ≡ none
        → h.configs.objects config ≡ some x
        → IsOpened x h.configs.world h.sessions.world o
        → left_by (some (finish_open g s p config_api api this config o err h)) ≡ some h'
        → AreBalanced n h
        → AreBalanced n h'
    unfolding finish_open
    finish_open-AreBalanced n this config x o err h h' below below' free live opened e
          (configs, sessions, providers) =
        let left : Holdings g s p = record h {
          configs = record {
            objects = set g h.configs.objects config (some o.left);
            world = o.configs;
          };
        } in
        let (m, ended, seen) =
          with_sessions-left_by left
            (emplace s this ((o.code, o.session), o.sessions) err h.sessions) in
        subst (AreBalancedIf n) (sym seen ∙ e) (
          exchange-IsBalanced g k.configs k.configs_given n config x o.left o.configs h.configs
              below' live (λ r. let (a, b, c, d, f) = opened r in omega arith) configs,
          emplace-IsBalanced s k.sessions k.sessions_given n this o.code o.session o.sessions err
              h.sessions m below free (λ r. let (a, b, c, d, f) = opened r in (d, f)) ended
              sessions,
          providers,
        )

    call_open-IsOpened :
        (x : g.Inner) (storage : Option api.ShmClientStorage) (h : Holdings g s p)
        → IsOpened x h.configs.world h.sessions.world (call_open g s p config_api api x storage h)
    unfolding call_open
    call_open-IsOpened x none h = promised.open_takes x _ _
    call_open-IsOpened x (some storage) h = promised.open_with_clients_takes x storage _ _

    abbrev pub Balances : ℕ → (Holdings g s p → Option (Holdings g s p)) → Type 0
    Balances n f = (h h' : Holdings g s p) → f h ≡ some h' → AreBalanced n h → AreBalanced n h'

    pub opens-Balances :
        (n this config : ℕ) (storage : Option api.ShmClientStorage) (err : Option ZResult)
        → this < n
        → config < n
        → Balances n (session_step g s p config_api api (opens this config storage err))
    unfolding session_step open_session left_by
    opens-Balances n this config storage err below below' h h' e balanced =
        elim (Option-cases (h.sessions.objects this)) [
          | inr (x, live) ↦ absurd (cc (rw (session_step, open_session, live, left_by) at e))
          | inl free ↦ elim (Option-cases (h.configs.objects config)) [
            | inl gone ↦ absurd (cc (rw (session_step, open_session, free, gone, left_by) at e))
            | inr (x, live) ↦
                finish_open-AreBalanced n this config x _ err h h' below below' free live
                  (call_open-IsOpened x storage h)
                  (rw (session_step, open_session, free, live) at e) balanced
          ]
        ]

    keep_if_ready-IsBalanced :
        (n result : ℕ) (answer : Option ShmProviderNotReadyState) (v : p.Inner) (w : p.World)
        (m : Memory p)
        → result < n
        → m.objects result ≡ none
        → Fresh p k.providers k.providers_given v w m
        → IsBalanced p k.providers k.providers_given n m
        → IsBalanced p k.providers k.providers_given n
            (keep_if_ready g s p config_api api result answer v w m)
    unfolding keep_if_ready
    keep_if_ready-IsBalanced n result (some e) v w m below free fresh balanced =
        drop-IsBalanced p k.providers k.providers_given n v w m fresh balanced
    keep_if_ready-IsBalanced n result none v w m below free fresh balanced =
        put-IsBalanced p k.providers k.providers_given n result _ _ m below free
          (λ r. (
            ground (
              arith,
              (fresh r).0,
              moved-holds p k.providers v r,
              k.providers_given.drop_gives (moved p v).1 (p.z_drop p.null w).1 r,
              k.providers_given.drop_gives p.null w r,
            ),
            ground (
              arith,
              (fresh r).1,
              moved-holds p k.providers v r,
              k.providers.null_holds r,
              k.providers.drop_releases (moved p v).1 (p.z_drop p.null w).1 r,
              k.providers.drop_releases p.null w r,
            ),
          ))
          balanced

    pub obtains-Balances :
        (n result this : ℕ)
        → result < n
        → Balances n (session_step g s p config_api api (obtains result this))
    unfolding session_step obtain_shm_provider
    obtains-Balances n result this below h h' e (configs, sessions, providers) =
        elim (Option-cases (h.providers.objects result)) [
          | inr (x, live) ↦ absurd (cc (rw (session_step, obtain_shm_provider, live) at e))
          | inl free ↦ elim (Option-cases (h.sessions.objects this)) [
            | inl gone ↦ absurd (cc (rw (session_step, obtain_shm_provider, free, gone) at e))
            | inr (y, live) ↦
                subst (AreBalancedIf n) (rw (session_step, obtain_shm_provider, free, live) at e) (
                  configs,
                  sessions,
                  keep_if_ready-IsBalanced n result _ _ _ h.providers below free
                      (promised.obtain_gives y h.providers.world) providers,
                )
          ]
        ]
