-- ===== src/Made/Opening.antt =====
-- include/zenoh/api/session.hxx: the constructors of Session, in the build over zenoh-c, and
-- Session::obtain_shm_provider.
use zenoh_cpp.Base.{ℕ, List, [], ◌∷◌, Option, none, some}
use zenoh_cpp.Result.{ZResult, Run, returned, threw}
use zenoh_cpp.Owned.{OwnedType, Memory, Op, set, moved, step}
use zenoh_cpp.Owned.Emplace.{emplace, left_by}
use zenoh_cpp.Made.{MadeOp, ConfigRequest, ConfigChange, ConfigApi, config_made, made_step}

-- z_shm_provider_state
pub data ProviderState : Type 0 where
  state_disabled state_initializing state_ready state_error : ProviderState
  state_other : ℕ → ProviderState

pub data ShmProviderNotReadyState : Type 0 where
  shm_provider_disabled shm_provider_initializing shm_provider_error : ShmProviderNotReadyState

module _ (g s p : OwnedType) where
  -- What a C function that opens a session leaves: its code, the values of the session and of the
  -- config, and what stands behind them.
  pub record Opened : Type 0 where
    pub code : ZResult
    pub session : s.Inner
    pub left : g.Inner
    pub configs : g.World
    pub sessions : s.World

  pub record SessionApi : Type 1 where
    pub ZOpenOptions : Type 0
    pub z_open_options_default : ZOpenOptions
    pub ShmClientStorage : Type 0
    pub z_open : g.Inner → ZOpenOptions → g.World → s.World → Opened
    pub z_open_with_custom_shm_clients : g.Inner → ShmClientStorage → g.World → s.World → Opened
    pub z_obtain_shm_provider : s.Inner → p.World → (p.Inner × ProviderState) × p.World

  -- The configs, the sessions and the shared providers that are alive, by address.
  pub record Holdings : Type 0 where
    pub configs : Memory g
    pub sessions : Memory s
    pub providers : Memory p

  abbrev pub with_sessions : Holdings → Run (Memory s) (Unit {0}) → Run Holdings (Unit {0})
  with_sessions h (returned u err m) = returned u err (record h { sessions = m })
  with_sessions h (threw code m) = threw code (record h { sessions = m })

  -- The state `READY` as `none`.
  unfoldable pub not_ready : ProviderState → Option ShmProviderNotReadyState
  not_ready state_disabled = some shm_provider_disabled
  not_ready state_initializing = some shm_provider_initializing
  not_ready state_ready = none
  not_ready state_error = some shm_provider_error
  not_ready (state_other n) = some shm_provider_error

  module _ (config_api : ConfigApi g) (api : SessionApi) where
    -- One operation, on addresses; `opens` is the constructor with a storage of SHM clients where it
    -- has one.
    pub data SessionOp : Type 0 where
      on_configs : MadeOp ConfigRequest ConfigChange → SessionOp
      opens : (this config : ℕ) → Option api.ShmClientStorage → Option ZResult → SessionOp
      obtains : (result this : ℕ) → SessionOp
      on_sessions on_providers : Op → SessionOp

    -- The end of both constructors: the config is left with what the C function put there.
    unfoldable pub finish_open :
        (this config : ℕ) → Opened → Option ZResult → Holdings → Run Holdings (Unit {0})
    unfolding emplace
    finish_open this config o err h =
        with_sessions
          (record h {
            configs = record {
              objects = set g h.configs.objects config (some o.left);
              world = o.configs;
            };
          })
          (emplace s this ((o.code, o.session), o.sessions) err h.sessions)

    -- The C function of each constructor. The options of a session have no field.
    unfoldable pub call_open : g.Inner → Option api.ShmClientStorage → Holdings → Opened
    call_open x none h = api.z_open x api.z_open_options_default h.configs.world h.sessions.world
    call_open x (some storage) h =
        api.z_open_with_custom_shm_clients x storage h.configs.world h.sessions.world

    -- Session(Config&&, SessionOptions&&, ZResult*), and the one with a const ShmClientStorage&
    unfoldable pub open_session :
        (this config : ℕ)
        → Option api.ShmClientStorage
        → Option ZResult
        → Holdings
        → Option (Run Holdings (Unit {0}))
    unfolding call_open finish_open
    open_session this config storage err h = elim (h.sessions.objects this) [
      | some x ↦ none
      | none ↦ elim (h.configs.objects config) [
        | none ↦ none
        | some x ↦ some (finish_open this config (call_open x storage h) err h)
      ]
    ]

    -- `return provider;` moves a provider that is ready to `result`, and the local ends in any case.
    unfoldable pub keep_if_ready :
        ℕ → Option ShmProviderNotReadyState → p.Inner → p.World → Memory p → Memory p
    unfolding moved
    keep_if_ready result (some e) v w m = record m { world = (p.z_drop v w).1 }
    keep_if_ready result none v w m = record m {
      objects = set p m.objects result (some (moved p v).0);
      world = (p.z_drop (moved p v).1 (p.z_drop p.null w).1).1;
    }

    -- Session::obtain_shm_provider; `result` is the place in the variant that is returned.
    unfoldable pub obtain_shm_provider :
        (result this : ℕ) → Holdings → Option (Option ShmProviderNotReadyState × Holdings)
    unfolding not_ready keep_if_ready
    obtain_shm_provider result this h = elim (h.providers.objects result) [
      | some x ↦ none
      | none ↦ elim (h.sessions.objects this) [
        | none ↦ none
        | some y ↦
            let ((v, state), w) = api.z_obtain_shm_provider y h.providers.world in
            let answer = not_ready state in
            some (answer, record h { providers = keep_if_ready result answer v w h.providers })
      ]
    ]

    unfoldable pub session_step : SessionOp → Holdings → Option Holdings
    unfolding open_session obtain_shm_provider left_by made_step config_made step
    session_step (on_configs op) h = elim (made_step g (config_made g config_api) op h.configs) [
      | none ↦ none
      | some m ↦ some (record h { configs = m })
    ]
    session_step (opens this config storage err) h =
        left_by (open_session this config storage err h)
    session_step (obtains result this) h = elim (obtain_shm_provider result this h) [
      | none ↦ none
      | some (answer, h') ↦ some h'
    ]
    session_step (on_sessions op) h = elim (step s op h.sessions) [
      | none ↦ none
      | some m ↦ some (record h { sessions = m })
    ]
    session_step (on_providers op) h = elim (step p op h.providers) [
      | none ↦ none
      | some m ↦ some (record h { providers = m })
    ]

    unfoldable pub session_run : List SessionOp → Holdings → Option Holdings
    unfolding session_step
    session_run [] h = some h
    session_run (op ∷ ops) h = elim (session_step op h) [
      | none ↦ none
      | some h' ↦ session_run ops h'
    ]
