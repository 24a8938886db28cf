-- ===== src/Made/Tests.antt =====
-- Configs, sessions and shared providers that are resource numbers, and a library that refuses the empty
-- text and a config of 4.
use zenoh_cpp.Base.{
  ℕ, suc, ◌+◌, ◌<◌, ◌≡◌, refl, List, [], ◌∷◌, Option, none, some, ◌==◌, if◌then◌else◌, length,
  arith, Text, codes, Bool-cases, inl, inr,
}
use zenoh_cpp.Result.{ZResult, z_ok, other, returned}
use zenoh_cpp.Owned.{Memory, set, destroys}
use zenoh_cpp.Owned.Numbered.{is_one_of, count}
use zenoh_cpp.Owned.Ledger.{Ledger, ledgered, ledgered-Contract, ledgered-Given}
use zenoh_cpp.Made.{
  ConfigApi, config_made, makes, changes, from_str, from_file, from_env, create_default,
  insert_json5, c_string, ConfigRequest, ConfigChange, make_config, change_config, EncodingApi,
  encoding_made, set_schema, change_object,
}
use zenoh_cpp.Made.Opening.{
  Opened, SessionApi, Holdings, SessionOp, on_configs, opens, obtains, on_sessions, state_ready,
  state_initializing, session_run,
}
use zenoh_cpp.Made.Kept.{MadeContract}
use zenoh_cpp.Made.Opened.{Contracts, SessionContract, AreBalanced}
use zenoh_cpp.Made.Histories.{OpsInRange, session_run-AreBalanced}

abbrev gives_number : ZResult → ℕ → Ledger → (ZResult × ℕ) × Ledger
gives_number code v w = ((code, v), (w.0, v ∷ w.1))

-- A number for a text: its length.
abbrev of_text : Text → Ledger → (ZResult × ℕ) × Ledger
of_text [] w = ((other 1, 0), w)
of_text (b ∷ bs) w = gives_number z_ok (suc (length bs)) w

unfoldable config_api : ConfigApi ledgered
config_api = record {
  z_config_default = gives_number z_ok 4;
  zc_config_from_env = gives_number (other 2) 0;
  zc_config_from_file = of_text;
  zc_config_from_str = of_text;
  zc_config_insert_json5 = λ x key value w. ((z_ok, x), w);
}

-- A config of 4 is refused; the session has the number after that of its config.
abbrev opens_number : ℕ → Ledger → Ledger → Opened ledgered ledgered ledgered
opens_number x gw sw =
    if x == 4
    then record { code = other 3; session = 0; left = 0; configs = (x ∷ gw.0, gw.1); sessions = sw }
    else record {
      code = z_ok;
      session = suc x;
      left = 0;
      configs = (x ∷ gw.0, gw.1);
      sessions = (sw.0, suc x ∷ sw.1);
    }

-- The provider of a session has its number; that of session 3 is not ready.
unfoldable api : SessionApi ledgered ledgered ledgered
api = record {
  ZOpenOptions = Unit {0};
  z_open_options_default = tt;
  ShmClientStorage = ℕ;
  z_open = λ x o gw sw. opens_number x gw sw;
  z_open_with_custom_shm_clients = λ x o gw sw. opens_number x gw sw;
  z_obtain_shm_provider =
      λ y w. ((y, if y == 3 then state_initializing else state_ready), (w.0, y ∷ w.1));
}

abbrev contracts : Contracts ledgered ledgered ledgered
contracts = record {
  configs = ledgered-Contract;
  configs_given = ledgered-Given;
  sessions = ledgered-Contract;
  sessions_given = ledgered-Given;
  providers = ledgered-Contract;
  providers_given = ledgered-Given;
}

of_text_gives :
    (t : Text) (w : Ledger) (r : ℕ)
    → (count (of_text t w).1.1 r ≡ is_one_of (of_text t w).0.1 r + count w.1 r)
      × (count (of_text t w).1.0 r ≡ count w.0 r)
of_text_gives [] w r = (ground arith, refl)
of_text_gives (b ∷ bs) w r = (refl, refl)

unfoldable config_made-Contract :
    MadeContract ledgered ledgered-Contract ledgered-Given (config_made ledgered config_api)
unfolding ledgered-Contract ledgered-Given config_made config_api c_string
config_made-Contract = record {
  make_gives = λ q w r. gives q w r;
  change_exchanges = λ q x w r. changed q x w r;
}
  where
    gives :
        (q : ConfigRequest) (w : Ledger) (r : ℕ)
        → let ((code, v), w') = make_config ledgered config_api q w in
          (count w'.1 r ≡ is_one_of v r + count w.1 r) × (count w'.0 r ≡ count w.0 r)
    gives create_default w r = (refl, refl)
    gives from_env w r = (refl, refl)
    gives (from_file path) w r = of_text_gives (c_string path) w r
    gives (from_str s) w r = of_text_gives (c_string s) w r

    changed :
        (q : ConfigChange) (x : ℕ) (w : Ledger) (r : ℕ)
        → let ((code, v), w') = change_config ledgered config_api q x w in
          is_one_of v r + count w'.0 r + count w.1 r ≡ is_one_of x r + count w.0 r + count w'.1 r
    changed (insert_json5 key value) x w r = refl

opens_number-IsOpened :
    (x : ℕ) (gw sw : Ledger) (r : ℕ)
    → let o = opens_number x gw sw in
      (is_one_of o.left r ≡ 0)
      × (count o.configs.0 r ≡ is_one_of x r + count gw.0 r)
      × (count o.configs.1 r ≡ count gw.1 r)
      × (count o.sessions.1 r ≡ is_one_of o.session r + count sw.1 r)
      × (count o.sessions.0 r ≡ count sw.0 r)
opens_number-IsOpened x gw sw r = elim (Bool-cases (x == 4)) [
  | inl e ↦ rw (e) (refl, refl, refl, ground arith, refl)
  | inr e ↦ rw (e) (refl, refl, refl, refl, refl)
]

unfoldable api-Contract : SessionContract ledgered ledgered ledgered contracts api
unfolding ledgered-Contract ledgered-Given api
api-Contract = record {
  open_takes = λ x gw sw. opens_number-IsOpened x gw sw;
  open_with_clients_takes = λ x storage gw sw. opens_number-IsOpened x gw sw;
  obtain_gives = λ y w r. (refl, refl);
}

abbrev no_objects : Memory ledgered
no_objects = record { objects = λ a. none; world = ([], []) }

abbrev start : Holdings ledgered ledgered ledgered
start = record { configs = no_objects; sessions = no_objects; providers = no_objects }

-- A session whose provider is not ready, one that fails to open and throws, and one with clients.
unfoldable history : List (SessionOp ledgered ledgered ledgered config_api api)
unfolding api
history =
    on_configs (makes 0 (from_str (codes "ab")) none)
    ∷ on_configs (changes 0 (insert_json5 (codes "k") (codes "v")) none)
    ∷ opens 0 0 none none
    ∷ obtains 0 0
    ∷ on_configs (makes 1 create_default none)
    ∷ opens 1 1 none none
    ∷ on_configs (makes 2 (from_str (codes "abcde")) (some z_ok))
    ∷ opens 1 2 (some 0) (some z_ok)
    ∷ obtains 0 1
    ∷ on_sessions (destroys 0)
    ∷ []

abbrev from_some : {A : Type 0} → A → Option A → A
from_some a none = a
from_some a (some b) = b

unfoldable after : Holdings ledgered ledgered ledgered
unfolding session_run history config_api api config_made c_string
after = from_some start (session_run ledgered ledgered ledgered config_api api history start)

-- Session 6 and its provider are left.
after_worlds :
    (after.configs.world ≡ (5 ∷ 4 ∷ 2 ∷ [], 5 ∷ 4 ∷ 2 ∷ []))
    × (after.sessions.world ≡ (3 ∷ 0 ∷ [], 6 ∷ 3 ∷ []))
    × (after.sessions.objects 1 ≡ some 6)
    × (after.providers.objects 0 ≡ some 6)
unfolding after
after_worlds = (refl, refl, refl, refl)

history-InRange :
    OpsInRange ledgered ledgered ledgered contracts config_api api config_made-Contract api-Contract
      3 history
unfolding history
history-InRange =
    let first : 0 < 3 = omega arith in
    let second : 1 < 3 = omega arith in
    let third : 2 < 3 = omega arith in
    (
      first,
      (
        first,
        (
          (first, first),
          (first, (second, ((second, second), (third, ((second, third), (first, (first, tt))))))),
        ),
      ),
    )

session_run-AreBalanced_example : AreBalanced ledgered ledgered ledgered contracts 3 after
unfolding after ledgered-Given ledgered-Contract
session_run-AreBalanced_example =
    session_run-AreBalanced ledgered ledgered ledgered contracts config_api api config_made-Contract
      api-Contract history 3 start after history-InRange refl
      ((λ r. refl), (λ r. refl), (λ r. refl))

-- A schema that the library refuses is reported, and the encoding stays as it is.
unfoldable encoding_api : EncodingApi ledgered
encoding_api = record {
  z_encoding_from_substr = of_text;
  z_encoding_set_schema_from_substr = λ x t w. ((other 4, x), w);
}

refused_schema :
    change_object ledgered
      (encoding_made ledgered encoding_api)
      0
      (set_schema (codes "a"))
      (some z_ok)
      (record start.configs { objects = λ a. some 7 })
    ≡ some (
        returned tt
          (some (other 4))
          (record start.configs { objects = set ledgered (λ a. some 7) 0 (some 7) }))
unfolding change_object encoding_made encoding_api
refused_schema = refl
