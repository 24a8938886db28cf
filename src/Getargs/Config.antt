-- ===== src/Getargs/Config.antt =====
-- ConfigCliArgParser::run, in the build over zenoh-c.
use zenoh_cpp.Base.{
  List, [], ◌∷◌, ◌++◌, not, ◌&&◌, none, some, if◌then◌else◌, Text, codes, text_eq, is_empty,
  split_at,
}
use zenoh_cpp.Getargs.{
  CliArgParser, named_flag, named_value, named_values, bad_mode, expected_key_value, Outcome, ok,
  throws, exits, ◌>>=◌,
}
use zenoh_cpp.Getargs.Parse.{Result, run}
use zenoh_cpp.Getargs.Access.{flag, value, values}
use zenoh_cpp.Getargs.Values.{to_json_array_string}

-- Config of the API, and the keys of the C library. Its calls may throw.
pub record ConfigApi : Type 1 where
  pub Config : Type 0
  pub create_default : Outcome Config
  pub from_file : Text → Outcome Config
  pub insert_json5 : Config → Text → Text → Outcome Config
  pub listen_key : Text
  pub connect_key : Text
  pub mode_key : Text
  pub multicast_scouting_key : Text

-- The arguments that every program has.
unfoldable pub declare_config_args : CliArgParser → CliArgParser
unfolding named_flag named_value named_values
declare_config_args p =
    let p₁ =
      named_value (codes "c" ∷ codes "config" ∷ []) (codes "CONFIG_FILE")
        (codes "Configuration file") [] p in
    let p₂ =
      named_values (codes "e" ∷ codes "connect" ∷ []) (codes "CONNECT")
        (codes "Endpoints to connect to") p₁ in
    let p₃ =
      named_values (codes "l" ∷ codes "listen" ∷ []) (codes "LISTEN")
        (codes "Endpoints to listen to") p₂ in
    let p₄ =
      named_values (codes "cfg" ∷ []) (codes "CFG")
        (codes
          "Allows arbitrary configuration changes as column-separated KEY:VALUE pairs. Where KEY must be a valid config path and VALUE must be a valid JSON5 string that can be deserialized to the expected type for the KEY field. Example: --cfg='transport/unicast/max_links:2'")
        p₃ in
    let p₅ =
      named_value (codes "m" ∷ codes "mode" ∷ []) (codes "MODE")
        (codes "Zenoh session mode (peer | client)") (codes "peer") p₄ in
    let p₆ =
      named_flag (codes "no-multicast-scouting" ∷ [])
        (codes "Disable the multicast-based scouting mechanism") p₅ in
    named_flag (codes "h" ∷ codes "help" ∷ []) (codes "Print help") p₆

module _ (api : ConfigApi) where
  open api use {
    Config, create_default, from_file, insert_json5, listen_key, connect_key, mode_key,
    multicast_scouting_key,
  }

  unfoldable pub load_file : Text → Config → Outcome Config
  load_file file c = if is_empty file then ok c else from_file file

  -- `if (!v.empty()) config.insert_json5(key, to_json_array_string(v));`
  unfoldable pub insert_array : Text → List Text → Config → Outcome Config
  unfolding to_json_array_string
  insert_array key [] c = ok c
  insert_array key (t ∷ ts) c = insert_json5 c key (to_json_array_string (t ∷ ts))

  -- The loop over the KEY:VALUE pairs.
  unfoldable pub insert_pairs : List Text → Config → Outcome Config
  unfolding split_at
  insert_pairs [] c = ok c
  insert_pairs (t ∷ ts) c = elim (split_at b':' t) [
    | none ↦ throws (expected_key_value t)
    | some (k, v) ↦ do c' ← insert_json5 c k v; insert_pairs ts c'
  ]

  -- What the code does with the result, once `-h` is ruled out.
  unfoldable pub configure : Result → Outcome Config
  unfolding load_file insert_array insert_pairs flag value values
  configure r = do
    c₀ ← create_default
    mode ← value r (codes "m")
    if not (text_eq mode (codes "peer")) && not (text_eq mode (codes "client"))
        then throws bad_mode
        else (do
          file ← value r (codes "c")
          c₁ ← load_file file c₀
          locators ← values r (codes "l")
          c₂ ← insert_array listen_key locators c₁
          endpoints ← values r (codes "e")
          c₃ ← insert_array connect_key endpoints c₂
          c₄ ← insert_json5 c₃ mode_key (b'"' ∷ mode ++ b'"' ∷ [])
          no_scouting ← flag r (codes "no-multicast-scouting")
          c₅ ← if no_scouting then insert_json5 c₄ multicast_scouting_key (codes "false") else ok c₄
          pairs ← values r (codes "cfg")
          insert_pairs pairs c₅)

  unfoldable pub run_config : CliArgParser → Outcome (Config × Result)
  unfolding declare_config_args run configure flag
  run_config p = do
    r ← run (declare_config_args p)
    help ← flag r (codes "h")
    if help then exits else (do c ← configure r; let out : Config × Result = (c, r); ok out)
