-- ===== src/Getargs/Settings.antt =====
-- How ConfigCliArgParser::run ends, whatever the arguments and whatever the program declares itself.
use zenoh_cpp.Base.{
  ◌≡◌, ◌⊎◌, List, [], ◌∷◌, ◌++◌, Bool, true, false, not, ◌&&◌, ltb, ◌==◌, if◌then◌else◌, Bool-cases,
  Option-cases, inl, inr, length, drop, Text, codes, text_eq, text_eq→eq, split_at,
}
use zenoh_cpp.Getargs.{CliArgParser, Outcome, ok, throws, exits, undefined, ◌>>=◌}
use zenoh_cpp.Getargs.Parse.{Result, run}
use zenoh_cpp.Getargs.Complete.{HasBare, IsComplete, parse_args-IsComplete}
use zenoh_cpp.Getargs.Access.{flag, value, values}
use zenoh_cpp.Getargs.Config.{
  ConfigApi, declare_config_args, load_file, insert_array, insert_pairs, configure, run_config,
}
use zenoh_cpp.Getargs.Reported.{Settles, Settles->>=, Ends-Settles, Returns->>=}
use zenoh_cpp.Getargs.Declared.{config_flags, config_value, config_values}

-- Config's calls return, or throw a ZException.
pub record ThrowsOnly (api : ConfigApi) : Type 0 where
  pub default_settles : Settles (λ c. Unit {0}) api.create_default
  pub from_file_settles : (file : Text) → Settles (λ c. Unit {0}) (api.from_file file)
  pub insert_settles :
      (c : api.Config) (k v : Text) → Settles (λ c. Unit {0}) (api.insert_json5 c k v)

abbrev pub IsMode : Text → Type 0
IsMode t = (t ≡ codes "peer") ⊎ (t ≡ codes "client")

peer_or_client_lem :
    (t : Text)
    → not (text_eq t (codes "peer")) && not (text_eq t (codes "client")) ≡ false
    → IsMode t
peer_or_client_lem t h = elim (Bool-cases (text_eq t (codes "peer"))) [
  | inl peer ↦ inl (text_eq→eq t _ peer)
  | inr other ↦ elim (Bool-cases (text_eq t (codes "client"))) [
    | inl client ↦ inr (text_eq→eq t _ client)
    | inr neither ↦ absurd (cc (rw (other, neither) at h))
  ]
]

run-Settles : (p : CliArgParser) → (HasBare (drop 1 p.argv) → ⊥) → Settles (IsComplete p) (run p)
unfolding run
run-Settles p no_bare = elim (Bool-cases (length p.argv == 1 && ltb 0 (length p.required))) [
  | inl alone ↦ rw alone tt
  | inr given ↦
      rw given (Ends-Settles _ (IsComplete p) _ no_bare (parse_args-IsComplete p (drop 1 p.argv)))
]

module _ (api : ConfigApi) (throws_only : ThrowsOnly api) where
  open throws_only use {default_settles, from_file_settles, insert_settles}

  abbrev Any : api.Config → Type 0
  Any c = Unit {0}

  load_file-Settles : (file : Text) (c : api.Config) → Settles Any (load_file api file c)
  unfolding load_file
  load_file-Settles [] c = tt
  load_file-Settles (d ∷ file) c = from_file_settles (d ∷ file)

  insert_array-Settles :
      (k : Text) (ts : List Text) (c : api.Config) → Settles Any (insert_array api k ts c)
  unfolding insert_array
  insert_array-Settles k [] c = tt
  insert_array-Settles k (t ∷ ts) c = insert_settles c k _

  insert_pairs-Settles : (ts : List Text) (c : api.Config) → Settles Any (insert_pairs api ts c)
  unfolding insert_pairs
  insert_pairs-Settles [] c = tt
  insert_pairs-Settles (t ∷ ts) c = elim (Option-cases (split_at b':' t)) [
    | inl whole ↦ rw (insert_pairs, whole) tt
    | inr ((k, v), cut) ↦
        rw (insert_pairs, cut)
          (Settles->>= Any Any (api.insert_json5 c k v) _ (insert_settles c k v)
            (λ c' h. insert_pairs-Settles ts c'))
  ]

  -- The mode of a result is one of the two.
  abbrev pub HasMode : Result → Type 0
  HasMode r = (mode : Text) × (value r (codes "m") ≡ ok mode) × IsMode mode

  module _ (p : CliArgParser) (r : Result) (complete : IsComplete (declare_config_args p) r) where
    insert_settings :
        (mode : Text) (c₀ : api.Config) (Q : api.Config → Type 0)
        → ((c : api.Config) → Q c)
        → Settles Q (do
          file ← value r (codes "c")
          c₁ ← load_file api file c₀
          locators ← values r (codes "l")
          c₂ ← insert_array api api.listen_key locators c₁
          endpoints ← values r (codes "e")
          c₃ ← insert_array api api.connect_key endpoints c₂
          c₄ ← api.insert_json5 c₃ api.mode_key (b'"' ∷ mode ++ b'"' ∷ [])
          no_scouting ← flag r (codes "no-multicast-scouting")
          c₅ ←
              if no_scouting
              then api.insert_json5 c₄ api.multicast_scouting_key (codes "false")
              else ok c₄
          pairs ← values r (codes "cfg")
          insert_pairs api pairs c₅)
    insert_settings mode c₀ Q all =
        Returns->>= Q (value r (codes "c")) _ (config_value p r complete).0 λ file _.
          Settles->>= Any Q _ _ (load_file-Settles file c₀) λ c₁ _.
            Returns->>= Q (values r (codes "l")) _ (config_values p r complete).1 λ locators _.
              Settles->>= Any Q _ _ (insert_array-Settles api.listen_key locators c₁) λ c₂ _.
                Returns->>= Q (values r (codes "e")) _ (config_values p r complete).0 λ endpoints _.
                  Settles->>= Any Q _ _ (insert_array-Settles api.connect_key endpoints c₂) λ c₃ _.
                    Settles->>= Any Q _ _ (insert_settles c₃ api.mode_key _) λ c₄ _.
                      Returns->>= Q (flag r (codes "no-multicast-scouting")) _
                        (config_flags p r complete).1
                        λ no_scouting _. Settles->>= Any Q _ _ (scouting no_scouting c₄) λ c₅ _.
                          Returns->>= Q (values r (codes "cfg")) _ (config_values p r complete).2
                            λ pairs _. widen _ (insert_pairs-Settles pairs c₅)
      where
        scouting :
            (b : Bool) (c : api.Config)
            → Settles Any
                (if b then api.insert_json5 c api.multicast_scouting_key (codes "false") else ok c)
        scouting true c = insert_settles c _ _
        scouting false c = tt

        widen : (m : Outcome api.Config) → Settles Any m → Settles Q m
        widen (ok c) h = all c
        widen (throws e) h = h
        widen exits h = tt
        widen undefined h = h

    configure-Settles : Settles (λ c. HasMode r) (configure api r)
    unfolding configure
    configure-Settles =
        Settles->>= Any (λ c. HasMode r) _ _ default_settles
          λ c₀ _.
            Returns->>= (λ c. HasMode r) (value r (codes "m")) _ (config_value p r complete).1
              λ mode is_value.
                elim (Bool-cases
                  (not (text_eq mode (codes "peer")) && not (text_eq mode (codes "client")))) [
                    | inl bad ↦ rw bad tt
                    | inr good ↦ rw good (
                        insert_settings mode c₀ (λ c. HasMode r)
                          (λ c. (mode, is_value, peer_or_client_lem mode good)))
                  ]

  -- ConfigCliArgParser::run ends, for all arguments of which none is `-=` and whatever the program has
  -- declared itself, by printing the help and exiting, with an exception that tells the user
  -- something, or with a configuration and a result whose mode is peer or client: where the calls of
  -- Config return or throw a ZException, no option is looked up that is not there, none by the accessor of another kind, and
  -- no vector is indexed out of range.
  pub run_config-Settles :
      (p : CliArgParser)
      → (HasBare (drop 1 p.argv) → ⊥)
      → Settles (λ out. HasMode out.1) (run_config api p)
  unfolding run_config
  run_config-Settles p no_bare =
      Settles->>= (IsComplete (declare_config_args p)) _ _ _
        (run-Settles (declare_config_args p) no_bare)
        λ r complete.
          Returns->>= _ (flag r (codes "h")) _ (config_flags p r complete).0
            λ help _. after r complete help
    where
      after :
          (r : Result)
          → IsComplete (declare_config_args p) r
          → (help : Bool)
          → Settles {A = api.Config × Result}
              (λ out. HasMode out.1)
              (if help
                then exits
                else (do c ← configure api r; let out : api.Config × Result = (c, r); ok out))
      after r complete true = tt
      after r complete false =
          Settles->>= (λ c. HasMode r) (λ out. HasMode out.1) (configure api r) _
            (configure-Settles p r complete) (λ c h. h)
