-- ===== src/Made.antt =====
-- include/zenoh/api/config.hxx, encoding.hxx and session.hxx: objects whose value a C function makes or
-- changes and reports with a result code. A Session takes its Config over, and hands out the provider
-- of shared memory that it shares.
pub mod Opening
pub mod Kept
pub mod Opened
pub mod Histories
mod Tests
use zenoh_cpp.Base.{ℕ, List, [], ◌∷◌, Option, none, some, ◌==◌, if◌then◌else◌, Text}
use zenoh_cpp.Result.{ZResult, Run, result_check}
use zenoh_cpp.Owned.{OwnedType, Memory, Op, set, step}
use zenoh_cpp.Owned.Emplace.{emplace, left_by}

-- The C functions that make a value and that change one, for each request. Each leaves a value, with
-- whatever result code.
pub record MadeApi (c : OwnedType) (Request Change : Type 0) : Type 0 where
  pub make : Request → c.World → (ZResult × c.Inner) × c.World
  pub change : Change → c.Inner → c.World → (ZResult × c.Inner) × c.World

-- One operation, on addresses, and its `err`; a move or a destruction is one of Owned.
pub data MadeOp (Request Change : Type 0) : Type 0 where
  makes : (this : ℕ) → Request → Option ZResult → MadeOp Request Change
  changes : (this : ℕ) → Change → Option ZResult → MadeOp Request Change
  owned : Op → MadeOp Request Change

module _ (c : OwnedType) {Request Change : Type 0} (api : MadeApi c Request Change) where
  -- A constructor, or a function that returns a new object. Memory that has an object is no place for
  -- another: `none`.
  unfoldable pub make_object :
      ℕ → Request → Option ZResult → Memory c → Option (Run (Memory c) (Unit {0}))
  unfolding emplace
  make_object this q err m = elim (m.objects this) [
    | some x ↦ none
    | none ↦ some (emplace c this (api.make q m.world) err m)
  ]

  -- A method that lets C change the value in place.
  unfoldable pub change_object :
      ℕ → Change → Option ZResult → Memory c → Option (Run (Memory c) (Unit {0}))
  unfolding result_check
  change_object this q err m = elim (m.objects this) [
    | none ↦ none
    | some x ↦
        let ((code, v), w) = api.change q x m.world in
        some
          (result_check code err (record m { objects = set c m.objects this (some v); world = w }))
  ]

  unfoldable pub made_step : MadeOp Request Change → Memory c → Option (Memory c)
  unfolding make_object change_object left_by step
  made_step (makes this q err) m = left_by (make_object this q err m)
  made_step (changes this q err) m = left_by (change_object this q err m)
  made_step (owned op) m = step c op m

-- What a C function reads that gets the characters of a std::string alone: those up to the first NUL.
unfoldable pub c_string : Text → Text
c_string [] = []
c_string (b ∷ bs) = if b == 0 then [] else b ∷ c_string bs

-- Config::create_default, from_file, from_str and from_env, and Config::insert_json5
pub data ConfigRequest : Type 0 where
  create_default from_env : ConfigRequest
  from_file : (path : Text) → ConfigRequest
  from_str : (s : Text) → ConfigRequest

pub data ConfigChange : Type 0 where
  insert_json5 : (key value : Text) → ConfigChange

pub record ConfigApi (c : OwnedType) : Type 0 where
  pub z_config_default : c.World → (ZResult × c.Inner) × c.World
  pub zc_config_from_env : c.World → (ZResult × c.Inner) × c.World
  pub zc_config_from_file : Text → c.World → (ZResult × c.Inner) × c.World
  pub zc_config_from_str : Text → c.World → (ZResult × c.Inner) × c.World
  pub zc_config_insert_json5 : c.Inner → Text → Text → c.World → (ZResult × c.Inner) × c.World

module _ (c : OwnedType) (api : ConfigApi c) where
  unfoldable pub make_config : ConfigRequest → c.World → (ZResult × c.Inner) × c.World
  unfolding c_string
  make_config create_default w = api.z_config_default w
  make_config from_env w = api.zc_config_from_env w
  make_config (from_file path) w = api.zc_config_from_file (c_string path) w
  make_config (from_str s) w = api.zc_config_from_str (c_string s) w

  unfoldable pub change_config : ConfigChange → c.Inner → c.World → (ZResult × c.Inner) × c.World
  unfolding c_string
  change_config (insert_json5 key value) x w =
      api.zc_config_insert_json5 x (c_string key) (c_string value) w

  unfoldable pub config_made : MadeApi c ConfigRequest ConfigChange
  unfolding make_config change_config
  config_made = record { make = make_config; change = change_config }

-- Encoding(std::string_view, ZResult*) and Encoding::set_schema
pub data EncodingRequest : Type 0 where
  from_text : Text → EncodingRequest

pub data EncodingChange : Type 0 where
  set_schema : Text → EncodingChange

pub record EncodingApi (c : OwnedType) : Type 0 where
  pub z_encoding_from_substr : Text → c.World → (ZResult × c.Inner) × c.World
  pub z_encoding_set_schema_from_substr : c.Inner → Text → c.World → (ZResult × c.Inner) × c.World

module _ (c : OwnedType) (api : EncodingApi c) where
  unfoldable pub make_encoding : EncodingRequest → c.World → (ZResult × c.Inner) × c.World
  make_encoding (from_text s) w = api.z_encoding_from_substr s w

  unfoldable pub change_encoding :
      EncodingChange → c.Inner → c.World → (ZResult × c.Inner) × c.World
  change_encoding (set_schema s) x w = api.z_encoding_set_schema_from_substr x s w

  unfoldable pub encoding_made : MadeApi c EncodingRequest EncodingChange
  unfolding make_encoding change_encoding
  encoding_made = record { make = make_encoding; change = change_encoding }
