-- ===== src/Examples/Storage.antt =====
-- examples/universal/z_storage.cxx: the samples that the program stores, and its answers to queries.
-- Both handlers hold the mutex, so that they run one after the other.
use zenoh_cpp.Base.{List, [], ◌∷◌, Bool, Option, none, some, if◌then◌else◌, Text, text_eq}

-- SampleKind; `other_kind` is any other number.
pub data SampleKind : Type 0 where
  z_sample_kind_put z_sample_kind_delete other_kind : SampleKind

pub record Sample (Bytes : Type 0) : Type 0 where
  pub kind : SampleKind
  pub keyexpr : Text
  pub payload : Bytes

module _ {Bytes : Type 0} where
  -- unordered_map::erase and insert, which leaves an entry that is there.
  unfoldable pub erase : Text → List (Text × Sample Bytes) → List (Text × Sample Bytes)
  erase k [] = []
  erase k ((j, v) ∷ m) = let rest = erase k m in if text_eq j k then rest else (j, v) ∷ rest

  abbrev pub find : Text → List (Text × Sample Bytes) → Option (Sample Bytes)
  find k [] = none
  find k ((j, v) ∷ m) = if text_eq j k then some v else find k m

  unfoldable pub insert :
      Text → Sample Bytes → List (Text × Sample Bytes) → List (Text × Sample Bytes)
  insert k v m = elim (find k m) [ none ↦ (k, v) ∷ m | some old ↦ m ]

  abbrev pub store_as :
      SampleKind → Sample Bytes → List (Text × Sample Bytes) → List (Text × Sample Bytes)
  store_as z_sample_kind_put sample storage =
      insert sample.keyexpr sample (erase sample.keyexpr storage)
  store_as z_sample_kind_delete sample storage = erase sample.keyexpr storage
  store_as other_kind sample storage = storage

  -- sub_handler
  unfoldable pub sub_handler :
      Sample Bytes → List (Text × Sample Bytes) → List (Text × Sample Bytes)
  unfolding erase insert
  sub_handler sample storage = store_as sample.kind sample storage

  -- qbl_handler: the calls of Query::reply, in order. `intersects` is that of the query's key
  -- expression.
  unfoldable pub qbl_handler :
      (intersects : Text → Bool) → List (Text × Sample Bytes) → List (Text × Bytes)
  qbl_handler intersects [] = []
  qbl_handler intersects ((k, v) ∷ storage) =
      let rest = qbl_handler intersects storage in
      if intersects v.keyexpr then (v.keyexpr, v.payload) ∷ rest else rest

  -- The storage after the samples, the last one first.
  unfoldable pub stored : List (Sample Bytes) → List (Text × Sample Bytes)
  unfolding sub_handler
  stored [] = []
  stored (sample ∷ samples) = sub_handler sample (stored samples)
