-- ===== src/Examples/Latest.antt =====
-- What a query of z_storage.cxx is answered: the latest value of each key.
use zenoh_cpp.Base.{
  ℕ, ◌+◌, ◌≡◌, refl, ap, ◌∙◌, List, [], ◌∷◌, Bool, Option, none, some, arith, if◌then◌else◌, Text,
  text_eq, text_eq_refl, text_eq_iff,
}
use zenoh_cpp.Examples.Storage.{
  SampleKind, z_sample_kind_put, z_sample_kind_delete, other_kind, Sample, erase, find, insert,
  store_as, sub_handler, qbl_handler, stored,
}

module _ {Bytes : Type 0} where
  -- The payload that the last sample of the key put, if it did not delete it.
  abbrev pub by_kind : SampleKind → Bytes → Option Bytes → Option Bytes
  by_kind z_sample_kind_put b before = some b
  by_kind z_sample_kind_delete b before = none
  by_kind other_kind b before = before

  abbrev pub latest : Text → List (Sample Bytes) → Option Bytes
  latest k [] = none
  latest k (s ∷ samples) =
      let before = latest k samples in
      if text_eq s.keyexpr k then by_kind s.kind s.payload before else before

  -- Every entry stands under the key of its sample, and once.
  abbrev Keyed : List (Text × Sample Bytes) → Type 0
  Keyed [] = Unit {0}
  Keyed ((k, v) ∷ m) = (k ≡ v.keyexpr) × (find k m ≡ none) × Keyed m

  abbrev payload_of : Option (Sample Bytes) → Option Bytes
  payload_of none = none
  payload_of (some v) = some v.payload

  find-erase :
      (k j : Text) (m : List (Text × Sample Bytes))
      → find j (erase k m) ≡ (if text_eq k j then none else find j m)
  unfolding erase
  find-erase k j [] = ground arith
  find-erase k j ((i, v) ∷ m) =
      ground (arith, find-erase k j m, text_eq_iff i k, text_eq_iff i j, text_eq_iff k j)

  erase-Keyed : (k : Text) (m : List (Text × Sample Bytes)) → Keyed m → Keyed (erase k m)
  unfolding erase
  erase-Keyed k [] h = tt
  erase-Keyed k ((i, v) ∷ m) h = ground (arith, erase-Keyed k m, find-erase k i m, text_eq_iff i k)

  find-insert :
      (k j : Text) (v : Sample Bytes) (m : List (Text × Sample Bytes))
      → find k m ≡ none
      → find j (insert k v m) ≡ (if text_eq k j then some v else find j m)
  unfolding insert
  find-insert k j v m free = rw (insert, free)

  insert-Keyed :
      (v : Sample Bytes) (m : List (Text × Sample Bytes))
      → find v.keyexpr m ≡ none
      → Keyed m
      → Keyed (insert v.keyexpr v m)
  unfolding insert
  insert-Keyed v m free h = rw (insert, free) (refl, free, h)

  erase_free : (k : Text) (m : List (Text × Sample Bytes)) → find k (erase k m) ≡ none
  erase_free k m = ground (arith, find-erase k k m, text_eq_refl k)

  store-Keyed :
      (kind : SampleKind) (v : Sample Bytes) (m : List (Text × Sample Bytes))
      → Keyed m
      → Keyed (store_as kind v m)
  store-Keyed z_sample_kind_put v m h =
      insert-Keyed v (erase v.keyexpr m) (erase_free v.keyexpr m) (erase-Keyed v.keyexpr m h)
  store-Keyed z_sample_kind_delete v m h = erase-Keyed v.keyexpr m h
  store-Keyed other_kind v m h = h

  stored-Keyed : (samples : List (Sample Bytes)) → Keyed (stored samples)
  unfolding stored sub_handler
  stored-Keyed [] = tt
  stored-Keyed (v ∷ samples) = store-Keyed v.kind v (stored samples) (stored-Keyed samples)

  find-store :
      (kind : SampleKind) (k : Text) (v : Sample Bytes) (m : List (Text × Sample Bytes))
      → payload_of (find k (store_as kind v m)) ≡ (
          if text_eq v.keyexpr k
          then by_kind kind v.payload (payload_of (find k m))
          else payload_of (find k m))
  find-store z_sample_kind_put k v m = ground (
    arith,
    find-insert v.keyexpr k v (erase v.keyexpr m) (erase_free v.keyexpr m),
    find-erase v.keyexpr k m,
  )
  find-store z_sample_kind_delete k v m = ground (arith, find-erase v.keyexpr k m)
  find-store other_kind k v m = ground arith

  find-stored :
      (k : Text) (samples : List (Sample Bytes))
      → payload_of (find k (stored samples)) ≡ latest k samples
  unfolding stored sub_handler
  find-stored k [] = refl
  find-stored k (v ∷ samples) = rw (find-store v.kind k v (stored samples), find-stored k samples)

  -- The reply for a key, and how many there are.
  abbrev pub reply_for : Text → List (Text × Bytes) → Option Bytes
  reply_for k [] = none
  reply_for k ((j, b) ∷ replies) = if text_eq j k then some b else reply_for k replies

  abbrev pub replies_for : Text → List (Text × Bytes) → ℕ
  replies_for k [] = 0
  replies_for k ((j, b) ∷ replies) = (if text_eq j k then 1 else 0) + replies_for k replies

  abbrev pub at_most_one : Option Bytes → ℕ
  at_most_one none = 0
  at_most_one (some b) = 1

  no_reply :
      (intersects : Text → Bool) (k : Text) (m : List (Text × Sample Bytes))
      → Keyed m
      → find k m ≡ none
      → (reply_for k (qbl_handler intersects m) ≡ none)
        × (replies_for k (qbl_handler intersects m) ≡ 0)
  unfolding qbl_handler
  no_reply intersects k [] h gone = (refl, refl)
  no_reply intersects k ((j, v) ∷ m) h gone = ground (arith, no_reply intersects k m, h.0)

  replies-Keyed :
      (intersects : Text → Bool) (k : Text) (m : List (Text × Sample Bytes))
      → Keyed m
      → (reply_for k (qbl_handler intersects m)
          ≡ (if intersects k then payload_of (find k m) else none))
        × (replies_for k (qbl_handler intersects m)
            ≡ at_most_one (reply_for k (qbl_handler intersects m)))
  unfolding qbl_handler
  replies-Keyed intersects k [] h = ground arith
  replies-Keyed intersects k ((j, v) ∷ m) h = ground (
    arith,
    replies-Keyed intersects k m,
    no_reply intersects k m,
    text_eq_iff j k,
    ap intersects h.0,
  )

  -- After any samples, a query is answered, for each key that it intersects, by the payload that the
  -- last sample of that key put, if it did not delete it, and by nothing for any other key; no key is
  -- answered twice.
  pub qbl_handler-latest :
      (intersects : Text → Bool) (samples : List (Sample Bytes)) (k : Text)
      → let replies = qbl_handler intersects (stored samples) in
        (reply_for k replies ≡ (if intersects k then latest k samples else none))
        × (replies_for k replies ≡ at_most_one (reply_for k replies))
  qbl_handler-latest intersects samples k =
      let (answer, once) = replies-Keyed intersects k (stored samples) (stored-Keyed samples) in
      (answer ∙ rw (find-stored k samples), once)
