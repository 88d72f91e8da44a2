-- ===== src/Flex.antt =====
-- FlexBuffers, as modules/tcp/Module.cc, common/AittDiscovery.cc and src/MQDiscoveryHandler.cc use
-- it. The library is not part of the repository: a buffer is what `Builder` makes of a map or a
-- vector, and what `GetRoot` reads of it is given by the functions of a record.
use aitt.Base.{
  ℕ, ◌≡◌, ◌≢◌, Bool, true, false, List, [], ◌∷◌, Option, Text, text_eq, not, ◌&&◌, lookup, insert,
  some, ◌%◌, ◌<◌, ◌^◌, ℤ, pos, text_key, if◌then◌else◌,
}

-- An element of a vector.
pub data Item : Type 0 where
  num : ℕ → Item
  text : Text → Item
  bytes : Text → Item

-- What stands at a key of a map: a string, an unsigned number, a truth value, a blob, a vector or
-- a number with its sign.
pub data Field : Type 0 where
  str : Text → Field
  uint : ℕ → Field
  boolean : Bool → Field
  blob : Text → Field
  vector : List Item → Field
  int : ℤ → Field

pub record Flexbuffers : Type 0 where
  -- `Builder::Map`, `Finish` and `GetBuffer`.
  pub build_map : List (Text × Field) → Text
  -- `GetRoot(buffer).AsMap()[key]`: `none` where there is no such key.
  pub read_field : Text → Text → Option Field
  -- `Builder::Vector` and `GetRoot(buffer).AsVector()`.
  pub build_vector : List Item → Text
  pub read_vector : Text → List Item
  -- `GetRoot(buffer).AsMap().Keys()`
  pub read_keys : Text → List Text
  -- `AsString()`, `AsVector()`, `AsInt64()`, `AsUInt16()` and `AsBlob()`, which give an empty value, or convert,
  -- where there is something else or nothing.
  pub as_string : Option Field → Text
  pub as_vector : Option Field → List Item
  pub as_blob_field : Option Field → Text
  pub as_int64 : Option Field → ℤ
  pub as_uint16 : Option Item → ℕ
  pub as_blob : Option Item → Text
  pub as_text : Item → Text
  -- `Builder::String`, and `IsString`, `IsVector`, `IsMap` and `ToString` of the root.
  pub build_string : Text → Text
  pub is_string : Text → Bool
  pub is_vector : Text → Bool
  pub is_map : Text → Bool
  pub root_string : Text → Text

unfoldable pub has_key : Text → List (Text × Field) → Bool
has_key k [] = not true
has_key k ((j, f) ∷ fs) = if text_eq j k then true else has_key k fs

unfoldable pub unique_keys : List (Text × Field) → Bool
unfolding has_key
unique_keys [] = true
unique_keys ((k, f) ∷ fs) = not (has_key k fs) && unique_keys fs

abbrev pub key_list : List (Text × Field) → List Text
key_list [] = []
key_list ((k, f) ∷ fs) = k ∷ key_list fs

-- The entries in the order of their keys.
unfoldable pub sorted : List (Text × Field) → List (Text × Field)
sorted [] = []
sorted ((k, f) ∷ fs) = insert k f (sorted fs)

-- A map with no key twice is read as it was built, and so are a vector and a string. A buffer is not
-- empty. A map counts as a vector too.
pub record IsFlexbuffers (flex : Flexbuffers) : Type 0 where
  pub field-map :
      (fs : List (Text × Field)) (k : Text)
      → unique_keys fs ≡ true
      → flex.read_field (flex.build_map fs) k ≡ lookup k fs
  pub map-full : (fs : List (Text × Field)) → flex.build_map fs ≢ []
  pub vector-vector : (items : List Item) → flex.read_vector (flex.build_vector items) ≡ items
  pub keys-map :
      (fs : List (Text × Field))
      → unique_keys fs ≡ true
      → flex.read_keys (flex.build_map fs) ≡ key_list (sorted fs)
  pub string-str : (t : Text) → flex.as_string (some (str t)) ≡ t
  pub vector-field : (items : List Item) → flex.as_vector (some (vector items)) ≡ items
  pub blob-field : (t : Text) → flex.as_blob_field (some (blob t)) ≡ t
  pub int64-int : (n : ℕ) → n < 2 ^ 63 → flex.as_int64 (some (int (pos n))) ≡ pos n
  pub uint16-num : (n : ℕ) → flex.as_uint16 (some (num n)) ≡ n % 65536
  pub blob-bytes : (t : Text) → flex.as_blob (some (bytes t)) ≡ t
  pub text-text : (t : Text) → flex.as_text (text t) ≡ t
  pub string-string : (t : Text) → flex.root_string (flex.build_string t) ≡ t
  pub string-IsString : (t : Text) → flex.is_string (flex.build_string t) ≡ true
  pub map-IsMap : (fs : List (Text × Field)) → flex.is_map (flex.build_map fs) ≡ true
  pub map-IsVector : (fs : List (Text × Field)) → flex.is_vector (flex.build_map fs) ≡ true
  pub map-not_string : (fs : List (Text × Field)) → flex.is_string (flex.build_map fs) ≡ false
