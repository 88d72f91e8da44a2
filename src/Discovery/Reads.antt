-- ===== src/Discovery/Reads.antt =====
-- common/AittDiscovery.cc: what `DiscoveryMessageCallback` makes of the message that
-- `PublishDiscoveryMsg` published.
use aitt.Base.{
  ℕ, suc, ◌≡◌, ◌≢◌, ◌∙◌, refl, ap, true, false, List, [], ◌∷◌, ◌++◌, none, some, ltb, length,
  is_empty, is_empty-false, Text, text_eq, text_eq_iff, text_eq_refl, has_byte, c_str, lookup, map,
  Bool-cases, inl, inr, if◌then◌else◌, insert, text_key, arith, IsOrdered, length-append,
  drop-length-append,
}
use aitt.Types.{discovery_topic_base}
use aitt.Flex.{Field, str, Flexbuffers, IsFlexbuffers, unique_keys, key_list, sorted}
use aitt.Discovery.{
  Discovery, DiscoveryCallback, Notice, status_key, join_network, blob_fields, discovery_msg,
  find_byte, client_id_of, leave_notices, key_notices, map_notices, discovery_message_callback,
}
use aitt.Discovery.Blobs.{
  Finds, lookup_other, lookup_first, Finds-blob_fields, sorted-blob_fields, has_key-lookup,
  unique-blob_fields, Finds-other,
}

find_byte-none : (c i : ℕ) (xs : Text) → has_byte c xs ≡ false → find_byte c i xs ≡ none
unfolding find_byte has_byte
find_byte-none c i [] h = refl
find_byte-none c i (x ∷ xs) h = ground (arith, find_byte-none c (suc i) xs)

pub client_id_of-base :
    (id : Text) → has_byte 47 id ≡ false → client_id_of (discovery_topic_base ++ id) ≡ some id
unfolding client_id_of
client_id_of-base id h =
    let base = discovery_topic_base in
    let d = drop-length-append base id in
    let l = length-append base id in
    let f = find_byte-none 47 (length base) id h in
    let e : ltb (length (base ++ id)) (length base) ≡ false = ground arith in rw (e, d, f) refl

-- The callbacks that a protocol has, in their order.
unfoldable pub callbacks_of : Text → List (ℕ × DiscoveryCallback) → List ℕ
callbacks_of protocol [] = []
callbacks_of protocol ((i, (p, cb)) ∷ callbacks) =
    let rest = callbacks_of protocol callbacks in if text_eq protocol p then cb ∷ rest else rest

-- That a client is connected, with the blob of a protocol.
abbrev joins : Text → Text → ℕ → Notice
joins client_id b cb = record {
  cb = cb;
  client_id = client_id;
  status = join_network;
  msg = some b;
}

-- What the callbacks are told of a map of blobs: those of each protocol are told its blob.
unfoldable pub told : Text → List (ℕ × DiscoveryCallback) → List (Text × Text) → List Notice
unfolding callbacks_of
told client_id callbacks [] = []
told client_id callbacks ((protocol, b) ∷ published) =
    map (joins client_id b) (callbacks_of protocol callbacks) ++ told client_id callbacks published

key_notices-map :
    (client_id protocol b : Text) (callbacks : List (ℕ × DiscoveryCallback))
    → key_notices client_id join_network protocol b callbacks
      ≡ map (joins client_id b) (callbacks_of protocol callbacks)
unfolding key_notices callbacks_of
key_notices-map client_id protocol b [] = refl
key_notices-map client_id protocol b ((i, (p, cb)) ∷ callbacks) =
    let ih = key_notices-map client_id protocol b callbacks in
    let same = text_eq_iff p protocol in
    let same' = text_eq_iff protocol p in
    elim (Bool-cases (text_eq p protocol)) [
      | inl e ↦
          let e' : text_eq protocol p ≡ true = ground arith in
          rw (e, e') (ap (λ r. joins client_id b cb ∷ r) ih)
      | inr e ↦ let e' : text_eq protocol p ≡ false = ground arith in rw (e, e') ih
    ]

module _ (flex : Flexbuffers) (f : IsFlexbuffers flex) (client_id msg : Text)
    (callbacks : List (ℕ × DiscoveryCallback)) where
  skip_status :
      (x : Field) (fs : List (Text × Field))
      → map_notices flex client_id join_network msg callbacks (key_list (insert status_key x fs))
        ≡ map_notices flex client_id join_network msg callbacks (key_list fs)
  unfolding map_notices insert
  skip_status x [] = ground (arith, text_eq_refl status_key)
  skip_status x ((j, y) ∷ fs) =
      ground (arith, text_eq_refl status_key, text_eq_iff j status_key, skip_status x fs)

  map_notices-told :
      (blobs : List (Text × Text))
      → Finds (flex.read_field msg) blobs
      → lookup status_key blobs ≡ none
      → map_notices flex client_id join_network msg callbacks (key_list (blob_fields blobs))
        ≡ told client_id callbacks blobs
  unfolding map_notices told Finds blob_fields lookup
  map_notices-told [] h n = refl
  map_notices-told ((k, b) ∷ blobs) h n =
      let e = h.0 in
      let r = f.blob-field b in
      let s : text_eq k status_key ≡ false = ground arith in
      let ih = map_notices-told blobs h.1 (ground arith) in
      let k' = key_notices-map client_id k b callbacks in rw (s, e, r, ih, k') refl

joined : c_str join_network ≡ join_network
unfolding c_str
joined = refl

module _ (flex : Flexbuffers) (topic id : Text) (d : Discovery) (e : client_id_of topic ≡ some id)
    (h : is_empty id ≡ false) where
  at_message :
      (m : Text)
      → discovery_message_callback flex topic (some m) d
        ≡ some (
            map_notices flex id
              (c_str (flex.as_string (flex.read_field m status_key)))
              m
              d.callbacks
              (flex.read_keys m))
  unfolding discovery_message_callback
  at_message m = ground arith

  at_leave : discovery_message_callback flex topic none d ≡ some (leave_notices id d.callbacks)
  unfolding discovery_message_callback
  at_leave = ground arith

module _ (flex : Flexbuffers) (f : IsFlexbuffers flex) (id : Text) (blobs : List (Text × Text))
    (d : Discovery) (o : IsOrdered blobs) (n : lookup status_key blobs ≡ none) where
  fields : List (Text × Field)
  fields = (status_key, str join_network) ∷ blob_fields blobs

  fields_unique : unique_keys fields ≡ true
  unfolding fields unique_keys
  fields_unique = ground (arith, unique-blob_fields blobs o, has_key-lookup status_key blobs n)

  read_status :
      c_str (flex.as_string (flex.read_field (discovery_msg flex blobs) status_key)) ≡ join_network
  unfolding discovery_msg fields
  read_status =
      ap (λ x. c_str (flex.as_string x))
        (f.field-map fields status_key fields_unique
          ∙ lookup_first status_key (str join_network) (blob_fields blobs))
      ∙ ap c_str (f.string-str join_network)
      ∙ joined

  Finds-all : Finds (flex.read_field (discovery_msg flex blobs)) blobs
  unfolding discovery_msg fields
  Finds-all =
      Finds-other blobs (λ k. lookup k (blob_fields blobs))
        (flex.read_field (flex.build_map fields))
        (λ k e.
          f.field-map fields k fields_unique
          ∙ lookup_other status_key (str join_network) (blob_fields blobs) k e)
        n (Finds-blob_fields blobs o)

  notices :
      map_notices flex id join_network
        (discovery_msg flex blobs)
        d.callbacks
        (flex.read_keys (discovery_msg flex blobs))
      ≡ told id d.callbacks blobs
  unfolding discovery_msg fields sorted
  notices =
      ap (map_notices flex id join_network (discovery_msg flex blobs) d.callbacks) (
        f.keys-map fields fields_unique
        ∙ ap (λ fs. key_list (insert status_key (str join_network) fs))
            (sorted-blob_fields blobs o))
      ∙ skip_status flex f id (discovery_msg flex blobs) d.callbacks (str join_network)
          (blob_fields blobs)
      ∙ map_notices-told flex f id (discovery_msg flex blobs) d.callbacks blobs Finds-all n

  -- The message that a client publishes, read by another one. The client's id is not empty and has no
  -- "/"; the published map is in order and has no protocol "status". Then every callback is told the
  -- client's id, that it is connected, and the blob of its protocol, in the order of the protocols,
  -- and nothing else.
  pub discovery_message_callback-discovery_msg :
      id ≢ []
      → has_byte 47 id ≡ false
      → discovery_message_callback flex
          (discovery_topic_base ++ id)
          (some (discovery_msg flex blobs))
          d
        ≡ some (told id d.callbacks blobs)
  discovery_message_callback-discovery_msg ne h =
      let m = discovery_msg flex blobs in
      at_message flex (discovery_topic_base ++ id) id d (client_id_of-base id h)
        (is_empty-false id ne) m
      ∙ ap (λ s. some (map_notices flex id s m d.callbacks (flex.read_keys m))) read_status
      ∙ ap some notices

-- The empty message of a client that stops, or its will, where the client's id is not empty and has
-- no "/": every callback is told that the client leaves.
pub discovery_message_callback-leave :
    (flex : Flexbuffers) (id : Text) (d : Discovery)
    → id ≢ []
    → has_byte 47 id ≡ false
    → discovery_message_callback flex (discovery_topic_base ++ id) none d
      ≡ some (leave_notices id d.callbacks)
discovery_message_callback-leave flex id d ne h =
    at_leave flex (discovery_topic_base ++ id) id d (client_id_of-base id h) (is_empty-false id ne)
