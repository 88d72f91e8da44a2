-- ===== src/Rtsp/Meeting.antt =====
-- modules/rtsp/Module.cc: what a publisher announces, as a subscriber hears it.
use aitt.Base.{
  ◌∙◌, Bool-cases, inl, inr, ℕ, ◌<◌, ◌≡◌, ◌^◌, refl, ap, sym, Bool, true, false, List, [], ◌∷◌,
  some, Text, codes, length, lookup, insert, text_key, text_eq, text_lt, c_str, has_byte,
  c_str_self, pos, arith,
}
use aitt.Flex.{Flexbuffers, IsFlexbuffers, unique_keys, has_key, Field, str, int, sorted, key_list}
use aitt.Discovery.{join_network}
use aitt.Rtsp
use aitt.Rtsp.{Info, Player, get_complete_uri, set_player_uri}
use aitt.Rtsp.Module.{
  Module, stream_msg, state_key, read_info, heard, discovery_message_callback, start, update_state,
  announce, follow, state_is, ready, playing,
}

module _ (flex : Flexbuffers) (laws : IsFlexbuffers flex) where
  fields : Module → List (Text × Field)
  fields p =
      (state_key, int p.server_state)
      ∷ (codes "URI", str p.info.uri)
      ∷ (codes "ID", str p.info.id)
      ∷ (codes "Password", str p.info.password)
      ∷ []

  fields_unique : (p : Module) → unique_keys (fields p) ≡ true
  unfolding fields unique_keys has_key text_eq
  fields_unique p = refl

  field_of : (p : Module) (k : Text) → flex.read_field (stream_msg flex p) k ≡ lookup k (fields p)
  unfolding stream_msg fields
  field_of p k = laws.field-map (fields p) k (fields_unique p)

  sorted_keys :
      (p : Module)
      → key_list (sorted (fields p)) ≡ codes "ID" ∷ codes "Password" ∷ codes "URI" ∷ state_key ∷ []
  unfolding fields sorted insert text_lt text_eq
  sorted_keys p = refl

  keys_of : (p : Module) → length (flex.read_keys (stream_msg flex p)) ≡ 4
  unfolding stream_msg fields
  keys_of p = rw (laws.keys-map (fields p) (fields_unique p), sorted_keys p) (ground arith)

  text_field :
      (p : Module) (k t : Text)
      → lookup k (fields p) ≡ some (str t)
      → has_byte 0 t ≡ false
      → c_str (flex.as_string (flex.read_field (stream_msg flex p) k)) ≡ t
  text_field p k t e n =
      ap (λ f. c_str (flex.as_string f)) (field_of p k ∙ e)
      ∙ (ap c_str (laws.string-str t) ∙ c_str_self t n)

  read_info-stream_msg :
      (p : Module)
      → has_byte 0 p.info.uri ≡ false
      → has_byte 0 p.info.id ≡ false
      → has_byte 0 p.info.password ≡ false
      → read_info flex (stream_msg flex p) ≡ p.info
  unfolding read_info fields lookup text_eq
  read_info-stream_msg p a b c =
      rw
        (
          text_field p (codes "URI") p.info.uri refl a,
          text_field p (codes "ID") p.info.id refl b,
          text_field p (codes "Password") p.info.password refl c,
        )
        refl

  -- The message that a publisher announces, heard by a subscriber: it takes the state and the place
  -- that the publisher has, each in its own field. The state is not negative, and the texts have no
  -- NUL byte.
  heard-stream_msg :
      (lib : Player) (client_id : Text) (n : ℕ) (p m : Module)
      → p.server_state ≡ pos n
      → n < 2 ^ 63
      → has_byte 0 p.info.uri ≡ false
      → has_byte 0 p.info.id ≡ false
      → has_byte 0 p.info.password ≡ false
      → m.publisher ≡ false
      → discovery_message_callback lib flex client_id join_network (stream_msg flex p) m
        ≡ heard lib p.server_state p.info m
  unfolding discovery_message_callback text_eq fields lookup
  heard-stream_msg lib client_id n p m e h a b c s =
      let state_read : flex.as_int64 (flex.read_field (stream_msg flex p) state_key)
          ≡ p.server_state =
        ap flex.as_int64 (field_of p state_key)
        ∙ (ap (λ z. flex.as_int64 (some (int z))) e ∙ (laws.int64-int n h ∙ sym e)) in
      rw (s, keys_of p, state_read, read_info-stream_msg p a b c) refl

  started_publisher :
      (lib : Player) (published : Bool) (p : Module)
      → p.publisher ≡ true
      → let p' = (start lib flex published p).0 in (p'.server_state ≡ ready) × (p'.info ≡ p.info)
  unfolding start announce update_state
  started_publisher lib published p e = elim (Bool-cases p.state_cb) [
    | inl c ↦ rw (e, c) (refl, refl)
    | inr c ↦ rw (e, c) (refl, refl)
  ]

  heard_ready :
      (lib : Player) (info : Info) (uri : Text) (m : Module)
      → m.publisher ≡ false
      → m.client_state ≡ ready
      → get_complete_uri info ≡ some uri
      → let m' = (heard lib ready info m).0 in
        (m'.client_state ≡ playing) × (m'.client ≡ Rtsp.start lib (set_player_uri lib uri m.client))
  unfolding heard follow update_state state_is
  heard_ready lib info uri m s r u = elim (Bool-cases m.state_cb) [
    | inl c ↦ rw (s, u, r, c) (refl, refl)
    | inr c ↦ rw (s, u, r, c) (refl, refl)
  ]

  -- A publisher is started, and a subscriber that waits hears what it announced: the subscriber plays,
  -- and its client was given the complete place of the publisher and then started. The place takes
  -- the id and the password, and the texts have no NUL byte.
  pub start-heard :
      (lib : Player) (published : Bool) (client_id uri : Text) (p m : Module)
      → p.publisher ≡ true
      → m.publisher ≡ false
      → m.client_state ≡ ready
      → get_complete_uri p.info ≡ some uri
      → has_byte 0 p.info.uri ≡ false
      → has_byte 0 p.info.id ≡ false
      → has_byte 0 p.info.password ≡ false
      → let p' = (start lib flex published p).0 in
        let m' =
          (discovery_message_callback lib flex client_id join_network (stream_msg flex p') m).0 in
        (m'.client_state ≡ playing) × (m'.client ≡ Rtsp.start lib (set_player_uri lib uri m.client))
  start-heard lib published client_id uri p m t s r u a b c =
      let p' = (start lib flex published p).0 in
      let (e, i) = started_publisher lib published p t in
      let free =
        λ (f : Info → Text) (z : has_byte 0 (f p.info) ≡ false). ap (λ x. has_byte 0 (f x)) i ∙ z in
      let met =
        heard-stream_msg lib client_id 1 p' m e (omega arith) (free (λ x. x.uri) a)
          (free (λ x. x.id) b) (free (λ x. x.password) c) s in
      let same = met ∙ ap (λ x. heard lib x p'.info m) e ∙ ap (λ x. heard lib ready x m) i in
      let (f, g) = heard_ready lib p.info uri m s r u in
      (ap (λ x. x.0.client_state) same ∙ f, ap (λ x. x.0.client) same ∙ g)
