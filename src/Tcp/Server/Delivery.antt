-- ===== src/Tcp/Server/Delivery.antt =====
-- modules/tcp/Module.cc: a message on its way, from `SendSizedData` of the sender, twice, to the
-- callbacks of the receiver.
use aitt.Base.{
  ℕ, ◌+◌, ◌≤◌, ◌≡◌, ◌≢◌, ◌∙◌, refl, ap, Bool, false, [], ◌∷◌, ◌++◌, append_assoc, none, some,
  if◌then◌else◌, length, List, map, Text, c_str, is_empty, is_empty-false, lookup, number_key, pos,
  IsInt, All, arith,
}
use aitt.Types.{message_max}
use aitt.Msg.{AittMsg}
use aitt.Flex.{Flexbuffers, IsFlexbuffers}
use aitt.Tcp.Stream.{Source}
use aitt.Tcp.Stream.Receiving.{Gives}
use aitt.Tcp.Framing.{Cipher, size_len, recv_sized, recv_sized_normal, returned}
use aitt.Tcp.Framing.Plain.{frame, recv_sized_normal-frame}
use aitt.Tcp.Info.{pack_fields, pack_msg_info}
use aitt.Tcp.Info.Laws.{as_received, unpack-pack_msg_info}
use aitt.Tcp.Server.{Callback, ListenInfo, Server}
use aitt.Tcp.Server.Receiving.{
  continue, Received, Handled, receive_data, receive_payload, get_msg_info, call_all, callbacks_of,
}

-- The two frames of one message.
abbrev pub packet : Flexbuffers → AittMsg → Bool → Text → Text
packet flex m is_reply payload = frame (pack_msg_info flex m is_reply) ++ frame payload

-- What one callback is told.
abbrev pub told : AittMsg → Text → Callback → Received
told info payload c = record {
  callback = c;
  info = info;
  msg = if is_empty payload then none else some payload;
  szmsg = pos (length payload);
}

call_all-map :
    (cs : List Callback) (info : AittMsg) (payload : Text)
    → call_all cs info (if is_empty payload then none else some payload) (pos (length payload))
      ≡ map (told info payload) cs
unfolding call_all
call_all-map [] info payload = refl
call_all-map (c ∷ cs) info payload =
    ap (λ r. told info payload c ∷ r) (call_all-map cs info payload)

module _ (flex : Flexbuffers) (law : IsFlexbuffers flex) (crypto : Cipher) (memory : ℕ → Text)
    (fd a : ℕ) (s : Server) (m : AittMsg) (is_reply : Bool) (payload : Text)
    (int : IsInt m.sequence)
    (named : c_str (if is_reply then m.reply_topic else m.topic) ≢ []) where
  written : pack_msg_info flex m is_reply ≢ []
  unfolding pack_msg_info
  written = law.map-full (pack_fields m is_reply)

  told_info :
      (n : ℕ)
      → get_msg_info flex false crypto memory fd
          (pos n)
          (if is_empty (pack_msg_info flex m is_reply)
            then none
            else some (pack_msg_info flex m is_reply))
          s
        ≡ (as_received m is_reply, s)
  unfolding get_msg_info
  told_info n =
      let e : is_empty (pack_msg_info flex m is_reply) ≡ false = is_empty-false _ written in
      let u = unpack-pack_msg_info flex m is_reply law int in ground arith

  two_reads :
      (source s1 s2 : Source)
      → recv_sized_normal memory source
        ≡ returned
            (pos (length (pack_msg_info flex m is_reply)))
            (if is_empty (pack_msg_info flex m is_reply)
              then none
              else some (pack_msg_info flex m is_reply))
            s1
      → recv_sized_normal memory s1
        ≡ returned (pos (length payload)) (if is_empty payload then none else some payload) s2
      → receive_data flex false crypto memory false fd a source s
        ≡ some (record {
          server = s;
          calls =
              call_all
                (callbacks_of (lookup a s.subscribe_table))
                (as_received m is_reply)
                (if is_empty payload then none else some payload)
                (pos (length payload));
          source = s2;
          answer = continue;
        })
  unfolding receive_data receive_payload recv_sized
  two_reads source s1 s2 r1 r2 =
      let t = told_info (length (pack_msg_info flex m is_reply)) in
      let e : is_empty (as_received m is_reply).topic ≡ false = is_empty-false _ named in
      ground arith

  -- A packet that stands on a plain line is handed to every callback of the listener of the watch,
  -- once and in their order, with what the sender told of it and with its payload; the state of the module
  -- does not change, and what follows on the line is left. The topic is not empty, the number is
  -- an `int`, the packed information and the payload are not longer than AITT_MESSAGE_MAX, the
  -- calls of `recv` do not fail, and there is one for each byte.
  pub receive_data-packet :
      (l : ListenInfo) (rest : Text) (source : Source)
      → lookup a s.subscribe_table ≡ some l
      → length (pack_msg_info flex m is_reply) ≤ message_max
      → length payload ≤ message_max
      → source.input ≡ packet flex m is_reply payload ++ rest
      → All Gives source.answers
      → size_len + (length (pack_msg_info flex m is_reply) + (size_len + length payload))
        ≤ length source.answers
      → (source' : Source) × (receive_data flex false crypto memory false fd a source s
          ≡ some (record {
            server = s;
            calls = map (told (as_received m is_reply) payload) l.cb_list;
            source = source';
            answer = continue;
          }))
        × (source'.input ≡ rest)
  receive_data-packet l rest source listens small small' here g many =
      let info = pack_msg_info flex m is_reply in
      let (s1, r1, i1, g1, h1) =
        recv_sized_normal-frame memory info (frame payload ++ rest) (size_len + length payload)
          source small (here ∙ append_assoc (frame info) (frame payload) rest) g many in
      let (s2, r2, i2, _, _) =
        recv_sized_normal-frame memory payload rest 0 s1 small' i1 g1 (omega (arith, h1)) in
      let calls =
        ap
          (λ o.
            call_all (callbacks_of o) (as_received m is_reply)
              (if is_empty payload then none else some payload) (pos (length payload)))
          listens
        ∙ call_all-map l.cb_list (as_received m is_reply) payload in
      (
        s2,
        two_reads source s1 s2 r1 r2
            ∙ ap
                (λ x. some (
                  let h : Handled = record {
                    server = s;
                    calls = x;
                    source = s2;
                    answer = continue;
                  } in
                  h))
                calls,
        i2,
      )
