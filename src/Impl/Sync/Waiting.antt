-- ===== src/Impl/Sync/Waiting.antt =====
-- src/AITTImpl.cc: how `PublishWithReplySync` comes back.
use aitt.Base.{
  ℕ, suc, ◌%◌, ◌==◌, ◌≡◌, ◌∙◌, append-nil, refl, sym, ap, Bool, true, false, List, [], ◌∷◌, ◌++◌,
  if◌then◌else◌, ltb, length, Text, number_key, Bool-cases, inl, inr, arith,
}
use aitt.Types.{mqtt, Result, ok, err, message_max}
use aitt.Flex.{Flexbuffers}
use aitt.MqDiscovery.{MqDiscovery}
use aitt.Msg.{AittMsg, set_id}
use aitt.Loop.{Loop}
use aitt.Impl.{Transport, Client, subscribe_mq, reply_topic}
use aitt.Impl.Sync.{
  Happens, replied, expired, Sync, SyncEnd, sync_loop, handle_timeout, sync_run, sync_end, info_of,
  asking, requested, sync_asked, publish_with_reply_sync,
}
use aitt.Impl.Sync.Steps.{
  outcome, heard, released, waiting_at, seen, seen_after, rearmed, partial_reply, Ended, Ended-cons,
  seen_partial, seen_stale, expired_timer, Ended-step, final-Ended, due-Ended,
}

module _ {M T : Type 0} (flex : Flexbuffers) (published : MqDiscovery → Bool)
    (mqtt_ops : Transport M) (tcp_ops : Transport T) (created : Loop → Bool)
    (made : (q : Loop) → created q ≡ true) where
  nothing-Ended :
      (a t now : ℕ) (c : Client M T) (told : List AittMsg)
      → Ended flex published mqtt_ops tcp_ops created made
          (c, told)
          (seen a now [])
          a
          (sync_run flex published mqtt_ops tcp_ops created a t []
            (waiting_at flex published mqtt_ops tcp_ops created made t now c told))
  unfolding Ended outcome heard sync_run
  nothing-Ended a t now c told = (refl, (sym (append-nil told), refl))

  waiting_at-Ended :
      (a t k : ℕ) (vs : List Happens) (c : Client M T) (told : List AittMsg)
      → Ended flex published mqtt_ops tcp_ops created made
          (c, told)
          (seen a (suc k) vs)
          a
          (sync_run flex published mqtt_ops tcp_ops created a
            (suc t)
            vs
            (waiting_at flex published mqtt_ops tcp_ops created made (suc t) (suc k) c told))
  waiting_at-Ended a t k [] c told = nothing-Ended a (suc t) (suc k) c told
  waiting_at-Ended a t k (replied m ∷ vs) c told = elim (Bool-cases m.end_sequence) [
    | inl e ↦
        final-Ended flex published mqtt_ops tcp_ops created made a (suc t) (suc k) vs m c told e
    | inr e ↦
        Ended-step flex published mqtt_ops tcp_ops created made a (suc t) (suc k) (replied m) vs c
          told (seen_after (set_id a m) (seen a (suc (suc k)) vs))
          (waiting_at flex published mqtt_ops tcp_ops created made (suc t) (suc (suc k)) c
            (told ++ set_id a m ∷ []))
          (seen_partial a (suc k) m vs e)
          (partial_reply flex published mqtt_ops tcp_ops created made a t k m c told e)
          (Ended-cons flex published mqtt_ops tcp_ops created made a c told
            (heard a (suc (suc k)) vs) (set_id a m) (outcome (suc (suc k)) vs) _
            (waiting_at-Ended a t (suc k) vs c (told ++ set_id a m ∷ [])))
  ]
  waiting_at-Ended a t k (expired id ∷ vs) c told = elim (Bool-cases (id == suc k)) [
    | inl e ↦
        due-Ended flex published mqtt_ops tcp_ops created made a (suc t) (suc k) id vs c told e
    | inr e ↦
        Ended-step flex published mqtt_ops tcp_ops created made a (suc t) (suc k) (expired id) vs c
          told (seen a (suc k) vs)
          (waiting_at flex published mqtt_ops tcp_ops created made (suc t) (suc k) c told)
          (seen_stale a (suc k) id vs e)
          (expired_timer flex published mqtt_ops tcp_ops created made a (suc t) (suc k) id c told
            false e)
          (waiting_at-Ended a t k vs c told)
  ]

  -- What is expected of a call whose request has given `r`, with the client that is left by it.
  unfoldable pub expected :
      (a identifier : ℕ)
      → List Happens
      → Client M T × Result (Sync M T)
      → Client M T × Result (List AittMsg × SyncEnd)
  expected a identifier vs (c, err e) = (c, err e)
  expected a identifier vs (c, ok s) = (
    released flex published mqtt_ops tcp_ops created made a (outcome identifier vs) c,
    ok (heard a identifier vs, outcome identifier vs),
  )

  finished :
      (a t : ℕ)
      → List Happens
      → Client M T × Result (Sync M T)
      → Client M T × Result (List AittMsg × SyncEnd)
  finished a t vs (c, err e) = (c, err e)
  finished a t vs (c, ok s) =
      let s' = sync_run flex published mqtt_ops tcp_ops created a t vs s in
      (s'.client, ok (s'.told, sync_end s'))

  finished-Ended :
      (a t : ℕ) (vs : List Happens) (c c' : Client M T) (s : Sync M T) (y : List AittMsg × SyncEnd)
      → Ended flex published mqtt_ops tcp_ops created made
          (c, [])
          y
          a
          (sync_run flex published mqtt_ops tcp_ops created a t vs s)
      → finished a t vs (c', ok s)
        ≡ (released flex published mqtt_ops tcp_ops created made a y.1 c, ok y)
  unfolding Ended finished
  finished-Ended a t vs c c' s y (p, (q, r)) = rw (p, q, r) refl

  asking-expected :
      (a t k : ℕ) (vs : List Happens) (r : Client M T × Result (Unit {0}))
      → let asked = asking flex published mqtt_ops tcp_ops created (suc t) (suc k) r in
        finished a (suc t) vs asked ≡ expected a (suc k) vs asked
  unfolding expected finished
  asking-expected a t k vs (c, err e) = refl
  asking-expected a t k vs (c, ok u) =
      let z : (suc t == 0) ≡ false = ground arith in
      let idle : Sync M T = record {
        client = c;
        loop = sync_loop (suc k);
        timeout_id = 0;
        is_timeout = false;
        told = [];
      } in
      let armed = handle_timeout flex published mqtt_ops tcp_ops created (suc t) idle in
      ap (λ b. finished a (suc t) vs (c, ok (if b then idle else armed))) z
      ∙ (ap (λ s. finished a (suc t) vs (c, ok s))
            (rearmed flex published mqtt_ops tcp_ops created made t k c [] 0)
          ∙ finished-Ended a (suc t) vs c c
              (waiting_at flex published mqtt_ops tcp_ops created made (suc t) (suc k) c [])
              (seen a (suc k) vs) (waiting_at-Ended a t k vs c []))

  requested-expected :
      (a t k : ℕ) (vs : List Happens) (topic payload correlation reply : Text)
      (r : Client M T × Result ℕ)
      → let asked =
          requested flex published mqtt_ops tcp_ops created a
            (suc t)
            (suc k)
            topic
            payload
            correlation
            reply
            r in
        finished a (suc t) vs asked ≡ expected a (suc k) vs asked
  unfolding expected finished
  requested-expected a t k vs topic payload correlation reply (c, err e) = refl
  requested-expected a t k vs topic payload correlation reply (c, ok h) =
      let c' = record c { subscribed_list = c.subscribed_list ++ info_of a h ∷ [] } in
      let (q, r) = mqtt_ops.publish_with_reply topic payload reply correlation c'.mq in
      asking-expected a t k vs (record c' { mq = q }, r)

  -- A call over MQTT, with a timeout, is what is expected of its request, when the timers can be made
  -- and the payload is not too long: the end and the replies told are read off what happens.
  pub publish_with_reply_sync-expected :
      (a t k : ℕ) (vs : List Happens) (topic payload correlation : Text) (c : Client M T)
      → ltb message_max (length payload) ≡ false
      → publish_with_reply_sync flex published mqtt_ops tcp_ops created a
          (suc t)
          (suc k)
          vs
          topic
          payload
          mqtt
          correlation
          c
        ≡ expected a (suc k) vs (
            sync_asked flex published mqtt_ops tcp_ops created a
              (suc t)
              (suc k)
              topic
              payload
              correlation
              c)
  unfolding publish_with_reply_sync sync_asked finished
  publish_with_reply_sync-expected a t k vs topic payload correlation c h =
      let reply = reply_topic topic c.reply_id in
      rw h (
        requested-expected a t k vs topic payload correlation reply (
          subscribe_mq flex published mqtt_ops tcp_ops reply
            (record c { reply_id = suc c.reply_id % 65536 })))
