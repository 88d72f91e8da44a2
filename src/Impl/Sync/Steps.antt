-- ===== src/Impl/Sync/Steps.antt =====
-- src/AITTImpl.cc: the steps of `PublishWithReplySync` while it waits, and what is read off them.
use aitt.Base.{
  ℕ, suc, ◌==◌, ◌≡◌, ◌∙◌, append-nil, append_assoc, subst, refl, sym, ap, Bool, true, false, List,
  [], ◌∷◌, ◌++◌, none, some, if◌then◌else◌, lookup, insert, erase, number_key, ==_iff, arith,
}
use aitt.Flex.{Flexbuffers}
use aitt.MqDiscovery.{MqDiscovery}
use aitt.Msg.{AittMsg, set_id}
use aitt.Loop.{Loop, Entry, quit_loop, add_timeout, remove_timeout}
use aitt.Impl.{Transport, Client, unsubscribe}
use aitt.Impl.Sync.{
  Happens, replied, expired, Sync, SyncEnd, timed_out, answered, waits, sync_loop, timeout_entry,
  handle_timeout, timeout_fired, reply_read, sync_step, sync_run, sync_end,
}

-- How it ends, read off what happens: the last reply ends it, and a timer only if it is the one that
-- was set last; each other reply sets the next one.
unfoldable pub outcome : (now : ℕ) → List Happens → SyncEnd
outcome now [] = waits
outcome now (replied m ∷ vs) =
    let rest = outcome (suc now) vs in if m.end_sequence then answered else rest
outcome now (expired id ∷ vs) = let rest = outcome now vs in if id == now then timed_out else rest

-- The messages that are read until then.
unfoldable pub heard : (a now : ℕ) → List Happens → List AittMsg
unfolding set_id
heard a now [] = []
heard a now (replied m ∷ vs) =
    let rest = heard a (suc now) vs in set_id a m ∷ (if m.end_sequence then [] else rest)
heard a now (expired id ∷ vs) = let rest = heard a now vs in if id == now then [] else rest

-- What is read off, with the end.
abbrev pub seen : ℕ → ℕ → List Happens → List AittMsg × SyncEnd
seen a now vs = (heard a now vs, outcome now vs)

abbrev pub seen_after : AittMsg → List AittMsg × SyncEnd → List AittMsg × SyncEnd
seen_after m (more, end) = (m ∷ more, end)

pub seen_partial :
    (a now : ℕ) (m : AittMsg) (vs : List Happens)
    → m.end_sequence ≡ false
    → seen a now (replied m ∷ vs) ≡ seen_after (set_id a m) (seen a (suc now) vs)
unfolding heard outcome set_id
seen_partial a now m vs e = rw e refl

pub seen_final :
    (a now : ℕ) (m : AittMsg) (vs : List Happens)
    → m.end_sequence ≡ true
    → seen a now (replied m ∷ vs) ≡ seen_after (set_id a m) ([], answered)
unfolding heard outcome set_id
seen_final a now m vs e = rw e refl

pub seen_due :
    (a now id : ℕ) (vs : List Happens)
    → (id == now) ≡ true
    → ◌≡◌ {A = List AittMsg × SyncEnd} (seen a now (expired id ∷ vs)) ([], timed_out)
unfolding heard outcome
seen_due a now id vs e = rw e refl

pub seen_stale :
    (a now id : ℕ) (vs : List Happens)
    → (id == now) ≡ false
    → seen a now (expired id ∷ vs) ≡ seen a now vs
unfolding heard outcome
seen_stale a now id vs e = rw e refl

module _ {M T : Type 0} (flex : Flexbuffers) (published : MqDiscovery → Bool)
    (mqtt_ops : Transport M) (tcp_ops : Transport T) (created : Loop → Bool)
    (made : (q : Loop) → created q ≡ true) where
  -- What waits with the timer `now`.
  abbrev pub waiting_at : (timeout_ms now : ℕ) → Client M T → List AittMsg → Sync M T
  waiting_at timeout_ms now c told = record {
    client = c;
    loop = record (sync_loop (suc now)) { timeout_table = (now, timeout_entry timeout_ms) ∷ [] };
    timeout_id = now;
    is_timeout = false;
    told = told;
  }

  -- The client afterwards.
  abbrev pub released : ℕ → SyncEnd → Client M T → Client M T
  released a end c = elim end [
    | answered ↦ (unsubscribe flex published mqtt_ops tcp_ops a c).0
    | _ ↦ c
  ]

  erase_only : (k t : ℕ) → erase (suc k) ((suc k, timeout_entry t) ∷ []) ≡ []
  unfolding erase
  erase_only k t = ground arith

  -- A timer that is set in a loop that has none.
  pub rearmed :
      (t k : ℕ) (c : Client M T) (told : List AittMsg) (id : ℕ)
      → handle_timeout flex published mqtt_ops tcp_ops created (suc t) (record {
        client = c;
        loop = sync_loop (suc k);
        timeout_id = id;
        is_timeout = false;
        told = told;
      })
        ≡ waiting_at (suc t) (suc k) c told
  unfolding handle_timeout add_timeout insert
  rearmed t k c told id =
      let z : (suc t == 0) ≡ false = ground arith in rw (z, made (sync_loop (suc k))) refl

  pub partial_reply :
      (a t k : ℕ) (m : AittMsg) (c : Client M T) (told : List AittMsg)
      → m.end_sequence ≡ false
      → sync_step flex published mqtt_ops tcp_ops created a
          (suc t)
          (replied m)
          (waiting_at (suc t) (suc k) c told)
        ≡ waiting_at (suc t) (suc (suc k)) c (told ++ set_id a m ∷ [])
  unfolding sync_step reply_read set_id remove_timeout
  partial_reply a t k m c told e =
      let z : (suc k == 0) ≡ false = ground arith in
      let tell : Sync M T → Sync M T =
        λ s. record s { told = s.told ++ set_id a (record m { end_sequence = false }) ∷ [] } in
      rw (e, z, erase_only k (suc t)) (ap tell (rearmed t (suc k) c told (suc k)))

  sync_run-stopped :
      (a t : ℕ) (vs : List Happens) (s : Sync M T)
      → s.loop.running ≡ false
      → sync_run flex published mqtt_ops tcp_ops created a t vs s ≡ s
  unfolding sync_run
  sync_run-stopped a t [] s e = refl
  sync_run-stopped a t (v ∷ vs) s e = rw e refl

  -- How a run that began with a client and messages told has ended.
  unfoldable pub Ended : Client M T × List AittMsg → List AittMsg × SyncEnd → ℕ → Sync M T → Type 0
  Ended (c, told) (more, end) a s =
      (s.client ≡ released a end c) × ((s.told ≡ told ++ more) × (sync_end s ≡ end))

  pub Ended-stopped :
      (a t : ℕ) (vs : List Happens) (x : Client M T × List AittMsg) (y : List AittMsg × SyncEnd)
      (s : Sync M T)
      → s.loop.running ≡ false
      → Ended x y a s
      → Ended x y a (sync_run flex published mqtt_ops tcp_ops created a t vs s)
  Ended-stopped a t vs x y s e h = subst (Ended x y a) (sym (sync_run-stopped a t vs s e)) h

  pub Ended-cons :
      (a : ℕ) (c : Client M T) (told more : List AittMsg) (m : AittMsg) (end : SyncEnd)
      (s : Sync M T)
      → Ended (c, told ++ m ∷ []) (more, end) a s
      → Ended (c, told) (m ∷ more, end) a s
  unfolding Ended
  Ended-cons a c told more m end s (h, (i, j)) = (h, (i ∙ append_assoc told (m ∷ []) more, j))

  lookup_only :
      (id now : ℕ) (e : Entry) → lookup id ((now, e) ∷ []) ≡ (if id == now then some e else none)
  unfolding lookup
  lookup_only id now e = ground (arith, ==_iff id now, ==_iff now id)

  timer_found :
      (a t now id : ℕ) (c : Client M T) (told : List AittMsg) (b : Bool)
      → (id == now) ≡ b
      → let s = waiting_at t now c told in
        sync_step flex published mqtt_ops tcp_ops created a t (expired id) s
        ≡ (elim (if b then some (timeout_entry t) else none) as (λ x. Sync M T) [
          | none ↦ s
          | some e ↦ timeout_fired flex published mqtt_ops tcp_ops created id s
        ])
  unfolding sync_step
  timer_found a t now id c told b e =
      let s = waiting_at t now c told in
      ap
        (λ o. elim o as (λ x. Sync M T) [
          | none ↦ s
          | some e' ↦ timeout_fired flex published mqtt_ops tcp_ops created id s
        ])
        (lookup_only id now (timeout_entry t)
          ∙ ap (λ x. if x then some (timeout_entry t) else none) e)

  pub expired_timer :
      (a t now id : ℕ) (c : Client M T) (told : List AittMsg) (b : Bool)
      → (id == now) ≡ b
      → let s = waiting_at t now c told in
        sync_step flex published mqtt_ops tcp_ops created a t (expired id) s
        ≡ (if b then timeout_fired flex published mqtt_ops tcp_ops created id s else s)
  unfolding sync_step
  expired_timer a t now id c told true e = timer_found a t now id c told true e
  expired_timer a t now id c told false e = timer_found a t now id c told false e

  pub final_reply :
      (a t now : ℕ) (m : AittMsg) (c : Client M T) (told : List AittMsg)
      → m.end_sequence ≡ true
      → let s = waiting_at t now c told in
        sync_step flex published mqtt_ops tcp_ops created a t (replied m) s ≡ record s {
          client = (unsubscribe flex published mqtt_ops tcp_ops a c).0;
          loop = (quit_loop s.loop).0;
          told = told ++ set_id a m ∷ [];
        }
  unfolding sync_step reply_read set_id
  final_reply a t now m c told e = rw e refl

  -- A step of a run that waits, and what is read off it.
  pub Ended-step :
      (a t now : ℕ) (v : Happens) (vs : List Happens) (c : Client M T) (told : List AittMsg)
      (y : List AittMsg × SyncEnd) (s : Sync M T)
      → seen a now (v ∷ vs) ≡ y
      → sync_step flex published mqtt_ops tcp_ops created a t v (waiting_at t now c told) ≡ s
      → Ended (c, told) y a (sync_run flex published mqtt_ops tcp_ops created a t vs s)
      → Ended
          (c, told)
          (seen a now (v ∷ vs))
          a
          (sync_run flex published mqtt_ops tcp_ops created a t (v ∷ vs) (waiting_at t now c told))
  unfolding sync_run
  Ended-step a t now v vs c told y s f e h =
      subst
        (λ s'.
          Ended (c, told) (seen a now (v ∷ vs)) a
            (sync_run flex published mqtt_ops tcp_ops created a t vs s'))
        (sym e)
        (subst
          (λ y'. Ended (c, told) y' a (sync_run flex published mqtt_ops tcp_ops created a t vs s))
          (sym f) h)

  pub final-Ended :
      (a t now : ℕ) (vs : List Happens) (m : AittMsg) (c : Client M T) (told : List AittMsg)
      → m.end_sequence ≡ true
      → Ended
          (c, told)
          (seen a now (replied m ∷ vs))
          a
          (sync_run flex published mqtt_ops tcp_ops created a t
            (replied m ∷ vs)
            (waiting_at t now c told))
  unfolding Ended quit_loop
  final-Ended a t now vs m c told e =
      Ended-step a t now (replied m) vs c told (seen_after (set_id a m) ([], answered)) _
        (seen_final a now m vs e) (final_reply a t now m c told e)
        (Ended-stopped a t vs (c, told) (seen_after (set_id a m) ([], answered)) _ refl
          (refl, (refl, refl)))

  pub due-Ended :
      (a t now id : ℕ) (vs : List Happens) (c : Client M T) (told : List AittMsg)
      → (id == now) ≡ true
      → Ended
          (c, told)
          (seen a now (expired id ∷ vs))
          a
          (sync_run flex published mqtt_ops tcp_ops created a t
            (expired id ∷ vs)
            (waiting_at t now c told))
  unfolding Ended timeout_fired quit_loop
  due-Ended a t now id vs c told e =
      Ended-step a t now (expired id) vs c told ([], timed_out) _ (seen_due a now id vs e)
        (expired_timer a t now id c told true e)
        (Ended-stopped a t vs (c, told) ([], timed_out) _ refl
          (refl, (sym (append-nil told), refl)))
