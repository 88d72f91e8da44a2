-- ===== src/CApi/Session.antt =====
-- src/aitt_c.cc: the flag `connected` over the calls of a session.
use aitt.Base.{
  ℕ, ◌≡◌, ◌≢◌, refl, ap, ◌∙◌, Bool, true, false, List, [], ◌∷◌, Option, none, some, Text, All,
  arith,
}
use aitt.CApi.{
  Code, not_ready, Handle, connect_full, disconnect, publish_full, publish_with_reply,
  subscribe_full, unsubscribe,
}

-- A call of one of the functions, with its handle.
pub data Operation : Type 0 where
  connecting : (valid_ip : Text → Bool) → (returns : Bool) → Option Text → Operation
  disconnecting : (returns : Bool) → Operation
  publishing : (returns : Bool) → Option Text → Option Text → ℕ → ℕ → Operation
  asking : (returns : Bool) → Option Text → Option Text → ℕ → ℕ → Option Text → Option ℕ → Operation
  subscribing : (returns : Bool) → Option Text → Option ℕ → ℕ → ℕ → Option ℕ → Operation
  unsubscribing : (returns : Bool) → Option ℕ → Operation

unfoldable pub perform : Operation → Handle → Handle × Code
unfolding connect_full disconnect publish_full publish_with_reply subscribe_full unsubscribe
perform (connecting v r host) h = connect_full v r host h
perform (disconnecting r) h = disconnect r h
perform (publishing r t m p q) h = publish_full r t m p q h
perform (asking r t m p q c f) h = publish_with_reply r t m p q c f h
perform (subscribing r t f p q s) h = subscribe_full r t f p q s h
perform (unsubscribing r s) h = unsubscribe r s h

-- The codes that a session returns.
unfoldable pub answers : List Operation → Handle → List Code
unfolding perform
answers [] h = []
answers (o ∷ os) h = (perform o h).1 ∷ answers os (perform o h).0

unfoldable pub after : List Operation → Handle → Handle
unfolding perform
after [] h = h
after (o ∷ os) h = after os (perform o h).0

abbrev pub Stays : Handle → Handle × Code → Type 0
Stays h r = (r.1 ≢ not_ready) × (r.0.connected ≡ true) × (r.0.has_client ≡ true)

perform-Stays :
    (o : Operation) (h : Handle) → h.connected ≡ true → h.has_client ≡ true → Stays h (perform o h)
unfolding perform connect_full disconnect publish_full publish_with_reply subscribe_full unsubscribe
perform-Stays (connecting v r none) h c a = ground arith
perform-Stays (connecting v r (some t)) h c a = ground arith
perform-Stays (disconnecting r) h c a = ground arith
perform-Stays (publishing r none m p q) h c a = ground arith
perform-Stays (publishing r (some t) none p q) h c a = ground arith
perform-Stays (publishing r (some t) (some m) p q) h c a = ground arith
perform-Stays (asking r none m p q k f) h c a = ground arith
perform-Stays (asking r (some t) none p q k f) h c a = ground arith
perform-Stays (asking r (some t) (some m) p q k none) h c a = ground arith
perform-Stays (asking r (some t) (some m) p q none (some f)) h c a = ground arith
perform-Stays (asking r (some t) (some m) p q (some k) (some f)) h c a = ground arith
perform-Stays (subscribing r none f p q s) h c a = ground arith
perform-Stays (subscribing r (some t) none p q s) h c a = ground arith
perform-Stays (subscribing r (some t) (some f) p q none) h c a = ground arith
perform-Stays (subscribing r (some t) (some f) p q (some s)) h c a = ground arith
perform-Stays (unsubscribing r none) h c a = ground arith
perform-Stays (unsubscribing r (some s)) h c a = ground arith

-- Once a client is connected, no later call of the session is refused as not ready, whatever was
-- called in between: `aitt_disconnect` does not take the flag back.
pub answers-never_not_ready :
    (os : List Operation) (h : Handle)
    → h.connected ≡ true
    → h.has_client ≡ true
    → All (λ c. c ≢ not_ready) (answers os h)
unfolding answers
answers-never_not_ready [] h c a = tt
answers-never_not_ready (o ∷ os) h c a =
    let (n, c', a') = perform-Stays o h c a in (n, answers-never_not_ready os (perform o h).0 c' a')

-- A call that is no successful connection.
abbrev pub NoConnection : Operation → Type 0
NoConnection (connecting v r host) = ⊥
NoConnection o = Unit {0}

perform-unconnected :
    (o : Operation) (h : Handle) → NoConnection o → h.connected ≡ false → (perform o h).0 ≡ h
unfolding perform disconnect publish_full publish_with_reply subscribe_full unsubscribe
perform-unconnected (connecting v r host) h n c = absurd n
perform-unconnected (disconnecting r) h n c = ground arith
perform-unconnected (publishing r t m p q) h n c = ground arith
perform-unconnected (asking r t m p q k f) h n c = ground arith
perform-unconnected (subscribing r t f p q s) h n c = ground arith
perform-unconnected (unsubscribing r s) h n c = ground arith

-- Before a connection is asked for, no call of the session reaches the client, and the handle stays
-- as it is.
pub after-unconnected :
    (os : List Operation) (h : Handle) → All NoConnection os → h.connected ≡ false → after os h ≡ h
unfolding after
after-unconnected [] h n c = refl
after-unconnected (o ∷ os) h n c =
    let e = perform-unconnected o h n.0 c in ap (after os) e ∙ after-unconnected os h n.1 c
