-- ===== src/Webrtc/Stream/Refine.antt =====
-- modules/webrtc/WebRtcStream.cc: a stream behaves as the book of its peer.
use aitt.Base.{
  false, sym, if◌then◌else◌, ◌==◌, ◌≡◌, ◌∙◌, refl, ap, Bool, true, List, [], ◌∷◌, ◌++◌, Option,
  none, some, ◌||◌, Text, text_eq, is_empty, Bool-cases, inl, inr, arith,
}
use aitt.Webrtc.Library.{Webrtc, add_ice_candidate, webrtc_set_remote_description}
use aitt.Webrtc.States.{NativeState, state_idle, state_playing, state_negotiating, state_other}
use aitt.Webrtc.Stream.{Stream, called, call_of}
use aitt.Webrtc.Stream.Peer.{
  is_negotiating_state, is_playing_state, is_redundant_candidate, set_remote_description,
  add_ice_candidate_from_message, set_peer_sdp, candidates_loop, set_peer_ice_candidates,
  set_peer_information, add_peer_information, update_peer_information,
}
use aitt.Webrtc.Stream.Events.{on_state_changed}
use aitt.Webrtc.Stream.Book
use aitt.Webrtc.Stream.Book.{Book, Operation, adds, updates, changes, mentioned}

module _ (lib : Webrtc) where
  unfoldable pub operate : Operation → Stream → Stream
  unfolding add_peer_information update_peer_information on_state_changed
  operate (adds state sdp candidates) s = (add_peer_information lib state sdp candidates s).0
  operate (updates state again candidates) s = update_peer_information lib state again candidates s
  operate (changes state) s = (on_state_changed lib state s).0

  unfoldable pub run : List Operation → Stream → Stream
  unfolding operate
  run [] s = s
  run (op ∷ ops) s = run ops (operate op s)

unfoldable pub book : Stream → Book
unfolding is_redundant_candidate
book s = record {
  handle = s.webrtc_handle;
  calls = s.calls;
  waiting = s.remote_description;
  known = λ t. is_redundant_candidate t s.stored_peer_ice_candidates;
}

redundant-append :
    (t c : Text) (stored : List Text)
    → is_redundant_candidate t (stored ++ c ∷ []) ≡ (is_redundant_candidate t stored || text_eq c t)
unfolding is_redundant_candidate
redundant-append t c [] = ground arith
redundant-append t c (d ∷ stored) = ground (arith, redundant-append t c stored)

is_empty-nil : (t : Text) → is_empty t ≡ true → t ≡ []
is_empty-nil [] e = refl
is_empty-nil (x ∷ t) e = ground arith

module _ (lib : Webrtc) where
  abbrev stored_one : Text → Stream → Stream
  stored_one c s = record (called (add_ice_candidate c) s) {
    stored_peer_ice_candidates = s.stored_peer_ice_candidates ++ c ∷ [];
  }

  -- What the library has after a candidate that it took.
  stored-known :
      (c : Text) (s : Stream)
      → book (stored_one c s) ≡ record (book (called (add_ice_candidate c) s)) {
        known = λ t. (book s).known t || text_eq c t;
      }
  unfolding book
  stored-known c s = λ i. record (book (called (add_ice_candidate c) s)) {
    known = λ t. redundant-append t c s.stored_peer_ice_candidates i;
  }

  loop-book :
      (cs : List Text) (s : Stream)
      → book (candidates_loop lib cs s).0 ≡ Book.offers lib cs (book s)
  unfolding book candidates_loop add_ice_candidate_from_message Book.offers Book.offer
  loop-book [] s = refl
  loop-book (c ∷ cs) s =
      let added = lib.returns s.calls (call_of s.webrtc_handle (add_ice_candidate c)) == 0 in
      elim (Bool-cases (is_redundant_candidate c s.stored_peer_ice_candidates)) [
        | inl r ↦ rw r (loop-book cs s)
        | inr r ↦ elim (Bool-cases added) [
          | inl a ↦
              rw (r, a) (loop-book cs (stored_one c s) ∙ ap (Book.offers lib cs) (stored-known c s))
          | inr a ↦ rw (r, a) (loop-book cs (called (add_ice_candidate c) s))
        ]
      ]

  sdp-book : (s : Stream) → book (set_peer_sdp lib s).0 ≡ Book.describe lib (book s)
  unfolding set_peer_sdp set_remote_description book Book.describe
  sdp-book s =
      let set =
        lib.returns s.calls
          (call_of s.webrtc_handle (webrtc_set_remote_description s.remote_description))
        == 0 in
      elim (Bool-cases (is_empty s.remote_description)) [
        | inl e ↦ rw e refl
        | inr e ↦ elim (Bool-cases set) [ inl a ↦ rw (e, a) refl | inr a ↦ rw (e, a) refl ]
      ]

  -- What `SetPeerSdp` returns is whether nothing waits, and it leaves the candidates as they are.
  sdp-facts :
      (s : Stream)
      → let r = set_peer_sdp lib s in
        (r.1 ≡ is_empty r.0.remote_description) × (r.0.peer_ice_candidates ≡ s.peer_ice_candidates)
  unfolding set_peer_sdp set_remote_description
  sdp-facts s =
      let set =
        lib.returns s.calls
          (call_of s.webrtc_handle (webrtc_set_remote_description s.remote_description))
        == 0 in
      elim (Bool-cases (is_empty s.remote_description)) [
        | inl e ↦ rw (e, e) (refl, refl)
        | inr e ↦ elim (Bool-cases set) [
          | inl a ↦ rw (e, a) (refl, refl)
          | inr a ↦ rw (e, a) (sym e, refl)
        ]
      ]

  -- The candidates, if nothing waits.
  abbrev finish : List Text → Book → Book
  finish cs b = if is_empty b.waiting then Book.offers lib cs b else b

  candidates-book :
      (r : Stream × Bool)
      → r.1 ≡ is_empty r.0.remote_description
      → book (if r.1 then set_peer_ice_candidates lib r.0 else (r.0, false)).0
        ≡ finish r.0.peer_ice_candidates (book r.0)
  unfolding set_peer_ice_candidates book
  candidates-book (s, true) e = rw (sym e) (loop-book s.peer_ice_candidates s)
  candidates-book (s, false) e = rw (sym e) refl

  information-book :
      (s : Stream)
      → book (set_peer_information lib s).0 ≡ Book.deliver lib s.peer_ice_candidates (book s)
  unfolding set_peer_information Book.deliver
  information-book s =
      let r = set_peer_sdp lib s in
      let f = sdp-facts s in
      candidates-book r f.0
      ∙ (ap (λ cs. finish cs (book r.0)) f.1 ∙ ap (finish s.peer_ice_candidates) (sdp-book s))

  operate-adds :
      (state : Option NativeState) (sdp : Text) (cs : List Text) (s : Stream)
      → book (operate lib (adds state sdp cs) s) ≡ Book.operate lib (adds state sdp cs) (book s)
  unfolding operate Book.operate add_peer_information is_negotiating_state book
  operate-adds none sdp cs s = refl
  operate-adds (some state_negotiating) sdp cs s =
      information-book (record s { remote_description = sdp; peer_ice_candidates = cs })
  operate-adds (some state_idle) sdp cs s = refl
  operate-adds (some state_playing) sdp cs s = refl
  operate-adds (some state_other) sdp cs s = refl

  updated :
      (again : Option NativeState) (cs : List Text) (s : Stream)
      → book (update_peer_information lib none again cs s)
        ≡ Book.operate lib (updates none again cs) (book s)
  unfolding Book.operate update_peer_information is_negotiating_state is_playing_state book
  updated none cs s = refl
  updated (some state_negotiating) cs s = information-book (record s { peer_ice_candidates = cs })
  updated (some state_idle) cs s = refl
  updated (some state_playing) cs s = refl
  updated (some state_other) cs s = refl

  operate-updates :
      (state again : Option NativeState) (cs : List Text) (s : Stream)
      → book (operate lib (updates state again cs) s)
        ≡ Book.operate lib (updates state again cs) (book s)
  unfolding operate Book.operate update_peer_information is_playing_state book
      is_redundant_candidate
  operate-updates none again cs s = updated again cs s
  operate-updates (some state_playing) again cs s = refl
  operate-updates (some state_negotiating) again cs s = updated again cs s
  operate-updates (some state_idle) again cs s = updated again cs s
  operate-updates (some state_other) again cs s = updated again cs s

  operate-changes :
      (state : NativeState) (s : Stream)
      → book (operate lib (changes state) s) ≡ Book.operate lib (changes state) (book s)
  unfolding operate Book.operate on_state_changed is_negotiating_state
  operate-changes state_negotiating s = sdp-book s
  operate-changes state_idle s = refl
  operate-changes state_playing s = refl
  operate-changes state_other s = refl

  operate-book :
      (op : Operation) (s : Stream) → book (operate lib op s) ≡ Book.operate lib op (book s)
  operate-book (adds state sdp cs) s = operate-adds state sdp cs s
  operate-book (updates state again cs) s = operate-updates state again cs s
  operate-book (changes state) s = operate-changes state s

  -- Whatever the peer sends, however the state of the library changes in between, and whatever the
  -- library answers, a stream calls the library as the book does, and has the candidates and the
  -- waiting description of the book: no candidate is given while a description waits; one that was
  -- mentioned in a delivered message is given when the library does not have it, and again at each
  -- mention after a refusal; those that it took are kept until a message during play, and no other;
  -- the description is given again at each chance until it is taken.
  pub run_refines :
      (ops : List Operation) (s : Stream) → book (run lib ops s) ≡ Book.run lib ops (book s)
  unfolding run Book.run
  run_refines [] s = refl
  run_refines (op ∷ ops) s =
      run_refines ops (operate lib op s) ∙ ap (Book.run lib ops) (operate-book op s)
