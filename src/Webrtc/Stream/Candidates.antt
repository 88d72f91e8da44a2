-- ===== src/Webrtc/Stream/Candidates.antt =====
-- modules/webrtc/WebRtcStream.cc: which candidates of the peer the library is given, and how often.
use aitt.Base.{
  ◌==◌, ◌≡◌, ◌∙◌, refl, sym, ap, true, false, List, [], ◌∷◌, ◌++◌, append_assoc, append-nil, Option,
  none, some, if◌then◌else◌, ◌||◌, Text, text_eq, Bool-cases, inl, inr, arith,
}
use aitt.Webrtc.Library.{Call, Request, Webrtc, add_ice_candidate}
use aitt.Webrtc.Stream.{Stream, called, call_of}
use aitt.Webrtc.Stream.Book.{mentioned}
use aitt.Webrtc.Stream.Peer.{
  is_redundant_candidate, add_ice_candidate_from_message, candidates_loop,
}

candidate_of : Request → Option Text
candidate_of (add_ice_candidate t) = some t
candidate_of _ = none

-- The candidates that the library has taken, the newest first.
unfoldable pub accepted : Webrtc → List Call → List Text
unfolding candidate_of
accepted lib [] = []
accepted lib (c ∷ cs) =
    let rest = accepted lib cs in
    elim (candidate_of c.request) [
      | some t ↦ if lib.returns cs c == 0 then t ∷ rest else rest
      | none ↦ rest
    ]

unfoldable pub IsDistinct : List Text → Type 0
IsDistinct [] = Unit {0}
IsDistinct (t ∷ ts) = (mentioned t ts ≡ false) × IsDistinct ts

-- The first list in reverse order, in front of the second.
abbrev pub onto : List Text → List Text → List Text
onto [] ys = ys
onto (x ∷ xs) ys = onto xs (x ∷ ys)

mentioned-append :
    (t c : Text) (ts : List Text) → mentioned t (ts ++ c ∷ []) ≡ (mentioned t ts || text_eq t c)
mentioned-append t c [] = ground arith
mentioned-append t c (d ∷ ts) = ground (arith, mentioned-append t c ts)

IsDistinct-append :
    (c : Text) (ts : List Text)
    → IsDistinct ts
    → is_redundant_candidate c ts ≡ false
    → IsDistinct (ts ++ c ∷ [])
unfolding IsDistinct is_redundant_candidate
IsDistinct-append c [] d r = (refl, tt)
IsDistinct-append c (t ∷ ts) d r = (
  (let m = mentioned-append t c ts in let h = d.0 in ground arith),
  IsDistinct-append c ts d.1 (ground arith),
)

module _ (lib : Webrtc) (c : Text) (s : Stream) where
  taken :
      (lib.returns s.calls (call_of s.webrtc_handle (add_ice_candidate c)) == 0) ≡ true
      → accepted lib (called (add_ice_candidate c) s).calls ≡ c ∷ accepted lib s.calls
  unfolding accepted candidate_of
  taken a = rw a refl

  refused :
      (lib.returns s.calls (call_of s.webrtc_handle (add_ice_candidate c)) == 0) ≡ false
      → accepted lib (called (add_ice_candidate c) s).calls ≡ accepted lib s.calls
  unfolding accepted candidate_of
  refused a = rw a refl

-- The candidates are without repetition after the loop when they were before. Those that it adds
-- behind the old ones are those that the library took from it, in their order: no candidate that the
-- stream has is given again.
pub candidates_loop-accepted :
    (lib : Webrtc) (cs : List Text) (s : Stream)
    → IsDistinct s.stored_peer_ice_candidates
    → let s' = (candidates_loop lib cs s).0 in
      IsDistinct s'.stored_peer_ice_candidates
      × ((new : List Text) × ((s'.stored_peer_ice_candidates ≡ s.stored_peer_ice_candidates ++ new)
            × (accepted lib s'.calls ≡ onto new (accepted lib s.calls))))
unfolding candidates_loop add_ice_candidate_from_message
candidates_loop-accepted lib [] s d =
    (d, ([], (sym (append-nil s.stored_peer_ice_candidates), refl)))
candidates_loop-accepted lib (c ∷ cs) s d =
    let stored = s.stored_peer_ice_candidates in
    elim (Bool-cases (is_redundant_candidate c stored)) [
      | inl r ↦ rw r (candidates_loop-accepted lib cs s d)
      | inr r ↦
          elim (Bool-cases
            (lib.returns s.calls (call_of s.webrtc_handle (add_ice_candidate c)) == 0)) [
              | inl a ↦
                  let s1 : Stream = record (called (add_ice_candidate c) s) {
                    stored_peer_ice_candidates = stored ++ c ∷ [];
                  } in
                  let (dist, (new, (e, g))) =
                    candidates_loop-accepted lib cs s1 (IsDistinct-append c stored d r) in
                  rw (r, a)
                    (
                      dist,
                      (
                        c ∷ new,
                        (e ∙ append_assoc stored (c ∷ []) new, g ∙ ap (onto new) (taken lib c s a)),
                      ),
                    )
              | inr a ↦
                  let s1 = called (add_ice_candidate c) s in
                  let (dist, (new, (e, g))) = candidates_loop-accepted lib cs s1 d in
                  rw (r, a) (dist, (new, (e, g ∙ ap (onto new) (refused lib c s a))))
            ]
    ]
