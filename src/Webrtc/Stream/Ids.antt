-- ===== src/Webrtc/Stream/Ids.antt =====
-- modules/webrtc/WebRtcStream.cc: what the peer says leaves the ids of a stream alone.
use aitt.Base.{
  ◌==◌, ◌≡◌, ◌∙◌, refl, List, [], ◌∷◌, ◌++◌, Option, Text, is_empty, Bool-cases, inl, inr,
}
use aitt.Webrtc.Library.{Webrtc, add_ice_candidate, webrtc_set_remote_description}
use aitt.Webrtc.States.{NativeState}
use aitt.Webrtc.Stream.{Stream, called, call_of}
use aitt.Webrtc.Stream.Peer.{
  is_negotiating_state, is_redundant_candidate, set_remote_description,
  add_ice_candidate_from_message, set_peer_sdp, candidates_loop, set_peer_ice_candidates,
  set_peer_information, add_peer_information,
}

-- The ids of both ends.
abbrev pub ids : Stream → Text × Text
ids s = (s.id, s.peer_id)

module _ (lib : Webrtc) where
  ids-loop : (cs : List Text) (s : Stream) → ids (candidates_loop lib cs s).0 ≡ ids s
  unfolding candidates_loop add_ice_candidate_from_message
  ids-loop [] s = refl
  ids-loop (c ∷ cs) s =
      let s' = called (add_ice_candidate c) s in
      elim (Bool-cases (is_redundant_candidate c s.stored_peer_ice_candidates)) [
        | inl r ↦ rw r (ids-loop cs s)
        | inr r ↦
            elim (Bool-cases
              (lib.returns s.calls (call_of s.webrtc_handle (add_ice_candidate c)) == 0)) [
                | inl a ↦
                    rw (r, a)
                      (ids-loop cs (record s' {
                        stored_peer_ice_candidates = s.stored_peer_ice_candidates ++ c ∷ [];
                      }))
                | inr a ↦ rw (r, a) (ids-loop cs s')
              ]
      ]

  ids-sdp : (s : Stream) → ids (set_peer_sdp lib s).0 ≡ ids s
  unfolding set_peer_sdp set_remote_description
  ids-sdp s = elim (Bool-cases (is_empty s.remote_description)) [
    | inl e ↦ rw e refl
    | inr e ↦
        elim (Bool-cases (
          lib.returns s.calls
            (call_of s.webrtc_handle (webrtc_set_remote_description s.remote_description))
          == 0)) [ inl a ↦ rw (e, a) refl | inr a ↦ rw (e, a) refl ]
  ]

  ids-information : (s : Stream) → ids (set_peer_information lib s).0 ≡ ids s
  unfolding set_peer_information set_peer_ice_candidates
  ids-information s = elim (Bool-cases (set_peer_sdp lib s).1) [
    | inl e ↦
        let s' = (set_peer_sdp lib s).0 in rw e (ids-loop s'.peer_ice_candidates s' ∙ ids-sdp s)
    | inr e ↦ rw e (ids-sdp s)
  ]

  pub ids-add_peer_information :
      (state : Option NativeState) (sdp : Text) (cs : List Text) (s : Stream)
      → ids (add_peer_information lib state sdp cs s).0 ≡ ids s
  unfolding add_peer_information
  ids-add_peer_information state sdp cs s =
      let s' = record s { remote_description = sdp; peer_ice_candidates = cs } in
      elim (Bool-cases (is_negotiating_state state)) [
        | inl e ↦ rw e (ids-information s')
        | inr e ↦ rw e refl
      ]
