-- ===== src/Webrtc/Stream/Peer.antt =====
-- modules/webrtc/WebRtcStream.cc: the descriptions of both ends, and the candidates of the peer.
use aitt.Base.{
  Bool, true, false, List, [], ◌∷◌, ◌++◌, Option, none, some, if◌then◌else◌, ◌&&◌, Text, text_eq,
  is_empty,
}
use aitt.Webrtc.Library.{
  Webrtc, add_ice_candidate, webrtc_set_local_description, webrtc_set_remote_description,
}
use aitt.Webrtc.States.{NativeState, state_negotiating, state_playing}
use aitt.Webrtc.Stream.{Stream, tried}

-- What `webrtc_get_state` tells, `none` for an error, is an argument.
unfoldable pub is_negotiating_state : Option NativeState → Bool
is_negotiating_state none = false
is_negotiating_state (some state_negotiating) = true
is_negotiating_state (some _) = false

unfoldable pub is_playing_state : Option NativeState → Bool
is_playing_state none = false
is_playing_state (some state_playing) = true
is_playing_state (some _) = false

unfoldable pub is_redundant_candidate : Text → List Text → Bool
is_redundant_candidate candidate [] = false
is_redundant_candidate candidate (stored ∷ rest) =
    if text_eq stored candidate then true else is_redundant_candidate candidate rest

module _ (lib : Webrtc) where
  unfoldable pub set_local_description : Text → Stream → Stream × Bool
  set_local_description description s =
      let (s', set) = tried lib (webrtc_set_local_description description) s in
      ((if set then record s' { local_description = description } else s'), set)

  unfoldable pub set_remote_description : Text → Stream → Stream × Bool
  set_remote_description description s = tried lib (webrtc_set_remote_description description) s

  unfoldable pub add_ice_candidate_from_message : Text → Stream → Stream × Bool
  add_ice_candidate_from_message ice_message s = tried lib (add_ice_candidate ice_message) s

  unfoldable pub set_peer_sdp : Stream → Stream × Bool
  unfolding set_remote_description
  set_peer_sdp s =
      let (s', set) = set_remote_description s.remote_description s in
      if is_empty s.remote_description
      then (s, true)
      else ((if set then record s' { remote_description = [] } else s'), set)

  -- The loop of `SetPeerIceCandidates`, over `peer_ice_candidates`.
  unfoldable pub candidates_loop : List Text → Stream → Stream × Bool
  unfolding add_ice_candidate_from_message is_redundant_candidate
  candidates_loop [] s = (s, true)
  candidates_loop (c ∷ cs) s =
      let skipped = candidates_loop cs s in
      let (s', added) = add_ice_candidate_from_message c s in
      let next = candidates_loop cs (
        if added
        then record s' { stored_peer_ice_candidates = s'.stored_peer_ice_candidates ++ c ∷ [] }
        else s') in
      if is_redundant_candidate c s.stored_peer_ice_candidates
      then skipped
      else (next.0, added && next.1)

  unfoldable pub set_peer_ice_candidates : Stream → Stream × Bool
  unfolding candidates_loop
  set_peer_ice_candidates s = candidates_loop s.peer_ice_candidates s

  unfoldable pub set_peer_information : Stream → Stream × Bool
  unfolding set_peer_sdp set_peer_ice_candidates
  set_peer_information s =
      let (s', set) = set_peer_sdp s in if set then set_peer_ice_candidates s' else (s', false)

  unfoldable pub add_peer_information :
      Option NativeState → Text → List Text → Stream → Stream × Bool
  unfolding set_peer_information is_negotiating_state
  add_peer_information state sdp candidates s =
      let s' = record s { remote_description = sdp; peer_ice_candidates = candidates } in
      if is_negotiating_state state then set_peer_information s' else (s', false)

  -- The library is asked twice for its state.
  unfoldable pub update_peer_information :
      (state again : Option NativeState) → List Text → Stream → Stream
  unfolding set_peer_information is_negotiating_state is_playing_state
  update_peer_information state again candidates s =
      let s' = record s { peer_ice_candidates = candidates } in
      if is_playing_state state
      then record s {
        remote_description = [];
        peer_ice_candidates = [];
        stored_peer_ice_candidates = [];
      }
      else if is_negotiating_state again
      then (set_peer_information s').0
      else s'
