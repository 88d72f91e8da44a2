-- ===== src/Webrtc/Stream/Book.antt =====
-- What a stream of modules/webrtc/WebRtcStream.cc promises to keep of its peer, whatever the order of
-- the messages and however often they repeat themselves: a set of candidates, and the description
-- that waits.
use aitt.Base.{
  ℕ, ◌==◌, Bool, true, false, List, [], ◌∷◌, Option, some, if◌then◌else◌, ◌||◌, Text, text_eq,
  is_empty,
}
use aitt.Webrtc.Library.{Call, Request, Webrtc, add_ice_candidate, webrtc_set_remote_description}
use aitt.Webrtc.Stream.{call_of}
use aitt.Webrtc.States.{NativeState, state_negotiating, state_playing}

-- The description that the library has not taken yet, `[]` for none, the candidates that it has, and
-- what it was called with, the newest first.
pub record Book : Type 0 where
  pub handle : ℕ
  pub calls : List Call
  pub waiting : Text
  pub known : Text → Bool

-- What happens to it: two messages of the peer, with the states of the library at that time, and a
-- change of the library's state.
pub data Operation : Type 0 where
  adds : (state : Option NativeState) → (sdp : Text) → (candidates : List Text) → Operation
  updates : (state again : Option NativeState) → (candidates : List Text) → Operation
  changes : NativeState → Operation

abbrev is_negotiating : Option NativeState → Bool
is_negotiating (some state_negotiating) = true
is_negotiating _ = false

abbrev is_playing : Option NativeState → Bool
is_playing (some state_playing) = true
is_playing _ = false

abbrev pub mentioned : Text → List Text → Bool
mentioned t [] = false
mentioned t (c ∷ cs) = text_eq t c || mentioned t cs

-- What the library answers to a call may depend on all calls before.
module _ (lib : Webrtc) where
  abbrev taken : Request → Book → Bool
  taken request b = lib.returns b.calls (call_of b.handle request) == 0

  abbrev asked : Request → Book → Book
  asked request b = record b { calls = call_of b.handle request ∷ b.calls }

  -- A description that waits is given to the library.
  unfoldable pub describe : Book → Book
  describe b =
      let request = webrtc_set_remote_description b.waiting in
      if is_empty b.waiting
      then b
      else if taken request b
      then record (asked request b) { waiting = [] }
      else asked request b

  -- A candidate that the library does not have is given to it.
  unfoldable pub offer : Text → Book → Book
  offer candidate b =
      let request = add_ice_candidate candidate in
      if b.known candidate
      then b
      else if taken request b
      then record (asked request b) { known = λ t. b.known t || text_eq candidate t }
      else asked request b

  unfoldable pub offers : List Text → Book → Book
  unfolding offer
  offers [] b = b
  offers (c ∷ cs) b = offers cs (offer c b)

  -- No candidate before the description.
  unfoldable pub deliver : List Text → Book → Book
  unfolding describe offers
  deliver candidates b =
      let b' = describe b in if is_empty b'.waiting then offers candidates b' else b'

  unfoldable pub operate : Operation → Book → Book
  unfolding describe deliver
  operate (adds state sdp candidates) b =
      let b' = record b { waiting = sdp } in
      if is_negotiating state then deliver candidates b' else b'
  operate (updates state again candidates) b =
      if is_playing state
      then record b { waiting = []; known = λ t. false }
      else if is_negotiating again
      then deliver candidates b
      else b
  operate (changes state) b = if is_negotiating (some state) then describe b else b

  unfoldable pub run : List Operation → Book → Book
  unfolding operate
  run [] b = b
  run (op ∷ ops) b = run ops (operate op b)
