-- ===== src/Rtsp/Playing.antt =====
-- modules/rtsp/Module.cc: a subscriber plays only while it says so.
use aitt.Base.{
  inl, inr, Bool-cases, ℕ, ◌≡◌, ◌≢◌, refl, true, false, ◌||◌, List, [], ◌∷◌, Option, none, some,
  Text, codes, text_eq, stoi, ℤ, subst, sym, arith, All,
}
use aitt.Flex.{Flexbuffers}
use aitt.Rtsp
use aitt.Rtsp.{
  Info, Player, PlayerState, player_none, player_idle, player_ready, player_playing, player_paused,
  RtspClient, get_complete_uri, set_player_uri, set_fps, set_display,
}
use aitt.Rtsp.Module.{
  Module, state_is, init, ready, playing, update_state, set_config, set_config_object, start, stop,
  left, follow, heard, located, pictures,
}
use aitt.Rtsp.Fitting.{
  Fits, idle-Fits, stop-is_start, started-Fits, stopped-Fits, uri-Fits, display-Fits, ready_is,
}

-- What a subscriber is asked, and what it hears: the state and the place of a publisher, or that a
-- client has left.
pub data Use : Type 0 where
  configures : (key value : Text) → Use
  displays : (key : Text) → (obj : ℕ) → Use
  starts stops leaves : Use
  hears : ℤ → Info → Use

-- A message of a publisher: it is ready or not, and its place takes the id and the password.
unfoldable pub IsAnnounced : ℤ → Info → Type 0
IsAnnounced state info =
    ((state_is state init || state_is state ready) ≡ true) × (get_complete_uri info ≢ none)

unfoldable pub IsFair : Use → Type 0
unfolding IsAnnounced
IsFair (hears state info) = IsAnnounced state info
IsFair _ = Unit {0}

unfoldable pub IsPlaying : Module → Type 0
IsPlaying m = (m.publisher ≡ false) × Fits m.client m.client_state m.server_state

updated-IsPlaying :
    (state : ℤ) (m : Module)
    → m.publisher ≡ false
    → Fits m.client state m.server_state
    → IsPlaying (update_state false state m)
unfolding update_state IsPlaying
updated-IsPlaying state m p h = elim (Bool-cases m.state_cb) [
  | inl e ↦ rw (p, e) (refl, h)
  | inr e ↦ rw (p, e) (refl, h)
]

module _ (lib : Player) where
  unfoldable pub used : Flexbuffers → Use → Module → Module
  unfolding set_config set_config_object start stop left heard
  used flex (configures key value) m = (set_config key value m).0
  used flex (displays key obj) m = set_config_object lib key obj m
  used flex starts m = (start lib flex true m).0
  used flex stops m = (stop lib flex true m).0
  used flex leaves m = left lib m
  used flex (hears state info) m = (heard lib state info m).0

  started-IsPlaying :
      (flex : Flexbuffers) (m : Module) → IsPlaying m → IsPlaying (start lib flex true m).0
  unfolding IsPlaying start
  started-IsPlaying flex m (p, h) = elim (Bool-cases (state_is m.server_state ready)) [
    | inl r ↦
        rw (p, r)
          (updated-IsPlaying playing
            (record m { publisher = false; client = Rtsp.start lib m.client }) refl
            (subst (λ z. Fits (Rtsp.start lib m.client) playing z) (sym (ready_is m.server_state r))
              (started-Fits lib m.client m.client_state m.server_state h)))
    | inr r ↦
        rw (p, r)
          (updated-IsPlaying ready (record m { publisher = false }) refl
            (idle-Fits m.client ready m.server_state (ground arith)))
  ]

  stopped-IsPlaying :
      (flex : Flexbuffers) (m : Module) → IsPlaying m → IsPlaying (stop lib flex true m).0
  unfolding IsPlaying stop
  stopped-IsPlaying flex m (p, h) = elim (Bool-cases (state_is m.client_state playing)) [
    | inl r ↦
        rw (p, r)
          (updated-IsPlaying init (record m { publisher = false; client = Rtsp.stop lib m.client })
            refl (stopped-Fits lib m.client m.client_state m.server_state init m.server_state h))
    | inr r ↦
        rw (p, r)
          (updated-IsPlaying init (record m { publisher = false }) refl
            (idle-Fits m.client init m.server_state (ground arith)))
  ]

  left-IsPlaying : (m : Module) → IsPlaying m → IsPlaying (left lib m)
  unfolding IsPlaying left
  left-IsPlaying m (p, h) = elim (Bool-cases (state_is m.client_state playing)) [
    | inl r ↦ rw r (
        updated-IsPlaying ready (record m { client = Rtsp.stop lib m.client }) p
          (stopped-Fits lib m.client m.client_state m.server_state ready m.server_state h))
    | inr r ↦
        rw r (updated-IsPlaying init m p (idle-Fits m.client init m.server_state (ground arith)))
  ]

  follow-IsPlaying :
      (m : Module)
      → m.publisher ≡ false
      → Fits m.client m.client_state ready
      → (state_is m.server_state init || state_is m.server_state ready) ≡ true
      → IsPlaying (follow lib m)
  unfolding follow IsPlaying state_is
  follow-IsPlaying m p h s = elim (Bool-cases (state_is m.server_state ready)) [
    | inl r ↦
        let at_ready = λ (c : RtspClient) (a : ℤ) (f : Fits c a ready).
          subst (λ z. Fits c a z) (sym (ready_is m.server_state r)) f in
        elim (Bool-cases (state_is m.client_state ready)) [
          | inl k ↦
              rw (r, k)
                (updated-IsPlaying playing (record m { client = Rtsp.start lib m.client }) p
                  (at_ready (Rtsp.start lib m.client) playing
                    (started-Fits lib m.client m.client_state ready h)))
          | inr k ↦ rw (r, k) (p, at_ready m.client m.client_state h)
        ]
    | inr r ↦
        let i : state_is m.server_state init ≡ true = ground arith in
        elim (Bool-cases (state_is m.client_state playing)) [
          | inl k ↦
              rw (r, i, k)
                (updated-IsPlaying ready (record m { client = Rtsp.stop lib m.client }) p
                  (stopped-Fits lib m.client m.client_state ready ready m.server_state h))
          | inr k ↦
              rw (r, i, k) (p, idle-Fits m.client m.client_state m.server_state (ground arith))
        ]
  ]

  located-IsPlaying :
      (o : Option Text) (m : Module)
      → o ≢ none
      → m.publisher ≡ false
      → Fits m.client m.client_state ready
      → (state_is m.server_state init || state_is m.server_state ready) ≡ true
      → IsPlaying (located lib o m).0
  located-IsPlaying none m n p h s = absurd (n refl)
  located-IsPlaying (some uri) m n p h s =
      follow-IsPlaying (record m { client = set_player_uri lib uri m.client }) p
        (uri-Fits lib uri m.client m.client_state ready h) s

  heard-IsPlaying :
      (state : ℤ) (info : Info) (m : Module)
      → IsAnnounced state info
      → IsPlaying m
      → IsPlaying (heard lib state info m).0
  unfolding IsAnnounced IsPlaying heard update_state state_is
  heard-IsPlaying state info m (s, n) (p, h) =
      let m' = record m { publisher = false; server_state = state; info = info } in
      rw p (located-IsPlaying (get_complete_uri info) m' n refl (ground arith) s)

  configured-IsPlaying :
      (key value : Text) (m : Module) → IsPlaying m → IsPlaying (set_config key value m).0
  unfolding IsPlaying set_config set_fps
  configured-IsPlaying key value m (p, h) = elim (Bool-cases (text_eq key (codes "FPS"))) [
    | inl k ↦ rw (p, k) (fps_set (stoi value))
    | inr k ↦ rw (p, k) (refl, h)
  ]
    where
      fps_set : (o : Option ℤ) → IsPlaying (pictures o (record m { publisher = false })).0
      fps_set none = (refl, h)
      fps_set (some n) = (refl, h)

  displayed-IsPlaying :
      (key : Text) (obj : ℕ) (m : Module)
      → IsPlaying m
      → IsPlaying (set_config_object lib key obj m)
  unfolding IsPlaying set_config_object
  displayed-IsPlaying key obj m (p, h) = elim (Bool-cases (text_eq key (codes "display"))) [
    | inl k ↦ rw (p, k) (refl, display-Fits lib obj m.client m.client_state m.server_state h)
    | inr k ↦ rw (p, k) (refl, h)
  ]

  used-IsPlaying :
      (flex : Flexbuffers) (u : Use) (m : Module)
      → IsFair u
      → IsPlaying m
      → IsPlaying (used flex u m)
  unfolding used IsFair
  used-IsPlaying flex (configures key value) m f i = configured-IsPlaying key value m i
  used-IsPlaying flex (displays key obj) m f i = displayed-IsPlaying key obj m i
  used-IsPlaying flex starts m f i = started-IsPlaying flex m i
  used-IsPlaying flex stops m f i = stopped-IsPlaying flex m i
  used-IsPlaying flex leaves m f i = left-IsPlaying m i
  used-IsPlaying flex (hears state info) m f i = heard-IsPlaying state info m f i

  unfoldable pub used_all : Flexbuffers → List Use → Module → Module
  unfolding used
  used_all flex [] m = m
  used_all flex (u ∷ us) m = used_all flex us (used flex u m)

  uses-IsPlaying :
      (flex : Flexbuffers) (us : List Use) (m : Module)
      → All IsFair us
      → IsPlaying m
      → IsPlaying (used_all flex us m)
  unfolding used_all
  uses-IsPlaying flex [] m f i = i
  uses-IsPlaying flex (u ∷ us) m f i =
      uses-IsPlaying flex us (used flex u m) f.1 (used-IsPlaying flex u m f.0 i)

  stop-ended :
      (flex : Flexbuffers) (m : Module)
      → IsPlaying m
      → (stop lib flex true m).0.client.is_start ≡ false
  unfolding stop IsPlaying update_state
  stop-ended flex m (p, h) =
      let ended = stop-is_start lib m.client (ground arith) in
      elim (Bool-cases (state_is m.client_state playing)) [
        | inl r ↦ elim (Bool-cases m.state_cb) [
          | inl e ↦ rw (p, r, e) ended
          | inr e ↦ rw (p, r, e) ended
        ]
        | inr r ↦
            let idle : m.client.is_start ≡ false = ground arith in
            elim (Bool-cases m.state_cb) [ inl e ↦ rw (p, r, e) idle | inr e ↦ rw (p, r, e) idle ]
      ]

  -- Whatever a subscriber whose client is not started is asked and hears, and whatever the player
  -- answers: its client is started only while the subscriber plays and its publisher is ready; and
  -- after `Stop` it is not started. The messages say that the publisher is ready or not ready, and have
  -- a place that the id and the password can be inserted into; the player is not interrupted.
  pub used_all-IsPlaying :
      (flex : Flexbuffers) (us : List Use) (m : Module)
      → m.publisher ≡ false
      → m.client.is_start ≡ false
      → All IsFair us
      → IsPlaying (used_all flex us m)
        × ((stop lib flex true (used_all flex us m)).0.client.is_start ≡ false)
  unfolding IsPlaying
  used_all-IsPlaying flex us m p e f =
      let i = uses-IsPlaying flex us m f (p, idle-Fits m.client m.client_state m.server_state e) in
      (i, stop-ended flex (used_all flex us m) i)
