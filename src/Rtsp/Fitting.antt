-- ===== src/Rtsp/Fitting.antt =====
-- modules/rtsp: what the calls of RTSPClient.cc do to a client that was started.
use aitt.Base.{ℕ, ◌==◌, ◌≡◌, refl, true, false, ◌&&◌, ◌||◌, not, Text, ℤ, pos, negsuc, arith}
use aitt.Rtsp
use aitt.Rtsp.{
  Info, Player, PlayerState, player_none, player_idle, player_ready, player_playing, player_paused,
  RtspClient, get_complete_uri, set_player_uri, set_fps, set_display,
}
use aitt.Rtsp.Module.{state_is, ready, playing}

-- A client that was started belongs to a subscriber that plays, of a publisher that is ready.
abbrev pub Fits : RtspClient → (client_state server_state : ℤ) → Type 0
Fits c client_state server_state =
    (not c.is_start
      || (not (c.player == 0) && (state_is client_state playing && state_is server_state ready)))
    ≡ true

-- A client that was not started fits with everything.
pub idle-Fits : (c : RtspClient) (a b : ℤ) → c.is_start ≡ false → Fits c a b
idle-Fits c a b e = rw e refl

pub ready_is : (z : ℤ) → state_is z ready ≡ true → z ≡ ready
unfolding state_is
ready_is (pos n) e = ground arith
ready_is (negsuc n) e = ground arith

module _ (lib : Player) where
  start-player : (c : RtspClient) → (Rtsp.start lib c).player ≡ c.player
  unfolding Rtsp.start
  start-player c = ground arith

  start-is_start :
      (c : RtspClient)
      → (not (Rtsp.start lib c).is_start || (not (c.player == 0) || c.is_start)) ≡ true
  unfolding Rtsp.start
  start-is_start c = ground arith

  pub stop-is_start :
      (c : RtspClient)
      → (not c.is_start || not (c.player == 0)) ≡ true
      → (Rtsp.stop lib c).is_start ≡ false
  unfolding Rtsp.stop
  stop-is_start c h = ground arith

  pub started-Fits : (c : RtspClient) (a b : ℤ) → Fits c a b → Fits (Rtsp.start lib c) playing ready
  unfolding state_is
  started-Fits c a b h = let e = start-player c in let f = start-is_start c in ground arith

  pub stopped-Fits : (c : RtspClient) (a b a' b' : ℤ) → Fits c a b → Fits (Rtsp.stop lib c) a' b'
  stopped-Fits c a b a' b' h = idle-Fits (Rtsp.stop lib c) a' b' (stop-is_start c (ground arith))

  pub uri-Fits :
      (uri : Text) (c : RtspClient) (a b : ℤ) → Fits c a b → Fits (set_player_uri lib uri c) a ready
  unfolding set_player_uri state_is
  uri-Fits uri c a b h = ground arith

  pub display-Fits :
      (obj : ℕ) (c : RtspClient) (a b : ℤ) → Fits c a b → Fits (set_display lib obj c) a b
  unfolding set_display
  display-Fits obj c a b h = ground arith
