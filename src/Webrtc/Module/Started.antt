-- ===== src/Webrtc/Module/Started.antt =====
-- modules/webrtc/Module.cc: a stream that was started stays started.
use aitt.Base.{
  sym, subst, some, none, ℕ, ◌≡◌, refl, Bool, true, List, [], ◌∷◌, Option, Text, codes, text_eq,
  if◌then◌else◌, not, ◌&&◌,
}
use aitt.Types.{Result, ok, err, resource_busy_err, invalid_arg}
use aitt.Flex.{Flexbuffers}
use aitt.Discovery.{update_discovery_msg}
use aitt.Tcp.Peers.{will_leave_network}
use aitt.Webrtc.Library.{Webrtc}
use aitt.Webrtc.States.{NativeState}
use aitt.Webrtc.Stream
use aitt.Webrtc.Stream.Events.{Event}
use aitt.Webrtc.Manager
use aitt.Webrtc.Manager.{
  Manager, Notice, tell, with_stream, candidate_added, stream_state, handle_removed_client,
  media_packet,
}
use aitt.Webrtc.Manager.Ends.{handle_msg, push_packet}
use aitt.Webrtc.Manager.Listening.{on_event}
use aitt.Webrtc.Manager.Started.{
  both, first, IsStarted, start-kept, event-started, msg-started, removed-started,
}
use aitt.Webrtc.Module.{
  Module, caught, configure, user_init, user_playing, user_underflow, user_overflow, with_manager,
  set_config, set_config_object, announce, start, stop, push, on_stream_state, on_notice,
  on_notices, on_stream_event, set_state_callback, set_receive_callback, discovery_message_callback,
}

-- What happens to a module. Whether the discovery can publish, and what the library tells of its
-- state, may differ each time.
pub data Use : Type 0 where
  configures : (key value : Text) → Use
  configures_object : Text → ℕ → Use
  starts : (published : Bool) → Use
  stops watches receives : Use
  pushes : ℕ → Use
  events : (published has_buffer : Bool) → Event → Use
  messages : (state again : Option NativeState) → (client_id status msg : Text) → Use

module _ (lib : Webrtc) (flex : Flexbuffers) where
  unfoldable pub used : Use → Module → Module
  used (configures key value) m = (set_config lib key value m).0
  used (configures_object key obj) m = (set_config_object key obj m).0
  used (starts published) m = (start flex published m).0
  used stops m = stop m
  used watches m = set_state_callback true m
  used receives m = set_receive_callback m
  used (pushes packet) m = (push lib packet m).0
  used (events published has_buffer event) m = on_stream_event flex published lib has_buffer event m
  used (messages state again client_id status msg) m =
      discovery_message_callback lib flex state again client_id status msg m

  unfoldable pub used_all : List Use → Module → Module
  unfolding used
  used_all [] m = m
  used_all (u ∷ us) m = used_all us (used u m)

module _ (lib : Webrtc) (flex : Flexbuffers) where
  shown :
      (published : Bool) (state : Text) (m : Module)
      → IsStarted m.manager
      → IsStarted (on_stream_state flex published state m).manager
  unfolding on_stream_state
  shown published state m h =
      let P : Module → Type 0 = (λ x. IsStarted x.manager) in
      both P (not m.state_callback) m _ h (
        both P (text_eq state (codes "IDLE")) (record m { states = user_init ∷ m.states }) _ h
          (both P (text_eq state (codes "PLAYING")) (record m { states = user_playing ∷ m.states })
            _ h
            (both P (text_eq state (codes "UNDERFLOW"))
              (record m { states = user_underflow ∷ m.states }) _ h
              (both P (text_eq state (codes "OVERFLOW"))
                (record m { states = user_overflow ∷ m.states }) m h h))))

  noticed :
      (published : Bool) (ns : List Notice) (m : Module)
      → IsStarted m.manager
      → IsStarted (on_notices flex published ns m).manager
  unfolding on_notices on_notice announce
  noticed published [] m h = h
  noticed published (candidate_added ∷ ns) m h = noticed published ns m h
  noticed published (stream_state state ∷ ns) m h =
      shown published state (on_notices flex published ns m) (noticed published ns m h)

  configured :
      (key value : Text) (m : Module)
      → IsStarted m.manager
      → set_config lib key value m ≡ (m, err resource_busy_err)
  unfolding set_config
  configured key value m h =
      first m.manager.is_started (m, err resource_busy_err)
        (caught (configure lib key value m.manager) m) h

  configured_object :
      (key : Text) (obj : ℕ) (m : Module)
      → IsStarted m.manager
      → set_config_object key obj m ≡ (m, err resource_busy_err)
  unfolding set_config_object
  configured_object key obj m h =
      first m.manager.is_started (m, err resource_busy_err)
        (if text_eq key (codes "DISPLAY_OBJECT")
          then (with_manager (Manager.set_display obj m.manager) m, ok tt)
          else (m, err invalid_arg))
        h

  used-started :
      (u : Use) (m : Module) → IsStarted m.manager → IsStarted (used lib flex u m).manager
  unfolding used start announce stop set_state_callback set_receive_callback push push_packet
      on_stream_event discovery_message_callback
  used-started (configures key value) m h =
      subst (λ x. IsStarted x.0.manager) (sym (configured key value m h)) h
  used-started (configures_object key obj) m h =
      subst (λ x. IsStarted x.0.manager) (sym (configured_object key obj m h)) h
  used-started (starts published) m h = start-kept _ m.manager h
  used-started stops m h = h
  used-started watches m h = h
  used-started receives m h = both (λ x. IsStarted x.manager) m.manager.is_source m _ h h
  used-started (pushes packet) m h =
      both (λ (r : Manager × Option ℕ). IsStarted r.0)
        (m.manager.is_source && text_eq m.manager.source_name media_packet)
        (
          with_stream (Stream.push lib packet m.manager.stream).0 m.manager,
          some (Stream.push lib packet m.manager.stream).1,
        )
        (m.manager, none) h h
  used-started (events published has_buffer event) m h =
      let m' = on_event lib has_buffer event m.manager in
      noticed published m'.notices (with_manager (record m' { notices = [] }) m)
        (event-started lib has_buffer event m.manager h)
  used-started (messages state again client_id status msg) m h =
      both IsStarted (text_eq status will_leave_network) (handle_removed_client client_id m.manager)
        (handle_msg lib state again flex client_id msg m.manager)
        (removed-started lib flex state again client_id m.manager h)
        (msg-started lib flex state again client_id m.manager h msg)

  used_all-started :
      (us : List Use) (m : Module)
      → IsStarted m.manager
      → IsStarted (used_all lib flex us m).manager
  unfolding used_all
  used_all-started [] m h = h
  used_all-started (u ∷ us) m h = used_all-started us (used lib flex u m) (used-started u m h)

  started : (m : Module) → IsStarted (start flex true m).0.manager
  unfolding start announce Manager.start update_discovery_msg
  started m =
      both (λ (r : Manager × Result (Unit {0})). IsStarted r.0) m.manager.callbacks.stream_start_cb
        (record m.manager { is_started = true }, ok tt)
        (record m.manager { is_started = true }, ok tt) refl refl

  -- Once `Start` has returned, no configuration is accepted any more, whatever is called and whatever
  -- the stream and the other clients tell: each `SetConfig` throws RESOURCE_BUSY_ERR and changes
  -- nothing, also after `Stop`, which does not stop the stream.
  pub set_config_busy :
      (us : List Use) (key value : Text) (m : Module)
      → let m' = used_all lib flex us (start flex true m).0 in
        set_config lib key value m' ≡ (m', err resource_busy_err)
  set_config_busy us key value m =
      let m1 = (start flex true m).0 in
      configured key value (used_all lib flex us m1) (used_all-started us m1 (started m))
