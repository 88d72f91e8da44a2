-- ===== src/Webrtc/Stream/Source.antt =====
-- modules/webrtc/WebRtcStream.cc: the media source that a stream has attached, and the resolution that
-- the library was given last, as the recorded calls tell them.
use aitt.Base.{
  ℕ, suc, ◌-◌, ◌==◌, ◌≡◌, ◌≢◌, ◌∙◌, refl, sym, subst, Bool, true, false, List, [], ◌∷◌, Option,
  none, some, Text, codes, text_eq, if◌then◌else◌, ◌&&◌, ℤ, Bool-cases, inl, inr, arith,
}
use aitt.Webrtc.Library.{
  Call, Request, Webrtc, add_media_source, remove_media_source, webrtc_set_video_resolution,
  media_format_create, media_format_unref, set_format, set_payload_type_h264,
  set_buffer_state_changed_cb,
}
use aitt.Webrtc.Stream.{
  Stream, activate_source, deactivate_source, set_video_resolution, set_video_frame_rate,
  set_media_format, get_media_format_handler, all_called, get_video_format_enum, set_decode_codec,
  called, call_of, called_on, format_requests, is_media_packet,
}

pub data Kind : Type 0 where
  adds removes other : Kind
  sizes : (width height : ℤ) → Kind

unfoldable pub kind_of : Request → Kind
kind_of (add_media_source source) = adds
kind_of (remove_media_source id) = removes
kind_of (webrtc_set_video_resolution id width height) = sizes width height
kind_of _ = other

-- What a call can change of a source.
pub record View : Type 0 where
  pub count : ℕ
  pub size : Option (ℤ × ℤ)
  pub source : ℕ

module _ (lib : Webrtc) where
  -- How many sources were added and not removed again.
  unfoldable pub attached : List Call → ℕ
  unfolding kind_of
  attached [] = 0
  attached (c ∷ cs) =
      let rest = attached cs in
      let done = lib.returns cs c == 0 in
      elim (kind_of c.request) [
        | adds ↦ if done then suc rest else rest
        | removes ↦ if done then rest - 1 else rest
        | other ↦ rest
        | sizes width height ↦ rest
      ]

  unfoldable pub resolution : List Call → Option (ℤ × ℤ)
  unfolding kind_of
  resolution [] = none
  resolution (c ∷ cs) =
      let rest = resolution cs in
      elim (kind_of c.request) [
        | sizes width height ↦ some (width, height)
        | adds ↦ rest
        | removes ↦ rest
        | other ↦ rest
      ]

  unfoldable pub view : Stream → View
  view s = record { count = attached s.calls; size = resolution s.calls; source = s.source_id }

  pub view-set_video_frame_rate :
      (rate : ℤ) (s : Stream) → view (set_video_frame_rate lib rate s).0 ≡ view s
  unfolding set_video_frame_rate view attached resolution kind_of
  view-set_video_frame_rate rate s = elim (Bool-cases (s.source_id == 0)) [
    | inl e ↦ rw e refl
    | inr e ↦ rw e refl
  ]

  pub view-set_decode_codec :
      (codec : Text) (s : Stream) → view (set_decode_codec lib codec s) ≡ view s
  unfolding set_decode_codec view attached resolution kind_of
  view-set_decode_codec codec s = elim (Bool-cases (text_eq codec (codes "VP9"))) [
    | inl e ↦ rw e refl
    | inr e ↦ elim (Bool-cases (text_eq codec (codes "H264"))) [
      | inl f ↦ rw (e, f) refl
      | inr f ↦ rw (e, f) refl
    ]
  ]

  pub view-set_video_resolution :
      (w h : ℤ) (s : Stream)
      → view (set_video_resolution lib w h s).0
        ≡ (if s.source_id == 0 then view s else record (view s) { size = some (w, h) })
  unfolding set_video_resolution view attached resolution kind_of
  view-set_video_resolution w h s = elim (Bool-cases (s.source_id == 0)) [
    | inl e ↦ rw e refl
    | inr e ↦ rw e refl
  ]

  view-other :
      (handle : ℕ) (request : Request) (s : Stream)
      → kind_of request ≡ other
      → view (called_on handle request s) ≡ view s
  unfolding view attached resolution
  view-other handle request s e = rw e refl

  view-if : (b : Bool) (s t : Stream) → view s ≡ view t → view (if b then s else t) ≡ view t
  view-if true s t e = e
  view-if false s t e = refl

  view-format :
      (w h r : ℤ) (format : Text) (s : Stream)
      → view (get_media_format_handler lib w h r format s).0 ≡ view s
  unfolding get_media_format_handler all_called view attached resolution kind_of
  view-format w h r format s =
      let create = call_of 0 media_format_create in
      let made = lib.returns s.calls create == 0 in
      let handle = lib.gives s.calls create in
      let (s1, set) =
        all_called lib handle (format_requests lib w h r (get_video_format_enum lib format))
          (called_on 0 media_format_create s) in
      elim (Bool-cases made) [
        | inr e ↦ rw e refl
        | inl e ↦ elim (Bool-cases set) [ inl f ↦ rw (e, f) refl | inr f ↦ rw (e, f) refl ]
      ]

  pub view-set_media_format :
      (w h r : ℤ) (format : Text) (s : Stream)
      → view (set_media_format lib w h r format s).0 ≡ view s
  unfolding set_media_format kind_of
  view-set_media_format w h r format s =
      let (s1, handle) = get_media_format_handler lib w h r format s in
      let v = view-format w h r format s in
      let s2 = called (set_format s1.source_id handle) s1 in
      let s3 = called_on handle media_format_unref s2 in
      let u =
        view-other handle media_format_unref s2 refl
        ∙ view-other s1.webrtc_handle (set_format s1.source_id handle) s1 refl
        ∙ v in
      elim (Bool-cases (handle == 0)) [
        | inl e ↦ rw e v
        | inr e ↦ rw e (
            view-if (is_media_packet s1.source_type && text_eq format (codes "H264")) _ s3
              (view-other s3.webrtc_handle (set_payload_type_h264 s3.source_id) s3 refl)
            ∙ u)
      ]

  -- A stream has one source attached when it knows of one, and none else.
  unfoldable pub IsAttached : Stream → Type 0
  unfolding attached
  IsAttached s = attached s.calls ≡ (if s.source_id == 0 then 0 else 1)

  pub IsAttached-view : (s t : Stream) → view s ≡ view t → IsAttached t → IsAttached s
  unfolding IsAttached view
  IsAttached-view s t e a = subst (λ v. v.count ≡ (if v.source == 0 then 0 else 1)) (sym e) a

  module _ (named : (calls : List Call) (c : Call) → lib.gives calls c ≢ 0) where
    added_source :
        (s : Stream)
        → (s.source_id == 0) ≡ true
        → IsAttached s
        → let request = add_media_source s.source_type in
          let added = lib.returns s.calls (call_of s.webrtc_handle request) == 0 in
          IsAttached (record (called request s) {
            source_id =
                if added then lib.gives s.calls (call_of s.webrtc_handle request) else s.source_id;
          })
    unfolding IsAttached attached kind_of
    added_source s e a =
        let c = call_of s.webrtc_handle (add_media_source s.source_type) in
        let n = named s.calls c in
        elim (Bool-cases (lib.returns s.calls c == 0)) [
          | inl f ↦ rw f (ground arith)
          | inr f ↦ rw f a
        ]

    pub activate_source-IsAttached :
        (s : Stream) → IsAttached s → IsAttached (activate_source lib s).0
    unfolding activate_source kind_of
    activate_source-IsAttached s a = elim (Bool-cases (s.source_id == 0)) [
      | inr e ↦ rw e a
      | inl e ↦ rw e (
          IsAttached-view _ _
            (view-if (is_media_packet s.source_type) _ _
              (view-other s.webrtc_handle (set_buffer_state_changed_cb _) _ refl))
            (added_source s e a))
    ]

  pub deactivate_source-IsAttached :
      (s : Stream) → IsAttached s → IsAttached (deactivate_source lib s).0
  unfolding deactivate_source IsAttached attached kind_of
  deactivate_source-IsAttached s a =
      let c = call_of s.webrtc_handle (remove_media_source s.source_id) in
      elim (Bool-cases (s.source_id == 0)) [
        | inl e ↦ rw e a
        | inr e ↦ elim (Bool-cases (lib.returns s.calls c == 0)) [
          | inl f ↦ rw (e, f) (ground arith)
          | inr f ↦ rw (e, f) a
        ]
      ]
