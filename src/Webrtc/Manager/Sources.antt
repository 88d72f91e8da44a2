-- ===== src/Webrtc/Manager/Sources.antt =====
-- modules/webrtc/StreamManager.cc: the setters keep one media source attached at most.
use aitt.Base.{
  ◌==◌, ◌≡◌, ◌≢◌, ◌∙◌, refl, sym, subst, List, some, Text, codes, text_eq, if◌then◌else◌, not, ◌&&◌,
  ℤ, Bool-cases, inl, inr,
}
use aitt.Webrtc.Library.{Call, Webrtc, MediaSource, source_camera, source_null, source_media_packet}
use aitt.Webrtc.Stream
use aitt.Webrtc.Stream.{Stream}
use aitt.Webrtc.Stream.Source.{
  View, view, IsAttached, IsAttached-view, view-set_video_frame_rate, view-set_decode_codec,
  view-set_video_resolution, view-set_media_format, activate_source-IsAttached,
  deactivate_source-IsAttached,
}
use aitt.Webrtc.Manager.{
  Manager, int_eq, is_nonzero, media_packet, camera, null_source, with_stream, has_format,
  format_set, resolution_set, rate_set, activated, is_supported_format, set_width, set_height,
  set_frame_rate, set_source_type, set_media_format, set_decode_codec,
}

module _ (lib : Webrtc) where
  unfoldable pub HasOne : Manager → Type 0
  unfolding IsAttached
  HasOne m = IsAttached lib m.stream

module _ (lib : Webrtc) (named : (calls : List Call) (c : Call) → lib.gives calls c ≢ 0) where
  format_set-HasOne :
      (w h r : ℤ) (f : Text) (m : Manager) → HasOne lib m → HasOne lib (format_set lib w h r f m)
  unfolding HasOne
  format_set-HasOne w h r f m o =
      IsAttached-view lib (Stream.set_media_format lib w h r f m.stream).0 m.stream
        (view-set_media_format lib w h r f m.stream) o

  resolution_set-HasOne :
      (w h : ℤ) (m : Manager) → HasOne lib m → HasOne lib (resolution_set lib w h m)
  unfolding HasOne IsAttached view
  resolution_set-HasOne w h m o =
      let v = view-set_video_resolution lib w h m.stream in
      elim (Bool-cases (m.stream.source_id == 0)) [
        | inl e ↦
            IsAttached-view lib (Stream.set_video_resolution lib w h m.stream).0 m.stream
              (v ∙ rw e refl) o
        | inr e ↦
            let sized : View = record (view lib m.stream) { size = some (w, h) } in
            let u : view lib (Stream.set_video_resolution lib w h m.stream).0 ≡ sized =
              v ∙ rw e refl in
            subst (λ x. x.count ≡ (if x.source == 0 then 0 else 1)) (sym u) o
      ]

  rate_set-HasOne : (r : ℤ) (m : Manager) → HasOne lib m → HasOne lib (rate_set lib r m)
  unfolding HasOne
  rate_set-HasOne r m o =
      IsAttached-view lib (Stream.set_video_frame_rate lib r m.stream).0 m.stream
        (view-set_video_frame_rate lib r m.stream) o

  activated-HasOne :
      (source : MediaSource) (m : Manager) → HasOne lib m → HasOne lib (activated lib source m)
  unfolding HasOne Stream.set_source_type
  activated-HasOne source m o =
      activate_source-IsAttached lib named (Stream.set_source_type source m.stream) o

  pub set_width-HasOne : (w : ℤ) (m : Manager) → HasOne lib m → HasOne lib (set_width lib w m)
  unfolding set_width HasOne
  set_width-HasOne w m o = elim (Bool-cases (int_eq m.width w)) [
    | inl e ↦ rw e o
    | inr e ↦
        elim (Bool-cases (
          text_eq m.source_name media_packet
          && is_nonzero m.height
          && is_nonzero m.frame_rate
          && has_format lib m)) [
            | inl p ↦ rw (e, p) (format_set-HasOne m.width m.height m.frame_rate m.format m o)
            | inr p ↦ elim (Bool-cases (text_eq m.source_name camera && is_nonzero m.height)) [
              | inl c ↦ rw (e, p, c) (resolution_set-HasOne w m.height m o)
              | inr c ↦ rw (e, p, c) o
            ]
          ]
  ]

  pub set_height-HasOne : (h : ℤ) (m : Manager) → HasOne lib m → HasOne lib (set_height lib h m)
  unfolding set_height HasOne
  set_height-HasOne h m o = elim (Bool-cases (int_eq m.height h)) [
    | inl e ↦ rw e o
    | inr e ↦
        elim (Bool-cases (
          text_eq m.source_name media_packet
          && is_nonzero m.width
          && is_nonzero m.frame_rate
          && has_format lib m)) [
            | inl p ↦ rw (e, p) (format_set-HasOne m.width h m.frame_rate m.format m o)
            | inr p ↦ elim (Bool-cases (text_eq m.source_name camera && is_nonzero m.width)) [
              | inl c ↦ rw (e, p, c) (resolution_set-HasOne m.width h m o)
              | inr c ↦ rw (e, p, c) o
            ]
          ]
  ]

  pub set_frame_rate-HasOne :
      (r : ℤ) (m : Manager) → HasOne lib m → HasOne lib (set_frame_rate lib r m)
  unfolding set_frame_rate HasOne
  set_frame_rate-HasOne r m o = elim (Bool-cases (int_eq m.frame_rate r)) [
    | inl e ↦ rw e o
    | inr e ↦
        elim (Bool-cases (
          text_eq m.source_name media_packet
          && is_nonzero m.width
          && is_nonzero m.height
          && has_format lib m)) [
            | inl p ↦ rw (e, p) (format_set-HasOne m.width m.height r m.format m o)
            | inr p ↦ elim (Bool-cases (text_eq m.source_name camera)) [
              | inl c ↦ rw (e, p, c) (rate_set-HasOne r m o)
              | inr c ↦ rw (e, p, c) o
            ]
          ]
  ]

  pub set_media_format-HasOne :
      (f : Text) (m : Manager) → HasOne lib m → HasOne lib (set_media_format lib f m).0
  unfolding set_media_format is_supported_format HasOne
  set_media_format-HasOne f m o = elim (Bool-cases (text_eq m.format f)) [
    | inl e ↦ rw e o
    | inr e ↦ elim (Bool-cases (not (text_eq f (codes "VP8")) && not (text_eq f (codes "H264")))) [
      | inl n ↦ rw (e, n) o
      | inr n ↦
          elim (Bool-cases (
            text_eq m.source_name media_packet
            && is_nonzero m.width
            && is_nonzero m.height
            && is_nonzero m.frame_rate)) [
              | inl p ↦ rw (e, n, p) (format_set-HasOne m.width m.height m.frame_rate f m o)
              | inr p ↦ rw (e, n, p) o
            ]
    ]
  ]

  pub set_decode_codec-HasOne :
      (codec : Text) (m : Manager) → HasOne lib m → HasOne lib (set_decode_codec lib codec m).0
  unfolding set_decode_codec is_supported_format HasOne
  set_decode_codec-HasOne codec m o = elim (Bool-cases (text_eq m.decode_codec codec)) [
    | inl e ↦ rw e o
    | inr e ↦
        elim (Bool-cases
          (not (text_eq codec (codes "VP8")) && not (text_eq codec (codes "H264")))) [
            | inl n ↦ rw (e, n) o
            | inr n ↦ elim (Bool-cases (text_eq m.source_name null_source)) [
              | inl p ↦
                  rw (e, n, p)
                    (IsAttached-view lib (Stream.set_decode_codec lib codec m.stream) m.stream
                      (view-set_decode_codec lib codec m.stream) o)
              | inr p ↦ rw (e, n, p) o
            ]
          ]
  ]

  sized-HasOne :
      (m : Manager)
      → HasOne lib m
      → HasOne lib (
          if is_nonzero m.width && is_nonzero m.height
          then resolution_set lib m.width m.height m
          else m)
  sized-HasOne m o = elim (Bool-cases (is_nonzero m.width && is_nonzero m.height)) [
    | inl e ↦ rw e (resolution_set-HasOne m.width m.height m o)
    | inr e ↦ rw e o
  ]

  pub set_source_type-HasOne :
      (name : Text) (m : Manager) → HasOne lib m → HasOne lib (set_source_type lib name m)
  unfolding set_source_type HasOne
  set_source_type-HasOne name m o =
      let m0 = with_stream (Stream.deactivate_source lib m.stream).0 m in
      let o0 = deactivate_source-IsAttached lib m.stream o in
      let packet = activated lib source_media_packet m0 in
      let filmed = activated lib source_camera m0 in
      let sized =
        if is_nonzero m.width && is_nonzero m.height
        then resolution_set lib m.width m.height filmed
        else filmed in
      let o1 = activated-HasOne source_media_packet m0 o0 in
      let o2 = sized-HasOne filmed (activated-HasOne source_camera m0 o0) in
      elim (Bool-cases (text_eq m.source_name name)) [
        | inl e ↦ rw e o
        | inr e ↦ elim (Bool-cases (text_eq name media_packet)) [
          | inl p ↦
              elim (Bool-cases (
                is_nonzero m.width
                && is_nonzero m.height
                && is_nonzero m.frame_rate
                && has_format lib m)) [
                  | inl f ↦
                      rw (e, p, f)
                        (format_set-HasOne m.width m.height m.frame_rate m.format packet o1)
                  | inr f ↦ rw (e, p, f) o1
                ]
          | inr p ↦ elim (Bool-cases (text_eq name camera)) [
            | inl c ↦ elim (Bool-cases (is_nonzero m.frame_rate)) [
              | inl f ↦ rw (e, p, c, f) (rate_set-HasOne m.frame_rate sized o2)
              | inr f ↦ rw (e, p, c, f) o2
            ]
            | inr c ↦ elim (Bool-cases (text_eq name null_source)) [
              | inl n ↦ rw (e, p, c, n) (activated-HasOne source_null m0 o0)
              | inr n ↦ rw (e, p, c, n) o0
            ]
          ]
        ]
      ]
