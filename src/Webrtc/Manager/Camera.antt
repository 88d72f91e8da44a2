-- ===== src/Webrtc/Manager/Camera.antt =====
-- modules/webrtc/StreamManager.cc: what the setters tell the library of a camera's resolution.
use aitt.Base.{
  ◌==◌, ◌≡◌, ◌∙◌, refl, ap, Bool, true, false, Option, none, some, Text, codes, text_eq,
  text_eq_iff, if◌then◌else◌, not, ◌&&◌, ◌||◌, ℤ, pos, negsuc, Bool-cases, inl, inr, arith,
}
use aitt.Webrtc.Library.{Webrtc, source_camera}
use aitt.Webrtc.Stream
use aitt.Webrtc.Stream.{Stream}
use aitt.Webrtc.Stream.Source.{
  View, view, view-set_video_frame_rate, view-set_decode_codec, view-set_video_resolution,
  view-set_media_format,
}
use aitt.Webrtc.Manager.{
  Manager, int_eq, is_nonzero, media_packet, camera, null_source, with_stream, has_format,
  resolution_set, rate_set, activated, is_supported_format, set_width, set_height, set_frame_rate,
  set_source_type, set_media_format, set_decode_codec,
}

size_is : ℤ → ℤ → Option (ℤ × ℤ) → Bool
size_is w h none = false
size_is w h (some (x, y)) = int_eq x w && int_eq y h

-- For a camera with a source, a width and a height, the library was given these last.
unfoldable pub synced : Text → View → ℤ → ℤ → Bool
unfolding size_is
synced name v w h =
    not (text_eq name camera && (not (v.source == 0) && (is_nonzero w && is_nonzero h)))
    || size_is w h v.size

int_eq_refl : (a : ℤ) → int_eq a a ≡ true
unfolding int_eq
int_eq_refl (pos n) = ground arith
int_eq_refl (negsuc n) = ground arith

abbrev sized : ℤ → ℤ → View → View
sized w h v = if v.source == 0 then v else record v { size = some (w, h) }

synced-sized : (name : Text) (v : View) (w h : ℤ) → synced name (sized w h v) w h ≡ true
unfolding synced size_is
synced-sized name v w h = let a = int_eq_refl w in let b = int_eq_refl h in ground arith

synced-other :
    (name : Text) (v : View) (w h : ℤ) → text_eq name camera ≡ false → synced name v w h ≡ true
unfolding synced
synced-other name v w h e = rw e refl

synced-flat :
    (name : Text) (v : View) (w h : ℤ)
    → (text_eq name camera && is_nonzero h) ≡ false
    → synced name v w h ≡ true
unfolding synced
synced-flat name v w h e = ground arith

synced-narrow :
    (name : Text) (v : View) (w h : ℤ)
    → (text_eq name camera && is_nonzero w) ≡ false
    → synced name v w h ≡ true
unfolding synced
synced-narrow name v w h e = ground arith

synced-small :
    (name : Text) (v : View) (w h : ℤ)
    → (is_nonzero w && is_nonzero h) ≡ false
    → synced name v w h ≡ true
unfolding synced
synced-small name v w h e = ground arith

camera-not_packet : (name : Text) → text_eq name camera ≡ true → text_eq name media_packet ≡ false
unfolding text_eq
camera-not_packet name e = let p = (text_eq_iff name camera).0 e in rw p refl

packet-other : (name : Text) → text_eq name media_packet ≡ true → text_eq name camera ≡ false
unfolding text_eq
packet-other name e = let p = (text_eq_iff name media_packet).0 e in rw p refl

module _ (lib : Webrtc) where
  unfoldable pub in_sync : Manager → Bool
  unfolding synced view
  in_sync m = synced m.source_name (view lib m.stream) m.width m.height

  resized :
      (name : Text) (w h : ℤ) (s : Stream)
      → synced name (view lib (Stream.set_video_resolution lib w h s).0) w h ≡ true
  unfolding synced view
  resized name w h s =
      ap (λ v. synced name v w h) (view-set_video_resolution lib w h s)
      ∙ synced-sized name (view lib s) w h

  pub set_width-in_sync :
      (w : ℤ) (m : Manager) → in_sync m ≡ true → in_sync (set_width lib w m) ≡ true
  unfolding set_width in_sync
  set_width-in_sync w m h =
      let packet =
        text_eq m.source_name media_packet
        && is_nonzero m.height
        && is_nonzero m.frame_rate
        && has_format lib m in
      let filmed = text_eq m.source_name camera && is_nonzero m.height in
      elim (Bool-cases (int_eq m.width w)) [
        | inl e ↦ rw e h
        | inr e ↦ elim (Bool-cases packet) [
          | inl p ↦
              rw (e, p)
                (synced-other m.source_name
                  (view lib
                    (Stream.set_media_format lib m.width m.height m.frame_rate m.format m.stream).0)
                  w m.height (packet-other m.source_name (ground arith)))
          | inr p ↦ elim (Bool-cases filmed) [
            | inl c ↦ rw (e, p, c) (resized m.source_name w m.height m.stream)
            | inr c ↦ rw (e, p, c) (synced-flat m.source_name (view lib m.stream) w m.height c)
          ]
        ]
      ]

  pub set_height-in_sync :
      (height : ℤ) (m : Manager) → in_sync m ≡ true → in_sync (set_height lib height m) ≡ true
  unfolding set_height in_sync
  set_height-in_sync height m h =
      let packet =
        text_eq m.source_name media_packet
        && is_nonzero m.width
        && is_nonzero m.frame_rate
        && has_format lib m in
      let filmed = text_eq m.source_name camera && is_nonzero m.width in
      elim (Bool-cases (int_eq m.height height)) [
        | inl e ↦ rw e h
        | inr e ↦ elim (Bool-cases packet) [
          | inl p ↦
              rw (e, p)
                (synced-other m.source_name
                  (view lib
                    (Stream.set_media_format lib m.width height m.frame_rate m.format m.stream).0)
                  m.width height (packet-other m.source_name (ground arith)))
          | inr p ↦ elim (Bool-cases filmed) [
            | inl c ↦ rw (e, p, c) (resized m.source_name m.width height m.stream)
            | inr c ↦
                rw (e, p, c) (synced-narrow m.source_name (view lib m.stream) m.width height c)
          ]
        ]
      ]

  -- A change of the stream that the view does not show.
  unseen :
      (m : Manager) (s : Stream)
      → view lib s ≡ view lib m.stream
      → in_sync m ≡ true
      → synced m.source_name (view lib s) m.width m.height ≡ true
  unfolding in_sync
  unseen m s e h = ap (λ v. synced m.source_name v m.width m.height) e ∙ h

  pub set_frame_rate-in_sync :
      (rate : ℤ) (m : Manager) → in_sync m ≡ true → in_sync (set_frame_rate lib rate m) ≡ true
  unfolding set_frame_rate in_sync
  set_frame_rate-in_sync rate m h =
      let packet =
        text_eq m.source_name media_packet
        && is_nonzero m.width
        && is_nonzero m.height
        && has_format lib m in
      elim (Bool-cases (int_eq m.frame_rate rate)) [
        | inl e ↦ rw e h
        | inr e ↦ elim (Bool-cases packet) [
          | inl p ↦
              rw (e, p)
                (unseen m (Stream.set_media_format lib m.width m.height rate m.format m.stream).0
                  (view-set_media_format lib m.width m.height rate m.format m.stream) h)
          | inr p ↦ elim (Bool-cases (text_eq m.source_name camera)) [
            | inl c ↦
                rw (e, p, c)
                  (unseen m (Stream.set_video_frame_rate lib rate m.stream).0
                    (view-set_video_frame_rate lib rate m.stream) h)
            | inr c ↦ rw (e, p, c) h
          ]
        ]
      ]

  pub set_media_format-in_sync :
      (format : Text) (m : Manager)
      → in_sync m ≡ true
      → in_sync (set_media_format lib format m).0 ≡ true
  unfolding set_media_format in_sync is_supported_format
  set_media_format-in_sync format m h =
      let packet =
        text_eq m.source_name media_packet
        && is_nonzero m.width
        && is_nonzero m.height
        && is_nonzero m.frame_rate in
      elim (Bool-cases (text_eq m.format format)) [
        | inl e ↦ rw e h
        | inr e ↦
            elim (Bool-cases
              (not (text_eq format (codes "VP8")) && not (text_eq format (codes "H264")))) [
                | inl f ↦ rw (e, f) h
                | inr f ↦ elim (Bool-cases packet) [
                  | inl p ↦
                      rw (e, f, p)
                        (unseen m
                          (Stream.set_media_format lib m.width m.height m.frame_rate format
                            m.stream).0
                          (view-set_media_format lib m.width m.height m.frame_rate format m.stream)
                          h)
                  | inr p ↦ rw (e, f, p) h
                ]
              ]
      ]

  pub set_decode_codec-in_sync :
      (codec : Text) (m : Manager)
      → in_sync m ≡ true
      → in_sync (set_decode_codec lib codec m).0 ≡ true
  unfolding set_decode_codec in_sync is_supported_format
  set_decode_codec-in_sync codec m h = elim (Bool-cases (text_eq m.decode_codec codec)) [
    | inl e ↦ rw e h
    | inr e ↦
        elim (Bool-cases
          (not (text_eq codec (codes "VP8")) && not (text_eq codec (codes "H264")))) [
            | inl f ↦ rw (e, f) h
            | inr f ↦ elim (Bool-cases (text_eq m.source_name null_source)) [
              | inl p ↦
                  rw (e, f, p)
                    (unseen m (Stream.set_decode_codec lib codec m.stream)
                      (view-set_decode_codec lib codec m.stream) h)
              | inr p ↦ rw (e, f, p) h
            ]
          ]
  ]

  in_sync-other : (m : Manager) → text_eq m.source_name camera ≡ false → in_sync m ≡ true
  unfolding in_sync
  in_sync-other m e = synced-other m.source_name (view lib m.stream) m.width m.height e

  filmed-in_sync :
      (name : Text) (m : Manager)
      → let sized =
          if is_nonzero m.width && is_nonzero m.height
          then resolution_set lib m.width m.height m
          else m in
        let rated = if is_nonzero m.frame_rate then rate_set lib m.frame_rate sized else sized in
        in_sync (record rated { source_name = name }) ≡ true
  unfolding in_sync
  filmed-in_sync name m =
      let s = (Stream.set_video_resolution lib m.width m.height m.stream).0 in
      let r = resized name m.width m.height m.stream in
      elim (Bool-cases (is_nonzero m.width && is_nonzero m.height)) [
        | inl e ↦ elim (Bool-cases (is_nonzero m.frame_rate)) [
          | inl f ↦
              rw (e, f)
                (ap (λ v. synced name v m.width m.height)
                    (view-set_video_frame_rate lib m.frame_rate s)
                  ∙ r)
          | inr f ↦ rw (e, f) r
        ]
        | inr e ↦ elim (Bool-cases (is_nonzero m.frame_rate)) [
          | inl f ↦
              rw (e, f)
                (synced-small name
                  (view lib (Stream.set_video_frame_rate lib m.frame_rate m.stream).0) m.width
                  m.height e)
          | inr f ↦ rw (e, f) (synced-small name (view lib m.stream) m.width m.height e)
        ]
      ]

  pub set_source_type-in_sync :
      (name : Text) (m : Manager) → in_sync m ≡ true → in_sync (set_source_type lib name m) ≡ true
  unfolding set_source_type
  set_source_type-in_sync name m h = elim (Bool-cases (text_eq m.source_name name)) [
    | inl e ↦ rw e h
    | inr e ↦ elim (Bool-cases (text_eq name camera)) [
      | inl c ↦
          rw (e, camera-not_packet name c, c)
            (filmed-in_sync name (
              activated lib source_camera
                (with_stream (Stream.deactivate_source lib m.stream).0 m)))
      | inr c ↦ rw e (in_sync-other _ c)
    ]
  ]
