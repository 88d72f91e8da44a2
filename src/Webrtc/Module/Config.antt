-- ===== src/Webrtc/Module/Config.antt =====
-- modules/webrtc/Module.cc: what any sequence of `SetConfig` keeps, refused ones included.
use aitt.Base.{
  ◌≡◌, ◌≢◌, Bool, true, false, List, [], ◌∷◌, Option, none, some, Text, codes, text_eq,
  if◌then◌else◌, ℤ, stoi, Bool-cases, inl, inr,
}
use aitt.Types.{Result, ok, err, resource_busy_err}
use aitt.Webrtc.Library.{Call, Webrtc}
use aitt.Webrtc.Manager.{
  Manager, set_width, set_height, set_frame_rate, set_media_format, set_source_type,
  set_decode_codec,
}
use aitt.Webrtc.Manager.Camera.{
  in_sync, set_width-in_sync, set_height-in_sync, set_frame_rate-in_sync, set_media_format-in_sync,
  set_decode_codec-in_sync, set_source_type-in_sync,
}
use aitt.Webrtc.Manager.Sources.{
  HasOne, set_width-HasOne, set_height-HasOne, set_frame_rate-HasOne, set_media_format-HasOne,
  set_decode_codec-HasOne, set_source_type-HasOne,
}
use aitt.Webrtc.Module.{
  Module, configure, set_config, caught, positive_then, number_then, is_positive,
}

-- What every setter keeps.
record Keeps (lib : Webrtc) (P : Manager → Type 0) : Type 0 where
  width : (n : ℤ) (m : Manager) → P m → P (set_width lib n m)
  height : (n : ℤ) (m : Manager) → P m → P (set_height lib n m)
  frame_rate : (n : ℤ) (m : Manager) → P m → P (set_frame_rate lib n m)
  media_format : (t : Text) (m : Manager) → P m → P (set_media_format lib t m).0
  source_type : (t : Text) (m : Manager) → P m → P (set_source_type lib t m)
  decode_codec : (t : Text) (m : Manager) → P m → P (set_decode_codec lib t m).0

module _ (lib : Webrtc) (P : Manager → Type 0) (keeps : Keeps lib P) where
  positive-kept :
      (value : Option ℤ) (f : ℤ → Manager) (m : Manager)
      → ((n : ℤ) → P (f n))
      → P m
      → P (positive_then value f m).0
  positive-kept none f m k h = h
  positive-kept (some n) f m k h = elim (Bool-cases (is_positive n)) [
    | inl e ↦ rw e (k n)
    | inr e ↦ rw e h
  ]

  number-kept :
      (value : Option ℤ) (f : ℤ → Manager) (m : Manager)
      → ((n : ℤ) → P (f n))
      → P m
      → P (number_then value (λ n. (f n, ok tt)) m).0
  number-kept none f m k h = h
  number-kept (some n) f m k h = k n

  configure-kept : (key value : Text) (m : Manager) → P m → P (configure lib key value m).0
  unfolding configure
  configure-kept key value m h = elim (Bool-cases (text_eq key (codes "WIDTH"))) [
    | inl e ↦
        rw e (positive-kept (stoi value) (λ n. set_width lib n m) m (λ n. keeps.width n m h) h)
    | inr e ↦ elim (Bool-cases (text_eq key (codes "HEIGHT"))) [
      | inl f ↦
          rw (e, f)
            (positive-kept (stoi value) (λ n. set_height lib n m) m (λ n. keeps.height n m h) h)
      | inr f ↦ elim (Bool-cases (text_eq key (codes "FRAME_RATE"))) [
        | inl g ↦
            rw (e, f, g)
              (number-kept (stoi value) (λ n. set_frame_rate lib n m) m
                (λ n. keeps.frame_rate n m h) h)
        | inr g ↦ elim (Bool-cases (text_eq key (codes "MEDIA_FORMAT"))) [
          | inl i ↦ rw (e, f, g, i) (keeps.media_format value m h)
          | inr i ↦ elim (Bool-cases (text_eq key (codes "SOURCE_TYPE"))) [
            | inl j ↦ rw (e, f, g, i, j) (keeps.source_type value m h)
            | inr j ↦ elim (Bool-cases (text_eq key (codes "DECODE_CODEC"))) [
              | inl k ↦ rw (e, f, g, i, j, k) (keeps.decode_codec value m h)
              | inr k ↦ rw (e, f, g, i, j, k) h
            ]
          ]
        ]
      ]
    ]
  ]

  either-kept :
      (b : Bool) (x y : Module × Result (Unit {0}))
      → P x.0.manager
      → P y.0.manager
      → P (if b then x else y).0.manager
  either-kept true x y h k = h
  either-kept false x y h k = k

  caught-kept : (r : Manager × Result (Unit {0})) (m : Module) → P r.0 → P (caught r m).0.manager
  caught-kept (m', ok u) m h = h
  caught-kept (m', err e) m h = h

  set_config-kept :
      (key value : Text) (m : Module) → P m.manager → P (set_config lib key value m).0.manager
  unfolding set_config
  set_config-kept key value m h =
      either-kept m.manager.is_started (m, err resource_busy_err)
        (caught (configure lib key value m.manager) m) h
        (caught-kept (configure lib key value m.manager) m (configure-kept key value m.manager h))

-- Calls of `SetConfig`, one after the other.
unfoldable pub config_all : Webrtc → List (Text × Text) → Module → Module
unfolding set_config
config_all lib [] m = m
config_all lib ((key, value) ∷ rest) m = config_all lib rest (set_config lib key value m).0

config_all-kept :
    (lib : Webrtc) (P : Manager → Type 0) (keeps : Keeps lib P) (configs : List (Text × Text))
    (m : Module)
    → P m.manager
    → P (config_all lib configs m).manager
unfolding config_all
config_all-kept lib P keeps [] m h = h
config_all-kept lib P keeps ((key, value) ∷ rest) m h =
    config_all-kept lib P keeps rest (set_config lib key value m).0
      (set_config-kept lib P keeps key value m h)

-- Whatever is configured, in whatever order, and whatever the library refuses: a camera that has a
-- source, a width and a height has them as the last resolution that the library was given, when that
-- was so at the beginning.
pub config_all-in_sync :
    (lib : Webrtc) (configs : List (Text × Text)) (m : Module)
    → in_sync lib m.manager ≡ true
    → in_sync lib (config_all lib configs m).manager ≡ true
config_all-in_sync lib configs m h =
    let keeps : Keeps lib (λ x. in_sync lib x ≡ true) = record {
      width = set_width-in_sync lib;
      height = set_height-in_sync lib;
      frame_rate = set_frame_rate-in_sync lib;
      media_format = set_media_format-in_sync lib;
      source_type = set_source_type-in_sync lib;
      decode_codec = set_decode_codec-in_sync lib;
    } in
    config_all-kept lib (λ x. in_sync lib x ≡ true) keeps configs m h

-- Whatever is configured, and whatever the library refuses: when the library names no source 0, a
-- stream that knows of its source has exactly one attached, and one that knows of none has none,
-- when that was so at the beginning.
pub config_all-HasOne :
    (lib : Webrtc) (configs : List (Text × Text)) (m : Module)
    → (named : (calls : List Call) (c : Call) → lib.gives calls c ≢ 0) → HasOne lib m.manager
    → HasOne lib (config_all lib configs m).manager
config_all-HasOne lib configs m named h =
    let keeps : Keeps lib (HasOne lib) = record {
      width = set_width-HasOne lib named;
      height = set_height-HasOne lib named;
      frame_rate = set_frame_rate-HasOne lib named;
      media_format = set_media_format-HasOne lib named;
      source_type = set_source_type-HasOne lib named;
      decode_codec = set_decode_codec-HasOne lib named;
    } in
    config_all-kept lib (HasOne lib) keeps configs m h
