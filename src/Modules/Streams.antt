-- ===== src/Modules/Streams.antt =====
-- src/ModuleManager.cc: the streams that are in use, and those that were deleted.
use aitt.Base.{
  ℕ, ◌+◌, ◌==◌, ◌≡◌, refl, ap, true, List, [], ◌∷◌, ◌++◌, Option, none, some, if◌then◌else◌,
  Bool-cases, inl, inr, arith, ==_iff,
}
use aitt.Types.{Result, ok, err, system_err}
use aitt.Modules.{
  Modules, Loading, TransportType, type_tcp, type_tcp_secure, type_transport_max, no_modules,
  new_modules, load_transport, open_transport, listed, StreamType, stream_type_webrtc,
  stream_type_rtsp, stream_type_other, get_stream_file_name, open_module, new_stream_module,
  create_stream, in_use, erase_stream, destroy_stream, destroy_stream_all, set_handle, has_handle,
  entered,
}

-- How often an address stands in a list.
unfoldable pub count : ℕ → List ℕ → ℕ
count a [] = 0
count a (b ∷ bs) = (if b == a then 1 else 0) + count a bs

count-append : (a : ℕ) (xs ys : List ℕ) → count a (xs ++ ys) ≡ count a xs + count a ys
unfolding count
count-append a [] ys = omega arith
count-append a (x ∷ xs) ys = let ih = count-append a xs ys in ground arith

-- Every stream that was made is in use or was deleted.
unfoldable pub IsKept : ℕ → Modules → Type 0
unfolding count
IsKept a m = count a m.streams_in_use + count a m.deleted ≡ count a m.created

erase-count :
    (a b : ℕ) (xs : List ℕ)
    → in_use b xs ≡ true
    → count a (erase_stream b xs) + (if b == a then 1 else 0) ≡ count a xs
unfolding count erase_stream in_use
erase-count a b [] h = ground arith
erase-count a b (x ∷ xs) h = elim (Bool-cases (x == b)) [
  | inl e ↦ rw e (let s = (==_iff x b).0 e in rw s (omega arith))
  | inr e ↦ rw e (let ih = erase-count a b xs (ground arith) in omega (arith, ih))
]

destroy_stream-IsKept : (a b : ℕ) (m : Modules) → IsKept a m → IsKept a (destroy_stream b m)
unfolding destroy_stream IsKept count
destroy_stream-IsKept a b m h = elim (Bool-cases (in_use b m.streams_in_use)) [
  | inl e ↦ rw e (let c = erase-count a b m.streams_in_use e in ground arith)
  | inr e ↦ rw e h
]

destroy_stream_all-IsKept : (a : ℕ) (m : Modules) → IsKept a m → IsKept a (destroy_stream_all m)
unfolding destroy_stream_all IsKept count
destroy_stream_all-IsKept a m h = let c = count-append a m.streams_in_use m.deleted in ground arith

destroyed :
    (a : ℕ) (m : Modules)
    → IsKept a m
    → count a (destroy_stream_all m).deleted ≡ count a (destroy_stream_all m).created
unfolding destroy_stream_all IsKept
destroyed a m h = let c = count-append a m.streams_in_use m.deleted in ground arith

no_modules-IsKept : (a : ℕ) → IsKept a no_modules
unfolding IsKept count
no_modules-IsKept a = refl

load_transport-IsKept :
    (a : ℕ) (l : Loading) (type : TransportType) (m : Modules)
    → IsKept a m
    → IsKept a (load_transport l type m)
unfolding load_transport open_transport open_module IsKept
load_transport-IsKept a l type_tcp m h = elim (Bool-cases l.opened) [
  | inr e ↦ rw e h
  | inl e ↦ elim (Bool-cases l.found) [ inr f ↦ rw (e, f) h | inl f ↦ rw (e, f) h ]
]
load_transport-IsKept a l type_tcp_secure m h = elim (Bool-cases l.opened) [
  | inr e ↦ rw e h
  | inl e ↦ elim (Bool-cases l.found) [ inr f ↦ rw (e, f) h | inl f ↦ rw (e, f) h ]
]
load_transport-IsKept a l type_transport_max m h = elim (Bool-cases l.opened) [
  | inr e ↦ rw e h
  | inl e ↦ elim (Bool-cases l.found) [ inr f ↦ rw (e, f) h | inl f ↦ rw (e, f) h ]
]

new_modules-IsKept : (a : ℕ) (plain encrypted : Loading) → IsKept a (new_modules plain encrypted)
unfolding new_modules
new_modules-IsKept a plain encrypted =
    load_transport-IsKept a encrypted type_tcp_secure _
      (load_transport-IsKept a plain type_tcp no_modules (no_modules-IsKept a))

-- What `new_stream_module` does to the lists.
Made : ℕ → Modules → Modules × Result ℕ → Type 0
Made a m (m', ok b) =
    (count a m'.created ≡ (if b == a then 1 else 0) + count a m.created)
    × ((m'.streams_in_use ≡ m.streams_in_use) × (m'.deleted ≡ m.deleted))
Made a m (m', err e) =
    (m'.created ≡ m.created) × ((m'.streams_in_use ≡ m.streams_in_use) × (m'.deleted ≡ m.deleted))

SameStreams : Modules → Modules → Type 0
SameStreams m m' =
    (m'.created ≡ m.created) × ((m'.streams_in_use ≡ m.streams_in_use) × (m'.deleted ≡ m.deleted))

entered-Made : (a : ℕ) (l : Loading) (m m' : Modules) → SameStreams m m' → Made a m (entered l m')
unfolding Made SameStreams count
entered-Made a l m m' s = elim (Bool-cases l.found) [ inr e ↦ rw e s | inl e ↦ rw e (made l.made) ]
  where
    made :
        (o : Option ℕ)
        → Made a m (elim o [
          | none ↦ (m', err system_err)
          | some b ↦ (record m' { created = b ∷ m'.created }, ok b)
        ])
    made none = s
    made (some b) = (ap (λ c. (if b == a then 1 else 0) + count a c) s.0, s.1)

set_handle-SameStreams :
    (type : StreamType) (m m' : Modules) → SameStreams m m' → SameStreams m (set_handle type m')
unfolding SameStreams
set_handle-SameStreams stream_type_webrtc m m' s = s
set_handle-SameStreams stream_type_rtsp m m' s = s
set_handle-SameStreams stream_type_other m m' s = s

new_stream_module-Made :
    (a : ℕ) (l : Loading) (type : StreamType) (m : Modules) → Made a m (new_stream_module l type m)
unfolding new_stream_module open_module Made SameStreams
new_stream_module-Made a l type m = elim (Bool-cases (has_handle type m)) [
  | inl e ↦ rw e (entered-Made a l m m (refl, (refl, refl)))
  | inr e ↦ elim (Bool-cases l.opened) [
    | inr f ↦ rw (e, f) (refl, (refl, refl))
    | inl f ↦
        let m' = (open_module l.opened (get_stream_file_name type) m).0 in
        rw (e, f)
          (entered-Made a l m (set_handle type m')
            (set_handle-SameStreams type m m' (refl, (refl, refl))))
  ]
]

listed-IsKept :
    (a : ℕ) (m : Modules) (r : Modules × Result ℕ) → Made a m r → IsKept a m → IsKept a (listed r).0
unfolding Made IsKept count
listed-IsKept a m (m', ok b) d h =
    let c = count-append a m'.streams_in_use (b ∷ []) in
    let d0 = d.0 in let d1 = d.1.0 in let d2 = d.1.1 in ground arith
listed-IsKept a m (m', err e) d h = let d0 = d.0 in let d1 = d.1.0 in let d2 = d.1.1 in ground arith

create_stream-IsKept :
    (a : ℕ) (l : Loading) (type : StreamType) (m : Modules)
    → IsKept a m
    → IsKept a (create_stream l type m).0
unfolding create_stream
create_stream-IsKept a l stream_type_other m h = h
create_stream-IsKept a l stream_type_webrtc m h =
    listed-IsKept a m (new_stream_module l stream_type_webrtc m)
      (new_stream_module-Made a l stream_type_webrtc m) h
create_stream-IsKept a l stream_type_rtsp m h =
    listed-IsKept a m (new_stream_module l stream_type_rtsp m)
      (new_stream_module-Made a l stream_type_rtsp m) h

pub data Use : Type 0 where
  creates : Loading → StreamType → Use
  destroys : ℕ → Use
  destroys_all : Use

unfoldable pub used_all : List Use → Modules → Modules
unfolding create_stream destroy_stream destroy_stream_all
used_all [] m = m
used_all (creates l type ∷ us) m = used_all us (create_stream l type m).0
used_all (destroys a ∷ us) m = used_all us (destroy_stream a m)
used_all (destroys_all ∷ us) m = used_all us (destroy_stream_all m)

used_all-IsKept : (us : List Use) (a : ℕ) (m : Modules) → IsKept a m → IsKept a (used_all us m)
unfolding used_all
used_all-IsKept [] a m h = h
used_all-IsKept (creates l type ∷ us) a m h =
    used_all-IsKept us a (create_stream l type m).0 (create_stream-IsKept a l type m h)
used_all-IsKept (destroys b ∷ us) a m h =
    used_all-IsKept us a (destroy_stream b m) (destroy_stream-IsKept a b m h)
used_all-IsKept (destroys_all ∷ us) a m h =
    used_all-IsKept us a (destroy_stream_all m) (destroy_stream_all-IsKept a m h)

-- After any sequence of `CreateStream`, `DestroyStream` and `DestroyStreamAll`, whatever the libraries
-- give and whatever is asked to be destroyed, each stream stands in the list of those in use and in
-- the deletions together as often as it was made; and at the end, when all are destroyed, it was
-- deleted exactly as often.
pub used_all-deleted :
    (us : List Use) (plain encrypted : Loading) (a : ℕ)
    → let m = used_all us (new_modules plain encrypted) in
      (count a m.streams_in_use + count a m.deleted ≡ count a m.created)
      × (count a (destroy_stream_all m).deleted ≡ count a (destroy_stream_all m).created)
unfolding IsKept
used_all-deleted us plain encrypted a =
    let k =
      used_all-IsKept us a (new_modules plain encrypted) (new_modules-IsKept a plain encrypted) in
    (k, destroyed a (used_all us (new_modules plain encrypted)) k)
