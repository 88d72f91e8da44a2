-- ===== src/Loop/Watches.antt =====
-- common/PosixMainLoop.cc: what `CheckWatch` does to one watch depends on its own events alone.
use aitt.Base.{
  ℕ, ◌==◌, ◌≡◌, ◌∙◌, refl, ap, sym, Bool, true, false, List, [], ◌∷◌, Option, none, some,
  if◌then◌else◌, lookup, insert, number_key, ==_iff, ◌⊎◌, lookup-insert, lookup-erase, arith,
  Option-cases, Bool-cases, inl, inr,
}
use aitt.Loop.{Loop, Entry, Event, Ready, is_ready, event_of, check_one, check_watch, remove_watch}

-- A watch after the events of its descriptor.
unfoldable pub watched : (Entry → Bool) → List Ready → ℕ → Option Entry → Option Entry
watched removes [] fd o = o
watched removes (r ∷ rs) fd none = none
watched removes (r ∷ rs) fd (some w) =
    if is_ready r
    then (if r.fd == fd
        then (let e : Entry = record w { result = event_of r w.result } in
            if removes e then none else watched removes rs fd (some e))
        else watched removes rs fd (some w))
    else watched removes rs fd (some w)

module _ (call : Entry → Event → Loop → Loop × Bool) (removes : Entry → Bool)
    (quiet : (e : Entry) (q : Loop) → call e e.result q ≡ (q, removes e)) where
  watched-none : (rs : List Ready) (fd : ℕ) → watched removes rs fd none ≡ none
  unfolding watched
  watched-none [] fd = refl
  watched-none (r ∷ rs) fd = refl

  check_one-lookup :
      (r : Ready) (w : Entry) (q : Loop) (fd : ℕ)
      → lookup r.fd q.watch_table ≡ some w
      → let e : Entry = record w { result = event_of r w.result } in
        lookup fd (check_one call r w q).watch_table
        ≡ (if r.fd == fd then (if removes e then none else some e) else lookup fd q.watch_table)
  unfolding check_one remove_watch
  check_one-lookup r w q fd h =
      let e : Entry = record w { result = event_of r w.result } in
      let table = insert r.fd e q.watch_table in
      let c = quiet e (record q { watch_table = table }) in
      let i = lookup-insert r.fd fd e q.watch_table in
      let j = lookup-insert r.fd r.fd e q.watch_table in
      let k = lookup-erase r.fd fd table in
      elim (Bool-cases (removes e)) [ inl b ↦ ground arith | inr b ↦ ground arith ]

  -- An event that concerns no watch, or none of this descriptor.
  watched-skip :
      (r : Ready) (rs : List Ready) (fd : ℕ) (o : Option Entry)
      → (is_ready r ≡ false) ⊎ (r.fd == fd ≡ false)
      → watched removes (r ∷ rs) fd o ≡ watched removes rs fd o
  unfolding watched
  watched-skip r rs fd none c = sym (watched-none rs fd)
  watched-skip r rs fd (some w) (inl e) = ground arith
  watched-skip r rs fd (some w) (inr e) = elim (Bool-cases (is_ready r)) [
    | inl b ↦ ground arith
    | inr b ↦ ground arith
  ]

  watched-hit :
      (r : Ready) (rs : List Ready) (fd : ℕ) (w : Entry)
      → is_ready r ≡ true
      → r.fd == fd ≡ true
      → let e : Entry = record w { result = event_of r w.result } in
        watched removes (r ∷ rs) fd (some w)
        ≡ watched removes rs fd (if removes e then none else some e)
  unfolding watched
  watched-hit r rs fd w a b =
      let e : Entry = record w { result = event_of r w.result } in
      let n = watched-none rs fd in
      elim (Bool-cases (removes e)) [ inl c ↦ ground arith | inr c ↦ ground arith ]

  unwatched :
      (r : Ready) (rs : List Ready) (q : Loop) (fd : ℕ)
      → lookup r.fd q.watch_table ≡ none
      → watched removes rs fd (lookup fd q.watch_table)
        ≡ watched removes (r ∷ rs) fd (lookup fd q.watch_table)
  unwatched r rs q fd n = elim (Bool-cases (r.fd == fd)) [
    | inr b ↦ sym (watched-skip r rs fd (lookup fd q.watch_table) (inr b))
    | inl b ↦
        let same : lookup fd q.watch_table ≡ none =
          ap (λ x. lookup x q.watch_table) (sym ((==_iff r.fd fd).0 b)) ∙ n in
        ap (watched removes rs fd) same
        ∙ watched-none rs fd
        ∙ sym (watched-none (r ∷ rs) fd)
        ∙ ap (watched removes (r ∷ rs) fd) (sym same)
  ]

  told :
      (r : Ready) (rs : List Ready) (q : Loop) (fd : ℕ) (w : Entry)
      → is_ready r ≡ true
      → lookup r.fd q.watch_table ≡ some w
      → let e : Entry = record w { result = event_of r w.result } in
        watched removes rs fd
          (if r.fd == fd then (if removes e then none else some e) else lookup fd q.watch_table)
        ≡ watched removes (r ∷ rs) fd (lookup fd q.watch_table)
  told r rs q fd w a n = elim (Bool-cases (r.fd == fd)) [
    | inr b ↦ rw b (sym (watched-skip r rs fd (lookup fd q.watch_table) (inr b)))
    | inl b ↦
        let same : lookup fd q.watch_table ≡ some w =
          ap (λ x. lookup x q.watch_table) (sym ((==_iff r.fd fd).0 b)) ∙ n in
        rw (b, same) (sym (watched-hit r rs fd w a b))
  ]

  -- Callbacks that do nothing to the loop: the watch of a descriptor is taken away by the first of
  -- its events at which its callback asks for that, and else stays, with the last event that it was
  -- told; what happens to the other descriptors does not matter.
  pub check_watch-lookup :
      (rs : List Ready) (q : Loop) (fd : ℕ)
      → lookup fd (check_watch call rs q).0.watch_table
        ≡ watched removes rs fd (lookup fd q.watch_table)
  unfolding check_watch watched
  check_watch-lookup [] q fd = refl
  check_watch-lookup (r ∷ rs) q fd =
      let ih = check_watch-lookup rs q fd in
      elim (Bool-cases (is_ready r)) [
        | inr a ↦ rw a (ih ∙ sym (watched-skip r rs fd (lookup fd q.watch_table) (inl a)))
        | inl a ↦ elim (Option-cases (lookup r.fd q.watch_table)) [
          | inl n ↦ rw (a, n) (ih ∙ unwatched r rs q fd n)
          | inr (w, n) ↦
              rw (a, n)
                (check_watch-lookup rs (check_one call r w q) fd
                  ∙ ap (watched removes rs fd) (check_one-lookup r w q fd n)
                  ∙ told r rs q fd w a n)
        ]
      ]
