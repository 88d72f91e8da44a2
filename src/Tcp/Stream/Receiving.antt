-- ===== src/Tcp/Stream/Receiving.antt =====
-- modules/tcp/TCP.cc: `Recv` reads exactly what it was asked for, from the front of the input.
use aitt.Base.{
  ℕ, zero, suc, ◌+◌, ◌-◌, ◌≤◌, ◌<◌, min, ◌≡◌, refl, sym, ap, ◌∙◌, inl, inr, List, [], ◌∷◌, ◌++◌,
  append-nil, append_assoc, ltb, length, take, drop, take-append-drop, take-length-append,
  drop-length-append, length-append, length-take, length-drop, Text, All, arith, Bool-cases, ltb→lt,
  lt→ltb, le→ltb, take-add,
}
use native.Mathlib.Nat.{sub-zero, suc-sub-suc}
use aitt.Tcp.Stream.{
  RecvAnswer, recv_refused, closed, got, Source, RecvEnd, received, recv_failed, recv_waits,
  recv_loop, recv,
}

-- What `Recv` hands over is what stood in front of the input, as much as was asked for.
abbrev pub Read : ℕ → Text → Text → RecvEnd → Type 0
Read n input buffer (received bytes source) =
    (t : Text) × (bytes ≡ buffer ++ t) × (length t ≡ n) × (input ≡ t ++ source.input)
Read n input buffer (recv_failed code bytes source) =
    (t : Text) × (bytes ≡ buffer ++ t) × (length t < n) × (input ≡ t ++ source.input)
Read n input buffer recv_waits = Unit {0}

Read-cons :
    (n : ℕ) (input buffer : Text) (t : ℕ) (r : RecvEnd)
    → t ≤ n
    → t ≤ length input
    → Read (n - t) (drop t input) (buffer ++ take t input) r
    → Read n input buffer r
Read-cons n input buffer t (received bytes source) h k (u, e, l, i) = (
  take t input ++ u,
  e ∙ append_assoc buffer (take t input) u,
  omega (arith, length-append (take t input) u, length-take t input),
  sym (take-append-drop t input)
      ∙ ap (◌++◌ (take t input)) i
      ∙ sym (append_assoc (take t input) u source.input),
)
Read-cons n input buffer t (recv_failed code bytes source) h k (u, e, l, i) = (
  take t input ++ u,
  e ∙ append_assoc buffer (take t input) u,
  omega (arith, length-append (take t input) u, length-take t input),
  sym (take-append-drop t input)
      ∙ ap (◌++◌ (take t input)) i
      ∙ sym (append_assoc (take t input) u source.input),
)
Read-cons n input buffer t recv_waits h k r = tt

recv_loop-Read :
    (answers : List RecvAnswer) (input : Text) (n : ℕ) (buffer : Text)
    → Read n input buffer (recv_loop answers input n buffer)
unfolding recv_loop
recv_loop-Read [] input n buffer = elim (Bool-cases (ltb 0 n)) [
  | inl e ↦ rw e tt
  | inr e ↦ rw e ([], sym (append-nil buffer), ground arith, refl)
]
recv_loop-Read (recv_refused ∷ answers) input n buffer = elim (Bool-cases (ltb 0 n)) [
  | inl e ↦ rw e ([], sym (append-nil buffer), ground arith, refl)
  | inr e ↦ rw e ([], sym (append-nil buffer), ground arith, refl)
]
recv_loop-Read (closed ∷ answers) input n buffer = elim (Bool-cases (ltb 0 n)) [
  | inl e ↦ rw e ([], sym (append-nil buffer), ground arith, refl)
  | inr e ↦ rw e ([], sym (append-nil buffer), ground arith, refl)
]
recv_loop-Read (got k ∷ answers) input n buffer =
    let t = min (suc k) (min n (length input)) in
    elim (Bool-cases (ltb 0 n)) [
      | inl e ↦ elim (Bool-cases (ltb 0 (length input))) [
        | inl f ↦
            rw (e, f)
              (Read-cons n input buffer t _ (omega arith) (omega arith)
                (recv_loop-Read answers (drop t input) (n - t) (buffer ++ take t input)))
        | inr f ↦ rw (e, f) tt
      ]
      | inr e ↦ rw e ([], sym (append-nil buffer), ground arith, refl)
    ]

-- `Recv` reads from the front of the input, in order: all that was asked for when it returns a
-- size, and less when it returns an error. What it has not handed over is still to be read.
pub recv-Read : (n : ℕ) (source : Source) → Read n source.input [] (recv n source)
unfolding recv
recv-Read n source = recv_loop-Read source.answers source.input n []

abbrev pub Gives : RecvAnswer → Type 0
Gives (got k) = Unit {0}
Gives recv_refused = ⊥
Gives closed = ⊥

-- What follows a call that got all it asked for: the rest of the input, and m answers at least.
record Leaves (n m : ℕ) (input buffer : Text) (r : RecvEnd) : Type 0 where
  source : Source
  gets : r ≡ received (buffer ++ take n input) source
  input_left : source.input ≡ drop n input
  gives : All Gives source.answers
  many : m ≤ length source.answers

drop_nil : (t : ℕ) → drop t (let xs : Text = [] in xs) ≡ []
drop_nil zero = refl
drop_nil (suc t) = refl

drop-drop : (n t : ℕ) (xs : Text) → t ≤ n → drop (n - t) (drop t xs) ≡ drop n xs
drop-drop n zero xs h = rw sub-zero
drop-drop zero (suc t) xs h = elim h [ ]
drop-drop (suc n) (suc t) [] h = drop_nil (suc n - suc t)
drop-drop (suc n) (suc t) (x ∷ xs) h = rw suc-sub-suc (drop-drop n t xs (omega arith))

Leaves-zero :
    (n m : ℕ) (input buffer : Text) (answers : List RecvAnswer)
    → n ≡ 0
    → All Gives answers
    → m ≤ length answers
    → Leaves n m input buffer (received buffer (record { answers = answers; input = input }))
Leaves-zero n m input buffer answers e g h = record {
  source = record { answers = answers; input = input };
  gets = rw e (ap (λ b. received b _) (sym (append-nil buffer)));
  input_left = rw e;
  gives = g;
  many = h;
}

Leaves-cons :
    (n m t : ℕ) (input buffer : Text) (r : RecvEnd)
    → t ≤ n
    → Leaves (n - t) m (drop t input) (buffer ++ take t input) r
    → Leaves n m input buffer r
Leaves-cons n m t input buffer r h l = record {
  source = l.source;
  gets =
      l.gets
      ∙ ap (λ b. received b l.source)
          (append_assoc buffer (take t input) (take (n - t) (drop t input))
            ∙ ap (◌++◌ buffer) (take-add t (n - t) input ∙ ap (λ k. take k input) (omega arith)));
  input_left = l.input_left ∙ drop-drop n t input h;
  gives = l.gives;
  many = l.many;
}

recv_loop-Leaves :
    (answers : List RecvAnswer) (input : Text) (n m : ℕ) (buffer : Text)
    → All Gives answers
    → n + m ≤ length answers
    → n ≤ length input
    → Leaves n m input buffer (recv_loop answers input n buffer)
unfolding recv_loop
recv_loop-Leaves [] input n m buffer g h k =
    rw (le→ltb 0 n (omega arith)) (Leaves-zero n m input buffer [] (omega arith) g (omega arith))
recv_loop-Leaves (recv_refused ∷ answers) input n m buffer g h k = absurd g.0
recv_loop-Leaves (closed ∷ answers) input n m buffer g h k = absurd g.0
recv_loop-Leaves (got j ∷ answers) input n m buffer g h k =
    let t = min (suc j) (min n (length input)) in
    elim (Bool-cases (ltb 0 n)) [
      | inl e ↦
          let some_left : 0 < length input = omega (arith, ltb→lt 0 n e) in
          rw (e, lt→ltb 0 (length input) some_left)
            (Leaves-cons n m t input buffer _ (omega arith) (
              recv_loop-Leaves answers (drop t input) (n - t) m (buffer ++ take t input) g.1
                (omega (arith, ltb→lt 0 n e)) (omega (arith, length-drop t input))))
      | inr e ↦ rw e (Leaves-zero n m input buffer (got j ∷ answers) (ground arith) g (omega arith))
    ]

-- `Recv` returns what it was asked for if no call of `recv` fails or meets the end, the bytes have
-- been sent, and there is an answer for each byte; m answers are left over.
pub recv-received :
    (n m : ℕ) (source : Source)
    → All Gives source.answers
    → n + m ≤ length source.answers
    → n ≤ length source.input
    → (source' : Source) × (recv n source ≡ received (take n source.input) source')
      × (source'.input ≡ drop n source.input)
      × All Gives source'.answers
      × (m ≤ length source'.answers)
unfolding recv
recv-received n m source g h k =
    let l = recv_loop-Leaves source.answers source.input n m [] g h k in
    (l.source, l.gets, l.input_left, l.gives, l.many)

-- The same, when the input is known to begin with some text.
pub recv-front :
    (front rest : Text) (m : ℕ) (source : Source)
    → source.input ≡ front ++ rest
    → All Gives source.answers
    → length front + m ≤ length source.answers
    → (source' : Source) × (recv (length front) source ≡ received front source')
      × (source'.input ≡ rest)
      × All Gives source'.answers
      × (m ≤ length source'.answers)
recv-front front rest m source e g h =
    let (source', r, i, g', h') =
      recv-received (length front) m source g h
        (omega (arith, ap length e, length-append front rest)) in
    (
      source',
      r ∙ ap (λ b. received b source') (ap (take (length front)) e ∙ take-length-append front rest),
      i ∙ ap (drop (length front)) e ∙ drop-length-append front rest,
      g',
      h',
    )
