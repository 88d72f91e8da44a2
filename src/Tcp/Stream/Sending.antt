-- ===== src/Tcp/Stream/Sending.antt =====
-- modules/tcp/TCP.cc: `Send` writes all the data, however the operating system cuts it up.
use aitt.Base.{
  ℕ, ◌+◌, ◌-◌, ◌≤◌, ◌<◌, min, ◌≡◌, refl, ap, inl, inr, List, [], ◌∷◌, ◌++◌, append-nil,
  append_assoc, ltb, length, take, drop, Text, All, arith, Bool-cases, ltb→lt, take-add, take_all,
}
use aitt.Tcp.Stream.{
  SendAnswer, refused, wrote, Line, SendEnd, sent, send_thrown, send_blocked, send_loop, send,
}

-- What has been taken when a call ends, and whether that was all.
abbrev pub Wrote : Text → Text → SendEnd → Type 0
Wrote before bytes (sent line) = line.out ≡ before ++ bytes
Wrote before bytes (send_thrown line) =
    (n : ℕ) × (n < length bytes) × (line.out ≡ before ++ take n bytes)
Wrote before bytes (send_blocked line) =
    (n : ℕ) × (n < length bytes) × (line.out ≡ before ++ take n bytes)

send_loop-Wrote :
    (answers : List SendAnswer) (before bytes : Text) (n : ℕ)
    → n ≤ length bytes
    → Wrote before bytes (send_loop answers bytes n (before ++ take n bytes))
unfolding send_loop
send_loop-Wrote [] before bytes n h = elim (Bool-cases (ltb n (length bytes))) [
  | inl e ↦ rw e (n, ltb→lt n (length bytes) e, refl)
  | inr e ↦ rw e (ap (◌++◌ before) (take_all n bytes (ground arith)))
]
send_loop-Wrote (refused ∷ answers) before bytes n h = elim (Bool-cases (ltb n (length bytes))) [
  | inl e ↦ rw e (n, ltb→lt n (length bytes) e, refl)
  | inr e ↦ rw e (ap (◌++◌ before) (take_all n bytes (ground arith)))
]
send_loop-Wrote (wrote k ∷ answers) before bytes n h =
    let t = min k (length bytes - n) in
    elim (Bool-cases (ltb n (length bytes))) [
      | inl e ↦ rw e (
          rw (append_assoc before (take n bytes) (take t (drop n bytes)), take-add n t bytes)
            (send_loop-Wrote answers before bytes (n + t) (omega arith)))
      | inr e ↦ rw e (ap (◌++◌ before) (take_all n bytes (ground arith)))
    ]

-- When `Send` returns, all of the data is behind what was sent before, in order; when it throws or
-- waits, a part of it from the front is, and not all.
pub send-Wrote : (bytes : Text) (line : Line) → Wrote line.out bytes (send bytes line)
unfolding send
send-Wrote bytes line =
    rw (append-nil line.out) at (send_loop-Wrote line.answers line.out bytes 0 (omega arith))

abbrev pub Writes : SendAnswer → Type 0
Writes refused = ⊥
Writes (wrote k) = 0 < k

send_loop-sent :
    (answers : List SendAnswer) (bytes : Text) (n : ℕ) (out : Text)
    → All Writes answers
    → length bytes - n ≤ length answers
    → (line : Line) × (send_loop answers bytes n out ≡ sent line)
unfolding send_loop
send_loop-sent [] bytes n out w h = (record { answers = []; out = out }, ground arith)
send_loop-sent (refused ∷ answers) bytes n out w h = absurd w.0
send_loop-sent (wrote k ∷ answers) bytes n out w h =
    let t = min k (length bytes - n) in
    elim (Bool-cases (ltb n (length bytes))) [
      | inl e ↦
          rw e
            (send_loop-sent answers bytes (n + t) (out ++ take t (drop n bytes)) w.1 (ground arith))
      | inr e ↦ rw e (_, refl)
    ]

-- `Send` returns if every call of `send` takes a byte and there is a call for each byte.
pub send-sent :
    (bytes : Text) (line : Line)
    → All Writes line.answers
    → length bytes ≤ length line.answers
    → (line' : Line) × (send bytes line ≡ sent line')
unfolding send
send-sent bytes line w h = send_loop-sent line.answers bytes 0 line.out w (omega arith)
