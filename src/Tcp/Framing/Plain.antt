-- ===== src/Tcp/Framing/Plain.antt =====
-- modules/tcp/TCP.cc: messages on a plain connection.
use aitt.Base.{
  ℕ, ◌+◌, ◌≤◌, ◌≡◌, refl, ap, ◌∙◌, [], ◌∷◌, ◌++◌, append_assoc, none, some, if◌then◌else◌, length,
  Text, All, subst, pos, int32_max, arith, is_empty,
}
use aitt.Types.{message_max}
use aitt.Tcp.Stream.{Line, SendEnd, sent, send_thrown, send_blocked, send, Source, received, recv}
use aitt.Tcp.Stream.Sending.{send-Wrote, Wrote}
use aitt.Tcp.Stream.Receiving.{Gives, recv-front}
use aitt.Tcp.Framing.{
  le32, to_int32, size_len, fixed_size, and_then, send_sized_normal, recv_sized_normal, returned,
  recv_after_size, recv_body,
}
use aitt.Tcp.Framing.Size.{pattern_of-le32, to_int32-pos}

and_then_rest :
    (a b : Text) (line line' : Line) (r : SendEnd)
    → Wrote line.out a r
    → and_then r (send b) ≡ sent line'
    → line'.out ≡ line.out ++ (a ++ b)
and_then_rest a b line line' (sent l) w e =
    subst (Wrote l.out b) e (send-Wrote b l) ∙ ap (λ o. o ++ b) w ∙ append_assoc line.out a b
and_then_rest a b line line' (send_thrown l) w e = cc
and_then_rest a b line line' (send_blocked l) w e = cc

-- All that one `Send` after another puts on the line when both return.
pub and_then-sent :
    (a b : Text) (line line' : Line)
    → and_then (send a line) (send b) ≡ sent line'
    → line'.out ≡ line.out ++ (a ++ b)
and_then-sent a b line line' e = and_then_rest a b line line' (send a line) (send-Wrote a line) e

-- What stands on the line for a message.
abbrev pub frame : Text → Text
frame bytes = le32 (fixed_size (length bytes)) ++ bytes

pub send_sized_normal-frame :
    (bytes : Text) (line line' : Line)
    → send_sized_normal bytes line ≡ sent line'
    → line'.out ≡ line.out ++ frame bytes
unfolding send_sized_normal
send_sized_normal-frame bytes line line' e = and_then-sent _ bytes line line' e

recv_body-front :
    (memory : ℕ → Text) (bytes rest : Text) (m : ℕ) (source : Source)
    → source.input ≡ bytes ++ rest
    → All Gives source.answers
    → length bytes + m ≤ length source.answers
    → (source' : Source) × (recv_body memory (length bytes) source
        ≡ returned (pos (length bytes)) (some bytes) source')
      × (source'.input ≡ rest)
      × All Gives source'.answers
      × (m ≤ length source'.answers)
unfolding recv_body
recv_body-front memory bytes rest m source e g h =
    let (source', r, i, g', h') = recv-front bytes rest m source e g h in
    (source', ground (arith, r), i, g', h')

-- After the size of a message that is not too long.
recv_after_size-front :
    (memory : ℕ → Text) (bytes rest : Text) (m : ℕ) (source : Source)
    → length bytes ≤ message_max
    → source.input ≡ bytes ++ rest
    → All Gives source.answers
    → length bytes + m ≤ length source.answers
    → (source' : Source) × (recv_after_size memory (pos (fixed_size (length bytes))) source
        ≡ returned (pos (length bytes)) (if is_empty bytes then none else some bytes) source')
      × (source'.input ≡ rest)
      × All Gives source'.answers
      × (m ≤ length source'.answers)
unfolding recv_after_size
recv_after_size-front memory [] rest m source small e g h = (source, refl, e, g, omega arith)
recv_after_size-front memory (b ∷ bytes) rest m source small e g h =
    let (source', r, i, g', h') = recv_body-front memory (b ∷ bytes) rest m source e g h in
    (source', ground (arith, r), i, g', h')

fixed_size-le : (n : ℕ) → n ≤ message_max → fixed_size n ≤ int32_max
fixed_size-le n h = ground arith

size-read :
    (memory : ℕ → Text) (n : ℕ) (source source' : Source)
    → n ≤ message_max
    → recv size_len source ≡ received (le32 (fixed_size n)) source'
    → recv_sized_normal memory source ≡ recv_after_size memory (pos (fixed_size n)) source'
unfolding recv_sized_normal
size-read memory n source source' h e =
    let k = fixed_size-le n h in
    rw (e, recv_sized_normal)
      (ap (λ z. recv_after_size memory z source')
        (ap to_int32 (pattern_of-le32 (fixed_size n) (omega arith))
          ∙ to_int32-pos (fixed_size n) k))

-- A message of at most AITT_MESSAGE_MAX bytes that stands on the line is handed over as it was
-- sent, with its length; an empty one as a null pointer with length 0. What follows it on the line
-- is left, so that the next message is read in its turn. The calls of `recv` do not fail, and
-- there are answers enough, m of which are left over.
pub recv_sized_normal-frame :
    (memory : ℕ → Text) (bytes rest : Text) (m : ℕ) (source : Source)
    → length bytes ≤ message_max
    → source.input ≡ frame bytes ++ rest
    → All Gives source.answers
    → size_len + (length bytes + m) ≤ length source.answers
    → (source' : Source) × (recv_sized_normal memory source
        ≡ returned (pos (length bytes)) (if is_empty bytes then none else some bytes) source')
      × (source'.input ≡ rest)
      × All Gives source'.answers
      × (m ≤ length source'.answers)
recv_sized_normal-frame memory bytes rest m source small here g many =
    let (s1, r1, i1, g1, h1) =
      recv-front (le32 (fixed_size (length bytes))) (bytes ++ rest) (length bytes + m) source
        (here ∙ append_assoc (le32 (fixed_size (length bytes))) bytes rest) g many in
    let (s2, r2, i2, g2, h2) = recv_after_size-front memory bytes rest m s1 small i1 g1 h1 in
    (s2, size-read memory (length bytes) source s1 small r1 ∙ r2, i2, g2, h2)

-- What `SendSizedData` puts on an empty plain line, when it returns, is what the receiver's
-- `RecvSizedData` takes off it: the payload with its length, or a null pointer with length 0 for
-- an empty one; what was sent later is left. The payload has at most AITT_MESSAGE_MAX bytes, the
-- calls of `recv` do not fail, and there is one for each byte.
pub recv_sized-send_sized :
    (memory : ℕ → Text) (bytes rest : Text) (line line' : Line) (source : Source)
    → length bytes ≤ message_max
    → line.out ≡ []
    → send_sized_normal bytes line ≡ sent line'
    → source.input ≡ line'.out ++ rest
    → All Gives source.answers
    → size_len + length bytes ≤ length source.answers
    → (source' : Source) × (recv_sized_normal memory source
        ≡ returned (pos (length bytes)) (if is_empty bytes then none else some bytes) source')
      × (source'.input ≡ rest)
recv_sized-send_sized memory bytes rest line line' source small fresh out here g many =
    let (s1, r, i, _, _) =
      recv_sized_normal-frame memory bytes rest 0 source small
        (here
          ∙ ap (λ o. o ++ rest)
              (send_sized_normal-frame bytes line line' out ∙ ap (λ o. o ++ frame bytes) fresh))
        g (omega arith) in
    (s1, r, i)
