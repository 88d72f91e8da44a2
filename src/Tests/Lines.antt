-- ===== src/Tests/Lines.antt =====
-- The theorems on modules/tcp/TCP.cc and on the messages of modules/tcp/Module.cc at concrete lines.
use aitt.Base.{
  ℕ, zero, suc, ◌+◌, ◌≤◌, ◌≡◌, refl, ap, true, false, List, [], ◌∷◌, ◌++◌, none, some, length, Text,
  codes, pos, arith, All,
}
use aitt.Types.{mqtt}
use aitt.Msg.{AittMsg, new_msg}
use aitt.Tcp.Stream.{
  Line, wrote, sent, send, send_loop, Source, RecvAnswer, got, received, recv, minus_one,
}
use aitt.Tcp.Stream.Sending.{send-sent}
use aitt.Tcp.Stream.Receiving.{Gives, recv-received}
use aitt.Tcp.Framing.{
  le32, send_sized_normal, send_sized_secure, recv_sized_normal, recv_sized_secure, returned,
}
use aitt.Tcp.Framing.Plain.{frame, recv_sized-send_sized}
use aitt.Tcp.Framing.Secure.{
  buffers_size, recv_sized_secure-send_sized, recv_sized_secure-frame, recv_sized_secure_refused,
}
use aitt.Tcp.Info.{pack_msg_info, unpack_msg_info}
use aitt.Tcp.Info.Laws.{as_received, unpack-pack_msg_info}
use aitt.Tests.Ciphers.{filler, length-filler, padding, padding-IsCipher, padded_text}
use aitt.Tests.Buffers.{buffers, buffers-IsFlexbuffers}

-- n calls of `recv`, each of which gives a byte.
unfoldable pub gots : ℕ → List RecvAnswer
gots zero = []
gots (suc n) = got 0 ∷ gots n

pub gots-Gives : (n : ℕ) → All Gives (gots n)
unfolding gots
gots-Gives zero = tt
gots-Gives (suc n) = (tt, gots-Gives n)

pub length-gots : (n : ℕ) → length (gots n) ≡ n
unfolding gots
length-gots zero = refl
length-gots (suc n) = ap suc (length-gots n)

abbrev slow : Line
slow = record { answers = wrote 1 ∷ wrote 1 ∷ wrote 5 ∷ []; out = codes "x" }

send-sent_example : (line' : Line) × (send (codes "abc") slow ≡ sent line')
send-sent_example =
    send-sent (codes "abc") slow (omega arith, (omega arith, (omega arith, tt))) (omega arith)

abbrev source_abc : Source
source_abc = record { answers = got 1 ∷ got 0 ∷ got 7 ∷ []; input = codes "abcdef" }

recv-received_example :
    (source' : Source) × (recv 3 source_abc ≡ received (codes "abc") source')
    × (source'.input ≡ codes "def")
    × All Gives source'.answers
    × (0 ≤ length source'.answers)
recv-received_example =
    recv-received 3 0 source_abc (tt, (tt, (tt, tt))) (omega arith) (omega arith)

abbrev quick : Line
quick = record { answers = wrote 3 ∷ wrote 1 ∷ wrote 9 ∷ []; out = [] }

abbrev quick_done : Line
quick_done = record { answers = []; out = frame (codes "abc") }

quick_sent : send_sized_normal (codes "abc") quick ≡ sent quick_done
unfolding send_sized_normal send send_loop
quick_sent = refl

abbrev at_peer : Source
at_peer = record { answers = gots 7; input = frame (codes "abc") ++ codes "more" }

pub no_memory : ℕ → Text
no_memory n = []

recv_sized-send_sized_example :
    (source' : Source) × (recv_sized_normal no_memory at_peer
      ≡ returned (pos 3) (some (codes "abc")) source')
    × (source'.input ≡ codes "more")
recv_sized-send_sized_example =
    recv_sized-send_sized no_memory (codes "abc") (codes "more") quick quick_done at_peer
      (omega arith) refl quick_sent refl (gots-Gives 7) (omega (arith, length-gots 7))

abbrev cipher_abc : Text
cipher_abc = padded_text (codes "abc")

abbrev size_abc : Text
size_abc = padded_text (le32 (length cipher_abc))

abbrev secure_peer : Source
secure_peer = record { answers = gots 32; input = size_abc ++ (cipher_abc ++ codes "more") }

cipher_len : length size_abc + length cipher_abc ≤ 32
unfolding padded_text filler
cipher_len = omega arith

abbrev secure_line : Line
secure_line = record { answers = wrote 9 ∷ wrote 7 ∷ wrote 16 ∷ []; out = [] }

abbrev secure_done : Line
secure_done = record { answers = []; out = size_abc ++ cipher_abc }

secure_sent : send_sized_secure padding (codes "abc") secure_line ≡ sent secure_done
unfolding send_sized_secure send send_loop padded_text filler
secure_sent = refl

secure_done_len : length secure_done.out ≡ 32
unfolding padded_text filler
secure_done_len = refl

abbrev reads_secure : Source
reads_secure = record { answers = gots 32; input = secure_done.out ++ codes "more" }

recv_sized_secure-send_sized_example :
    (length secure_done.out ≡ buffers_size (codes "abc"))
    × ((source' : Source) × (recv_sized_secure padding no_memory reads_secure
          ≡ returned (pos 3) (some (codes "abc")) source')
        × (source'.input ≡ codes "more"))
recv_sized_secure-send_sized_example =
    recv_sized_secure-send_sized padding padding-IsCipher no_memory (λ p. (padded_text p, refl))
      (codes "abc") (codes "more") secure_line secure_done reads_secure (omega arith) refl
      secure_sent refl (gots-Gives 32) (omega (arith, secure_done_len, length-gots 32))

recv_sized_secure-frame_example :
    (source' : Source) × (recv_sized_secure padding no_memory secure_peer
      ≡ returned (pos 3) (some (codes "abc")) source')
    × (source'.input ≡ codes "more")
recv_sized_secure-frame_example =
    recv_sized_secure-frame padding padding-IsCipher no_memory (codes "abc") cipher_abc size_abc
      (codes "more") secure_peer (omega arith) refl refl refl (gots-Gives 32)
      (omega (arith, cipher_len, length-gots 32))

-- A payload of 268435440 bytes.
abbrev long : Text
long = filler 268435440

abbrev cipher_long : Text
cipher_long = padded_text long

abbrev size_long : Text
size_long = padded_text (le32 (length cipher_long))

abbrev long_peer : Source
long_peer = record { answers = gots 16; input = size_long ++ (cipher_long ++ []) }

size_long_len : length size_long ≤ 16
size_long_len = omega (arith, padding-IsCipher.padded (le32 (length cipher_long)) size_long refl)

recv_sized_secure_refused_example :
    (source' : Source) × (recv_sized_secure padding no_memory long_peer
      ≡ returned minus_one none source')
    × (source'.input ≡ cipher_long ++ [])
recv_sized_secure_refused_example =
    recv_sized_secure_refused padding padding-IsCipher no_memory long cipher_long size_long []
      long_peer (omega (arith, length-filler 268435440)) (omega (arith, length-filler 268435440))
      refl refl refl (gots-Gives 16) (omega (arith, size_long_len, length-gots 16))

abbrev news : AittMsg
news = record {
  topic = codes "a";
  correlation = [];
  reply_topic = codes "r";
  sequence = pos 3;
  end_sequence = false;
  id = 0;
  protocol = mqtt;
}

unpack-pack_msg_info_example :
    unpack_msg_info buffers new_msg (pack_msg_info buffers news true) ≡ as_received news true
unpack-pack_msg_info_example =
    unpack-pack_msg_info buffers news true buffers-IsFlexbuffers (omega arith)
