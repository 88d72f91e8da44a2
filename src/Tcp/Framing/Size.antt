-- ===== src/Tcp/Framing/Size.antt =====
-- modules/tcp/TCP.cc: the four bytes of a size are read as the size.
use aitt.Base.{ℕ, ◌+◌, ◌*◌, ◌/◌, ◌%◌, ◌<◌, ◌≤◌, ◌≡◌, pos, int32_max, arith}
use aitt.Tcp.Framing.{le32, pattern_of, to_int32, get_cryptogram_size}
use aitt.Types.{message_max}

pub pattern_of-le32 : (n : ℕ) → n < 4294967296 → pattern_of (le32 n) ≡ n
pattern_of-le32 n h = omega arith

pub to_int32-pos : (n : ℕ) → n ≤ int32_max → to_int32 n ≡ pos n
to_int32-pos n h = ground arith

-- How long the ciphertext of a text is: whole blocks, with at least one byte of padding.
abbrev pub padded_size : ℕ → ℕ
padded_size n = (n / 16 + 1) * 16

pub get_cryptogram_size-pos : (n : ℕ) → n < 2147483632 → get_cryptogram_size n ≡ pos (padded_size n)
unfolding get_cryptogram_size
get_cryptogram_size-pos n h =
    let e : padded_size n % 4294967296 ≡ padded_size n = omega arith in
    rw e (to_int32-pos (padded_size n) (omega arith))

pub padded_size_fits : (n : ℕ) → n < 268435440 → padded_size n ≤ message_max
padded_size_fits n h = omega arith

pub padded_size_exceeds :
    (n : ℕ) → 268435440 ≤ n → n ≤ message_max → padded_size n ≡ message_max + 1
padded_size_exceeds n h k = omega arith
