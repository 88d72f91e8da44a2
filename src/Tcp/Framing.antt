-- ===== src/Tcp/Framing.antt =====
-- modules/tcp/TCP.cc: `SendSizedData` and `RecvSizedData`, plain and encrypted, and
-- `GetCryptogramSize` of modules/tcp/AESEncryptor.cc. A size is four bytes, the least one first.
pub mod Size
pub mod Plain
pub mod Secure
use aitt.Base.{
  ℕ, zero, suc, ◌+◌, ◌-◌, ◌*◌, ◌/◌, ◌%◌, Bool, List, [], ◌∷◌, ◌++◌, Option, none, some,
  if◌then◌else◌, ltb, ◌==◌, length, take, Text, ℤ, pos, negsuc, int32_max,
}
use aitt.Types.{message_max}
use aitt.Tcp.Stream.{
  Line, SendEnd, sent, send_thrown, send_blocked, send, Source, RecvEnd, received, recv_failed,
  recv_waits, recv, minus_one,
}

-- The bytes of an `int32_t`, given by its bit pattern.
abbrev pub le32 : ℕ → Text
le32 n = n % 256 ∷ n / 256 % 256 ∷ n / 65536 % 256 ∷ n / 16777216 % 256 ∷ []

abbrev pub pattern_of : Text → ℕ
pattern_of [] = 0
pattern_of (b ∷ bs) = b + 256 * pattern_of bs

-- The `int32_t` of a bit pattern.
abbrev pub to_int32 : ℕ → ℤ
to_int32 n = if ltb int32_max n then negsuc (4294967295 - n) else pos n

-- `sizeof(int32_t)`
abbrev pub size_len : ℕ
size_len = 4

-- AITT_TCP_ENCRYPTOR_BLOCK_SIZE
abbrev pub block_size : ℕ
block_size = 16

-- On a size that is an `int` of at least 0: what does not fit an `int` wraps around.
unfoldable pub get_cryptogram_size : ℕ → ℤ
get_cryptogram_size plain_size = to_int32 ((plain_size / block_size + 1) * block_size % 4294967296)

-- The size of a ciphertext of four bytes.
abbrev pub cipher_size_len : ℤ → ℕ
cipher_size_len (pos n) = n
cipher_size_len (negsuc k) = 0

-- One `Send` after another.
abbrev pub and_then : SendEnd → (Line → SendEnd) → SendEnd
and_then (sent line) k = k line
and_then (send_thrown line) k = send_thrown line
and_then (send_blocked line) k = send_blocked line

-- A size of zero is sent as INT32_MAX, which no message has.
abbrev pub fixed_size : ℕ → ℕ
fixed_size n = if n == 0 then int32_max else n

unfoldable pub send_sized_normal : Text → Line → SendEnd
send_sized_normal bytes line = and_then (send (le32 (fixed_size (length bytes))) line) (send bytes)

-- What `RecvSizedData` returns, and what it stores in `*data`: `none` for a null pointer or nothing.
pub data SizedEnd : Type 0 where
  returned : ℤ → Option Text → Source → SizedEnd
  waits : SizedEnd

-- A buffer of n bytes after a `Recv` that may have failed: its end is what `malloc` found there.
abbrev pub filled : (ℕ → Text) → ℕ → RecvEnd → Option (Text × Source)
filled memory n (received bytes source) = some (bytes, source)
filled memory n (recv_failed code bytes source) = some (bytes ++ memory (n - length bytes), source)
filled memory n recv_waits = none

-- `malloc` and `Recv` of a body whose size is not negative. The result of `Recv` is not looked at.
unfoldable pub recv_body : (ℕ → Text) → ℕ → Source → SizedEnd
recv_body memory n source = elim (filled memory n (recv n source)) [
  | none ↦ waits
  | some (buffer, source') ↦ returned (pos n) (some buffer) source'
]

-- The size as it was read. A negative one makes `Recv` read nothing, and is returned.
unfoldable pub recv_after_size : (ℕ → Text) → ℤ → Source → SizedEnd
unfolding recv_body
recv_after_size memory (negsuc k) source = returned (negsuc k) none source
recv_after_size memory (pos n) source =
    if n == int32_max
    then returned (pos 0) none source
    else if ltb message_max n
    then returned minus_one none source
    else recv_body memory n source

unfoldable pub recv_sized_normal : (ℕ → Text) → Source → SizedEnd
unfolding recv_after_size
recv_sized_normal memory source = elim (recv size_len source) [
  | received bytes source' ↦ recv_after_size memory (to_int32 (pattern_of bytes)) source'
  | recv_failed code bytes source' ↦ returned code none source'
  | recv_waits ↦ waits
]

-- The cipher, which OpenSSL or mbed TLS implements: `none` is a failure, -1 in the source.
pub record Cipher : Type 0 where
  pub encrypt : Text → Option Text
  pub decrypt : Text → Option Text

-- The length that `Encrypt` returns, as a bit pattern, and the bytes that are sent for it.
abbrev pub cipher_len : Option Text → ℕ
cipher_len none = 4294967295
cipher_len (some c) = length c

abbrev pub cipher_bytes : Option Text → Text
cipher_bytes none = []
cipher_bytes (some c) = c

unfoldable pub send_sized_secure : Cipher → Text → Line → SendEnd
send_sized_secure crypto [] line = send (cipher_bytes (crypto.encrypt (le32 int32_max))) line
send_sized_secure crypto (b ∷ bytes) line =
    let body = crypto.encrypt (b ∷ bytes) in
    and_then (send (cipher_bytes (crypto.encrypt (le32 (cipher_len body)))) line)
      (send (cipher_bytes body))

-- The size after `Decrypt`, whose failure leaves what `malloc` found in the buffer.
abbrev pub plain_size : (ℕ → Text) → ℕ → Option Text → Text
plain_size memory n none = take size_len (memory n)
plain_size memory n (some p) = take size_len p

abbrev pub decrypted : Option Text → Source → SizedEnd
decrypted none source = returned minus_one none source
decrypted (some p) source = returned (pos (length p)) (some p) source

-- The body. `Decrypt` fails on a size below zero; the result of `Recv` is not looked at.
unfoldable pub recv_cipher_body : Cipher → (ℕ → Text) → ℤ → Source → SizedEnd
recv_cipher_body crypto memory (negsuc k) source = returned minus_one none source
recv_cipher_body crypto memory (pos n) source =
    if n == int32_max
    then returned (pos 0) none source
    else if ltb message_max n
    then returned minus_one none source
    else elim (filled memory n (recv n source)) [
      | none ↦ waits
      | some (buffer, source') ↦ decrypted (crypto.decrypt buffer) source'
    ]

unfoldable pub recv_sized_secure : Cipher → (ℕ → Text) → Source → SizedEnd
unfolding recv_cipher_body get_cryptogram_size
recv_sized_secure crypto memory source =
    let n = cipher_size_len (get_cryptogram_size size_len) in
    elim (recv n source) [
      | received bytes source' ↦
          recv_cipher_body crypto memory
            (to_int32 (pattern_of (plain_size memory n (crypto.decrypt bytes)))) source'
      | recv_failed code bytes source' ↦ returned code none source'
      | recv_waits ↦ waits
    ]

-- `SendSizedData` and `RecvSizedData`: `secure` is set with the key. A negative size, for which
-- nothing is sent, has no data here.
unfoldable pub send_sized : Bool → Cipher → Text → Line → SendEnd
send_sized secure crypto bytes line =
    if secure then send_sized_secure crypto bytes line else send_sized_normal bytes line

unfoldable pub recv_sized : Bool → Cipher → (ℕ → Text) → Source → SizedEnd
recv_sized secure crypto memory source =
    if secure then recv_sized_secure crypto memory source else recv_sized_normal memory source
