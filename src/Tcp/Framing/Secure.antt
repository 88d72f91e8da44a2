-- ===== src/Tcp/Framing/Secure.antt =====
-- modules/tcp/TCP.cc: messages on an encrypted connection. The cipher is a parameter; what the code
-- relies on is that decryption undoes encryption, and how long a ciphertext is.
use aitt.Base.{
  append_assoc, length-append, subst, is_empty, if◌then◌else◌, [], ℕ, ◌+◌, ◌≤◌, ◌<◌, ◌≡◌, sym, ap,
  ◌∙◌, ◌∷◌, ◌++◌, none, some, length, Text, All, pos, int32_max, arith,
}
use aitt.Types.{message_max}
use aitt.Tcp.Stream.{Line, sent, send, Source, received, recv, minus_one}
use aitt.Tcp.Stream.Sending.{send-Wrote, Wrote}
use aitt.Tcp.Stream.Receiving.{Gives, recv-front}
use aitt.Tcp.Framing.{
  le32, to_int32, size_len, Cipher, get_cryptogram_size, cipher_size_len, cipher_bytes,
  send_sized_secure, recv_sized_secure, recv_cipher_body, returned,
}
use aitt.Tcp.Framing.Size.{
  pattern_of-le32, to_int32-pos, padded_size, get_cryptogram_size-pos, padded_size_fits,
  padded_size_exceeds,
}
use aitt.Tcp.Framing.Plain.{and_then-sent}

-- AES-256-CBC with padding, as OpenSSL and mbed TLS document it.
pub record IsCipher (crypto : Cipher) : Type 0 where
  pub inverse : (p c : Text) → crypto.encrypt p ≡ some c → crypto.decrypt c ≡ some p
  pub padded : (p c : Text) → crypto.encrypt p ≡ some c → length c ≡ padded_size (length p)

-- The ciphertext of a text has the size that `GetCryptogramSize` gives as an `int`, if it fits one.
get_cryptogram_size-encrypt :
    (crypto : Cipher) (p c : Text)
    → IsCipher crypto
    → length p < 2147483632
    → crypto.encrypt p ≡ some c
    → get_cryptogram_size (length p) ≡ pos (length c)
get_cryptogram_size-encrypt crypto p c sound small e =
    get_cryptogram_size-pos (length p) small ∙ ap pos (sym (sound.padded p c e))

module _ (crypto : Cipher) (sound : IsCipher crypto) (memory : ℕ → Text) where
  -- A size that was encrypted is read back, and the body is read from what follows.
  size-read :
      (k : ℕ) (c rest : Text) (m : ℕ) (source : Source)
      → k ≤ int32_max
      → crypto.encrypt (le32 k) ≡ some c
      → source.input ≡ c ++ rest
      → All Gives source.answers
      → length c + m ≤ length source.answers
      → (source' : Source) × (recv_sized_secure crypto memory source
          ≡ recv_cipher_body crypto memory (pos k) source')
        × (source'.input ≡ rest)
        × All Gives source'.answers
        × (m ≤ length source'.answers)
  unfolding recv_sized_secure
  size-read k c rest m source small e here g h =
      let (source', r, i, g', h') = recv-front c rest m source here g h in
      let size = get_cryptogram_size-pos size_len (omega arith) in
      let n : recv (cipher_size_len (get_cryptogram_size size_len)) source ≡ received c source' =
        ap (λ z. recv (cipher_size_len z) source) size
        ∙ (ap (λ n. recv n source) (sym (sound.padded (le32 k) c e)) ∙ r) in
      (
        source',
        rw (n, recv_sized_secure)
            (rw (sound.inverse (le32 k) c e) (
              ap (λ z. recv_cipher_body crypto memory z source')
                (ap to_int32 (pattern_of-le32 k (omega arith)) ∙ to_int32-pos k small))),
        i,
        g',
        h',
      )

  body-read :
      (bytes c rest : Text) (m : ℕ) (source : Source)
      → crypto.encrypt bytes ≡ some c
      → length c ≤ message_max
      → source.input ≡ c ++ rest
      → All Gives source.answers
      → length c + m ≤ length source.answers
      → (source' : Source) × (recv_cipher_body crypto memory (pos (length c)) source
          ≡ returned (pos (length bytes)) (some bytes) source')
        × (source'.input ≡ rest)
  unfolding recv_cipher_body
  body-read bytes c rest m source e small here g h =
      let (source', r, i, _, _) = recv-front c rest m source here g h in
      (source', ground (arith, r, sound.inverse bytes c e), i)

  -- What stands on the line for a message that is not empty.
  pub send_sized_secure-frame :
      (b : ℕ) (bytes c c' : Text) (line line' : Line)
      → crypto.encrypt (b ∷ bytes) ≡ some c
      → crypto.encrypt (le32 (length c)) ≡ some c'
      → send_sized_secure crypto (b ∷ bytes) line ≡ sent line'
      → line'.out ≡ line.out ++ (c' ++ c)
  unfolding send_sized_secure
  send_sized_secure-frame b bytes c c' line line' e e' s =
      and_then-sent c' c line line' (ground (arith, e, e', s))

  -- The encrypted frame of a payload of fewer than 268435440 bytes, its size and its ciphertext,
  -- is taken off the line by `RecvSizedData` as the payload with its length; what follows is
  -- left. The calls of `recv` do not fail, and there is one for each byte.
  pub recv_sized_secure-frame :
      (bytes c c' rest : Text) (source : Source)
      → length bytes < 268435440
      → crypto.encrypt bytes ≡ some c
      → crypto.encrypt (le32 (length c)) ≡ some c'
      → source.input ≡ c' ++ (c ++ rest)
      → All Gives source.answers
      → length c' + length c ≤ length source.answers
      → (source' : Source) × (recv_sized_secure crypto memory source
          ≡ returned (pos (length bytes)) (some bytes) source')
        × (source'.input ≡ rest)
  recv_sized_secure-frame bytes c c' rest source small e e' here g h =
      let fits : length c ≤ message_max =
        omega (arith, sound.padded bytes c e, padded_size_fits (length bytes) small) in
      let (s1, r1, i1, g1, h1) =
        size-read (length c) c' (c ++ rest) (length c) source (omega arith) e' here g h in
      let (s2, r2, i2) = body-read bytes c rest 0 s1 e fits i1 g1 (omega arith) in (s2, r1 ∙ r2, i2)

  -- The encrypted frame of a payload of 268435440 bytes or more, though at most AITT_MESSAGE_MAX,
  -- is refused by `RecvSizedData` with -1; its ciphertext stays on the line, where it is taken
  -- for the next size. The calls of `recv` do not fail.
  pub recv_sized_secure_refused :
      (bytes c c' rest : Text) (source : Source)
      → 268435440 ≤ length bytes
      → length bytes ≤ message_max
      → crypto.encrypt bytes ≡ some c
      → crypto.encrypt (le32 (length c)) ≡ some c'
      → source.input ≡ c' ++ (c ++ rest)
      → All Gives source.answers
      → length c' ≤ length source.answers
      → (source' : Source) × (recv_sized_secure crypto memory source
          ≡ returned minus_one none source')
        × (source'.input ≡ c ++ rest)
  unfolding recv_cipher_body
  recv_sized_secure_refused bytes c c' rest source long small e e' here g h =
      let over : length c ≡ message_max + 1 =
        sound.padded bytes c e ∙ padded_size_exceeds (length bytes) long small in
      let (s1, r1, i1, _, _) =
        size-read (length c) c' (c ++ rest) 0 source (omega arith) e' here g (omega arith) in
      (s1, r1 ∙ refused (length c) s1 (omega arith), i1)
    where
      refused :
          (n : ℕ) (s : Source)
          → n ≡ message_max + 1
          → recv_cipher_body crypto memory (pos n) s ≡ returned minus_one none s
      refused n s e = ground arith

-- The bytes that `malloc` is asked for, for a size and, if there is one, for a body.
abbrev pub buffers_size : Text → ℕ
buffers_size [] = cipher_size_len (get_cryptogram_size size_len)
buffers_size (b ∷ bytes) =
    cipher_size_len (get_cryptogram_size size_len)
    + cipher_size_len (get_cryptogram_size (length (b ∷ bytes)))

module _ (crypto : Cipher) (sound : IsCipher crypto) (memory : ℕ → Text)
    (works : (p : Text) → (c : Text) × (crypto.encrypt p ≡ some c)) where
  buffer-full :
      (p c : Text)
      → length p < 268435440
      → crypto.encrypt p ≡ some c
      → cipher_size_len (get_cryptogram_size (length p)) ≡ length c
  buffer-full p c small e =
      ap cipher_size_len (get_cryptogram_size-encrypt crypto p c sound (omega arith) e)

  send_empty :
      (c : Text) (line line' : Line)
      → crypto.encrypt (le32 int32_max) ≡ some c
      → send_sized_secure crypto [] line ≡ sent line'
      → line'.out ≡ line.out ++ c
  unfolding send_sized_secure
  send_empty c line line' e out =
      subst (Wrote line.out c) (ap (λ o. send (cipher_bytes o) line) (sym e) ∙ out)
        (send-Wrote c line)

  empty-read :
      (c rest : Text) (source : Source)
      → crypto.encrypt (le32 int32_max) ≡ some c
      → source.input ≡ c ++ rest
      → All Gives source.answers
      → length c ≤ length source.answers
      → (source' : Source) × (recv_sized_secure crypto memory source
          ≡ returned (pos 0) none source')
        × (source'.input ≡ rest)
  unfolding recv_cipher_body
  empty-read c rest source e here g h =
      let (s1, r1, i1, _, _) =
        size-read crypto sound memory int32_max c rest 0 source (omega arith) e here g
          (omega arith) in
      (s1, r1, i1)

  -- What `SendSizedData` puts on an empty encrypted line, when it returns, fills the buffers that it
  -- made to the last byte and does not go beyond them, and is what the receiver's `RecvSizedData`
  -- takes off it: the payload with its length, or a null pointer with length 0 for an empty one; what
  -- was sent later is left. The payload has fewer than 268435440 bytes, the cipher does not fail, the
  -- calls of `recv` do not either, and there is one for each byte.
  pub recv_sized_secure-send_sized :
      (bytes rest : Text) (line line' : Line) (source : Source)
      → length bytes < 268435440
      → line.out ≡ []
      → send_sized_secure crypto bytes line ≡ sent line'
      → source.input ≡ line'.out ++ rest
      → All Gives source.answers
      → length line'.out ≤ length source.answers
      → (length line'.out ≡ buffers_size bytes)
        × ((source' : Source) × (recv_sized_secure crypto memory source
              ≡ returned (pos (length bytes)) (if is_empty bytes then none else some bytes) source')
            × (source'.input ≡ rest))
  recv_sized_secure-send_sized [] rest line line' source small fresh out here g many =
      let (c, e) = works (le32 int32_max) in
      let o : line'.out ≡ c = send_empty c line line' e out ∙ ap (λ x. x ++ c) fresh in
      let size = buffer-full (le32 int32_max) c (omega arith) e in
      (
        ap length o ∙ sym size,
        empty-read c rest source e (here ∙ ap (λ x. x ++ rest) o) g
            (subst (λ x. length x ≤ length source.answers) o many),
      )
  recv_sized_secure-send_sized (b ∷ bytes) rest line line' source small fresh out here g many =
      let (c, e) = works (b ∷ bytes) in
      let (c', e') = works (le32 (length c)) in
      let o : line'.out ≡ c' ++ c =
        send_sized_secure-frame crypto sound memory b bytes c c' line line' e e' out
        ∙ ap (λ x. x ++ (c' ++ c)) fresh in
      let len : length line'.out ≡ length c' + length c = ap length o ∙ length-append c' c in
      let size' = buffer-full (le32 (length c)) c' (omega arith) e' in
      let size = buffer-full (b ∷ bytes) c small e in
      (
        omega (arith, len, size, size'),
        recv_sized_secure-frame crypto sound memory (b ∷ bytes) c c' rest source small e e'
            (here ∙ (ap (λ x. x ++ rest) o ∙ append_assoc c' c rest)) g (omega (arith, len, many)),
      )
