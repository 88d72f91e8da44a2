-- ===== src/Tests/Ciphers.antt =====
-- A cipher that satisfies the laws of `IsCipher`: the padding is put in front, its length first.
use aitt.Base.{
  ℕ, zero, suc, ◌-◌, ◌%◌, ◌≡◌, ◌∙◌, refl, sym, ap, [], ◌∷◌, ◌++◌, Option, none, some, length, drop,
  length-append, drop-length-append, Text, arith,
}
use aitt.Tcp.Framing.{Cipher}
use aitt.Tcp.Framing.Size.{padded_size}
use aitt.Tcp.Framing.Secure.{IsCipher}

-- n bytes.
unfoldable pub filler : ℕ → Text
filler zero = []
filler (suc n) = 0 ∷ filler n

pub length-filler : (n : ℕ) → length (filler n) ≡ n
unfolding filler
length-filler zero = refl
length-filler (suc n) = ap suc (length-filler n)

abbrev pad_len : Text → ℕ
pad_len p = 15 - length p % 16

unfoldable pub padded_text : Text → Text
padded_text p = pad_len p ∷ filler (pad_len p) ++ p

unfoldable pub unpadded_text : Text → Option Text
unpadded_text [] = none
unpadded_text (n ∷ c) = some (drop n c)

unpadded-padded : (p : Text) → unpadded_text (padded_text p) ≡ some p
unfolding padded_text unpadded_text
unpadded-padded p =
    ap (λ n. some (drop n (filler (pad_len p) ++ p))) (sym (length-filler (pad_len p)))
    ∙ ap some (drop-length-append (filler (pad_len p)) p)

length-padded : (p : Text) → length (padded_text p) ≡ padded_size (length p)
unfolding padded_text
length-padded p = omega (arith, length-filler (pad_len p), length-append (filler (pad_len p)) p)

abbrev pub padding : Cipher
padding = record { encrypt = λ p. some (padded_text p); decrypt = unpadded_text }

some_same : (a b : Text) → (let x : Option Text = some a in x ≡ some b) → a ≡ b
some_same a b e = ground arith

pub padding-IsCipher : IsCipher padding
padding-IsCipher = record {
  inverse = λ p c e. ap unpadded_text (sym (some_same _ _ e)) ∙ unpadded-padded p;
  padded = λ p c e. ap length (sym (some_same _ _ e)) ∙ length-padded p;
}
