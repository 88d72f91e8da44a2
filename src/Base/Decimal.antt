-- ===== src/Base/Decimal.antt =====
-- `std::to_string` and `std::stoi` on an `int`.
use Prim.Native.Nat.{ℕ, zero, suc, ◌+◌, ◌-◌, ◌*◌, ◌/◌, ◌%◌, ◌<◌, ◌≤◌}
use mathlib.Core.Path.{◌≡◌, refl, ap}
use mathlib.Core.Logic.{◌≢◌}
use mathlib.Core.Bool.{Bool, true, false, ◌&&◌, ◌||◌}
use mathlib.Core.List.{[], ◌∷◌, ◌++◌}
use mathlib.Core.Option.{Option, none, some}
use native.Mathlib.Omega.{arith}
use aitt.Base.Tests.{ltb, leb, ◌==◌, if◌then◌else◌}
use aitt.Base.Lists.{All, All-append}
use aitt.Base.Texts.{Text, c_str}

-- `negsuc n` is -(n + 1).
pub data ℤ : Type 0 where
  pos : ℕ → ℤ
  negsuc : ℕ → ℤ

abbrev pub int32_max : ℕ
int32_max = 2147483647

abbrev pub is_digit : ℕ → Bool
is_digit c = leb b'0' c && leb c b'9'

abbrev is_space : ℕ → Bool
is_space c = c == b' ' || (leb 9 c && leb c 13)

to_digits : ℕ → ℕ → Text
to_digits zero n = []
to_digits (suc f) n =
    let rest = to_digits f (n / 10) in (if ltb n 10 then [] else rest) ++ (b'0' + n % 10) ∷ []

-- `std::to_string` of a number that is not negative.
unfoldable pub digits_of : ℕ → Text
unfolding to_digits
digits_of n = to_digits (suc n) n

unfoldable pub to_string : ℤ → Text
unfolding digits_of
to_string (pos n) = digits_of n
to_string (negsuc n) = b'-' ∷ digits_of (suc n)

-- The value of the digits in front.
read : ℕ → Text → ℕ
read acc [] = acc
read acc (c ∷ cs) = let rest = read (acc * 10 + (c - b'0')) cs in if is_digit c then rest else acc

skip_spaces : Text → Text
skip_spaces [] = []
skip_spaces (c ∷ cs) = if is_space c then skip_spaces cs else c ∷ cs

starts_with_digit : Text → Bool
starts_with_digit [] = false
starts_with_digit (c ∷ cs) = is_digit c

read_pos : Text → Option ℤ
unfolding read starts_with_digit
read_pos cs =
    if starts_with_digit cs
    then (if leb (read 0 cs) int32_max then some (pos (read 0 cs)) else none)
    else none

negate : ℕ → ℤ
negate zero = pos zero
negate (suc n) = negsuc n

read_neg : Text → Option ℤ
unfolding read starts_with_digit negate
read_neg cs =
    if starts_with_digit cs
    then (if leb (read 0 cs) (int32_max + 1) then some (negate (read 0 cs)) else none)
    else none

read_signed : Text → Option ℤ
unfolding read_pos read_neg
read_signed [] = none
read_signed (c ∷ cs) =
    if c == b'-' then read_neg cs else if c == b'+' then read_pos cs else read_pos (c ∷ cs)

-- `std::stoi`: `none` where it throws.
unfoldable pub stoi : Text → Option ℤ
unfolding skip_spaces read_signed
stoi cs = read_signed (skip_spaces cs)

-- The range of a 32-bit `int`.
abbrev pub IsInt : ℤ → Type 0
IsInt (pos n) = n ≤ int32_max
IsInt (negsuc n) = n ≤ int32_max

abbrev IsDigits : Text → Type 0
IsDigits = All (λ c. (b'0' ≤ c) × (c ≤ b'9'))

to_digits-IsDigits : (f n : ℕ) → IsDigits (to_digits f n)
unfolding to_digits
to_digits-IsDigits zero n = tt
to_digits-IsDigits (suc f) n =
    All-append _ (if ltb n 10 then [] else to_digits f (n / 10)) _
      (ground (arith, to_digits-IsDigits f (n / 10))) ((omega arith, omega arith), tt)

read-append : (acc : ℕ) (xs ys : Text) → IsDigits xs → read acc (xs ++ ys) ≡ read (read acc xs) ys
unfolding read
read-append acc [] ys h = refl
read-append acc (x ∷ xs) ys h = ground (arith, read-append (acc * 10 + (x - b'0')) xs ys)

read-to_digits : (f n : ℕ) → n < f → read 0 (to_digits f n) ≡ n
unfolding read to_digits
read-to_digits zero n h = elim h [ ]
read-to_digits (suc f) n h = ground (
  arith,
  read-to_digits f (n / 10),
  read-append 0 (to_digits f (n / 10)) ((b'0' + n % 10) ∷ []) (to_digits-IsDigits f (n / 10)),
)

-- Text that begins with a digit has no space or sign in front.
read_signed-digit :
    (c : ℕ) (cs : Text)
    → is_digit c ≡ true
    → (read_signed (c ∷ cs) ≡ read_pos (c ∷ cs)) × (skip_spaces (c ∷ cs) ≡ c ∷ cs)
unfolding read_signed skip_spaces
read_signed-digit c cs h = ground arith

stoi-digits :
    (xs : Text) (n : ℕ)
    → IsDigits xs
    → xs ≢ []
    → read 0 xs ≡ n
    → n ≤ int32_max
    → stoi xs ≡ some (pos n)
unfolding stoi
stoi-digits [] n d h e b = absurd (h refl)
stoi-digits (c ∷ cs) n d h e b = ground (arith, read_signed-digit c cs)

append-ne-nil : (xs : Text) (y : ℕ) → xs ++ y ∷ [] ≢ []
append-ne-nil [] y e = cc
append-ne-nil (x ∷ xs) y e = cc

to_digits-ne-nil : (f n : ℕ) → to_digits (suc f) n ≢ []
unfolding to_digits
to_digits-ne-nil f n = append-ne-nil (if ltb n 10 then [] else to_digits f (n / 10)) (b'0' + n % 10)

pub stoi-digits_of : (n : ℕ) → n ≤ int32_max → stoi (digits_of n) ≡ some (pos n)
unfolding digits_of
stoi-digits_of n b =
    stoi-digits (to_digits (suc n) n) n (to_digits-IsDigits (suc n) n) (to_digits-ne-nil n n)
      (read-to_digits (suc n) n (omega arith)) b

stoi_neg :
    (xs : Text) (n : ℕ)
    → IsDigits xs
    → xs ≢ []
    → read 0 xs ≡ suc n
    → n ≤ int32_max
    → stoi (b'-' ∷ xs) ≡ some (negsuc n)
unfolding stoi
stoi_neg [] n d h e b = absurd (h refl)
stoi_neg (c ∷ cs) n d h e b = ground arith

-- An `int` is read back from its text.
pub stoi-to_string : (z : ℤ) → IsInt z → stoi (to_string z) ≡ some z
unfolding to_string
stoi-to_string (pos n) b = stoi-digits_of n b
stoi-to_string (negsuc n) b =
    stoi_neg (to_digits (suc (suc n)) (suc n)) n (to_digits-IsDigits (suc (suc n)) (suc n))
      (to_digits-ne-nil (suc n) (suc n)) (read-to_digits (suc (suc n)) (suc n) (omega arith)) b

-- No two numbers have the same text.
pub digits_of-injective : (a b : ℕ) → digits_of a ≡ digits_of b → a ≡ b
unfolding digits_of
digits_of-injective a b e = omega (
  arith,
  ap (read 0) e,
  read-to_digits (suc a) a (omega arith),
  read-to_digits (suc b) b (omega arith),
)

c_str-IsDigits : (xs : Text) → IsDigits xs → c_str xs ≡ xs
unfolding c_str
c_str-IsDigits [] h = refl
c_str-IsDigits (x ∷ xs) h = ground (arith, c_str-IsDigits xs)

-- The text of a number holds no NUL byte.
pub c_str-to_string : (z : ℤ) → c_str (to_string z) ≡ to_string z
unfolding to_string c_str
c_str-to_string (pos n) = c_str-IsDigits _ (to_digits-IsDigits (suc n) n)
c_str-to_string (negsuc n) =
    ap (◌∷◌ b'-') (c_str-IsDigits _ (to_digits-IsDigits (suc (suc n)) (suc n)))
