-- ===== src/Base/Ordered.antt =====
-- `std::map` with strings as keys: the order that insertion keeps, and what it says of lookups.

use mathlib.Core.Path.{◌≡◌, refl, subst}
use mathlib.Core.Logic.{inl, inr}
use mathlib.Core.Bool.{true, false}
use mathlib.Core.List.{List, [], ◌∷◌}
use mathlib.Core.Option.{none}
use native.Mathlib.Omega.{arith}
use aitt.Base.Tests.{Bool-cases}
use aitt.Base.Texts.{Text, text_eq, text_eq_iff, text_lt}
use aitt.Base.Maps.{text_key, lookup, insert}

pub text_lt_trans : (a b c : Text) → text_lt a b ≡ true → text_lt b c ≡ true → text_lt a c ≡ true
unfolding text_lt
text_lt_trans a b [] h k = ground arith
text_lt_trans [] b (z ∷ c) h k = refl
text_lt_trans (x ∷ a) [] (z ∷ c) h k = ground arith
text_lt_trans (x ∷ a) (y ∷ b) (z ∷ c) h k = ground (arith, text_lt_trans a b c)

pub text_lt_irrefl : (a : Text) → text_lt a a ≡ false
unfolding text_lt
text_lt_irrefl [] = refl
text_lt_irrefl (x ∷ a) = ground (arith, text_lt_irrefl a)

-- The keys behind the first one, which come after it.
unfoldable pub After {ℓ} : {V : Type ℓ} → Text → List (Text × V) → Type 0
After k [] = Unit {0}
After k ((j, ts) ∷ table) = (text_lt k j ≡ true) × After k table

-- A table in the order of its keys, as a `std::map` keeps it.
unfoldable pub IsOrdered {ℓ} : {V : Type ℓ} → List (Text × V) → Type 0
IsOrdered [] = Unit {0}
IsOrdered ((k, ts) ∷ table) = After k table × IsOrdered table

pub After-lt {ℓ} :
    {V : Type ℓ} (i k : Text) (table : List (Text × V))
    → text_lt i k ≡ true
    → After k table
    → After i table
unfolding After
After-lt i k [] h a = tt
After-lt i k ((j, ts) ∷ table) h a = (text_lt_trans i k j h a.0, After-lt i k table h a.1)

pub After-lookup {ℓ} :
    {V : Type ℓ} (k : Text) (table : List (Text × V)) → After k table → lookup k table ≡ none
unfolding After lookup
After-lookup k [] a = refl
After-lookup k ((j, ts) ∷ table) a =
    ground (arith, After-lookup k table a.1, a.0, text_eq_iff j k, text_lt_irrefl k)

pub After-insert {ℓ} :
    {V : Type ℓ} (i k : Text) (ts : V) (table : List (Text × V))
    → text_lt i k ≡ true
    → After i table
    → After i (insert k ts table)
unfolding After insert
After-insert i k ts [] h a = (h, tt)
After-insert i k ts ((j, us) ∷ table) h a =
    let rest = After-insert i k ts table h a.1 in
    elim (Bool-cases (text_eq j k)) [
      | inl e ↦ ground arith
      | inr e ↦ elim (Bool-cases (text_lt k j)) [ inl l ↦ ground arith | inr l ↦ ground arith ]
    ]

pub text_lt_total : (a b : Text) → text_eq a b ≡ false → text_lt b a ≡ false → text_lt a b ≡ true
unfolding text_eq text_lt
text_lt_total [] [] e h = ground arith
text_lt_total [] (y ∷ b) e h = refl
text_lt_total (x ∷ a) [] e h = ground arith
text_lt_total (x ∷ a) (y ∷ b) e h = ground (arith, text_lt_total a b)

pub insert-IsOrdered {ℓ} :
    {V : Type ℓ} (k : Text) (ts : V) (table : List (Text × V))
    → IsOrdered table
    → IsOrdered (insert k ts table)
unfolding IsOrdered insert After
insert-IsOrdered k ts [] o = (tt, tt)
insert-IsOrdered k ts ((j, us) ∷ table) o = elim (Bool-cases (text_eq j k)) [
  | inl e ↦
      let a : After k table = subst (λ x. After x table) ((text_eq_iff j k).0 e) o.0 in ground arith
  | inr e ↦ elim (Bool-cases (text_lt k j)) [
    | inl l ↦ let a : After k table = After-lt k j table l o.0 in ground arith
    | inr l ↦
        let a : After j (insert k ts table) =
          After-insert j k ts table (text_lt_total j k e l) o.0 in
        let b : IsOrdered (insert k ts table) = insert-IsOrdered k ts table o.1 in ground arith
  ]
]

-- The first entry of an ordered map is put at its front.
pub insert-front {ℓ} :
    {V : Type ℓ} (k : Text) (v : V) (table : List (Text × V))
    → After k table
    → insert k v table ≡ (k, v) ∷ table
unfolding After insert
insert-front k v [] a = refl
insert-front k v ((j, w) ∷ table) a = ground (arith, text_eq_iff j k, text_lt_irrefl k, a.0)
