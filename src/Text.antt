-- ===== src/Text.antt =====
-- Texts as lists of bytes, with the functions of Go's `strings` that the program calls.
pub mod Digits
pub mod Fraction
use Prim.Native.Char.{code}
use Prim.Native.String.{String}
use huawei_proxy.Prelude.Int.{ℤ, pos, negsuc}
use huawei_proxy.Prelude.{
  ℕ, zero, suc, ◌+◌, ◌/◌, ◌%◌, ltb, if◌then◌else◌, ◌≡◌, ◌↔◌, Bool, true, false, ◌&&◌, ◌||◌, List,
  [], ◌∷◌, ◌==◌, arith,
}

abbrev pub Text : Type 0
Text = List ℕ

-- The bytes of an ASCII text.
abbrev pub codes : String → Text
codes String.[] = []
codes (String.◌∷◌ c s) = code c ∷ codes s

-- `a == b` of two strings
unfoldable pub text_eq : Text → Text → Bool
text_eq [] [] = true
text_eq [] (b ∷ bs) = false
text_eq (a ∷ as') [] = false
text_eq (a ∷ as') (b ∷ bs) = a == b && text_eq as' bs

pub text_eq_iff : (a b : Text) → (text_eq a b ≡ true) ↔ (a ≡ b)
unfolding text_eq
text_eq_iff [] [] = ground arith
text_eq_iff [] (b ∷ bs) = ground arith
text_eq_iff (a ∷ as') [] = ground arith
text_eq_iff (a ∷ as') (b ∷ bs) = ground (arith, text_eq_iff as' bs)

unfoldable pub is_prefix : Text → Text → Bool
is_prefix [] ys = true
is_prefix (x ∷ xs) [] = false
is_prefix (x ∷ xs) (y ∷ ys) = x == y && is_prefix xs ys

-- `strings.Contains(hay, needle)`
unfoldable pub contains : Text → Text → Bool
unfolding is_prefix
contains [] needle = is_prefix needle []
contains (h ∷ hay) needle = is_prefix needle (h ∷ hay) || contains hay needle

-- `%d` of a number below 10 ^ fuel, before the text `acc`
unfoldable pub decimal_from : ℕ → ℕ → Text → Text
decimal_from zero n acc = acc
decimal_from (suc fuel) n acc =
    let digit = b'0' + n % 10 in
    let more = decimal_from fuel (n / 10) (digit ∷ acc) in if ltb n 10 then digit ∷ acc else more

-- `%d` of a `uint16` or any other number below 2 ^ 64
unfoldable pub decimal : ℕ → Text
unfolding decimal_from
decimal n = decimal_from 20 n []

-- `%d` of an `int`, and `%.0f` of a whole number
unfoldable pub signed_decimal : ℤ → Text
unfolding decimal
signed_decimal (pos n) = decimal n
signed_decimal (negsuc n) = b'-' ∷ decimal (suc n)
