-- ===== src/Text/Fraction.antt =====
-- The fraction of a second as the texts of RFC3339Nano have it: up to nine digits, without the zeros at
-- its end.
use mathlib.Core.List.{append_assoc, append-nil}
use huawei_proxy.Prelude.{
  ℕ, zero, suc, ◌+◌, ◌*◌, ◌/◌, ◌%◌, ◌≤◌, ◌<◌, ◌≡◌, ◌∙◌, ap, refl, sym, inl, inr, [], ◌∷◌, ◌++◌, ltb,
  true, false, ◌==◌, ==_refl, All, All-append, Bool-cases, if◌then◌else◌, arith,
}
use huawei_proxy.Text.{Text}
use huawei_proxy.Platform.Sqlite.{text_lt}

-- 10 to the power `k`
abbrev pub tens : ℕ → ℕ
tens zero = 1
tens (suc k) = tens k * 10

-- the last `k` decimal digits of a number
unfoldable pub digits : ℕ → ℕ → Text
digits zero n = []
digits (suc k) n = digits k (n / 10) ++ (b'0' + n % 10) ∷ []

abbrev pub zero_first : ℕ → Text → Text
zero_first c [] = if c == b'0' then [] else c ∷ []
zero_first c (d ∷ ds) = c ∷ d ∷ ds

-- without the zeros at the end
unfoldable pub trim_zeros : Text → Text
trim_zeros [] = []
trim_zeros (c ∷ cs) = zero_first c (trim_zeros cs)

-- what stands behind the seconds, for a number of nanoseconds
unfoldable pub fraction : ℕ → Text
fraction f = if f == 0 then b'Z' ∷ [] else b'.' ∷ (trim_zeros (digits 9 f) ++ b'Z' ∷ [])

digits-append :
    (m k q r : ℕ) → r < tens k → digits (k + m) (q * tens k + r) ≡ digits m q ++ digits k r
unfolding digits
digits-append m zero q r h =
    let same : q * 1 + r ≡ q = omega (arith, h) in
    let none_more : 0 + m ≡ m = omega arith in rw (none_more, same) (sym (append-nil (digits m q)))
digits-append m (suc k) q r h =
    let n = q * (tens k * 10) + r in
    let shifted : q * (tens k * 10) ≡ q * tens k * 10 = omega arith in
    let front : n / 10 ≡ q * tens k + r / 10 = omega (arith, shifted) in
    let last : n % 10 ≡ r % 10 = omega (arith, shifted) in
    let longer : suc k + m ≡ suc (k + m) = omega arith in
    rw (longer, front, last)
      (ap (λ xs. xs ++ (b'0' + r % 10) ∷ []) (digits-append m k q (r / 10) (omega (arith, h)))
        ∙ append_assoc (digits m q) (digits k (r / 10)) ((b'0' + r % 10) ∷ []))

trim_zeros-append :
    (xs ys more : Text) (c : ℕ) → trim_zeros ys ≡ c ∷ more → trim_zeros (xs ++ ys) ≡ xs ++ c ∷ more
unfolding trim_zeros
trim_zeros-append [] ys more c e = e
trim_zeros-append (x ∷ []) ys more c e = rw e refl
trim_zeros-append (x ∷ y ∷ xs) ys more c e = rw (trim_zeros-append (y ∷ xs) ys more c e) refl

trim_zeros-zero : (xs : Text) → trim_zeros (xs ++ b'0' ∷ []) ≡ trim_zeros xs
unfolding trim_zeros
trim_zeros-zero [] = refl
trim_zeros-zero (x ∷ xs) = ap (zero_first x) (trim_zeros-zero xs)

trim_zeros-zeros : (k : ℕ) (xs : Text) → trim_zeros (xs ++ digits k 0) ≡ trim_zeros xs
unfolding digits
trim_zeros-zeros zero xs = ap trim_zeros (append-nil xs)
trim_zeros-zeros (suc k) xs =
    ap trim_zeros (sym (append_assoc xs (digits k 0) (b'0' ∷ [])))
    ∙ trim_zeros-zero (xs ++ digits k 0)
    ∙ trim_zeros-zeros k xs

-- every character is before `Z`
abbrev IsLow : ℕ → Type 0
IsLow c = c < b'Z'

digits-IsLow : (k n : ℕ) → All IsLow (digits k n)
unfolding digits
digits-IsLow zero n = tt
digits-IsLow (suc k) n =
    All-append IsLow (digits k (n / 10)) ((b'0' + n % 10) ∷ []) (digits-IsLow k (n / 10))
      (omega arith, tt)

-- a digit at the end that is not 0 is kept, and all before it
more_or_one :
    (xs : Text)
    → All IsLow xs
    → (d : ℕ) → (d == b'0') ≡ false
    → IsLow d
    → (c : ℕ) × (more : Text) × (trim_zeros (xs ++ d ∷ []) ≡ c ∷ more) × IsLow c
unfolding trim_zeros
more_or_one [] h d e l = (d, [], rw e refl, l)
more_or_one (x ∷ xs) (hx, h) d e l =
    let last : trim_zeros (d ∷ []) ≡ d ∷ [] = rw e refl in
    (x, xs ++ d ∷ [], trim_zeros-append (x ∷ xs) (d ∷ []) [] d last, hx)

-- a number that is not 0 keeps a digit
trim_zeros-digits :
    (k r : ℕ)
    → 1 ≤ r
    → r < tens k
    → (c : ℕ) × (more : Text) × (trim_zeros (digits k r) ≡ c ∷ more) × IsLow c
unfolding digits
trim_zeros-digits zero r low high = absurd (omega (arith, low, high))
trim_zeros-digits (suc k) r low high = elim (Bool-cases (r % 10 == 0)) [
  | inl none_left ↦
      let last : r % 10 ≡ 0 = ground arith in
      let (c, more, e, l) = trim_zeros-digits k (r / 10) (omega (arith, last)) (omega arith) in
      (c, more, rw last (trim_zeros-zero (digits k (r / 10)) ∙ e), l)
  | inr some_left ↦
      let kept : ((b'0' + r % 10) == b'0') ≡ false = ground (arith, some_left) in
      more_or_one (digits k (r / 10)) (digits-IsLow k (r / 10)) (b'0' + r % 10) kept (omega arith)
]

text_lt-zero_first :
    (x : ℕ) (t rest : Text)
    → IsLow x
    → text_lt rest (t ++ b'Z' ∷ []) ≡ true
    → text_lt (x ∷ rest) (zero_first x t ++ b'Z' ∷ []) ≡ true
unfolding text_lt
text_lt-zero_first x [] rest l e = elim (Bool-cases (x == b'0')) [
  | inl cut ↦ let before : ltb x b'Z' ≡ true = ground arith in rw (cut, before) refl
  | inr kept ↦ let same : ltb x x ≡ false = ground arith in rw (kept, same, ==_refl x, e) refl
]
text_lt-zero_first x (c ∷ t) rest l e =
    let same : ltb x x ≡ false = ground arith in rw (same, ==_refl x, e) refl

-- A text of low characters that goes on is before the one that ends there without its zeros.
text_lt-trim_zeros :
    (xs more : Text) (d : ℕ)
    → All IsLow xs
    → d < b'Z'
    → text_lt (xs ++ d ∷ more) (trim_zeros xs ++ b'Z' ∷ []) ≡ true
unfolding text_lt trim_zeros
text_lt-trim_zeros [] more d h l = let e : ltb d b'Z' ≡ true = ground arith in rw e refl
text_lt-trim_zeros (x ∷ xs) more d (hx, h) l =
    text_lt-zero_first x (trim_zeros xs) (xs ++ d ∷ more) hx (text_lt-trim_zeros xs more d h l)

pub text_lt-append :
    (stem xs ys : Text) → text_lt xs ys ≡ true → text_lt (stem ++ xs) (stem ++ ys) ≡ true
unfolding text_lt
text_lt-append [] xs ys e = e
text_lt-append (c ∷ stem) xs ys e =
    let same : ltb c c ≡ false = ground arith in
    rw (same, ==_refl c, text_lt-append stem xs ys e) refl

fraction_ne : (f : ℕ) → 1 ≤ f → fraction f ≡ b'.' ∷ (trim_zeros (digits 9 f) ++ b'Z' ∷ [])
unfolding fraction
fraction_ne f h = let e : (f == 0) ≡ false = ground (arith, h) in rw e refl

-- The order of the texts is not that of the fractions: if the last `k` of the nine digits are zeros,
-- what follows in time before these digits are used up has a text that is before.
pub text_lt-fraction :
    (m k q r : ℕ)
    → k + m ≡ 9
    → 1 ≤ r
    → r < tens k
    → text_lt (fraction (q * tens k + r)) (fraction (q * tens k)) ≡ true
unfolding text_lt
text_lt-fraction m k q r nine low high = elim (Bool-cases (q * tens k == 0)) [
  | inl whole ↦
      let none_left : q * tens k ≡ 0 = ground arith in
      rw (none_left, fraction_ne (0 + r) (omega (arith, low))) (unfold fraction in refl)
  | inr broken ↦
      let left : 1 ≤ q * tens k = ground (arith, broken) in
      let (c, more, e, l) = trim_zeros-digits k r low high in
      let long : trim_zeros (digits 9 (q * tens k + r)) ≡ digits m q ++ c ∷ more =
        ap (λ n. trim_zeros (digits n (q * tens k + r))) (sym nine)
        ∙ ap trim_zeros (digits-append m k q r high)
        ∙ trim_zeros-append (digits m q) (digits k r) more c e in
      let short : trim_zeros (digits 9 (q * tens k)) ≡ trim_zeros (digits m q) =
        ap (λ n. trim_zeros (digits n (q * tens k))) (sym nine)
        ∙ ap (λ n. trim_zeros (digits (k + m) n)) (omega arith)
        ∙ ap trim_zeros (digits-append m k q 0 (omega (arith, high)))
        ∙ trim_zeros-zeros k (digits m q) in
      rw
        (
          fraction_ne (q * tens k + r) (omega (arith, low)),
          fraction_ne (q * tens k) left,
          long,
          short,
          append_assoc (digits m q) (c ∷ more) (b'Z' ∷ []),
        )
        (text_lt-trim_zeros (digits m q) (more ++ b'Z' ∷ []) c (digits-IsLow m q) l)
]
