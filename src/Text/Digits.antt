-- ===== src/Text/Digits.antt =====
-- `%d` read back.
use huawei_proxy.Prelude.{
  ℕ, zero, suc, ◌+◌, ◌-◌, ◌*◌, ◌/◌, ◌%◌, ◌<◌, ◌≡◌, refl, ap, ◌∙◌, inl, inr, Bool-cases, ◌&&◌, [],
  ◌∷◌, ◌++◌, ltb, leb, true, if◌then◌else◌, arith,
}
use huawei_proxy.Text.{Text, decimal_from, decimal}

-- The number whose digits stand in front, behind the digits of `n`, and what follows them.
unfoldable pub read_number : ℕ → Text → ℕ × Text
read_number n [] = (n, [])
read_number n (c ∷ cs) =
    let rest = read_number (n * 10 + (c - b'0')) cs in
    if leb b'0' c && leb c b'9' then rest else (n, c ∷ cs)

-- 10 ^ fuel
abbrev bound : ℕ → ℕ
bound zero = 1
bound (suc fuel) = 10 * bound fuel

read_number-digit :
    (m n : ℕ) (cs : Text) → n < 10 → read_number m ((b'0' + n) ∷ cs) ≡ read_number (m * 10 + n) cs
unfolding read_number
read_number-digit m n cs h =
    let digit : (leb b'0' (b'0' + n) && leb (b'0' + n) b'9') ≡ true = ground arith in
    let value : b'0' + n - b'0' ≡ n = omega arith in rw digit (rw value refl)

decimal_from-append :
    (fuel n : ℕ) (cs ds : Text) → decimal_from fuel n cs ++ ds ≡ decimal_from fuel n (cs ++ ds)
unfolding decimal_from
decimal_from-append zero n cs ds = refl
decimal_from-append (suc fuel) n cs ds = elim (Bool-cases (ltb n 10)) [
  | inl last ↦ rw last refl
  | inr more ↦ rw more (decimal_from-append fuel (n / 10) ((b'0' + n % 10) ∷ cs) ds)
]

read_number-decimal_from :
    (fuel n : ℕ) (cs : Text)
    → n < bound fuel
    → read_number 0 (decimal_from fuel n cs) ≡ read_number n cs
unfolding decimal_from
read_number-decimal_from zero n cs h =
    let none_left : 0 ≡ n = omega arith in ap (λ k. read_number k cs) none_left
read_number-decimal_from (suc fuel) n cs h = elim (Bool-cases (ltb n 10)) [
  | inl last ↦
      let small : n < 10 = ground arith in
      let value : 0 * 10 + n % 10 ≡ n = omega arith in
      rw last (read_number-digit 0 (n % 10) cs (omega arith) ∙ ap (λ k. read_number k cs) value)
  | inr more ↦
      let value : n / 10 * 10 + n % 10 ≡ n = omega arith in
      rw more (
        read_number-decimal_from fuel (n / 10) ((b'0' + n % 10) ∷ cs) (omega arith)
        ∙ read_number-digit (n / 10) (n % 10) cs (omega arith)
        ∙ ap (λ k. read_number k cs) value)
]

-- A number below 10 ^ 20 is what its digits are read as, up to the first byte that is no digit.
pub read_number-decimal :
    (n : ℕ) (cs : Text)
    → n < 100000000000000000000
    → read_number 0 (decimal n ++ cs) ≡ read_number n cs
unfolding decimal
read_number-decimal n cs h =
    ap (read_number 0) (decimal_from-append 20 n [] cs) ∙ read_number-decimal_from 20 n cs h
