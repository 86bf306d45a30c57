-- ===== src/Config/Durations/Exact.antt =====
-- Where the durations of config.go are the products that they are meant to be, and where they wrap.
use huawei_proxy.Prelude.{
  ℕ, zero, suc, ◌-◌, ◌*◌, ◌%◌, ◌≤◌, ◌<◌, ◌≡◌, refl, ltb, false, true, ◌∙◌, arith,
}
use huawei_proxy.Prelude.Int.{ℤ, pos, negsuc, pos_part, neg_part}
use huawei_proxy.Config.Durations.{int64, duration, negated}

int64-low : (m : ℕ) → m < 9223372036854775808 → int64 (m % 18446744073709551616) ≡ pos m
unfolding int64
int64-low m h =
    let same : m % 18446744073709551616 ≡ m = omega arith in
    let low : ltb m 9223372036854775808 ≡ true = ground arith in rw same (rw low refl)

int64-high :
    (m : ℕ)
    → 9223372036854775808 ≤ m
    → m < 18446744073709551616
    → (pos_part (int64 (m % 18446744073709551616)) ≡ 0)
      × (neg_part (int64 (m % 18446744073709551616)) ≡ 18446744073709551616 - m)
unfolding int64
int64-high m l h =
    let same : m % 18446744073709551616 ≡ m = omega arith in
    let high : ltb m 9223372036854775808 ≡ false = ground arith in
    rw same (rw high (refl, omega arith))

-- A product below 2 ^ 63 is the duration.
pub duration-pos :
    (n unit : ℕ) → n * unit < 9223372036854775808 → duration (pos n) unit ≡ pos (n * unit)
unfolding duration
duration-pos n unit h = int64-low (n * unit) h

int64-negative :
    (m : ℕ)
    → 0 < m
    → m < 9223372036854775808
    → (pos_part (int64 ((18446744073709551616 - m % 18446744073709551616) % 18446744073709551616))
        ≡ 0)
      × (neg_part (int64 ((18446744073709551616 - m % 18446744073709551616) % 18446744073709551616))
          ≡ m)
int64-negative m l h =
    let same : m % 18446744073709551616 ≡ m = omega arith in
    let (p, n) = int64-high (18446744073709551616 - m) (omega arith) (omega arith) in
    rw same (p, n ∙ omega arith)

-- So it is for a negative number.
pub duration-negsuc :
    (n unit : ℕ)
    → 0 < suc n * unit
    → suc n * unit < 9223372036854775808
    → (pos_part (duration (negsuc n) unit) ≡ 0)
      × (neg_part (duration (negsuc n) unit) ≡ suc n * unit)
unfolding duration
duration-negsuc n unit l h = int64-negative (suc n * unit) l h

-- A product from 2 ^ 63 up to 2 ^ 64 is a negative duration.
pub duration_wraps :
    (n unit : ℕ)
    → 9223372036854775808 ≤ n * unit
    → n * unit < 18446744073709551616
    → (pos_part (duration (pos n) unit) ≡ 0)
      × (neg_part (duration (pos n) unit) ≡ 18446744073709551616 - n * unit)
unfolding duration
duration_wraps n unit l h = int64-high (n * unit) l h

pub negated-neg :
    (z : ℤ)
    → neg_part z < 9223372036854775808
    → (pos_part (negated z) ≡ neg_part z) × (neg_part (negated z) ≡ pos_part z)
unfolding negated int64
negated-neg (pos zero) h = (refl, refl)
negated-neg (pos (suc n)) h = (refl, refl)
negated-neg (negsuc n) h =
    let low : ltb (suc n) 9223372036854775808 ≡ true = ground arith in rw low (refl, refl)
