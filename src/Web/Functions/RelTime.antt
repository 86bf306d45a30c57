-- ===== src/Web/Functions/RelTime.antt =====
-- The text of `relTime` in web.go read back.
use huawei_proxy.Prelude.{
  ℕ, ◌+◌, ◌*◌, ◌/◌, ◌%◌, ◌<◌, ◌≤◌, ◌≡◌, ◌⊎◌, refl, ap, ◌∙◌, inl, inr, Bool-cases, [], ◌∷◌, ◌++◌,
  ltb, if◌then◌else◌, Option, none, some, ◌==◌, arith,
}
use huawei_proxy.Prelude.Int.{pos}
use huawei_proxy.Text.{Text, codes, decimal}
use huawei_proxy.Text.Digits.{read_number, read_number-decimal}
use huawei_proxy.Config.Durations.{second, hour}
use huawei_proxy.Web.Functions.{minute, Parts, rel_time}

-- what follows a count of minutes or of hours
unfoldable read_second : (unit lesser first : ℕ) → ℕ × Text → Option (ℕ × ℕ)
read_second unit lesser first (n, []) = none
read_second unit lesser first (n, c ∷ cs) = some (first * unit + n * lesser, lesser)

-- what follows the first count of a text
unfoldable read_first : ℕ × Text → Option (ℕ × ℕ)
unfolding read_second
read_first (n, []) = none
read_first (n, c ∷ []) = none
read_first (n, c ∷ d ∷ cs) =
    if c == b'j'
    then some (0, 1)
    else if c == b's'
    then some (n, 1)
    else if c == b'm'
    then read_second 60 1 n (read_number 0 cs)
    else read_second 3600 60 n (read_number 0 cs)

-- What the reader of the page takes from a text: the seconds that it names, and how many more it may
-- be.
unfoldable pub time_shown : Text → Option (ℕ × ℕ)
unfolding read_first
time_shown t = read_first (read_number 0 t)

one_count :
    (n : ℕ) (cs : Text)
    → n < 100000000000000000000
    → time_shown (decimal n ++ cs) ≡ read_first (read_number n cs)
unfolding time_shown
one_count n cs h = ap read_first (read_number-decimal n cs h)

now_shown : time_shown (codes "just now") ≡ some (0, 1)
unfolding time_shown read_number
now_shown = refl

seconds_shown :
    (n : ℕ) → n < 100000000000000000000 → time_shown (decimal n ++ codes "s ago") ≡ some (n, 1)
unfolding read_first read_number
seconds_shown n h = one_count n (codes "s ago") h

minutes_shown :
    (m n : ℕ)
    → m < 100000000000000000000
    → n < 100000000000000000000
    → time_shown (decimal m ++ (codes "m " ++ (decimal n ++ codes "s ago")))
      ≡ some (m * 60 + n * 1, 1)
unfolding read_first read_second read_number
minutes_shown m n h k =
    one_count m (codes "m " ++ (decimal n ++ codes "s ago")) h
    ∙ ap (read_second 60 1 m) (read_number-decimal n (codes "s ago") k)

hours_shown :
    (m n : ℕ)
    → m < 100000000000000000000
    → n < 100000000000000000000
    → time_shown (decimal m ++ (codes "h " ++ (decimal n ++ codes "m ago")))
      ≡ some (m * 3600 + n * 60, 60)
unfolding read_first read_second read_number
hours_shown m n h k =
    one_count m (codes "h " ++ (decimal n ++ codes "m ago")) h
    ∙ ap (read_second 3600 60 m) (read_number-decimal n (codes "m ago") k)

-- For an age of less than 2048 hours, the text of `relTime` names the age: read back, it gives whole
-- seconds that are not more than the age, and the age is less than one second above them if it is
-- less than an hour, and less than one minute above them from an hour on.
pub time_shown-rel_time :
    (parts : Parts) (d : ℕ)
    → d < 2048 * hour
    → (v : ℕ) × (g : ℕ) × (time_shown (rel_time parts (pos d)) ≡ some (v, g))
      × (v * second ≤ d)
      × (d < (v + g) * second)
      × (((d < hour) × (g ≡ 1)) ⊎ ((hour ≤ d) × (g ≡ 60)))
unfolding rel_time
time_shown-rel_time parts d h =
    let s = parts.seconds_exact d h in
    let m = parts.minutes_exact d h in
    let o = parts.hours_exact d h in
    elim (Bool-cases (ltb d second)) [
      | inl now ↦ (0, 1, rw now now_shown, omega arith, ground arith, inl (ground arith, refl))
      | inr past ↦ elim (Bool-cases (ltb d minute)) [
        | inl short ↦ (
          d / second,
          1,
          rw (past, short, s) (seconds_shown (d / second) (omega arith)),
          omega arith,
          omega arith,
          inl (ground arith, refl),
        )
        | inr long ↦ elim (Bool-cases (ltb d hour)) [
          | inl minutes ↦ (
            d / minute * 60 + d / second % 60 * 1,
            1,
            rw (past, long, minutes, m, s)
                (minutes_shown (d / minute) (d / second % 60) (omega arith) (omega arith)),
            omega arith,
            omega arith,
            inl (ground arith, refl),
          )
          | inr hours ↦ (
            d / hour * 3600 + d / minute % 60 * 60,
            60,
            rw (past, long, hours, o, m)
                (hours_shown (d / hour) (d / minute % 60) (omega arith) (omega arith)),
            omega arith,
            omega arith,
            inr (ground arith, refl),
          )
        ]
      ]
    ]
