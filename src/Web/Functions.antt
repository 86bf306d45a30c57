-- ===== src/Web/Functions.antt =====
-- The functions that `handleIndex` of web.go gives to its template.
pub mod RelTime
use huawei_proxy.Prelude.{◌+◌, ◌-◌, ◌∷◌, [], ℕ, ◌*◌, ◌/◌, ◌%◌, ◌<◌, ◌≡◌, ◌++◌, ltb, if◌then◌else◌}
use huawei_proxy.Prelude.Int.{ℤ, pos_part}
use huawei_proxy.Text.{Text, codes, decimal}
use huawei_proxy.Config.Durations.{second, hour}

abbrev pub minute : ℕ
minute = 60000000000

-- `int(d.Seconds())`, `int(d.Minutes())` and `int(d.Hours())` of a duration of so many nanoseconds.
-- They go through a float64: it holds a duration below 2048 hours so closely that cutting off the
-- fraction gives the whole seconds, minutes and hours.
pub record Parts : Type 0 where
  pub seconds : ℕ → ℕ
  pub minutes : ℕ → ℕ
  pub hours : ℕ → ℕ
  pub seconds_exact : (d : ℕ) → d < 2048 * hour → seconds d ≡ d / second
  pub minutes_exact : (d : ℕ) → d < 2048 * hour → minutes d ≡ d / minute
  pub hours_exact : (d : ℕ) → d < 2048 * hour → hours d ≡ d / hour

-- `relTime` of a time, where `d` is `now.Sub(t)`
unfoldable pub rel_time : Parts → ℤ → Text
rel_time parts d =
    let n = pos_part d in
    if ltb n second
    then codes "just now"
    else if ltb n minute
    then decimal (parts.seconds n) ++ codes "s ago"
    else if ltb n hour
    then decimal (parts.minutes n)
      ++ (codes "m " ++ (decimal (parts.seconds n % 60) ++ codes "s ago"))
    else decimal (parts.hours n)
      ++ (codes "h " ++ (decimal (parts.minutes n % 60) ++ codes "m ago"))

-- a digit of `%X`
abbrev hex_digit : ℕ → ℕ
hex_digit n = if ltb n 10 then b'0' + n else b'A' + (n - 10)

-- `hexAddr` and `hexVal`: `0x%04X` of a `uint16`
unfoldable pub hex_word : ℕ → Text
hex_word v =
    codes "0x"
    ++ hex_digit (v / 4096 % 16)
      ∷ hex_digit (v / 256 % 16)
      ∷ hex_digit (v / 16 % 16)
      ∷ hex_digit (v % 16)
      ∷ []
