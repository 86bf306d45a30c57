-- ===== src/Tests/Times.antt =====
-- The ages that the status page shows.
use huawei_proxy.Prelude.{ℕ, ◌+◌, ◌*◌, ◌/◌, ◌≤◌, ◌<◌, ◌≡◌, ◌⊎◌, refl, some, arith}
use huawei_proxy.Prelude.Int.{pos, negsuc}
use huawei_proxy.Text.{codes, decimal}
use huawei_proxy.Config.Durations.{second, hour}
use huawei_proxy.Web.Functions.{minute, Parts, rel_time, hex_word}
use huawei_proxy.Web.Functions.RelTime.{time_shown, time_shown-rel_time}

-- the parts without rounding
abbrev parts : Parts
parts = record {
  seconds = λ d. d / second;
  minutes = λ d. d / minute;
  hours = λ d. d / hour;
  seconds_exact = λ d h. refl;
  minutes_exact = λ d h. refl;
  hours_exact = λ d h. refl;
}

-- an hour, two minutes and three seconds
age : rel_time parts (pos 3723000000000) ≡ codes "1h 2m ago"
unfolding rel_time decimal
age = refl

future : rel_time parts (negsuc 5000000000) ≡ codes "just now"
unfolding rel_time
future = refl

time_shown-rel_time_example :
    (v : ℕ) × (g : ℕ) × (time_shown (rel_time parts (pos 3723000000000)) ≡ some (v, g))
    × (v * second ≤ 3723000000000)
    × (3723000000000 < (v + g) * second)
    × (((3723000000000 < hour) × (g ≡ 1)) ⊎ ((hour ≤ 3723000000000) × (g ≡ 60)))
time_shown-rel_time_example = time_shown-rel_time parts 3723000000000 (omega arith)

device_status_address : hex_word 32089 ≡ codes "0x7D59"
unfolding hex_word
device_status_address = refl
