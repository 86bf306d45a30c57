-- ===== src/Tests/Purge.antt =====
-- The purge over the small platform: a time to live of one hour, and of 2562048 hours.
use huawei_proxy.Prelude.{
  ◌+◌, ◌*◌, ◌<◌, ◌≡◌, ◌⊎◌, refl, true, [], ◌∷◌, none, some, ltb, arith, ℕ, List, ◌/◌, ◌%◌,
}
use huawei_proxy.Prelude.Int.{pos}
use huawei_proxy.Text.{codes}
use huawei_proxy.Text.Fraction.{fraction, digits, trim_zeros}
use huawei_proxy.Platform.{Platform}
use huawei_proxy.Platform.Sqlite.{upsert, text_lt}
use huawei_proxy.Client.{World}
use huawei_proxy.Config.{Config, default_config}
use huawei_proxy.Config.Durations.{second, hour}
use huawei_proxy.Reader.{new_reader}
use huawei_proxy.Reader.Cycle.{purge}
use huawei_proxy.Reader.Cycle.Fractions.{DropsZeros, purge-younger}
use huawei_proxy.Reader.Cycle.Purge.{KeepsOrder, purge-ttl, purge-IsBackward}
use huawei_proxy.Tests.Setup.{house, start}

house-KeepsOrder : KeepsOrder house
unfolding text_lt
house-KeepsOrder t t' apart before = let e : ltb t t' ≡ true = ground arith in rw e refl

-- a register that was written two hours after the epoch, and now it is five hours after the epoch
abbrev later : World house
later = record start {
  db = upsert 1 100 (record { value = 7; updated_at = 7200000000000 ∷ [] }) (λ u a. none);
  clock = 18000000000000;
}

abbrev short : Config
short = record default_config { cache_ttl_h = pos 1 }

abbrev endless : Config
endless = record default_config { cache_ttl_h = pos 2562048 }

purge-ttl_example :
    let left = (purge house (new_reader short) later).db 1 100 in
    ((left ≡ some (record { value = 7; updated_at = 7200000000000 ∷ [] }))
      ⊎ (7200000000000 + 1 * hour < 18000000000000 + second))
    × ((left ≡ none) ⊎ (18000000000000 < 7200000000000 + 1 * hour + second))
purge-ttl_example =
    purge-ttl house short 1 later 1 100 7 7200000000000 0 house-KeepsOrder refl (omega arith)
      (omega arith) (omega arith) (omega arith) (unfold upsert in refl) refl

purge-IsBackward_example : (purge house (new_reader endless) later).db 1 100 ≡ none
purge-IsBackward_example =
    purge-IsBackward house endless later 1 100 7 7200000000000 0 house-KeepsOrder
      (omega arith, omega arith) (omega arith) (omega arith) (unfold upsert in refl) refl

-- the platform with times that drop the zeros
abbrev written_time : ℕ → List ℕ
written_time t = t / second ∷ fraction (t % second)

abbrev exact : Platform
exact = record house { format = written_time }

exact-DropsZeros : DropsZeros exact
exact-DropsZeros = record {
  stem = λ s. s ∷ [];
  written = λ s f less before.
      let left : (s * second + f) % second ≡ f = omega (arith, less) in
      let same : (s * second + f) / second ≡ s = omega (arith, less) in rw (left, same) refl;
}

half : fraction 500000000 ≡ codes ".5Z"
unfolding fraction digits trim_zeros
half = refl

-- a register of 0.51 s past the fourth hour, and now it is half a second past five o'clock
abbrev fifth_hour : World exact
fifth_hour = record {
  db = upsert 1 100 (record { value = 7; updated_at = written_time 14400510000000 }) (λ u a. none);
  link = 0;
  slave_id = 0;
  pause_ms = pos 500;
  last_read = none;
  clock = 18000500000000;
  wire = [];
}

purge-younger_example : (purge exact (new_reader short) fifth_hour).db 1 100 ≡ none
purge-younger_example =
    purge-younger exact short 1 14400 8 5 10000000 fifth_hour 1 100 7 0 exact-DropsZeros refl
      (omega arith) refl (omega arith) (omega arith) (omega arith) (omega arith) (omega arith)
      (unfold upsert in refl) refl
