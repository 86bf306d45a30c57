-- ===== src/Config/Durations.antt =====
-- The helpers of `Config` in config.go that its clients call for durations and for the inverter's
-- address. A `time.Duration` is an `int64` of nanoseconds, and the products wrap.
pub mod Exact
use huawei_proxy.Prelude.{ℕ, zero, suc, ◌+◌, ◌-◌, ◌*◌, ◌%◌, ◌∷◌, ◌++◌, ltb, if◌then◌else◌}
use huawei_proxy.Prelude.Int.{ℤ, pos, negsuc}
use huawei_proxy.Text.{Text, signed_decimal}
use huawei_proxy.Config.{Config}

-- the `int64` with these 64 bits
unfoldable pub int64 : ℕ → ℤ
int64 n = if ltb n 9223372036854775808 then pos n else negsuc (18446744073709551615 - n)

-- `time.Duration(n) * unit`, for a unit in nanoseconds
unfoldable pub duration : ℤ → ℕ → ℤ
unfolding int64
duration (pos n) unit = int64 (n * unit % 18446744073709551616)
duration (negsuc n) unit =
    int64 ((18446744073709551616 - suc n * unit % 18446744073709551616) % 18446744073709551616)

-- the negated `int64`; the least one is its own negation
unfoldable pub negated : ℤ → ℤ
unfolding int64
negated (pos zero) = pos 0
negated (pos (suc n)) = negsuc n
negated (negsuc n) = int64 (suc n)

abbrev pub millisecond : ℕ
millisecond = 1000000

abbrev pub second : ℕ
second = 1000000000

abbrev pub hour : ℕ
hour = 3600000000000

-- `ReadPause`
unfoldable pub read_pause : Config → ℤ
unfolding duration
read_pause cfg = duration cfg.polling.read_pause_ms millisecond

-- `SlowInterval`
unfoldable pub slow_interval : Config → ℤ
unfolding duration
slow_interval cfg = duration cfg.polling.slow_interval_s second

-- `InverterTimeout`
unfoldable pub inverter_timeout : Config → ℤ
unfolding duration
inverter_timeout cfg = duration cfg.inverter.timeout_ms millisecond

-- `CacheTTL`
unfoldable pub cache_ttl : Config → ℤ
unfolding duration
cache_ttl cfg = duration cfg.cache_ttl_h hour

-- `InverterAddr`
unfoldable pub inverter_addr : Config → Text
unfolding signed_decimal
inverter_addr cfg = cfg.inverter.host ++ b':' ∷ signed_decimal cfg.inverter.port
