-- ===== src/Reader.antt =====
-- reader.go: the polling loop.
pub mod Group
pub mod Scan
pub mod Cycle
use huawei_proxy.Prelude.{ℕ, List, [], ◌∷◌, Bool, if◌then◌else◌}
use huawei_proxy.Text.{codes, text_eq}
use huawei_proxy.Config.{RegisterGroup, Config}
use huawei_proxy.Config.Durations.{slow_interval, cache_ttl}
use huawei_proxy.Prelude.Int.{ℤ}

-- The fields of `Reader` that `NewReader` sets and the loops read, and the two durations that the loops
-- ask of its configuration.
pub record Reader : Type 0 where
  pub unit_ids : List ℕ
  pub fast_groups : List RegisterGroup
  pub slow_groups : List RegisterGroup
  pub slow_interval : ℤ
  pub cache_ttl : ℤ

-- the groups whose `Poll` is the given text, in the order of the configuration
unfoldable pub groups_polled : List ℕ → List RegisterGroup → List RegisterGroup
groups_polled poll [] = []
groups_polled poll (g ∷ gs) =
    let rest = groups_polled poll gs in if text_eq g.poll poll then g ∷ rest else rest

-- `NewReader`
unfoldable pub new_reader : Config → Reader
unfolding groups_polled slow_interval cache_ttl
new_reader cfg = record {
  unit_ids = cfg.inverter.unit_ids;
  fast_groups = groups_polled (codes "fast") cfg.register_groups;
  slow_groups = groups_polled (codes "slow") cfg.register_groups;
  slow_interval = slow_interval cfg;
  cache_ttl = cache_ttl cfg;
}
