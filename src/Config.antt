-- ===== src/Config.antt =====
-- config.go: the configuration, and the checks of `LoadConfig`. Reading the file and
-- `yaml.Unmarshal` are no part of the repository: what they give is an argument.
pub mod Valid
pub mod HaOptions
pub mod Durations
use huawei_proxy.Prelude.{
  ℕ, ◌+◌, ◌*◌, Bool, true, false, not, ◌&&◌, ◌||◌, List, [], ◌∷◌, Option, none, some, ltb, ◌==◌,
  if◌then◌else◌,
}
use huawei_proxy.Prelude.Int.{ℤ, pos}
use huawei_proxy.Bytes.{Bytes}
use huawei_proxy.Text.{Text, codes, text_eq}

pub record InverterConfig : Type 0 where
  pub host : Text
  pub port : ℤ
  pub unit_ids : List ℕ
  pub timeout_ms : ℤ

pub record PollingConfig : Type 0 where
  pub read_pause_ms : ℤ
  pub slow_interval_s : ℤ

pub record RegisterGroup : Type 0 where
  pub name : Text
  pub address : ℕ
  pub count : ℕ
  pub poll : Text

-- `Config`; `server` and `web` are the one field `Listen` of their structs.
pub record Config : Type 0 where
  pub inverter : InverterConfig
  pub server : Text
  pub web : Text
  pub polling : PollingConfig
  pub forward_unknown_reads : Bool
  pub register_groups : List RegisterGroup
  pub log_level : Text
  pub cache_path : Text
  pub cache_ttl_h : ℤ

-- The errors that a loader returns, one for each message.
pub data ConfigError : Type 0 where
  reading_failed parsing_failed host_required groups_required unit_ids_required : ConfigError
  duplicate_unit_id : ℕ → ConfigError
  count_zero count_too_large bad_poll : (i : ℕ) → (name : Text) → ConfigError
  unit_id_out_of_range : ℤ → ConfigError

pub data Loaded : Type 0 where
  loaded : Config → Loaded
  failed : ConfigError → Loaded

-- The values that `LoadConfig` sets before the file is decoded into them.
abbrev pub default_config : Config
default_config = record {
  inverter = record { host = []; port = pos 502; unit_ids = 1 ∷ []; timeout_ms = pos 5000 };
  server = codes ":502";
  web = codes ":8080";
  polling = record { read_pause_ms = pos 500; slow_interval_s = pos 300 };
  forward_unknown_reads = true;
  register_groups = [];
  log_level = codes "info";
  cache_path = codes "cache.db";
  cache_ttl_h = pos 2;
}

unfoldable pub contains_id : List ℕ → ℕ → Bool
contains_id [] uid = false
contains_id (x ∷ xs) uid = x == uid || contains_id xs uid

-- the loop over the unit IDs, with the keys of `seen`
unfoldable pub check_unit_ids : List ℕ → List ℕ → Option ConfigError
unfolding contains_id
check_unit_ids seen [] = none
check_unit_ids seen (uid ∷ uids) =
    let rest = check_unit_ids (uid ∷ seen) uids in
    if contains_id seen uid then some (duplicate_unit_id uid) else rest

-- the loop over the register groups
unfoldable pub check_groups : ℕ → List RegisterGroup → Option ConfigError
check_groups i [] = none
check_groups i (g ∷ gs) =
    let rest = check_groups (i + 1) gs in
    if g.count == 0
    then some (count_zero i g.name)
    else if ltb 125 g.count
    then some (count_too_large i g.name)
    else if not (text_eq g.poll (codes "fast")) && not (text_eq g.poll (codes "slow"))
    then some (bad_poll i g.name)
    else rest

unfoldable pub is_empty {ℓ} : {A : Type ℓ} → List A → Bool
is_empty [] = true
is_empty (x ∷ xs) = false

or_else : Option ConfigError → Option ConfigError → Option ConfigError
or_else (some e) later = some e
or_else none later = later

-- the checks of `LoadConfig`, in order; `none` where all pass
unfoldable pub check_config : Config → Option ConfigError
unfolding is_empty or_else
check_config cfg =
    if is_empty cfg.inverter.host
    then some host_required
    else if is_empty cfg.register_groups
    then some groups_required
    else if is_empty cfg.inverter.unit_ids
    then some unit_ids_required
    else or_else (check_unit_ids [] cfg.inverter.unit_ids) (check_groups 0 cfg.register_groups)

-- `LoadConfig`, given the file's content or a read error, and the decoder
unfoldable pub load_config : Option Bytes → (Bytes → Config → Option Config) → Loaded
unfolding check_config
load_config none unmarshal = failed reading_failed
load_config (some bytes) unmarshal = elim (unmarshal bytes default_config) [
  | none ↦ failed parsing_failed
  | some cfg ↦ elim (check_config cfg) [ none ↦ loaded cfg | some e ↦ failed e ]
]
