-- ===== src/Config/HaOptions.antt =====
-- ha_options.go: the Home Assistant add-on's options, and the configuration that they give. As in
-- config.go, reading the file and `json.Unmarshal` are an argument.
pub mod Valid
use Prim.Native.String.{String}
use huawei_proxy.Prelude.{
  ℕ, ◌-◌, ◌%◌, Bool, true, false, not, ◌&&◌, List, [], ◌∷◌, ◌++◌, Option, none, some, leb,
  if◌then◌else◌,
}
use huawei_proxy.Prelude.Int.{ℤ, pos, negsuc}
use huawei_proxy.Bytes.{Bytes}
use huawei_proxy.Text.{Text, codes}
use huawei_proxy.Config.{
  RegisterGroup, Config, ConfigError, reading_failed, parsing_failed, host_required,
  unit_ids_required, unit_id_out_of_range, Loaded, loaded, failed, is_empty,
}

-- `HAOptions`
pub record HaOptions : Type 0 where
  pub inverter_host : Text
  pub inverter_port : ℤ
  pub unit_ids : List ℤ
  pub read_pause_ms : ℤ
  pub slow_interval_s : ℤ
  pub forward_unknown_reads : Bool
  pub log_level : Text
  pub cache_ttl_h : ℤ
  pub has_battery : Bool
  pub has_power_meter : Bool

-- The values that `LoadHAOptions` sets before the file is decoded into them.
abbrev pub default_options : HaOptions
default_options = record {
  inverter_host = [];
  inverter_port = pos 502;
  unit_ids = pos 1 ∷ [];
  read_pause_ms = pos 500;
  slow_interval_s = pos 300;
  forward_unknown_reads = true;
  log_level = codes "info";
  cache_ttl_h = pos 2;
  has_battery = false;
  has_power_meter = false;
}

abbrev pub group : String → ℕ → ℕ → String → RegisterGroup
group name address count poll = record {
  name = codes name;
  address = address;
  count = count;
  poll = codes poll;
}

abbrev pub base_groups : List RegisterGroup
base_groups =
    group "inverter_state" 32000 11 "fast"
    ∷ group "pv_strings" 32016 48 "fast"
    ∷ group "grid_power" 32064 33 "fast"
    ∷ group "energy_yield" 32106 14 "fast"
    ∷ group "rated_power" 30073 4 "slow"
    ∷ group "optimizer_info" 37200 2 "slow"
    ∷ group "inverter_config" 40122 10 "slow"
    ∷ group "grid_mppt_config" 42054 4 "slow"
    ∷ group "power_control" 47415 4 "slow"
    ∷ []

abbrev pub meter_groups : List RegisterGroup
meter_groups = group "meter" 37100 39 "fast" ∷ []

abbrev pub battery_groups : List RegisterGroup
battery_groups =
    group "storage_unit_1" 37000 70 "fast"
    ∷ group "storage_aggregated" 37758 30 "fast"
    ∷ group "storage_unit_2" 37700 58 "slow"
    ∷ group "battery_soh" 37920 8 "slow"
    ∷ group "battery_packs_1" 38200 84 "slow"
    ∷ group "battery_packs_2" 38284 84 "slow"
    ∷ group "battery_packs_3" 38368 96 "slow"
    ∷ group "storage_config_1" 47000 109 "slow"
    ∷ group "storage_config_2" 47200 100 "slow"
    ∷ group "capacity_control" 47954 67 "slow"
    ∷ []

-- `defaultRegisterGroups`
unfoldable pub default_register_groups : (has_battery has_power_meter : Bool) → List RegisterGroup
default_register_groups has_battery has_power_meter =
    let groups = base_groups in
    let groups = if has_power_meter then groups ++ meter_groups else groups in
    if has_battery then groups ++ battery_groups else groups

-- `id < 1 || id > 247` fails
unfoldable pub unit_id_in_range : ℤ → Bool
unit_id_in_range (pos id) = leb 1 id && leb id 247
unit_id_in_range (negsuc id) = false

-- `byte(id)` of an `id` in range, which is no negative number
abbrev pub to_byte : ℤ → ℕ
to_byte (pos id) = id % 256
to_byte (negsuc id) = 255 - id % 256

pub data UnitIds : Type 0 where
  converted : List ℕ → UnitIds
  rejected : ℤ → UnitIds

abbrev pub prepend : ℕ → UnitIds → UnitIds
prepend uid (converted uids) = converted (uid ∷ uids)
prepend uid (rejected id) = rejected id

-- the loop over the unit IDs
unfoldable pub convert_unit_ids : List ℤ → UnitIds
unfolding unit_id_in_range
convert_unit_ids [] = converted []
convert_unit_ids (id ∷ ids) =
    let rest = prepend (to_byte id) (convert_unit_ids ids) in
    if not (unit_id_in_range id) then rejected id else rest

-- the configuration that `LoadHAOptions` builds
abbrev pub to_config : HaOptions → List ℕ → Config
to_config opts uids = record {
  inverter = record {
    host = opts.inverter_host;
    port = opts.inverter_port;
    unit_ids = uids;
    timeout_ms = pos 5000;
  };
  server = codes ":502";
  web = codes ":8080";
  polling = record { read_pause_ms = opts.read_pause_ms; slow_interval_s = opts.slow_interval_s };
  forward_unknown_reads = opts.forward_unknown_reads;
  register_groups = default_register_groups opts.has_battery opts.has_power_meter;
  log_level = opts.log_level;
  cache_path = codes "/data/cache.db";
  cache_ttl_h = opts.cache_ttl_h;
}

-- the part of `LoadHAOptions` behind the decoder
unfoldable pub check_options : HaOptions → Loaded
unfolding is_empty convert_unit_ids
check_options opts =
    if is_empty opts.inverter_host
    then failed host_required
    else if is_empty opts.unit_ids
    then failed unit_ids_required
    else elim (convert_unit_ids opts.unit_ids) [
      | converted uids ↦ loaded (to_config opts uids)
      | rejected id ↦ failed (unit_id_out_of_range id)
    ]

-- `LoadHAOptions`
unfoldable pub load_ha_options : Option Bytes → (Bytes → HaOptions → Option HaOptions) → Loaded
unfolding check_options
load_ha_options none unmarshal = failed reading_failed
load_ha_options (some bytes) unmarshal = elim (unmarshal bytes default_options) [
  | none ↦ failed parsing_failed
  | some opts ↦ check_options opts
]
