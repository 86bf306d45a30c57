-- ===== src/Tests/Config.antt =====
-- The loaders on small configurations.
use huawei_proxy.Prelude.{◌≡◌, ◌↔◌, refl, [], ◌∷◌, ◌++◌, if◌then◌else◌, Option, none, some, All}
use huawei_proxy.Prelude.Int.{pos, negsuc}
use huawei_proxy.Text.{codes, text_eq}
use huawei_proxy.Config.{
  Config, duplicate_unit_id, unit_id_out_of_range, loaded, failed, default_config, contains_id,
  is_empty, check_unit_ids, check_groups, check_config, load_config,
}
use huawei_proxy.Config.Valid.{AllDistinct, IsValid, load_config_iff}
use huawei_proxy.Config.HaOptions.{
  HaOptions, default_options, group, base_groups, meter_groups, battery_groups,
  default_register_groups, unit_id_in_range, convert_unit_ids, to_config, check_options,
  load_ha_options,
}
use huawei_proxy.Config.HaOptions.Valid.{ids, IsUnitId, load_ha_options_lem}

checked : Unit {0}
unfolding text_eq contains_id is_empty check_unit_ids check_groups check_config load_config
    default_register_groups unit_id_in_range convert_unit_ids check_options load_ha_options
checked = tt

abbrev home : Config
home = record default_config {
  inverter = record {
    host = codes "10.0.0.1";
    port = pos 502;
    unit_ids = 1 ∷ 16 ∷ [];
    timeout_ms = pos 5000;
  };
  register_groups = group "pair" 100 2 "fast" ∷ [];
}

load_config_iff_example :
    (load_config (some []) (λ b d. some home) ≡ loaded home)
    ↔ ((◌≡◌ {A = Option Config} (some home) (some home)) × IsValid home)
load_config_iff_example = load_config_iff [] (λ b d. some home) home

abbrev options : HaOptions
options = record default_options { inverter_host = codes "10.0.0.1"; unit_ids = pos 1 ∷ pos 1 ∷ [] }

-- The same unit ID twice: the add-on's loader takes it, and `LoadConfig` would not.
twice_loaded :
    load_ha_options (some []) (λ b d. some options) ≡ loaded (to_config options (1 ∷ 1 ∷ []))
unfolding checked
twice_loaded = refl

twice_refused : check_config (to_config options (1 ∷ 1 ∷ [])) ≡ some (duplicate_unit_id 1)
unfolding checked
twice_refused = refl

negative_refused :
    convert_unit_ids (pos 1 ∷ negsuc 0 ∷ []) ≡ huawei_proxy.Config.HaOptions.rejected (negsuc 0)
unfolding checked
negative_refused = refl

load_ha_options_lem_example :
    (opts : HaOptions) × (some options ≡ some opts)
    × (opts.unit_ids ≡ ids (1 ∷ 1 ∷ []))
    × All IsUnitId (1 ∷ 1 ∷ [])
    × ((to_config options (1 ∷ 1 ∷ [])).register_groups
        ≡ base_groups
          ++ ((if opts.has_power_meter then meter_groups else [])
              ++ (if opts.has_battery then battery_groups else [])))
    × ((check_config (to_config options (1 ∷ 1 ∷ [])) ≡ none) ↔ AllDistinct (1 ∷ 1 ∷ []))
load_ha_options_lem_example =
    load_ha_options_lem [] (λ b d. some options) (to_config options (1 ∷ 1 ∷ [])) twice_loaded
