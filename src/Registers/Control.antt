-- ===== src/Registers/Control.antt =====
-- The entries of `registerDefs` in registers.go for time, control and configuration: addresses 40000
-- to 48020.
use huawei_proxy.Prelude.{List, [], ◌∷◌}
use huawei_proxy.Registers.Defs.{Entry, entry}

-- System Time
abbrev pub system_time : List Entry
system_time = entry 40000 "system_time" 2 ∷ []

-- Inverter Control
abbrev pub inverter_control : List Entry
inverter_control =
    entry 40037 "q_u_characteristic_curve_model" 1
    ∷ entry 40038 "q_u_scheduling_trigger_power_percentage" 1
    ∷ entry 40122 "power_factor_2" 1
    ∷ entry 40123 "reactive_power_compensation" 1
    ∷ entry 40124 "reactive_power_adjustment_time" 1
    ∷ entry 40125 "active_power_percentage_derating" 1
    ∷ entry 40126 "active_power_fixed_value_derating" 2
    ∷ entry 40128 "reactive_power_compensation_at_night" 1
    ∷ entry 40129 "fixed_reactive_power_at_night" 2
    ∷ entry 40196 "characteristic_curve_reactive_power_adjustment_time" 1
    ∷ entry 40197 "percent_apparent_power" 1
    ∷ entry 40198 "q_u_scheduling_exit_power_percentage" 1
    ∷ entry 40200 "startup" 1
    ∷ entry 40201 "shutdown" 1
    ∷ []

-- Grid & MPPT Config
abbrev pub grid_config : List Entry
grid_config =
    entry 42000 "grid_code" 1
    ∷ entry 42054 "mppt_multimodal_scanning" 1
    ∷ entry 42055 "mppt_scanning_interval" 1
    ∷ entry 42056 "mppt_predicted_power" 2
    ∷ entry 42900 "daylight_saving_time" 1
    ∷ entry 43006 "time_zone" 1
    ∷ []

-- Storage Configuration
abbrev pub storage_configuration : List Entry
storage_configuration =
    entry 47000 "storage_unit_1_product_model" 1
    ∷ entry 47004 "storage_working_mode_a" 1
    ∷ entry 47027 "storage_time_of_use_price" 1
    ∷ entry 47028 "storage_time_of_use_price_periods" 41
    ∷ entry 47069 "storage_lcoe" 2
    ∷ entry 47075 "storage_maximum_charging_power" 2
    ∷ entry 47077 "storage_maximum_discharging_power" 2
    ∷ entry 47079 "storage_power_limit_grid_tied_point" 2
    ∷ entry 47081 "storage_charging_cutoff_capacity" 1
    ∷ entry 47082 "storage_discharging_cutoff_capacity" 1
    ∷ entry 47083 "storage_forced_charging_and_discharging_period" 1
    ∷ entry 47084 "storage_forced_charging_and_discharging_power" 2
    ∷ entry 47086 "storage_working_mode_settings" 1
    ∷ entry 47087 "storage_charge_from_grid_function" 1
    ∷ entry 47088 "storage_grid_charge_cutoff_state_of_charge" 1
    ∷ entry 47089 "storage_unit_2_product_model" 1
    ∷ entry 47100 "forcible_charge_discharge_write" 1
    ∷ entry 47101 "storage_forcible_charge_discharge_soc" 1
    ∷ entry 47102 "storage_backup_power_state_of_charge" 1
    ∷ entry 47107 "storage_unit_1_no" 1
    ∷ entry 47108 "storage_unit_2_no" 1
    ∷ entry 47200 "storage_fixed_charging_and_discharging_periods" 41
    ∷ entry 47242 "storage_power_of_charge_from_grid" 2
    ∷ entry 47244 "storage_maximum_power_of_charge_from_grid" 2
    ∷ entry 47246 "storage_forcible_charge_discharge_setting_mode" 1
    ∷ entry 47247 "storage_forcible_charge_power" 2
    ∷ entry 47249 "storage_forcible_discharge_power" 2
    ∷ entry 47255 "storage_tou_charging_and_discharging_periods" 43
    ∷ entry 47299 "storage_excess_pv_energy_use_in_tou" 1
    ∷ entry 47415 "active_power_control_mode" 1
    ∷ entry 47416 "maximum_feed_grid_power_watt" 2
    ∷ entry 47418 "maximum_feed_grid_power_percent" 1
    ∷ entry 47589 "remote_charge_discharge_control_mode" 1
    ∷ entry 47590 "dongle_plant_maximum_charge_from_grid_power" 2
    ∷ entry 47604 "backup_switch_to_off_grid" 1
    ∷ entry 47605 "backup_voltage_independent_operation" 1
    ∷ entry 47675 "default_maximum_feed_in_power" 2
    ∷ entry 47677 "default_active_power_change_gradient" 2
    ∷ entry 47750 "storage_unit_1_pack_1_no" 1
    ∷ entry 47751 "storage_unit_1_pack_2_no" 1
    ∷ entry 47752 "storage_unit_1_pack_3_no" 1
    ∷ entry 47753 "storage_unit_2_pack_1_no" 1
    ∷ entry 47754 "storage_unit_2_pack_2_no" 1
    ∷ entry 47755 "storage_unit_2_pack_3_no" 1
    ∷ entry 47954 "storage_capacity_control_mode" 1
    ∷ entry 47955 "storage_capacity_control_soc_peak_shaving" 1
    ∷ entry 47956 "storage_capacity_control_periods" 64
    ∷ entry 48020 "emma" 1
    ∷ []
