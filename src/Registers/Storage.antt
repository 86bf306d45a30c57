-- ===== src/Registers/Storage.antt =====
-- The entries of `registerDefs` in registers.go for batteries, meter and optimizers: addresses 37000 to
-- 37927.
use huawei_proxy.Prelude.{List, [], ◌∷◌}
use huawei_proxy.Registers.Defs.{Entry, entry}

-- Storage Unit 1
abbrev pub storage_unit_1 : List Entry
storage_unit_1 =
    entry 37000 "storage_unit_1_running_status" 1
    ∷ entry 37001 "storage_unit_1_charge_discharge_power" 2
    ∷ entry 37003 "storage_unit_1_bus_voltage" 1
    ∷ entry 37004 "storage_unit_1_state_of_capacity" 1
    ∷ entry 37006 "storage_unit_1_working_mode_b" 1
    ∷ entry 37007 "storage_unit_1_rated_charge_power" 2
    ∷ entry 37009 "storage_unit_1_rated_discharge_power" 2
    ∷ entry 37014 "storage_unit_1_fault_id" 1
    ∷ entry 37015 "storage_unit_1_current_day_charge_capacity" 2
    ∷ entry 37017 "storage_unit_1_current_day_discharge_capacity" 2
    ∷ entry 37021 "storage_unit_1_bus_current" 1
    ∷ entry 37022 "storage_unit_1_battery_temperature" 1
    ∷ entry 37025 "storage_unit_1_remaining_charge_dis_charge_time" 1
    ∷ entry 37026 "storage_unit_1_dcdc_version" 10
    ∷ entry 37036 "storage_unit_1_bms_version" 10
    ∷ entry 37046 "storage_maximum_charge_power" 2
    ∷ entry 37048 "storage_maximum_discharge_power" 2
    ∷ entry 37052 "storage_unit_1_serial_number" 10
    ∷ entry 37066 "storage_unit_1_total_charge" 2
    ∷ entry 37068 "storage_unit_1_total_discharge" 2
    ∷ []

-- Power Meter
abbrev pub power_meter : List Entry
power_meter =
    entry 37100 "meter_status" 1
    ∷ entry 37101 "grid_A_voltage" 2
    ∷ entry 37103 "grid_B_voltage" 2
    ∷ entry 37105 "grid_C_voltage" 2
    ∷ entry 37107 "active_grid_A_current" 2
    ∷ entry 37109 "active_grid_B_current" 2
    ∷ entry 37111 "active_grid_C_current" 2
    ∷ entry 37113 "power_meter_active_power" 2
    ∷ entry 37115 "power_meter_reactive_power" 2
    ∷ entry 37117 "active_grid_power_factor" 1
    ∷ entry 37118 "active_grid_frequency" 1
    ∷ entry 37119 "grid_exported_energy" 2
    ∷ entry 37121 "grid_accumulated_energy" 2
    ∷ entry 37123 "grid_accumulated_reactive_power" 2
    ∷ entry 37125 "meter_type" 1
    ∷ entry 37126 "active_grid_A_B_voltage" 2
    ∷ entry 37128 "active_grid_B_C_voltage" 2
    ∷ entry 37130 "active_grid_C_A_voltage" 2
    ∷ entry 37132 "active_grid_A_power" 2
    ∷ entry 37134 "active_grid_B_power" 2
    ∷ entry 37136 "active_grid_C_power" 2
    ∷ entry 37138 "meter_type_check" 1
    ∷ []

-- Optimizers
abbrev pub optimizers : List Entry
optimizers = entry 37200 "nb_optimizers" 1 ∷ entry 37201 "nb_online_optimizers" 1 ∷ []

-- Storage Unit 2
abbrev pub storage_unit_2 : List Entry
storage_unit_2 =
    entry 37700 "storage_unit_2_serial_number" 10
    ∷ entry 37738 "storage_unit_2_state_of_capacity" 1
    ∷ entry 37741 "storage_unit_2_running_status" 1
    ∷ entry 37743 "storage_unit_2_charge_discharge_power" 2
    ∷ entry 37746 "storage_unit_2_current_day_charge_capacity" 2
    ∷ entry 37748 "storage_unit_2_current_day_discharge_capacity" 2
    ∷ entry 37750 "storage_unit_2_bus_voltage" 1
    ∷ entry 37751 "storage_unit_2_bus_current" 1
    ∷ entry 37752 "storage_unit_2_battery_temperature" 1
    ∷ entry 37753 "storage_unit_2_total_charge" 2
    ∷ entry 37755 "storage_unit_2_total_discharge" 2
    ∷ entry 37799 "storage_unit_2_software_version" 15
    ∷ entry 37814 "storage_unit_1_software_version" 15
    ∷ []

-- Storage Aggregated
abbrev pub storage_aggregated : List Entry
storage_aggregated =
    entry 37758 "storage_rated_capacity" 2
    ∷ entry 37760 "storage_state_of_capacity" 1
    ∷ entry 37762 "storage_running_status" 1
    ∷ entry 37763 "storage_bus_voltage" 1
    ∷ entry 37764 "storage_bus_current" 1
    ∷ entry 37765 "storage_charge_discharge_power" 2
    ∷ entry 37780 "storage_total_charge" 2
    ∷ entry 37782 "storage_total_discharge" 2
    ∷ entry 37784 "storage_current_day_charge_capacity" 2
    ∷ entry 37786 "storage_current_day_discharge_capacity" 2
    ∷ []

-- Battery Pack SOH
abbrev pub battery_pack_soh : List Entry
battery_pack_soh =
    entry 37920 "storage_unit_1_battery_pack_1_soh_calibration_status" 1
    ∷ entry 37921 "storage_unit_1_battery_pack_2_soh_calibration_status" 1
    ∷ entry 37922 "storage_unit_1_battery_pack_3_soh_calibration_status" 1
    ∷ entry 37923 "storage_unit_2_battery_pack_1_soh_calibration_status" 1
    ∷ entry 37924 "storage_unit_2_battery_pack_2_soh_calibration_status" 1
    ∷ entry 37925 "storage_unit_2_battery_pack_3_soh_calibration_status" 1
    ∷ entry 37926 "storage_unit_soh_calibration_status" 1
    ∷ entry 37927 "storage_unit_soh_calibration_release_lower_limit_of_soc" 1
    ∷ []
