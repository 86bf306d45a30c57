-- ===== src/Registers/Inverter.antt =====
-- The entries of `registerDefs` in registers.go for the inverter: addresses 30000 to 35044.
use huawei_proxy.Prelude.{List, [], ◌∷◌}
use huawei_proxy.Registers.Defs.{Entry, entry}

-- Device Information
abbrev pub device_information : List Entry
device_information =
    entry 30000 "model_name" 15
    ∷ entry 30015 "serial_number" 10
    ∷ entry 30025 "pn" 10
    ∷ entry 30035 "firmware_version" 15
    ∷ entry 30050 "software_version" 15
    ∷ entry 30068 "protocol_version_modbus" 2
    ∷ entry 30070 "model_id" 1
    ∷ entry 30071 "nb_pv_strings" 1
    ∷ entry 30072 "nb_mpp_tracks" 1
    ∷ entry 30073 "rated_power" 2
    ∷ entry 30075 "P_max" 2
    ∷ entry 30077 "S_max" 2
    ∷ entry 30079 "Q_max_out" 2
    ∷ entry 30081 "Q_max_in" 2
    ∷ entry 30083 "P_max_real" 2
    ∷ entry 30085 "S_max_real" 2
    ∷ entry 30105 "product_sales_area" 2
    ∷ entry 30107 "product_software_number" 1
    ∷ entry 30108 "product_software_version_number" 1
    ∷ entry 30109 "grid_standard_code_protocol_version" 1
    ∷ entry 30110 "unique_id_of_the_software" 1
    ∷ entry 30111 "number_of_packages_to_be_upgraded" 1
    ∷ entry 30206 "hardware_functional_unit_conf_id" 1
    ∷ entry 30207 "subdevice_support_flag" 2
    ∷ entry 30209 "subdevice_in_position_flag" 2
    ∷ entry 30211 "feature_mask_1" 2
    ∷ entry 30213 "feature_mask_2" 2
    ∷ entry 30215 "feature_mask_3" 2
    ∷ entry 30217 "feature_mask_4" 2
    ∷ entry 30366 "realtime_max_active_capability" 2
    ∷ entry 30368 "realtime_max_inductive_reactive_capacity" 2
    ∷ entry 30561 "offering_name_of_southbound_device_1" 15
    ∷ entry 30576 "offering_name_of_southbound_device_2" 15
    ∷ entry 30591 "offering_name_of_southbound_device_3" 15
    ∷ entry 31000 "hardware_version" 15
    ∷ entry 31015 "monitoring_board_sn" 10
    ∷ entry 31025 "monitoring_software_version" 15
    ∷ entry 31040 "master_dsp_version" 15
    ∷ entry 31055 "slave_dsp_version" 15
    ∷ entry 31070 "cpld_version" 15
    ∷ entry 31085 "afci_version" 15
    ∷ entry 31100 "builtin_pid_version" 15
    ∷ entry 31115 "dc_mbus_version" 15
    ∷ entry 31130 "el_module_version" 15
    ∷ entry 31145 "afci_2_version" 15
    ∷ entry 31200 "regkey" 10
    ∷ []

-- Inverter State & Alarms
abbrev pub inverter_state : List Entry
inverter_state =
    entry 32000 "state_1" 1
    ∷ entry 32002 "state_2" 1
    ∷ entry 32003 "state_3" 2
    ∷ entry 32008 "alarm_1" 1
    ∷ entry 32009 "alarm_2" 1
    ∷ entry 32010 "alarm_3" 1
    ∷ []

-- Grid Output & Power
abbrev pub grid_output : List Entry
grid_output =
    entry 32064 "input_power" 2
    ∷ entry 32066 "line_voltage_A_B" 1
    ∷ entry 32067 "line_voltage_B_C" 1
    ∷ entry 32068 "line_voltage_C_A" 1
    ∷ entry 32069 "phase_A_voltage" 1
    ∷ entry 32070 "phase_B_voltage" 1
    ∷ entry 32071 "phase_C_voltage" 1
    ∷ entry 32072 "phase_A_current" 2
    ∷ entry 32074 "phase_B_current" 2
    ∷ entry 32076 "phase_C_current" 2
    ∷ entry 32078 "day_active_power_peak" 2
    ∷ entry 32080 "active_power" 2
    ∷ entry 32082 "reactive_power" 2
    ∷ entry 32084 "power_factor" 1
    ∷ entry 32085 "grid_frequency" 1
    ∷ entry 32086 "efficiency" 1
    ∷ entry 32087 "internal_temperature" 1
    ∷ entry 32088 "insulation_resistance" 1
    ∷ entry 32089 "device_status" 1
    ∷ entry 32090 "fault_code" 1
    ∷ entry 32091 "startup_time" 2
    ∷ entry 32093 "shutdown_time" 2
    ∷ entry 32095 "active_power_fast" 2
    ∷ []

-- Energy Yield
abbrev pub energy_yield : List Entry
energy_yield =
    entry 32106 "accumulated_yield_energy" 2
    ∷ entry 32108 "total_dc_input_power" 2
    ∷ entry 32110 "current_electricity_generation_statistics_time" 2
    ∷ entry 32112 "hourly_yield_energy" 2
    ∷ entry 32114 "daily_yield_energy" 2
    ∷ entry 32116 "monthly_yield_energy" 2
    ∷ entry 32118 "yearly_yield_energy" 2
    ∷ []

-- Diagnostic
abbrev pub diagnostic : List Entry
diagnostic =
    entry 32172 "latest_active_alarm_sn" 2
    ∷ entry 32174 "latest_historical_alarm_sn" 2
    ∷ entry 32176 "total_bus_voltage" 1
    ∷ entry 32177 "max_pv_voltage" 1
    ∷ entry 32178 "min_pv_voltage" 1
    ∷ entry 32179 "average_pv_negative_voltage_to_ground" 1
    ∷ entry 32180 "min_pv_negative_voltage_to_ground" 1
    ∷ entry 32181 "max_pv_negative_voltage_to_ground" 1
    ∷ entry 32182 "inverter_to_pe_voltage_tolerance" 1
    ∷ entry 32183 "iso_feature_information" 1
    ∷ entry 32190 "builtin_pid_running_status" 1
    ∷ entry 32191 "pv_negative_voltage_to_ground" 1
    ∷ []

-- Component Health
abbrev pub component_health : List Entry
component_health =
    entry 35000 "capbank_running_time" 2
    ∷ entry 35002 "internal_fan_1_running_time" 2
    ∷ entry 35021 "inv_module_a_temp" 1
    ∷ entry 35022 "inv_module_b_temp" 1
    ∷ entry 35023 "inv_module_c_temp" 1
    ∷ entry 35024 "anti_reverse_module_1_temp" 1
    ∷ entry 35025 "output_board_relay_ambient_temp_max" 1
    ∷ entry 35027 "anti_reverse_module_2_temp" 1
    ∷ entry 35028 "dc_terminal_1_2_max_temp" 1
    ∷ entry 35029 "ac_terminal_1_2_3_max_temp" 1
    ∷ entry 35038 "phase_a_dc_component_dci" 1
    ∷ entry 35039 "phase_b_dc_component_dci" 1
    ∷ entry 35040 "phase_c_dc_component_dci" 1
    ∷ entry 35041 "leakage_current_rcd" 1
    ∷ entry 35042 "positive_bus_voltage" 1
    ∷ entry 35043 "negative_bus_voltage" 1
    ∷ entry 35044 "bus_negative_voltage_to_ground" 1
    ∷ []
