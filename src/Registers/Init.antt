-- ===== src/Registers/Init.antt =====
-- The map `registerDefs` of registers.go after `init`. A map is the list of its entries in the order of
-- their keys; the order in which `range` visits them is not that of the list.
use huawei_proxy.Prelude.{Bool, ℕ, zero, suc, ◌+◌, ◌*◌, ◌/◌, ◌%◌, List, [], ◌∷◌, ◌++◌, ltb, ◌==◌}
use huawei_proxy.Text.{Text, codes, decimal}
use huawei_proxy.Registers.Defs.{Entry}
use huawei_proxy.Registers.Inverter.{
  device_information, inverter_state, grid_output, energy_yield, diagnostic, component_health,
}
use huawei_proxy.Registers.Storage.{
  storage_unit_1, power_meter, optimizers, storage_unit_2, storage_aggregated, battery_pack_soh,
}
use huawei_proxy.Registers.Control.{
  system_time, inverter_control, grid_config, storage_configuration,
}

-- `registerDefs[addr] = RegisterDef{name, length}`
unfoldable pub define : ℕ → Text → ℕ → List Entry → List Entry
define addr name length [] = (addr, record { name = name; length = length }) ∷ []
define addr name length ((a, d) ∷ defs) = elim (ltb addr a) [
  | Bool.true ↦ (addr, record { name = name; length = length }) ∷ (a, d) ∷ defs
  | Bool.false ↦ elim (a == addr) [
    | Bool.true ↦ (addr, record { name = name; length = length }) ∷ defs
    | Bool.false ↦ (a, d) ∷ define addr name length defs
  ]
]

-- the entries of a literal, one after the other
unfoldable pub define_all : List Entry → List Entry → List Entry
define_all [] defs = defs
define_all ((a, d) ∷ rest) defs = define_all rest (define a d.name d.length defs)

-- the literal of `registerDefs`
unfoldable pub literal_defs : List Entry
unfolding define define_all
literal_defs = define_all storage_configuration (
    define_all grid_config (
      define_all inverter_control (
        define_all system_time (
          define_all battery_pack_soh (
            define_all storage_aggregated (
              define_all storage_unit_2 (
                define_all optimizers (
                  define_all power_meter (
                    define_all storage_unit_1 (
                      define_all component_health (
                        define_all diagnostic (
                          define_all energy_yield (
                            define_all grid_output (
                              define_all inverter_state
                                (define_all device_information [])))))))))))))))

-- `%02d` of a number below 100
abbrev two_digits : ℕ → Text
two_digits n = (b'0' + n / 10) ∷ (b'0' + n % 10) ∷ []

-- the loop of `init` over the PV strings, with the rounds that are left
unfoldable pub define_strings : (left i : ℕ) → List Entry → List Entry
define_strings zero i defs = defs
define_strings (suc left) i defs =
    let base = (32016 + i * 2) % 65536 in
    define_strings left (i + 1) (
      define ((base + 1) % 65536) (codes "pv_" ++ two_digits (i + 1) ++ codes "_current") 1
        (define base (codes "pv_" ++ two_digits (i + 1) ++ codes "_voltage") 1 defs))

-- the loop over the cumulative yields
unfoldable pub define_yields : (left i : ℕ) → List Entry → List Entry
unfolding decimal
define_yields zero i defs = defs
define_yields (suc left) i defs = define_yields left (i + 1) (
    define ((32212 + i * 2) % 65536) (codes "cumulative_dc_energy_yield_mppt_" ++ decimal (i + 1)) 2
      defs)

-- `packs`
abbrev pub packs : List (ℕ × ℕ)
packs = (1, 1) ∷ (1, 2) ∷ (1, 3) ∷ (2, 1) ∷ (2, 2) ∷ (2, 3) ∷ []

-- `pfx`
abbrev pack_prefix : ℕ → ℕ → Text
pack_prefix unit pack =
    codes "storage_unit_" ++ decimal unit ++ codes "_battery_pack_" ++ decimal pack

-- the body of the loop over the battery packs
unfoldable pub define_pack : ℕ → Text → List Entry → List Entry
define_pack base pfx defs = define ((base + 33) % 65536) (pfx ++ codes "_total_discharge") 2 (
    define ((base + 31) % 65536) (pfx ++ codes "_total_charge") 2 (
      define ((base + 30) % 65536) (pfx ++ codes "_current") 1 (
        define ((base + 29) % 65536) (pfx ++ codes "_voltage") 1 (
          define ((base + 27) % 65536) (pfx ++ codes "_charge_discharge_power") 2 (
            define ((base + 26) % 65536) (pfx ++ codes "_state_of_capacity") 1 (
              define ((base + 25) % 65536) (pfx ++ codes "_working_status") 1 (
                define ((base + 10) % 65536) (pfx ++ codes "_firmware_version") 15
                  (define base (pfx ++ codes "_serial_number") 10 defs))))))))

unfoldable pub define_packs : List (ℕ × ℕ) → ℕ → List Entry → List Entry
unfolding define_pack decimal
define_packs [] i defs = defs
define_packs ((unit, pack) ∷ rest) i defs =
    define_packs rest (i + 1) (define_pack ((38200 + i * 42) % 65536) (pack_prefix unit pack) defs)

-- the loop over the packs' temperatures
unfoldable pub define_temperatures : List (ℕ × ℕ) → ℕ → List Entry → List Entry
unfolding decimal
define_temperatures [] i defs = defs
define_temperatures ((unit, pack) ∷ rest) i defs =
    let base = (38452 + i * 2) % 65536 in
    define_temperatures rest (i + 1) (
      define ((base + 1) % 65536) (pack_prefix unit pack ++ codes "_min_temperature") 1
        (define base (pack_prefix unit pack ++ codes "_max_temperature") 1 defs))

-- `registerDefs` when the program runs
unfoldable pub register_defs : List Entry
unfolding literal_defs define define_strings define_yields define_packs define_temperatures
register_defs =
    define_temperatures packs 0
      (define_packs packs 0 (define_yields 10 0 (define_strings 24 0 literal_defs)))
