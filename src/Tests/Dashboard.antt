-- ===== src/Tests/Dashboard.antt =====
-- The dashboard over the cache in memory.
use huawei_proxy.Prelude.{ℕ, ◌≡◌, refl, [], ◌∷◌, ◌++◌, none, some, false, replicate, arith}
use huawei_proxy.Prelude.Int.{ℤ, pos, negsuc}
use huawei_proxy.Text.{Text, codes, decimal, text_eq}
use huawei_proxy.Bytes.{bytes_to_uint16, uint16_to_bytes}
use huawei_proxy.Platform.Sqlite.{Table, upsert, select_range}
use huawei_proxy.Platform.Memory.{memory, memory-IsReliable}
use huawei_proxy.Cache.{fill, get, set_registers, set_from_bytes, exec_values, finish}
use huawei_proxy.Config.{is_empty}
use huawei_proxy.Dashboard.{
  reg_str, reg_i32, DashboardField, int16, int32, hex4, device_status, before_null, trim_right,
  format_value, decode_u16, decode_registers, decode_dashboard_field,
}
use huawei_proxy.Dashboard.Signed.{residue, decode_dashboard_field-set_registers}
use huawei_proxy.Dashboard.Strings.{decode_dashboard_field-set_from_bytes}

shown : Unit {0}
unfolding decimal text_eq bytes_to_uint16 uint16_to_bytes upsert select_range fill get set_registers
    set_from_bytes exec_values finish is_empty int16 int32 hex4 device_status before_null trim_right
    format_value decode_u16 decode_registers decode_dashboard_field residue
shown = tt

-- stands for `%.2f`
abbrev some_text : ℤ → ℕ → Text
some_text raw gain = codes "0.50"

abbrev no_rows : Table
no_rows = λ u a. none

abbrev serial : DashboardField
serial = record {
  label = codes "Serial";
  address = 30015;
  reg_type = reg_str;
  length = 10;
  gain = 0;
  unit = [];
  unit1 = false;
}

abbrev power : DashboardField
power = record {
  label = codes "Grid Power";
  address = 37113;
  reg_type = reg_i32;
  length = 2;
  gain = 1000;
  unit = codes "kW";
  unit1 = false;
}

unknown_status : device_status 0x0abc ≡ codes "Unknown (0x0ABC)"
unfolding shown
unknown_status = refl

minus_two_kilowatts : format_value some_text (negsuc 1999) 1000 (codes "kW") ≡ codes "-2 kW"
unfolding shown
minus_two_kilowatts = refl

half_a_kilowatt : format_value some_text (pos 500) 1000 (codes "kW") ≡ codes "0.50 kW"
unfolding shown
half_a_kilowatt = refl

decode_dashboard_field-set_registers_example :
    decode_dashboard_field some_text memory power
      (set_registers memory [] 1 37113 (0xffff ∷ 0xf830 ∷ []) no_rows)
      1
    ≡ some (format_value some_text (negsuc 1999) 1000 (codes "kW"))
unfolding shown
decode_dashboard_field-set_registers_example =
    decode_dashboard_field-set_registers some_text memory memory-IsReliable [] no_rows 1 power
      (negsuc 1999) refl refl (omega arith)

decode_dashboard_field-set_from_bytes_example :
    decode_dashboard_field some_text memory serial
      (set_from_bytes memory [] 1 30015 (codes "HV21" ++ replicate 16 0) no_rows)
      1
    ≡ some (codes "HV21")
decode_dashboard_field-set_from_bytes_example =
    decode_dashboard_field-set_from_bytes some_text memory memory-IsReliable [] no_rows 1 serial
      (codes "HV21") 16 refl (omega arith) (omega arith) (omega arith) refl
