-- ===== src/Dashboard.antt =====
-- The dashboard's decoding of registers, from the second half of registers.go. The division by `Gain`
-- is one of `float64`, exact enough for numbers of 32 bits that its result is a whole number only
-- where `Gain` divides the number. `fmt` with `%.2f` is no part of the repository: it is the
-- parameter `two_places`, a function of the number and its divisor.
pub mod Signed
pub mod Safety
pub mod Strings
use mathlib.Core.Option
use huawei_proxy.Prelude.{
  ℕ, zero, suc, ◌+◌, ◌-◌, ◌*◌, ◌/◌, ◌%◌, Bool, true, false, List, [], ◌∷◌, ◌++◌, Option, none, some,
  ltb, ◌==◌, if◌then◌else◌, get_elem?,
}
use huawei_proxy.Prelude.Int.{ℤ, pos, negsuc}
use huawei_proxy.Bytes.{uint16_to_bytes, Bytes}
use huawei_proxy.Text.{Text, codes, text_eq, decimal, signed_decimal}
use huawei_proxy.Platform.Sqlite.{Sqlite}
use huawei_proxy.Cache.{get}
use huawei_proxy.Config.{is_empty}

-- `RegType`
pub data RegType : Type 0 where
  reg_str reg_u16 reg_i16 reg_u32 reg_i32 : RegType

-- `DashboardField`; the field `Type` is `reg_type`.
pub record DashboardField : Type 0 where
  pub label : Text
  pub address : ℕ
  pub reg_type : RegType
  pub length : ℕ
  pub gain : ℕ
  pub unit : Text
  pub unit1 : Bool

abbrev field : Text → ℕ → RegType → ℕ → ℕ → Text → Bool → DashboardField
field label address reg_type length gain unit unit1 = record {
  label = label;
  address = address;
  reg_type = reg_type;
  length = length;
  gain = gain;
  unit = unit;
  unit1 = unit1;
}

-- `dashboardFields`; the degree sign is two bytes of UTF-8.
abbrev pub dashboard_fields : List DashboardField
dashboard_fields =
    field (codes "Model") 30000 reg_str 15 0 [] false
    ∷ field (codes "Serial") 30015 reg_str 10 0 [] false
    ∷ field (codes "Solar DC Power") 32064 reg_i32 2 1000 (codes "kW") false
    ∷ field (codes "AC Active Power") 32080 reg_i32 2 1000 (codes "kW") false
    ∷ field (codes "Daily Yield") 32114 reg_u32 2 100 (codes "kWh") false
    ∷ field (codes "Temperature") 32087 reg_i16 1 10 (0xc2 ∷ 0xb0 ∷ codes "C") false
    ∷ field (codes "Device Status") 32089 reg_u16 1 1 [] false
    ∷ field (codes "Grid Power") 37113 reg_i32 2 1000 (codes "kW") true
    ∷ field (codes "Battery SOC") 37760 reg_u16 1 10 (codes "%") true
    ∷ field (codes "Battery Power") 37765 reg_i32 2 1000 (codes "kW") true
    ∷ field (codes "Battery Charge Today") 37784 reg_u32 2 100 (codes "kWh") true
    ∷ field (codes "Battery Discharge Today") 37786 reg_u32 2 100 (codes "kWh") true
    ∷ []

-- `int16(v)` of a word, and `int32(raw)` of a number of 32 bits
unfoldable pub int16 : ℕ → ℤ
int16 v = if ltb v 32768 then pos v else negsuc (65535 - v)

unfoldable pub int32 : ℕ → ℤ
int32 v = if ltb v 2147483648 then pos v else negsuc (4294967295 - v)

-- `uint32(hi)<<16 | uint32(lo)` of two words
abbrev pub uint32 : ℕ → ℕ → ℕ
uint32 hi lo = hi * 65536 + lo

-- a digit of `%X`
abbrev hex_digit : ℕ → ℕ
hex_digit d = if ltb d 10 then b'0' + d else b'A' + (d - 10)

-- `%04X` of a word
unfoldable pub hex4 : ℕ → Text
hex4 v =
    hex_digit (v / 4096 % 16)
    ∷ hex_digit (v / 256 % 16)
    ∷ hex_digit (v / 16 % 16)
    ∷ hex_digit (v % 16)
    ∷ []

-- the lookup in `deviceStatusNames`, and the text for a value that is not there
unfoldable pub device_status : ℕ → Text
unfolding hex4
device_status v =
    if v == 0
    then codes "Standby: initializing"
    else if v == 1
    then codes "Grid-Connected"
    else if v == 2
    then codes "Grid-Connected: power limited"
    else if v == 3
    then codes "Fault: shutting down"
    else if v == 4
    then codes "Shutdown"
    else codes "Unknown (0x" ++ hex4 v ++ codes ")"

-- the bytes before the first null byte
unfoldable pub before_null : Bytes → Bytes
before_null [] = []
before_null (b ∷ bs) = let rest = before_null bs in if b == 0 then [] else b ∷ rest

-- `strings.TrimRight(s, " ")`
unfoldable pub trim_right : Text → Text
trim_right [] = []
trim_right (c ∷ cs) = elim (trim_right cs) [
  | [] ↦ if c == b' ' then [] else c ∷ []
  | d ∷ ds ↦ c ∷ d ∷ ds
]

-- the number `raw` over `gain`, where `gain` divides it
exact_quotient : ℤ → ℕ → Option ℤ
exact_quotient (pos n) gain = if n % gain == 0 then some (pos (n / gain)) else none
exact_quotient (negsuc n) gain =
    if suc n % gain == 0 then some (negsuc (suc n / gain - 1)) else none

module _ (two_places : ℤ → ℕ → Text) where
  -- `formatValue` of `float64(raw) / gain`
  unfoldable pub format_value : ℤ → ℕ → Text → Text
  unfolding signed_decimal exact_quotient
  format_value raw gain unit =
      let s : Text = elim (exact_quotient raw gain) [
        | some q ↦ signed_decimal q
        | none ↦ two_places raw gain
      ] in
      if is_empty unit then s else s ++ codes " " ++ unit

  -- the case `RegU16`
  unfoldable pub decode_u16 : DashboardField → ℕ → Text
  decode_u16 f v =
      if text_eq f.label (codes "Device Status")
      then device_status v
      else format_value (pos v) f.gain f.unit

  -- The `switch` of `DecodeDashboardField`; `none` is the panic of an index out of range.
  unfoldable pub decode_registers : RegType → DashboardField → List ℕ → Option Text
  decode_registers reg_str f regs = some (trim_right (before_null (uint16_to_bytes regs)))
  decode_registers reg_u16 f regs = Option.map (decode_u16 f) (get_elem? regs 0)
  decode_registers reg_i16 f regs =
      Option.map (λ v. format_value (int16 v) f.gain f.unit) (get_elem? regs 0)
  decode_registers reg_u32 f (hi ∷ lo ∷ regs) =
      some (format_value (pos (uint32 hi lo)) f.gain f.unit)
  decode_registers reg_i32 f (hi ∷ lo ∷ regs) =
      some (format_value (int32 (uint32 hi lo)) f.gain f.unit)
  decode_registers _ f _ = none

  -- `DecodeDashboardField`, with `none` for a panic
  unfoldable pub decode_dashboard_field : (sql : Sqlite) → DashboardField → sql.Db → ℕ → Option Text
  decode_dashboard_field sql f cache unit_id = elim (get sql unit_id f.address f.length cache) [
    | none ↦ some []
    | some regs ↦ decode_registers f.reg_type f regs
  ]
