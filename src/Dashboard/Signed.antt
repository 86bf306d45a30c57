-- ===== src/Dashboard/Signed.antt =====
-- The signed numbers of registers.go are two's complement.
use huawei_proxy.Prelude.{ℕ, suc, ◌-◌, ◌/◌, ◌%◌, ◌<◌, ◌≡◌, ap, List, [], ◌∷◌, some, arith}
use huawei_proxy.Text.{Text}
use huawei_proxy.Platform.Sqlite.{Sqlite, IsReliable}
use huawei_proxy.Cache.{set_registers}
use huawei_proxy.Cache.ReadBack.{get-set_self}
use huawei_proxy.Prelude.Int.{ℤ, pos, negsuc}
use huawei_proxy.Dashboard.{
  int16, int32, uint32, reg_i32, DashboardField, format_value, decode_registers,
  decode_dashboard_field,
}

-- The numbers from -limit to limit - 1.
abbrev pub Fits : ℕ → ℤ → Type 0
Fits limit (pos n) = n < limit
Fits limit (negsuc n) = n < limit

-- The number modulo `modulus`.
unfoldable pub residue : ℕ → ℤ → ℕ
residue modulus (pos n) = n % modulus
residue modulus (negsuc n) = (modulus - suc n % modulus) % modulus

-- A signed number of 16 bits that a register holds as its residue modulo 65536 is decoded to itself.
pub int16-residue : (z : ℤ) → Fits 32768 z → int16 (residue 65536 z) ≡ z
unfolding int16 residue
int16-residue (pos n) h = ground arith
int16-residue (negsuc n) h = ground arith

-- A signed number of 32 bits that two registers hold as its residue modulo 4294967296, the high word
-- first, is decoded to itself.
pub int32-residue :
    (z : ℤ)
    → Fits 2147483648 z
    → int32 (uint32 (residue 4294967296 z / 65536) (residue 4294967296 z % 65536)) ≡ z
unfolding int32 residue
int32-residue (pos n) h = ground arith
int32-residue (negsuc n) h = ground arith

residue_lt : (z : ℤ) → residue 4294967296 z < 4294967296
unfolding residue
residue_lt (pos n) = omega arith
residue_lt (negsuc n) = omega arith

-- A signed number of 32 bits that `Set` stores as two registers, its residue modulo 4294967296 with
-- the high word first, is the number that a field of type `RegI32` at their address shows, over its
-- gain and with its unit. The database does not fail.
pub decode_dashboard_field-set_registers :
    (two_places : ℤ → ℕ → Text) (sql : Sqlite) (fine : IsReliable sql) (now : List ℕ) (db : sql.Db)
    (unit : ℕ) (f : DashboardField) (z : ℤ)
    → f.reg_type ≡ reg_i32
    → f.length ≡ 2
    → Fits 2147483648 z
    → decode_dashboard_field two_places sql f
        (set_registers sql now unit f.address
          (residue 4294967296 z / 65536 ∷ residue 4294967296 z % 65536 ∷ [])
          db)
        unit
      ≡ some (format_value two_places z f.gain f.unit)
unfolding decode_dashboard_field decode_registers
decode_dashboard_field-set_registers two_places sql fine now db unit f z t l h =
    let small : residue 4294967296 z < 4294967296 = residue_lt z in
    let stored =
      get-set_self sql fine now unit f.address
        (residue 4294967296 z / 65536 ∷ residue 4294967296 z % 65536 ∷ []) db (omega arith) in
    rw (decode_dashboard_field, l, stored, t, decode_registers)
      (ap (λ x. some (format_value two_places x f.gain f.unit)) (int32-residue z h))
