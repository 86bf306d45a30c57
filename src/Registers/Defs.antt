-- ===== src/Registers/Defs.antt =====
-- The entries of the map `registerDefs` in registers.go.
use Prim.Native.String.{String}
use huawei_proxy.Prelude.{ℕ}
use huawei_proxy.Text.{Text, codes}

-- `RegisterDef`
pub record RegisterDef : Type 0 where
  pub name : Text
  pub length : ℕ

-- A key of the map with its value.
abbrev pub Entry : Type 0
Entry = ℕ × RegisterDef

abbrev pub entry : ℕ → String → ℕ → Entry
entry addr name length = (addr, record { name = codes name; length = length })
