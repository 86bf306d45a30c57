-- ===== src/Registers/Names.antt =====
-- `RegisterName` of registers.go. Its loop ranges over a map, in an order that Go leaves open: the order
-- is an argument, a list of the map's entries.
pub mod Apart
pub mod Order
use huawei_proxy.Prelude.{
  ℕ, ◌+◌, ◌-◌, ◌%◌, Bool, ◌&&◌, List, [], ◌∷◌, ◌++◌, Option, none, some, ltb, ◌==◌, if◌then◌else◌,
}
use mathlib.Core.Option
use huawei_proxy.Text.{Text, codes, decimal}
use huawei_proxy.Registers.Defs.{RegisterDef, Entry}
use huawei_proxy.Registers.Init.{register_defs}

-- `registerDefs[addr]`
unfoldable pub find_def : List Entry → ℕ → Option RegisterDef
find_def [] addr = none
find_def ((a, d) ∷ defs) addr = let rest = find_def defs addr in if a == addr then some d else rest

-- the condition of the loop: the address lies behind the first register of a value; the sum of two
-- `uint16` wraps
abbrev pub continues : Entry → ℕ → Bool
continues (a, d) addr = ltb 1 d.length && ltb a addr && ltb addr ((a + d.length) % 65536)

-- `fmt.Sprintf("%s +%d", def.Name, addr-startAddr)`
unfoldable pub continuation_name : Entry → ℕ → Text
continuation_name (a, d) addr = d.name ++ codes " +" ++ decimal (addr - a)

-- the loop, with `none` where it ends without a return
unfoldable pub find_continued : List Entry → ℕ → Option Text
find_continued [] addr = none
find_continued (e ∷ order) addr =
    let rest = find_continued order addr in
    if continues e addr then some (continuation_name e addr) else rest

-- `RegisterName`; `order` is the order in which the loop visits the entries.
unfoldable pub register_name : (order : List Entry) → ℕ → Text
register_name order addr = elim (find_def register_defs addr) [
  | some d ↦ d.name
  | none ↦ Option.get_or (find_continued order addr) []
]

-- `isContReg` of web.go
unfoldable pub is_cont_reg : (order : List Entry) → ℕ → Bool
is_cont_reg order addr = elim (find_def register_defs addr) [
  | some d ↦ Bool.false
  | none ↦ elim (register_name order addr) [ [] ↦ Bool.false | c ∷ cs ↦ Bool.true ]
]
