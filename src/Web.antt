-- ===== src/Web.antt =====
-- The status page of web.go: how `handleIndex` sorts the cached registers by unit and by the
-- configured groups. Its list of all registers is an argument; the page's text and HTTP are not
-- modelled.
pub mod Shown
pub mod Grouping
pub mod Wrapped
pub mod Complete
pub mod Page
pub mod Functions
use mathlib.Core.Option
use huawei_proxy.Prelude.{
  ℕ, zero, suc, ◌+◌, ◌%◌, Bool, true, false, not, ◌&&◌, List, [], ◌∷◌, ◌++◌, Option, none, some,
  ltb, leb, ◌==◌, if◌then◌else◌,
}
use huawei_proxy.Text.{Text, codes}
use huawei_proxy.Config.{RegisterGroup, is_empty}
use huawei_proxy.Cache.All.{CachedRegister}

-- `registerGroup`
pub record PageGroup : Type 0 where
  pub name : Text
  pub address : ℕ
  pub count : ℕ
  pub poll : Text
  pub registers : List CachedRegister

-- `unitRegisters`
pub record UnitRegisters : Type 0 where
  pub unit_id : ℕ
  pub groups : List PageGroup

-- `addrRange`; the field `end` is `stop`.
pub record AddrRange : Type 0 where
  pub start : ℕ
  pub stop : ℕ
  pub index : ℕ

-- a group of the configuration with the registers that stand in it
abbrev pub page_group : RegisterGroup → List CachedRegister → PageGroup
page_group g regs = record {
  name = g.name;
  address = g.address;
  count = g.count;
  poll = g.poll;
  registers = regs;
}

-- the groups of a unit before any register is assigned
unfoldable pub fresh_groups : List RegisterGroup → List PageGroup
fresh_groups [] = []
fresh_groups (g ∷ gs) = page_group g [] ∷ fresh_groups gs

-- the sum of two `uint16`, which wraps
unfoldable pub addr_range : ℕ → RegisterGroup → AddrRange
addr_range i g = record { start = g.address; stop = (g.address + g.count) % 65536; index = i }

-- the loop that fills `ranges`
unfoldable pub addr_ranges : ℕ → List RegisterGroup → List AddrRange
addr_ranges i [] = []
addr_ranges i (g ∷ gs) = addr_range i g ∷ addr_ranges (i + 1) gs

abbrev pub in_range : AddrRange → ℕ → Bool
in_range r addr = leb r.start addr && ltb addr r.stop

-- the loop over `ranges`: the index of the first that holds the address
unfoldable pub find_range : List AddrRange → ℕ → Option ℕ
find_range [] addr = none
find_range (r ∷ rs) addr =
    let rest = find_range rs addr in if in_range r addr then some r.index else rest

-- `unitMap` and `unitUngrouped`; a missing key of the second is `nil`.
pub record Sorted : Type 0 where
  pub unit_map : ℕ → Option (List PageGroup)
  pub unit_ungrouped : ℕ → List CachedRegister

-- an assignment to a key of a map
unfoldable pub put {ℓ} : {A : Type ℓ} → ℕ → A → (ℕ → A) → ℕ → A
put k v m x = if x == k then v else m x

-- `groups[i].Registers = append(groups[i].Registers, reg)`; the index is never out of range.
unfoldable pub append_at : ℕ → CachedRegister → List PageGroup → List PageGroup
append_at i reg [] = []
append_at zero reg (g ∷ gs) = record g { registers = g.registers ++ reg ∷ [] } ∷ gs
append_at (suc i) reg (g ∷ gs) = g ∷ append_at i reg gs

-- the loop over `UnitIDs` that creates their groups
unfoldable pub init_units : List RegisterGroup → List ℕ → Sorted → Sorted
init_units gs [] s = s
init_units gs (uid ∷ uids) s =
    init_units gs uids (record s { unit_map = put uid (some (fresh_groups gs)) s.unit_map })

-- the body of the loop over the registers
unfoldable pub assign : List RegisterGroup → CachedRegister → Sorted → Sorted
assign gs reg s =
    let groups = Option.get_or (s.unit_map reg.unit_id) (fresh_groups gs) in
    elim (find_range (addr_ranges 0 gs) reg.address) [
      | some i ↦ record s { unit_map = put reg.unit_id (some (append_at i reg groups)) s.unit_map }
      | none ↦ record {
        unit_map = put reg.unit_id (some groups) s.unit_map;
        unit_ungrouped =
            put reg.unit_id (s.unit_ungrouped reg.unit_id ++ reg ∷ []) s.unit_ungrouped;
      }
    ]

unfoldable pub assign_all : List RegisterGroup → List CachedRegister → Sorted → Sorted
assign_all gs [] s = s
assign_all gs (reg ∷ regs) s = assign_all gs regs (assign gs reg s)

-- the loop that leaves out the groups without registers
unfoldable pub active : List PageGroup → List PageGroup
active [] = []
active (g ∷ gs) = let rest = active gs in if is_empty g.registers then rest else g ∷ rest

-- the group that shows the registers of no configured group
unfoldable pub ungrouped : List CachedRegister → List PageGroup
ungrouped [] = []
ungrouped (reg ∷ regs) =
    record {
      name = codes "ungrouped";
      address = 0;
      count = 0;
      poll = codes "-";
      registers = reg ∷ regs;
    }
    ∷ []

-- what the loop over the units adds to its list for one of them
unfoldable pub unit_entry : ℕ → List PageGroup → List UnitRegisters
unit_entry uid [] = []
unit_entry uid (g ∷ gs) = record { unit_id = uid; groups = g ∷ gs } ∷ []

unfoldable pub list_units : List ℕ → Sorted → List UnitRegisters
list_units [] s = []
list_units (uid ∷ uids) s =
    unit_entry uid (active (Option.get_or (s.unit_map uid) []) ++ ungrouped (s.unit_ungrouped uid))
    ++ list_units uids s

-- The list `units` of the page, from the configuration and all registers of the cache.
unfoldable pub units : List RegisterGroup → List ℕ → List CachedRegister → List UnitRegisters
units gs unit_ids all_regs = list_units unit_ids (
    assign_all gs all_regs
      (init_units gs unit_ids (record { unit_map = λ u. none; unit_ungrouped = λ u. [] })))
