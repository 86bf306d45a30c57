-- ===== src/Tests/Web.antt =====
-- The status page on small lists of registers.
use huawei_proxy.Prelude.{ℕ, ◌≡◌, ◌≢◌, refl, List, [], ◌∷◌, some, arith}
use huawei_proxy.Text.{codes}
use huawei_proxy.Config.{RegisterGroup, is_empty}
use huawei_proxy.Cache.All.{CachedRegister}
use huawei_proxy.Web.{
  UnitRegisters, page_group, fresh_groups, addr_range, addr_ranges, find_range, put, append_at,
  init_units, assign, assign_all, active, ungrouped, unit_entry, list_units, units,
}
use huawei_proxy.Web.Shown.{shown_units}
use huawei_proxy.Web.Grouping.{units_lem}
use huawei_proxy.Web.Wrapped.{place, place-wrapped}

sorted : Unit {0}
unfolding is_empty fresh_groups addr_range addr_ranges find_range put append_at init_units assign
    assign_all active ungrouped unit_entry list_units units
sorted = tt

abbrev power : RegisterGroup
power = record { name = codes "power"; address = 32064; count = 2; poll = codes "fast" }

abbrev last : RegisterGroup
last = record { name = codes "last"; address = 65534; count = 2; poll = codes "slow" }

abbrev register_at : ℕ → ℕ → CachedRegister
register_at uid addr = record { unit_id = uid; address = addr; value = 7; updated_at = 0 }

abbrev groups : List RegisterGroup
groups = power ∷ last ∷ []

abbrev registers : List CachedRegister
registers =
    register_at 1 32064 ∷ register_at 1 32065 ∷ register_at 1 65535 ∷ register_at 3 32064 ∷ []

-- The group `last` is left out, and its register is shown as one of no group.
abbrev page : List UnitRegisters
page =
    record {
      unit_id = 1;
      groups =
          page_group power (register_at 1 32064 ∷ register_at 1 32065 ∷ [])
          ∷ record {
            name = codes "ungrouped";
            address = 0;
            count = 0;
            poll = codes "-";
            registers = register_at 1 65535 ∷ [];
          }
          ∷ [];
    }
    ∷ []

units-page : units groups (1 ∷ 2 ∷ []) registers ≡ page
unfolding sorted
units-page = refl

units_lem_example : units groups (1 ∷ 2 ∷ []) registers ≡ shown_units groups (1 ∷ 2 ∷ []) registers
units_lem_example = units_lem groups (1 ∷ 2 ∷ []) registers

place-wrapped_example : place groups (register_at 1 65535) ≢ some 1
place-wrapped_example =
    place-wrapped groups (register_at 1 65535) 1 last refl (omega arith) (omega arith) (omega arith)
