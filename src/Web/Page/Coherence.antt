-- ===== src/Web/Page/Coherence.antt =====
-- The registers that the status page shows are those that the Modbus server answers with.
use huawei_proxy.Prelude.{
  ℕ, ◌+◌, ◌≡◌, ◌↔◌, sym, ap, ◌∙◌, inl, inr, true, Bool, Bool-cases, List, [], ◌∷◌, Option, some,
  Option-cases, some-injective, Member, All, All-Member, All-append, arith,
}
use mathlib.Core.Path.{subst}
use huawei_proxy.Prelude.Int.{ℤ}
use huawei_proxy.Text.{Text}
use huawei_proxy.Platform.Sqlite.{Sqlite, IsReliable}
use huawei_proxy.Cache.{get}
use huawei_proxy.Cache.All.{CachedRegister, Row, Listing, all}
use huawei_proxy.Cache.All.Agree.{Fits, IsServed, all-IsServed, IsDelivered, all-Member}
use huawei_proxy.Config.{Config, RegisterGroup, is_empty}
use huawei_proxy.Dashboard.{DashboardField}
use huawei_proxy.Reader.{Reader}
use huawei_proxy.Reader.Cycle.{Progress}
use huawei_proxy.Web.{PageGroup, UnitRegisters, active, ungrouped, unit_entry, units}
use huawei_proxy.Web.Shown.{filter, stands_in, stands_nowhere, shown_groups, shown_units}
use huawei_proxy.Web.Grouping.{units_lem}
use huawei_proxy.Web.Page.Present.{units-Shows}
use huawei_proxy.Web.Page.{Moment, Page, dashboards, handle_index}

module _ (Q : CachedRegister → Type 0) where
  -- Every register that is shown for the unit is the unit's own, and `Q` holds of it.
  abbrev pub InGroup : ℕ → PageGroup → Type 0
  InGroup uid g = All (λ reg. (reg.unit_id ≡ uid) × Q reg) g.registers

  abbrev pub InUnit : UnitRegisters → Type 0
  InUnit u = All (InGroup u.unit_id) u.groups

  filter-InGroup :
      (uid : ℕ) (test : CachedRegister → Bool) (regs : List CachedRegister)
      → ((reg : CachedRegister) → test reg ≡ true → reg.unit_id ≡ uid)
      → All Q regs
      → All (λ reg. (reg.unit_id ≡ uid) × Q reg) (filter test regs)
  unfolding filter
  filter-InGroup uid test [] own h = tt
  filter-InGroup uid test (reg ∷ regs) own h = elim (Bool-cases (test reg)) [
    | inl t ↦ rw (All, t) ((own reg t, h.0), filter-InGroup uid test regs own h.1)
    | inr f ↦ rw (All, f) (filter-InGroup uid test regs own h.1)
  ]

  active-InGroup :
      (uid : ℕ) (gs : List PageGroup) → All (InGroup uid) gs → All (InGroup uid) (active gs)
  unfolding active
  active-InGroup uid [] h = tt
  active-InGroup uid (g ∷ gs) h = elim (Bool-cases (is_empty g.registers)) [
    | inl t ↦ rw (All, t) (active-InGroup uid gs h.1)
    | inr f ↦ rw (All, f) (h.0, active-InGroup uid gs h.1)
  ]

  ungrouped-InGroup :
      (uid : ℕ) (regs : List CachedRegister)
      → All (λ reg. (reg.unit_id ≡ uid) × Q reg) regs
      → All (InGroup uid) (ungrouped regs)
  unfolding ungrouped
  ungrouped-InGroup uid [] h = tt
  ungrouped-InGroup uid (reg ∷ regs) h = (h, tt)

  unit_entry-InUnit :
      (uid : ℕ) (gs : List PageGroup) → All (InGroup uid) gs → All InUnit (unit_entry uid gs)
  unfolding unit_entry
  unit_entry-InUnit uid [] h = tt
  unit_entry-InUnit uid (g ∷ gs) h = (h, tt)

  module _ (gs : List RegisterGroup) (regs : List CachedRegister) (h : All Q regs) where
    stands_in-own :
        (uid i : ℕ) (reg : CachedRegister) → stands_in gs uid i reg ≡ true → reg.unit_id ≡ uid
    unfolding stands_in
    stands_in-own uid i reg e = ground arith

    stands_nowhere-own :
        (uid : ℕ) (reg : CachedRegister) → stands_nowhere gs uid reg ≡ true → reg.unit_id ≡ uid
    unfolding stands_nowhere
    stands_nowhere-own uid reg e = ground arith

    shown_groups-InGroup :
        (uid i : ℕ) (hs : List RegisterGroup) → All (InGroup uid) (shown_groups gs uid regs i hs)
    unfolding shown_groups
    shown_groups-InGroup uid i [] = tt
    shown_groups-InGroup uid i (x ∷ hs) = (
      filter-InGroup uid (stands_in gs uid i) regs (stands_in-own uid i) h,
      shown_groups-InGroup uid (i + 1) hs,
    )

    shown_units-InUnit : (uids : List ℕ) → All InUnit (shown_units gs uids regs)
    unfolding shown_units
    shown_units-InUnit [] = tt
    shown_units-InUnit (uid ∷ uids) =
        All-append InUnit _ _
          (unit_entry-InUnit uid _ (
            All-append (InGroup uid) _ _ (active-InGroup uid _ (shown_groups-InGroup uid 0 gs)) (
              ungrouped-InGroup uid _
                (filter-InGroup uid (stands_nowhere gs uid) regs (stands_nowhere-own uid) h))))
          (shown_units-InUnit uids)

    units-InUnit : (uids : List ℕ) → All InUnit (units gs uids regs)
    units-InUnit uids = rw (units_lem gs uids regs) (shown_units-InUnit uids)

-- The page has the register with this unit, address and value, under the heading of its unit.
abbrev pub ShowsRegister : Page → (uid address value : ℕ) → Type 0
ShowsRegister page uid address value =
    (u : UnitRegisters) × Member u page.units
    × (u.unit_id ≡ uid)
    × ((g : PageGroup) × Member g u.groups
        × ((reg : CachedRegister) × Member reg g.registers
            × (reg.address ≡ address)
            × (reg.value ≡ value)))

module _ (two_places : ℤ → ℕ → Text) (sql : Sqlite) (q : Listing sql)
    (view : ℕ → DashboardField → sql.Db) (fine : IsReliable sql) (cfg : Config)
    (reader : Option (Reader × Progress)) (moment : Moment) (db : sql.Db) (page : Page) where
  handle_index-units :
      handle_index two_places sql q view cfg reader moment db ≡ some page
      → units cfg.register_groups cfg.inverter.unit_ids (all sql q db) ≡ page.units
  unfolding handle_index
  handle_index-units e =
      elim (Option-cases (dashboards two_places sql q view cfg.inverter.unit_ids)) [
        | inl n ↦ absurd (cc (rw n at e))
        | inr (shown, n) ↦ ap (λ (x : Page). x.units) (some-injective (rw n at e))
      ]

  shown-served :
      (uid a v : ℕ)
      → Fits (sql.committed db)
      → handle_index two_places sql q view cfg reader moment db ≡ some page
      → ShowsRegister page uid a v
      → get sql uid a 1 db ≡ some (v ∷ [])
  shown-served uid a v fits e (u, m, of_unit, (g, n, (reg, k, at, value))) =
      let every =
        units-InUnit (IsServed sql db) cfg.register_groups (all sql q db)
          (all-IsServed sql q fine db fits) cfg.inverter.unit_ids in
      let m' = subst (λ us. Member u us) (sym (handle_index-units e)) m in
      let (own, served) =
        All-Member _ reg g.registers
          (All-Member (InGroup (IsServed sql db) u.unit_id) g u.groups
            (All-Member (InUnit (IsServed sql db)) u _ every m') n)
          k in
      rw (← at, ← value, ← of_unit, ← own) served

  served-shown :
      (rows : List Row) (uid a v : ℕ)
      → Fits (sql.committed db)
      → IsDelivered sql q db rows
      → handle_index two_places sql q view cfg reader moment db ≡ some page
      → Member uid cfg.inverter.unit_ids
      → get sql uid a 1 db ≡ some (v ∷ [])
      → ShowsRegister page uid a v
  served-shown rows uid a v fits d e m s =
      let (reg, n, of_unit, at, value) = all-Member sql q db rows uid a v fits d s in
      let (u, k, own, (g, l, r)) =
        units-Shows reg cfg.register_groups (all sql q db) n cfg.inverter.unit_ids
          (subst (λ x. Member x cfg.inverter.unit_ids) (sym of_unit) m) in
      (
        u,
        subst (λ us. Member u us) (handle_index-units e) k,
        own ∙ of_unit,
        (g, l, (reg, r, at, value)),
      )

  -- For a configured unit, the status page shows a register with a value exactly when `Get` returns
  -- that value for it, so exactly when the Modbus server would answer a read with it. The database
  -- does not fail, its query for all registers delivers all its rows, their keys are a byte and a
  -- word, and `All` and `Get` find the same state.
  pub handle_index-ShowsRegister :
      (rows : List Row) (uid address value : ℕ)
      → Fits (sql.committed db)
      → IsDelivered sql q db rows
      → handle_index two_places sql q view cfg reader moment db ≡ some page
      → Member uid cfg.inverter.unit_ids
      → ShowsRegister page uid address value ↔ (get sql uid address 1 db ≡ some (value ∷ []))
  handle_index-ShowsRegister rows uid a v fits d e m =
      (shown-served uid a v fits e, served-shown rows uid a v fits d e m)
