-- ===== src/Web/Page.antt =====
-- `handleIndex` of web.go: the data of the status page, and the dashboard's loops. The handler runs
-- beside the goroutines that write the cache, so each of its reads has a state of the database of its
-- own. The template's functions are those of `Web.Functions`; the template and HTTP are not modelled.
pub mod Dashboards
pub mod Present
pub mod Coherence
use huawei_proxy.Prelude.{
  ℕ, zero, ◌+◌, ◌-◌, ◌*◌, ◌/◌, Bool, not, ◌&&◌, List, [], ◌∷◌, Option, none, some, length, ◌==◌,
  if◌then◌else◌,
}
use mathlib.Core.Option
use huawei_proxy.Prelude.Int.{ℤ}
use huawei_proxy.Text.{Text}
use huawei_proxy.Platform.Sqlite.{Sqlite}
use huawei_proxy.Cache.All.{CachedRegister, Listing, all}
use huawei_proxy.Config.{Config}
use huawei_proxy.Config.Durations.{second}
use huawei_proxy.Dashboard.{DashboardField, dashboard_fields, decode_dashboard_field}
use huawei_proxy.Reader.{Reader}
use huawei_proxy.Reader.Cycle.{Progress}
use huawei_proxy.Web.{UnitRegisters, units}

-- `DashboardItem`
pub record DashboardItem : Type 0 where
  pub label : Text
  pub value : Text

-- `UnitDashboard`
pub record UnitDashboard : Type 0 where
  pub unit_id : ℕ
  pub items : List DashboardItem

-- `ReaderStats`; the zero time is `none`.
pub record ReaderStats : Type 0 where
  pub cycle_count : ℕ
  pub last_cycle_time : Option ℕ
  pub last_cycle_dur : ℕ

-- `Stats`, of the progress that the loop has published
unfoldable pub stats : Progress → ReaderStats
stats st = record {
  cycle_count = st.cycle_count;
  last_cycle_time = st.last_cycle_time;
  last_cycle_dur = st.last_cycle_dur;
}

-- the fields of `data` but for the configuration
pub record Page : Type 0 where
  pub stats : ReaderStats
  pub uptime : ℕ
  pub now : ℕ
  pub cache_size : ℕ
  pub fast_groups : ℕ
  pub slow_groups : ℕ
  pub dashboards : List UnitDashboard
  pub units : List UnitRegisters

-- When the web server was set up, and when `handleIndex` asks for the time.
pub record Moment : Type 0 where
  pub start_at : ℕ
  pub now : ℕ

-- `now.Sub(w.startAt).Round(time.Second)`: half a second is rounded up
unfoldable pub uptime : Moment → ℕ
uptime m = (m.now - m.start_at + 500000000) / second * second

-- The first lines of `handleIndex`: what it takes from the reader, if there is one yet.
unfoldable pub reader_stats : Option (Reader × Progress) → ReaderStats
unfolding stats
reader_stats none = record { cycle_count = 0; last_cycle_time = none; last_cycle_dur = 0 }
reader_stats (some (r, st)) = stats st

unfoldable pub group_counts : Option (Reader × Progress) → ℕ × ℕ
group_counts none = (0, 0)
group_counts (some (r, st)) = (length r.fast_groups, length r.slow_groups)

-- `if f.Unit1 && uid != w.cfg.Inverter.UnitIDs[0]`
abbrev pub left_out : ℕ → ℕ → DashboardField → Bool
left_out first uid f = f.unit1 && not (uid == first)

-- the end of the loop's body, with the text that was decoded
unfoldable pub add_item :
    DashboardField → Option Text → Option (List DashboardItem) → Option (List DashboardItem)
add_item f none rest = none
add_item f (some []) rest = rest
add_item f (some (c ∷ cs)) rest =
    Option.map (λ items. record { label = f.label; value = c ∷ cs } ∷ items) rest

-- the end of the loop over the units, with the items of one
unfoldable pub add_dashboard : ℕ → List DashboardItem → List UnitDashboard → List UnitDashboard
add_dashboard uid [] rest = rest
add_dashboard uid (item ∷ items) rest = record { unit_id = uid; items = item ∷ items } ∷ rest

-- the literal of `data`
abbrev pub page_data :
    Config → Option (Reader × Progress) → Moment → List CachedRegister → List UnitDashboard → Page
page_data cfg reader moment all_regs shown = record {
  stats = reader_stats reader;
  uptime = uptime moment;
  now = moment.now;
  cache_size = length all_regs;
  fast_groups = (group_counts reader).0;
  slow_groups = (group_counts reader).1;
  dashboards = shown;
  units = units cfg.register_groups cfg.inverter.unit_ids all_regs;
}

module _ (two_places : ℤ → ℕ → Text) (sql : Sqlite) (q : Listing sql)
    (view : ℕ → DashboardField → sql.Db) where
  -- The loop over the fields, for one unit; `view` is the database as each field's read finds it, and
  -- `none` is a panic.
  unfoldable pub dashboard_items : ℕ → ℕ → List DashboardField → Option (List DashboardItem)
  unfolding add_item
  dashboard_items first uid [] = some []
  dashboard_items first uid (f ∷ fs) =
      let rest = dashboard_items first uid fs in
      if left_out first uid f
      then rest
      else add_item f (decode_dashboard_field two_places sql f (view uid f) uid) rest

  -- the loop over the units
  unfoldable pub list_dashboards : ℕ → List ℕ → Option (List UnitDashboard)
  unfolding add_dashboard dashboard_items
  list_dashboards first [] = some []
  list_dashboards first (uid ∷ uids) = elim (dashboard_items first uid dashboard_fields) [
    | none ↦ none
    | some items ↦ Option.map (add_dashboard uid items) (list_dashboards first uids)
  ]

  -- Without units the loop does not index their list.
  unfoldable pub dashboards : List ℕ → Option (List UnitDashboard)
  unfolding list_dashboards
  dashboards [] = some []
  dashboards (first ∷ uids) = list_dashboards first (first ∷ uids)

  -- `handleIndex` up to the template; `db` is the database as `All` finds it.
  unfoldable pub handle_index : Config → Option (Reader × Progress) → Moment → sql.Db → Option Page
  unfolding dashboards
  handle_index cfg reader moment db =
      Option.map (page_data cfg reader moment (all sql q db)) (dashboards cfg.inverter.unit_ids)
