-- ===== src/Tests/Page.antt =====
-- The status page over a small database: the rows of unit 1 at the addresses 32080 to 32090.
use huawei_proxy.Prelude.{
  ℕ, zero, suc, ◌+◌, ◌≡◌, ◌↔◌, refl, sym, ◌⊎◌, inl, inr, Bool-cases, List, [], ◌∷◌, ◌++◌, none,
  some, Option-cases, some-injective, All, map, ◌&&◌, ◌==◌, arith,
}
use mathlib.Core.Path.{subst}
use huawei_proxy.Prelude.Int.{ℤ}
use huawei_proxy.Text.{Text, codes, text_eq, decimal}
use huawei_proxy.Platform.Sqlite.{Table, Cell, upsert, select_range}
use huawei_proxy.Platform.Memory.{memory, memory-IsReliable}
use huawei_proxy.Cache.{get, fill}
use huawei_proxy.Cache.All.{Row, IsRowOf, Listing, list_rows, all}
use huawei_proxy.Cache.All.Agree.{Fits, IsDelivered}
use huawei_proxy.Cache.Open.{no_rows}
use huawei_proxy.Config.{is_empty}
use huawei_proxy.Dashboard.{
  DashboardField, device_status, int16, int32, format_value, decode_u16, decode_registers,
  decode_dashboard_field,
}
use huawei_proxy.Web.{
  fresh_groups, addr_range, addr_ranges, find_range, put, append_at, init_units, assign, assign_all,
  active, ungrouped, unit_entry, list_units, units,
}
use huawei_proxy.Web.Page.{
  Page, reader_stats, group_counts, add_item, add_dashboard, dashboard_items, list_dashboards,
  Moment, uptime, dashboards, handle_index,
}
use huawei_proxy.Web.Page.Dashboards.{ShowsAll, handle_index-ShowsAll}
use huawei_proxy.Web.Page.Coherence.{ShowsRegister, handle_index-ShowsRegister}
use huawei_proxy.Tests.Program.{cfg, pair}

unfoldable rows_from : Table → ℕ → ℕ → List Row
rows_from t lo zero = []
rows_from t lo (suc n) = elim (t 1 lo) [
  | none ↦ rows_from t (lo + 1) n
  | some c ↦
      record { unit_id = 1; address = lo; value = c.value; updated_at = c.updated_at }
      ∷ rows_from t (lo + 1) n
]

rows_from-IsRowOf : (t : Table) (lo n : ℕ) → All (IsRowOf t) (map some (rows_from t lo n))
unfolding rows_from
rows_from-IsRowOf t lo zero = tt
rows_from-IsRowOf t lo (suc n) = elim (Option-cases (t 1 lo)) [
  | inl e ↦ rw (All, e) (rows_from-IsRowOf t (lo + 1) n)
  | inr (c, e) ↦ rw (All, e) (e, rows_from-IsRowOf t (lo + 1) n)
]

abbrev small_listing : Listing memory
small_listing = record {
  query_all = λ t. some (map some (rows_from t 32080 10));
  parse = λ text. 0;
  query_all_rows = λ t got e.
      subst (λ rows. All (IsRowOf t) rows) (some-injective e) (rows_from-IsRowOf t 32080 10);
}

abbrev status : Cell
status = record { value = 1; updated_at = [] }

abbrev temperature : Cell
temperature = record { value = 450; updated_at = [] }

abbrev filled : Table
filled = upsert 1 32087 temperature (upsert 1 32089 status no_rows)

abbrev shown_rows : List Row
shown_rows =
    record { unit_id = 1; address = 32087; value = 450; updated_at = [] }
    ∷ record { unit_id = 1; address = 32089; value = 1; updated_at = [] }
    ∷ []

upsert_cases :
    (unit address : ℕ) (new : Cell) (t : Table) (u a : ℕ) (c : Cell)
    → upsert unit address new t u a ≡ some c
    → ((u ≡ unit) × (a ≡ address) × (c ≡ new)) ⊎ (t u a ≡ some c)
unfolding upsert
upsert_cases unit address new t u a c e = elim (Bool-cases (u == unit && a == address)) [
  | inl y ↦ inl (ground arith, ground arith, sym (some-injective (rw y at e)))
  | inr n ↦ inr (rw n at e)
]

filled_keys :
    (u a : ℕ) (c : Cell)
    → filled u a ≡ some c
    → ((u ≡ 1) × (a ≡ 32087) × (c ≡ temperature)) ⊎ ((u ≡ 1) × (a ≡ 32089) × (c ≡ status))
filled_keys u a c e = elim (upsert_cases 1 32087 temperature _ u a c e) [
  | inl key ↦ inl key
  | inr e' ↦ elim (upsert_cases 1 32089 status no_rows u a c e') [
    | inl key ↦ inr key
    | inr none_left ↦ absurd (cc)
  ]
]

filled-Fits : Fits filled
filled-Fits u a c e = elim (filled_keys u a c e) [
  | inl (p, q, _) ↦ omega arith
  | inr (p, q, _) ↦ omega arith
]

filled-IsDelivered : IsDelivered memory small_listing filled shown_rows
unfolding rows_from upsert
filled-IsDelivered = record {
  delivers = refl;
  whole = λ u a c e. elim (filled_keys u a c e) [
    | inl (p, q, r) ↦ inl (rw (p, q, r) refl)
    | inr (p, q, r) ↦ inr (inl (rw (p, q, r) refl))
  ];
}

paged : Unit {0}
unfolding text_eq decimal device_status select_range upsert rows_from fill get list_rows all
    is_empty int16 int32 format_value decode_u16 decode_registers decode_dashboard_field
    fresh_groups addr_range addr_ranges find_range put append_at init_units assign assign_all active
    ungrouped unit_entry list_units units reader_stats group_counts add_item add_dashboard
    dashboard_items list_dashboards dashboards uptime handle_index
paged = tt

-- a stand-in for `fmt` that shows the divisor too
abbrev fraction : ℤ → ℕ → Text
fraction raw gain = codes "fraction"

abbrev view : ℕ → DashboardField → Table
view uid f = filled

-- the page is asked for 90.6 seconds after the start
abbrev moment : Moment
moment = record { start_at = 1000; now = 90600001000 }

abbrev page : Page
page = record {
  stats = record { cycle_count = 0; last_cycle_time = none; last_cycle_dur = 0 };
  uptime = 91000000000;
  now = 90600001000;
  cache_size = 2;
  fast_groups = 0;
  slow_groups = 0;
  dashboards =
      record {
        unit_id = 1;
        items =
            record { label = codes "Temperature"; value = codes "45 " ++ 0xc2 ∷ 0xb0 ∷ codes "C" }
            ∷ record { label = codes "Device Status"; value = codes "Grid-Connected" }
            ∷ [];
      }
      ∷ [];
  units = units (pair ∷ []) (1 ∷ 9 ∷ []) (all memory small_listing filled);
}

shows_page : handle_index fraction memory small_listing view cfg none moment filled ≡ some page
unfolding paged
shows_page = refl

handle_index-ShowsAll_example :
    (p : Page) × (handle_index fraction memory small_listing view cfg none moment filled ≡ some p)
    × ShowsAll fraction memory small_listing view 1 (1 ∷ 9 ∷ []) p.dashboards
handle_index-ShowsAll_example =
    handle_index-ShowsAll fraction memory small_listing view cfg 1 (9 ∷ []) none moment filled refl

handle_index-ShowsRegister_example :
    ShowsRegister page 1 32087 450 ↔ (get memory 1 32087 1 filled ≡ some (450 ∷ []))
handle_index-ShowsRegister_example =
    handle_index-ShowsRegister fraction memory small_listing view memory-IsReliable cfg none moment
      filled page shown_rows 1 32087 450 filled-Fits filled-IsDelivered shows_page (inl refl)
