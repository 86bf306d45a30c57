-- ===== src/Web/Page/Dashboards.antt =====
-- The dashboards of `handleIndex` by their meaning.
use huawei_proxy.Prelude.{
  ℕ, ◌≤◌, ◌≡◌, ◌≢◌, ◌↔◌, refl, sym, ap, ◌∙◌, ◌⊎◌, inl, inr, false, Bool-cases, List, [], ◌∷◌,
  Option, none, some, Option-cases, some-injective, Member, All, All_mono, arith,
}
use mathlib.Core.Path.{subst}
use huawei_proxy.Prelude.Int.{ℤ}
use huawei_proxy.Text.{Text}
use huawei_proxy.Platform.Sqlite.{Sqlite}
use huawei_proxy.Cache.All.{Listing, all}
use huawei_proxy.Config.{Config}
use huawei_proxy.Dashboard.{DashboardField, dashboard_fields, decode_dashboard_field}
use huawei_proxy.Dashboard.Safety.{words_read, decode_dashboard_field-safe}
use huawei_proxy.Reader.{Reader}
use huawei_proxy.Reader.Cycle.{Progress}
use huawei_proxy.Web.Page.{
  DashboardItem, UnitDashboard, Page, Moment, page_data, left_out, add_item, add_dashboard,
  dashboard_items, list_dashboards, dashboards, handle_index,
}

-- The field is one for all units, or the unit is the first.
abbrev pub IsAsked : ℕ → ℕ → DashboardField → Type 0
IsAsked first uid f = (f.unit1 ≡ false) ⊎ (uid ≡ first)

left_out_iff :
    (first uid : ℕ) (f : DashboardField) → (left_out first uid f ≡ false) ↔ IsAsked first uid f
left_out_iff first uid f = ground arith

module _ (two_places : ℤ → ℕ → Text) (sql : Sqlite) (q : Listing sql)
    (view : ℕ → DashboardField → sql.Db) where
  abbrev decoded : ℕ → DashboardField → Option Text
  decoded uid f = decode_dashboard_field two_places sql f (view uid f) uid

  -- The field gives the unit this item: it is not one of the first unit alone, or this is the first
  -- unit, and it is decoded to a text that is not empty.
  abbrev pub Gives : ℕ → ℕ → DashboardField → DashboardItem → Type 0
  Gives first uid f item =
      IsAsked first uid f
      × (item.label ≡ f.label)
      × (decoded uid f ≡ some item.value)
      × (item.value ≢ [])

  -- One of the fields gives the unit this item.
  abbrev pub IsItem : ℕ → ℕ → List DashboardField → DashboardItem → Type 0
  IsItem first uid fs item = (f : DashboardField) × Member f fs × Gives first uid f item

  module _ (first uid : ℕ) where
    -- The items are those that the fields give.
    abbrev Lists : List DashboardField → List DashboardItem → Type 0
    Lists fs items = (item : DashboardItem) → Member item items ↔ IsItem first uid fs item

    Lists-skip :
        (f : DashboardField) (fs : List DashboardField) (items : List DashboardItem)
        → ((item : DashboardItem) → Gives first uid f item → ⊥)
        → Lists fs items
        → Lists (f ∷ fs) items
    Lists-skip f fs items never h item = (
      λ m. let (g, n, gives) = (h item).0 m in (g, inr n, gives),
      λ (g, n, gives). elim n [
        | inl same ↦ absurd (never item (subst (λ x. Gives first uid x item) same gives))
        | inr n ↦ (h item).1 (g, n, gives)
      ],
    )

    Lists-add :
        (f : DashboardField) (fs : List DashboardField) (items : List DashboardItem)
        (new : DashboardItem)
        → Gives first uid f new
        → Lists fs items
        → Lists (f ∷ fs) (new ∷ items)
    Lists-add f fs items new gives h item = (
      λ m. elim m [
        | inl same ↦ (f, inl refl, subst (λ x. Gives first uid f x) (sym same) gives)
        | inr m ↦ let (g, n, others) = (h item).0 m in (g, inr n, others)
      ],
      λ (g, n, other). elim n [
        | inl same ↦
            let (_, label, value, _) = subst (λ x. Gives first uid x item) same other in
            let values : item.value ≡ new.value = some-injective (sym value ∙ gives.2) in
            let labels : item.label ≡ new.label = label ∙ sym gives.1 in inl (cc)
        | inr n ↦ inr ((h item).1 (g, n, other))
      ],
    )

    add_item-Lists :
        (f : DashboardField) (fs : List DashboardField) (items : List DashboardItem) (v : Text)
        → IsAsked first uid f
        → decoded uid f ≡ some v
        → Lists fs items
        → (all : List DashboardItem) × (add_item f (some v) (some items) ≡ some all)
          × Lists (f ∷ fs) all
    unfolding add_item
    add_item-Lists f fs items [] l e h = (
      items,
      refl,
      Lists-skip f fs items (λ item (_, _, value, filled). filled (some-injective (sym value ∙ e)))
          h,
    )
    add_item-Lists f fs items (c ∷ cs) l e h = (
      record { label = f.label; value = c ∷ cs } ∷ items,
      refl,
      Lists-add f fs items (record { label = f.label; value = c ∷ cs }) (l, refl, e, λ n. cc) h,
    )

    dashboard_items-Lists :
        (fs : List DashboardField)
        → All (λ f. decoded uid f ≢ none) fs
        → (items : List DashboardItem) × (dashboard_items two_places sql q view first uid fs
            ≡ some items)
          × Lists fs items
    unfolding dashboard_items
    dashboard_items-Lists [] safe =
        ([], refl, λ item. (λ m. elim m [ ], λ (g, n, gives). elim n [ ]))
    dashboard_items-Lists (f ∷ fs) safe =
        let (items, e, h) = dashboard_items-Lists fs safe.1 in
        elim (Bool-cases (left_out first uid f)) [
          | inl l ↦ (
            items,
            rw l e,
            Lists-skip f fs items
                (λ item gives. absurd (cc (sym l ∙ (left_out_iff first uid f).1 gives.0))) h,
          )
          | inr l ↦ elim (Option-cases (decoded uid f)) [
            | inl n ↦ absurd (safe.0 n)
            | inr (v, s) ↦
                let (all, added, lists) =
                  add_item-Lists f fs items v ((left_out_iff first uid f).0 l) s h in
                (all, rw (l, s, e) added, lists)
          ]
        ]

  -- One of the dashboards is the unit's and has the item.
  abbrev pub IsShown : List UnitDashboard → ℕ → DashboardItem → Type 0
  IsShown shown uid item =
      (d : UnitDashboard) × Member d shown × (d.unit_id ≡ uid) × Member item d.items

  -- The dashboards show the units' items and no others, and none of them is empty.
  pub record ShowsAll (first : ℕ) (uids : List ℕ) (shown : List UnitDashboard) : Type 0 where
    pub items :
        (uid : ℕ) (item : DashboardItem)
        → IsShown shown uid item ↔ (Member uid uids × IsItem first uid dashboard_fields item)
    pub filled : All (λ d. d.items ≢ []) shown

  ShowsAll-add :
      (first uid : ℕ) (uids : List ℕ) (items : List DashboardItem) (shown : List UnitDashboard)
      → Lists first uid dashboard_fields items
      → ShowsAll first uids shown
      → ShowsAll first (uid ∷ uids) (add_dashboard uid items shown)
  unfolding add_dashboard
  ShowsAll-add first uid uids [] shown h rest = record {
    items = λ u item. (
      λ s. let (m, is) = (rest.items u item).0 s in (inr m, is),
      λ (m, is). elim m [
        | inl same ↦ absurd ((h item).1 (subst (λ x. IsItem first x dashboard_fields item) same is))
        | inr m ↦ (rest.items u item).1 (m, is)
      ],
    );
    filled = rest.filled;
  }
  ShowsAll-add first uid uids (i ∷ is) shown h rest = record {
    items = λ u item. (
      λ (d, m, of_unit, n). elim m [
        | inl same ↦
            let its : u ≡ uid = sym of_unit ∙ ap (λ (x : UnitDashboard). x.unit_id) same in
            let n' : Member item (i ∷ is) =
              subst (λ (x : UnitDashboard). Member item x.items) same n in
            (inl its, subst (λ x. IsItem first x dashboard_fields item) (sym its) ((h item).0 n'))
        | inr m ↦ let (k, it) = (rest.items u item).0 (d, m, of_unit, n) in (inr k, it)
      ],
      λ (m, it). elim m [
        | inl same ↦ (
          record { unit_id = uid; items = i ∷ is },
          inl refl,
          sym same,
          (h item).1 (subst (λ x. IsItem first x dashboard_fields item) same it),
        )
        | inr m ↦ let (d, k, of_unit, n) = (rest.items u item).1 (m, it) in (d, inr k, of_unit, n)
      ],
    );
    filled = (λ n. cc, rest.filled);
  }

  fields-safe : (uid : ℕ) → All (λ f. decoded uid f ≢ none) dashboard_fields
  fields-safe uid =
      All_mono {P = λ f. words_read f.reg_type ≤ f.length} dashboard_fields
        (λ f. decode_dashboard_field-safe two_places sql (view uid f) uid f) (omega arith)

  list_dashboards-ShowsAll :
      (first : ℕ) (uids : List ℕ)
      → (shown : List UnitDashboard) × (list_dashboards two_places sql q view first uids
          ≡ some shown)
        × ShowsAll first uids shown
  unfolding list_dashboards
  list_dashboards-ShowsAll first [] = (
    [],
    refl,
    record { items = λ uid item. (λ (d, m, _, _). elim m [ ], λ (m, _). elim m [ ]); filled = tt },
  )
  list_dashboards-ShowsAll first (uid ∷ uids) =
      let (items, e, lists) = dashboard_items-Lists first uid dashboard_fields (fields-safe uid) in
      let (shown, s, shows) = list_dashboards-ShowsAll first uids in
      (
        add_dashboard uid items shown,
        rw (e, list_dashboards, s) refl,
        ShowsAll-add first uid uids items shown lists shows,
      )

  -- `handleIndex` has no panic, whatever the cache holds at each of its reads and whichever of them
  -- fail. For each configured unit, its dashboard shows the fields that are decoded to a text that is
  -- not empty; the fields with `Unit1` are shown for the unit that is configured first and no other,
  -- whatever its ID. A unit without such fields has none.
  pub handle_index-ShowsAll :
      (cfg : Config) (first : ℕ) (uids : List ℕ) (reader : Option (Reader × Progress))
      (moment : Moment) (db : sql.Db)
      → cfg.inverter.unit_ids ≡ first ∷ uids
      → (page : Page) × (handle_index two_places sql q view cfg reader moment db ≡ some page)
        × ShowsAll first (first ∷ uids) page.dashboards
  unfolding handle_index dashboards
  handle_index-ShowsAll cfg first uids reader moment db e =
      let (shown, s, shows) = list_dashboards-ShowsAll first (first ∷ uids) in
      (page_data cfg reader moment (all sql q db) shown, rw (e, dashboards, s) refl, shows)
