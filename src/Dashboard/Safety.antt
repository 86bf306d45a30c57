-- ===== src/Dashboard/Safety.antt =====
-- `DecodeDashboardField` on the fields of the dashboard never indexes out of range.
use huawei_proxy.Prelude.{
  ℕ, zero, suc, ◌+◌, ◌≤◌, ◌≡◌, ◌≢◌, sym, ap, inl, inr, List, [], ◌∷◌, Option, none, some, length,
  All, All_mono, Option-cases, some-injective, arith,
}
use huawei_proxy.Text.{Text}
use huawei_proxy.Prelude.Int.{ℤ}
use huawei_proxy.Platform.Sqlite.{Sqlite, Cell}
use huawei_proxy.Cache.{get}
use huawei_proxy.Cache.Get.{cached_values, get_sound}
use huawei_proxy.Dashboard.{
  RegType, reg_str, reg_u16, reg_i16, reg_u32, reg_i32, DashboardField, dashboard_fields,
  decode_registers, decode_dashboard_field,
}

-- how many registers the `switch` indexes
abbrev pub words_read : RegType → ℕ
words_read reg_str = 0
words_read reg_u16 = 1
words_read reg_i16 = 1
words_read reg_u32 = 2
words_read reg_i32 = 2

pub length-cached_values :
    (column : ℕ → Option Cell) (lo n : ℕ) (vs : List ℕ)
    → cached_values column lo n ≡ some vs
    → length vs ≡ n
unfolding cached_values
length-cached_values column lo zero vs e = ap length (sym (some-injective e))
length-cached_values column lo (suc n) vs e = elim (Option-cases (column lo)) [
  | inl m ↦ absurd (cc (rw (m, cached_values) at e))
  | inr (c, m) ↦ elim (Option-cases (cached_values column (lo + 1) n)) [
    | inl r ↦ absurd (cc (rw (m, cached_values, r) at e))
    | inr (rest, r) ↦
        rw (← some-injective (rw (m, cached_values, r) at e))
          (ap suc (length-cached_values column (lo + 1) n rest r))
  ]
]

module _ (two_places : ℤ → ℕ → Text) where
  decode_registers-safe :
      (t : RegType) (f : DashboardField) (regs : List ℕ)
      → words_read t ≤ length regs
      → decode_registers two_places t f regs ≢ none
  unfolding decode_registers
  decode_registers-safe reg_str f regs h = λ e. cc
  decode_registers-safe reg_u16 f [] h = absurd (omega arith)
  decode_registers-safe reg_u16 f (v ∷ regs) h = λ e. cc
  decode_registers-safe reg_i16 f [] h = absurd (omega arith)
  decode_registers-safe reg_i16 f (v ∷ regs) h = λ e. cc
  decode_registers-safe reg_u32 f [] h = absurd (omega arith)
  decode_registers-safe reg_u32 f (v ∷ []) h = absurd (omega arith)
  decode_registers-safe reg_u32 f (v ∷ w ∷ regs) h = λ e. cc
  decode_registers-safe reg_i32 f [] h = absurd (omega arith)
  decode_registers-safe reg_i32 f (v ∷ []) h = absurd (omega arith)
  decode_registers-safe reg_i32 f (v ∷ w ∷ regs) h = λ e. cc

  -- A field that reads as many registers as its type needs is decoded without a panic.
  pub decode_dashboard_field-safe :
      (sql : Sqlite) (db : sql.Db) (unit : ℕ) (f : DashboardField)
      → words_read f.reg_type ≤ f.length
      → decode_dashboard_field two_places sql f db unit ≢ none
  unfolding decode_dashboard_field
  decode_dashboard_field-safe sql db unit f h =
      elim (Option-cases (get sql unit f.address f.length db)) [
        | inl e ↦ rw (e, decode_dashboard_field) (λ n. cc)
        | inr (regs, e) ↦
            let l =
              length-cached_values (sql.committed db unit) f.address f.length regs
                (get_sound sql unit f.address f.length db regs e) in
            rw (e, decode_dashboard_field) (decode_registers-safe f.reg_type f regs (rw l h))
      ]

-- Each of the dashboard's fields is decoded without a panic, for every unit and whatever the
-- database holds and whichever of its calls fail.
pub dashboard_fields-safe :
    (two_places : ℤ → ℕ → Text) (sql : Sqlite) (db : sql.Db) (unit : ℕ)
    → All (λ f. decode_dashboard_field two_places sql f db unit ≢ none) dashboard_fields
dashboard_fields-safe two_places sql db unit =
    All_mono {P = λ f. words_read f.reg_type ≤ f.length} dashboard_fields
      (decode_dashboard_field-safe two_places sql db unit) (omega arith)
