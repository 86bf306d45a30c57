-- ===== src/Tests/Opening.antt =====
-- Opening the cache on a small file.
use huawei_proxy.Prelude.{◌≡◌, refl, [], ◌∷◌, some, if◌then◌else◌}
use huawei_proxy.Text.{codes, text_eq}
use huawei_proxy.Platform.Sqlite.{Table, upsert}
use huawei_proxy.Platform.Memory.{memory}
use huawei_proxy.Cache.Open.{
  has_column, columns, no_rows, opened, has_unit_id, run_pragmas, prepare_all, create_table,
  migrate, new_register_cache,
}
use huawei_proxy.Cache.Open.Migration.{HasUnitId, new_register_cache-opened}
use huawei_proxy.Cache.Open.Memory.{SmallFile, small_file}

opening : Unit {0}
unfolding text_eq has_column has_unit_id run_pragmas prepare_all create_table migrate
    new_register_cache upsert
opening = tt

abbrev pub row : Table
row = upsert 1 100 (record { value = 7; updated_at = [] }) no_rows

-- a table of the old program, without unit IDs
abbrev old_file : SmallFile
old_file = (some (codes "address" ∷ codes "value" ∷ codes "updated_at" ∷ []), row)

abbrev pub new_file : SmallFile
new_file = (some columns, row)

new_register_cache-opened_example :
    HasUnitId (some columns) × (row ≡ (if has_column columns then row else no_rows))
unfolding opening
new_register_cache-opened_example =
    new_register_cache-opened memory (small_file new_file) (codes "cache.db") new_file new_file refl
      (λ v. refl) refl

old_rows_go :
    new_register_cache memory (small_file old_file) (codes "cache.db")
    ≡ opened (some columns, no_rows)
unfolding opening
old_rows_go = refl
