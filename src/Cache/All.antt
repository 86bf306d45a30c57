-- ===== src/Cache/All.antt =====
-- `All` of cache.go: the list of all registers that the status page takes.
pub mod Agree
use huawei_proxy.Prelude.{ℕ, ◌%◌, ◌≡◌, List, [], ◌∷◌, Option, none, some, All}
use mathlib.Core.Option
use huawei_proxy.Text.{Text}
use huawei_proxy.Platform.Sqlite.{Sqlite, Table}

-- `CachedRegister`, with the time in nanoseconds
pub record CachedRegister : Type 0 where
  pub unit_id : ℕ
  pub address : ℕ
  pub value : ℕ
  pub updated_at : ℕ

-- a row of the table `registers`
pub record Row : Type 0 where
  pub unit_id : ℕ
  pub address : ℕ
  pub value : ℕ
  pub updated_at : Text

-- What `rows.Scan` gives, with `none` for an error, is a row of the table.
abbrev pub IsRowOf : Table → Option Row → Type 0
IsRowOf t none = Unit
IsRowOf t (some row) =
    t row.unit_id row.address ≡ some (record { value = row.value; updated_at = row.updated_at })

-- The query `SELECT unit_id, address, value, updated_at FROM registers ORDER BY unit_id, address` with
-- what it is documented to give, and `time.Parse` with the zero time for an error.
pub record Listing (sql : Sqlite) : Type 0 where
  pub query_all : sql.Db → Option (List (Option Row))
  pub parse : Text → ℕ
  pub query_all_rows :
      (d : sql.Db) (got : List (Option Row))
      → query_all d ≡ some got
      → All (IsRowOf (sql.committed d)) got

module _ (sql : Sqlite) (q : Listing sql) where
  -- the register that the loop appends for a row
  abbrev pub cached_register : Row → CachedRegister
  cached_register row = record {
    unit_id = row.unit_id % 256;
    address = row.address % 65536;
    value = row.value % 65536;
    updated_at = q.parse row.updated_at;
  }

  -- the loop over the rows; `none` where a `Scan` fails
  unfoldable pub list_rows : List (Option Row) → Option (List CachedRegister)
  list_rows [] = some []
  list_rows (none ∷ got) = none
  list_rows (some row ∷ got) = Option.map (λ regs. cached_register row ∷ regs) (list_rows got)

  -- `All`; its `nil` is the empty list
  unfoldable pub all : sql.Db → List CachedRegister
  unfolding list_rows
  all db = elim (q.query_all db) [ none ↦ [] | some got ↦ Option.get_or (list_rows got) [] ]
