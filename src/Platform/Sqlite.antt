-- ===== src/Platform/Sqlite.antt =====
-- The database under the cache, as cache.go calls it: `database/sql` over SQLite with the one table
-- `registers`, whose primary key is (unit_id, address). The engine is no part of the repository, so
-- it is a parameter: its states, the statements that cache.go prepares, and what they are
-- documented to do. Every call may fail; a failed call leaves the committed table as it was.
use huawei_proxy.Prelude.{
  ℕ, zero, suc, ◌+◌, ◌≡◌, Bool, true, false, ◌&&◌, List, [], ◌∷◌, map, Option, none, some, ltb,
  ◌==◌, if◌then◌else◌,
}

-- What a row holds beside its key: `value` and the text `updated_at`, as bytes.
pub record Cell : Type 0 where
  pub value : ℕ
  pub updated_at : List ℕ

-- The table: the cell under each unit ID and address.
abbrev pub Table : Type 0
Table = ℕ → ℕ → Option Cell

-- `INSERT … ON CONFLICT(unit_id, address) DO UPDATE SET value = …, updated_at = …`
unfoldable pub upsert : ℕ → ℕ → Cell → Table → Table
upsert unit address cell table u a = if u == unit && a == address then some cell else table u a

-- SQLite orders texts by their bytes (the BINARY collation).
unfoldable pub text_lt : List ℕ → List ℕ → Bool
text_lt [] [] = false
text_lt [] (b ∷ bs) = true
text_lt (a ∷ as') [] = false
text_lt (a ∷ as') (b ∷ bs) = if ltb a b then true else if a == b then text_lt as' bs else false

-- what `WHERE updated_at < ?` leaves of one row
unfoldable pub keep_fresh : List ℕ → Option Cell → Option Cell
keep_fresh cutoff none = none
keep_fresh cutoff (some c) = if text_lt c.updated_at cutoff then none else some c

-- The rows `SELECT address, value … WHERE address >= lo AND address < lo + n ORDER BY address`.
unfoldable pub select_range : (ℕ → Option Cell) → ℕ → ℕ → List (ℕ × ℕ)
select_range column lo zero = []
select_range column lo (suc n) = elim (column lo) [
  | none ↦ select_range column (lo + 1) n
  | some c ↦ (lo, c.value) ∷ select_range column (lo + 1) n
]

-- What `rows.Next` and `rows.Scan` may give of the selected rows: each row is read, or its `Scan`
-- fails, and the iteration may end early.
abbrev pub Delivers : {A : Type 0} → List (Option A) → List A → Type 0
Delivers [] rows = Unit
Delivers (got ∷ more) [] = ⊥
Delivers (some got ∷ more) (row ∷ rows) = (got ≡ row) × Delivers more rows
Delivers (none ∷ more) (row ∷ rows) = Delivers more rows

-- The calls, with `none` for an error. `committed` is the table that other statements see, `pending`
-- the table as an open transaction sees it, and `base` the committed table while it is open.
pub record Sqlite : Type 1 where
  pub Db : Type 0
  pub Tx : Type 0
  pub committed : Db → Table
  pub pending : Tx → Table
  pub base : Tx → Table
  pub begin : Db → Option Tx
  pub exec_upsert : ℕ → ℕ → ℕ → List ℕ → Tx → Option Tx
  pub commit : Tx → Bool × Db
  pub rollback : Tx → Db
  pub query_get : ℕ → ℕ → ℕ → Db → Option (List (Option (ℕ × ℕ)))
  pub query_count : Db → Option ℕ
  pub exec_delete_stale : List ℕ → Db → Option ℕ × Db
  pub begin_pending : (d : Db) (t : Tx) → begin d ≡ some t → pending t ≡ committed d
  pub begin_base : (d : Db) (t : Tx) → begin d ≡ some t → base t ≡ committed d
  pub upsert_pending :
      (u a v : ℕ) (s : List ℕ) (t t' : Tx)
      → exec_upsert u a v s t ≡ some t'
      → pending t' ≡ upsert u a (record { value = v; updated_at = s }) (pending t)
  pub upsert_base :
      (u a v : ℕ) (s : List ℕ) (t t' : Tx) → exec_upsert u a v s t ≡ some t' → base t' ≡ base t
  pub commit_done : (t : Tx) → (commit t).0 ≡ true → committed (commit t).1 ≡ pending t
  pub commit_failed : (t : Tx) → (commit t).0 ≡ false → committed (commit t).1 ≡ base t
  pub rollback_base : (t : Tx) → committed (rollback t) ≡ base t
  pub query_get_rows :
      (u lo n : ℕ) (d : Db) (got : List (Option (ℕ × ℕ)))
      → query_get u lo (lo + n) d ≡ some got
      → Delivers got (select_range (committed d u) lo n)
  pub delete_done :
      (cutoff : List ℕ) (d : Db) (n : ℕ)
      → (exec_delete_stale cutoff d).0 ≡ some n
      → (u a : ℕ)
      → committed (exec_delete_stale cutoff d).1 u a ≡ keep_fresh cutoff (committed d u a)
  pub delete_failed :
      (cutoff : List ℕ) (d : Db)
      → (exec_delete_stale cutoff d).0 ≡ none
      → committed (exec_delete_stale cutoff d).1 ≡ committed d

-- An engine on which no call fails, as an ordinary run of the program finds it.
pub record IsReliable (sql : Sqlite) : Type 0 where
  pub begins : (d : sql.Db) → (t : sql.Tx) × (sql.begin d ≡ some t)
  pub upserts :
      (u a v : ℕ) (s : List ℕ) (t : sql.Tx) → (t' : sql.Tx) × (sql.exec_upsert u a v s t ≡ some t')
  pub commits : (t : sql.Tx) → (sql.commit t).0 ≡ true
  pub queries :
      (u lo n : ℕ) (d : sql.Db)
      → sql.query_get u lo (lo + n) d ≡ some (map some (select_range (sql.committed d u) lo n))
