-- ===== src/Cache/Open.antt =====
-- `NewRegisterCache` of cache.go: how the database is opened, migrated and prepared. `database/sql` and
-- SQLite are no part of the repository: the calls are fields of `Opener`, with what they are
-- documented to do. A statement is named for its text in cache.go.
pub mod Migration
pub mod Memory
use huawei_proxy.Prelude.{
  ℕ, ◌≡◌, Bool, true, false, ◌||◌, List, [], ◌∷◌, Option, none, some, if◌then◌else◌,
}
use mathlib.Core.Option
use huawei_proxy.Text.{Text, codes, text_eq}
use huawei_proxy.Platform.Sqlite.{Sqlite, Table, Delivers}

pub data Statement : Type 0 where
  journal_mode_wal synchronous_normal busy_timeout : Statement
  drop_registers create_registers : Statement
  upsert_register get_range count_rows all_rows delete_stale_rows : Statement

-- `name == "unit_id"` for one of the names
unfoldable pub has_column : List Text → Bool
has_column [] = false
has_column (name ∷ names) = text_eq name (codes "unit_id") || has_column names

abbrev pub columns : List Text
columns = codes "unit_id" ∷ codes "address" ∷ codes "value" ∷ codes "updated_at" ∷ []

abbrev pub no_rows : Table
no_rows = λ u a. none

abbrev pub IsPragma : Statement → Type 0
IsPragma journal_mode_wal = Unit
IsPragma synchronous_normal = Unit
IsPragma busy_timeout = Unit
IsPragma s = ⊥

-- `schema` is the names of the table's columns, if there is a table, and `rows` its rows.
pub record Opener (sql : Sqlite) : Type 1 where
  pub Handle : Type 0
  pub open_db : Text → Option Handle
  pub exec : Statement → Handle → Bool × Handle
  pub table_info : Handle → Option (List (Option Text))
  pub prepare : Statement → Handle → Bool × Handle
  pub close : Handle → Handle
  pub ready : Handle → sql.Db
  pub schema : Handle → Option (List Text)
  pub rows : Handle → Table
  pub ready_rows : (h : Handle) → sql.committed (ready h) ≡ rows h
  pub pragma_schema :
      (s : Statement) (h : Handle)
      → IsPragma s
      → (schema (exec s h).1 ≡ schema h) × (rows (exec s h).1 ≡ rows h)
  pub drop_done :
      (h : Handle)
      → (exec drop_registers h).0 ≡ true
      → (schema (exec drop_registers h).1 ≡ none) × (rows (exec drop_registers h).1 ≡ no_rows)
  pub drop_failed :
      (h : Handle)
      → (exec drop_registers h).0 ≡ false
      → (schema (exec drop_registers h).1 ≡ schema h) × (rows (exec drop_registers h).1 ≡ rows h)
  pub create_new :
      (h : Handle)
      → (exec create_registers h).0 ≡ true
      → schema h ≡ none
      → (schema (exec create_registers h).1 ≡ some columns)
        × (rows (exec create_registers h).1 ≡ no_rows)
  pub create_old :
      (h : Handle) (names : List Text)
      → (exec create_registers h).0 ≡ true
      → schema h ≡ some names
      → (schema (exec create_registers h).1 ≡ some names)
        × (rows (exec create_registers h).1 ≡ rows h)
  pub prepare_same :
      (s : Statement) (h : Handle)
      → (schema (prepare s h).1 ≡ schema h) × (rows (prepare s h).1 ≡ rows h)
  -- SQLite refuses to prepare a statement that names a column which is not there.
  pub prepare_upsert :
      (h : Handle)
      → (prepare upsert_register h).0 ≡ true
      → (names : List Text) × (schema h ≡ some names) × (has_column names ≡ true)

pub data OpenError : Type 0 where
  opening_failed creating_failed : OpenError
  pragma_failed preparing_failed : Statement → OpenError

-- The cache, or an error with the handle as it was left, if there is one.
pub data Opened (H : Type 0) : Type 0 where
  opened : H → Opened H
  failed : OpenError → Option H → Opened H

-- the loop over the rows of `PRAGMA table_info(registers)`; a row whose `Scan` fails is passed over
unfoldable pub has_unit_id : List (Option Text) → Bool
has_unit_id [] = false
has_unit_id (none ∷ got) = has_unit_id got
has_unit_id (some name ∷ got) = text_eq name (codes "unit_id") || has_unit_id got

module _ (sql : Sqlite) (o : Opener sql) where
  open o use {Handle, exec, table_info, prepare, close}

  -- the loop over the pragmas; what follows it gets the handle
  unfoldable pub run_pragmas : List Statement → (Handle → Opened Handle) → Handle → Opened Handle
  run_pragmas [] next h = next h
  run_pragmas (s ∷ rest) next h =
      let (done, h') = exec s h in
      elim done [
        | true ↦ run_pragmas rest next h'
        | false ↦ failed (pragma_failed s) (some (close h'))
      ]

  -- the five calls of `db.Prepare`
  unfoldable pub prepare_all : List Statement → Handle → Opened Handle
  prepare_all [] h = opened h
  prepare_all (s ∷ rest) h =
      let (done, h') = prepare s h in
      elim done [
        | true ↦ prepare_all rest h'
        | false ↦ failed (preparing_failed s) (some (close h'))
      ]

  abbrev pub statements : List Statement
  statements = upsert_register ∷ get_range ∷ count_rows ∷ all_rows ∷ delete_stale_rows ∷ []

  -- `CREATE TABLE IF NOT EXISTS`, and what follows it
  unfoldable pub create_table : Handle → Opened Handle
  create_table h =
      let (done, h') = exec create_registers h in
      elim done [
        | true ↦ prepare_all statements h'
        | false ↦ failed creating_failed (some (close h'))
      ]

  -- the migration, which does not look at the error of its `DROP TABLE`
  unfoldable pub migrate : Handle → Handle
  migrate h =
      let got = Option.get_or (table_info h) [] in
      if has_unit_id got then h else (exec drop_registers h).1

  -- `NewRegisterCache`
  unfoldable pub new_register_cache : Text → Opened Handle
  new_register_cache db_path = elim (o.open_db db_path) [
    | none ↦ failed opening_failed none
    | some h ↦
        run_pragmas (journal_mode_wal ∷ synchronous_normal ∷ busy_timeout ∷ [])
          (λ h'. create_table (migrate h')) h
  ]
