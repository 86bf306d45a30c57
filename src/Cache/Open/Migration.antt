-- ===== src/Cache/Open/Migration.antt =====
-- What `NewRegisterCache` of cache.go does to the table that it finds.
use mathlib.Core.Option
use huawei_proxy.Prelude.{
  some-injective, ◌≡◌, refl, sym, ap, ◌∙◌, inl, inr, true, false, List, [], ◌∷◌, map, Option, none,
  some, if◌then◌else◌, Bool-cases, Option-cases, All, ◌⊎◌,
}
use huawei_proxy.Text.{Text}
use huawei_proxy.Platform.Sqlite.{Sqlite, Table}
use huawei_proxy.Cache.Open.{
  Opener, Statement, IsPragma, journal_mode_wal, synchronous_normal, busy_timeout, drop_registers,
  create_registers, upsert_register, has_column, no_rows, Opened, opened, has_unit_id, run_pragmas,
  prepare_all, statements, create_table, migrate, new_register_cache,
}

-- The loop over the columns' rows, if every row is read.
has_unit_id-map-some : (names : List Text) → has_unit_id (map some names) ≡ has_column names
unfolding has_unit_id has_column
has_unit_id-map-some [] = refl
has_unit_id-map-some (name ∷ names) = rw (has_unit_id-map-some names) refl

opened-injective : {H : Type 0} {a b : H} → opened a ≡ opened b → a ≡ b
opened-injective e = cc

-- `unit_id` is one of the columns.
abbrev pub HasUnitId : Option (List Text) → Type 0
HasUnitId schema = (names : List Text) × (schema ≡ some names) × (has_column names ≡ true)

module _ (sql : Sqlite) (o : Opener sql) where
  open o use {Handle, exec, table_info, prepare, schema, rows}

  -- Two handles with the same table.
  abbrev SameTable : Handle → Handle → Type 0
  SameTable h h' = (schema h' ≡ schema h) × (rows h' ≡ rows h)

  prepare_all-SameTable :
      (ss : List Statement) (h h' : Handle) → prepare_all sql o ss h ≡ opened h' → SameTable h h'
  unfolding prepare_all
  prepare_all-SameTable [] h h' e =
      let same = opened-injective e in (ap schema (sym same), ap rows (sym same))
  prepare_all-SameTable (s ∷ ss) h h' e = elim (Bool-cases (prepare s h).0) [
    | inl d ↦
        let rest = prepare_all-SameTable ss (prepare s h).1 h' (rw (d, prepare_all) at e) in
        let first = o.prepare_same s h in (rest.0 ∙ first.0, rest.1 ∙ first.1)
    | inr d ↦ absurd (cc (rw (d, prepare_all) at e))
  ]

  -- The upsert is prepared first, and names the column.
  statements-HasUnitId :
      (h h' : Handle) → prepare_all sql o (statements sql o) h ≡ opened h' → HasUnitId (schema h)
  unfolding prepare_all
  statements-HasUnitId h h' e = elim (Bool-cases (prepare upsert_register h).0) [
    | inl d ↦ o.prepare_upsert h d
    | inr d ↦ absurd (cc (rw d at e))
  ]

  create_table-opened :
      (h h' : Handle)
      → create_table sql o h ≡ opened h'
      → HasUnitId (schema h')
        × (((schema h ≡ none) × (rows h' ≡ no_rows)) ⊎ (HasUnitId (schema h) × (rows h' ≡ rows h)))
  unfolding create_table
  create_table-opened h h' e = elim (Bool-cases (exec create_registers h).0) [
    | inr d ↦ absurd (cc (rw (d, create_table) at e))
    | inl d ↦
        let h'' = (exec create_registers h).1 in
        let prepared : prepare_all sql o (statements sql o) h'' ≡ opened h' =
          rw (d, create_table) at e in
        let same = prepare_all-SameTable (statements sql o) h'' h' prepared in
        let (names, n, has) = statements-HasUnitId h'' h' prepared in
        elim (Option-cases (schema h)) [
          | inl new ↦ ((names, same.0 ∙ n, has), inl (new, same.1 ∙ (o.create_new h d new).1))
          | inr (old, found) ↦
              let kept = o.create_old h old d found in
              let it : old ≡ names = some-injective (sym kept.0 ∙ n) in
              (
                (names, same.0 ∙ n, has),
                inr ((old, found, ap has_column it ∙ has), same.1 ∙ kept.1),
              )
        ]
  ]

  run_pragmas-opened :
      (ss : List Statement) (next : Handle → Opened Handle) (h h' : Handle)
      → All IsPragma ss
      → run_pragmas sql o ss next h ≡ opened h'
      → (h'' : Handle) × SameTable h h'' × (next h'' ≡ opened h')
  unfolding run_pragmas
  run_pragmas-opened [] next h h' a e = (h, (refl, refl), e)
  run_pragmas-opened (s ∷ ss) next h h' (i, a) e = elim (Bool-cases (exec s h).0) [
    | inr d ↦ absurd (cc (rw (d, run_pragmas) at e))
    | inl d ↦
        let first = o.pragma_schema s h i in
        let (h'', same, last) =
          run_pragmas-opened ss next (exec s h).1 h' a (rw (d, run_pragmas) at e) in
        (h'', (same.0 ∙ first.0, same.1 ∙ first.1), last)
  ]

  -- the columns that are found, where the table is there
  abbrev pub found_columns : Handle → List Text
  found_columns h = Option.get_or (schema h) []

  kept-rows :
      (h h' : Handle)
      → has_column (found_columns h) ≡ true
      → ((schema h ≡ none) × (rows h' ≡ no_rows)) ⊎ (HasUnitId (schema h) × (rows h' ≡ rows h))
      → rows h' ≡ rows h
  unfolding has_column
  kept-rows h h' has (inr (column, r)) = r
  kept-rows h h' has (inl (n, r)) =
      let none_found : found_columns h ≡ [] =
        ap (λ (s : Option (List Text)). Option.get_or s []) n in
      absurd (cc (rw none_found at has))

  -- A table without the column is gone: its `DROP TABLE` has succeeded, since an upsert that names the
  -- column could not be prepared otherwise.
  dropped-rows :
      (h h' : Handle)
      → has_column (found_columns h) ≡ false
      → ((schema (exec drop_registers h).1 ≡ none) × (rows h' ≡ no_rows))
        ⊎ (HasUnitId (schema (exec drop_registers h).1)
            × (rows h' ≡ rows (exec drop_registers h).1))
      → rows h' ≡ no_rows
  dropped-rows h h' lacks (inl (n, r)) = r
  dropped-rows h h' lacks (inr ((names, n, has), r)) = elim (Bool-cases (exec drop_registers h).0) [
    | inl d ↦ absurd (cc (sym (o.drop_done h d).0 ∙ n))
    | inr d ↦
        let found : found_columns h ≡ names =
          ap (λ (s : Option (List Text)). Option.get_or s []) (sym (o.drop_failed h d).0 ∙ n) in
        absurd (cc (sym has ∙ ap has_column (sym found) ∙ lacks))
  ]

  migrated :
      (h h' : Handle)
      → table_info h ≡ some (map some (found_columns h))
      → create_table sql o (migrate sql o h) ≡ opened h'
      → HasUnitId (schema h')
        × (rows h' ≡ (if has_column (found_columns h) then rows h else no_rows))
  unfolding migrate
  migrated h h' q e =
      let seen : has_unit_id (Option.get_or (table_info h) []) ≡ has_column (found_columns h) =
        ap (λ (got : Option (List (Option Text))). has_unit_id (Option.get_or got [])) q
        ∙ has_unit_id-map-some (found_columns h) in
      elim (Bool-cases (has_column (found_columns h))) [
        | inl has ↦
            let (column, outcome) = create_table-opened h h' (rw (seen ∙ has) at e) in
            (column, rw has (kept-rows h h' has outcome))
        | inr lacks ↦
            let dropped = (exec drop_registers h).1 in
            let (column, outcome) = create_table-opened dropped h' (rw (seen ∙ lacks) at e) in
            (column, rw lacks (dropped-rows h h' lacks outcome))
      ]

  -- When `NewRegisterCache` succeeds, the table has the column `unit_id`. If the query of the columns
  -- is answered in full, a table that had the column before keeps its rows, and of one that had not
  -- no row is left.
  pub new_register_cache-opened :
      (path : Text) (h h' : Handle)
      → o.open_db path ≡ some h
      → ((v : Handle) → table_info v ≡ some (map some (found_columns v)))
      → new_register_cache sql o path ≡ opened h'
      → HasUnitId (schema h')
        × (rows h' ≡ (if has_column (found_columns h) then rows h else no_rows))
  unfolding new_register_cache
  new_register_cache-opened path h h' f q e =
      let (h'', same, rest) =
        run_pragmas-opened (journal_mode_wal ∷ synchronous_normal ∷ busy_timeout ∷ [])
          (λ v. create_table sql o (migrate sql o v)) h h' (tt, (tt, (tt, tt)))
          (rw (f, new_register_cache) at e) in
      let (column, r) = migrated h'' h' (q h'') rest in
      (
        column,
        r
            ∙ ap
                (λ (s : Option (List Text)).
                  if has_column (Option.get_or s []) then rows h'' else no_rows)
                same.0
            ∙ ap (λ (t : Table). if has_column (found_columns h) then t else no_rows) same.1,
      )
