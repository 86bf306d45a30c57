-- ===== src/Cache/All/Agree.antt =====
-- What `All` of cache.go lists is what `Get` returns.
use huawei_proxy.Prelude.{
  ℕ, ◌%◌, ◌<◌, ◌≡◌, refl, ◌∙◌, inl, inr, List, [], ◌∷◌, Option, none, some, All, map, Member,
  Member-map, Option-cases, some-injective, arith,
}
use huawei_proxy.Platform.Sqlite.{Sqlite, Table, Cell, IsReliable}
use huawei_proxy.Cache.{get}
use huawei_proxy.Cache.All.{CachedRegister, Row, IsRowOf, Listing, cached_register, list_rows, all}
use huawei_proxy.Cache.Get.{cached_values, get_sound, get_complete}

-- The keys of the table are a byte and a word, as in the program's types.
abbrev pub Fits : Table → Type 0
Fits t = (u a : ℕ) (c : Cell) → t u a ≡ some c → (u < 256) × (a < 65536)

-- `Get` returns the register's value for its key.
abbrev pub IsServed : (sql : Sqlite) (db : sql.Db) → CachedRegister → Type 0
IsServed sql db reg = get sql reg.unit_id reg.address 1 db ≡ some (reg.value ∷ [])

module _ (sql : Sqlite) (q : Listing sql) (fine : IsReliable sql) (db : sql.Db) where
  cached_values-one :
      (column : ℕ → Option Cell) (a : ℕ) (c : Cell)
      → column a ≡ some c
      → cached_values column a 1 ≡ some ((c.value % 65536) ∷ [])
  unfolding cached_values
  cached_values-one column a c e = rw (e, cached_values) refl

  cached_register-IsServed :
      (row : Row)
      → Fits (sql.committed db)
      → IsRowOf (sql.committed db) (some row)
      → IsServed sql db (cached_register sql q row)
  cached_register-IsServed row fits e =
      let b = fits row.unit_id row.address _ e in
      let u : row.unit_id % 256 ≡ row.unit_id = ground (arith, b) in
      let a : row.address % 65536 ≡ row.address = ground (arith, b) in
      rw (u, a)
        (get_complete sql row.unit_id row.address 1 db (fine.queries row.unit_id row.address 1 db)
          ∙ cached_values-one (sql.committed db row.unit_id) row.address _ e)

  list_rows-IsServed :
      (got : List (Option Row)) (regs : List CachedRegister)
      → Fits (sql.committed db)
      → All (IsRowOf (sql.committed db)) got
      → list_rows sql q got ≡ some regs
      → All (IsServed sql db) regs
  unfolding list_rows
  list_rows-IsServed [] [] fits h e = tt
  list_rows-IsServed [] (reg ∷ regs) fits h e = absurd (cc)
  list_rows-IsServed (none ∷ got) regs fits h e = absurd (cc)
  list_rows-IsServed (some row ∷ got) regs fits h e = elim (Option-cases (list_rows sql q got)) [
    | inl n ↦ absurd (cc (rw n at e))
    | inr (rest, n) ↦
        let same : cached_register sql q row ∷ rest ≡ regs = some-injective (rw n at e) in
        rw (← same) (cached_register-IsServed row fits h.0, list_rows-IsServed got rest fits h.1 n)
  ]

  -- Every register of the list is one that `Get` returns with the same value.
  pub all-IsServed : Fits (sql.committed db) → All (IsServed sql db) (all sql q db)
  unfolding all
  all-IsServed fits = elim (Option-cases (q.query_all db)) [
    | inl n ↦ rw (All, n) tt
    | inr (got, n) ↦ elim (Option-cases (list_rows sql q got)) [
      | inl m ↦ rw (All, n, m) tt
      | inr (regs, m) ↦
          rw (All, n, m) (list_rows-IsServed got regs fits (q.query_all_rows db got n) m)
    ]
  ]

-- The query delivers these rows, and they are all rows of the table.
pub record IsDelivered (sql : Sqlite) (q : Listing sql) (db : sql.Db) (rows : List Row)
    : Type 0 where
  pub delivers : q.query_all db ≡ some (map some rows)
  pub whole :
      (u a : ℕ) (c : Cell)
      → sql.committed db u a ≡ some c
      → Member {A = Row}
          (record { unit_id = u; address = a; value = c.value; updated_at = c.updated_at })
          rows

module _ (sql : Sqlite) (q : Listing sql) where
  list_rows-map-some :
      (rows : List Row) → list_rows sql q (map some rows) ≡ some (map (cached_register sql q) rows)
  unfolding list_rows
  list_rows-map-some [] = refl
  list_rows-map-some (row ∷ rows) = rw (list_rows-map-some rows) refl

  all-delivered :
      (db : sql.Db) (rows : List Row)
      → q.query_all db ≡ some (map some rows)
      → all sql q db ≡ map (cached_register sql q) rows
  unfolding all
  all-delivered db rows e = rw (all, e, list_rows-map-some rows) refl

  cached_values-cell :
      (column : ℕ → Option Cell) (a v : ℕ)
      → cached_values column a 1 ≡ some (v ∷ [])
      → (c : Cell) × (column a ≡ some c) × (c.value % 65536 ≡ v)
  unfolding cached_values
  cached_values-cell column a v e = elim (Option-cases (column a)) [
    | inl n ↦ absurd (cc (rw (n, cached_values) at e))
    | inr (c, n) ↦
        let same : (c.value % 65536) ∷ [] ≡ v ∷ [] = some-injective (rw (n, cached_values) at e) in
        (c, n, cc)
  ]

  -- Where the query delivers all rows, every register that `Get` returns is on the list.
  pub all-Member :
      (db : sql.Db) (rows : List Row) (uid a v : ℕ)
      → Fits (sql.committed db)
      → IsDelivered sql q db rows
      → get sql uid a 1 db ≡ some (v ∷ [])
      → (reg : CachedRegister) × Member reg (all sql q db)
        × (reg.unit_id ≡ uid)
        × (reg.address ≡ a)
        × (reg.value ≡ v)
  all-Member db rows uid a v fits d e =
      let (c, there, value) =
        cached_values-cell (sql.committed db uid) a v (get_sound sql uid a 1 db (v ∷ []) e) in
      let b = fits uid a c there in
      let row : Row = record {
        unit_id = uid;
        address = a;
        value = c.value;
        updated_at = c.updated_at;
      } in
      (
        cached_register sql q row,
        rw (all-delivered db rows d.delivers)
            (Member-map (cached_register sql q) row rows (d.whole uid a c there)),
        ground (arith, b),
        ground (arith, b),
        value,
      )
