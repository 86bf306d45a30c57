-- ===== src/Cache/Stale.antt =====
-- `DeleteStale` of cache.go, seen through `Get` and `Set`.

use huawei_proxy.Prelude.{
  ℕ, zero, suc, ◌+◌, ◌≡◌, ap, ◌∙◌, inl, inr, List, Option, none, some, length, Option-cases, false,
  arith,
}
use huawei_proxy.Bytes.{AreWords}
use huawei_proxy.Platform.Sqlite.{Sqlite, Cell, IsReliable, text_lt, keep_fresh}
use huawei_proxy.Cache.{get, set_registers, delete_stale}
use huawei_proxy.Cache.Get.{cached_values, get_complete, get_sound}
use huawei_proxy.Cache.ReadBack.{cached_values_of, set_registers-at}

-- A column with more cells has the values that a column with fewer has.
cached_values_mono :
    (c c' : ℕ → Option Cell)
    → ((a : ℕ) (x : Cell) → c a ≡ some x → c' a ≡ some x)
    → (lo n : ℕ) (vs : List ℕ) → cached_values c lo n ≡ some vs
    → cached_values c' lo n ≡ some vs
unfolding cached_values
cached_values_mono c c' sub lo zero vs e = e
cached_values_mono c c' sub lo (suc n) vs e = elim (Option-cases (c lo)) [
  | inl p ↦ absurd (cc (rw (p, cached_values) at e))
  | inr (x, p) ↦ elim (Option-cases (cached_values c (lo + 1) n)) [
    | inl q ↦ absurd (cc (rw (p, cached_values, q) at e))
    | inr (ws, q) ↦
        rw (sub lo x p, cached_values, cached_values_mono c c' sub (lo + 1) n ws q)
          (rw (p, cached_values, q) at e)
  ]
]

keep_fresh-sub :
    (cutoff : List ℕ) (o : Option Cell) (x : Cell) → keep_fresh cutoff o ≡ some x → o ≡ some x
unfolding keep_fresh
keep_fresh-sub cutoff none x e = e
keep_fresh-sub cutoff (some c) x e = ground arith

keep_fresh-set :
    (cutoff now : List ℕ) (v : ℕ)
    → text_lt now cutoff ≡ false
    → keep_fresh cutoff (some (record { value = v; updated_at = now }))
      ≡ some (record { value = v; updated_at = now })
unfolding keep_fresh
keep_fresh-set cutoff now v h = rw h

-- On either outcome of the statement, a register that is left is as it was.
delete_stale-sub :
    (sql : Sqlite) (cutoff : List ℕ) (db : sql.Db) (u a : ℕ) (x : Cell)
    → sql.committed (delete_stale sql cutoff db).1 u a ≡ some x
    → sql.committed db u a ≡ some x
unfolding delete_stale
delete_stale-sub sql cutoff db u a x e = elim (Option-cases (sql.exec_delete_stale cutoff db).0) [
  | inl f ↦ rw (sql.delete_failed cutoff db f) at e
  | inr (n, d) ↦ keep_fresh-sub cutoff _ x (rw (sql.delete_done cutoff db n d u a) at e)
]

pub delete_stale-keep :
    (sql : Sqlite) (cutoff : List ℕ) (db : sql.Db) (u a : ℕ) (x : Cell)
    → sql.committed db u a ≡ some x
    → keep_fresh cutoff (some x) ≡ some x
    → sql.committed (delete_stale sql cutoff db).1 u a ≡ some x
unfolding delete_stale
delete_stale-keep sql cutoff db u a x e k =
    elim (Option-cases (sql.exec_delete_stale cutoff db).0) [
      | inl f ↦ rw (sql.delete_failed cutoff db f) e
      | inr (n, d) ↦ sql.delete_done cutoff db n d u a ∙ ap (keep_fresh cutoff) e ∙ k
    ]

module _ (sql : Sqlite) (fine : IsReliable sql) (cutoff : List ℕ) (db : sql.Db) where
  -- Deletion invents nothing: on an engine where no read fails, what `Get` returns after
  -- `DeleteStale` it returned before.
  pub get-delete_stale :
      (unit address count : ℕ) (vs : List ℕ)
      → get sql unit address count (delete_stale sql cutoff db).1 ≡ some vs
      → get sql unit address count db ≡ some vs
  get-delete_stale unit address count vs e =
      get_complete sql unit address count db (fine.queries unit address count db)
      ∙ cached_values_mono (sql.committed (delete_stale sql cutoff db).1 unit)
          (sql.committed db unit) (delete_stale-sub sql cutoff db unit) address count vs
          (get_sound sql unit address count (delete_stale sql cutoff db).1 vs e)

  -- What was written at a time whose text is not before the cutoff survives: `Get` returns it after
  -- `Set` and `DeleteStale`.
  pub get-delete_stale-set :
      (now : List ℕ) (unit address : ℕ) (vs : List ℕ)
      → AreWords vs
      → text_lt now cutoff ≡ false
      → get sql unit address
          (length vs)
          (delete_stale sql cutoff (set_registers sql now unit address vs db)).1
        ≡ some vs
  get-delete_stale-set now unit address vs w h =
      let db' = set_registers sql now unit address vs db in
      let db'' = (delete_stale sql cutoff db').1 in
      get_complete sql unit address (length vs) db'' (fine.queries unit address (length vs) db'')
      ∙ cached_values_of (sql.committed db'' unit) now vs address w λ i v e.
        delete_stale-keep sql cutoff db' unit (address + i) _
          (set_registers-at sql fine now unit address vs db i v e) (keep_fresh-set cutoff now v h)
