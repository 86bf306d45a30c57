-- ===== src/Cache/Store.antt =====
-- What cache.go promises to its clients: a store that applies each operation as a whole, or, where the
-- database fails, not at all.
use huawei_proxy.Prelude.{ℕ, ◌≡◌, ◌⊎◌, inl, inr, List, [], ◌∷◌, some, Option-cases}
use mathlib.Core.Path.{fun_ext, subst}
use huawei_proxy.Platform.Sqlite.{Sqlite, Table, keep_fresh}
use huawei_proxy.Cache.{PendingWrite, get, set_registers, batch_set, delete_stale}
use huawei_proxy.Cache.Write.{value_at, latest, overlay}
use huawei_proxy.Cache.Atomic.{set_registers_all_or_nothing, batch_set_all_or_nothing}
use huawei_proxy.Cache.Get.{cached_values, get_sound}

-- A call that changes the cache, with the time or the cutoff that it takes from the clock.
pub data CacheOp : Type 0 where
  set_op : (now : List ℕ) → (unit address : ℕ) → (values : List ℕ) → CacheOp
  batch_op : (now : List ℕ) → List PendingWrite → CacheOp
  purge_op : (cutoff : List ℕ) → CacheOp

-- The specification of one call, on a store that does not fail.
unfoldable pub apply_op : CacheOp → Table → Table
apply_op (set_op now unit address values) t u a =
    overlay now (value_at unit address values u a) (t u a)
apply_op (batch_op now writes) t u a = overlay now (latest writes u a) (t u a)
apply_op (purge_op cutoff) t u a = keep_fresh cutoff (t u a)

-- The store after some of the calls, in their order.
pub data Follows : List CacheOp → Table → Table → Type 0 where
  done : (t : Table) → Follows [] t t
  skipped :
      (op : CacheOp) (ops : List CacheOp) (s t : Table) → Follows ops s t → Follows (op ∷ ops) s t
  applied :
      (op : CacheOp) (ops : List CacheOp) (s t : Table)
      → Follows ops (apply_op op s) t
      → Follows (op ∷ ops) s t

module _ (sql : Sqlite) where
  open sql use {Db, committed}

  unfoldable pub run_op : CacheOp → Db → Db
  run_op (set_op now unit address values) db = set_registers sql now unit address values db
  run_op (batch_op now writes) db = batch_set sql now writes db
  run_op (purge_op cutoff) db = (delete_stale sql cutoff db).1

  -- the calls, one after the other
  unfoldable pub run_ops : List CacheOp → Db → Db
  run_ops [] db = db
  run_ops (op ∷ ops) db = run_ops ops (run_op op db)

  Follows-cons :
      (op : CacheOp) (ops : List CacheOp) (db after : Db) (t : Table)
      → (committed after ≡ committed db) ⊎ (committed after ≡ apply_op op (committed db))
      → Follows ops (committed after) t
      → Follows (op ∷ ops) (committed db) t
  Follows-cons op ops db after t (inl e) f =
      skipped op ops (committed db) t (subst (λ s. Follows ops s t) e f)
  Follows-cons op ops db after t (inr e) f =
      applied op ops (committed db) t (subst (λ s. Follows ops s t) e f)

  run_op-cases :
      (op : CacheOp) (db : Db)
      → (committed (run_op op db) ≡ committed db)
        ⊎ (committed (run_op op db) ≡ apply_op op (committed db))
  unfolding run_op apply_op
  run_op-cases (set_op now unit address values) db =
      elim (set_registers_all_or_nothing sql now unit address values db) [
        | inl e ↦ inl e
        | inr e ↦ inr (fun_ext λ u. fun_ext λ a. e u a)
      ]
  run_op-cases (batch_op now writes) db = elim (batch_set_all_or_nothing sql now writes db) [
    | inl e ↦ inl e
    | inr e ↦ inr (fun_ext λ u. fun_ext λ a. e u a)
  ]
  run_op-cases (purge_op cutoff) db =
      unfold delete_stale in
      elim (Option-cases (sql.exec_delete_stale cutoff db).0) [
        | inl e ↦ inl (sql.delete_failed cutoff db e)
        | inr (n, e) ↦ inr (fun_ext λ u. fun_ext λ a. sql.delete_done cutoff db n e u a)
      ]

  run_ops-Follows :
      (ops : List CacheOp) (db : Db) → Follows ops (committed db) (committed (run_ops ops db))
  unfolding run_ops
  run_ops-Follows [] db = done (committed db)
  run_ops-Follows (op ∷ ops) db =
      Follows-cons op ops db (run_op op db) _ (run_op-cases op db)
        (run_ops-Follows ops (run_op op db))

  -- The cache refines a store whose calls happen as a whole or not at all, in their order: after any
  -- calls of `Set`, `BatchSet` and `DeleteStale`, whichever of their statements fail, there is such a
  -- store of which every answer of `Get` is a true reading.
  pub run_ops_refines :
      (ops : List CacheOp) (db : Db)
      → (store : Table) × Follows ops (committed db) store
        × ((unit address count : ℕ) (vs : List ℕ)
            → get sql unit address count (run_ops ops db) ≡ some vs
            → cached_values (store unit) address count ≡ some vs)
  run_ops_refines ops db = (
    committed (run_ops ops db),
    run_ops-Follows ops db,
    λ unit address count vs. get_sound sql unit address count (run_ops ops db) vs,
  )
