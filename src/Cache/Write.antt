-- ===== src/Cache/Write.antt =====
-- `Set` and `BatchSet` of cache.go write everything or nothing.
use huawei_proxy.Prelude.{
  ℕ, suc, ◌+◌, ◌-◌, ◌<◌, ◌≡◌, refl, ap, ◌∙◌, ◌⊎◌, inl, inr, List, [], ◌∷◌, Bool, true, false,
  Option, none, some, get_elem?, Option-cases, Bool-cases, leb, ◌&&◌, ◌==◌, arith, if◌then◌else◌,
}
use huawei_proxy.Platform.Sqlite.{Sqlite, Cell, Table, upsert}
use huawei_proxy.Cache.{PendingWrite, exec_values, exec_writes, finish}

-- The value that the words `values`, laid out from `start` in `unit`, give to the key (u, a).
unfoldable pub value_at : ℕ → ℕ → List ℕ → ℕ → ℕ → Option ℕ
value_at unit start values u a =
    if u == unit && leb start a then get_elem? values (a - start) else none

-- The value of the last group of `writes` that covers the key: a later write wins.
unfoldable pub latest : List PendingWrite → ℕ → ℕ → Option ℕ
latest [] u a = none
latest (w ∷ ws) u a = elim (latest ws u a) [
  | none ↦ value_at w.unit_id w.address w.values u a
  | some v ↦ some v
]

-- A key that is written holds the new value and time, any other what it held before.
unfoldable pub overlay : List ℕ → Option ℕ → Option Cell → Option Cell
overlay now none old = old
overlay now (some v) old = some (record { value = v; updated_at = now })

get_elem?-sub :
    (v : ℕ) (vs : List ℕ) (start a : ℕ)
    → start < a
    → get_elem? (v ∷ vs) (a - start) ≡ get_elem? vs (a - (start + 1))
get_elem?-sub v vs start a h = let e : a - start ≡ suc (a - (start + 1)) = omega arith in rw e

get_elem?-sub_self : (v : ℕ) (vs : List ℕ) (a : ℕ) → get_elem? (v ∷ vs) (a - a) ≡ some v
get_elem?-sub_self v vs a = let e : a - a ≡ 0 = omega arith in rw e

overlay-upsert :
    (now : List ℕ) (unit start v : ℕ) (vs : List ℕ) (t : Table) (u a : ℕ)
    → overlay now
        (value_at unit (start + 1) vs u a)
        (upsert unit start (record { value = v; updated_at = now }) t u a)
      ≡ overlay now (value_at unit start (v ∷ vs) u a) (t u a)
unfolding overlay value_at upsert
overlay-upsert now unit start v vs t u a =
    ground (arith, get_elem?-sub v vs start a, get_elem?-sub_self v vs a)

module _ (sql : Sqlite) (now : List ℕ) where
  open sql use {Db, Tx, pending, base, committed}

  -- Where every statement of the loop of `Set` succeeds, the transaction shows the new values.
  pub exec_values-pending :
      (unit address i : ℕ) (vs : List ℕ) (tx : Tx)
      → (exec_values sql unit address now i vs tx).0 ≡ true
      → (u a : ℕ)
      → pending (exec_values sql unit address now i vs tx).1 u a
        ≡ overlay now (value_at unit (address + i) vs u a) (pending tx u a)
  unfolding exec_values
  exec_values-pending unit address i [] tx h u a = unfold overlay value_at in ground arith
  exec_values-pending unit address i (v ∷ vs) tx h u a =
      elim (Option-cases (sql.exec_upsert unit (address + i) v now tx)) [
        | inl e ↦ cc (rw (e, exec_values) at h)
        | inr (tx', e) ↦
            let l : address + (i + 1) ≡ address + i + 1 = omega arith in
            rw (e, exec_values)
              (exec_values-pending unit address (i + 1) vs tx' (rw (e, exec_values) at h) u a
                ∙ rw (l, sql.upsert_pending unit (address + i) v now tx tx' e)
                    (overlay-upsert now unit (address + i) v vs (pending tx) u a))
      ]

  pub exec_values-base :
      (unit address i : ℕ) (vs : List ℕ) (tx : Tx)
      → base (exec_values sql unit address now i vs tx).1 ≡ base tx
  unfolding exec_values
  exec_values-base unit address i [] tx = refl
  exec_values-base unit address i (v ∷ vs) tx =
      elim (Option-cases (sql.exec_upsert unit (address + i) v now tx)) [
        | inl e ↦ rw (e, exec_values)
        | inr (tx', e) ↦
            rw (e, exec_values)
              (exec_values-base unit address (i + 1) vs tx'
                ∙ sql.upsert_base unit (address + i) v now tx tx' e)
      ]

  overlay-latest :
      (w : PendingWrite) (ws : List PendingWrite) (u a : ℕ) (old : Option Cell)
      → overlay now (latest ws u a) (overlay now (value_at w.unit_id w.address w.values u a) old)
        ≡ overlay now (latest (w ∷ ws) u a) old
  unfolding overlay latest
  overlay-latest w ws u a old = ground arith

  pub exec_writes-pending :
      (ws : List PendingWrite) (tx : Tx)
      → (exec_writes sql now ws tx).0 ≡ true
      → (u a : ℕ)
      → pending (exec_writes sql now ws tx).1 u a ≡ overlay now (latest ws u a) (pending tx u a)
  unfolding exec_writes
  exec_writes-pending [] tx h u a = unfold overlay latest in refl
  exec_writes-pending (w ∷ ws) tx h u a =
      let first = exec_values sql w.unit_id w.address now 0 w.values tx in
      elim (Bool-cases first.0) [
        | inl e ↦
            let start : w.address + 0 ≡ w.address = omega arith in
            rw e (
              exec_writes-pending ws first.1 (rw e at h) u a
              ∙ ap (overlay now (latest ws u a))
                  (rw start at (exec_values-pending w.unit_id w.address 0 w.values tx e u a))
              ∙ overlay-latest w ws u a (pending tx u a))
        | inr e ↦ cc (rw e at h)
      ]

  pub exec_writes-base :
      (ws : List PendingWrite) (tx : Tx) → base (exec_writes sql now ws tx).1 ≡ base tx
  unfolding exec_writes
  exec_writes-base [] tx = refl
  exec_writes-base (w ∷ ws) tx =
      let first = exec_values sql w.unit_id w.address now 0 w.values tx in
      let before = exec_values-base w.unit_id w.address 0 w.values tx in
      elim (Bool-cases first.0) [
        | inl e ↦ rw e (exec_writes-base ws first.1 ∙ before)
        | inr e ↦ rw e before
      ]

  -- A transaction ends with what it shows, or with what was there before it.
  pub finish_cases :
      (r : Bool × Tx)
      → (committed (finish sql r) ≡ base r.1)
        ⊎ ((r.0 ≡ true) × (committed (finish sql r) ≡ pending r.1))
  unfolding finish
  finish_cases (false, tx) = inl (sql.rollback_base tx)
  finish_cases (true, tx) = elim (Bool-cases (sql.commit tx).0) [
    | inl e ↦ inr (refl, sql.commit_done tx e)
    | inr e ↦ inl (sql.commit_failed tx e)
  ]
