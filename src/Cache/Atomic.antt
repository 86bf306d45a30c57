-- ===== src/Cache/Atomic.antt =====
-- The transactions of `Set` and `BatchSet` of cache.go, seen from the committed table.
use huawei_proxy.Prelude.{
  ℕ, ◌+◌, ◌≡◌, refl, ap, ◌∙◌, ◌⊎◌, inl, inr, List, [], ◌∷◌, Bool, true, false, Option, some,
  Option-cases, arith,
}
use huawei_proxy.Platform.Sqlite.{Sqlite, IsReliable}
use huawei_proxy.Cache.{PendingWrite, exec_values, exec_writes, finish, set_registers, batch_set}
use huawei_proxy.Cache.Write.{
  value_at, latest, overlay, exec_values-pending, exec_values-base, exec_writes-pending,
  exec_writes-base, finish_cases,
}

module _ (sql : Sqlite) (now : List ℕ) where
  open sql use {Db, Tx, committed}

  -- The committed table `after` shows the outcome of a transaction that gives the values `written`.
  abbrev pub Applied : (ℕ → ℕ → Option ℕ) → Db → Db → Type 0
  Applied written before after =
      (u a : ℕ) → committed after u a ≡ overlay now (written u a) (committed before u a)

  finish_all_or_nothing :
      (written : ℕ → ℕ → Option ℕ) (db : Db) (tx : Tx) (r : Bool × Tx)
      → sql.begin db ≡ some tx
      → sql.base r.1 ≡ sql.base tx
      → (r.0 ≡ true
          → (u a : ℕ) → sql.pending r.1 u a ≡ overlay now (written u a) (sql.pending tx u a))
      → (committed (finish sql r) ≡ committed db) ⊎ Applied written db (finish sql r)
  finish_all_or_nothing written db tx r e b done = elim (finish_cases sql now r) [
    | inl same ↦ inl (same ∙ b ∙ sql.begin_base db tx e)
    | inr (ok, new) ↦ inr λ u a.
        ap (λ (t : ℕ → ℕ → Option _). t u a) new
        ∙ done ok u a
        ∙ ap (λ (t : ℕ → ℕ → Option _). overlay now (written u a) (t u a))
            (sql.begin_pending db tx e)
  ]

  -- `BatchSet` is one transaction: whatever fails, the table is afterwards either as it was or shows
  -- every group, the last one that covers a register winning, with the time of the call.
  pub batch_set_all_or_nothing :
      (ws : List PendingWrite) (db : Db)
      → (committed (batch_set sql now ws db) ≡ committed db)
        ⊎ Applied (latest ws) db (batch_set sql now ws db)
  unfolding batch_set
  batch_set_all_or_nothing [] db = inl refl
  batch_set_all_or_nothing (w ∷ ws) db = elim (Option-cases (sql.begin db)) [
    | inl e ↦ rw (e, batch_set) (inl refl)
    | inr (tx, e) ↦
        rw (e, batch_set)
          (finish_all_or_nothing (latest (w ∷ ws)) db tx (exec_writes sql now (w ∷ ws) tx) e
            (exec_writes-base sql now (w ∷ ws) tx) (exec_writes-pending sql now (w ∷ ws) tx))
  ]

  -- `Set` is one transaction too.
  pub set_registers_all_or_nothing :
      (unit address : ℕ) (vs : List ℕ) (db : Db)
      → (committed (set_registers sql now unit address vs db) ≡ committed db)
        ⊎ Applied (value_at unit address vs) db (set_registers sql now unit address vs db)
  unfolding set_registers
  set_registers_all_or_nothing unit address vs db = elim (Option-cases (sql.begin db)) [
    | inl e ↦ rw (e, set_registers) (inl refl)
    | inr (tx, e) ↦
        let start : address + 0 ≡ address = omega arith in
        rw (e, set_registers)
          (finish_all_or_nothing (value_at unit address vs) db tx
            (exec_values sql unit address now 0 vs tx) e
            (exec_values-base sql now unit address 0 vs tx)
            (rw start at (exec_values-pending sql now unit address 0 vs tx)))
  ]

  module _ (fine : IsReliable sql) where
    exec_values_succeeds :
        (unit address i : ℕ) (vs : List ℕ) (tx : Tx)
        → (exec_values sql unit address now i vs tx).0 ≡ true
    unfolding exec_values
    exec_values_succeeds unit address i [] tx = refl
    exec_values_succeeds unit address i (v ∷ vs) tx =
        let (tx', e) = fine.upserts unit (address + i) v now tx in
        rw (e, exec_values) (exec_values_succeeds unit address (i + 1) vs tx')

    exec_writes_succeeds : (ws : List PendingWrite) (tx : Tx) → (exec_writes sql now ws tx).0 ≡ true
    unfolding exec_writes
    exec_writes_succeeds [] tx = refl
    exec_writes_succeeds (w ∷ ws) tx =
        rw (exec_values_succeeds w.unit_id w.address 0 w.values tx) (exec_writes_succeeds ws _)

    finish_commits : (r : Bool × Tx) → r.0 ≡ true → committed (finish sql r) ≡ sql.pending r.1
    unfolding finish
    finish_commits (true, tx) e = sql.commit_done tx (fine.commits tx)
    finish_commits (false, tx) e = cc

    -- On an engine where nothing fails, `Set` stores its values, and changes no other register.
    pub set_registers-Applied :
        (unit address : ℕ) (vs : List ℕ) (db : Db)
        → Applied (value_at unit address vs) db (set_registers sql now unit address vs db)
    unfolding set_registers
    set_registers-Applied unit address vs db u a =
        let (tx, e) = fine.begins db in
        let start : address + 0 ≡ address = omega arith in
        let done = exec_values_succeeds unit address 0 vs tx in
        rw (e, set_registers)
          (ap (λ (t : ℕ → ℕ → Option _). t u a)
              (finish_commits (exec_values sql unit address now 0 vs tx) done)
            ∙ (rw start at (exec_values-pending sql now unit address 0 vs tx done u a))
            ∙ ap (λ (t : ℕ → ℕ → Option _). overlay now (value_at unit address vs u a) (t u a))
                (sql.begin_pending db tx e))

    -- On an engine where nothing fails, `BatchSet` stores every group.
    pub batch_set-Applied :
        (ws : List PendingWrite) (db : Db) → Applied (latest ws) db (batch_set sql now ws db)
    unfolding batch_set
    batch_set-Applied [] db u a = unfold overlay latest in refl
    batch_set-Applied (w ∷ ws) db u a =
        let (tx, e) = fine.begins db in
        let done = exec_writes_succeeds (w ∷ ws) tx in
        rw (e, batch_set)
          (ap (λ (t : ℕ → ℕ → Option _). t u a)
              (finish_commits (exec_writes sql now (w ∷ ws) tx) done)
            ∙ exec_writes-pending sql now (w ∷ ws) tx done u a
            ∙ ap (λ (t : ℕ → ℕ → Option _). overlay now (latest (w ∷ ws) u a) (t u a))
                (sql.begin_pending db tx e))
