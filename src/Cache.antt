-- ===== src/Cache.antt =====
-- cache.go: the register cache. A `RegisterCache` is the database with its prepared statements; each
-- method takes the database's state and, where it calls `time.Now`, the formatted time. A method
-- that only logs an error returns the state that the error left.
pub mod Get
pub mod Write
pub mod Atomic
pub mod Order
pub mod ReadBack
pub mod Stale
pub mod Store
pub mod Open
pub mod All
use huawei_proxy.Prelude.{
  ℕ, zero, suc, ◌+◌, ◌-◌, ◌%◌, ◌≡◌, Bool, true, false, ◌||◌, List, [], ◌∷◌, Option, none, some, ltb,
  leb, ◌==◌, if◌then◌else◌, set, replicate,
}
use mathlib.Core.Option
use huawei_proxy.Bytes.{Bytes, bytes_to_uint16, uint16_to_bytes}
use huawei_proxy.Platform.Sqlite.{Sqlite}

-- `PendingWrite`
pub record PendingWrite : Type 0 where
  pub unit_id : ℕ
  pub address : ℕ
  pub values : List ℕ

-- the loop over the rows of `Get`, and its check at the end
unfoldable pub fill : ℕ → ℕ → List (Option (ℕ × ℕ)) → List ℕ → ℕ → Option (List ℕ)
fill address count [] result found = if found == count then some result else none
fill address count (none ∷ rows) result found = none
fill address count (some (addr, val) ∷ rows) result found =
    let idx = addr - address in
    let outside = ltb addr address || leb count idx in
    fill address count rows (if outside then result else set result idx (val % 65536))
      (if outside then found else found + 1)

module _ (sql : Sqlite) where
  open sql use {Db, Tx, begin, exec_upsert, commit, rollback}

  -- the loop of `Set` over its values; `false` where a statement failed
  unfoldable pub exec_values : ℕ → ℕ → List ℕ → ℕ → List ℕ → Tx → Bool × Tx
  exec_values unit address now i [] tx = (true, tx)
  exec_values unit address now i (v ∷ vs) tx = elim (exec_upsert unit (address + i) v now tx) [
    | none ↦ (false, tx)
    | some tx' ↦ exec_values unit address now (i + 1) vs tx'
  ]

  -- the two nested loops of `BatchSet`
  unfoldable pub exec_writes : List ℕ → List PendingWrite → Tx → Bool × Tx
  exec_writes now [] tx = (true, tx)
  exec_writes now (w ∷ ws) tx =
      let (done, tx') = exec_values w.unit_id w.address now 0 w.values tx in
      let rest = exec_writes now ws tx' in if done then rest else (false, tx')

  -- `tx.Rollback()` after a failed statement, else `tx.Commit()`
  unfoldable pub finish : Bool × Tx → Db
  finish (true, tx) = (commit tx).1
  finish (false, tx) = rollback tx

  -- `Set`
  unfoldable pub set_registers : List ℕ → ℕ → ℕ → List ℕ → Db → Db
  unfolding exec_values finish
  set_registers now unit address values db = elim (begin db) [
    | none ↦ db
    | some tx ↦ finish (exec_values unit address now 0 values tx)
  ]

  -- `SetFromBytes`
  unfoldable pub set_from_bytes : List ℕ → ℕ → ℕ → Bytes → Db → Db
  unfolding set_registers bytes_to_uint16
  set_from_bytes now unit address bytes db =
      set_registers now unit address (bytes_to_uint16 bytes) db

  -- `BatchSet`
  unfoldable pub batch_set : List ℕ → List PendingWrite → Db → Db
  unfolding exec_writes finish
  batch_set now [] db = db
  batch_set now (w ∷ ws) db = elim (begin db) [
    | none ↦ db
    | some tx ↦ finish (exec_writes now (w ∷ ws) tx)
  ]

  -- `Get`: `none` is `nil`
  unfoldable pub get : ℕ → ℕ → ℕ → Db → Option (List ℕ)
  unfolding fill
  get unit address count db = elim (sql.query_get unit address (address + count) db) [
    | none ↦ none
    | some rows ↦ fill address count rows (replicate count 0) 0
  ]

  -- `GetBytes`
  unfoldable pub get_bytes : ℕ → ℕ → ℕ → Db → Option Bytes
  unfolding get uint16_to_bytes
  get_bytes unit address count db = Option.map uint16_to_bytes (get unit address count db)

  -- `Size`
  unfoldable pub size : Db → ℕ
  size db = Option.get_or (sql.query_count db) 0

  -- `DeleteStale`; its argument is the formatted `time.Now().UTC().Add(-maxAge)`
  unfoldable pub delete_stale : List ℕ → Db → ℕ × Db
  delete_stale cutoff db =
      let (result, db') = sql.exec_delete_stale cutoff db in (Option.get_or result 0, db')
