-- ===== src/Cache/ReadBack.antt =====
-- What `Get` and `GetBytes` of cache.go return after `Set`.
use mathlib.Core.Option
use huawei_proxy.Prelude.{
  ℕ, zero, suc, ◌+◌, ◌-◌, ◌*◌, ◌%◌, ◌≤◌, ◌<◌, ◌≡◌, ◌≢◌, refl, sym, ap, ◌∙◌, ◌⊎◌, inl, inr, List, [],
  ◌∷◌, true, leb, Option, none, some, length, get_elem?, ==_refl, Option-cases, arith,
}
use huawei_proxy.Bytes.{Bytes, AreBytes, AreWords, bytes_to_uint16, uint16_to_bytes}
use huawei_proxy.Bytes.RoundTrip.{
  uint16_to_bytes-bytes_to_uint16, length-bytes_to_uint16, bytes_to_uint16-AreWords,
}
use huawei_proxy.Platform.Sqlite.{Sqlite, Cell, IsReliable}
use huawei_proxy.Cache.{get, get_bytes, set_registers, set_from_bytes}
use huawei_proxy.Cache.Get.{cached_values, get_complete}
use huawei_proxy.Cache.Write.{value_at, overlay}
use huawei_proxy.Cache.Atomic.{set_registers-Applied}

-- A column that holds given words from `lo` on gives them back.
pub cached_values_of :
    (column : ℕ → Option Cell) (now : List ℕ) (vs : List ℕ) (lo : ℕ)
    → AreWords vs
    → ((i v : ℕ)
        → get_elem? vs i ≡ some v
        → column (lo + i) ≡ some (record { value = v; updated_at = now }))
    → cached_values column lo (length vs) ≡ some vs
unfolding cached_values
cached_values_of column now [] lo w h = refl
cached_values_of column now (v ∷ vs) lo (w, ws) h =
    let start : lo + 0 ≡ lo = omega arith in
    let rest =
      cached_values_of column now vs (lo + 1) ws
        (λ i x e. let l : lo + 1 + i ≡ lo + suc i = omega arith in rw l (h (suc i) x e)) in
    let m : v % 65536 ≡ v = omega arith in rw ((rw start at (h 0 v refl)), cached_values, rest, m)

cached_values_congr :
    (c c' : ℕ → Option Cell) (lo n : ℕ)
    → ((a : ℕ) → lo ≤ a → a < lo + n → c a ≡ c' a)
    → cached_values c lo n ≡ cached_values c' lo n
unfolding cached_values
cached_values_congr c c' lo zero h = refl
cached_values_congr c c' lo (suc n) h =
    let rest = cached_values_congr c c' (lo + 1) n (λ a p q. h a (omega arith) (omega arith)) in
    let first = h lo (omega arith) (omega arith) in
    elim (Option-cases (c' lo)) [
      | inl e ↦ rw (first ∙ e, cached_values) (rw (e, cached_values))
      | inr (x, e) ↦ rw (first ∙ e, cached_values) (rw (e, cached_values, rest))
    ]

pub get_elem?-none : (vs : List ℕ) (i : ℕ) → length vs ≤ i → get_elem? vs i ≡ none
get_elem?-none [] i h = refl
get_elem?-none (v ∷ vs) zero h = absurd (omega arith)
get_elem?-none (v ∷ vs) (suc i) h = get_elem?-none vs i (omega arith)

value_at_self :
    (now : List ℕ) (unit address : ℕ) (vs : List ℕ) (i v : ℕ) (old : Option Cell)
    → get_elem? vs i ≡ some v
    → overlay now (value_at unit address vs unit (address + i)) old
      ≡ some (record { value = v; updated_at = now })
unfolding overlay value_at
value_at_self now unit address vs i v old e =
    let k : address + i - address ≡ i = omega arith in
    let b : leb address (address + i) ≡ true = ground arith in rw (==_refl unit, b, k, e)

value_at_outside :
    (now : List ℕ) (unit address : ℕ) (vs : List ℕ) (u a : ℕ) (old : Option Cell)
    → (u ≢ unit) ⊎ (a < address) ⊎ (address + length vs ≤ a)
    → overlay now (value_at unit address vs u a) old ≡ old
unfolding overlay value_at
value_at_outside now unit address vs u a old apart = ground (arith, get_elem?-none vs (a - address))

pub set_registers-at :
    (sql : Sqlite) (fine : IsReliable sql) (now : List ℕ) (unit address : ℕ) (vs : List ℕ)
    (db : sql.Db) (i v : ℕ)
    → get_elem? vs i ≡ some v
    → sql.committed (set_registers sql now unit address vs db) unit (address + i)
      ≡ some (record { value = v; updated_at = now })
set_registers-at sql fine now unit address vs db i v e =
    set_registers-Applied sql now fine unit address vs db unit (address + i)
    ∙ value_at_self now unit address vs i v _ e

module _ (sql : Sqlite) (fine : IsReliable sql) (now : List ℕ) (unit address : ℕ) (vs : List ℕ)
    (db : sql.Db) where
  -- On an engine where nothing fails, `Get` of the range that `Set` wrote returns the values.
  pub get-set_self :
      AreWords vs
      → get sql unit address (length vs) (set_registers sql now unit address vs db) ≡ some vs
  get-set_self w =
      let db' = set_registers sql now unit address vs db in
      get_complete sql unit address (length vs) db' (fine.queries unit address (length vs) db')
      ∙ cached_values_of (sql.committed db' unit) now vs address w
          (set_registers-at sql fine now unit address vs db)

  -- `Set` changes no range that it does not meet: another unit, or addresses before or behind.
  pub get-set_ne :
      (unit' address' count : ℕ)
      → (unit' ≢ unit) ⊎ (address' + count ≤ address) ⊎ (address + length vs ≤ address')
      → get sql unit' address' count (set_registers sql now unit address vs db)
        ≡ get sql unit' address' count db
  get-set_ne unit' address' count apart =
      let db' = set_registers sql now unit address vs db in
      get_complete sql unit' address' count db' (fine.queries unit' address' count db')
      ∙ cached_values_congr (sql.committed db' unit') (sql.committed db unit') address' count
          (λ a p q.
            set_registers-Applied sql now fine unit address vs db unit' a
            ∙ value_at_outside now unit address vs unit' a _ (ground arith))
      ∙ sym (get_complete sql unit' address' count db (fine.queries unit' address' count db))

-- On an engine where nothing fails, the bytes of `count` registers that `SetFromBytes` stores are the
-- bytes that `GetBytes` of the same range returns.
pub get_bytes-set_from_bytes :
    (sql : Sqlite) (fine : IsReliable sql) (now : List ℕ) (unit address count : ℕ) (bs : Bytes)
    (db : sql.Db)
    → AreBytes bs
    → length bs ≡ 2 * count
    → get_bytes sql unit address count (set_from_bytes sql now unit address bs db) ≡ some bs
unfolding get_bytes set_from_bytes
get_bytes-set_from_bytes sql fine now unit address count bs db b l =
    let n = length-bytes_to_uint16 count bs l in
    let stored =
      get-set_self sql fine now unit address (bytes_to_uint16 bs) db
        (bytes_to_uint16-AreWords bs b) in
    ap (Option.map uint16_to_bytes) (rw n at stored)
    ∙ ap some (uint16_to_bytes-bytes_to_uint16 count bs b l)
