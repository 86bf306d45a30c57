-- ===== src/Reader/Scan/Covered.antt =====
-- A batch that has the write of a whole group covers the group's registers in the cache.
use huawei_proxy.Prelude.{
  ℕ, zero, suc, ◌+◌, ◌-◌, ◌%◌, ◌≤◌, ◌<◌, ◌≡◌, refl, sym, ◌⊎◌, inl, inr, Bool, List, [], ◌∷◌, Option,
  some, length, get_elem?, leb, ◌==◌, Option-cases, arith,
}
use huawei_proxy.Platform.{Platform}
use huawei_proxy.Platform.Sqlite.{Cell}
use huawei_proxy.Cache.{PendingWrite}
use huawei_proxy.Cache.Get.{cached_values}
use huawei_proxy.Cache.Write.{value_at, latest}
use huawei_proxy.Reader.Scan.{UnitGroup}

-- One of the writes is that of the whole group.
abbrev pub HasGroup : UnitGroup → List PendingWrite → Type 0
HasGroup ug [] = ⊥
HasGroup ug (w ∷ ws) =
    ((w.unit_id ≡ ug.unit_id) × (w.address ≡ ug.group.address) × (length w.values ≡ ug.group.count))
    ⊎ HasGroup ug ws

get_elem?-some : (vs : List ℕ) (i : ℕ) → i < length vs → (v : ℕ) × (get_elem? vs i ≡ some v)
get_elem?-some [] i h = absurd (omega arith)
get_elem?-some (v ∷ vs) zero h = (v, refl)
get_elem?-some (v ∷ vs) (suc i) h = get_elem?-some vs i (omega arith)

value_at-some :
    (unit u start a : ℕ) (vs : List ℕ)
    → u ≡ unit
    → start ≤ a
    → a < start + length vs
    → (v : ℕ) × (value_at unit start vs u a ≡ some v)
unfolding value_at
value_at-some unit u start a vs same l h =
    let (v, e) = get_elem?-some vs (a - start) (omega arith) in
    let above : leb start a ≡ Bool.true = ground arith in
    let ours : (u == unit) ≡ Bool.true = ground arith in (v, rw (ours, above) e)

pub latest-some :
    (ug : UnitGroup) (ws : List PendingWrite) (a : ℕ)
    → HasGroup ug ws
    → ug.group.address ≤ a
    → a < ug.group.address + ug.group.count
    → (v : ℕ) × (latest ws ug.unit_id a ≡ some v)
unfolding latest
latest-some ug [] a m l h = elim m [ ]
latest-some ug (w ∷ ws) a m l h = elim (Option-cases (latest ws ug.unit_id a)) [
  | inr (v, e) ↦ (v, rw (e, latest) refl)
  | inl n ↦ elim m [
    | inl (u, s, len) ↦
        let (v, e) =
          value_at-some w.unit_id ug.unit_id w.address a w.values (sym u) (omega arith)
            (omega arith) in
        (v, rw (n, latest) e)
    | inr later ↦ let (v, e) = latest-some ug ws a later l h in absurd (cc)
  ]
]

-- Every register of the group is in the table.
abbrev pub IsCached : (p : Platform) → UnitGroup → p.sql.Db → Type 0
IsCached p ug db =
    (a : ℕ)
    → ug.group.address ≤ a
    → a < ug.group.address + ug.group.count
    → (c : Cell) × (p.sql.committed db ug.unit_id a ≡ some c)

pub cached_values-some :
    (column : ℕ → Option Cell) (lo n : ℕ)
    → ((a : ℕ) → lo ≤ a → a < lo + n → (c : Cell) × (column a ≡ some c))
    → (vs : List ℕ) × (cached_values column lo n ≡ some vs)
unfolding cached_values
cached_values-some column lo zero h = ([], refl)
cached_values-some column lo (suc n) h =
    let (c, e) = h lo (omega arith) (omega arith) in
    let (vs, r) = cached_values-some column (lo + 1) n (λ a l b. h a (omega arith) (omega arith)) in
    ((c.value % 65536) ∷ vs, rw (e, cached_values, r) refl)
