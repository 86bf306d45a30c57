-- ===== src/Reader/Cycle/Right.antt =====
-- The batch of a cycle of reader.go holds what the inverter holds, for a group that meets no other.
use mathlib.Core.Path.{subst}
use mathlib.Core.Option
use huawei_proxy.Prelude.{
  ℕ, ◌+◌, ◌-◌, ◌*◌, ◌≤◌, ◌<◌, ◌≡◌, ◌≢◌, refl, sym, ap, ◌∙◌, ◌⊎◌, inl, inr, Bool-cases, List, [],
  ◌∷◌, Option, none, some, Option-cases, some-injective, All, leb, length, get_elem?, arith,
}
use huawei_proxy.Bytes.{Bytes, AreBytes, bytes_to_uint16}
use huawei_proxy.Bytes.RoundTrip.{length-bytes_to_uint16, bytes_to_uint16-AreWords}
use huawei_proxy.Errors.{Result, ok, err}
use huawei_proxy.Platform.{Platform, cancelled}
use huawei_proxy.Platform.Sqlite.{IsReliable}
use huawei_proxy.Cache.{PendingWrite, get}
use huawei_proxy.Cache.Atomic.{batch_set-Applied}
use huawei_proxy.Cache.Get.{get_complete}
use huawei_proxy.Cache.Order.{value_at_inside}
use huawei_proxy.Cache.ReadBack.{get_elem?-none, cached_values_of}
use huawei_proxy.Cache.Write.{value_at, latest, overlay}
use huawei_proxy.Client.{World, read, read_registers}
use huawei_proxy.Reader.Group.{read_group}
use huawei_proxy.Reader.Group.Outcome.{Outcome, read_group-Outcome}
use huawei_proxy.Reader.Scan.{UnitGroup, pending_write, flush}
use huawei_proxy.Reader.Scan.Covered.{HasGroup, latest-some}
use huawei_proxy.Reader.Scan.Live.{transact-result}
use huawei_proxy.Reader.Cycle.{add_read, poll_groups}

get_elem?_bound : (vs : List ℕ) (i v : ℕ) → get_elem? vs i ≡ some v → i < length vs
get_elem?_bound vs i v e = elim (Bool-cases (leb (length vs) i)) [
  | inl over ↦ let gone : get_elem? vs i ≡ none = get_elem?-none vs i (ground arith) in absurd (cc)
  | inr within ↦ ground arith
]

-- A read that succeeds gives the registers that were asked for, no more and no less.
abbrev pub IsSized : Platform → Type 0
IsSized p =
    (unit address count : ℕ) (link : p.modbus.Link) (bytes : Bytes)
    → (p.modbus.read_holding_registers unit address count link).0 ≡ ok bytes
    → length bytes ≡ 2 * count

-- The inverter answers each request for the group with these bytes.
abbrev pub Holds : Platform → UnitGroup → Bytes → Type 0
Holds p ug bytes =
    (link : p.modbus.Link)
    → (p.modbus.read_holding_registers ug.unit_id ug.group.address ug.group.count link).0 ≡ ok bytes

-- It is the same group, or of another unit, or its range does not meet that of the group.
abbrev pub KeepsOff : UnitGroup → UnitGroup → Type 0
KeepsOff ug x =
    (ug ≡ x)
    ⊎ (ug.unit_id ≢ x.unit_id)
    ⊎ (ug.group.address + ug.group.count ≤ x.group.address)
    ⊎ (x.group.address + x.group.count ≤ ug.group.address)

module _ (p : Platform) (live : p.cancel_at ≡ none) (sized : IsSized p) (ug : UnitGroup)
    (bytes : Bytes) (holds : Holds p ug bytes) where
  -- What the write has for a register of the group is what the inverter holds.
  abbrev pub IsRight : PendingWrite → Type 0
  IsRight w =
      (a x : ℕ)
      → ug.group.address ≤ a
      → a < ug.group.address + ug.group.count
      → value_at w.unit_id w.address w.values ug.unit_id a ≡ some x
      → get_elem? (bytes_to_uint16 bytes) (a - ug.group.address) ≡ some x

  latest-IsRight :
      (ws : List PendingWrite) (a x : ℕ)
      → All IsRight ws
      → ug.group.address ≤ a
      → a < ug.group.address + ug.group.count
      → latest ws ug.unit_id a ≡ some x
      → get_elem? (bytes_to_uint16 bytes) (a - ug.group.address) ≡ some x
  unfolding latest
  latest-IsRight [] a x h l k e = absurd (cc)
  latest-IsRight (w ∷ ws) a x (h, hs) l k e = elim (Option-cases (latest ws ug.unit_id a)) [
    | inl n ↦ h a x l k (rw (n, latest) at e)
    | inr (y, n) ↦ latest-IsRight ws a x hs l k (n ∙ (rw (n, latest) at e))
  ]

  -- what `readGroup` returns, the inverter gave
  given :
      (x : UnitGroup) (w : World p) (got : Bytes)
      → (read_group p x.unit_id x.group w).0 ≡ ok got
      → (link : p.modbus.Link) × ((p.modbus.read_holding_registers x.unit_id x.group.address
            x.group.count link).0
          ≡ ok got)
  unfolding read_registers
  given x w got e =
      let out = read_group p x.unit_id x.group w in
      let (live, asked) =
        subst (λ r. Outcome p x.unit_id x.group w r out.1) e
          (read_group-Outcome p x.unit_id x.group w) in
      (
        asked.asked.link,
        sym (
              transact-result p x.unit_id (read x.group.address x.group.count)
                (λ slave. p.modbus.read_holding_registers slave x.group.address x.group.count)
                asked.asked)
            ∙ ap (λ (y : Result Bytes × World p). y.0) asked.answered,
      )

  pending_write-IsRight :
      (x : UnitGroup) (w : World p) (got : Bytes)
      → KeepsOff ug x
      → (read_group p x.unit_id x.group w).0 ≡ ok got
      → IsRight (pending_write x got)
  pending_write-IsRight x w got off e a v l k there =
      let (link, answer) = given x w got e in
      let (unit, low, high, value) =
        value_at_inside x.unit_id x.group.address (bytes_to_uint16 got) ug.unit_id a v there in
      elim off [
        | inl same ↦
            let known : ok bytes ≡ ok got =
              sym (holds link)
              ∙ subst
                  (λ (y : UnitGroup).
                    (p.modbus.read_holding_registers y.unit_id y.group.address y.group.count link).0
                    ≡ ok got)
                  (sym same) answer in
            let alike : bytes ≡ got = cc in rw (alike, same) value
        | inr apart ↦
            let size =
              length-bytes_to_uint16 x.group.count got
                (sized x.unit_id x.group.address x.group.count link got answer) in
            absurd (ground (arith, size, apart))
      ]

  add_read-IsRight :
      (x : UnitGroup) (w : World p) (r : Result Bytes) (rest : Option (List PendingWrite))
      (batch : List PendingWrite)
      → KeepsOff ug x
      → (read_group p x.unit_id x.group w).0 ≡ r
      → ((more : List PendingWrite) → rest ≡ some more → All IsRight more)
      → Option.map (add_read x r) rest ≡ some batch
      → All IsRight batch
  add_read-IsRight x w r none batch off e h there = absurd (cc)
  add_read-IsRight x w (err g) (some more) batch off e h there = h batch there
  add_read-IsRight x w (ok got) (some more) batch off e h there =
      subst (All IsRight) (some-injective there) (pending_write-IsRight x w got off e, h more refl)

  pub poll_groups-IsRight :
      (ugs : List UnitGroup) (w : World p) (batch : List PendingWrite)
      → All (KeepsOff ug) ugs
      → (poll_groups p ugs w).0 ≡ some batch
      → All IsRight batch
  unfolding poll_groups cancelled
  poll_groups-IsRight [] w batch off e = subst (All IsRight) (some-injective e) tt
  poll_groups-IsRight (x ∷ xs) w batch (off, rest) e =
      let (r, v) = read_group p x.unit_id x.group w in
      add_read-IsRight x w r (poll_groups p xs v).0 batch off refl
        (λ more. poll_groups-IsRight xs v more rest) (rw (live, cancelled) at e)

  module _ (fine : IsReliable p.sql) (b : AreBytes bytes) where
    pub flush-fresh :
        (batch : List PendingWrite) (w : World p)
        → All IsRight batch
        → HasGroup ug batch
        → get p.sql ug.unit_id ug.group.address ug.group.count (flush p batch w).db
          ≡ some (bytes_to_uint16 bytes)
    unfolding flush overlay
    flush-fresh batch w right has =
        let now = p.format w.clock in
        let after = (flush p batch w).db in
        let values = bytes_to_uint16 bytes in
        let size : length values ≡ ug.group.count =
          length-bytes_to_uint16 ug.group.count bytes
            (sized ug.unit_id ug.group.address ug.group.count w.link bytes (holds w.link)) in
        get_complete p.sql ug.unit_id ug.group.address ug.group.count after
          (fine.queries ug.unit_id ug.group.address ug.group.count after)
        ∙ (rw size at (
            cached_values_of (p.sql.committed after ug.unit_id) now values ug.group.address
              (bytes_to_uint16-AreWords bytes b)
              (λ i v e.
                let a = ug.group.address + i in
                let low : ug.group.address ≤ a = omega arith in
                let high : a < ug.group.address + ug.group.count =
                  omega (arith, get_elem?_bound values i v e, size) in
                let (x, shown) = latest-some ug batch a has low high in
                let offset : a - ug.group.address ≡ i = omega arith in
                let same : get_elem? values i ≡ some x =
                  rw offset at (latest-IsRight batch a x right low high shown) in
                let value : x ≡ v = some-injective (sym same ∙ e) in
                batch_set-Applied p.sql now fine batch w.db ug.unit_id a
                ∙ ap (λ o. overlay now o (p.sql.committed w.db ug.unit_id a)) shown
                ∙ rw value refl)))
