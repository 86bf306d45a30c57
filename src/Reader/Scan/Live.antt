-- ===== src/Reader/Scan/Live.antt =====
-- What `InitialScan` of reader.go leaves cached.
use mathlib.Core.Path.{subst}
use huawei_proxy.Prelude.{
  Member, ℕ, zero, suc, ◌*◌, ◌≡◌, refl, sym, ap, ◌∙◌, inl, inr, List, [], ◌∷◌, ◌++◌, Option, none,
  some, length, Option-cases,
}
use huawei_proxy.Bytes.{Bytes}
use huawei_proxy.Bytes.RoundTrip.{length-bytes_to_uint16}
use huawei_proxy.Errors.{GoError, Result, ok, err}
use huawei_proxy.Platform.{Platform, cancelled}
use huawei_proxy.Platform.Sqlite.{IsReliable}
use huawei_proxy.Cache.{PendingWrite, get}
use huawei_proxy.Cache.Get.{get_complete}
use huawei_proxy.Cache.Write.{latest, overlay}
use huawei_proxy.Cache.Atomic.{batch_set-Applied}
use huawei_proxy.Client.{World, Call, read, transact, read_registers}
use huawei_proxy.Client.Pause.{enforce_pause-eq}
use huawei_proxy.Config.{RegisterGroup}
use huawei_proxy.Reader.{Reader}
use huawei_proxy.Reader.Group.{Attempts, read_group, attempts, after_read, conclude}
use huawei_proxy.Reader.Scan.{
  UnitGroup, Pass, unit_groups, add_outcome, scan_pass, flush, scan_passes, initial_scan,
}
use huawei_proxy.Reader.Scan.Covered.{HasGroup, IsCached, latest-some, cached_values-some}
use huawei_proxy.Reader.Scan.Genuine.{db-scan_pass}

-- The inverter answers each request for the registers of the group with all of them.
abbrev pub Answers : Platform → UnitGroup → Type 0
Answers p ug =
    (link : p.modbus.Link)
    → (bytes : Bytes) × ((p.modbus.read_holding_registers ug.unit_id ug.group.address ug.group.count
          link).0
        ≡ ok bytes)
      × (length bytes ≡ 2 * ug.group.count)

module _ (p : Platform) (fine : IsReliable p.sql) (ug : UnitGroup) where
  pub flush-new :
      (batch : List PendingWrite) (w : World p)
      → HasGroup ug batch
      → IsCached p ug (flush p batch w).db
  unfolding flush overlay
  flush-new batch w m a l h =
      let (v, e) = latest-some ug batch a m l h in
      let shown = batch_set-Applied p.sql (p.format w.clock) fine batch w.db ug.unit_id a in
      (
        record { value = v; updated_at = p.format w.clock },
        shown ∙ ap (λ o. overlay (p.format w.clock) o (p.sql.committed w.db ug.unit_id a)) e,
      )

  flush-keep :
      (batch : List PendingWrite) (w : World p)
      → IsCached p ug w.db
      → IsCached p ug (flush p batch w).db
  unfolding flush overlay
  flush-keep batch w k a l h =
      let (c, old) = k a l h in
      let shown = batch_set-Applied p.sql (p.format w.clock) fine batch w.db ug.unit_id a in
      elim (Option-cases (latest batch ug.unit_id a)) [
        | inl n ↦ (
          c,
          shown
              ∙ ap (λ o. overlay (p.format w.clock) o (p.sql.committed w.db ug.unit_id a)) n
              ∙ old,
        )
        | inr (v, e) ↦ (
          record { value = v; updated_at = p.format w.clock },
          shown ∙ ap (λ o. overlay (p.format w.clock) o (p.sql.committed w.db ug.unit_id a)) e,
        )
      ]

  -- the passes that follow a flush, by what failed
  abbrev again : ℕ → List UnitGroup → World p → World p
  again left [] w = w
  again left (x ∷ xs) w = scan_passes p left (x ∷ xs) w

  scan_passes-again :
      (left : ℕ) (pending : List UnitGroup) (w : World p)
      → scan_passes p (suc left) pending w
        ≡ again left
            (scan_pass p pending w).0.failed
            (flush p (scan_pass p pending w).0.batch (scan_pass p pending w).1)
  unfolding scan_passes
  scan_passes-again left pending w =
      elim (scan_pass p pending w).0.failed
        as (λ failed.
          elim failed [
            | [] ↦ flush p (scan_pass p pending w).0.batch (scan_pass p pending w).1
            | x ∷ xs ↦
                scan_passes p left (x ∷ xs)
                  (flush p (scan_pass p pending w).0.batch (scan_pass p pending w).1)
          ]
          ≡ again left failed (flush p (scan_pass p pending w).0.batch (scan_pass p pending w).1)) [
            | [] ↦ refl
            | x ∷ xs ↦ refl
          ]

  again-keep :
      (left : ℕ) (failed : List UnitGroup) (w : World p)
      → ((pending : List UnitGroup) (w' : World p)
          → IsCached p ug w'.db
          → IsCached p ug (scan_passes p left pending w').db)
      → IsCached p ug w.db
      → IsCached p ug (again left failed w).db
  again-keep left [] w keep k = k
  again-keep left (x ∷ xs) w keep k = keep (x ∷ xs) w k

  scan_passes-keep :
      (left : ℕ) (pending : List UnitGroup) (w : World p)
      → IsCached p ug w.db
      → IsCached p ug (scan_passes p left pending w).db
  scan_passes-keep zero pending w k = unfold scan_passes in k
  scan_passes-keep (suc left) pending w k = rw (scan_passes-again left pending w) (
      again-keep left (scan_pass p pending w).0.failed
        (flush p (scan_pass p pending w).0.batch (scan_pass p pending w).1) (scan_passes-keep left)
        (flush-keep (scan_pass p pending w).0.batch (scan_pass p pending w).1
          (rw (db-scan_pass p pending w) k)))

module _ (p : Platform) where
  pub transact-result :
      (unit : ℕ) (call : Call) (perform : ℕ → p.modbus.Link → Result Bytes × p.modbus.Link × ℕ)
      (w : World p)
      → (transact p unit call perform w).0 ≡ (perform unit w.link).0
  unfolding transact
  transact-result unit call perform w = rw (enforce_pause-eq (record w { slave_id = unit })) refl

  conclude-after_read_ok :
      (g : RegisterGroup) (continue : Option GoError → World p → Attempts p) (attempt : ℕ)
      (r : Result Bytes) (w : World p) (bytes : Bytes)
      → r ≡ ok bytes
      → (conclude p g (after_read p continue attempt (r, w))).0 ≡ ok bytes
  unfolding conclude after_read
  conclude-after_read_ok g continue attempt r w bytes e = rw (e, after_read, conclude) refl

  -- The first attempt is answered.
  pub read_group-answered :
      (ug : UnitGroup) (w : World p)
      → p.cancel_at ≡ none
      → Answers p ug
      → (bytes : Bytes) × ((read_group p ug.unit_id ug.group w).0 ≡ ok bytes)
        × (length bytes ≡ 2 * ug.group.count)
  unfolding read_group attempts cancelled read_registers
  read_group-answered ug w live h =
      let (bytes, e, l) = h w.link in
      let asked =
        transact-result ug.unit_id (read ug.group.address ug.group.count)
          (λ slave. p.modbus.read_holding_registers slave ug.group.address ug.group.count) w in
      (
        bytes,
        rw (live, cancelled)
            (conclude-after_read_ok ug.group _ 1
              (read_registers p ug.unit_id ug.group.address ug.group.count w).0
              (read_registers p ug.unit_id ug.group.address ug.group.count w).1 bytes (asked ∙ e)),
        l,
      )

  add_outcome-HasGroup :
      (ug x : UnitGroup) (r : Result Bytes) (rest : Pass)
      → HasGroup ug rest.batch
      → HasGroup ug (add_outcome x r rest).batch
  add_outcome-HasGroup ug x (ok bytes) rest h = inr h
  add_outcome-HasGroup ug x (err e) rest h = h

  scan_pass-HasGroup :
      (ug : UnitGroup) (pending : List UnitGroup) (w : World p)
      → p.cancel_at ≡ none
      → Answers p ug
      → Member ug pending
      → HasGroup ug (scan_pass p pending w).0.batch
  unfolding scan_pass
  scan_pass-HasGroup ug [] w live h m = elim m [ ]
  scan_pass-HasGroup ug (x ∷ xs) w live h (inr later) =
      add_outcome-HasGroup ug x (read_group p x.unit_id x.group w).0 _
        (scan_pass-HasGroup ug xs (read_group p x.unit_id x.group w).1 live h later)
  scan_pass-HasGroup ug (x ∷ xs) w live h (inl same) =
      let (bytes, e, l) = read_group-answered x w live (subst (Answers p) same h) in
      let rest = (scan_pass p xs (read_group p x.unit_id x.group w).1).0 in
      rw e (
        inl (
          ap (λ (u : UnitGroup). u.unit_id) (sym same),
          ap (λ (u : UnitGroup). u.group.address) (sym same),
          length-bytes_to_uint16 ug.group.count bytes
              (l ∙ ap (λ (u : UnitGroup). 2 * u.group.count) (sym same)),
        ))

-- After `InitialScan` the cache holds all registers of each group of each unit that the inverter
-- answers, and `Get` returns them, whatever becomes of the other groups: they may be refused or time
-- out, and hang up the connection. The context is not cancelled, and the database does not fail.
pub get-initial_scan :
    (p : Platform) (fine : IsReliable p.sql) (r : Reader) (w : World p) (ug : UnitGroup)
    → p.cancel_at ≡ none
    → Answers p ug
    → Member ug (unit_groups (r.fast_groups ++ r.slow_groups) r.unit_ids)
    → (vs : List ℕ) × (get p.sql ug.unit_id ug.group.address ug.group.count (initial_scan p r w).db
        ≡ some vs)
unfolding initial_scan
get-initial_scan p fine r w ug live h m =
    let pending = unit_groups (r.fast_groups ++ r.slow_groups) r.unit_ids in
    let pass = scan_pass p pending w in
    let db' = (scan_passes p 3 pending w).db in
    let cached : IsCached p ug db' = rw (scan_passes-again p fine ug 2 pending w) (
      again-keep p fine ug 2 pass.0.failed (flush p pass.0.batch pass.1)
        (scan_passes-keep p fine ug 2)
        (flush-new p fine ug pass.0.batch pass.1 (scan_pass-HasGroup p ug pending w live h m))) in
    let (vs, e) =
      cached_values-some (p.sql.committed db' ug.unit_id) ug.group.address ug.group.count cached in
    (
      vs,
      get_complete p.sql ug.unit_id ug.group.address ug.group.count db'
            (fine.queries ug.unit_id ug.group.address ug.group.count db')
          ∙ e,
    )
