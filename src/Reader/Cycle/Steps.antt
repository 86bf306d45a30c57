-- ===== src/Reader/Cycle/Steps.antt =====
-- `InitialScan` and `Run` of reader.go are sequences of steps on the client and the cache.
use huawei_proxy.Prelude.{
  ℕ, zero, suc, ◌-◌, Bool-cases, inl, inr, List, [], ◌∷◌, Option, none, some, leb, Option-cases,
}
use huawei_proxy.Prelude.Int.{pos_part}
use huawei_proxy.Platform.{Platform, cancelled}
use huawei_proxy.Cache.{PendingWrite}
use huawei_proxy.Client.{World}
use huawei_proxy.Client.Interleaving.{Reach, here, next, caches, Reach-trans}
use huawei_proxy.Reader.{Reader}
use huawei_proxy.Reader.Group.{read_group}
use huawei_proxy.Reader.Group.Trace.{read_group-Reach}
use huawei_proxy.Reader.Scan.{
  UnitGroup, unit_groups, scan_pass, flush, scan_passes, initial_scan, initial_scan_passes,
}
use huawei_proxy.Reader.Scan.Genuine.{scan_pass-Reach}
use huawei_proxy.Reader.Cycle.{
  Progress, poll_groups, purge, finish_cycle, after_slow, after_fast, run_cycle, run,
}

module _ (p : Platform) where
  flush-Reach : (batch : List PendingWrite) (w : World p) → Reach w (flush p batch w)
  unfolding flush
  flush-Reach batch w = next here (caches w _)

  pub purge-Reach : (r : Reader) (w : World p) → Reach w (purge p r w)
  unfolding purge
  purge-Reach r w = next here (caches w _)

  again-Reach :
      (left : ℕ) (failed : List UnitGroup) (w : World p)
      → ((pending : List UnitGroup) (v : World p) → Reach v (scan_passes p left pending v))
      → Reach w (elim failed [ [] ↦ w | ug ∷ ugs ↦ scan_passes p left (ug ∷ ugs) w ])
  again-Reach left [] w go = here
  again-Reach left (ug ∷ ugs) w go = go (ug ∷ ugs) w

  scan_passes-Reach :
      (left : ℕ) (pending : List UnitGroup) (w : World p) → Reach w (scan_passes p left pending w)
  unfolding scan_passes
  scan_passes-Reach zero pending w = here
  scan_passes-Reach (suc left) pending w =
      let pass = scan_pass p pending w in
      Reach-trans (Reach-trans (scan_pass-Reach p pending w) (flush-Reach pass.0.batch pass.1))
        (again-Reach left pass.0.failed (flush p pass.0.batch pass.1) (scan_passes-Reach left))

  pub initial_scan-Reach : (r : Reader) (w : World p) → Reach w (initial_scan p r w)
  unfolding initial_scan
  initial_scan-Reach r w = scan_passes-Reach initial_scan_passes _ w

  poll_groups-Reach : (ugs : List UnitGroup) (w : World p) → Reach w (poll_groups p ugs w).1
  unfolding poll_groups
  poll_groups-Reach [] w = here
  poll_groups-Reach (ug ∷ ugs) w = elim (Bool-cases (cancelled p.cancel_at w.clock)) [
    | inl c ↦ rw (c, poll_groups) here
    | inr c ↦
        rw (c, poll_groups)
          (Reach-trans (read_group-Reach p ug.unit_id ug.group w)
            (poll_groups-Reach ugs (read_group p ug.unit_id ug.group w).1))
  ]

  after_slow-Reach :
      (r : Reader) (start : ℕ) (batch : List PendingWrite) (st : Progress)
      (o : Option (List PendingWrite)) (w : World p)
      → Reach w (after_slow p r start batch st (o, w)).1
  unfolding after_slow finish_cycle
  after_slow-Reach r start batch st none w = here
  after_slow-Reach r start batch st (some slow) w =
      Reach-trans (purge-Reach r w) (flush-Reach _ (purge p r w))

  after_fast-Reach :
      (r : Reader) (start : ℕ) (st : Progress) (o : Option (List PendingWrite)) (w : World p)
      → Reach w (after_fast p r start st (o, w)).1
  unfolding after_fast finish_cycle
  after_fast-Reach r start st none w = here
  after_fast-Reach r start st (some batch) w =
      elim (Bool-cases (leb (pos_part r.slow_interval) (w.clock - st.last_slow_poll))) [
        | inl due ↦
            let polled = poll_groups p (unit_groups r.slow_groups r.unit_ids) w in
            rw due (
              Reach-trans (poll_groups-Reach (unit_groups r.slow_groups r.unit_ids) w)
                (after_slow-Reach r start batch st polled.0 polled.1))
        | inr early ↦ rw early (flush-Reach batch w)
      ]

  pub run_cycle-Reach : (r : Reader) (st : Progress) (w : World p) → Reach w (run_cycle p r st w).1
  unfolding run_cycle
  run_cycle-Reach r st w = elim (Bool-cases (cancelled p.cancel_at w.clock)) [
    | inl c ↦ rw c here
    | inr c ↦
        let polled = poll_groups p (unit_groups r.fast_groups r.unit_ids) w in
        rw c (
          Reach-trans (poll_groups-Reach (unit_groups r.fast_groups r.unit_ids) w)
            (after_fast-Reach r w.clock st polled.0 polled.1))
  ]

  pub run-Reach :
      (cycles : ℕ) (r : Reader) (st : Progress) (w : World p) → Reach w (run p cycles r st w).1
  unfolding run
  run-Reach zero r st w = here
  run-Reach (suc cycles) r st w =
      let first = run_cycle p r st w in
      elim (Option-cases first.0) [
        | inl e ↦ rw (e, run) (run_cycle-Reach r st w)
        | inr (st', e) ↦
            rw (e, run) (Reach-trans (run_cycle-Reach r st w) (run-Reach cycles r st' first.1))
      ]
