-- ===== src/Reader/Cycle/Runs.antt =====
-- `Run` of reader.go over several cycles.
use mathlib.Core.Option
use huawei_proxy.Prelude.{
  Member, ℕ, zero, suc, ◌+◌, ◌-◌, ◌≡◌, refl, inl, inr, true, Bool-cases, List, [], ◌∷◌, Option,
  none, some, Option-cases, leb, arith,
}
use huawei_proxy.Prelude.Int.{pos_part}
use huawei_proxy.Errors.{Result}
use huawei_proxy.Bytes.{Bytes}
use huawei_proxy.Platform.{Platform, cancelled}
use huawei_proxy.Platform.Sqlite.{IsReliable}
use huawei_proxy.Cache.{PendingWrite, get}
use huawei_proxy.Client.{World}
use huawei_proxy.Reader.{Reader}
use huawei_proxy.Reader.Group.{read_group}
use huawei_proxy.Reader.Scan.{UnitGroup, unit_groups}
use huawei_proxy.Reader.Scan.Live.{Answers}
use huawei_proxy.Reader.Cycle.{
  Progress, add_read, poll_groups, finish_cycle, after_slow, after_fast, run_cycle, run,
}
use huawei_proxy.Reader.Cycle.Live.{get-run_cycle}

-- For as long as the context is not cancelled `Run` goes on: from any progress it completes and
-- counts any number of cycles, at least one, and behind the last of them all registers of each fast
-- group that the inverter answers are cached, so that `Get` returns them. The database does not fail.
pub get-run :
    (p : Platform) (fine : IsReliable p.sql) (r : Reader) (ug : UnitGroup)
    → p.cancel_at ≡ none
    → Answers p ug
    → Member ug (unit_groups r.fast_groups r.unit_ids)
    → (n : ℕ) (st : Progress) (w : World p)
    → let (next, w') = run p (suc n) r st w in
      (st' : Progress) × (next ≡ some st')
      × (st'.cycle_count ≡ st.cycle_count + suc n)
      × ((vs : List ℕ) × (get p.sql ug.unit_id ug.group.address ug.group.count w'.db ≡ some vs))
unfolding run
get-run p fine r ug live answers asked zero st w =
    let (st', e, counted, cached) = get-run_cycle p fine r st w ug live answers (inl asked) in
    rw (e, run) (st', refl, counted, cached)
get-run p fine r ug live answers asked (suc n) st w =
    let (st', e, counted, cached) = get-run_cycle p fine r st w ug live answers (inl asked) in
    let (last, ends, more, cached') =
      get-run p fine r ug live answers asked n st' (run_cycle p r st w).1 in
    rw (e, run) (last, ends, omega (arith, counted, more), cached')

module _ (p : Platform) where
  -- Without progress the context is cancelled.
  abbrev IsEnded {ℓ} : {A : Type ℓ} → Option A → World p → Type 0
  IsEnded none w = cancelled p.cancel_at w.clock ≡ true
  IsEnded (some x) w = Unit

  add_read-IsEnded :
      (ug : UnitGroup) (r : Result Bytes) (rest : Option (List PendingWrite)) (w : World p)
      → IsEnded rest w
      → IsEnded (Option.map (add_read ug r) rest) w
  add_read-IsEnded ug r none w h = h
  add_read-IsEnded ug r (some batch) w h = tt

  cancelled_at_end {ℓ} :
      {A : Type ℓ} (o : Option A) (w : World p)
      → o ≡ none
      → IsEnded o w
      → cancelled p.cancel_at w.clock ≡ true
  cancelled_at_end none w e h = h
  cancelled_at_end (some x) w e h = absurd (cc)

  poll_groups-IsEnded :
      (ugs : List UnitGroup) (w : World p) → IsEnded (poll_groups p ugs w).0 (poll_groups p ugs w).1
  unfolding poll_groups
  poll_groups-IsEnded [] w = tt
  poll_groups-IsEnded (ug ∷ ugs) w = elim (Bool-cases (cancelled p.cancel_at w.clock)) [
    | inl c ↦ rw (c, poll_groups) c
    | inr c ↦
        let (r, v) = read_group p ug.unit_id ug.group w in
        rw (c, poll_groups)
          (add_read-IsEnded ug r (poll_groups p ugs v).0 (poll_groups p ugs v).1
            (poll_groups-IsEnded ugs v))
  ]

  after_slow-IsEnded :
      (r : Reader) (start : ℕ) (batch : List PendingWrite) (st : Progress)
      (slow : Option (List PendingWrite)) (w : World p)
      → IsEnded slow w
      → let (next, v) = after_slow p r start batch st (slow, w) in IsEnded next v
  unfolding after_slow finish_cycle
  after_slow-IsEnded r start batch st none w h = h
  after_slow-IsEnded r start batch st (some slow) w h = tt

  after_fast-IsEnded :
      (r : Reader) (start : ℕ) (st : Progress) (fast : Option (List PendingWrite)) (w : World p)
      → IsEnded fast w
      → let (next, v) = after_fast p r start st (fast, w) in IsEnded next v
  unfolding after_fast finish_cycle
  after_fast-IsEnded r start st none w h = h
  after_fast-IsEnded r start st (some batch) w h =
      let slow = poll_groups p (unit_groups r.slow_groups r.unit_ids) w in
      elim (Bool-cases (leb (pos_part r.slow_interval) (w.clock - st.last_slow_poll))) [
        | inl due ↦ rw due (
            after_slow-IsEnded r start batch st slow.0 slow.1
              (poll_groups-IsEnded (unit_groups r.slow_groups r.unit_ids) w))
        | inr early ↦ rw early tt
      ]

  run_cycle-IsEnded :
      (r : Reader) (st : Progress) (w : World p)
      → IsEnded (run_cycle p r st w).0 (run_cycle p r st w).1
  unfolding run_cycle
  run_cycle-IsEnded r st w = elim (Bool-cases (cancelled p.cancel_at w.clock)) [
    | inl c ↦ rw c c
    | inr c ↦
        let fast = poll_groups p (unit_groups r.fast_groups r.unit_ids) w in
        rw c (
          after_fast-IsEnded r w.clock st fast.0 fast.1
            (poll_groups-IsEnded (unit_groups r.fast_groups r.unit_ids) w))
  ]

  -- `Run` never returns on its own: whatever the inverter and the database answer, if it returns
  -- within some cycles, then the context is cancelled at the time of its return.
  pub run-cancelled :
      (cycles : ℕ) (r : Reader) (st : Progress) (w : World p)
      → (run p cycles r st w).0 ≡ none
      → cancelled p.cancel_at (run p cycles r st w).1.clock ≡ true
  unfolding run
  run-cancelled zero r st w e = absurd (cc)
  run-cancelled (suc cycles) r st w e = elim (Option-cases (run_cycle p r st w).0) [
    | inl ended ↦ rw (ended, run) (cancelled_at_end _ _ ended (run_cycle-IsEnded r st w))
    | inr (next, goes_on) ↦
        rw (goes_on, run)
          (run-cancelled cycles r next (run_cycle p r st w).1 (rw (goes_on, run) at e))
  ]
