-- ===== src/Reader/Cycle.antt =====
-- `Run` of reader.go: the endless polling loop, one cycle at a time.
pub mod Effect
pub mod Steps
pub mod Ends
pub mod Live
pub mod Purge
pub mod Fractions
pub mod Runs
pub mod Right
pub mod Fresh
use huawei_proxy.Prelude.{
  ℕ, zero, suc, ◌+◌, ◌-◌, ◌*◌, List, [], ◌∷◌, ◌++◌, Option, none, some, leb, if◌then◌else◌, Bool,
}
use mathlib.Core.Option
use huawei_proxy.Prelude.Int.{pos_part, neg_part}
use huawei_proxy.Config.Durations.{negated}
use huawei_proxy.Bytes.{Bytes}
use huawei_proxy.Errors.{Result, ok, err}
use huawei_proxy.Platform.{Platform, cancelled}
use huawei_proxy.Cache.{PendingWrite, delete_stale}
use huawei_proxy.Client.{World}
use huawei_proxy.Reader.{Reader}
use huawei_proxy.Reader.Group.{read_group}
use huawei_proxy.Reader.Scan.{UnitGroup, unit_groups, pending_write, flush}

-- The loop's variable `lastSlowPoll`, and the statistics of `Reader`; no cycle has the time `none`.
pub record Progress : Type 0 where
  pub last_slow_poll : ℕ
  pub cycle_count : ℕ
  pub last_cycle_time : Option ℕ
  pub last_cycle_dur : ℕ

abbrev pub add_read : UnitGroup → Result Bytes → List PendingWrite → List PendingWrite
add_read ug (ok bytes) batch = pending_write ug bytes ∷ batch
add_read ug (err e) batch = batch

module _ (p : Platform) where
  -- The nested loops over groups and units: the writes of the groups that were read, or `none` where
  -- `Run` returns because the context was cancelled.
  unfoldable pub poll_groups : List UnitGroup → World p → Option (List PendingWrite) × World p
  poll_groups [] w = (some [], w)
  poll_groups (ug ∷ ugs) w = elim (cancelled p.cancel_at w.clock) [
    | Bool.true ↦ (none, w)
    | Bool.false ↦
        let (r, w') = read_group p ug.unit_id ug.group w in
        let (rest, w'') = poll_groups ugs w' in (Option.map (add_read ug r) rest, w'')
  ]

  -- `time.Now().UTC().Add(-maxAge)`, formatted; no time is before 0
  abbrev pub cutoff : Reader → World p → List ℕ
  cutoff r w = let back = negated r.cache_ttl in p.format (w.clock + pos_part back - neg_part back)

  -- `r.cache.DeleteStale(r.cfg.CacheTTL())`
  unfoldable pub purge : Reader → World p → World p
  purge r w = record w { db = (delete_stale p.sql (cutoff r w) w.db).1 }

  -- the end of a cycle: the batch is written, and the statistics are set
  unfoldable pub finish_cycle :
      ℕ → List PendingWrite → Progress → World p → Option Progress × World p
  finish_cycle cycle_start batch st w =
      let w' = flush p batch w in
      (
        some (record st {
          cycle_count = st.cycle_count + 1;
          last_cycle_time = some w'.clock;
          last_cycle_dur = w'.clock - cycle_start;
        }),
        w',
      )

  -- what follows the loop over the slow groups
  unfoldable pub after_slow :
      Reader
      → ℕ
      → List PendingWrite
      → Progress
      → Option (List PendingWrite) × World p
      → Option Progress × World p
  after_slow r cycle_start batch st (none, w) = (none, w)
  after_slow r cycle_start batch st (some slow, w) =
      finish_cycle cycle_start (batch ++ slow) (record st { last_slow_poll = w.clock }) (purge r w)

  -- what follows the loop over the fast groups
  unfoldable pub after_fast :
      Reader → ℕ → Progress → Option (List PendingWrite) × World p → Option Progress × World p
  after_fast r cycle_start st (none, w) = (none, w)
  after_fast r cycle_start st (some batch, w) =
      if leb (pos_part r.slow_interval) (w.clock - st.last_slow_poll)
      then after_slow r cycle_start batch st (poll_groups (unit_groups r.slow_groups r.unit_ids) w)
      else finish_cycle cycle_start batch st w

  -- One cycle of `Run`; without progress where it returns.
  unfoldable pub run_cycle : Reader → Progress → World p → Option Progress × World p
  run_cycle r st w =
      if cancelled p.cancel_at w.clock
      then (none, w)
      else after_fast r w.clock st (poll_groups (unit_groups r.fast_groups r.unit_ids) w)

  -- `Run` for at most `cycles` cycles.
  unfoldable pub run : ℕ → Reader → Progress → World p → Option Progress × World p
  run zero r st w = (some st, w)
  run (suc cycles) r st w =
      let (st', w') = run_cycle r st w in
      elim st' [ none ↦ (none, w') | some next ↦ run cycles r next w' ]
