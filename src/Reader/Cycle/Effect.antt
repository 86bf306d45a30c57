-- ===== src/Reader/Cycle/Effect.antt =====
-- What one cycle of `Run` of reader.go does to the cache.
use mathlib.Core.Option
use huawei_proxy.Prelude.{
  ℕ, ◌+◌, ◌-◌, ◌≡◌, refl, ap, ◌∙◌, ◌⊎◌, inl, inr, true, List, [], ◌∷◌, ◌++◌, Option, none, some,
  All, All-append, Bool-cases, leb,
}
use huawei_proxy.Prelude.Int.{pos_part}
use huawei_proxy.Bytes.{Bytes}
use huawei_proxy.Errors.{Result, ok, err}
use huawei_proxy.Platform.{Platform, cancelled}
use huawei_proxy.Cache.{PendingWrite, batch_set, delete_stale}
use huawei_proxy.Client.{World}
use huawei_proxy.Reader.{Reader}
use huawei_proxy.Reader.Group.{read_group}
use huawei_proxy.Reader.Group.Trace.{read_group-Polled}
use huawei_proxy.Reader.Group.Outcome.{Outcome, read_group-Outcome}
use huawei_proxy.Reader.Scan.{UnitGroup, unit_groups, flush}
use huawei_proxy.Reader.Scan.Genuine.{IsGenuine, pending_write-IsGenuine}
use huawei_proxy.Reader.Cycle.{
  Progress, add_read, poll_groups, cutoff, purge, finish_cycle, after_slow, after_fast, run_cycle,
}

module _ (p : Platform) where
  db-poll_groups : (ugs : List UnitGroup) (w : World p) → (poll_groups p ugs w).1.db ≡ w.db
  unfolding poll_groups
  db-poll_groups [] w = refl
  db-poll_groups (ug ∷ ugs) w = elim (Bool-cases (cancelled p.cancel_at w.clock)) [
    | inl c ↦ rw (c, poll_groups)
    | inr c ↦
        rw (c, poll_groups)
          (db-poll_groups ugs (read_group p ug.unit_id ug.group w).1
            ∙ (read_group-Polled p ug.unit_id ug.group w).same_db)
  ]

  -- What a loop over groups has to write; where it was cut off, the context is cancelled.
  abbrev pub AllGenuine : Option (List PendingWrite) → World p → Type 0
  AllGenuine none w = cancelled p.cancel_at w.clock ≡ true
  AllGenuine (some batch) w = All (IsGenuine p) batch

  add_read-AllGenuine :
      (ug : UnitGroup) (r : Result Bytes) (w w' v : World p) (rest : Option (List PendingWrite))
      → Outcome p ug.unit_id ug.group w r w'
      → AllGenuine rest v
      → AllGenuine (Option.map (add_read ug r) rest) v
  add_read-AllGenuine ug r w w' v none o h = h
  add_read-AllGenuine ug (ok bytes) w w' v (some batch) o h =
      (pending_write-IsGenuine p ug bytes w w' o, h)
  add_read-AllGenuine ug (err e) w w' v (some batch) o h = h

  poll_groups-AllGenuine :
      (ugs : List UnitGroup) (w : World p)
      → AllGenuine (poll_groups p ugs w).0 (poll_groups p ugs w).1
  unfolding poll_groups
  poll_groups-AllGenuine [] w = tt
  poll_groups-AllGenuine (ug ∷ ugs) w = elim (Bool-cases (cancelled p.cancel_at w.clock)) [
    | inl c ↦ rw (c, poll_groups) c
    | inr c ↦
        let w' = (read_group p ug.unit_id ug.group w).1 in
        rw (c, poll_groups)
          (add_read-AllGenuine ug (read_group p ug.unit_id ug.group w).0 w w'
            (poll_groups p ugs w').1 (poll_groups p ugs w').0
            (read_group-Outcome p ug.unit_id ug.group w) (poll_groups-AllGenuine ugs w'))
  ]

  -- The cache after a whole cycle: what was there, perhaps without the stale registers, with one batch
  -- of the inverter's answers written over it in one transaction.
  pub record Flushed (before after : World p) : Type 0 where
    pub batch : List PendingWrite
    pub genuine : All (IsGenuine p) batch
    pub kept : p.sql.Db
    pub purged :
        (kept ≡ before.db) ⊎ ((oldest : List ℕ) × (kept ≡ (delete_stale p.sql oldest before.db).1))
    pub now : List ℕ
    pub written : after.db ≡ batch_set p.sql now batch kept

  abbrev pub CycleEffect : Progress → World p → Option Progress × World p → Type 0
  CycleEffect st before (none, after) =
      (after.db ≡ before.db) × (cancelled p.cancel_at after.clock ≡ true)
  CycleEffect st before (some st', after) =
      Flushed before after × (st'.cycle_count ≡ st.cycle_count + 1)

  after_slow-effect :
      (r : Reader) (start : ℕ) (batch : List PendingWrite) (st : Progress)
      (o : Option (List PendingWrite)) (w before : World p)
      → All (IsGenuine p) batch
      → AllGenuine o w
      → w.db ≡ before.db
      → CycleEffect st before (after_slow p r start batch st (o, w))
  unfolding after_slow finish_cycle flush purge
  after_slow-effect r start batch st none w before b g e = (e, g)
  after_slow-effect r start batch st (some slow) w before b g e = (
    record {
      batch = batch ++ slow;
      genuine = All-append (IsGenuine p) batch slow b g;
      kept = (delete_stale p.sql (cutoff p r w) w.db).1;
      purged = inr (cutoff p r w, ap (λ (d : p.sql.Db). (delete_stale p.sql (cutoff p r w) d).1) e);
      now = p.format w.clock;
      written = refl;
    },
    refl,
  )

  after_fast-effect :
      (r : Reader) (start : ℕ) (st : Progress) (o : Option (List PendingWrite)) (w before : World p)
      → AllGenuine o w
      → w.db ≡ before.db
      → CycleEffect st before (after_fast p r start st (o, w))
  unfolding after_fast finish_cycle flush
  after_fast-effect r start st none w before g e = (e, g)
  after_fast-effect r start st (some batch) w before g e =
      elim (Bool-cases (leb (pos_part r.slow_interval) (w.clock - st.last_slow_poll))) [
        | inl due ↦
            let ugs = unit_groups r.slow_groups r.unit_ids in
            rw due (
              after_slow-effect r start batch st (poll_groups p ugs w).0 (poll_groups p ugs w).1
                before g (poll_groups-AllGenuine ugs w) (db-poll_groups ugs w ∙ e))
        | inr early ↦ rw early (
          record {
            batch = batch;
            genuine = g;
            kept = w.db;
            purged = inl e;
            now = p.format w.clock;
            written = refl;
          },
          refl,
        )
      ]

  -- One cycle of the polling loop is atomic for the cache. Where `Run` returns in the cycle, the
  -- context is cancelled and the cache is as it was, whatever had been read. Otherwise, also where the
  -- context is cancelled while the last group is read, one cycle more is counted, and the cache is written in one batch, behind at most one deletion of stale registers;
  -- the batch holds answers of the inverter, each under the unit and the address that were asked
  -- for, and nothing else.
  pub run_cycle-effect :
      (r : Reader) (st : Progress) (w : World p) → CycleEffect st w (run_cycle p r st w)
  unfolding run_cycle
  run_cycle-effect r st w = elim (Bool-cases (cancelled p.cancel_at w.clock)) [
    | inl c ↦ rw c (refl, c)
    | inr c ↦
        let ugs = unit_groups r.fast_groups r.unit_ids in
        rw c (
          after_fast-effect r w.clock st (poll_groups p ugs w).0 (poll_groups p ugs w).1 w
            (poll_groups-AllGenuine ugs w) (db-poll_groups ugs w))
  ]
