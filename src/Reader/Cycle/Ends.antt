-- ===== src/Reader/Cycle/Ends.antt =====
-- What a cycle of `Run` of reader.go leaves in the cache, from what its loops give its batch.
use huawei_proxy.Prelude.{
  ℕ, ◌+◌, ◌-◌, ◌≤◌, ◌≡◌, refl, ◌⊎◌, inl, inr, true, Bool-cases, List, ◌++◌, Option, none, some, leb,
  arith,
}
use huawei_proxy.Prelude.Int.{pos_part}
use huawei_proxy.Platform.{Platform, cancelled}
use huawei_proxy.Cache.{PendingWrite}
use huawei_proxy.Client.{World}
use huawei_proxy.Reader.{Reader}
use huawei_proxy.Reader.Scan.{unit_groups, flush}
use huawei_proxy.Reader.Cycle.{
  Progress, poll_groups, purge, finish_cycle, after_slow, after_fast, run_cycle,
}

-- Two properties of batches, one that each part has and one that a part brings, and what a batch with
-- both makes of the cache.
pub record Carries (p : Platform) (Part Has : List PendingWrite → Type 0) (C : p.sql.Db → Type 0)
    : Type 0 where
  pub part_append : (xs ys : List PendingWrite) → Part xs → Part ys → Part (xs ++ ys)
  pub has_left : (xs ys : List PendingWrite) → Has xs → Has (xs ++ ys)
  pub has_right : (xs ys : List PendingWrite) → Has ys → Has (xs ++ ys)
  pub flushes :
      (batch : List PendingWrite) (w : World p) → Part batch → Has batch → C (flush p batch w).db

module _ (p : Platform) (Part Has : List PendingWrite → Type 0) (C : p.sql.Db → Type 0)
    (laws : Carries p Part Has C) where
  -- The loop came to its end, and if it was asked for it, its batch brings the property.
  abbrev pub Ended : Type 0 → Option (List PendingWrite) → Type 0
  Ended Asked none = ⊥
  Ended Asked (some batch) = Part batch × (Asked → Has batch)

  -- The cycle is counted, and the cache is as the batch makes it.
  pub record IsDone (st : Progress) (out : Option Progress × World p) : Type 0 where
    pub next : Progress
    pub goes_on : out.0 ≡ some next
    pub counted : next.cycle_count ≡ st.cycle_count + 1
    pub cached : C out.1.db

  finish_cycle-IsDone :
      (start : ℕ) (batch : List PendingWrite) (st : Progress) (w : World p)
      → Part batch
      → Has batch
      → IsDone st (finish_cycle p start batch st w)
  unfolding finish_cycle
  finish_cycle-IsDone start batch st w part has = record {
    next = _;
    goes_on = refl;
    counted = refl;
    cached = laws.flushes batch w part has;
  }

  after_slow-IsDone :
      (Asked : Type 0) (r : Reader) (start : ℕ) (batch : List PendingWrite) (st : Progress)
      (slow : Option (List PendingWrite)) (w : World p)
      → Ended Asked slow
      → Part batch
      → Has batch ⊎ Asked
      → IsDone st (after_slow p r start batch st (slow, w))
  unfolding after_slow
  after_slow-IsDone Asked r start batch st none w h part m = absurd h
  after_slow-IsDone Asked r start batch st (some slow) w (own, brings) part m =
      let after = record st { last_slow_poll = w.clock } in
      let has : Has (batch ++ slow) = elim m [
        | inl fast ↦ laws.has_left batch slow fast
        | inr asked ↦ laws.has_right batch slow (brings asked)
      ] in
      let done =
        finish_cycle-IsDone start (batch ++ slow) after (purge p r w)
          (laws.part_append batch slow part own) has in
      record {
        next = done.next;
        goes_on = done.goes_on;
        counted = done.counted;
        cached = done.cached;
      }

  module _ (Fast Slow : Type 0) (r : Reader) (st : Progress)
      (slow_ends : (w : World p)
        → Ended Slow (poll_groups p (unit_groups r.slow_groups r.unit_ids) w).0) where
    -- what is asked for is due
    abbrev pub Due : World p → Type 0
    Due w = Fast ⊎ (Slow × (pos_part r.slow_interval ≤ w.clock - st.last_slow_poll))

    after_fast-IsDone :
        (start : ℕ) (fast : Option (List PendingWrite)) (w : World p)
        → Ended Fast fast
        → Due w
        → IsDone st (after_fast p r start st (fast, w))
    unfolding after_fast
    after_fast-IsDone start none w h m = absurd h
    after_fast-IsDone start (some batch) w (part, brings) m =
        let interval = pos_part r.slow_interval in
        let slow = poll_groups p (unit_groups r.slow_groups r.unit_ids) w in
        elim m [
          | inl asked ↦ elim (Bool-cases (leb interval (w.clock - st.last_slow_poll))) [
            | inl due ↦ rw due (
                after_slow-IsDone Slow r start batch st slow.0 slow.1 (slow_ends w) part
                  (inl (brings asked)))
            | inr early ↦ rw early (finish_cycle-IsDone start batch st w part (brings asked))
          ]
          | inr (asked, over) ↦
              let due : leb interval (w.clock - st.last_slow_poll) ≡ true = ground (arith, over) in
              rw due (
                after_slow-IsDone Slow r start batch st slow.0 slow.1 (slow_ends w) part
                  (inr asked))
        ]

    pub run_cycle-IsDone :
        (w : World p)
        → p.cancel_at ≡ none
        → let (fast, w') = poll_groups p (unit_groups r.fast_groups r.unit_ids) w in
          Ended Fast fast → Due w' → IsDone st (run_cycle p r st w)
    unfolding run_cycle cancelled
    run_cycle-IsDone w live ends due =
        let fast = poll_groups p (unit_groups r.fast_groups r.unit_ids) w in
        rw (live, cancelled) (after_fast-IsDone w.clock fast.0 fast.1 ends due)
