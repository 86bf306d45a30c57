-- ===== src/Reader/Cycle/Fresh.antt =====
-- Which values one cycle of `Run` of reader.go leaves cached, for a group that meets no other.
use huawei_proxy.Prelude.{Member, ◌+◌, ◌≡◌, refl, List, Option, none, some, All, All-append}
use huawei_proxy.Bytes.{Bytes, AreBytes, bytes_to_uint16}
use huawei_proxy.Platform.{Platform}
use huawei_proxy.Platform.Sqlite.{IsReliable}
use huawei_proxy.Cache.{PendingWrite, get}
use huawei_proxy.Client.{World}
use huawei_proxy.Reader.{Reader}
use huawei_proxy.Reader.Scan.{UnitGroup, unit_groups}
use huawei_proxy.Reader.Scan.Covered.{HasGroup}
use huawei_proxy.Reader.Scan.Live.{Answers}
use huawei_proxy.Reader.Cycle.{Progress, poll_groups, run_cycle}
use huawei_proxy.Reader.Cycle.Live.{
  IsDue, HasGroup-append_left, HasGroup-append_right, Polled, poll_groups-Polled,
}
use huawei_proxy.Reader.Cycle.Ends.{Carries, Ended, run_cycle-IsDone}
use huawei_proxy.Reader.Cycle.Right.{
  IsSized, Holds, KeepsOff, IsRight, poll_groups-IsRight, flush-fresh,
}

module _ (p : Platform) (live : p.cancel_at ≡ none) (sized : IsSized p) (ug : UnitGroup)
    (bytes : Bytes) (holds : Holds p ug bytes) (fine : IsReliable p.sql) (b : AreBytes bytes) where
  answers : Answers p ug
  answers link =
      (bytes, holds link, sized ug.unit_id ug.group.address ug.group.count link bytes (holds link))

  abbrev Right : List PendingWrite → Type 0
  Right batch = All (IsRight p live sized ug bytes holds) batch

  abbrev Fresh : p.sql.Db → Type 0
  Fresh db = get p.sql ug.unit_id ug.group.address ug.group.count db ≡ some (bytes_to_uint16 bytes)

  fresh-Carries : Carries p Right (HasGroup ug) Fresh
  fresh-Carries = record {
    part_append = λ xs ys. All-append (IsRight p live sized ug bytes holds) xs ys;
    has_left = HasGroup-append_left ug;
    has_right = HasGroup-append_right ug;
    flushes = flush-fresh p live sized ug bytes holds fine b;
  }

  Polled-Ended :
      (ugs : List UnitGroup) (o : Option (List PendingWrite))
      → Polled p live ug answers ugs o
      → ((batch : List PendingWrite) → o ≡ some batch → Right batch)
      → Ended p Right (HasGroup ug) Fresh fresh-Carries (Member ug ugs) o
  Polled-Ended ugs none h own = h
  Polled-Ended ugs (some batch) h own = (own batch refl, h)

  poll_groups-Ended :
      (ugs : List UnitGroup) (w : World p)
      → All (KeepsOff ug) ugs
      → Ended p Right (HasGroup ug) Fresh fresh-Carries (Member ug ugs) (poll_groups p ugs w).0
  poll_groups-Ended ugs w off =
      Polled-Ended ugs (poll_groups p ugs w).0 (poll_groups-Polled p live ug answers ugs w)
        (λ batch. poll_groups-IsRight p live sized ug bytes holds ugs w batch off)

-- A cycle of `Run` brings the cache up to date. For a group that is due, a fast one, or a slow one
-- whose interval is over when the fast groups have been polled, and that meets no other group of its
-- unit: where the inverter answers each request for it with the same bytes, the cycle comes to its
-- end and is counted, and then `Get` returns the values of these bytes, whatever the cache held
-- before and whatever becomes of the other groups. A read that succeeds gives the registers asked
-- for, the context is not cancelled, and the database does not fail.
pub get-run_cycle-bytes_to_uint16 :
    (p : Platform) (fine : IsReliable p.sql) (sized : IsSized p) (r : Reader) (st : Progress)
    (w : World p) (ug : UnitGroup) (bytes : Bytes)
    → p.cancel_at ≡ none
    → Holds p ug bytes
    → AreBytes bytes
    → All (KeepsOff ug) (unit_groups r.fast_groups r.unit_ids)
    → All (KeepsOff ug) (unit_groups r.slow_groups r.unit_ids)
    → IsDue ug r st (poll_groups p (unit_groups r.fast_groups r.unit_ids) w).1
    → let (next, w') = run_cycle p r st w in
      (st' : Progress) × (next ≡ some st')
      × (st'.cycle_count ≡ st.cycle_count + 1)
      × (get p.sql ug.unit_id ug.group.address ug.group.count w'.db ≡ some (bytes_to_uint16 bytes))
get-run_cycle-bytes_to_uint16 p fine sized r st w ug bytes live holds b fast_off slow_off due =
    let fast = unit_groups r.fast_groups r.unit_ids in
    let slow = unit_groups r.slow_groups r.unit_ids in
    let done =
      run_cycle-IsDone p _ (HasGroup ug) _ (fresh-Carries p live sized ug bytes holds fine b)
        (Member ug fast) (Member ug slow) r st
        (λ v. poll_groups-Ended p live sized ug bytes holds fine b slow v slow_off) w live
        (poll_groups-Ended p live sized ug bytes holds fine b fast w fast_off) due in
    (done.next, done.goes_on, done.counted, done.cached)
