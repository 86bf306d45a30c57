-- ===== src/Reader/Cycle/Live.antt =====
-- What one cycle of `Run` of reader.go leaves cached.
use huawei_proxy.Prelude.{
  Member, ℕ, ◌+◌, ◌*◌, ◌-◌, ◌≡◌, sym, ap, ◌∙◌, ◌⊎◌, inl, inr, List, [], ◌∷◌, ◌++◌, Option, none,
  some, length, ◌≤◌,
}
use mathlib.Core.Path.{subst}
use mathlib.Core.Option
use huawei_proxy.Prelude.Int.{pos_part}
use huawei_proxy.Bytes.{Bytes}
use huawei_proxy.Bytes.RoundTrip.{length-bytes_to_uint16}
use huawei_proxy.Errors.{Result, ok, err}
use huawei_proxy.Platform.{Platform, cancelled}
use huawei_proxy.Platform.Sqlite.{IsReliable}
use huawei_proxy.Cache.{PendingWrite, get}
use huawei_proxy.Cache.Get.{get_complete}
use huawei_proxy.Client.{World}
use huawei_proxy.Reader.{Reader}
use huawei_proxy.Reader.Group.{read_group}
use huawei_proxy.Reader.Scan.{UnitGroup, unit_groups}
use huawei_proxy.Reader.Scan.Covered.{HasGroup, cached_values-some}
use huawei_proxy.Reader.Scan.Live.{Answers, read_group-answered, flush-new}
use huawei_proxy.Reader.Scan.{flush}
use huawei_proxy.Reader.Cycle.Ends.{Carries, Ended, run_cycle-IsDone}
use huawei_proxy.Reader.Cycle.{Progress, add_read, poll_groups, run_cycle}

pub HasGroup-append_left :
    (ug : UnitGroup) (xs ys : List PendingWrite) → HasGroup ug xs → HasGroup ug (xs ++ ys)
HasGroup-append_left ug [] ys m = elim m [ ]
HasGroup-append_left ug (x ∷ xs) ys (inl here) = inl here
HasGroup-append_left ug (x ∷ xs) ys (inr later) = inr (HasGroup-append_left ug xs ys later)

pub HasGroup-append_right :
    (ug : UnitGroup) (xs ys : List PendingWrite) → HasGroup ug ys → HasGroup ug (xs ++ ys)
HasGroup-append_right ug [] ys m = m
HasGroup-append_right ug (x ∷ xs) ys m = inr (HasGroup-append_right ug xs ys m)

-- The group is one of the fast ones, or one of the slow ones and their interval is over.
abbrev pub IsDue : {p : Platform} → UnitGroup → Reader → Progress → World p → Type 0
IsDue ug r st w =
    Member ug (unit_groups r.fast_groups r.unit_ids)
    ⊎ (Member ug (unit_groups r.slow_groups r.unit_ids)
        × (pos_part r.slow_interval ≤ w.clock - st.last_slow_poll))

module _ (p : Platform) (live : p.cancel_at ≡ none) (ug : UnitGroup) (answers : Answers p ug) where
  -- The loop came to its end, and if the group is among those asked for, its batch has it.
  abbrev pub Polled : List UnitGroup → Option (List PendingWrite) → Type 0
  Polled ugs none = ⊥
  Polled ugs (some batch) = Member ug ugs → HasGroup ug batch

  add_read-Polled :
      (x : UnitGroup) (xs : List UnitGroup) (r : Result Bytes) (rest : Option (List PendingWrite))
      → (ug ≡ x → (bytes : Bytes) × (r ≡ ok bytes) × (length bytes ≡ 2 * x.group.count))
      → Polled xs rest
      → Polled (x ∷ xs) (Option.map (add_read x r) rest)
  add_read-Polled x xs r none here h = absurd h
  add_read-Polled x xs (err e) (some batch) here h = λ m. elim m [
    | inl same ↦ let (bytes, never, l) = here same in absurd (cc)
    | inr later ↦ h later
  ]
  add_read-Polled x xs (ok bytes) (some batch) here h = λ m. elim m [
    | inl same ↦
        let (got, answered, l) = here same in
        let size : length bytes ≡ 2 * ug.group.count = cc in
        inl (
          ap (λ (u : UnitGroup). u.unit_id) (sym same),
          ap (λ (u : UnitGroup). u.group.address) (sym same),
          length-bytes_to_uint16 ug.group.count bytes size,
        )
    | inr later ↦ inr (h later)
  ]

  pub poll_groups-Polled : (ugs : List UnitGroup) (w : World p) → Polled ugs (poll_groups p ugs w).0
  unfolding poll_groups cancelled
  poll_groups-Polled [] w = λ m. elim m [ ]
  poll_groups-Polled (x ∷ xs) w =
      let r = read_group p x.unit_id x.group w in
      rw (live, cancelled)
        (add_read-Polled x xs r.0 (poll_groups p xs r.1).0
          (λ same. read_group-answered p x w live (subst (Answers p) same answers))
          (poll_groups-Polled xs r.1))

  -- any batch will do
  abbrev Anything : List PendingWrite → Type 0
  Anything batch = Unit

  abbrev Cached : p.sql.Db → Type 0
  Cached db = (vs : List ℕ) × (get p.sql ug.unit_id ug.group.address ug.group.count db ≡ some vs)

  cached-Carries : IsReliable p.sql → Carries p Anything (HasGroup ug) Cached
  cached-Carries fine = record {
    part_append = λ xs ys _ _. tt;
    has_left = HasGroup-append_left ug;
    has_right = HasGroup-append_right ug;
    flushes = λ batch w _ has.
        let db' = (flush p batch w).db in
        let (vs, e) =
          cached_values-some (p.sql.committed db' ug.unit_id) ug.group.address ug.group.count
            (flush-new p fine ug batch w has) in
        (
          vs,
          get_complete p.sql ug.unit_id ug.group.address ug.group.count db'
                (fine.queries ug.unit_id ug.group.address ug.group.count db')
              ∙ e,
        );
  }

  Polled-Ended :
      (fine : IsReliable p.sql) (ugs : List UnitGroup) (o : Option (List PendingWrite))
      → Polled ugs o
      → Ended p Anything (HasGroup ug) Cached (cached-Carries fine) (Member ug ugs) o
  Polled-Ended fine ugs none h = h
  Polled-Ended fine ugs (some batch) h = (tt, h)

-- A cycle of `Run` comes to its end and is counted, and it leaves in the cache all registers of each
-- group that the inverter answers, so that `Get` returns them: of each fast group, and of each slow
-- one where the slow interval is over when the fast groups have been polled. The other groups may be
-- refused or time out. The context is not cancelled, and the database does not fail.
pub get-run_cycle :
    (p : Platform) (fine : IsReliable p.sql) (r : Reader) (st : Progress) (w : World p)
    (ug : UnitGroup)
    → p.cancel_at ≡ none
    → Answers p ug
    → IsDue ug r st (poll_groups p (unit_groups r.fast_groups r.unit_ids) w).1
    → let (next, w') = run_cycle p r st w in
      (st' : Progress) × (next ≡ some st')
      × (st'.cycle_count ≡ st.cycle_count + 1)
      × ((vs : List ℕ) × (get p.sql ug.unit_id ug.group.address ug.group.count w'.db ≡ some vs))
get-run_cycle p fine r st w ug live answers due =
    let fast = unit_groups r.fast_groups r.unit_ids in
    let slow = unit_groups r.slow_groups r.unit_ids in
    let done =
      run_cycle-IsDone p _ (HasGroup ug) _ (cached-Carries p live ug answers fine) (Member ug fast)
        (Member ug slow) r st
        (λ v.
          Polled-Ended p live ug answers fine slow (poll_groups p slow v).0
            (poll_groups-Polled p live ug answers slow v))
        w live
        (Polled-Ended p live ug answers fine fast (poll_groups p fast w).0
          (poll_groups-Polled p live ug answers fast w))
        due in
    (done.next, done.goes_on, done.counted, done.cached)
