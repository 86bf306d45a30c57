-- ===== src/Reader/Scan.antt =====
-- `InitialScan` of reader.go: up to three passes over the groups that are still to be read.
pub mod Genuine
pub mod Covered
pub mod Live
use huawei_proxy.Prelude.{ℕ, zero, suc, List, [], ◌∷◌, ◌++◌, map}
use huawei_proxy.Bytes.{Bytes, bytes_to_uint16}
use huawei_proxy.Errors.{Result, ok, err}
use huawei_proxy.Platform.{Platform}
use huawei_proxy.Cache.{PendingWrite, batch_set}
use huawei_proxy.Client.{World}
use huawei_proxy.Config.{RegisterGroup}
use huawei_proxy.Reader.{Reader}
use huawei_proxy.Reader.Group.{read_group}

-- `unitGroup`
pub record UnitGroup : Type 0 where
  pub unit_id : ℕ
  pub group : RegisterGroup

-- the two nested loops over groups and unit IDs
unfoldable pub unit_groups : List RegisterGroup → List ℕ → List UnitGroup
unit_groups [] uids = []
unit_groups (g ∷ gs) uids =
    map (λ uid. record { unit_id = uid; group = g }) uids ++ unit_groups gs uids

-- the group of register values that a successful read adds to the batch
abbrev pub pending_write : UnitGroup → Bytes → PendingWrite
pending_write ug bytes = record {
  unit_id = ug.unit_id;
  address = ug.group.address;
  values = bytes_to_uint16 bytes;
}

abbrev pub initial_scan_passes : ℕ
initial_scan_passes = 3

-- `failed` and `batch` of a pass
pub record Pass : Type 0 where
  pub failed : List UnitGroup
  pub batch : List PendingWrite

abbrev pub add_outcome : UnitGroup → Result Bytes → Pass → Pass
add_outcome ug (ok bytes) rest = record rest { batch = pending_write ug bytes ∷ rest.batch }
add_outcome ug (err e) rest = record rest { failed = ug ∷ rest.failed }

module _ (p : Platform) where
  -- the loop of one pass over `pending`
  unfoldable pub scan_pass : List UnitGroup → World p → Pass × World p
  scan_pass [] w = (record { failed = []; batch = [] }, w)
  scan_pass (ug ∷ ugs) w =
      let (r, w') = read_group p ug.unit_id ug.group w in
      let (rest, w'') = scan_pass ugs w' in (add_outcome ug r rest, w'')

  -- `r.cache.BatchSet(batch)`
  unfoldable pub flush : List PendingWrite → World p → World p
  flush batch w = record w { db = batch_set p.sql (p.format w.clock) batch w.db }

  -- the passes that are left
  unfoldable pub scan_passes : ℕ → List UnitGroup → World p → World p
  scan_passes zero pending w = w
  scan_passes (suc left) pending w =
      let (pass, w') = scan_pass pending w in
      let w'' = flush pass.batch w' in
      elim pass.failed [ [] ↦ w'' | ug ∷ ugs ↦ scan_passes left (ug ∷ ugs) w'' ]

  -- `InitialScan`
  unfoldable pub initial_scan : Reader → World p → World p
  initial_scan r w =
      scan_passes initial_scan_passes (unit_groups (r.fast_groups ++ r.slow_groups) r.unit_ids) w
