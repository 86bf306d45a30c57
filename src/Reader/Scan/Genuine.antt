-- ===== src/Reader/Scan/Genuine.antt =====
-- Where the values come from that the reader of reader.go writes to the cache.
use huawei_proxy.Prelude.{◌≡◌, refl, ◌∙◌, List, [], ◌∷◌, All}
use huawei_proxy.Bytes.{Bytes, bytes_to_uint16}
use huawei_proxy.Errors.{Result, ok, err}
use huawei_proxy.Platform.{Platform}
use huawei_proxy.Cache.{PendingWrite}
use huawei_proxy.Client.{World, read_registers}
use huawei_proxy.Client.Interleaving.{Reach, here, Reach-trans}
use huawei_proxy.Config.{RegisterGroup}
use huawei_proxy.Reader.Group.{read_group}
use huawei_proxy.Reader.Group.Trace.{read_group-Reach, read_group-Polled}
use huawei_proxy.Reader.Group.Outcome.{Outcome, read_group-Outcome}
use huawei_proxy.Reader.Scan.{UnitGroup, Pass, pending_write, add_outcome, scan_pass}

-- The values are the inverter's answer to a request for the registers of a group.
pub record IsGenuine (p : Platform) (write : PendingWrite) : Type 0 where
  pub group : RegisterGroup
  pub asked : World p
  pub answered : World p
  pub answer : Bytes
  pub read : read_registers p write.unit_id group.address group.count asked ≡ (ok answer, answered)
  pub same_address : write.address ≡ group.address
  pub same_values : write.values ≡ bytes_to_uint16 answer

module _ (p : Platform) where
  pub pending_write-IsGenuine :
      (ug : UnitGroup) (bytes : Bytes) (w w' : World p)
      → Outcome p ug.unit_id ug.group w (ok bytes) w'
      → IsGenuine p (pending_write ug bytes)
  pending_write-IsGenuine ug bytes w w' (live, given) = record {
    group = ug.group;
    asked = given.asked;
    answered = w';
    answer = bytes;
    read = given.answered;
    same_address = refl;
    same_values = refl;
  }

  add_outcome-IsGenuine :
      (ug : UnitGroup) (r : Result Bytes) (w w' : World p) (rest : Pass)
      → Outcome p ug.unit_id ug.group w r w'
      → All (IsGenuine p) rest.batch
      → All (IsGenuine p) (add_outcome ug r rest).batch
  add_outcome-IsGenuine ug (ok bytes) w w' rest o h = (pending_write-IsGenuine ug bytes w w' o, h)
  add_outcome-IsGenuine ug (err e) w w' rest o h = h

  -- Every value that a pass writes is one that the inverter gave.
  pub scan_pass-IsGenuine :
      (pending : List UnitGroup) (w : World p) → All (IsGenuine p) (scan_pass p pending w).0.batch
  unfolding scan_pass
  scan_pass-IsGenuine [] w = tt
  scan_pass-IsGenuine (ug ∷ ugs) w =
      let w' = (read_group p ug.unit_id ug.group w).1 in
      add_outcome-IsGenuine ug (read_group p ug.unit_id ug.group w).0 w w' (scan_pass p ugs w').0
        (read_group-Outcome p ug.unit_id ug.group w) (scan_pass-IsGenuine ugs w')

  -- A pass changes nothing in the cache before its batch is written.
  pub db-scan_pass : (pending : List UnitGroup) (w : World p) → (scan_pass p pending w).1.db ≡ w.db
  unfolding scan_pass
  db-scan_pass [] w = refl
  db-scan_pass (ug ∷ ugs) w =
      db-scan_pass ugs (read_group p ug.unit_id ug.group w).1
      ∙ (read_group-Polled p ug.unit_id ug.group w).same_db

  pub scan_pass-Reach : (pending : List UnitGroup) (w : World p) → Reach w (scan_pass p pending w).1
  unfolding scan_pass
  scan_pass-Reach [] w = here
  scan_pass-Reach (ug ∷ ugs) w =
      Reach-trans (read_group-Reach p ug.unit_id ug.group w)
        (scan_pass-Reach ugs (read_group p ug.unit_id ug.group w).1)
