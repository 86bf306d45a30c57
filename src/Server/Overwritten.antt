-- ===== src/Server/Overwritten.antt =====
-- A client's write that server.go acknowledges while a cycle of reader.go is on its way.
use mathlib.Core.Option
use huawei_proxy.Prelude.{ℕ, ◌+◌, ◌*◌, ◌≤◌, ◌<◌, ◌≡◌, ap, ◌∙◌, true, [], ◌∷◌, some, length}
use huawei_proxy.Bytes.{Bytes, IsWord, AreBytes, bytes_to_uint16, uint16_to_bytes}
use huawei_proxy.Bytes.RoundTrip.{
  length-bytes_to_uint16, bytes_to_uint16-AreWords, uint16_to_bytes-bytes_to_uint16,
}
use huawei_proxy.Errors.{ok}
use huawei_proxy.Platform.{Platform}
use huawei_proxy.Platform.Sqlite.{IsReliable}
use huawei_proxy.Cache.{get_bytes}
use huawei_proxy.Cache.Order.{get-batch_set_one}
use huawei_proxy.Cache.ReadBack.{get-set_self}
use huawei_proxy.Client.{World, write_single_register}
use huawei_proxy.Client.Interleaving.{Reach}
use huawei_proxy.Reader.Group.{read_group}
use huawei_proxy.Reader.Scan.{UnitGroup, pending_write, flush}
use huawei_proxy.Server.Frames.{send_read_response, send_write_single_response}
use huawei_proxy.Server.Handlers.{Server, handle_read_registers, handle_write_single_register}
use huawei_proxy.Server.Coherence.{read_request, handle_read_registers-hit}
use huawei_proxy.Server.Writes.{write_request, handle_write_single_register-accepted}

module _ (p : Platform) (fine : IsReliable p.sql) (ug : UnitGroup) (bytes : Bytes)
    (b : AreBytes bytes) (l : length bytes ≡ 2 * ug.group.count) where
  get_bytes-flush :
      (w : World p)
      → get_bytes p.sql ug.unit_id ug.group.address ug.group.count
          (flush p (pending_write ug bytes ∷ []) w).db
        ≡ some bytes
  unfolding flush get_bytes
  get_bytes-flush w =
      let now = p.format w.clock in
      let n = length-bytes_to_uint16 ug.group.count bytes l in
      let stored =
        get-set_self p.sql fine now ug.unit_id ug.group.address (bytes_to_uint16 bytes) w.db
          (bytes_to_uint16-AreWords bytes b) in
      ap (Option.map uint16_to_bytes) (
        get-batch_set_one p.sql fine now (pending_write ug bytes) w.db ug.unit_id ug.group.address
          ug.group.count
        ∙ rw n at stored)
      ∙ ap some (uint16_to_bytes-bytes_to_uint16 ug.group.count bytes b l)

  -- A client's write is lost in the cache where it falls between the reading of its register's group
  -- and the batch of the cycle. The reader has read the group; then the inverter accepts a write to one
  -- of its registers, and the client is told so; then, after any other steps of the reader and of
  -- clients, the reader writes its batch, of this group: a client that now reads the group is
  -- answered from the cache with the bytes from before the write, whatever was written. The group has
  -- 1 to 125 registers, and the database does not fail.
  pub flush-overwrites :
      (s : Server) (tx address value : ℕ) (w v : World p) (answer : Bytes)
      → IsWord ug.group.address
      → 0 < ug.group.count
      → ug.group.count ≤ 125
      → IsWord address
      → IsWord value
      → ug.group.address ≤ address
      → address < ug.group.address + ug.group.count
      → s.attached ≡ true
      → let (read, asked) = read_group p ug.unit_id ug.group w in
        read ≡ ok bytes
        → (write_single_register p ug.unit_id address value asked).0 ≡ ok answer
        → let written =
            handle_write_single_register p s tx ug.unit_id (write_request address value) asked in
          Reach written.1 v
          → let after = flush p (pending_write ug bytes ∷ []) v in
            (written.0 ≡ send_write_single_response tx ug.unit_id address value)
            × ((tx' fc : ℕ)
                → handle_read_registers p s tx' ug.unit_id fc
                    (read_request fc ug.group.address ug.group.count)
                    after
                  ≡ (send_read_response tx' ug.unit_id fc bytes, after))
  flush-overwrites s tx address value w v answer a positive limit x y low high at read accepted
        reach =
      let asked = (read_group p ug.unit_id ug.group w).1 in
      (
        (handle_write_single_register-accepted p s tx ug.unit_id address value x y fine asked answer
            at accepted).0,
        λ tx' fc.
            handle_read_registers-hit p s tx' ug.unit_id fc ug.group.address ug.group.count a
              positive limit (flush p (pending_write ug bytes ∷ []) v) bytes (get_bytes-flush v),
      )
