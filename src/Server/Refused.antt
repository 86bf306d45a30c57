-- ===== src/Server/Refused.antt =====
-- `handleConnection` of server.go where the inverter fails a request of a client.
use huawei_proxy.Prelude.{
  ℕ, ◌*◌, ◌≤◌, ◌<◌, ◌≡◌, ap, ◌⊎◌, true, none, some, length, ◌==◌, ◌||◌, arith,
}
use huawei_proxy.Bytes.{Bytes, IsWord}
use huawei_proxy.Errors.{GoError, err}
use huawei_proxy.Platform.{Platform}
use huawei_proxy.Cache.{get_bytes}
use huawei_proxy.Client.{World, read_registers, write_single_register, write_multiple_registers}
use huawei_proxy.Server.Frames.{send_exception}
use huawei_proxy.Server.Handlers.{Server, handle_read_registers, handle_write_single_register}
use huawei_proxy.Server.Connection.{dispatch}
use huawei_proxy.Server.Coherence.{read_request, handle_read_registers-failed}
use huawei_proxy.Server.Writes.{write_request, handle_write_single_register-refused}
use huawei_proxy.Server.Blocks.{block_request, handle_write_multiple_registers-refused}

module _ (p : Platform) (s : Server) (unit_id : ℕ) (w : World p) where
  -- The requests that come to the inverter and that it fails: a read of registers that are not all
  -- cached, and the two writes.
  pub data IsRefused : ℕ → Bytes → Type 0 where
    refused_read :
        (fc address count : ℕ) (e : GoError)
        → (fc ≡ 0x03) ⊎ (fc ≡ 0x04)
        → IsWord address
        → 0 < count
        → count ≤ 125
        → s.forward_unknown_reads ≡ true
        → get_bytes p.sql unit_id address count w.db ≡ none
        → (read_registers p unit_id address count w).0 ≡ err e
        → IsRefused fc (read_request fc address count)
    refused_write :
        (address value : ℕ) (e : GoError)
        → IsWord address
        → IsWord value
        → (write_single_register p unit_id address value w).0 ≡ err e
        → IsRefused 0x06 (write_request address value)
    refused_block :
        (address count : ℕ) (bytes : Bytes) (e : GoError)
        → IsWord address
        → count ≤ 124
        → length bytes ≡ 2 * count
        → (write_multiple_registers p unit_id address count bytes w).0 ≡ err e
        → IsRefused 0x10 (block_request address count bytes)

  -- A request that the inverter fails, of whichever kind, is answered by the exception 0x04 (server
  -- device failure) with the request's transaction, unit and function code, and the cache is as it
  -- was. An inverter client is attached.
  pub dispatch-IsRefused :
      (tx_id fc : ℕ) (pdu : Bytes)
      → s.attached ≡ true
      → IsRefused fc pdu
      → (v : World p) × (dispatch p s tx_id unit_id fc pdu w
          ≡ some (send_exception tx_id unit_id fc 0x04, v))
        × (v.db ≡ w.db)
  unfolding dispatch
  dispatch-IsRefused tx_id fc pdu at
        (refused_read _ address count e read a positive limit f miss r) =
      let (reply, kept) =
        handle_read_registers-failed p s tx_id unit_id fc address count a positive limit w e f at
          miss r in
      let code : (fc == 0x03 || fc == 0x04) ≡ true = ground arith in
      let out = handle_read_registers p s tx_id unit_id fc (read_request fc address count) w in
      (out.1, rw code (ap some (ap (λ (b : Bytes). (b, out.1)) reply)), kept)
  dispatch-IsRefused tx_id fc pdu at (refused_write address value e a v r) =
      let (reply, kept) =
        handle_write_single_register-refused p s tx_id unit_id address value a v w e at r in
      let out = handle_write_single_register p s tx_id unit_id (write_request address value) w in
      (out.1, ap some (ap (λ (b : Bytes). (b, out.1)) reply), kept)
  dispatch-IsRefused tx_id fc pdu at (refused_block address count bytes e a limit l r) =
      handle_write_multiple_registers-refused p s tx_id unit_id address count bytes a limit l w e at
        r
