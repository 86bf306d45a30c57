-- ===== src/Server/Writes.antt =====
-- Writes through server.go: what the inverter accepts is cached, and nothing else is. The engine of
-- the cache is one on which nothing fails.
use huawei_proxy.Prelude.{ℕ, ◌≡◌, refl, ap, ◌∙◌, true, [], ◌∷◌, arith}
use mathlib.Core.Option
use huawei_proxy.Bytes.{Bytes, IsWord, word, high_byte, low_byte, uint16_to_bytes}
use huawei_proxy.Platform.{Platform}
use huawei_proxy.Platform.Sqlite.{IsReliable}
use huawei_proxy.Errors.{GoError, Result, ok, err}
use huawei_proxy.Cache.{get_bytes, set_registers}
use huawei_proxy.Cache.ReadBack.{get-set_self}
use huawei_proxy.Client.{World, write_single_register}
use huawei_proxy.Client.Pause.{db-transact}
use huawei_proxy.Server.Frames.{send_read_response, send_exception, send_write_single_response}
use huawei_proxy.Server.Handlers.{
  Server, handle_read_registers, handle_write_single_register, wrote_single, now,
}
use huawei_proxy.Server.Coherence.{read_request, handle_read_registers-hit}

-- The PDU of a client's write of one register.
abbrev pub write_request : (address value : ℕ) → Bytes
write_request address value = 0x06 ∷ uint16_to_bytes (address ∷ value ∷ [])

module _ (p : Platform) (s : Server) where
  module _ (tx_id unit_id address value : ℕ) (a : IsWord address) (v : IsWord value) where
    handle_write_single_register-attached :
        (w : World p)
        → s.attached ≡ true
        → handle_write_single_register p s tx_id unit_id (write_request address value) w
          ≡ wrote_single p tx_id unit_id address value
              (write_single_register p unit_id address value w)
    unfolding handle_write_single_register uint16_to_bytes
    handle_write_single_register-attached w at =
        let x : word (high_byte address) (low_byte address) ≡ address = omega arith in
        let y : word (high_byte value) (low_byte value) ≡ value = omega arith in rw (x, y, at)

    wrote_single-ok :
        (w : World p) (result : Result Bytes) (answer : Bytes)
        → result ≡ ok answer
        → wrote_single p tx_id unit_id address value (result, w) ≡ (
          send_write_single_response tx_id unit_id address value,
          record w { db = set_registers p.sql (now p w) unit_id address (value ∷ []) w.db },
        )
    unfolding wrote_single
    wrote_single-ok w result answer e = rw (e, wrote_single)

    wrote_single-err :
        (w : World p) (result : Result Bytes) (e : GoError)
        → result ≡ err e
        → wrote_single p tx_id unit_id address value (result, w)
          ≡ (send_exception tx_id unit_id 0x06 0x04, w)
    unfolding wrote_single
    wrote_single-err w result e r = rw (r, wrote_single)

    db-write_single_register :
        (w : World p) → (write_single_register p unit_id address value w).1.db ≡ w.db
    unfolding write_single_register
    db-write_single_register w = db-transact unit_id _ _ w

    -- A write that the inverter accepts is echoed to the client, and a read of the register that
    -- follows is answered from the cache with the value written, with nothing more on the wire.
    pub handle_write_single_register-accepted :
        (fine : IsReliable p.sql) (w : World p) (answer : Bytes)
        → s.attached ≡ true
        → (write_single_register p unit_id address value w).0 ≡ ok answer
        → let written =
            handle_write_single_register p s tx_id unit_id (write_request address value) w in
          (written.0 ≡ send_write_single_response tx_id unit_id address value)
          × ((tx_id' fc : ℕ)
              → handle_read_registers p s tx_id' unit_id fc (read_request fc address 1) written.1
                ≡ (send_read_response tx_id' unit_id fc (uint16_to_bytes (value ∷ [])), written.1))
    handle_write_single_register-accepted fine w answer at r =
        let w' = (write_single_register p unit_id address value w).1 in
        let e =
          handle_write_single_register-attached w at
          ∙ wrote_single-ok w' (write_single_register p unit_id address value w).0 answer r in
        rw e (
          refl,
          λ tx_id' fc.
              handle_read_registers-hit p s tx_id' unit_id fc address 1 a (omega arith)
                (omega arith)
                (record w' {
                  db = set_registers p.sql (now p w') unit_id address (value ∷ []) w'.db;
                })
                (uint16_to_bytes (value ∷ []))
                (unfold get_bytes in
                  ap (Option.map uint16_to_bytes) (
                    get-set_self p.sql fine (now p w') unit_id address (value ∷ []) w'.db (v, tt))),
        )

    -- A write that the inverter refuses is answered by the exception 0x04, and leaves the cache as it
    -- was.
    pub handle_write_single_register-refused :
        (w : World p) (e : GoError)
        → s.attached ≡ true
        → (write_single_register p unit_id address value w).0 ≡ err e
        → let written =
            handle_write_single_register p s tx_id unit_id (write_request address value) w in
          (written.0 ≡ send_exception tx_id unit_id 0x06 0x04) × (written.1.db ≡ w.db)
    handle_write_single_register-refused w e at r =
        rw
          (handle_write_single_register-attached w at
            ∙ wrote_single-err (write_single_register p unit_id address value w).1
                (write_single_register p unit_id address value w).0 e r)
          (refl, db-write_single_register w)
