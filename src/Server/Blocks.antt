-- ===== src/Server/Blocks.antt =====
-- Writes of several registers through server.go: what the inverter accepts is cached, and nothing
-- else is. The engine of the cache is one on which nothing fails.
use huawei_proxy.Prelude.{
  ℕ, zero, suc, ◌+◌, ◌*◌, ◌-◌, ◌%◌, ◌≤◌, ◌≡◌, refl, ap, ◌∙◌, true, false, not, ◌||◌, ◌==◌, ltb,
  List, [], ◌∷◌, some, length, get_or, take, arith,
}
use huawei_proxy.Bytes.{Bytes, AreBytes, IsWord, high_byte, low_byte}
use huawei_proxy.Platform.{Platform}
use huawei_proxy.Platform.Sqlite.{IsReliable}
use huawei_proxy.Errors.{GoError, Result, ok, err}
use huawei_proxy.Cache.{set_from_bytes}
use huawei_proxy.Cache.ReadBack.{get_bytes-set_from_bytes}
use huawei_proxy.Client.{World, write_multiple_registers}
use huawei_proxy.Client.Pause.{db-transact}
use huawei_proxy.Server.Frames.{send_read_response, send_exception, send_write_multiple_response}
use huawei_proxy.Server.Handlers.{
  Server, uint16_at, handle_read_registers, handle_write_multiple_registers, slice, write_slice,
  wrote_multiple, now,
}
use huawei_proxy.Server.Coherence.{read_request, handle_read_registers-hit}

-- The PDU of a client's write of several registers.
abbrev pub block_request : (address count : ℕ) → Bytes → Bytes
block_request address count bytes =
    0x10
    ∷ high_byte address
    ∷ low_byte address
    ∷ high_byte count
    ∷ low_byte count
    ∷ count * 2
    ∷ bytes

take_all {ℓ} : {A : Type ℓ} (n : ℕ) (xs : List A) → length xs ≡ n → take n xs ≡ xs
take_all zero [] e = refl
take_all zero (x ∷ xs) e = absurd (omega arith)
take_all (suc n) [] e = refl
take_all (suc n) (x ∷ xs) e = ap (λ t. x ∷ t) (take_all n xs (omega arith))

module _ (p : Platform) (s : Server) where
  module _ (tx_id unit_id address count : ℕ) (bytes : Bytes) (a : IsWord address) (c : count ≤ 124)
      (l : length bytes ≡ 2 * count) where
    pub slice-block_request :
        slice (block_request address count bytes) 6 ((6 + count * 2) % 256) ≡ some bytes
    unfolding slice
    slice-block_request =
        let top : (6 + count * 2) % 256 ≡ 6 + count * 2 = omega arith in
        let inside : (ltb (6 + count * 2) 6
              || ltb (length (block_request address count bytes)) (6 + count * 2))
            ≡ false =
          ground arith in
        let all : take (count * 2) bytes ≡ bytes = take_all (count * 2) bytes (omega arith) in
        let size : 6 + count * 2 - 6 ≡ count * 2 = omega arith in rw (top, inside, size, all) refl

    handle_write_multiple_registers-attached :
        (w : World p)
        → s.attached ≡ true
        → handle_write_multiple_registers p s tx_id unit_id (block_request address count bytes) w
          ≡ some (
              wrote_multiple p tx_id unit_id address count bytes
                (write_multiple_registers p unit_id address count bytes w))
    unfolding handle_write_multiple_registers write_slice
    handle_write_multiple_registers-attached w at =
        let pdu = block_request address count bytes in
        let x : uint16_at pdu 1 ≡ address = omega arith in
        let y : uint16_at pdu 3 ≡ count = omega arith in
        let n : get_or pdu 5 0 ≡ count * 2 = refl in
        let long : ltb (length pdu) 6 ≡ false = ground arith in
        let fits : (not (count * 2 == count * 2) || ltb (length pdu) (6 + count * 2)) ≡ false =
          ground arith in
        rw (long, n, y, fits, slice-block_request, x, y, write_slice, at) refl

    wrote_multiple-ok :
        (w : World p) (result : Result Bytes) (answer : Bytes)
        → result ≡ ok answer
        → wrote_multiple p tx_id unit_id address count bytes (result, w) ≡ (
          send_write_multiple_response tx_id unit_id address count,
          record w { db = set_from_bytes p.sql (now p w) unit_id address bytes w.db },
        )
    unfolding wrote_multiple
    wrote_multiple-ok w result answer e = rw (e, wrote_multiple) refl

    wrote_multiple-err :
        (w : World p) (result : Result Bytes) (e : GoError)
        → result ≡ err e
        → wrote_multiple p tx_id unit_id address count bytes (result, w)
          ≡ (send_exception tx_id unit_id 0x10 0x04, w)
    unfolding wrote_multiple
    wrote_multiple-err w result e r = rw (r, wrote_multiple) refl

    db-write_multiple_registers :
        (w : World p) → (write_multiple_registers p unit_id address count bytes w).1.db ≡ w.db
    unfolding write_multiple_registers
    db-write_multiple_registers w = db-transact unit_id _ _ w

    -- A write of 1 to 124 registers that the inverter accepts is acknowledged to the client, and a
    -- read of them that follows is answered from the cache with the bytes written, with nothing more
    -- on the wire.
    pub handle_write_multiple_registers-accepted :
        (fine : IsReliable p.sql) (w : World p) (answer : Bytes)
        → AreBytes bytes
        → 1 ≤ count
        → s.attached ≡ true
        → (write_multiple_registers p unit_id address count bytes w).0 ≡ ok answer
        → (w' : World p) × (handle_write_multiple_registers p s tx_id unit_id
              (block_request address count bytes)
              w
            ≡ some (send_write_multiple_response tx_id unit_id address count, w'))
          × ((tx_id' fc : ℕ)
              → handle_read_registers p s tx_id' unit_id fc (read_request fc address count) w'
                ≡ (send_read_response tx_id' unit_id fc bytes, w'))
    handle_write_multiple_registers-accepted fine w answer b n at r =
        let asked = (write_multiple_registers p unit_id address count bytes w).1 in
        let w' : World p = record asked {
          db = set_from_bytes p.sql (now p asked) unit_id address bytes asked.db;
        } in
        (
          w',
          handle_write_multiple_registers-attached w at
              ∙ ap some (wrote_multiple-ok asked _ answer r),
          λ tx_id' fc.
              handle_read_registers-hit p s tx_id' unit_id fc address count a (omega arith)
                (omega arith) w' bytes
                (get_bytes-set_from_bytes p.sql fine (now p asked) unit_id address count bytes
                  asked.db b l),
        )

    -- A write of at most 124 registers that the inverter refuses is answered by the exception 0x04,
    -- and leaves the cache as it was.
    pub handle_write_multiple_registers-refused :
        (w : World p) (e : GoError)
        → s.attached ≡ true
        → (write_multiple_registers p unit_id address count bytes w).0 ≡ err e
        → (w' : World p) × (handle_write_multiple_registers p s tx_id unit_id
              (block_request address count bytes)
              w
            ≡ some (send_exception tx_id unit_id 0x10 0x04, w'))
          × (w'.db ≡ w.db)
    handle_write_multiple_registers-refused w e at r = (
      (write_multiple_registers p unit_id address count bytes w).1,
      handle_write_multiple_registers-attached w at ∙ ap some (wrote_multiple-err _ _ e r),
      db-write_multiple_registers w,
    )
