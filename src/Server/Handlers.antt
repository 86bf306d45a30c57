-- ===== src/Server/Handlers.antt =====
-- The three request handlers of server.go. `Server` holds the configuration flag that they read and
-- whether an inverter client is attached (`inverterClient.Load() != nil`).
use huawei_proxy.Prelude.{
  ℕ, ◌+◌, ◌-◌, ◌*◌, ◌%◌, Bool, not, ◌&&◌, ◌||◌, List, [], ◌∷◌, Option, none, some, ltb, ◌==◌,
  if◌then◌else◌, length, get_or, take, drop,
}
use huawei_proxy.Bytes.{Bytes, word}
use huawei_proxy.Errors.{Result, ok, err}
use huawei_proxy.Platform.{Platform}
use huawei_proxy.Cache.{get_bytes, set_registers, set_from_bytes}
use huawei_proxy.Client.{World, read_registers, write_single_register, write_multiple_registers}
use huawei_proxy.Server.Frames.{
  send_read_response, send_exception, send_write_single_response, send_write_multiple_response,
}

pub record Server : Type 0 where
  pub forward_unknown_reads : Bool
  pub attached : Bool

-- `binary.BigEndian.Uint16(b[i:i+2])`, where the slice is in range
abbrev pub uint16_at : Bytes → ℕ → ℕ
uint16_at b i = word (get_or b i 0) (get_or b (i + 1) 0)

-- `b[lo:hi]`; `none` is the run-time panic of bounds out of range
unfoldable pub slice : Bytes → ℕ → ℕ → Option Bytes
slice b lo hi = if ltb hi lo || ltb (length b) hi then none else some (take (hi - lo) (drop lo b))

module _ (p : Platform) where
  -- `time.Now().UTC().Format(time.RFC3339Nano)`
  abbrev pub now : World p → List ℕ
  now w = p.format w.clock

  -- what `handleReadRegisters` does with the inverter's answer
  unfoldable pub forwarded_read :
      (tx_id unit_id fc address : ℕ) → Result Bytes × World p → Bytes × World p
  forwarded_read tx_id unit_id fc address (err e, w) = (send_exception tx_id unit_id fc 0x04, w)
  forwarded_read tx_id unit_id fc address (ok result, w) = (
    send_read_response tx_id unit_id fc result,
    record w { db = set_from_bytes p.sql (now w) unit_id address result w.db },
  )

  -- the part of `handleReadRegisters` behind the cache
  unfoldable pub read_miss :
      Server → (tx_id unit_id fc address count : ℕ) → World p → Bytes × World p
  read_miss s tx_id unit_id fc address count w =
      if s.forward_unknown_reads && s.attached
      then forwarded_read tx_id unit_id fc address (read_registers p unit_id address count w)
      else (send_exception tx_id unit_id fc 0x02, w)

  -- `handleReadRegisters`
  unfoldable pub handle_read_registers :
      Server → (tx_id unit_id fc : ℕ) → Bytes → World p → Bytes × World p
  handle_read_registers s tx_id unit_id fc pdu w =
      if ltb (length pdu) 5
      then (send_exception tx_id unit_id fc 0x03, w)
      else let address = uint16_at pdu 1 in
        let count = uint16_at pdu 3 in
        if count == 0 || ltb 125 count
        then (send_exception tx_id unit_id fc 0x03, w)
        else elim (get_bytes p.sql unit_id address count w.db) [
          | some bytes ↦ (send_read_response tx_id unit_id fc bytes, w)
          | none ↦ read_miss s tx_id unit_id fc address count w
        ]

  -- what `handleWriteSingleRegister` does with the inverter's answer
  unfoldable pub wrote_single :
      (tx_id unit_id address value : ℕ) → Result Bytes × World p → Bytes × World p
  wrote_single tx_id unit_id address value (err e, w) = (send_exception tx_id unit_id 0x06 0x04, w)
  wrote_single tx_id unit_id address value (ok _, w) = (
    send_write_single_response tx_id unit_id address value,
    record w { db = set_registers p.sql (now w) unit_id address (value ∷ []) w.db },
  )

  -- `handleWriteSingleRegister`
  unfoldable pub handle_write_single_register :
      Server → (tx_id unit_id : ℕ) → Bytes → World p → Bytes × World p
  handle_write_single_register s tx_id unit_id pdu w =
      if ltb (length pdu) 5
      then (send_exception tx_id unit_id 0x06 0x03, w)
      else let address = uint16_at pdu 1 in
        let value = uint16_at pdu 3 in
        if not s.attached
        then (send_exception tx_id unit_id 0x06 0x04, w)
        else wrote_single tx_id unit_id address value
            (write_single_register p unit_id address value w)

  -- what `handleWriteMultipleRegisters` does with the inverter's answer
  unfoldable pub wrote_multiple :
      (tx_id unit_id address count : ℕ) → Bytes → Result Bytes × World p → Bytes × World p
  wrote_multiple tx_id unit_id address count bytes (err e, w) =
      (send_exception tx_id unit_id 0x10 0x04, w)
  wrote_multiple tx_id unit_id address count bytes (ok _, w) = (
    send_write_multiple_response tx_id unit_id address count,
    record w { db = set_from_bytes p.sql (now w) unit_id address bytes w.db },
  )

  -- the part of `handleWriteMultipleRegisters` behind the slice `pdu[6 : 6+byteCount]`
  unfoldable pub write_slice :
      Server → (tx_id unit_id address count : ℕ) → World p → Bytes → Bytes × World p
  write_slice s tx_id unit_id address count w bytes =
      if not s.attached
      then (send_exception tx_id unit_id 0x10 0x04, w)
      else wrote_multiple tx_id unit_id address count bytes
          (write_multiple_registers p unit_id address count bytes w)

  -- `handleWriteMultipleRegisters`; the bound of the slice is a sum of bytes, which wraps at 256, and
  -- `none` is a panic.
  unfoldable pub handle_write_multiple_registers :
      Server → (tx_id unit_id : ℕ) → Bytes → World p → Option (Bytes × World p)
  handle_write_multiple_registers s tx_id unit_id pdu w =
      if ltb (length pdu) 6
      then some (send_exception tx_id unit_id 0x10 0x03, w)
      else let address = uint16_at pdu 1 in
        let count = uint16_at pdu 3 in
        let byte_count = get_or pdu 5 0 in
        if not (byte_count == count * 2) || ltb (length pdu) (6 + byte_count)
        then some (send_exception tx_id unit_id 0x10 0x03, w)
        else elim (slice pdu 6 ((6 + byte_count) % 256)) [
          | none ↦ none
          | some bytes ↦ some (write_slice s tx_id unit_id address count w bytes)
        ]
