-- ===== src/Server/Connection.antt =====
-- `handleConnection` of server.go: the loop over the requests of one connection. The bytes that the
-- client sends until it closes its side are one list.
use huawei_proxy.Prelude.{
  ℕ, zero, suc, ◌-◌, not, ◌||◌, List, [], ◌∷◌, Option, none, some, ltb, ◌==◌, if◌then◌else◌, length,
  get_or, get_elem?, take, drop,
}
use huawei_proxy.Bytes.{Bytes}
use huawei_proxy.Platform.{Platform, cancelled}
use huawei_proxy.Client.{World}
use huawei_proxy.Server.Frames.{send_exception}
use huawei_proxy.Server.Handlers.{
  Server, uint16_at, handle_read_registers, handle_write_single_register,
  handle_write_multiple_registers,
}

-- `io.ReadFull` of `n` bytes: what it reads and what is left, or an error
unfoldable pub read_full : ℕ → Bytes → Option (Bytes × Bytes)
read_full n input = if ltb (length input) n then none else some (take n input, drop n input)

-- One round of the loop: it returns from the function, panics, or writes a response and goes on with
-- the bytes that are left.
pub data Turn (p : Platform) : Type 0 where
  returned : World p → Turn p
  panicked : Turn p
  answered : (response left : Bytes) → World p → Turn p

-- How the loop ends: by a return, by a panic, or by the fuel of the model.
pub data End : Type 0 where
  closed crashed out_of_fuel : End

module _ (p : Platform) where
  -- the `switch fc`
  unfoldable pub dispatch :
      Server → (tx_id unit_id fc : ℕ) → Bytes → World p → Option (Bytes × World p)
  dispatch s tx_id unit_id fc pdu w =
      if fc == 0x03 || fc == 0x04
      then some (handle_read_registers p s tx_id unit_id fc pdu w)
      else if fc == 0x06
      then some (handle_write_single_register p s tx_id unit_id pdu w)
      else if fc == 0x10
      then handle_write_multiple_registers p s tx_id unit_id pdu w
      else some (send_exception tx_id unit_id fc 0x01, w)

  -- a request whose PDU has been read; `pdu[0]` of an empty one would panic
  unfoldable pub serve_pdu : Server → (tx_id unit_id : ℕ) → (pdu left : Bytes) → World p → Turn p
  serve_pdu s tx_id unit_id pdu left w = elim (get_elem? pdu 0) [
    | none ↦ panicked
    | some fc ↦ elim (dispatch s tx_id unit_id fc pdu w) [
      | none ↦ panicked
      | some (response, w') ↦ answered response left w'
    ]
  ]

  -- a request whose header has been read
  unfoldable pub serve_header : Server → (header rest : Bytes) → World p → Turn p
  serve_header s header rest w =
      let tx_id = uint16_at header 0 in
      let protocol_id = uint16_at header 2 in
      let mbap_length = uint16_at header 4 in
      let unit_id = get_or header 6 0 in
      if not (protocol_id == 0)
      then returned w
      else if ltb mbap_length 2 || ltb 256 mbap_length
      then returned w
      else elim (read_full (mbap_length - 1) rest) [
        | none ↦ returned w
        | some (pdu, left) ↦ serve_pdu s tx_id unit_id pdu left w
      ]

  -- one round of the loop
  unfoldable pub serve_one : Server → Bytes → World p → Turn p
  serve_one s input w =
      if cancelled p.cancel_at w.clock then returned w else elim (read_full 7 input) [
        | none ↦ returned w
        | some (header, rest) ↦ serve_header s header rest w
      ]

  -- The loop on fuel, with the responses that it wrote, oldest first.
  unfoldable pub handle_connection : ℕ → Server → Bytes → World p → End × List Bytes × World p
  handle_connection zero s input w = (out_of_fuel, [], w)
  handle_connection (suc fuel) s input w = elim (serve_one s input w) [
    | returned w' ↦ (closed, [], w')
    | panicked ↦ (crashed, [], w)
    | answered response left w' ↦
        let (end, responses, w'') = handle_connection fuel s left w' in
        (end, response ∷ responses, w'')
  ]
