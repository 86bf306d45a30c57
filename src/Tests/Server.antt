-- ===== src/Tests/Server.antt =====
-- The client and the server over the small platform.
use huawei_proxy.Prelude.{
  ℕ, inl, inr, Bool-cases, length, ◌==◌, ◌≡◌, refl, true, false, [], ◌∷◌, none, some, arith,
  replicate,
}
use huawei_proxy.Bytes.{Bytes, bytes_to_uint16, uint16_to_bytes}
use huawei_proxy.Platform.{cancelled}
use huawei_proxy.Platform.Sqlite.{upsert, select_range}
use huawei_proxy.Platform.Memory.{memory-IsReliable}
use huawei_proxy.Cache.{fill, get, get_bytes, set_registers, set_from_bytes, exec_values, finish}
use huawei_proxy.Cache.Get.{cached_values}
use huawei_proxy.Client.{
  World, sleep, enforce_pause, transact, read_registers, write_single_register,
  write_multiple_registers, reconnect,
}
use huawei_proxy.Client.Pause.{IsPaced}
use huawei_proxy.Client.Interleaving.{here, next, reads, writes_single, Reach-IsPaced}
use huawei_proxy.Server.Frames.{
  send_read_response, send_exception, send_write_single_response, send_write_multiple_response,
}
use huawei_proxy.Server.Handlers.{
  Server, slice, read_miss, forwarded_read, handle_read_registers, wrote_single,
  handle_write_single_register, wrote_multiple, write_slice, handle_write_multiple_registers,
}
use huawei_proxy.Server.Connection.{
  read_full, dispatch, serve_pdu, serve_header, serve_one, handle_connection, closed,
}
use huawei_proxy.Server.Detached.{handle_connection-detached}
use huawei_proxy.Server.Replies.{ReadsShort, IsReplyTo, dispatch-IsReplyTo}
use huawei_proxy.Bytes.RoundTrip.{length-uint16_to_bytes}
use huawei_proxy.Errors.{ok}
use huawei_proxy.Server.Safety.{handle_connection-closed}
use huawei_proxy.Server.Coherence.{read_request, handle_read_registers-forwarded}
use huawei_proxy.Server.Writes.{write_request, handle_write_single_register-accepted}
use huawei_proxy.Server.Refused.{refused_write, dispatch-IsRefused}
use huawei_proxy.Server.Blocks.{block_request, handle_write_multiple_registers-accepted}
use huawei_proxy.Config.Durations.{int64, duration}
use huawei_proxy.Client.{pause_ns}
use huawei_proxy.Tests.Setup.{length-replicate, house, start, forwarding, busy}

served : Unit {0}
unfolding fill get get_bytes set_registers set_from_bytes exec_values finish upsert select_range
    bytes_to_uint16 uint16_to_bytes sleep enforce_pause transact read_registers
    write_single_register write_multiple_registers reconnect send_read_response send_exception
    send_write_single_response send_write_multiple_response slice read_miss forwarded_read
    handle_read_registers wrote_single handle_write_single_register wrote_multiple write_slice
    handle_write_multiple_registers read_full dispatch serve_pdu serve_header serve_one
    handle_connection cancelled cached_values pause_ns duration int64
served = tt

-- A read of two registers, a write of one, and a function code that is not supported.
abbrev session : Bytes
session =
    0 ∷ 1 ∷ 0 ∷ 0 ∷ 0 ∷ 6 ∷ 1 ∷ 3 ∷ 0 ∷ 100 ∷ 0 ∷ 2 ∷ 0 ∷ 2 ∷ 0 ∷ 0 ∷ 0 ∷ 6 ∷ 1 ∷ 6 ∷ 0 ∷ 101 ∷ 0
    ∷ 7 ∷ 0 ∷ 3 ∷ 0 ∷ 0 ∷ 0 ∷ 2 ∷ 1 ∷ 7 ∷ []

session_replies :
    (handle_connection house 40 forwarding session start).1
    ≡ (0 ∷ 1 ∷ 0 ∷ 0 ∷ 0 ∷ 7 ∷ 1 ∷ 3 ∷ 4 ∷ 0x12 ∷ 0x34 ∷ 0x12 ∷ 0x34 ∷ [])
      ∷ (0 ∷ 2 ∷ 0 ∷ 0 ∷ 0 ∷ 6 ∷ 1 ∷ 6 ∷ 0 ∷ 101 ∷ 0 ∷ 7 ∷ [])
      ∷ (0 ∷ 3 ∷ 0 ∷ 0 ∷ 0 ∷ 3 ∷ 1 ∷ 0x87 ∷ 1 ∷ [])
      ∷ []
unfolding served
session_replies = refl

handle_connection-closed_example : (handle_connection house 40 forwarding session start).0 ≡ closed
handle_connection-closed_example =
    handle_connection-closed house forwarding 40 session start (omega arith)

-- A PDU of 256 bytes, which the connection never reads, would wrap the slice's bound and panic.
long_pdu_panics :
    handle_write_multiple_registers house forwarding 1 1
      (16 ∷ 0 ∷ 0 ∷ 0 ∷ 125 ∷ 250 ∷ replicate 250 0)
      start
    ≡ none
unfolding served
long_pdu_panics = refl

start-IsPaced : IsPaced start
start-IsPaced = record { remembers = tt; spaced = tt }

abbrev after_read_and_write : World house
after_read_and_write =
    (write_single_register house 1 101 7 (read_registers house 1 100 2 start).1).1

Reach-IsPaced_example : IsPaced after_read_and_write
Reach-IsPaced_example =
    Reach-IsPaced start-IsPaced (next (next here (reads start 1 100 2)) (writes_single _ 1 101 7))

-- The second request waits for the pause: it begins 500 ms after the end of the first.
paused : after_read_and_write.clock ≡ 510001000
unfolding served
paused = refl

abbrev known : World house
known = record start { db = upsert 1 100 (record { value = 7; updated_at = [] }) (λ u a. none) }

handle_read_registers-forwarded_example :
    let first = handle_read_registers house forwarding 1 1 3 (read_request 3 100 1) start in
    (first.0 ≡ send_read_response 1 1 3 (0x12 ∷ 0x34 ∷ []))
    × (handle_read_registers house forwarding 1 1 3 (read_request 3 100 1) first.1 ≡ first)
unfolding served
handle_read_registers-forwarded_example =
    handle_read_registers-forwarded house forwarding 1 1 3 100 1 (omega arith) (omega arith)
      (omega arith) memory-IsReliable start (0x12 ∷ 0x34 ∷ []) refl refl refl refl (omega arith)
      refl

handle_write_single_register-accepted_example :
    let written = handle_write_single_register house forwarding 1 1 (write_request 100 7) start in
    (written.0 ≡ send_write_single_response 1 1 100 7)
    × ((tx_id' fc : ℕ)
        → handle_read_registers house forwarding tx_id' 1 fc (read_request fc 100 1) written.1
          ≡ (send_read_response tx_id' 1 fc (uint16_to_bytes (7 ∷ [])), written.1))
unfolding served
handle_write_single_register-accepted_example =
    handle_write_single_register-accepted house forwarding 1 1 100 7 (omega arith) (omega arith)
      memory-IsReliable start (0 ∷ 7 ∷ []) refl refl

abbrev block : Bytes
block = 1 ∷ 2 ∷ 3 ∷ 4 ∷ []

handle_write_multiple_registers-accepted_example :
    (w' : World house) × (handle_write_multiple_registers house forwarding 1 1
        (block_request 100 2 block)
        start
      ≡ some (send_write_multiple_response 1 1 100 2, w'))
    × ((tx_id' fc : ℕ)
        → handle_read_registers house forwarding tx_id' 1 fc (read_request fc 100 2) w'
          ≡ (send_read_response tx_id' 1 fc block, w'))
unfolding served
handle_write_multiple_registers-accepted_example =
    handle_write_multiple_registers-accepted house forwarding 1 1 100 2 block (omega arith)
      (omega arith) refl memory-IsReliable start (0 ∷ 2 ∷ []) (omega arith) (omega arith) refl refl

-- unit 9 is busy
dispatch-IsRefused_example :
    (v : World house) × (dispatch house forwarding 1 9 6 (write_request 100 7) start
      ≡ some (send_exception 1 9 6 0x04, v))
    × (v.db ≡ start.db)
unfolding served
dispatch-IsRefused_example =
    dispatch-IsRefused house forwarding 9 start 1 6 (write_request 100 7) refl
      (refused_write 100 7 busy (omega arith) (omega arith) refl)

abbrev detached : Server
detached = record { forward_unknown_reads = true; attached = false }

handle_connection-detached_example :
    ((handle_connection house 40 detached session start).2 ≡ start)
    × (handle_read_registers house detached 1 1 3 (read_request 3 100 2) start
        ≡ (send_exception 1 1 3 0x02, start))
    × (handle_write_single_register house detached 1 1 (write_request 100 7) start
        ≡ (send_exception 1 1 0x06 0x04, start))
    × (handle_write_multiple_registers house detached 1 1 (block_request 100 1 (0 ∷ 7 ∷ [])) start
        ≡ some (send_exception 1 1 0x10 0x04, start))
unfolding served
handle_connection-detached_example =
    handle_connection-detached house detached 40 session start 1 1 3 100 2 7 1 (0 ∷ 7 ∷ []) refl
      (omega arith) (omega arith) (omega arith) refl (omega arith) refl

house-ReadsShort : ReadsShort house
house-ReadsShort unit address count link bytes h e = elim (Bool-cases (unit == 9)) [
  | inl t ↦ absurd (cc (rw t at e))
  | inr f ↦
      let same : ok (uint16_to_bytes (replicate count 0x1234)) ≡ ok bytes = rw f at e in
      let l : length (uint16_to_bytes (replicate count 0x1234)) ≡ length bytes = cc in
      omega
        (arith, l, length-uint16_to_bytes (replicate count 0x1234), length-replicate count 0x1234)
]

abbrev read_reply : Bytes
read_reply = 0 ∷ 1 ∷ 0 ∷ 0 ∷ 0 ∷ 7 ∷ 1 ∷ 3 ∷ 4 ∷ 0x12 ∷ 0x34 ∷ 0x12 ∷ 0x34 ∷ []

read_dispatched :
    dispatch house forwarding 1 1 3 (read_request 3 100 2) start
    ≡ some
        (read_reply, (handle_read_registers house forwarding 1 1 3 (read_request 3 100 2) start).1)
unfolding served
read_dispatched = refl

dispatch-IsReplyTo_example : IsReplyTo 1 1 3 read_reply
dispatch-IsReplyTo_example =
    dispatch-IsReplyTo house forwarding 1 1 3 (read_request 3 100 2) start
      (handle_read_registers house forwarding 1 1 3 (read_request 3 100 2) start).1 read_reply
      house-ReadsShort (omega arith) read_dispatched
