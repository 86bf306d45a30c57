-- ===== src/Server/Steps.antt =====
-- The handlers and the connections of server.go are sequences of steps on the client and the cache.
use huawei_proxy.Prelude.{
  ℕ, ◌+◌, ◌*◌, ◌%◌, not, ◌&&◌, ◌||◌, Bool-cases, inl, inr, ltb, ◌==◌, length, get_or, Option-cases,
}
use huawei_proxy.Bytes.{Bytes}
use huawei_proxy.Errors.{Result, ok, err}
use huawei_proxy.Platform.{Platform}
use huawei_proxy.Cache.{get_bytes}
use huawei_proxy.Client.{World, read_registers, write_single_register, write_multiple_registers}
use huawei_proxy.Client.Interleaving.{
  Reach, here, next, caches, reads, writes_single, writes_multiple, Reach-trans,
}
use huawei_proxy.Server.Handlers.{
  Server, uint16_at, slice, forwarded_read, read_miss, handle_read_registers, wrote_single,
  handle_write_single_register, wrote_multiple, write_slice, handle_write_multiple_registers,
}
use huawei_proxy.Server.Connection.{dispatch, handle_connection}
use huawei_proxy.Server.Rounds.{After, handle_connection_related}

module _ (p : Platform) (s : Server) where
  forwarded_read-Reach :
      (tx unit fc address : ℕ) (r : Result Bytes) (w : World p)
      → Reach w (forwarded_read p tx unit fc address (r, w)).1
  unfolding forwarded_read
  forwarded_read-Reach tx unit fc address (ok bytes) w = next here (caches w _)
  forwarded_read-Reach tx unit fc address (err e) w = here

  read_miss-Reach :
      (tx unit fc address count : ℕ) (w : World p)
      → Reach w (read_miss p s tx unit fc address count w).1
  unfolding read_miss
  read_miss-Reach tx unit fc address count w =
      elim (Bool-cases (s.forward_unknown_reads && s.attached)) [
        | inl c ↦
            let r = read_registers p unit address count w in
            rw c (
              Reach-trans (next here (reads w unit address count))
                (forwarded_read-Reach tx unit fc address r.0 r.1))
        | inr c ↦ rw c here
      ]

  handle_read_registers-Reach :
      (tx unit fc : ℕ) (pdu : Bytes) (w : World p)
      → Reach w (handle_read_registers p s tx unit fc pdu w).1
  unfolding handle_read_registers
  handle_read_registers-Reach tx unit fc pdu w = elim (Bool-cases (ltb (length pdu) 5)) [
    | inl short ↦ rw short here
    | inr long ↦
        let address = uint16_at pdu 1 in
        let count = uint16_at pdu 3 in
        elim (Bool-cases (count == 0 || ltb 125 count)) [
          | inl c ↦ rw (long, c) here
          | inr c ↦ elim (Option-cases (get_bytes p.sql unit address count w.db)) [
            | inl e ↦ rw (long, c, e) (read_miss-Reach tx unit fc address count w)
            | inr (bytes, e) ↦ rw (long, c, e) here
          ]
        ]
  ]

  wrote_single-Reach :
      (tx unit address value : ℕ) (r : Result Bytes) (w : World p)
      → Reach w (wrote_single p tx unit address value (r, w)).1
  unfolding wrote_single
  wrote_single-Reach tx unit address value (ok bytes) w = next here (caches w _)
  wrote_single-Reach tx unit address value (err e) w = here

  handle_write_single_register-Reach :
      (tx unit : ℕ) (pdu : Bytes) (w : World p)
      → Reach w (handle_write_single_register p s tx unit pdu w).1
  unfolding handle_write_single_register
  handle_write_single_register-Reach tx unit pdu w = elim (Bool-cases (ltb (length pdu) 5)) [
    | inl short ↦ rw short here
    | inr long ↦ elim (Bool-cases s.attached) [
      | inr off ↦ rw (long, off) here
      | inl on ↦
          let address = uint16_at pdu 1 in
          let value = uint16_at pdu 3 in
          let r = write_single_register p unit address value w in
          rw (long, on)
            (Reach-trans (next here (writes_single w unit address value))
              (wrote_single-Reach tx unit address value r.0 r.1))
    ]
  ]

  wrote_multiple-Reach :
      (tx unit address count : ℕ) (bytes : Bytes) (r : Result Bytes) (w : World p)
      → Reach w (wrote_multiple p tx unit address count bytes (r, w)).1
  unfolding wrote_multiple
  wrote_multiple-Reach tx unit address count bytes (ok x) w = next here (caches w _)
  wrote_multiple-Reach tx unit address count bytes (err e) w = here

  write_slice-Reach :
      (tx unit address count : ℕ) (w : World p) (bytes : Bytes)
      → Reach w (write_slice p s tx unit address count w bytes).1
  unfolding write_slice
  write_slice-Reach tx unit address count w bytes = elim (Bool-cases s.attached) [
    | inr off ↦ rw off here
    | inl on ↦
        let r = write_multiple_registers p unit address count bytes w in
        rw on (
          Reach-trans (next here (writes_multiple w unit address count bytes))
            (wrote_multiple-Reach tx unit address count bytes r.0 r.1))
  ]

  handle_write_multiple_registers-After :
      (tx unit : ℕ) (pdu : Bytes) (w : World p)
      → After Reach w (handle_write_multiple_registers p s tx unit pdu w)
  unfolding handle_write_multiple_registers
  handle_write_multiple_registers-After tx unit pdu w = elim (Bool-cases (ltb (length pdu) 6)) [
    | inl short ↦ rw short here
    | inr long ↦
        let count = uint16_at pdu 3 in
        let byte_count = get_or pdu 5 0 in
        elim (Bool-cases (not (byte_count == count * 2) || ltb (length pdu) (6 + byte_count))) [
          | inl bad ↦ rw (long, bad) here
          | inr good ↦ elim (Option-cases (slice pdu 6 ((6 + byte_count) % 256))) [
            | inl e ↦ rw (long, good, e) tt
            | inr (bytes, e) ↦
                rw (long, good, e) (write_slice-Reach tx unit (uint16_at pdu 1) count w bytes)
          ]
        ]
  ]

  dispatch-After :
      (tx unit fc : ℕ) (pdu : Bytes) (w : World p) → After Reach w (dispatch p s tx unit fc pdu w)
  unfolding dispatch
  dispatch-After tx unit fc pdu w = elim (Bool-cases (fc == 0x03 || fc == 0x04)) [
    | inl reads_it ↦ rw reads_it (handle_read_registers-Reach tx unit fc pdu w)
    | inr a ↦ elim (Bool-cases (fc == 0x06)) [
      | inl single ↦ rw (a, single) (handle_write_single_register-Reach tx unit pdu w)
      | inr b ↦ elim (Bool-cases (fc == 0x10)) [
        | inl multiple ↦ rw (a, b, multiple) (handle_write_multiple_registers-After tx unit pdu w)
        | inr c ↦ rw (a, b, c) here
      ]
    ]
  ]

  -- What a connection does is a sequence of steps, with those of other goroutines between them.
  pub handle_connection-Reach :
      (fuel : ℕ) (input : Bytes) (w : World p) → Reach w (handle_connection p fuel s input w).2
  handle_connection-Reach =
      handle_connection_related p s Reach (record { stay = λ w. here; follow = Reach-trans })
        dispatch-After
