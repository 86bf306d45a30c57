-- ===== src/Server/Detached.antt =====
-- The server of server.go before `SetInverterClient`: main.go starts it before it connects.
use huawei_proxy.Prelude.{
  ℕ, ◌*◌, ◌+◌, ◌%◌, ◌≤◌, ◌<◌, ◌≡◌, refl, ◌∙◌, inl, inr, false, not, ◌&&◌, ◌||◌, Bool-cases, none,
  some, Option-cases, ltb, ◌==◌, length, get_or, arith,
}
use huawei_proxy.Bytes.{Bytes, IsWord, uint16_to_bytes}
use huawei_proxy.Platform.{Platform}
use huawei_proxy.Cache.{get_bytes}
use huawei_proxy.Client.{World}
use huawei_proxy.Server.Frames.{send_exception}
use huawei_proxy.Server.Handlers.{
  Server, uint16_at, slice, read_miss, handle_read_registers, handle_write_single_register,
  write_slice, handle_write_multiple_registers,
}
use huawei_proxy.Server.Connection.{dispatch, handle_connection}
use huawei_proxy.Server.Rounds.{After, handle_connection_related}
use huawei_proxy.Server.Coherence.{read_request, handle_read_registers-miss}
use huawei_proxy.Server.Writes.{write_request}
use huawei_proxy.Server.Blocks.{block_request, slice-block_request}

module _ (p : Platform) (s : Server) (off : s.attached ≡ false) where
  -- The second state is the first.
  abbrev Same : World p → World p → Type 0
  Same w v = v ≡ w

  read_miss-Same :
      (tx unit fc address count : ℕ) (w : World p)
      → read_miss p s tx unit fc address count w ≡ (send_exception tx unit fc 0x02, w)
  unfolding read_miss
  read_miss-Same tx unit fc address count w =
      let b : (s.forward_unknown_reads && s.attached) ≡ false = ground (arith, off) in rw b refl

  handle_read_registers-Same :
      (tx unit fc : ℕ) (pdu : Bytes) (w : World p)
      → Same w (handle_read_registers p s tx unit fc pdu w).1
  unfolding handle_read_registers
  handle_read_registers-Same tx unit fc pdu w = elim (Bool-cases (ltb (length pdu) 5)) [
    | inl short ↦ rw short refl
    | inr long ↦
        let address = uint16_at pdu 1 in
        let count = uint16_at pdu 3 in
        elim (Bool-cases (count == 0 || ltb 125 count)) [
          | inl c ↦ rw (long, c) refl
          | inr c ↦ elim (Option-cases (get_bytes p.sql unit address count w.db)) [
            | inl e ↦ rw (long, c, e, read_miss-Same tx unit fc address count w) refl
            | inr (bytes, e) ↦ rw (long, c, e) refl
          ]
        ]
  ]

  handle_write_single_register-Same :
      (tx unit : ℕ) (pdu : Bytes) (w : World p)
      → Same w (handle_write_single_register p s tx unit pdu w).1
  unfolding handle_write_single_register
  handle_write_single_register-Same tx unit pdu w = elim (Bool-cases (ltb (length pdu) 5)) [
    | inl short ↦ rw short refl
    | inr long ↦ rw (long, off) refl
  ]

  handle_write_multiple_registers-Same :
      (tx unit : ℕ) (pdu : Bytes) (w : World p)
      → After Same w (handle_write_multiple_registers p s tx unit pdu w)
  unfolding handle_write_multiple_registers write_slice
  handle_write_multiple_registers-Same tx unit pdu w = elim (Bool-cases (ltb (length pdu) 6)) [
    | inl short ↦ rw short refl
    | inr long ↦
        let count = uint16_at pdu 3 in
        let byte_count = get_or pdu 5 0 in
        elim (Bool-cases (not (byte_count == count * 2) || ltb (length pdu) (6 + byte_count))) [
          | inl bad ↦ rw (long, bad) refl
          | inr good ↦ elim (Option-cases (slice pdu 6 ((6 + byte_count) % 256))) [
            | inl e ↦ rw (long, good, e) tt
            | inr (bytes, e) ↦ rw (long, good, e) (rw off refl)
          ]
        ]
  ]

  dispatch-Same :
      (tx unit fc : ℕ) (pdu : Bytes) (w : World p) → After Same w (dispatch p s tx unit fc pdu w)
  unfolding dispatch
  dispatch-Same tx unit fc pdu w = elim (Bool-cases (fc == 0x03 || fc == 0x04)) [
    | inl reads_it ↦ rw reads_it (handle_read_registers-Same tx unit fc pdu w)
    | inr a ↦ elim (Bool-cases (fc == 0x06)) [
      | inl single ↦ rw (a, single) (handle_write_single_register-Same tx unit pdu w)
      | inr b ↦ elim (Bool-cases (fc == 0x10)) [
        | inl multiple ↦ rw (a, b, multiple) (handle_write_multiple_registers-Same tx unit pdu w)
        | inr c ↦ rw (a, b, c) refl
      ]
    ]
  ]

  handle_connection-Same :
      (fuel : ℕ) (input : Bytes) (w : World p) → (handle_connection p fuel s input w).2 ≡ w
  handle_connection-Same =
      handle_connection_related p s Same
        (record { stay = λ w. refl; follow = λ {u} {v} {w} a b. b ∙ a }) dispatch-Same

  handle_read_registers-detached :
      (tx unit fc address count : ℕ) (w : World p)
      → IsWord address
      → 0 < count
      → count ≤ 125
      → get_bytes p.sql unit address count w.db ≡ none
      → handle_read_registers p s tx unit fc (read_request fc address count) w
        ≡ (send_exception tx unit fc 0x02, w)
  handle_read_registers-detached tx unit fc address count w a positive limit e =
      handle_read_registers-miss p s tx unit fc address count a positive limit w e
      ∙ read_miss-Same tx unit fc address count w

  handle_write_single_register-detached :
      (tx unit address value : ℕ) (w : World p)
      → handle_write_single_register p s tx unit (write_request address value) w
        ≡ (send_exception tx unit 0x06 0x04, w)
  unfolding handle_write_single_register uint16_to_bytes
  handle_write_single_register-detached tx unit address value w = rw off refl

  handle_write_multiple_registers-detached :
      (tx unit address count : ℕ) (bytes : Bytes) (w : World p)
      → IsWord address
      → count ≤ 124
      → length bytes ≡ 2 * count
      → handle_write_multiple_registers p s tx unit (block_request address count bytes) w
        ≡ some (send_exception tx unit 0x10 0x04, w)
  unfolding handle_write_multiple_registers write_slice
  handle_write_multiple_registers-detached tx unit address count bytes w a c l =
      let pdu = block_request address count bytes in
      let y : uint16_at pdu 3 ≡ count = omega arith in
      let n : get_or pdu 5 0 ≡ count * 2 = refl in
      let long : ltb (length pdu) 6 ≡ false = ground arith in
      let fits : (not (count * 2 == count * 2) || ltb (length pdu) (6 + count * 2)) ≡ false =
        ground arith in
      let cut = slice-block_request p s tx unit address count bytes a c l in
      rw (long, n, y, fits, cut, write_slice, off) refl

-- Before an inverter client is attached, whatever a client sends on a connection leaves the cache, the
-- wire and the rest of the state as they were. A read that the cache misses is refused with the
-- exception 0x02, and a write of one register, or of up to 124 in one request, with 0x04.
pub handle_connection-detached :
    (p : Platform) (s : Server) (fuel : ℕ) (input : Bytes) (w : World p)
    (tx unit fc address count value size : ℕ) (block : Bytes)
    → s.attached ≡ false
    → IsWord address
    → 0 < count
    → count ≤ 125
    → get_bytes p.sql unit address count w.db ≡ none
    → size ≤ 124
    → length block ≡ 2 * size
    → ((handle_connection p fuel s input w).2 ≡ w)
      × (handle_read_registers p s tx unit fc (read_request fc address count) w
          ≡ (send_exception tx unit fc 0x02, w))
      × (handle_write_single_register p s tx unit (write_request address value) w
          ≡ (send_exception tx unit 0x06 0x04, w))
      × (handle_write_multiple_registers p s tx unit (block_request address size block) w
          ≡ some (send_exception tx unit 0x10 0x04, w))
handle_connection-detached p s fuel input w tx unit fc address count value size block off a positive
      limit e fit l =
    (
      handle_connection-Same p s off fuel input w,
      handle_read_registers-detached p s off tx unit fc address count w a positive limit e,
      handle_write_single_register-detached p s off tx unit address value w,
      handle_write_multiple_registers-detached p s off tx unit address size block w a fit l,
    )
