-- ===== src/Server/Responses.antt =====
-- What holds of each response of server.go, if it holds of the four kinds of frames that it writes.
use huawei_proxy.Prelude.{
  ℕ, ◌+◌, ◌*◌, ◌%◌, ◌≤◌, ◌<◌, ◌≡◌, refl, sym, ◌∙◌, inl, inr, not, ◌&&◌, ◌||◌, Bool-cases, List,
  Option, none, some, Option-cases, some-injective, ltb, ◌==◌, length, get_or, arith,
}
use mathlib.Core.Path.{subst}
use huawei_proxy.Bytes.{Bytes, uint16_to_bytes}
use huawei_proxy.Errors.{Result, ok, err}
use huawei_proxy.Platform.{Platform}
use huawei_proxy.Cache.{get, get_bytes}
use huawei_proxy.Cache.Get.{get_sound}
use huawei_proxy.Client.{
  World, read, read_registers, write_single_register, write_multiple_registers,
}
use huawei_proxy.Dashboard.Safety.{length-cached_values}
use huawei_proxy.Reader.Scan.Live.{transact-result}
use huawei_proxy.Server.Frames.{
  send_read_response, send_exception, send_write_single_response, send_write_multiple_response,
}
use huawei_proxy.Server.Handlers.{
  Server, uint16_at, slice, forwarded_read, read_miss, handle_read_registers, wrote_single,
  handle_write_single_register, wrote_multiple, write_slice, handle_write_multiple_registers,
}
use huawei_proxy.Server.Connection.{dispatch}

-- The laws of a property `Q` of function codes and their responses, where `G` is what it takes of the
-- payload of a read.
pub record Allows (p : Platform) (tx unit : ℕ) (Q : ℕ → Bytes → Type 0) (G : Bytes → Type 0)
    : Type 0 where
  pub refuses : (fc code : ℕ) → code < 256 → Q fc (send_exception tx unit fc code)
  pub gives : (fc : ℕ) (bytes : Bytes) → G bytes → Q fc (send_read_response tx unit fc bytes)
  pub echoes_single :
      (address value : ℕ) → Q 0x06 (send_write_single_response tx unit address value)
  pub echoes_multiple :
      (address count : ℕ) → Q 0x10 (send_write_multiple_response tx unit address count)
  pub from_cache : (vs : List ℕ) → length vs ≤ 125 → G (uint16_to_bytes vs)
  pub from_inverter :
      (address count : ℕ) (link : p.modbus.Link) (bytes : Bytes)
      → count ≤ 125
      → (p.modbus.read_holding_registers unit address count link).0 ≡ ok bytes
      → G bytes

module _ (p : Platform) (s : Server) (tx unit : ℕ) (Q : ℕ → Bytes → Type 0) (G : Bytes → Type 0)
    (laws : Allows p tx unit Q G) where
  get_bytes-G :
      (address count : ℕ) (db : p.sql.Db) (bytes : Bytes)
      → count ≤ 125
      → get_bytes p.sql unit address count db ≡ some bytes
      → G bytes
  unfolding get_bytes
  get_bytes-G address count db bytes small e =
      elim (Option-cases (get p.sql unit address count db)) [
        | inl n ↦ absurd (cc (rw n at e))
        | inr (vs, n) ↦
            let same : uint16_to_bytes vs ≡ bytes = some-injective (rw n at e) in
            let l : length vs ≡ count =
              length-cached_values (p.sql.committed db unit) address count vs
                (get_sound p.sql unit address count db vs n) in
            subst G same (laws.from_cache vs (omega (arith, l)))
      ]

  forwarded_read-Q :
      (fc address : ℕ) (r : Result Bytes) (w : World p)
      → ((bytes : Bytes) → r ≡ ok bytes → G bytes)
      → Q fc (forwarded_read p tx unit fc address (r, w)).0
  unfolding forwarded_read
  forwarded_read-Q fc address (ok bytes) w h = laws.gives fc bytes (h bytes refl)
  forwarded_read-Q fc address (err e) w h = laws.refuses fc 0x04 (omega arith)

  read_miss-Q :
      (fc address count : ℕ) (w : World p)
      → count ≤ 125
      → Q fc (read_miss p s tx unit fc address count w).0
  unfolding read_miss read_registers
  read_miss-Q fc address count w small = elim (Bool-cases (s.forward_unknown_reads && s.attached)) [
    | inl c ↦
        let r = read_registers p unit address count w in
        let asked =
          transact-result p unit (read address count)
            (λ slave. p.modbus.read_holding_registers slave address count) w in
        rw c (
          forwarded_read-Q fc address r.0 r.1
            (λ bytes e. laws.from_inverter address count w.link bytes small (sym asked ∙ e)))
    | inr c ↦ rw c (laws.refuses fc 0x02 (omega arith))
  ]

  handle_read_registers-Q :
      (fc : ℕ) (pdu : Bytes) (w : World p) → Q fc (handle_read_registers p s tx unit fc pdu w).0
  unfolding handle_read_registers
  handle_read_registers-Q fc pdu w = elim (Bool-cases (ltb (length pdu) 5)) [
    | inl short ↦ rw short (laws.refuses fc 0x03 (omega arith))
    | inr long ↦
        let address = uint16_at pdu 1 in
        let count = uint16_at pdu 3 in
        elim (Bool-cases (count == 0 || ltb 125 count)) [
          | inl c ↦ rw (long, c) (laws.refuses fc 0x03 (omega arith))
          | inr c ↦
              let small : count ≤ 125 = ground (arith, c) in
              elim (Option-cases (get_bytes p.sql unit address count w.db)) [
                | inl e ↦ rw (long, c, e) (read_miss-Q fc address count w small)
                | inr (bytes, e) ↦
                    rw (long, c, e)
                      (laws.gives fc bytes (get_bytes-G address count w.db bytes small e))
              ]
        ]
  ]

  wrote_single-Q :
      (address value : ℕ) (r : Result Bytes) (w : World p)
      → Q 0x06 (wrote_single p tx unit address value (r, w)).0
  unfolding wrote_single
  wrote_single-Q address value (ok bytes) w = laws.echoes_single address value
  wrote_single-Q address value (err e) w = laws.refuses 0x06 0x04 (omega arith)

  handle_write_single_register-Q :
      (pdu : Bytes) (w : World p) → Q 0x06 (handle_write_single_register p s tx unit pdu w).0
  unfolding handle_write_single_register
  handle_write_single_register-Q pdu w = elim (Bool-cases (ltb (length pdu) 5)) [
    | inl short ↦ rw short (laws.refuses 0x06 0x03 (omega arith))
    | inr long ↦ elim (Bool-cases s.attached) [
      | inr off ↦ rw (long, off) (laws.refuses 0x06 0x04 (omega arith))
      | inl on ↦
          let address = uint16_at pdu 1 in
          let value = uint16_at pdu 3 in
          let r = write_single_register p unit address value w in
          rw (long, on) (wrote_single-Q address value r.0 r.1)
    ]
  ]

  wrote_multiple-Q :
      (address count : ℕ) (bytes : Bytes) (r : Result Bytes) (w : World p)
      → Q 0x10 (wrote_multiple p tx unit address count bytes (r, w)).0
  unfolding wrote_multiple
  wrote_multiple-Q address count bytes (ok x) w = laws.echoes_multiple address count
  wrote_multiple-Q address count bytes (err e) w = laws.refuses 0x10 0x04 (omega arith)

  write_slice-Q :
      (address count : ℕ) (w : World p) (bytes : Bytes)
      → Q 0x10 (write_slice p s tx unit address count w bytes).0
  unfolding write_slice
  write_slice-Q address count w bytes = elim (Bool-cases s.attached) [
    | inr off ↦ rw off (laws.refuses 0x10 0x04 (omega arith))
    | inl on ↦
        let r = write_multiple_registers p unit address count bytes w in
        rw on (wrote_multiple-Q address count bytes r.0 r.1)
  ]

  -- The response, if there is no panic, has the property.
  abbrev pub Allowed : ℕ → Option (Bytes × World p) → Type 0
  Allowed fc none = Unit
  Allowed fc (some (response, w)) = Q fc response

  handle_write_multiple_registers-Allowed :
      (pdu : Bytes) (w : World p) → Allowed 0x10 (handle_write_multiple_registers p s tx unit pdu w)
  unfolding handle_write_multiple_registers
  handle_write_multiple_registers-Allowed pdu w = elim (Bool-cases (ltb (length pdu) 6)) [
    | inl short ↦ rw short (laws.refuses 0x10 0x03 (omega arith))
    | inr long ↦
        let count = uint16_at pdu 3 in
        let byte_count = get_or pdu 5 0 in
        elim (Bool-cases (not (byte_count == count * 2) || ltb (length pdu) (6 + byte_count))) [
          | inl bad ↦ rw (long, bad) (laws.refuses 0x10 0x03 (omega arith))
          | inr good ↦ elim (Option-cases (slice pdu 6 ((6 + byte_count) % 256))) [
            | inl e ↦ rw (long, good, e) tt
            | inr (bytes, e) ↦ rw (long, good, e) (write_slice-Q (uint16_at pdu 1) count w bytes)
          ]
        ]
  ]

  pub dispatch-Allowed :
      (fc : ℕ) (pdu : Bytes) (w : World p) → Allowed fc (dispatch p s tx unit fc pdu w)
  unfolding dispatch
  dispatch-Allowed fc pdu w = elim (Bool-cases (fc == 0x03 || fc == 0x04)) [
    | inl reads_it ↦ rw reads_it (handle_read_registers-Q fc pdu w)
    | inr a ↦ elim (Bool-cases (fc == 0x06)) [
      | inl single ↦
          let same : fc ≡ 0x06 = ground arith in
          rw (a, single)
            (subst (λ f. Q f (handle_write_single_register p s tx unit pdu w).0) (sym same)
              (handle_write_single_register-Q pdu w))
      | inr b ↦ elim (Bool-cases (fc == 0x10)) [
        | inl multiple ↦
            let same : fc ≡ 0x10 = ground arith in
            rw (a, b, multiple)
              (subst (λ f. Allowed f (handle_write_multiple_registers p s tx unit pdu w)) (sym same)
                (handle_write_multiple_registers-Allowed pdu w))
        | inr c ↦ rw (a, b, c) (laws.refuses fc 0x01 (omega arith))
      ]
    ]
  ]
