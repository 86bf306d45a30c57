-- ===== src/Server/Frames/Shape.antt =====
-- The frames that server.go writes, as a Modbus TCP client reads them.
use Prim.Native.Nat.{bit_or}
use huawei_proxy.Prelude.{
  ℕ, ◌+◌, ◌%◌, ◌<◌, ◌≡◌, refl, ◌&&◌, [], ◌∷◌, Option, none, some, length, ◌==◌, if◌then◌else◌,
  arith,
}
use huawei_proxy.Bytes.{Bytes, IsWord, word, high_byte, low_byte, uint16_to_bytes}
use huawei_proxy.Server.Frames.{
  send_read_response, send_exception, send_write_single_response, send_write_multiple_response,
}

-- A reply as the client sees it: the header's fields, and the bytes behind the unit ID.
pub record Reply : Type 0 where
  pub tx_id : ℕ
  pub unit_id : ℕ
  pub body : Bytes

-- The client's reading of a whole frame: protocol 0, and a length that counts the unit ID and the
-- body exactly.
unfoldable pub parse_reply : Bytes → Option Reply
parse_reply (t1 ∷ t0 ∷ p1 ∷ p0 ∷ l1 ∷ l0 ∷ unit_id ∷ body) =
    if word p1 p0 == 0 && word l1 l0 == length body + 1
    then some (record { tx_id = word t1 t0; unit_id = unit_id; body = body })
    else none
parse_reply _ = none

parse_frame :
    (tx_id unit_id n : ℕ) (body : Bytes)
    → IsWord tx_id
    → IsWord n
    → length body + 1 ≡ n
    → parse_reply
        (high_byte tx_id ∷ low_byte tx_id ∷ 0 ∷ 0 ∷ high_byte n ∷ low_byte n ∷ unit_id ∷ body)
      ≡ some (record { tx_id = tx_id; unit_id = unit_id; body = body })
unfolding parse_reply
parse_frame tx_id unit_id n body t h e =
    let a : word (high_byte tx_id) (low_byte tx_id) ≡ tx_id = omega arith in
    let b : word (high_byte n) (low_byte n) ≡ length body + 1 = omega arith in
    rw (a, b) (ground arith)

module _ (tx_id unit_id : ℕ) (t : IsWord tx_id) where
  -- A read response is a frame with the request's transaction and unit, and with a byte count that is
  -- the number of the data bytes, if these are at most 255.
  pub parse_reply-send_read_response :
      (fc : ℕ) (bytes : Bytes)
      → length bytes < 256
      → parse_reply (send_read_response tx_id unit_id fc bytes)
        ≡ some (record { tx_id = tx_id; unit_id = unit_id; body = fc ∷ length bytes ∷ bytes })
  unfolding send_read_response
  parse_reply-send_read_response fc bytes h =
      let a : length bytes % 256 ≡ length bytes = omega arith in
      let b : (3 + length bytes) % 65536 ≡ 3 + length bytes = omega arith in
      rw (a, b)
        (parse_frame tx_id unit_id (3 + length bytes) (fc ∷ length bytes ∷ bytes) t (omega arith)
          (omega arith))

  -- An exception is a frame with the function code's top bit set and the exception code.
  pub parse_reply-send_exception :
      (fc ex_code : ℕ)
      → parse_reply (send_exception tx_id unit_id fc ex_code)
        ≡ some (record { tx_id = tx_id; unit_id = unit_id; body = bit_or fc 0x80 ∷ ex_code ∷ [] })
  unfolding send_exception
  parse_reply-send_exception fc ex_code =
      parse_frame tx_id unit_id 3 (bit_or fc 0x80 ∷ ex_code ∷ []) t (omega arith) refl

  -- A write is answered by a frame that echoes the address and the value or count.
  pub parse_reply-send_write_single_response :
      (address value : ℕ)
      → parse_reply (send_write_single_response tx_id unit_id address value)
        ≡ some (record {
          tx_id = tx_id;
          unit_id = unit_id;
          body = 0x06 ∷ uint16_to_bytes (address ∷ value ∷ []);
        })
  unfolding send_write_single_response uint16_to_bytes
  parse_reply-send_write_single_response address value =
      parse_frame tx_id unit_id 6 (0x06 ∷ uint16_to_bytes (address ∷ value ∷ [])) t (omega arith)
        refl

  pub parse_reply-send_write_multiple_response :
      (address count : ℕ)
      → parse_reply (send_write_multiple_response tx_id unit_id address count)
        ≡ some (record {
          tx_id = tx_id;
          unit_id = unit_id;
          body = 0x10 ∷ uint16_to_bytes (address ∷ count ∷ []);
        })
  unfolding send_write_multiple_response uint16_to_bytes
  parse_reply-send_write_multiple_response address count =
      parse_frame tx_id unit_id 6 (0x10 ∷ uint16_to_bytes (address ∷ count ∷ [])) t (omega arith)
        refl
