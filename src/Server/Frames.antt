-- ===== src/Server/Frames.antt =====
-- The response helpers of server.go. Each returns the bytes of its one `conn.Write`.
pub mod Shape
pub mod Typed
use Prim.Native.Nat.{bit_or}
use huawei_proxy.Prelude.{ℕ, ◌+◌, ◌%◌, List, [], ◌∷◌, ◌++◌, length}
use huawei_proxy.Bytes.{Bytes, append_uint16}

-- `sendReadResponse`
unfoldable pub send_read_response : (tx_id unit_id fc : ℕ) → Bytes → Bytes
send_read_response tx_id unit_id fc payload =
    let byte_count = length payload % 256 in
    let mbap_len = (3 + length payload) % 65536 in
    let resp = append_uint16 [] tx_id in
    let resp = append_uint16 resp 0 in
    let resp = append_uint16 resp mbap_len in
    let resp = resp ++ unit_id ∷ fc ∷ byte_count ∷ [] in resp ++ payload

-- `sendException`
unfoldable pub send_exception : (tx_id unit_id fc ex_code : ℕ) → Bytes
send_exception tx_id unit_id fc ex_code =
    let resp = append_uint16 [] tx_id in
    let resp = append_uint16 resp 0 in
    let resp = append_uint16 resp 3 in resp ++ unit_id ∷ bit_or fc 0x80 ∷ ex_code ∷ []

-- `sendWriteSingleResponse`
unfoldable pub send_write_single_response : (tx_id unit_id address value : ℕ) → Bytes
send_write_single_response tx_id unit_id address value =
    let resp = append_uint16 [] tx_id in
    let resp = append_uint16 resp 0 in
    let resp = append_uint16 resp 6 in
    let resp = resp ++ unit_id ∷ 0x06 ∷ [] in
    let resp = append_uint16 resp address in append_uint16 resp value

-- `sendWriteMultipleResponse`
unfoldable pub send_write_multiple_response : (tx_id unit_id address count : ℕ) → Bytes
send_write_multiple_response tx_id unit_id address count =
    let resp = append_uint16 [] tx_id in
    let resp = append_uint16 resp 0 in
    let resp = append_uint16 resp 6 in
    let resp = resp ++ unit_id ∷ 0x10 ∷ [] in
    let resp = append_uint16 resp address in append_uint16 resp count
