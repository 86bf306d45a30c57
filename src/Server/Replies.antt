-- ===== src/Server/Replies.antt =====
-- Each request that server.go dispatches is answered by one frame that belongs to it.
use Prim.Native.Nat.{bit_or}
use huawei_proxy.Prelude.{ℕ, ◌≤◌, ◌<◌, ◌≡◌, refl, ◌⊎◌, inl, inr, [], ◌∷◌, some, length, arith}
use mathlib.Core.Path.{subst}
use huawei_proxy.Bytes.{Bytes, IsWord, uint16_to_bytes}
use huawei_proxy.Bytes.RoundTrip.{length-uint16_to_bytes}
use huawei_proxy.Errors.{ok}
use huawei_proxy.Platform.{Platform}
use huawei_proxy.Client.{World}
use huawei_proxy.Server.Frames.Shape.{
  parse_reply, parse_reply-send_read_response, parse_reply-send_exception,
  parse_reply-send_write_single_response, parse_reply-send_write_multiple_response,
}
use huawei_proxy.Server.Handlers.{Server}
use huawei_proxy.Server.Connection.{dispatch}
use huawei_proxy.Server.Responses.{Allows, Allowed, dispatch-Allowed}

-- The bytes are a frame with the request's transaction and unit, whose body begins with the request's
-- function code, or is an exception for it.
pub record IsReplyTo (tx_id unit_id fc : ℕ) (response : Bytes) : Type 0 where
  pub body : Bytes
  pub parsed :
      parse_reply response ≡ some (record { tx_id = tx_id; unit_id = unit_id; body = body })
  pub answers :
      ((rest : Bytes) × (body ≡ fc ∷ rest)) ⊎ ((code : ℕ) × (body ≡ bit_or fc 0x80 ∷ code ∷ []))

-- A read of at most 125 registers gives no more bytes than the byte of its length can count.
abbrev pub ReadsShort : Platform → Type 0
ReadsShort p =
    (unit address count : ℕ) (link : p.modbus.Link) (bytes : Bytes)
    → count ≤ 125
    → (p.modbus.read_holding_registers unit address count link).0 ≡ ok bytes
    → length bytes < 256

-- The payload of a read fits the byte that counts it.
abbrev IsShort : Bytes → Type 0
IsShort bytes = length bytes < 256

replies-Allows :
    (p : Platform) (tx unit : ℕ)
    → ReadsShort p
    → IsWord tx
    → Allows p tx unit (IsReplyTo tx unit) IsShort
replies-Allows p tx unit short_reads t = record {
  refuses = λ fc code small. record {
    body = bit_or fc 0x80 ∷ code ∷ [];
    parsed = parse_reply-send_exception tx unit t fc code;
    answers = inr (code, refl);
  };
  gives = λ fc bytes h. record {
    body = fc ∷ length bytes ∷ bytes;
    parsed = parse_reply-send_read_response tx unit t fc bytes h;
    answers = inl (length bytes ∷ bytes, refl);
  };
  echoes_single = λ address value. record {
    body = 0x06 ∷ uint16_to_bytes (address ∷ value ∷ []);
    parsed = parse_reply-send_write_single_response tx unit t address value;
    answers = inl (uint16_to_bytes (address ∷ value ∷ []), refl);
  };
  echoes_multiple = λ address count. record {
    body = 0x10 ∷ uint16_to_bytes (address ∷ count ∷ []);
    parsed = parse_reply-send_write_multiple_response tx unit t address count;
    answers = inl (uint16_to_bytes (address ∷ count ∷ []), refl);
  };
  from_cache = λ vs small. omega (arith, length-uint16_to_bytes vs);
  from_inverter = short_reads unit;
}

-- Whatever the request, and whatever the inverter and the database do, the response is one frame with
-- the request's transaction and unit, with a length that is right, and with a body that begins with
-- the request's function code or is an exception for it. The library's reads give at most 255 bytes.
pub dispatch-IsReplyTo :
    (p : Platform) (s : Server) (tx unit fc : ℕ) (pdu : Bytes) (w w' : World p) (response : Bytes)
    → ReadsShort p
    → IsWord tx
    → dispatch p s tx unit fc pdu w ≡ some (response, w')
    → IsReplyTo tx unit fc response
dispatch-IsReplyTo p s tx unit fc pdu w w' response short_reads t e =
    let laws = replies-Allows p tx unit short_reads t in
    subst (Allowed p s tx unit (IsReplyTo tx unit) IsShort laws fc) e
      (dispatch-Allowed p s tx unit (IsReplyTo tx unit) IsShort laws fc pdu w)
