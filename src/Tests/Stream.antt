-- ===== src/Tests/Stream.antt =====
-- A client that sends two requests and three bytes more, over the small platform.
use huawei_proxy.Prelude.{
  ℕ, replicate, Bool-cases, inl, inr, ◌==◌, All, List, [], ◌∷◌, ◌≡◌, refl, arith,
}
use huawei_proxy.Bytes.{Bytes}
use huawei_proxy.Client.{World}
use huawei_proxy.Server.Connection.{closed, handle_connection}
use huawei_proxy.Server.Stream.{Request, encode, in_header, Serves, handle_connection-Serves}
use mathlib.Core.Path.{subst}
use huawei_proxy.Bytes.{AreBytes, uint16_to_bytes}
use huawei_proxy.Bytes.RoundTrip.{uint16_to_bytes-AreBytes}
use huawei_proxy.Errors.{ok}
use huawei_proxy.Server.Typed.{SendsBytes, handle_connection-AreBytes}
use huawei_proxy.Tests.Setup.{house, start, forwarding}

abbrev reads_two : Request
reads_two = record { tx_id = 1; unit_id = 1; fc = 3; body = 0 ∷ 100 ∷ 0 ∷ 2 ∷ [] }

abbrev writes_one : Request
writes_one = record { tx_id = 2; unit_id = 1; fc = 6; body = 0 ∷ 101 ∷ 0 ∷ 7 ∷ [] }

abbrev sent : List Request
sent = reads_two ∷ writes_one ∷ []

handle_connection-Serves_example :
    (responses : List Bytes) × (v : World house) × (handle_connection house 3 forwarding
        (encode sent (0 ∷ 3 ∷ 0 ∷ []))
        start
      ≡ (closed, responses, v))
    × Serves house forwarding sent start responses v
handle_connection-Serves_example =
    handle_connection-Serves house forwarding sent (0 ∷ 3 ∷ 0 ∷ []) 3 start refl
      ((omega arith, omega arith), ((omega arith, omega arith), tt)) (in_header (omega arith))
      (omega arith)

repeated : (n : ℕ) → AreBytes (uint16_to_bytes (replicate n 0x1234))
repeated n = uint16_to_bytes-AreBytes (replicate n 0x1234)

house-SendsBytes : SendsBytes house
house-SendsBytes unit address count link bytes e = elim (Bool-cases (unit == 9)) [
  | inl t ↦ absurd (cc (rw t at e))
  | inr f ↦
      let same : ok (uint16_to_bytes (replicate count 0x1234)) ≡ ok bytes = rw f at e in
      let bytes_same : uint16_to_bytes (replicate count 0x1234) ≡ bytes = cc in
      subst AreBytes bytes_same (repeated count)
]

handle_connection-AreBytes_example :
    All AreBytes (handle_connection house 3 forwarding (encode sent (0 ∷ 3 ∷ 0 ∷ [])) start).1
handle_connection-AreBytes_example =
    handle_connection-AreBytes house forwarding house-SendsBytes 3 (encode sent (0 ∷ 3 ∷ 0 ∷ []))
      start (unfold encode in ground arith)
