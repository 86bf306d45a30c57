-- ===== src/Server/Typed.antt =====
-- The numbers that server.go writes to a connection are bytes.
use huawei_proxy.Prelude.{
  ℕ, zero, suc, ◌-◌, ◌≡◌, inl, inr, ◌||◌, Bool-cases, List, [], ◌∷◌, some, Option-cases, All, ltb,
  ◌==◌, get_or, take, drop, arith,
}
use mathlib.Core.Path.{subst}
use huawei_proxy.Bytes.{Bytes, IsByte, AreBytes}
use huawei_proxy.Bytes.RoundTrip.{uint16_to_bytes-AreBytes}
use huawei_proxy.Errors.{ok}
use huawei_proxy.Platform.{Platform, cancelled}
use huawei_proxy.Client.{World}
use huawei_proxy.Server.Frames.{send_write_single_response, send_write_multiple_response}
use huawei_proxy.Server.Frames.Typed.{
  send_exception-AreBytes, send_read_response-AreBytes, echo-AreBytes,
}
use huawei_proxy.Server.Handlers.{Server, uint16_at}
use huawei_proxy.Server.Responses.{Allows, Allowed, dispatch-Allowed}
use huawei_proxy.Server.Connection.{
  Turn, returned, panicked, answered, End, closed, crashed, read_full, dispatch, serve_pdu,
  serve_header, serve_one, handle_connection,
}

-- What the inverter sends are bytes.
abbrev pub SendsBytes : Platform → Type 0
SendsBytes p =
    (unit address count : ℕ) (link : p.modbus.Link) (bytes : Bytes)
    → (p.modbus.read_holding_registers unit address count link).0 ≡ ok bytes
    → AreBytes bytes

typed-Allows :
    (p : Platform) (tx unit : ℕ)
    → SendsBytes p
    → IsByte unit
    → Allows p tx unit (λ fc response. IsByte fc → AreBytes response) AreBytes
unfolding send_write_single_response send_write_multiple_response
typed-Allows p tx unit sends u = record {
  refuses = λ fc code small f. send_exception-AreBytes tx unit fc code u f small;
  gives = λ fc bytes h f. send_read_response-AreBytes tx unit fc bytes u f h;
  echoes_single = λ address value f. echo-AreBytes tx unit 0x06 address value u f;
  echoes_multiple = λ address count f. echo-AreBytes tx unit 0x10 address count u f;
  from_cache = λ vs small. uint16_to_bytes-AreBytes vs;
  from_inverter = λ address count link bytes small. sends unit address count link bytes;
}

take-AreBytes : (n : ℕ) (bs : Bytes) → AreBytes bs → AreBytes (take n bs)
take-AreBytes zero bs h = tt
take-AreBytes (suc n) [] h = tt
take-AreBytes (suc n) (b ∷ bs) (h, hs) = (h, take-AreBytes n bs hs)

drop-AreBytes : (n : ℕ) (bs : Bytes) → AreBytes bs → AreBytes (drop n bs)
drop-AreBytes zero bs h = h
drop-AreBytes (suc n) [] h = tt
drop-AreBytes (suc n) (b ∷ bs) (h, hs) = drop-AreBytes n bs hs

get_or-IsByte : (bs : Bytes) (i : ℕ) → AreBytes bs → IsByte (get_or bs i 0)
get_or-IsByte [] i h = omega arith
get_or-IsByte (b ∷ bs) zero (h, hs) = h
get_or-IsByte (b ∷ bs) (suc i) (h, hs) = get_or-IsByte bs i hs

read_full-AreBytes :
    (n : ℕ) (input got left : Bytes)
    → AreBytes input
    → read_full n input ≡ some (got, left)
    → AreBytes got × AreBytes left
unfolding read_full
read_full-AreBytes n input got left h e =
    let whole : (got ≡ take n input) × (left ≡ drop n input) = ground arith in
    rw whole.0 (rw whole.1 (take-AreBytes n input h, drop-AreBytes n input h))

-- The response and what is left of the input are bytes.
abbrev IsTyped : {p : Platform} → Turn p → Type 0
IsTyped (returned w) = Unit
IsTyped panicked = Unit
IsTyped (answered response left w) = AreBytes response × AreBytes left

module _ (p : Platform) (s : Server) (sends : SendsBytes p) where
  serve_pdu-IsTyped :
      (tx unit : ℕ) (pdu left : Bytes) (w : World p)
      → IsByte unit
      → AreBytes pdu
      → AreBytes left
      → IsTyped (serve_pdu p s tx unit pdu left w)
  unfolding serve_pdu
  serve_pdu-IsTyped tx unit [] left w u h l = tt
  serve_pdu-IsTyped tx unit (fc ∷ pdu) left w u (f, h) l =
      let laws = typed-Allows p tx unit sends u in
      elim (Option-cases (dispatch p s tx unit fc (fc ∷ pdu) w)) [
        | inl e ↦ rw (e, serve_pdu, IsTyped) tt
        | inr ((response, v), e) ↦
            rw (e, serve_pdu, IsTyped)
              (
                subst (Allowed p s tx unit _ AreBytes laws fc) e
                    (dispatch-Allowed p s tx unit _ AreBytes laws fc (fc ∷ pdu) w) f,
                l,
              )
      ]

  serve_header-IsTyped :
      (header rest : Bytes) (w : World p)
      → AreBytes header
      → AreBytes rest
      → IsTyped (serve_header p s header rest w)
  unfolding serve_header
  serve_header-IsTyped header rest w h r =
      let size = uint16_at header 4 in
      elim (Bool-cases (uint16_at header 2 == 0)) [
        | inr foreign ↦ rw foreign tt
        | inl ours ↦ elim (Bool-cases (ltb size 2 || ltb 256 size)) [
          | inl bad ↦ rw (ours, bad) tt
          | inr good ↦ elim (Option-cases (read_full (size - 1) rest)) [
            | inl e ↦ rw (ours, good, e) tt
            | inr ((pdu, left), e) ↦
                let (a, b) = read_full-AreBytes (size - 1) rest pdu left r e in
                rw (ours, good, e)
                  (serve_pdu-IsTyped (uint16_at header 0) (get_or header 6 0) pdu left w
                    (get_or-IsByte header 6 h) a b)
          ]
        ]
      ]

  serve_one-IsTyped :
      (input : Bytes) (w : World p) → AreBytes input → IsTyped (serve_one p s input w)
  unfolding serve_one
  serve_one-IsTyped input w h = elim (Bool-cases (cancelled p.cancel_at w.clock)) [
    | inl c ↦ rw c tt
    | inr c ↦ elim (Option-cases (read_full 7 input)) [
      | inl e ↦ rw (c, e) tt
      | inr ((header, rest), e) ↦
          let (a, b) = read_full-AreBytes 7 input header rest h e in
          rw (c, e) (serve_header-IsTyped header rest w a b)
    ]
  ]

  continue-AreBytes :
      (fuel : ℕ) (turn : Turn p) (w : World p)
      → ((input : Bytes) (v : World p)
          → AreBytes input
          → All AreBytes (handle_connection p fuel s input v).1)
      → IsTyped turn
      → All AreBytes
          (elim turn as (λ x. End × List Bytes × World p) [
            | returned v ↦ (closed, [], v)
            | panicked ↦ (crashed, [], w)
            | answered response left v ↦
                let (end, responses, v') = handle_connection p fuel s left v in
                (end, response ∷ responses, v')
          ]).1
  continue-AreBytes fuel (returned v) w go h = tt
  continue-AreBytes fuel panicked w go h = tt
  continue-AreBytes fuel (answered response left v) w go (r, l) = (r, go left v l)

  -- Every number that a connection writes is a byte: if what the client sends and what the inverter
  -- answers are bytes, so are all responses, whatever numbers the cache holds.
  pub handle_connection-AreBytes :
      (fuel : ℕ) (input : Bytes) (w : World p)
      → AreBytes input
      → All AreBytes (handle_connection p fuel s input w).1
  unfolding handle_connection
  handle_connection-AreBytes zero input w h = tt
  handle_connection-AreBytes (suc fuel) input w h =
      continue-AreBytes fuel (serve_one p s input w) w (handle_connection-AreBytes fuel)
        (serve_one-IsTyped input w h)
