-- ===== src/Server/Safety.antt =====
-- No input makes `handleConnection` of server.go panic, and the loop ends.
use huawei_proxy.Prelude.{
  ℕ, zero, suc, ◌+◌, ◌-◌, ◌≤◌, ◌<◌, ◌≡◌, ◌≢◌, refl, inl, inr, [], ◌∷◌, none, some, Option-cases,
  Bool-cases, length, length-take, length-drop, get_or, take, drop, arith, ltb, not, ◌||◌, ◌==◌,
  ◌⊎◌,
}
use huawei_proxy.Bytes.{Bytes}
use huawei_proxy.Platform.{Platform, cancelled}
use huawei_proxy.Client.{World}
use huawei_proxy.Server.Handlers.{Server, slice, handle_write_multiple_registers, uint16_at}
use huawei_proxy.Server.Connection.{
  read_full, Turn, returned, panicked, answered, dispatch, serve_pdu, serve_header, serve_one,
  closed, handle_connection,
}

slice-some :
    (b : Bytes) (lo hi : ℕ)
    → lo ≤ hi
    → hi ≤ length b
    → slice b lo hi ≡ some (take (hi - lo) (drop lo b))
unfolding slice
slice-some b lo hi h k = ground arith

-- A round that neither panics nor leaves all its input.
abbrev pub IsFine : {p : Platform} → ℕ → Turn p → Type 0
IsFine n (returned w) = Unit
IsFine n panicked = ⊥
IsFine n (answered response left w) = length left < n

module _ (p : Platform) (s : Server) where
  -- The slice `pdu[6 : 6+byteCount]` cannot wrap in a PDU of at most 255 bytes.
  handle_write_multiple_registers-ne-none :
      (tx_id unit_id : ℕ) (pdu : Bytes) (w : World p)
      → length pdu ≤ 255
      → handle_write_multiple_registers p s tx_id unit_id pdu w ≢ none
  unfolding handle_write_multiple_registers slice
  handle_write_multiple_registers-ne-none tx_id unit_id pdu w h = ground arith

  pub dispatch-ne-none :
      (tx_id unit_id fc : ℕ) (pdu : Bytes) (w : World p)
      → length pdu ≤ 255
      → dispatch p s tx_id unit_id fc pdu w ≢ none
  unfolding dispatch
  dispatch-ne-none tx_id unit_id fc pdu w h =
      ground (arith, handle_write_multiple_registers-ne-none tx_id unit_id pdu w)

  serve_pdu-IsFine :
      (tx_id unit_id : ℕ) (pdu left : Bytes) (w : World p) (n : ℕ)
      → 0 < length pdu
      → length pdu ≤ 255
      → length left < n
      → IsFine n (serve_pdu p s tx_id unit_id pdu left w)
  unfolding serve_pdu
  serve_pdu-IsFine tx_id unit_id [] left w n h k l = absurd (omega arith)
  serve_pdu-IsFine tx_id unit_id (fc ∷ pdu) left w n h k l =
      elim (Option-cases (dispatch p s tx_id unit_id fc (fc ∷ pdu) w)) [
        | inl e ↦ absurd (dispatch-ne-none tx_id unit_id fc (fc ∷ pdu) w k e)
        | inr (r, e) ↦ rw (e, serve_pdu, IsFine) l
      ]

  read_full-lengths :
      (n : ℕ) (input got left : Bytes)
      → read_full n input ≡ some (got, left)
      → (length got ≡ n) × (length left + n ≡ length input)
  unfolding read_full
  read_full-lengths n input got left e = ground (arith, length-take n input, length-drop n input)

  serve_header-IsFine :
      (header rest : Bytes) (w : World p) (n : ℕ)
      → length rest < n
      → IsFine n (serve_header p s header rest w)
  unfolding serve_header
  serve_header-IsFine header rest w n h =
      let protocol_id = uint16_at header 2 in
      let mbap_length = uint16_at header 4 in
      elim (Bool-cases (not (protocol_id == 0))) [
        | inl e ↦ rw (e, serve_header, IsFine) tt
        | inr e ↦ elim (Bool-cases (ltb mbap_length 2 || ltb 256 mbap_length)) [
          | inl f ↦ rw (e, f, serve_header, IsFine) tt
          | inr f ↦ elim (Option-cases (read_full (mbap_length - 1) rest)) [
            | inl g ↦ rw (e, f, g, serve_header, IsFine) tt
            | inr ((pdu, left), g) ↦
                let (a, b) = read_full-lengths (mbap_length - 1) rest pdu left g in
                rw (e, f, g, serve_header)
                  (serve_pdu-IsFine (uint16_at header 0) (get_or header 6 0) pdu left w n
                    (ground arith) (ground arith) (omega arith))
          ]
        ]
      ]

  serve_one-IsFine : (input : Bytes) (w : World p) → IsFine (length input) (serve_one p s input w)
  unfolding serve_one
  serve_one-IsFine input w = elim (Bool-cases (cancelled p.cancel_at w.clock)) [
    | inl e ↦ rw (e, serve_one, IsFine) tt
    | inr e ↦ elim (Option-cases (read_full 7 input)) [
      | inl g ↦ rw (e, g, serve_one, IsFine) tt
      | inr ((header, rest), g) ↦
          let (a, b) = read_full-lengths 7 input header rest g in
          rw (e, g, serve_one) (serve_header-IsFine header rest w (length input) (omega arith))
    ]
  ]

  Turn-cases :
      (t : Turn p)
      → (n : ℕ) → IsFine n t
      → ((w : World p) × (t ≡ returned w))
        ⊎ ((response left : Bytes) × (w : World p) × (t ≡ answered response left w)
            × (length left < n))
  Turn-cases (returned w) n f = inl (w, refl)
  Turn-cases panicked n f = absurd f
  Turn-cases (answered response left w) n f = inr (response, left, w, refl, f)

  -- Whatever bytes a client sends, and whatever the cache and the inverter answer, the loop of
  -- `handleConnection` neither panics nor goes on for ever: with fuel for one round more than there
  -- are bytes it ends by a return.
  pub handle_connection-closed :
      (fuel : ℕ) (input : Bytes) (w : World p)
      → length input < fuel
      → (handle_connection p fuel s input w).0 ≡ closed
  unfolding handle_connection
  handle_connection-closed zero input w h = absurd (omega arith)
  handle_connection-closed (suc fuel) input w h =
      elim (Turn-cases (serve_one p s input w) (length input) (serve_one-IsFine input w)) [
        | inl (w', e) ↦ rw (e, handle_connection)
        | inr (response, left, w', e, shorter) ↦
            rw (e, handle_connection) (handle_connection-closed fuel left w' (omega arith))
      ]
