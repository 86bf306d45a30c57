-- ===== src/Server/Rounds.antt =====
-- The loop of a connection of server.go does to the state what its requests do, for any relation that
-- goes on from one request to the next.
use mathlib.Core.Path.{subst}
use huawei_proxy.Prelude.{
  Option, none, some, ℕ, zero, suc, ◌-◌, ◌||◌, Bool-cases, inl, inr, List, [], ◌∷◌, ltb, ◌==◌,
  get_or, get_elem?, Option-cases,
}
use huawei_proxy.Bytes.{Bytes}
use huawei_proxy.Platform.{Platform, cancelled}
use huawei_proxy.Client.{World}
use huawei_proxy.Server.Handlers.{Server, uint16_at}
use huawei_proxy.Server.Connection.{
  Turn, returned, panicked, answered, End, closed, crashed, read_full, dispatch, serve_pdu,
  serve_header, serve_one, handle_connection,
}

-- A relation on states with its laws: what a connection may do to the state.
pub record Relates (p : Platform) (R : World p → World p → Type 0) : Type 0 where
  pub stay : (w : World p) → R w w
  pub follow : {u v w : World p} → R u v → R v w → R u w

-- The state after a response, if there is one.
abbrev pub After :
    {p : Platform} → (World p → World p → Type 0) → World p → Option (Bytes × World p) → Type 0
After R w none = Unit
After R w (some (response, v)) = R w v

module _ (p : Platform) (s : Server) (R : World p → World p → Type 0) (laws : Relates p R)
    (served : (tx unit fc : ℕ) (pdu : Bytes) (w : World p)
      → After R w (dispatch p s tx unit fc pdu w)) where
  -- The state after one round of the loop, if it did not panic.
  abbrev AfterTurn : World p → Turn p → Type 0
  AfterTurn w (returned v) = R w v
  AfterTurn w panicked = Unit
  AfterTurn w (answered response left v) = R w v

  serve_pdu-AfterTurn :
      (tx unit : ℕ) (pdu left : Bytes) (w : World p)
      → AfterTurn w (serve_pdu p s tx unit pdu left w)
  unfolding serve_pdu
  serve_pdu-AfterTurn tx unit pdu left w = elim (Option-cases (get_elem? pdu 0)) [
    | inl e ↦ rw (e, serve_pdu) tt
    | inr (fc, e) ↦ elim (Option-cases (dispatch p s tx unit fc pdu w)) [
      | inl d ↦ rw (e, serve_pdu, d) tt
      | inr ((response, v), d) ↦
          rw (e, serve_pdu, d) (subst (After R w) d (served tx unit fc pdu w))
    ]
  ]

  serve_header-AfterTurn :
      (header rest : Bytes) (w : World p) → AfterTurn w (serve_header p s header rest w)
  unfolding serve_header
  serve_header-AfterTurn header rest w =
      let size = uint16_at header 4 in
      elim (Bool-cases (uint16_at header 2 == 0)) [
        | inr foreign ↦ rw foreign (laws.stay w)
        | inl ours ↦ elim (Bool-cases (ltb size 2 || ltb 256 size)) [
          | inl bad ↦ rw (ours, bad) (laws.stay w)
          | inr good ↦ elim (Option-cases (read_full (size - 1) rest)) [
            | inl e ↦ rw (ours, good, e) (laws.stay w)
            | inr ((pdu, left), e) ↦
                rw (ours, good, e)
                  (serve_pdu-AfterTurn (uint16_at header 0) (get_or header 6 0) pdu left w)
          ]
        ]
      ]

  serve_one-AfterTurn : (input : Bytes) (w : World p) → AfterTurn w (serve_one p s input w)
  unfolding serve_one
  serve_one-AfterTurn input w = elim (Bool-cases (cancelled p.cancel_at w.clock)) [
    | inl c ↦ rw c (laws.stay w)
    | inr c ↦ elim (Option-cases (read_full 7 input)) [
      | inl e ↦ rw (c, e) (laws.stay w)
      | inr ((header, rest), e) ↦ rw (c, e) (serve_header-AfterTurn header rest w)
    ]
  ]

  -- the loop behind one round
  continue_related :
      (fuel : ℕ) (turn : Turn p) (w : World p)
      → ((input : Bytes) (v : World p) → R v (handle_connection p fuel s input v).2)
      → AfterTurn w turn
      → R w
          (elim turn as (λ x. End × List Bytes × World p) [
            | returned v ↦ (closed, [], v)
            | panicked ↦ (crashed, [], w)
            | answered response left v ↦
                let (end, responses, v') = handle_connection p fuel s left v in
                (end, response ∷ responses, v')
          ]).2
  continue_related fuel (returned v) w go r = r
  continue_related fuel panicked w go r = laws.stay w
  continue_related fuel (answered response left v) w go r = laws.follow r (go left v)

  -- If each request relates the state to the one after it, so does the connection.
  pub handle_connection_related :
      (fuel : ℕ) (input : Bytes) (w : World p) → R w (handle_connection p fuel s input w).2
  unfolding handle_connection
  handle_connection_related zero input w = laws.stay w
  handle_connection_related (suc fuel) input w =
      continue_related fuel (serve_one p s input w) w (handle_connection_related fuel)
        (serve_one-AfterTurn input w)
