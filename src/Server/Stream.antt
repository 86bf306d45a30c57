-- ===== src/Server/Stream.antt =====
-- The loop of `handleConnection` in server.go over a stream of framed requests: a client that sends
-- them one behind the other, without waiting for the replies.
use huawei_proxy.Prelude.{
  ℕ, zero, suc, ◌+◌, ◌-◌, ◌<◌, ◌≡◌, refl, ap, ◌∙◌, false, inl, inr, ◌||◌, Option-cases, List, [],
  ◌∷◌, ◌++◌, none, some, length, length-append, take-append_self, drop-append_self, All, ltb,
  if◌then◌else◌, arith,
}
use huawei_proxy.Bytes.{Bytes, IsWord, word, high_byte, low_byte}
use huawei_proxy.Platform.{Platform, cancelled}
use huawei_proxy.Client.{World}
use huawei_proxy.Server.Handlers.{Server, uint16_at}
use huawei_proxy.Server.Connection.{
  Turn, returned, answered, closed, read_full, dispatch, serve_pdu, serve_header, serve_one,
  handle_connection,
}
use huawei_proxy.Server.Safety.{dispatch-ne-none}

-- A request as the client has it.
pub record Request : Type 0 where
  pub tx_id : ℕ
  pub unit_id : ℕ
  pub fc : ℕ
  pub body : Bytes

abbrev pub pdu : Request → Bytes
pdu r = r.fc ∷ r.body

-- The PDU has at most 255 bytes, so that the length in the header is at most 256.
abbrev pub IsFramed : Request → Type 0
IsFramed r = IsWord r.tx_id × (length r.body < 255)

-- the seven bytes of the MBAP header
abbrev pub header : Request → Bytes
header r =
    high_byte r.tx_id
    ∷ low_byte r.tx_id
    ∷ 0
    ∷ 0
    ∷ high_byte (length r.body + 2)
    ∷ low_byte (length r.body + 2)
    ∷ r.unit_id
    ∷ []

unfoldable pub encode : List Request → Bytes → Bytes
encode [] left = left
encode (r ∷ rs) left = header r ++ (pdu r ++ encode rs left)

-- Bytes that are no whole request: a part of a header, or a header with a part of the PDU.
pub data IsCut (left : Bytes) : Type 0 where
  in_header : length left < 7 → IsCut left
  in_pdu :
      (r : Request) (part : Bytes)
      → IsFramed r
      → length part < length (pdu r)
      → left ≡ header r ++ part
      → IsCut left

module _ (p : Platform) (s : Server) where
  -- The specification: each request is dispatched in the state that the one before it left.
  pub data Serves : List Request → World p → List Bytes → World p → Type 0 where
    done : (w : World p) → Serves [] w [] w
    serve :
        (r : Request) (rs : List Request) (w v u : World p) (response : Bytes)
        (responses : List Bytes)
        → dispatch p s r.tx_id r.unit_id r.fc (pdu r) w ≡ some (response, v)
        → Serves rs v responses u
        → Serves (r ∷ rs) w (response ∷ responses) u

  read_full-append :
      (n : ℕ) (xs ys : Bytes) → length xs ≡ n → read_full n (xs ++ ys) ≡ some (xs, ys)
  unfolding read_full
  read_full-append n xs ys e =
      let enough : ltb (length (xs ++ ys)) (length xs) ≡ false =
        ground (arith, length-append xs ys) in
      rw (← e) (rw (enough, take-append_self xs ys, drop-append_self xs ys) refl)

  serve_size :
      (r : Request) (rest : Bytes) (w : World p)
      → IsFramed r
      → ◌≡◌ {A = Turn p}
          (if ltb (length r.body + 2) 2 || ltb 256 (length r.body + 2)
            then returned w
            else elim (read_full (length r.body + 2 - 1) rest) [
              | none ↦ returned w
              | some (got, left) ↦ serve_pdu p s r.tx_id r.unit_id got left w
            ])
          (elim (read_full (length (pdu r)) rest) [
            | none ↦ returned w
            | some (got, left) ↦ serve_pdu p s r.tx_id r.unit_id got left w
          ])
  serve_size r rest w f =
      let inside : (ltb (length r.body + 2) 2 || ltb 256 (length r.body + 2)) ≡ false =
        ground arith in
      let size : length r.body + 2 - 1 ≡ length (pdu r) = omega arith in rw (inside, size) refl

  serve_header-framed :
      (r : Request) (rest : Bytes) (w : World p)
      → IsFramed r
      → serve_header p s (header r) rest w
        ≡ elim (read_full (length (pdu r)) rest) as (λ _. Turn p) [
          | none ↦ returned w
          | some (got, left) ↦ serve_pdu p s r.tx_id r.unit_id got left w
        ]
  unfolding serve_header
  serve_header-framed r rest w f =
      let t : word (high_byte r.tx_id) (low_byte r.tx_id) ≡ r.tx_id = omega arith in
      let n : word (high_byte (length r.body + 2)) (low_byte (length r.body + 2))
          ≡ length r.body + 2 =
        omega arith in
      let go : ℕ → ℕ → Turn p = λ tx size.
        if ltb size 2 || ltb 256 size then returned w else elim (read_full (size - 1) rest) [
          | none ↦ returned w
          | some (got, left) ↦ serve_pdu p s tx r.unit_id got left w
        ] in
      ap (λ tx. go tx (uint16_at (header r) 4)) t ∙ ap (go r.tx_id) n ∙ serve_size r rest w f

  serve_one-framed :
      (r : Request) (rest : Bytes) (w : World p)
      → p.cancel_at ≡ none
      → serve_one p s (header r ++ rest) w ≡ serve_header p s (header r) rest w
  unfolding serve_one read_full cancelled
  serve_one-framed r rest w live = rw (live, cancelled) (ground arith)

  serve_one-answered :
      (r : Request) (left : Bytes) (w v : World p) (response : Bytes)
      → p.cancel_at ≡ none
      → IsFramed r
      → dispatch p s r.tx_id r.unit_id r.fc (pdu r) w ≡ some (response, v)
      → serve_one p s (header r ++ (pdu r ++ left)) w ≡ answered response left v
  unfolding serve_pdu
  serve_one-answered r left w v response live f e =
      serve_one-framed r (pdu r ++ left) w live
      ∙ serve_header-framed r (pdu r ++ left) w f
      ∙ rw (read_full-append (length (pdu r)) (pdu r) left refl, e, serve_pdu) refl

  serve_one-cut :
      (left : Bytes) (w : World p)
      → p.cancel_at ≡ none
      → IsCut left
      → serve_one p s left w ≡ returned w
  unfolding serve_one read_full cancelled
  serve_one-cut left w live (in_header short) = rw (live, cancelled) (ground arith)
  serve_one-cut left w live (in_pdu r part f short e) =
      let few : read_full (length (pdu r)) part ≡ none = ground arith in
      rw e (serve_one-framed r part w live ∙ serve_header-framed r part w f ∙ rw few refl)

  -- A stream of requests is answered as the specification says. For requests that are framed one
  -- behind the other, each with a PDU of at most 255 bytes, and with the beginning of one more or
  -- nothing behind them, the loop dispatches each, once and in order, in the state that the one before
  -- it left, writes their responses in that order, and returns. The context is not cancelled, and the
  -- fuel is more than the number of requests.
  pub handle_connection-Serves :
      (rs : List Request) (left : Bytes) (fuel : ℕ) (w : World p)
      → p.cancel_at ≡ none
      → All IsFramed rs
      → IsCut left
      → length rs < fuel
      → (responses : List Bytes) × (v : World p) × (handle_connection p fuel s (encode rs left) w
          ≡ (closed, responses, v))
        × Serves rs w responses v
  unfolding handle_connection encode
  handle_connection-Serves rs left zero w live framed cut enough = absurd (omega arith)
  handle_connection-Serves [] left (suc fuel) w live framed cut enough =
      ([], w, rw (serve_one-cut left w live cut, handle_connection) refl, done w)
  handle_connection-Serves (r ∷ rs) left (suc fuel) w live framed cut enough =
      elim (Option-cases (dispatch p s r.tx_id r.unit_id r.fc (pdu r) w)) [
        | inl e ↦
            absurd
              (dispatch-ne-none p s r.tx_id r.unit_id r.fc (pdu r) w (omega (arith, framed.0)) e)
        | inr ((response, v), e) ↦
            let (responses, u, ends, rest) =
              handle_connection-Serves rs left fuel v live framed.1 cut (omega arith) in
            let first = serve_one-answered r (encode rs left) w v response live framed.0 e in
            (
              response ∷ responses,
              u,
              rw (first, handle_connection) (rw ends refl),
              serve r rs w v u response responses e rest,
            )
      ]
