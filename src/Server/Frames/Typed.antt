-- ===== src/Server/Frames/Typed.antt =====
-- The frames that server.go writes are bytes.
use Prim.Native.Nat.{bit_or}
use huawei_proxy.Prelude.{
  ℕ, zero, suc, ◌+◌, ◌%◌, ◌<◌, ◌≡◌, refl, inl, inr, Bool, true, ◌&&◌, Bool-cases, [], ◌∷◌, ◌++◌,
  All-append, ltb, ◌==◌, length, arith,
}
use huawei_proxy.Bytes.{Bytes, IsByte, AreBytes, append_uint16}
use huawei_proxy.Server.Frames.{send_read_response, send_exception}

-- each byte below `n` stays a byte with its highest bit set
flags_below : ℕ → Bool
flags_below zero = true
flags_below (suc n) = ltb (bit_or n 0x80) 256 && flags_below n

flags_below_sound : (n b : ℕ) → flags_below n ≡ true → b < n → IsByte (bit_or b 0x80)
unfolding flags_below
flags_below_sound zero b e h = absurd (omega arith)
flags_below_sound (suc n) b e h = elim (Bool-cases (b == n)) [
  | inl same ↦ let here : b ≡ n = ground arith in rw here (ground arith)
  | inr other ↦ flags_below_sound n b (ground arith) (ground arith)
]

flagged : (fc : ℕ) → IsByte fc → IsByte (bit_or fc 0x80)
flagged fc h = flags_below_sound 256 fc (unfold flags_below in refl) h

append_uint16-AreBytes : (resp : Bytes) (v : ℕ) → AreBytes resp → AreBytes (append_uint16 resp v)
append_uint16-AreBytes resp v h = All-append IsByte resp _ h (omega arith, (omega arith, tt))

-- the transaction, the protocol and the length
abbrev start : (tx size : ℕ) → Bytes
start tx size = append_uint16 (append_uint16 (append_uint16 [] tx) 0) size

start-AreBytes : (tx size : ℕ) → AreBytes (start tx size)
start-AreBytes tx size =
    append_uint16-AreBytes (append_uint16 (append_uint16 [] tx) 0) size
      (append_uint16-AreBytes (append_uint16 [] tx) 0 (append_uint16-AreBytes [] tx tt))

pub send_exception-AreBytes :
    (tx unit fc code : ℕ)
    → IsByte unit
    → IsByte fc
    → IsByte code
    → AreBytes (send_exception tx unit fc code)
unfolding send_exception
send_exception-AreBytes tx unit fc code u f c =
    All-append IsByte (start tx 3) (unit ∷ bit_or fc 0x80 ∷ code ∷ []) (start-AreBytes tx 3)
      (u, (flagged fc f, (c, tt)))

pub send_read_response-AreBytes :
    (tx unit fc : ℕ) (payload : Bytes)
    → IsByte unit
    → IsByte fc
    → AreBytes payload
    → AreBytes (send_read_response tx unit fc payload)
unfolding send_read_response
send_read_response-AreBytes tx unit fc payload u f h =
    let size = (3 + length payload) % 65536 in
    All-append IsByte (start tx size ++ unit ∷ fc ∷ length payload % 256 ∷ []) payload
      (All-append IsByte (start tx size) (unit ∷ fc ∷ length payload % 256 ∷ [])
        (start-AreBytes tx size) (u, (f, (omega arith, tt))))
      h

-- both responses to a write
pub echo-AreBytes :
    (tx unit fc a b : ℕ)
    → IsByte unit
    → IsByte fc
    → AreBytes (append_uint16 (append_uint16 (start tx 6 ++ unit ∷ fc ∷ []) a) b)
echo-AreBytes tx unit fc a b u f =
    let front = start tx 6 ++ unit ∷ fc ∷ [] in
    append_uint16-AreBytes (append_uint16 front a) b (
      append_uint16-AreBytes front a
        (All-append IsByte (start tx 6) (unit ∷ fc ∷ []) (start-AreBytes tx 6) (u, (f, tt))))
