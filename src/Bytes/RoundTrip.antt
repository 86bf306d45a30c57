-- ===== src/Bytes/RoundTrip.antt =====
-- The two conversions of cache.go undo each other.
use huawei_proxy.Prelude.{ℕ, ◌*◌, ◌≡◌, refl, ap, List, [], ◌∷◌, length, arith}
use huawei_proxy.Bytes.{
  Bytes, AreBytes, AreWords, bytes_to_uint16, uint16_to_bytes, word, high_byte, low_byte,
}

-- Writing register values as big-endian bytes and reading them back gives the values.
pub bytes_to_uint16-uint16_to_bytes :
    (vs : List ℕ) → AreWords vs → bytes_to_uint16 (uint16_to_bytes vs) ≡ vs
unfolding bytes_to_uint16 uint16_to_bytes
bytes_to_uint16-uint16_to_bytes [] h = refl
bytes_to_uint16-uint16_to_bytes (v ∷ vs) (h, hs) =
    let e : word (high_byte v) (low_byte v) ≡ v = omega arith in
    rw (e, bytes_to_uint16-uint16_to_bytes vs hs)

pub length-uint16_to_bytes : (vs : List ℕ) → length (uint16_to_bytes vs) ≡ 2 * length vs
unfolding uint16_to_bytes
length-uint16_to_bytes [] = refl
length-uint16_to_bytes (v ∷ vs) = omega (arith, length-uint16_to_bytes vs)

pub uint16_to_bytes-AreBytes : (vs : List ℕ) → AreBytes (uint16_to_bytes vs)
unfolding uint16_to_bytes
uint16_to_bytes-AreBytes [] = tt
uint16_to_bytes-AreBytes (v ∷ vs) = (omega arith, (omega arith, uint16_to_bytes-AreBytes vs))

-- Reading an even number of bytes as register values and writing them back gives the bytes.
pub uint16_to_bytes-bytes_to_uint16 :
    (n : ℕ) (bs : Bytes)
    → AreBytes bs
    → length bs ≡ 2 * n
    → uint16_to_bytes (bytes_to_uint16 bs) ≡ bs
unfolding bytes_to_uint16 uint16_to_bytes
uint16_to_bytes-bytes_to_uint16 n [] h e = refl
uint16_to_bytes-bytes_to_uint16 n (b ∷ []) h e = absurd (omega arith)
uint16_to_bytes-bytes_to_uint16 ℕ.zero (hi ∷ lo ∷ rest) h e = absurd (omega arith)
uint16_to_bytes-bytes_to_uint16 (ℕ.suc n) (hi ∷ lo ∷ rest) (h, (l, hs)) e =
    let p : high_byte (word hi lo) ≡ hi = omega arith in
    let q : low_byte (word hi lo) ≡ lo = omega arith in
    rw (p, q, uint16_to_bytes-bytes_to_uint16 n rest hs (omega arith))

-- An even number of bytes is half as many words.
pub length-bytes_to_uint16 :
    (n : ℕ) (bs : Bytes) → length bs ≡ 2 * n → length (bytes_to_uint16 bs) ≡ n
unfolding bytes_to_uint16
length-bytes_to_uint16 n [] e = omega arith
length-bytes_to_uint16 n (b ∷ []) e = absurd (omega arith)
length-bytes_to_uint16 ℕ.zero (hi ∷ lo ∷ rest) e = absurd (omega arith)
length-bytes_to_uint16 (ℕ.suc n) (hi ∷ lo ∷ rest) e =
    ap ℕ.suc (length-bytes_to_uint16 n rest (omega arith))

pub bytes_to_uint16-AreWords : (bs : Bytes) → AreBytes bs → AreWords (bytes_to_uint16 bs)
unfolding bytes_to_uint16
bytes_to_uint16-AreWords [] h = tt
bytes_to_uint16-AreWords (b ∷ []) h = tt
bytes_to_uint16-AreWords (hi ∷ lo ∷ rest) (h, (l, hs)) =
    (omega arith, bytes_to_uint16-AreWords rest hs)
