-- ===== src/Bytes.antt =====
-- Bytes and 16-bit words: `encoding/binary`'s big-endian order, which server.go uses, and the two
-- conversions of cache.go between register values and the bytes of a Modbus response.
-- A byte is a number below 256 and a word a number below 65536, so `hi << 8 | lo` is a sum.
pub mod RoundTrip
use huawei_proxy.Prelude.{ℕ, ◌+◌, ◌*◌, ◌/◌, ◌%◌, ◌<◌, List, [], ◌∷◌, ◌++◌, Option, none, some, All}

abbrev pub Bytes : Type 0
Bytes = List ℕ

abbrev pub IsByte : ℕ → Type 0
IsByte b = b < 256

abbrev pub IsWord : ℕ → Type 0
IsWord v = v < 65536

abbrev pub AreBytes : Bytes → Type 0
AreBytes bs = All IsByte bs

abbrev pub AreWords : List ℕ → Type 0
AreWords vs = All IsWord vs

-- `uint16(hi)<<8 | uint16(lo)`
abbrev pub word : ℕ → ℕ → ℕ
word hi lo = hi * 256 + lo

-- `byte(v >> 8)`
abbrev pub high_byte : ℕ → ℕ
high_byte v = v / 256 % 256

-- `byte(v)`
abbrev pub low_byte : ℕ → ℕ
low_byte v = v % 256

-- `bytesToUint16`: `len(data)/2` values, so that a last odd byte is dropped.
unfoldable pub bytes_to_uint16 : Bytes → List ℕ
bytes_to_uint16 [] = []
bytes_to_uint16 (b ∷ []) = []
bytes_to_uint16 (hi ∷ lo ∷ rest) = word hi lo ∷ bytes_to_uint16 rest

-- the loop of `GetBytes` that writes the two bytes of each value
unfoldable pub uint16_to_bytes : List ℕ → Bytes
uint16_to_bytes [] = []
uint16_to_bytes (v ∷ vs) = high_byte v ∷ low_byte v ∷ uint16_to_bytes vs

-- `binary.BigEndian.AppendUint16`
abbrev pub append_uint16 : Bytes → ℕ → Bytes
append_uint16 resp v = resp ++ high_byte v ∷ low_byte v ∷ []
