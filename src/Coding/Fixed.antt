-- ===== src/Coding/Fixed.antt =====
-- Fixed-width integers: the two host branches agree, and decoding reads back what was encoded.
use releveldb.Base.{
  ℕ, zero, suc, ◌+◌, ◌*◌, ◌/◌, ◌^◌, ◌<◌, ◌≤◌, ◌≡◌, refl, arith, List, [], ◌∷◌, ◌++◌,
}
use releveldb.Base.{bit_or, Bool, true, false, some, length, All, ap, ◌∙◌}
use native.Mathlib.Nat.{pow-suc}
use releveldb.Base.Bits.{bit_and-ones, bit_or-add_low, bit_or-add}
use releveldb.Slice.{IsByte}
use releveldb.Coding.{native_bytes, native_value, encode_fixed64}
use releveldb.Coding.{four_past, decode_fixed32, decode_fixed64}

-- `EncodeFixed64` writes the same eight bytes on either host.
pub encode_fixed64_host : (v : ℕ) → v < 2 ^ 64 → encode_fixed64 false v ≡ encode_fixed64 true v
unfolding encode_fixed64 native_bytes
encode_fixed64_host v h = ground (
  arith,
  bit_and-ones 8 v,
  bit_and-ones 8 (v / 2 ^ 8),
  bit_and-ones 8 (v / 2 ^ 16),
  bit_and-ones 8 (v / 2 ^ 24),
  bit_and-ones 8 (v / 2 ^ 32),
  bit_and-ones 8 (v / 2 ^ 40),
  bit_and-ones 8 (v / 2 ^ 48),
  bit_and-ones 8 (v / 2 ^ 56),
)

-- The shifts and ors of the other host are the little-endian value.
or_bytes :
    (b0 b1 b2 b3 : ℕ)
    → b0 < 256
    → b1 < 256
    → b2 < 256
    → bit_or (bit_or (bit_or b0 (b1 * 2 ^ 8)) (b2 * 2 ^ 16)) (b3 * 2 ^ 24)
      ≡ b0 + b1 * 2 ^ 8 + b2 * 2 ^ 16 + b3 * 2 ^ 24
or_bytes b0 b1 b2 b3 h0 h1 h2 = rw (bit_or-add_low 8 b1 b0 h0) (
    rw (bit_or-add_low 16 b2 (b0 + b1 * 2 ^ 8) (omega arith))
      (bit_or-add_low 24 b3 (b0 + b1 * 2 ^ 8 + b2 * 2 ^ 16) (omega arith)))

-- `DecodeFixed32` reads the same number on either host.
pub decode_fixed32_host :
    (b0 b1 b2 b3 : ℕ) (p : List ℕ)
    → b0 < 256
    → b1 < 256
    → b2 < 256
    → decode_fixed32 false (b0 ∷ b1 ∷ b2 ∷ b3 ∷ p) ≡ decode_fixed32 true (b0 ∷ b1 ∷ b2 ∷ b3 ∷ p)
unfolding decode_fixed32 native_value
decode_fixed32_host b0 b1 b2 b3 p h0 h1 h2 = ground (arith, or_bytes b0 b1 b2 b3 h0 h1 h2)

-- `DecodeFixed64` too.
pub decode_fixed64_host :
    (b0 b1 b2 b3 b4 b5 b6 b7 : ℕ) (p : List ℕ)
    → All IsByte (b0 ∷ b1 ∷ b2 ∷ b3 ∷ b4 ∷ b5 ∷ b6 ∷ b7 ∷ [])
    → decode_fixed64 false (b0 ∷ b1 ∷ b2 ∷ b3 ∷ b4 ∷ b5 ∷ b6 ∷ b7 ∷ p)
      ≡ decode_fixed64 true (b0 ∷ b1 ∷ b2 ∷ b3 ∷ b4 ∷ b5 ∷ b6 ∷ b7 ∷ p)
unfolding decode_fixed64 decode_fixed32 native_value
decode_fixed64_host b0 b1 b2 b3 b4 b5 b6 b7 p h =
    let lo : ℕ = b0 + b1 * 2 ^ 8 + b2 * 2 ^ 16 + b3 * 2 ^ 24 in
    let hi : ℕ = b4 + b5 * 2 ^ 8 + b6 * 2 ^ 16 + b7 * 2 ^ 24 in
    rw (or_bytes b0 b1 b2 b3 (omega arith) (omega arith) (omega arith)) (
      rw (or_bytes b4 b5 b6 b7 (omega arith) (omega arith) (omega arith))
        (ap some (bit_or-add 32 hi lo (omega arith) ∙ omega arith)))

pub native_value-native_bytes :
    (n v : ℕ) (rest : List ℕ) → v < 256 ^ n → native_value n (native_bytes n v ++ rest) ≡ some v
unfolding native_value native_bytes
native_value-native_bytes zero v rest h = ground arith
native_value-native_bytes (suc n) v rest h =
    ground (arith, native_value-native_bytes n (v / 256) rest (omega (arith, pow-suc 256 n)))

native_bytes-IsByte : (n v : ℕ) → All IsByte (native_bytes n v)
unfolding native_bytes
native_bytes-IsByte zero v = tt
native_bytes-IsByte (suc n) v = (omega arith, native_bytes-IsByte n (v / 256))

pub length-native_bytes : (n v : ℕ) → length (native_bytes n v) ≡ n
unfolding native_bytes
length-native_bytes zero v = refl
length-native_bytes (suc n) v = ap suc (length-native_bytes n (v / 256))

encode_fixed64_native : (k : Bool) (v : ℕ) → v < 2 ^ 64 → encode_fixed64 k v ≡ native_bytes 8 v
unfolding encode_fixed64
encode_fixed64_native true v h = refl
encode_fixed64_native false v h = encode_fixed64_host v h

-- What one host encodes, any host decodes, whatever bytes follow.
pub decode_fixed64-encode_fixed64 :
    (writer reader : Bool) (v : ℕ) (rest : List ℕ)
    → v < 2 ^ 64
    → decode_fixed64 reader (encode_fixed64 writer v ++ rest) ≡ some v
decode_fixed64-encode_fixed64 writer true v rest h =
    rw (encode_fixed64_native writer v h)
      (unfold decode_fixed64 in native_value-native_bytes 8 v rest (omega arith))
decode_fixed64-encode_fixed64 writer false v rest h = rw (encode_fixed64_native writer v h) (
    unfold native_bytes in
    decode_fixed64_host _ _ _ _ _ _ _ _ rest (native_bytes-IsByte 8 v)
    ∙ (unfold decode_fixed64 in native_value-native_bytes 8 v rest (omega arith)))

pub length-encode_fixed64 : (k : Bool) (v : ℕ) → v < 2 ^ 64 → length (encode_fixed64 k v) ≡ 8
length-encode_fixed64 k v h = rw (encode_fixed64_native k v h) (length-native_bytes 8 v)

pub encode_fixed64-IsByte : (k : Bool) (v : ℕ) → v < 2 ^ 64 → All IsByte (encode_fixed64 k v)
encode_fixed64-IsByte k v h = rw (encode_fixed64_native k v h) (native_bytes-IsByte 8 v)

native_value_total : (n : ℕ) (p : List ℕ) → n ≤ length p → (v : ℕ) × (native_value n p ≡ some v)
unfolding native_value
native_value_total zero p h = (0, refl)
native_value_total (suc n) [] h = absurd (omega arith)
native_value_total (suc n) (b ∷ p) h =
    let (v, e) = native_value_total n p (omega arith) in (b + 256 * v, rw e)

shifts_total :
    (p : List ℕ)
    → 4 ≤ length p
    → (v : ℕ) × (decode_fixed32 false p ≡ some v) × (length (four_past p) + 4 ≡ length p)
unfolding decode_fixed32
shifts_total (b0 ∷ b1 ∷ b2 ∷ b3 ∷ p) h = (_, refl, omega arith)
shifts_total [] h = absurd (omega arith)
shifts_total (b0 ∷ []) h = absurd (omega arith)
shifts_total (b0 ∷ b1 ∷ []) h = absurd (omega arith)
shifts_total (b0 ∷ b1 ∷ b2 ∷ []) h = absurd (omega arith)

-- Four bytes can be decoded.
pub decode_fixed32_total :
    (k : Bool) (p : List ℕ) → 4 ≤ length p → (v : ℕ) × (decode_fixed32 k p ≡ some v)
decode_fixed32_total true p h = unfold decode_fixed32 in native_value_total 4 p h
decode_fixed32_total false p h = let (v, e, _) = shifts_total p h in (v, e)

-- Eight bytes can be decoded.
pub decode_fixed64_total :
    (k : Bool) (p : List ℕ) → 8 ≤ length p → (v : ℕ) × (decode_fixed64 k p ≡ some v)
unfolding decode_fixed64
decode_fixed64_total true p h = native_value_total 8 p h
decode_fixed64_total false p h =
    let (lo, e, l) = shifts_total p (omega arith) in
    let (hi, f, m) = shifts_total (four_past p) (omega arith) in
    (bit_or (hi * 2 ^ 32) lo, rw (e, f) refl)
