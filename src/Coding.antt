-- ===== src/Coding.antt =====
-- db/Coding.h and db/Coding.cpp. A pointer is the list of the bytes from it on, up to the limit
-- where there is one; a read past the last byte is `none`. `kLittleEndian` (db/port_posix.h) is
-- an argument, since the build derives it from the host: where it holds, the bytes of an integer
-- in memory are its base-256 digits, lowest first.
pub mod Fixed
pub mod Varint
mod Tests
use releveldb.Base.{ℕ, zero, suc, ◌+◌, ◌*◌, ◌/◌, ◌%◌, ◌^◌, List, [], ◌∷◌, ◌++◌, bit_and, bit_or}
use releveldb.Base.{Bool, true, false, Option, none, some, leb, ◌==◌, if◌then◌else◌}

-- `memcpy` from and to an integer of `n` bytes on a little-endian host
unfoldable pub native_bytes : ℕ → ℕ → List ℕ
native_bytes zero v = []
native_bytes (suc n) v = v % 256 ∷ native_bytes n (v / 256)

unfoldable pub native_value : ℕ → List ℕ → Option ℕ
native_value zero p = some 0
native_value (suc n) [] = none
native_value (suc n) (b ∷ p) = elim (native_value n p) [ none ↦ none | some v ↦ some (b + 256 * v) ]

-- the bytes that `EncodeFixed64` writes at `buf`
unfoldable pub encode_fixed64 : Bool → ℕ → List ℕ
encode_fixed64 k_little_endian value =
    if k_little_endian
    then native_bytes 8 value
    else bit_and value 0xff
      ∷ bit_and (value / 2 ^ 8) 0xff
      ∷ bit_and (value / 2 ^ 16) 0xff
      ∷ bit_and (value / 2 ^ 24) 0xff
      ∷ bit_and (value / 2 ^ 32) 0xff
      ∷ bit_and (value / 2 ^ 40) 0xff
      ∷ bit_and (value / 2 ^ 48) 0xff
      ∷ bit_and (value / 2 ^ 56) 0xff
      ∷ []

unfoldable pub put_fixed64 : Bool → List ℕ → ℕ → List ℕ
put_fixed64 k_little_endian dst value = dst ++ encode_fixed64 k_little_endian value

decode_by_shifts : List ℕ → Option ℕ
decode_by_shifts (b0 ∷ b1 ∷ b2 ∷ b3 ∷ p) =
    some (bit_or (bit_or (bit_or b0 (b1 * 2 ^ 8)) (b2 * 2 ^ 16)) (b3 * 2 ^ 24))
decode_by_shifts _ = none

unfoldable pub decode_fixed32 : Bool → List ℕ → Option ℕ
unfolding decode_by_shifts
decode_fixed32 k_little_endian ptr =
    if k_little_endian then native_value 4 ptr else decode_by_shifts ptr

join_halves : Option ℕ → Option ℕ → Option ℕ
join_halves (some lo) (some hi) = some (bit_or (hi * 2 ^ 32) lo)
join_halves _ _ = none

abbrev pub four_past : List ℕ → List ℕ
four_past (b0 ∷ b1 ∷ b2 ∷ b3 ∷ p) = p
four_past _ = []

unfoldable pub decode_fixed64 : Bool → List ℕ → Option ℕ
unfolding join_halves
decode_fixed64 k_little_endian ptr =
    if k_little_endian
    then native_value 8 ptr
    else join_halves (decode_fixed32 false ptr) (decode_fixed32 false (four_past ptr))

-- The loops of `GetVarint32PtrFallback` (to shift 28, 32 bits) and `GetVarint64Ptr` (to 63, 64).
-- The list is [p..limit-1]; the result is `*value` and what stands past the parsed bytes.
pub varint_loop : (last width : ℕ) → List ℕ → (shift result : ℕ) → Option (ℕ × List ℕ)
varint_loop last width [] shift result = none
varint_loop last width (byte ∷ p) shift result =
    let more =
      varint_loop last width p (shift + 7)
        (bit_or result (bit_and byte 127 * 2 ^ shift % 2 ^ width)) in
    if leb shift last
    then if bit_and byte 128 == 0
      then some (bit_or result (byte * 2 ^ shift % 2 ^ width), p)
      else more
    else none

pub get_varint32_ptr_fallback : List ℕ → Option (ℕ × List ℕ)
get_varint32_ptr_fallback p = varint_loop 28 32 p 0 0

pub get_varint32_ptr : List ℕ → Option (ℕ × List ℕ)
get_varint32_ptr [] = get_varint32_ptr_fallback []
get_varint32_ptr (result ∷ p) =
    if bit_and result 128 == 0 then some (result, p) else get_varint32_ptr_fallback (result ∷ p)

pub get_varint64_ptr : List ℕ → Option (ℕ × List ℕ)
get_varint64_ptr p = varint_loop 63 64 p 0 0
