-- ===== src/Coding/Tests.antt =====
-- Runs of the integer codecs of db/Coding.h and db/Coding.cpp.
use releveldb.Base.{ℕ, ◌+◌, ◌^◌, ◌≡◌, refl, arith, true, false, List, [], ◌∷◌, ◌++◌, none, some}
use releveldb.Coding.{
  encode_fixed64, decode_fixed64, varint_loop, get_varint32_ptr_fallback, get_varint32_ptr,
}
use releveldb.Coding.Fixed.{decode_fixed64-encode_fixed64}
use releveldb.Coding.Varint.{varint_bytes, get_varint32_ptr-varint_bytes}

abbrev three_hundred : List ℕ
three_hundred = 172 ∷ 2 ∷ 7 ∷ []

three_hundred_run : get_varint32_ptr three_hundred ≡ some (300, 7 ∷ [])
unfolding get_varint32_ptr get_varint32_ptr_fallback varint_loop
three_hundred_run = refl

-- the top bits of a fifth byte are shifted out
overlong_run : get_varint32_ptr (255 ∷ 255 ∷ 255 ∷ 255 ∷ 127 ∷ []) ≡ some (4294967295, [])
unfolding get_varint32_ptr get_varint32_ptr_fallback varint_loop
overlong_run = refl

cut_run : get_varint32_ptr (128 ∷ 128 ∷ []) ≡ none
unfolding get_varint32_ptr get_varint32_ptr_fallback varint_loop
cut_run = refl

get_varint32_ptr-varint_bytes_example :
    get_varint32_ptr (varint_bytes 4 300 ++ (7 ∷ [])) ≡ some (300, 7 ∷ [])
get_varint32_ptr-varint_bytes_example = get_varint32_ptr-varint_bytes 300 (7 ∷ []) (omega arith)

decode_fixed64-encode_fixed64_example :
    decode_fixed64 false (encode_fixed64 true (2 ^ 40 + 5) ++ (9 ∷ [])) ≡ some (2 ^ 40 + 5)
decode_fixed64-encode_fixed64_example =
    decode_fixed64-encode_fixed64 true false (2 ^ 40 + 5) (9 ∷ []) (omega arith)
