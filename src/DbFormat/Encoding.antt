-- ===== src/DbFormat/Encoding.antt =====
-- Encoding and parsing of internal keys.
use releveldb.Base.{
  ℕ, ◌+◌, ◌-◌, ◌*◌, ◌/◌, ◌%◌, ◌^◌, ◌≤◌, ◌<◌, ◌≡◌, ◌↔◌, refl, arith, ap, ◌∙◌, List, [], ◌++◌, Bool,
  none, some,
}
use releveldb.Base.{
  bit_and, length-append, take, drop, take-append, drop-append, append_assoc, append-nil,
  length-drop, ◌⊎◌,
}
use releveldb.Base.Bits.{bit_or-add, bit_and-ones}
use native.Mathlib.Nat.{mod-eq_of_lt}
use releveldb.Slice.{Slice, size}
use releveldb.Coding.{encode_fixed64, put_fixed64}
use releveldb.Coding.Fixed.{
  decode_fixed64_total, decode_fixed64-encode_fixed64, length-encode_fixed64,
}
use releveldb.DbFormat.{
  ParsedInternalKey, internal_key_encoding_length, pack_sequence_and_type, append_internal_key,
  parse_internal_key, extract_user_key, extract_value_type, trailer, k_max_sequence_number,
}

-- `pack_sequence_and_type` puts the number above the type.
pub pack_sequence_and_type_lem :
    (seq t : ℕ)
    → seq ≤ k_max_sequence_number
    → t ≤ 1
    → pack_sequence_and_type seq t ≡ some (seq * 2 ^ 8 + t)
unfolding pack_sequence_and_type
pack_sequence_and_type_lem seq t hs ht = ground (
  arith,
  bit_or-add 8 seq t (omega arith),
  mod-eq_of_lt {n = seq * 2 ^ 8} {m = 2 ^ 64} (omega arith),
)

-- A user key followed by an encoded number.
pub encoded : Bool → Slice → ℕ → Slice
encoded little u n = u ++ encode_fixed64 little n

pub put_fixed64-encoded :
    (little : Bool) (u : Slice) (n : ℕ) → put_fixed64 little u n ≡ encoded little u n
unfolding put_fixed64 encoded
put_fixed64-encoded little u n = refl

module _ (little : Bool) (u : Slice) (n : ℕ) (h : n < 2 ^ 64) where
  pub size-encoded : size (encoded little u n) ≡ size u + 8
  unfolding encoded
  size-encoded =
      omega (arith, length-append u (encode_fixed64 little n), length-encode_fixed64 little n h)

  front : size (encoded little u n) - 8 ≡ size u
  front = omega (arith, size-encoded)

  user_part : take (size (encoded little u n) - 8) (encoded little u n) ≡ u
  user_part = unfold encoded in take-append u (encode_fixed64 little n) _ (unfold encoded in front)

  number_part : drop (size (encoded little u n) - 8) (encoded little u n) ≡ encode_fixed64 little n
  number_part =
      unfold encoded in drop-append u (encode_fixed64 little n) _ (unfold encoded in front)

  pub extract_user_key-encoded : extract_user_key (encoded little u n) ≡ some u
  unfolding extract_user_key
  extract_user_key-encoded = ground (arith, size-encoded, user_part)

  pub trailer-encoded : (reader : Bool) → trailer reader (encoded little u n) ≡ some n
  trailer-encoded reader = rw number_part (
      rw (← append-nil (encode_fixed64 little n))
        (decode_fixed64-encode_fixed64 little reader n [] h))

  pub parse_internal_key-encoded :
      (reader : Bool)
      → parse_internal_key reader (encoded little u n)
        ≡ some (record { user_key = u; sequence = n / 2 ^ 8; value_type = n % 2 ^ 8 })
  unfolding parse_internal_key
  parse_internal_key-encoded reader =
      ground (arith, size-encoded, user_part, trailer-encoded reader, bit_and-ones 8 n)

  pub extract_value_type-encoded :
      (reader : Bool) → extract_value_type reader (encoded little u n) ≡ some (n % 2 ^ 8)
  unfolding extract_value_type
  extract_value_type-encoded reader =
      ground (arith, size-encoded, trailer-encoded reader, bit_and-ones 8 n)

-- What `append_internal_key` appends.
pub append_internal_key-encoded :
    (little : Bool) (result : List ℕ) (key : ParsedInternalKey)
    → key.sequence ≤ k_max_sequence_number
    → key.value_type ≤ 1
    → append_internal_key little result key
      ≡ some (result ++ encoded little key.user_key (key.sequence * 2 ^ 8 + key.value_type))
unfolding append_internal_key encoded put_fixed64
append_internal_key-encoded little result key hs ht =
    rw (pack_sequence_and_type_lem key.sequence key.value_type hs ht)
      (ap some (append_assoc result key.user_key _))

-- An internal key that `AppendInternalKey` writes after `result`, on any host, is read back by
-- `ParseInternalKey`, `ExtractUserKey` and `ExtractValueType`, and has the announced length.
pub parse-append_internal_key :
    (writer reader : Bool) (result : List ℕ) (key : ParsedInternalKey)
    → key.sequence ≤ k_max_sequence_number
    → key.value_type ≤ 1
    → (enc : Slice) × (append_internal_key writer result key ≡ some (result ++ enc))
      × (size enc ≡ internal_key_encoding_length key)
      × (parse_internal_key reader enc ≡ some key)
      × (extract_user_key enc ≡ some key.user_key)
      × (extract_value_type reader enc ≡ some key.value_type)
unfolding internal_key_encoding_length
parse-append_internal_key writer reader result key hs ht =
    let n : ℕ = key.sequence * 2 ^ 8 + key.value_type in
    let u : Slice = key.user_key in
    let h : n < 2 ^ 64 = omega arith in
    (
      encoded writer u n,
      append_internal_key-encoded writer result key hs ht,
      size-encoded writer u n h,
      parse_internal_key-encoded writer u n h reader ∙ ground arith,
      extract_user_key-encoded writer u n h,
      extract_value_type-encoded writer u n h reader ∙ ground arith,
    )

-- `AppendInternalKey` fails an assertion exactly on a sequence number or a type out of range.
pub append_internal_key-none :
    (little : Bool) (result : List ℕ) (key : ParsedInternalKey)
    → (append_internal_key little result key ≡ none)
      ↔ ((k_max_sequence_number < key.sequence) ⊎ (1 < key.value_type))
unfolding append_internal_key pack_sequence_and_type
append_internal_key-none little result key = (λ e. ground arith, λ h. ground arith)

pub long_trailer : (little : Bool) (s : Slice) → 8 ≤ size s → (n : ℕ) × (trailer little s ≡ some n)
long_trailer little s h = decode_fixed64_total little _ (omega (arith, length-drop (size s - 8) s))

-- `ParseInternalKey` accepts exactly the slices of eight bytes or more: it does not look at the type.
pub parse_internal_key_iff :
    (little : Bool) (s : Slice)
    → ((key : ParsedInternalKey) × (parse_internal_key little s ≡ some key)) ↔ (8 ≤ size s)
unfolding parse_internal_key
parse_internal_key_iff little s = (
  λ (key, e). ground arith,
  λ h.
      let (num, e) = long_trailer little s h in
      (
        record {
          user_key = take (size s - 8) s;
          sequence = num / 2 ^ 8;
          value_type = bit_and num 0xff;
        },
        ground arith,
      ),
)
