-- ===== src/DbFormat/Tests.antt =====
-- Runs of the internal keys of db/DBFormat.h and db/DBFormat.cpp.
use releveldb.Base.{◌≤◌, ◌≡◌, ◌↔◌, refl, arith, compare, Ordering, true, false, [], ◌∷◌, ◌++◌, some}
use releveldb.Slice.{Slice, size, memcmp, compare_slice}
use releveldb.Slice.Order.{lex}
use releveldb.Comparator.{bytewise_comparator}
use releveldb.Comparator.Bytewise.{bytewise_comparator-IsLawful}
use releveldb.Coding.{put_fixed64, encode_fixed64, native_bytes, native_value, decode_fixed64}
use releveldb.DbFormat.{
  ParsedInternalKey, pack_sequence_and_type, append_internal_key, internal_key_encoding_length,
  parse_internal_key, extract_user_key, extract_value_type, internal_compare,
}
use releveldb.DbFormat.Encoding.{parse-append_internal_key, parse_internal_key_iff}
use releveldb.DbFormat.Order.{then_by, internal_compare-append}
use releveldb.DbFormat.Separators.{Separates, internal_separator-Separates}

abbrev newer : ParsedInternalKey
newer = record { user_key = b'a' ∷ b'b' ∷ b'c' ∷ []; sequence = 300; value_type = 1 }

abbrev older : ParsedInternalKey
older = record { user_key = b'a' ∷ b'b' ∷ b'c' ∷ []; sequence = 299; value_type = 0 }

abbrev newer_key : Slice
newer_key = b'a' ∷ b'b' ∷ b'c' ∷ 1 ∷ 44 ∷ 1 ∷ 0 ∷ 0 ∷ 0 ∷ 0 ∷ 0 ∷ []

abbrev older_key : Slice
older_key = b'a' ∷ b'b' ∷ b'c' ∷ 0 ∷ 43 ∷ 1 ∷ 0 ∷ 0 ∷ 0 ∷ 0 ∷ 0 ∷ []

abbrev limit_key : Slice
limit_key = b'a' ∷ b'f' ∷ 1 ∷ 43 ∷ 1 ∷ 0 ∷ 0 ∷ 0 ∷ 0 ∷ 0 ∷ []

abbrev unsound : ParsedInternalKey
unsound = record newer { value_type = 2 }

newer_run : append_internal_key true [] newer ≡ some newer_key
unfolding append_internal_key pack_sequence_and_type put_fixed64 encode_fixed64 native_bytes
newer_run = refl

older_run : append_internal_key true [] older ≡ some older_key
unfolding append_internal_key pack_sequence_and_type put_fixed64 encode_fixed64 native_bytes
older_run = refl

newer-below : internal_compare true bytewise_comparator newer_key older_key ≡ some Ordering.lt
unfolding internal_compare extract_user_key bytewise_comparator compare_slice memcmp decode_fixed64
    native_value
newer-below = refl

older-below : internal_compare true bytewise_comparator older_key limit_key ≡ some Ordering.lt
unfolding internal_compare extract_user_key bytewise_comparator compare_slice memcmp decode_fixed64
    native_value
older-below = refl

parse-append_internal_key_example :
    (enc : Slice) × (append_internal_key true (7 ∷ []) newer ≡ some ((7 ∷ []) ++ enc))
    × (size enc ≡ internal_key_encoding_length newer)
    × (parse_internal_key false enc ≡ some newer)
    × (extract_user_key enc ≡ some (b'a' ∷ b'b' ∷ b'c' ∷ []))
    × (extract_value_type false enc ≡ some 1)
parse-append_internal_key_example =
    parse-append_internal_key true false (7 ∷ []) newer (omega arith) (omega arith)

internal_compare-append_example :
    internal_compare true bytewise_comparator newer_key older_key
    ≡ some (
        then_by
          (lex (b'a' ∷ b'b' ∷ b'c' ∷ []) (b'a' ∷ b'b' ∷ b'c' ∷ []))
          (then_by (compare 299 300) (compare 0 1)))
internal_compare-append_example =
    internal_compare-append true bytewise_comparator lex bytewise_comparator-IsLawful newer older
      newer_key older_key (omega arith) (omega arith) (omega arith) (omega arith) newer_run
      older_run

internal_separator-Separates_example :
    (r : Slice) × Separates true bytewise_comparator older_key limit_key r
internal_separator-Separates_example =
    internal_separator-Separates true bytewise_comparator lex bytewise_comparator-IsLawful older_key
      limit_key (omega arith) (omega arith) older-below

parse_internal_key_iff_example :
    ((key : ParsedInternalKey) × (parse_internal_key true newer_key ≡ some key))
    ↔ (8 ≤ size newer_key)
parse_internal_key_iff_example = parse_internal_key_iff true newer_key
