-- ===== src/DbFormat.antt =====
-- db/DBFormat.h and db/DBFormat.cpp: internal keys, a user key followed by eight bytes that hold
-- the sequence number and the value type. A string is the list of its bytes, `none` is a failed
-- assertion (for `ParseInternalKey` the answer false), and `little` is `kLittleEndian`.
pub mod Encoding
pub mod Order
pub mod Separators
pub mod Debug
mod Tests
use releveldb.Base.{
  ℕ, ◌+◌, ◌-◌, ◌*◌, ◌/◌, ◌^◌, ◌%◌, Ordering, List, [], ◌++◌, Bool, Option, none, some,
}
use releveldb.Base.{bit_and, bit_or, ltb, leb, ◌==◌, not, if◌then◌else◌, length, take, drop}
use releveldb.Base.{◌>>=◌, ◌>>◌, assert}
use releveldb.Slice.{Slice, size, is_eq, is_lt}
use releveldb.Coding.{put_fixed64, decode_fixed64}
use releveldb.Comparator.{Comparator}

-- `static_cast<ValueType>(c)` makes a value of any byte.
abbrev pub ValueType : Type 0
ValueType = ℕ

abbrev pub k_type_deletion : ValueType
k_type_deletion = 0x0

abbrev pub k_type_value : ValueType
k_type_value = 0x1

abbrev pub k_value_type_for_seek : ValueType
k_value_type_for_seek = k_type_value

abbrev pub k_max_sequence_number : ℕ
k_max_sequence_number = 2 ^ 56 - 1

pub record ParsedInternalKey : Type 0 where
  pub user_key : Slice
  pub sequence : ℕ
  pub value_type : ValueType

pub internal_key_encoding_length : ParsedInternalKey → ℕ
internal_key_encoding_length key = size key.user_key + 8

unfoldable pub pack_sequence_and_type : ℕ → ValueType → Option ℕ
pack_sequence_and_type seq t = do
  assert (leb seq k_max_sequence_number)
  assert (leb t k_value_type_for_seek)
  some (bit_or (seq * 2 ^ 8 % 2 ^ 64) t)

unfoldable pub append_internal_key : Bool → List ℕ → ParsedInternalKey → Option (List ℕ)
unfolding pack_sequence_and_type
append_internal_key little result key = do
  num ← pack_sequence_and_type key.sequence key.value_type
  some (put_fixed64 little (result ++ key.user_key) num)

-- `DecodeFixed64(internal_key.Data() + internal_key.Size() - 8)`
abbrev pub trailer : Bool → Slice → Option ℕ
trailer little internal_key = decode_fixed64 little (drop (size internal_key - 8) internal_key)

pub parse_internal_key : Bool → Slice → Option ParsedInternalKey
parse_internal_key little internal_key = if ltb (size internal_key) 8 then none else do
  num ← trailer little internal_key
  some (record {
    user_key = take (size internal_key - 8) internal_key;
    sequence = num / 2 ^ 8;
    value_type = bit_and num 0xff;
  })

pub extract_user_key : Slice → Option Slice
extract_user_key internal_key = do
  assert (leb 8 (size internal_key))
  some (take (size internal_key - 8) internal_key)

pub extract_value_type : Bool → Slice → Option ValueType
extract_value_type little internal_key = do
  assert (leb 8 (size internal_key))
  num ← trailer little internal_key
  some (bit_and num 0xff)

-- `InternalKeyComparator`, over its `user_comparator_`
module _ (little : Bool) (user_comparator : Comparator) where
  pub internal_compare : Slice → Slice → Option Ordering
  unfolding extract_user_key
  internal_compare a b = do
    user_a ← extract_user_key a
    user_b ← extract_user_key b
    result ← user_comparator.compare user_a user_b
    if is_eq result
        then (do
          num_a ← trailer little a
          num_b ← trailer little b
          some (
              if ltb num_b num_a
              then Ordering.lt
              else if ltb num_a num_b
              then Ordering.gt
              else result))
        else some result

  pub internal_separator : List ℕ → Slice → Option (List ℕ)
  unfolding extract_user_key pack_sequence_and_type
  internal_separator start limit = do
    user_start ← extract_user_key start
    user_limit ← extract_user_key limit
    tmp ← user_comparator.find_shortest_separator user_start user_limit
    if ltb (length tmp) (size user_start)
        then (do
          result ← user_comparator.compare user_start tmp
          if is_lt result
              then (do
                num ← pack_sequence_and_type k_max_sequence_number k_value_type_for_seek
                let tmp' = put_fixed64 little tmp num
                low ← internal_compare start tmp'
                assert (is_lt low)
                high ← internal_compare tmp' limit
                assert (is_lt high)
                some tmp')
              else some start)
        else some start

  pub internal_successor : List ℕ → Option (List ℕ)
  unfolding extract_user_key pack_sequence_and_type
  internal_successor key = do
    user_key ← extract_user_key key
    tmp ← user_comparator.find_short_successor user_key
    if ltb (length tmp) (size user_key)
        then (do
          result ← user_comparator.compare user_key tmp
          if is_lt result
              then (do
                num ← pack_sequence_and_type k_max_sequence_number k_value_type_for_seek
                let tmp' = put_fixed64 little tmp num
                low ← internal_compare key tmp'
                assert (is_lt low)
                some tmp')
              else some key)
        else some key

  unfoldable pub internal_key_comparator : Comparator
  unfolding internal_compare internal_separator internal_successor
  internal_key_comparator = record {
    compare = internal_compare;
    name = "releveldb.InternalKeyComparator";
    find_shortest_separator = internal_separator;
    find_short_successor = internal_successor;
  }

-- class `InternalKey`
pub record InternalKey : Type 0 where
  pub rep : List ℕ

pub new_internal_key : Bool → Slice → ℕ → ValueType → Option InternalKey
unfolding append_internal_key
new_internal_key little key s t = do
  rep ← append_internal_key little [] (record { user_key = key; sequence = s; value_type = t })
  some (record { rep = rep })

pub decode_from : InternalKey → Slice → InternalKey
decode_from k s = record k { rep = s }

pub encode : InternalKey → Option Slice
encode k = do assert (not (length k.rep == 0)); some k.rep

pub user_key_of : InternalKey → Option Slice
unfolding extract_user_key
user_key_of k = extract_user_key k.rep

pub clear_key : InternalKey → InternalKey
clear_key k = record k { rep = [] }

pub compare_keys : Bool → Comparator → InternalKey → InternalKey → Option Ordering
unfolding encode internal_compare
compare_keys little user_comparator a b = do
  ea ← encode a
  eb ← encode b
  internal_compare little user_comparator ea eb
