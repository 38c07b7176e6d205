-- ===== src/DbFormat/Debug.antt =====
-- The two `DebugString` functions of db/DBFormat.cpp. `printed` is what `snprintf` makes of the
-- sequence number and the type, which a buffer of 50 bytes cuts off.
use releveldb.Base.{
  ℕ, ◌≤◌, ◌≡◌, refl, ap, List, [], ◌++◌, Bool, Option, none, some, ◌>>=◌, codes, take,
}
use releveldb.Slice.{Slice}
use releveldb.Logging.{escape_string}
use releveldb.DbFormat.{
  ValueType, ParsedInternalKey, InternalKey, parse_internal_key, new_internal_key,
  k_max_sequence_number,
}
use releveldb.DbFormat.Encoding.{parse-append_internal_key}

pub debug_string : (ℕ → ValueType → List ℕ) → ParsedInternalKey → List ℕ
debug_string printed key =
    codes "'" ++ (escape_string key.user_key ++ take 49 (printed key.sequence key.value_type))

pub key_debug_string : Bool → (ℕ → ValueType → List ℕ) → InternalKey → List ℕ
unfolding debug_string
key_debug_string little printed k = elim (parse_internal_key little k.rep) [
  | none ↦ codes "(bad)" ++ escape_string k.rep
  | some parsed ↦ debug_string printed parsed
]

abbrev shown : (ℕ → ValueType → List ℕ) → List ℕ → Option ParsedInternalKey → List ℕ
shown printed rep none = codes "(bad)" ++ escape_string rep
shown printed rep (some parsed) = debug_string printed parsed

-- A key made by the constructor is shown by its user key, sequence number and type.
pub key_debug_string-new_internal_key :
    (writer reader : Bool) (printed : ℕ → ValueType → List ℕ) (key : Slice) (s : ℕ) (t : ValueType)
    → s ≤ k_max_sequence_number
    → t ≤ 1
    → (k : InternalKey) × (new_internal_key writer key s t ≡ some k)
      × (key_debug_string reader printed k
          ≡ debug_string printed (record { user_key = key; sequence = s; value_type = t }))
unfolding new_internal_key key_debug_string
key_debug_string-new_internal_key writer reader printed key s t hs ht =
    let (enc, made, _, parsed, _, _) =
      parse-append_internal_key writer reader []
        (record { user_key = key; sequence = s; value_type = t }) hs ht in
    (record { rep = enc }, rw (made, ◌>>=◌) refl, ap (shown printed enc) parsed)
