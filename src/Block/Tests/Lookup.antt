-- ===== src/Block/Tests/Lookup.antt =====
-- A look-up in a block of db/Block.cpp with two versions of one user key.
use releveldb.Base.{
  ℕ, zero, suc, ◌<◌, ◌≡◌, refl, arith, List, [], ◌∷◌, ◌++◌, some, none, true, drop, take, codes,
  ◌∙◌,
}
use releveldb.Slice.{Slice}
use releveldb.Slice.Order.{lex}
use releveldb.Comparator.{bytewise_comparator}
use releveldb.Comparator.Bytewise.{bytewise_comparator-IsLawful}
use releveldb.Coding.{put_fixed64, encode_fixed64, native_bytes, native_value, decode_fixed32}
use releveldb.Coding.Varint.{varint_bytes}
use releveldb.Status.{ok_status}
use releveldb.DbFormat.{
  ParsedInternalKey, append_internal_key, pack_sequence_and_type, internal_key_comparator,
}
use releveldb.Block.Iter.{Iter, get_restart_point, seek}
use releveldb.Block.Decode.{lengths_bytes}
use releveldb.Block.Layout.{KeyValue, EntryAt, Holds}
use releveldb.Block.Sorted.{PointAt}
use releveldb.Block.Seek.{IsBlock}
use releveldb.Block.Versions.{IsVersion, IsVersion-IsKey, internal_order, internal_order-IsKey}
use releveldb.Block.Lookup.{IsAnswer, seek-IsAnswer}

abbrev at_300 : ParsedInternalKey
at_300 = record { user_key = codes "abc"; sequence = 300; value_type = 1 }

abbrev at_299 : ParsedInternalKey
at_299 = record { user_key = codes "abc"; sequence = 299; value_type = 0 }

abbrev key_300 : Slice
key_300 = b'a' ∷ b'b' ∷ b'c' ∷ 1 ∷ 44 ∷ 1 ∷ 0 ∷ 0 ∷ 0 ∷ 0 ∷ 0 ∷ []

abbrev key_299 : Slice
key_299 = b'a' ∷ b'b' ∷ b'c' ∷ 0 ∷ 43 ∷ 1 ∷ 0 ∷ 0 ∷ 0 ∷ 0 ∷ 0 ∷ []

abbrev sought : Slice
sought = b'a' ∷ b'b' ∷ b'c' ∷ 1 ∷ 43 ∷ 1 ∷ 0 ∷ 0 ∷ 0 ∷ 0 ∷ 0 ∷ []

version_300 : IsVersion true key_300
unfolding append_internal_key pack_sequence_and_type put_fixed64 encode_fixed64 native_bytes
version_300 = record { version = at_300; in_range = omega arith; typed = omega arith; made = refl }

version_299 : IsVersion true key_299
unfolding append_internal_key pack_sequence_and_type put_fixed64 encode_fixed64 native_bytes
version_299 = record { version = at_299; in_range = omega arith; typed = omega arith; made = refl }

sought-made :
    append_internal_key true [] (record { user_key = codes "abc"; sequence = 299; value_type = 1 })
    ≡ some sought
unfolding append_internal_key pack_sequence_and_type put_fixed64 encode_fixed64 native_bytes
sought-made = refl

abbrev versions : List ℕ
versions =
    (0 ∷ 11 ∷ 1 ∷ key_300)
    ++ (b'V' ∷ 0 ∷ 11 ∷ 1 ∷ key_299)
    ++ (b'W' ∷ 0 ∷ 0 ∷ 0 ∷ 0 ∷ 1 ∷ 0 ∷ 0 ∷ 0 ∷ [])

abbrev over_versions : Iter
over_versions = record {
  contents = versions;
  restarts = 30;
  num_restarts = 1;
  current = 99;
  restart_index = 0;
  key = [];
  value = none;
  status = ok_status;
}

abbrev e_300 : KeyValue
e_300 = record { key = key_300; value = codes "V" }

abbrev e_299 : KeyValue
e_299 = record { key = key_299; value = codes "W" }

abbrev entries : List KeyValue
entries = e_300 ∷ e_299 ∷ []

at_first : EntryAt versions 30 0 [] e_300
unfolding lengths_bytes varint_bytes
at_first = record {
  shared = 0;
  delta = key_300;
  front = [];
  back = drop 15 versions;
  at = refl;
  bytes = refl;
  inside = omega arith;
  shares = omega arith;
  short = omega arith;
  spells = refl;
}

at_second : EntryAt versions 30 15 key_300 e_299
unfolding lengths_bytes varint_bytes
at_second = record {
  shared = 0;
  delta = key_299;
  front = take 15 versions;
  back = drop 30 versions;
  at = refl;
  bytes = refl;
  inside = omega arith;
  shares = omega arith;
  short = omega arith;
  spells = refl;
}

from_first : Holds versions 30 0 [] entries
unfolding at_first at_second lengths_bytes varint_bytes
from_first = (at_first, (at_second, refl))

points : (i : ℕ) → i < 1 → PointAt true over_versions entries i
unfolding get_restart_point decode_fixed32 native_value
points zero h = record {
  offset = 0;
  point = refl;
  pre = [];
  post = entries;
  split = refl;
  holds = from_first;
  first = λ e. refl;
  inhabited = λ pos. absurd (omega (arith, pos));
}
points (suc i) h = absurd (omega (arith, h))

versions-IsBlock : IsBlock true (IsVersion true) (internal_order true lex) over_versions entries
unfolding version_300 version_299
versions-IsBlock = record {
  array = omega arith;
  small = omega arith;
  some_restart = omega arith;
  sorted = (
    (
      internal_order-IsKey true lex (IsVersion-IsKey true version_300)
            (IsVersion-IsKey true version_299)
          ∙ refl,
      tt,
    ),
    (tt, tt),
  );
  keys = (version_300, (version_299, tt));
  points = points;
}

seek-IsAnswer_example :
    (it' : Iter) × (seek true
        (internal_key_comparator true bytewise_comparator)
        3
        over_versions
        sought
      ≡ some it')
    × IsAnswer true lex (codes "abc") 299 entries it'
seek-IsAnswer_example =
    seek-IsAnswer true bytewise_comparator lex bytewise_comparator-IsLawful (codes "abc") 299 sought
      (omega arith) sought-made over_versions entries 3 versions-IsBlock (omega arith) (omega arith)
