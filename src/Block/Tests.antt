-- ===== src/Block/Tests.antt =====
-- Runs of the blocks of db/Block.cpp, on a block with one entry and one restart point.
mod Lookup
use releveldb.Base.{
  ℕ, ◌+◌, ◌*◌, ◌≡◌, ◌⊎◌, refl, arith, List, [], ◌∷◌, ◌++◌, some, ◌>>=◌, true, false, take, length,
}
use releveldb.Block.Bounds.{decode_entry-wraps}
use releveldb.Block.Stops.{WrapsSomewhere}
use releveldb.Block.AnyBytes.{HasSought, seek_total}
use releveldb.Base.{Ordering, ◌-◌, ◌^◌}
use releveldb.Slice.{Slice, size}
use releveldb.Slice.Order.{lex}
use releveldb.Comparator.{bytewise_comparator}
use releveldb.Comparator.Laws.{IsLawful-Orders}
use releveldb.Comparator.Bytewise.{bytewise_comparator-IsLawful}
use releveldb.Coding.{decode_fixed32, native_value}
use releveldb.Block.Layout.{KeyValue, EntryAt, Holds}
use releveldb.Block.Scan.{IsFirst}
use releveldb.Block.Sorted.{PointAt}
use releveldb.Block.Seek.{IsBlock, seek-IsFirst}
use releveldb.Base.{zero, suc, none, drop, codes, ◌<◌}
use releveldb.Coding.Varint.{varint_bytes}
use releveldb.Status.{ok_status}
use releveldb.Block.{
  BlockContents, Block, num_restarts, new_block, decode_entry, decode_lengths, check_left,
}
use releveldb.Block.Iter.{
  Iter, get_restart_point, seek, next_entry_offset, parse_next_key, scan_loop, key_of, value_of,
}
use releveldb.Block.Decode.{lengths_bytes, decode_entry_fast, decode_entry-lengths_bytes}
use releveldb.Block.Restarts.{new_block_bounds}
use releveldb.Block.Parse.{HasEntry, HasRestarts, parse_next_key-entry}

-- the key abc with the value V, then the restart array
abbrev bytes : List ℕ
bytes = 0 ∷ 3 ∷ 1 ∷ b'a' ∷ b'b' ∷ b'c' ∷ b'V' ∷ 0 ∷ 0 ∷ 0 ∷ 0 ∷ 1 ∷ 0 ∷ 0 ∷ 0 ∷ []

abbrev abc : List ℕ
abc = b'a' ∷ b'b' ∷ b'c' ∷ []

abbrev one_entry : BlockContents
one_entry = record { contents = bytes; cachable = false; heap_allocated = true }

abbrev start : Iter
start = record {
  contents = bytes;
  restarts = 7;
  num_restarts = 1;
  current = 99;
  restart_index = 0;
  key = [];
  value = some (0, 0);
  status = ok_status;
}

start-HasEntry : HasEntry start [] 0 abc (b'V' ∷ []) (0 ∷ 0 ∷ 0 ∷ 0 ∷ 1 ∷ 0 ∷ 0 ∷ 0 ∷ [])
unfolding next_entry_offset lengths_bytes varint_bytes
start-HasEntry = record {
  at = refl;
  bytes = refl;
  inside = omega arith;
  shares = omega arith;
  short = omega arith;
}

start-HasRestarts : HasRestarts start
start-HasRestarts = record { array = omega arith; small = omega arith; index = omega arith }

new_block_bounds_example :
    (block : Block) × (new_block true 7 one_entry ≡ some block)
    × ((block.size_ ≡ 0)
        ⊎ ((n : ℕ) × (num_restarts true block ≡ some n)
            × (block.restart_offset + n * 4 + 4 ≡ block.size_)
            × (block.size_ ≡ size one_entry.contents)))
new_block_bounds_example = new_block_bounds true 7 one_entry (omega arith)

decode_entry_fast_example :
    decode_entry (0 ∷ 3 ∷ 1 ∷ []) ≡ (decode_lengths (0 ∷ 3 ∷ 1 ∷ []) >>= check_left)
decode_entry_fast_example = decode_entry_fast 0 3 1 []

-- two restart points: abc and abd, which shares two bytes, and then b
abbrev three : List ℕ
three =
    0 ∷ 3 ∷ 1 ∷ b'a' ∷ b'b' ∷ b'c' ∷ b'V' ∷ 2 ∷ 1 ∷ 1 ∷ b'd' ∷ b'W' ∷ 0 ∷ 1 ∷ 1 ∷ b'b' ∷ b'X' ∷ 0
    ∷ 0 ∷ 0 ∷ 0 ∷ 12 ∷ 0 ∷ 0 ∷ 0 ∷ 2 ∷ 0 ∷ 0 ∷ 0 ∷ []

abbrev over_three : Iter
over_three = record {
  contents = three;
  restarts = 17;
  num_restarts = 2;
  current = 99;
  restart_index = 0;
  key = [];
  value = none;
  status = ok_status;
}

abbrev e1 : KeyValue
e1 = record { key = codes "abc"; value = codes "V" }

abbrev e2 : KeyValue
e2 = record { key = codes "abd"; value = codes "W" }

abbrev e3 : KeyValue
e3 = record { key = codes "b"; value = codes "X" }

abbrev entries : List KeyValue
entries = e1 ∷ e2 ∷ e3 ∷ []

at_e1 : EntryAt three 17 0 [] e1
unfolding lengths_bytes varint_bytes
at_e1 = record {
  shared = 0;
  delta = codes "abc";
  front = [];
  back = drop 7 three;
  at = refl;
  bytes = refl;
  inside = omega arith;
  shares = omega arith;
  short = omega arith;
  spells = refl;
}

at_e2 : EntryAt three 17 7 (codes "abc") e2
unfolding lengths_bytes varint_bytes
at_e2 = record {
  shared = 2;
  delta = codes "d";
  front = take 7 three;
  back = drop 12 three;
  at = refl;
  bytes = refl;
  inside = omega arith;
  shares = omega arith;
  short = omega arith;
  spells = refl;
}

at_e3 : (before : List ℕ) → EntryAt three 17 12 before e3
unfolding lengths_bytes varint_bytes
at_e3 before = record {
  shared = 0;
  delta = codes "b";
  front = take 12 three;
  back = drop 17 three;
  at = refl;
  bytes = refl;
  inside = omega arith;
  shares = omega arith;
  short = omega arith;
  spells = refl;
}

from_e3 : (before : List ℕ) → Holds three 17 12 before (e3 ∷ [])
unfolding at_e3 lengths_bytes varint_bytes
from_e3 before = (at_e3 before, refl)

from_e1 : Holds three 17 0 [] entries
unfolding at_e1 at_e2 at_e3 lengths_bytes varint_bytes
from_e1 = (at_e1, (at_e2, (at_e3 (codes "abd"), refl)))

points : (i : ℕ) → i < 2 → PointAt true over_three entries i
unfolding get_restart_point decode_fixed32 native_value
points zero h = record {
  offset = 0;
  point = refl;
  pre = [];
  post = entries;
  split = refl;
  holds = from_e1;
  first = λ e. refl;
  inhabited = λ pos. absurd (omega (arith, pos));
}
points (suc zero) h = record {
  offset = 12;
  point = refl;
  pre = e1 ∷ e2 ∷ [];
  post = e3 ∷ [];
  split = refl;
  holds = from_e3 [];
  first = λ e. absurd (omega (arith, e));
  inhabited = λ pos. (e3, [], refl);
}
points (suc (suc i)) h = absurd (omega (arith, h))

three-IsBlock : IsBlock true (λ s. Unit) lex over_three entries
three-IsBlock = record {
  array = omega arith;
  small = omega arith;
  some_restart = omega arith;
  sorted = ((refl, (refl, tt)), ((refl, tt), (tt, tt)));
  keys = (tt, (tt, (tt, tt)));
  points = points;
}

seek-IsFirst_example :
    (it' : Iter) × (seek true bytewise_comparator 4 over_three (codes "abd") ≡ some it')
    × (it'.status ≡ ok_status)
    × IsFirst lex (codes "abd") entries it'
seek-IsFirst_example =
    seek-IsFirst true bytewise_comparator (λ s. Unit) lex
      (IsLawful-Orders bytewise_comparator-IsLawful) (codes "abd") tt over_three entries
      three-IsBlock 4 (omega arith) (omega arith)

-- the lengths 0, 2^32 - 1 and 3, with two bytes behind them
decode_entry-wraps_example :
    (decode_entry (lengths_bytes 0 (2 ^ 32 - 1) 3 ++ (b'a' ∷ b'b' ∷ []))
      ≡ some (record {
        shared = 0;
        non_shared = 2 ^ 32 - 1;
        value_length = 3;
        rest = b'a' ∷ b'b' ∷ [];
      }))
    × (2 < 2 ^ 32 - 1 + 3)
decode_entry-wraps_example =
    decode_entry-wraps 0 (2 ^ 32 - 1) 3 (b'a' ∷ b'b' ∷ []) (omega arith) (omega arith) (omega arith)
      (omega arith) (omega arith) (omega arith)

bytewise_total : (a b : Slice) → (o : Ordering) × (bytewise_comparator.compare a b ≡ some o)
unfolding bytewise_comparator
bytewise_total a b = (_, refl)

seek_total_example :
    ((it' : Iter) × (seek true bytewise_comparator 8 start (codes "abd") ≡ some it')
      × HasSought true bytewise_comparator (codes "abd") start it')
    ⊎ WrapsSomewhere true start
seek_total_example =
    seek_total true bytewise_comparator (codes "abd") start bytewise_total (omega arith)
      (omega arith) 8 (omega arith) (omega arith) (omega arith)
