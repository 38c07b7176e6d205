-- ===== src/Comparator.antt =====
-- db/Comparator.h and db/Comparator.cpp: the interface, and `BytewiseComparatorImpl`.
-- A string is the list of its bytes; `none` is a failed assertion.
pub mod Laws
pub mod Separate
pub mod Bytewise
mod Tests
use Prim.Native.String.{String}
use releveldb.Base.{ℕ, zero, suc, ◌+◌, Ordering, List, [], ◌∷◌, Option, none, some, ◌&&◌}
use releveldb.Base.{ltb, leb, ◌==◌, if◌then◌else◌, length, get_or, set, take}
use releveldb.Slice.{Slice, size, compare_slice, is_lt}

-- the virtual functions; one that updates a string returns it
pub record Comparator : Type 0 where
  pub compare : Slice → Slice → Option Ordering
  pub name : String
  pub find_shortest_separator : List ℕ → Slice → Option (List ℕ)
  pub find_short_successor : List ℕ → Option (List ℕ)

-- `resize(n)` for an `n` that is not above the size
abbrev pub resize : List ℕ → ℕ → List ℕ
resize s n = take n s

-- The while loop: `diff_index` moves on while it is in both strings and the bytes agree.
diff_loop : List ℕ → Slice → ℕ → ℕ
diff_loop [] limit diff_index = diff_index
diff_loop (x ∷ start) [] diff_index = diff_index
diff_loop (x ∷ start) (y ∷ limit) diff_index =
    let more = diff_loop start limit (diff_index + 1) in if x == y then more else diff_index

-- The rest of `FindShortestSeparator`, at the index where the loop stopped.
shorten_at : List ℕ → Slice → ℕ → Option (List ℕ)
shorten_at start limit diff_index =
    let min_length = if ltb (size limit) (length start) then size limit else length start in
    let diff_byte = get_or start diff_index 0 in
    let shorter = resize (set start diff_index (diff_byte + 1)) (diff_index + 1) in
    if leb min_length diff_index
    then some start
    else if ltb diff_byte 0xff && ltb (diff_byte + 1) (get_or limit diff_index 0)
    then if is_lt (compare_slice shorter limit) then some shorter else none
    else some start

pub bytewise_separator : List ℕ → Slice → Option (List ℕ)
unfolding diff_loop shorten_at
bytewise_separator start limit = shorten_at start limit (diff_loop start limit 0)

-- The for loop, with the rounds that are left: `n - i`.
pub successor_loop : ℕ → List ℕ → ℕ → List ℕ
successor_loop zero key i = key
successor_loop (suc rounds) key i =
    let more = successor_loop rounds key (i + 1) in
    if get_or key i 0 == 0xff then more else resize (set key i (get_or key i 0 + 1)) (i + 1)

pub bytewise_successor : List ℕ → Option (List ℕ)
unfolding successor_loop
bytewise_successor key = some (successor_loop (length key) key 0)

unfoldable pub bytewise_comparator : Comparator
unfolding bytewise_separator bytewise_successor
bytewise_comparator = record {
  compare = λ a b. some (compare_slice a b);
  name = "releveldb.BytewiseComparator";
  find_shortest_separator = bytewise_separator;
  find_short_successor = bytewise_successor;
}
