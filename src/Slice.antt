-- ===== src/Slice.antt =====
-- db/Slice.h and db/Slice.cpp. A slice is the bytes `data_[0..size_)`, so `Size()` is the length;
-- a byte is a number, the value of the `unsigned char`. A failed `assert` is `none`.
-- The int of a three-way comparison is known by its sign alone: `lt` is negative, `gt` positive.
pub mod Order
pub mod Prefix
mod Tests
use releveldb.Base.{ℕ, zero, suc, ◌≤◌, ◌<◌, ◌^◌, compare, Ordering, List, [], ◌∷◌}
use releveldb.Base.{Bool, true, false, not, ◌&&◌, Option, none, some}
use releveldb.Base.{ltb, leb, ◌==◌, if◌then◌else◌, length, drop, get_elem?}

abbrev pub Slice : Type 0
Slice = List ℕ

abbrev pub IsByte : ℕ → Type 0
IsByte b = b < 2 ^ 8

-- `memcmp(a, b, n)` of the C library: the sign of the first difference among `n` bytes.
unfoldable pub memcmp : Slice → Slice → ℕ → Ordering
memcmp a b zero = Ordering.eq
memcmp [] b (suc n) = Ordering.eq
memcmp (x ∷ a) [] (suc n) = Ordering.eq
memcmp (x ∷ a) (y ∷ b) (suc n) = elim (compare x y) [
  | Ordering.eq ↦ memcmp a b n
  | Ordering.lt ↦ Ordering.lt
  | Ordering.gt ↦ Ordering.gt
]

abbrev pub is_eq : Ordering → Bool
is_eq Ordering.eq = true
is_eq _ = false

abbrev pub is_lt : Ordering → Bool
is_lt Ordering.lt = true
is_lt _ = false

-- `Slice()`
abbrev pub empty_slice : Slice
empty_slice = []

-- `Slice(const char*)` reads up to the NUL of `strlen`.
unfoldable pub from_c_string : List ℕ → Slice
from_c_string [] = []
from_c_string (c ∷ cs) = elim (c == 0) [ true ↦ [] | false ↦ c ∷ from_c_string cs ]

abbrev pub size : Slice → ℕ
size = length

unfoldable pub empty : Slice → Bool
empty s = size s == 0

-- `operator[]`, with its assertion
pub at : Slice → ℕ → Option ℕ
at s i = if ltb i (size s) then get_elem? s i else none

pub clear : Slice → Slice
clear s = empty_slice

pub drop_first_n_bytes : Slice → ℕ → Option Slice
drop_first_n_bytes s n = if leb n (size s) then some (drop n s) else none

unfoldable pub starts_with : Slice → Slice → Bool
starts_with s x = leb (size x) (size s) && is_eq (memcmp s x (size x))

unfoldable pub compare_slice : Slice → Slice → Ordering
compare_slice s t =
    let min_len = if ltb (size s) (size t) then size s else size t in
    let cmp = memcmp s t min_len in
    if is_eq cmp
    then if ltb (size s) (size t)
      then Ordering.lt
      else if ltb (size t) (size s)
      then Ordering.gt
      else cmp
    else cmp

infix 50 ◌==s◌ ◌!=s◌
unfoldable pub ◌==s◌ : Slice → Slice → Bool
x ==s y = size x == size y && is_eq (memcmp x y (size x))

unfoldable pub ◌!=s◌ : Slice → Slice → Bool
unfolding ◌==s◌
x !=s y = not (x ==s y)
