-- ===== src/Block.antt =====
-- db/Block.h and db/Block.cpp, and `BlockContents` of db/Format.h. The block's bytes are the list at
-- `data_`; a pointer into it with a limit is the list of the bytes between the two, and NULL is
-- `none`. `little` is `kLittleEndian`. A field that the code leaves unset is an argument.
pub mod Iter
pub mod Decode
pub mod Restarts
pub mod Parse
pub mod Layout
pub mod Scan
pub mod Sorted
pub mod Search
pub mod Seek
pub mod Versions
pub mod Lookup
pub mod Bounds
pub mod Corrupt
pub mod Stops
pub mod Halves
pub mod AnyBytes
mod Tests
use releveldb.Base.{
  ℕ, ◌+◌, ◌-◌, ◌*◌, ◌/◌, ◌%◌, ◌^◌, bit_or, List, [], ◌∷◌, Option, none, some, ◌>>=◌, ◌>>◌, assert,
  Bool, true, false, ltb, leb, if◌then◌else◌, length, drop,
}
use releveldb.Slice.{Slice, size}
use releveldb.Coding.{decode_fixed32, get_varint32_ptr}

pub record BlockContents : Type 0 where
  pub contents : Slice
  pub cachable : Bool
  pub heap_allocated : Bool

pub record Block : Type 0 where
  pub contents : List ℕ
  pub size_ : ℕ
  pub restart_offset : ℕ
  pub owned : Bool

pub num_restarts : Bool → Block → Option ℕ
num_restarts little block = do
  assert (leb 4 block.size_)
  decode_fixed32 little (drop (block.size_ - 4) block.contents)

-- `unset` is what the uninitialised `restart_offset_` holds. `1 + NumRestarts()` is a uint32_t.
pub new_block : Bool → ℕ → BlockContents → Option Block
unfolding num_restarts
new_block little unset content =
    let block : Block = record {
      contents = content.contents;
      size_ = size content.contents;
      restart_offset = unset;
      owned = content.heap_allocated;
    } in
    if ltb block.size_ 4 then some (record block { size_ = 0 }) else (do
      let max_num_restart = (block.size_ - 4) / 4
      n ← num_restarts little block
      some (
          if ltb max_num_restart n
          then record block { size_ = 0 }
          else record block { restart_offset = (block.size_ - (1 + n) % 2 ^ 32 * 4) % 2 ^ 32 }))

-- The destructor; `delete_array` is `delete[]`.
pub destroy_block : {W : Type 0} → (delete_array : List ℕ → W → W) → Block → W → W
destroy_block delete_array block w = if block.owned then delete_array block.contents w else w

-- the three values, and the bytes behind them
pub record Entry : Type 0 where
  pub shared : ℕ
  pub non_shared : ℕ
  pub value_length : ℕ
  pub rest : List ℕ

-- the else branch of `DecodeEntry`
pub decode_lengths : List ℕ → Option Entry
decode_lengths p = do
  (shared, p1) ← get_varint32_ptr p
  (non_shared, p2) ← get_varint32_ptr p1
  (value_length, p3) ← get_varint32_ptr p2
  some (record { shared = shared; non_shared = non_shared; value_length = value_length; rest = p3 })

-- The last test of `DecodeEntry`; the sum is a uint32_t, and the difference is cast to one.
pub check_left : Entry → Option Entry
check_left e =
    if ltb (length e.rest % 2 ^ 32) ((e.non_shared + e.value_length) % 2 ^ 32) then none else some e

pub decode_entry : List ℕ → Option Entry
unfolding decode_lengths check_left
decode_entry (shared ∷ non_shared ∷ value_length ∷ p) = do
  e ←
      (if ltb (bit_or (bit_or shared non_shared) value_length) 128
        then some (record {
          shared = shared;
          non_shared = non_shared;
          value_length = value_length;
          rest = p;
        })
        else decode_lengths (shared ∷ non_shared ∷ value_length ∷ p))
  check_left e
decode_entry _ = none
