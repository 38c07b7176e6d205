-- ===== src/Arena.antt =====
-- db/Arena.h and db/Arena.cpp over explicit addresses. `fresh` is the address that `new char[n]`
-- returns if it is called; a block is kept with its size, which the allocator knows.
-- `none` is a failed assertion.
pub mod Regions
pub mod Allocation
pub mod Release
mod Tests
use releveldb.Base.{
  ℕ, ◌+◌, ◌-◌, ◌/◌, ◌%◌, ◌^◌, List, [], ◌∷◌, ◌++◌, Option, some, none, bit_and, ltb, leb, ◌==◌,
  if◌then◌else◌,
}
use releveldb.Base.{◌>>=◌, ◌>>◌, assert}

abbrev pub k_block_size : ℕ
k_block_size = 4096

pub record Region : Type 0 where
  pub base : ℕ
  pub bytes : ℕ

abbrev pub region : ℕ → ℕ → Region
region base bytes = record { base = base; bytes = bytes }

pub record Arena : Type 0 where
  pub alloc_ptr : ℕ
  pub alloc_bytes_remaining : ℕ
  pub blocks : List Region
  pub memory_usage : ℕ

pub new_arena : Arena
new_arena = record { alloc_ptr = 0; alloc_bytes_remaining = 0; blocks = []; memory_usage = 0 }

-- `sizeof(char*)` is 8.
pub allocate_new_block : ℕ → Arena → ℕ → ℕ × Arena
allocate_new_block fresh arena bytes = (
  fresh,
  record arena {
    blocks = arena.blocks ++ (region fresh bytes ∷ []);
    memory_usage = (arena.memory_usage + bytes + 8) % 2 ^ 64;
  },
)

pub allocate_fallback : ℕ → Arena → ℕ → ℕ × Arena
unfolding allocate_new_block
allocate_fallback fresh arena bytes =
    if ltb (k_block_size / 4) bytes
    then allocate_new_block fresh arena bytes
    else let (ret, arena') = allocate_new_block fresh arena k_block_size in
      (ret, record arena' { alloc_ptr = ret + bytes; alloc_bytes_remaining = k_block_size - bytes })

pub allocate : ℕ → Arena → ℕ → Option (ℕ × Arena)
unfolding allocate_fallback
allocate fresh arena bytes = do
  assert (ltb 0 bytes)
  some (
      if leb bytes arena.alloc_bytes_remaining
      then (
        arena.alloc_ptr,
        record arena {
          alloc_ptr = arena.alloc_ptr + bytes;
          alloc_bytes_remaining = arena.alloc_bytes_remaining - bytes;
        },
      )
      else allocate_fallback fresh arena bytes)

-- `needed` is a size_t sum.
abbrev pub slop : Arena → ℕ
slop arena =
    let current_mod = bit_and arena.alloc_ptr 7 in if current_mod == 0 then 0 else 8 - current_mod

pub allocate_aligned : ℕ → Arena → ℕ → Option (ℕ × Arena)
unfolding allocate_fallback
allocate_aligned fresh arena bytes =
    let needed = (bytes + slop arena) % 2 ^ 64 in
    let (result, arena') =
      if leb needed arena.alloc_bytes_remaining
      then (
        arena.alloc_ptr + slop arena,
        record arena {
          alloc_ptr = arena.alloc_ptr + needed;
          alloc_bytes_remaining = arena.alloc_bytes_remaining - needed;
        },
      )
      else allocate_fallback fresh arena bytes in
    do assert (bit_and result 7 == 0); some (result, arena')
