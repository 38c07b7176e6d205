-- ===== src/Arena/Tests.antt =====
-- Runs of the arena of db/Arena.h and db/Arena.cpp.
use releveldb.Base.{ℕ, ◌%◌, ◌^◌, ◌-◌, ◌≡◌, refl, arith, inr, List, [], ◌∷◌, none, some}
use releveldb.Arena.{
  Region, region, Arena, new_arena, allocate, allocate_aligned, allocate_fallback,
  allocate_new_block,
}
use releveldb.Arena.Allocation.{IsValid, allocate-IsValid, allocate_aligned-IsValid}

-- 100 bytes taken of a first block
abbrev used : Arena
used = record {
  alloc_ptr = 4196;
  alloc_bytes_remaining = 3996;
  blocks = region 4096 4096 ∷ [];
  memory_usage = 4104;
}

-- an arena whose next address is 4 behind a multiple of eight
abbrev unaligned : Arena
unaligned = record {
  alloc_ptr = 4100;
  alloc_bytes_remaining = 3996;
  blocks = region 4096 4096 ∷ [];
  memory_usage = 4104;
}

-- `bytes + slop` wraps to 0: the address is inside the block, and nothing is taken of it.
wrapped_run : allocate_aligned 16384 unaligned (2 ^ 64 - 4) ≡ some (4104, unaligned)
unfolding allocate_aligned
wrapped_run = refl

abbrev first_given : List Region
first_given = region 4096 100 ∷ []

used_run : allocate 4096 new_arena 100 ≡ some (4096, used)
unfolding allocate allocate_fallback allocate_new_block new_arena
used_run = refl

zero_run : allocate 4096 used 0 ≡ none
unfolding allocate
zero_run = refl

used-IsValid : IsValid used first_given
used-IsValid = record {
  window_ok = inr (omega arith);
  given_inside = omega arith;
  given_apart = omega arith;
  usage = refl;
}

allocate-IsValid_example :
    (p : ℕ) × (arena' : Arena) × (allocate 16384 used 2000 ≡ some (p, arena'))
    × IsValid arena' (region p 2000 ∷ first_given)
allocate-IsValid_example =
    allocate-IsValid used first_given used-IsValid 16384 2000 (omega arith) (omega arith)

allocate_aligned-IsValid_example :
    (p : ℕ) × (arena' : Arena) × (allocate_aligned 16384 used 50 ≡ some (p, arena'))
    × (p % 8 ≡ 0)
    × IsValid arena' (region p 50 ∷ first_given)
allocate_aligned-IsValid_example =
    allocate_aligned-IsValid used first_given used-IsValid 16384 50 (omega arith) (omega arith) refl
      (omega arith)
