-- ===== src/Arena/Allocation.antt =====
-- Every allocation lies in a block and overlaps no other.
use releveldb.Base.{
  ℕ, ◌+◌, ◌-◌, ◌/◌, ◌%◌, ◌^◌, ◌≤◌, ◌<◌, ◌≡◌, refl, arith, ◌∙◌, List, [], ◌∷◌, ◌++◌, ◌⊎◌, inl, inr,
  All, some, Bool-cases, bit_and, ltb, leb, if◌then◌else◌, leb→le, lt→ltb,
}
use releveldb.Base.Bits.{bit_and-ones}
use native.Mathlib.Nat.{add-zero}
use releveldb.Arena.{
  Region, region, Arena, new_arena, k_block_size, allocate_new_block, allocate_fallback, allocate,
  allocate_aligned, slop,
}
use releveldb.Arena.Regions.{
  Disjoint, InBlocks, Apart, total, total-append, InBlocks-append, InBlocks-last, InBlocks-trans,
  Disjoint-of_InBlocks, All-map,
}

abbrev pub window : Arena → Region
window arena = region arena.alloc_ptr arena.alloc_bytes_remaining

-- The arena, and the regions that it has handed out.
pub record IsValid (arena : Arena) (given : List Region) : Type 0 where
  pub window_ok :
      (arena.alloc_bytes_remaining ≡ 0)
      ⊎ (InBlocks (window arena) arena.blocks × All (λ r. Disjoint r (window arena)) given)
  pub given_inside : All (λ r. InBlocks r arena.blocks) given
  pub given_apart : Apart given
  pub usage : arena.memory_usage ≡ total arena.blocks % 2 ^ 64

-- What `new char[n]` gives is apart from the blocks that are there.
abbrev pub new_bytes : ℕ → ℕ
new_bytes bytes = if ltb (k_block_size / 4) bytes then bytes else k_block_size

abbrev pub IsFresh : ℕ → ℕ → Arena → Type 0
IsFresh fresh bytes arena = All (Disjoint (region fresh (new_bytes bytes))) arena.blocks

pub new_arena-IsValid : IsValid new_arena []
unfolding new_arena
new_arena-IsValid = record {
  window_ok = inl refl;
  given_inside = tt;
  given_apart = tt;
  usage = refl;
}

module _ (arena : Arena) (given : List Region) (ok : IsValid arena given) where
  -- `bytes` from the window, behind a gap of `skip`
  from_window :
      (skip bytes : ℕ)
      → 0 < bytes
      → skip + bytes ≤ arena.alloc_bytes_remaining
      → IsValid
          (record arena {
            alloc_ptr = arena.alloc_ptr + (bytes + skip);
            alloc_bytes_remaining = arena.alloc_bytes_remaining - (bytes + skip);
          })
          (region (arena.alloc_ptr + skip) bytes ∷ given)
  from_window skip bytes pos fits =
      let (inside, apart) = unused in
      record {
        window_ok = inr (
          InBlocks-trans _ (window arena) arena.blocks (omega arith) inside,
          (omega arith, All-map given (λ r d. omega arith) apart),
        );
        given_inside =
            (InBlocks-trans _ (window arena) arena.blocks (omega arith) inside, ok.given_inside);
        given_apart = (All-map given (λ r d. omega arith) apart, ok.given_apart);
        usage = ok.usage;
      }
    where
      unused : InBlocks (window arena) arena.blocks × All (λ r. Disjoint r (window arena)) given
      unused = elim ok.window_ok [ inl none_left ↦ absurd (omega arith) | inr h ↦ h ]

  usage_new :
      (fresh bytes : ℕ)
      → (allocate_new_block fresh arena bytes).1.memory_usage
        ≡ total (arena.blocks ++ (region fresh bytes ∷ [])) % 2 ^ 64
  unfolding allocate_new_block
  usage_new fresh bytes = omega (arith, ok.usage, total-append arena.blocks (region fresh bytes))

  -- All that was handed out, and the window, lie in blocks, so a new block is apart from them.
  given_apart_new : (f : Region) → All (Disjoint f) arena.blocks → All (Disjoint f) given
  given_apart_new f new =
      All-map given (λ r i. flip_disjoint r f (Disjoint-of_InBlocks r f arena.blocks new i))
        ok.given_inside
    where
      flip_disjoint : (r s : Region) → Disjoint r s → Disjoint s r
      flip_disjoint r s d = omega arith

  -- a block of its own for the request
  own_block :
      (fresh bytes : ℕ)
      → All (Disjoint (region fresh bytes)) arena.blocks
      → IsValid (allocate_new_block fresh arena bytes).1 (region fresh bytes ∷ given)
  unfolding allocate_new_block
  own_block fresh bytes new = record {
    window_ok = elim ok.window_ok [
      | inl none_left ↦ inl none_left
      | inr (inside, apart) ↦ inr (
        InBlocks-append _ arena.blocks _ inside,
        (
          (let d : Disjoint (window arena) (region fresh bytes) =
                Disjoint-of_InBlocks (window arena) (region fresh bytes) arena.blocks new inside in
              omega arith),
          apart,
        ),
      )
    ];
    given_inside = (
      InBlocks-last _ (region fresh bytes) arena.blocks (omega arith),
      All-map given (λ r i. InBlocks-append r arena.blocks _ i) ok.given_inside,
    );
    given_apart = (given_apart_new (region fresh bytes) new, ok.given_apart);
    usage = usage_new fresh bytes;
  }

  -- the request at the front of a new block, the rest of which is the new window
  shared_block :
      (fresh bytes : ℕ)
      → bytes ≤ k_block_size
      → All (Disjoint (region fresh k_block_size)) arena.blocks
      → IsValid
          (record (allocate_new_block fresh arena k_block_size).1 {
            alloc_ptr = fresh + bytes;
            alloc_bytes_remaining = k_block_size - bytes;
          })
          (region fresh bytes ∷ given)
  unfolding allocate_new_block
  shared_block fresh bytes fits new =
      let block : Region = region fresh k_block_size in
      let apart : All (Disjoint block) given = given_apart_new block new in
      record {
        window_ok = inr (
          InBlocks-last _ block arena.blocks (omega arith),
          (omega arith, All-map given (λ r d. omega arith) apart),
        );
        given_inside = (
          InBlocks-last _ block arena.blocks (omega arith),
          All-map given (λ r i. InBlocks-append r arena.blocks _ i) ok.given_inside,
        );
        given_apart = (All-map given (λ r d. omega arith) apart, ok.given_apart);
        usage = usage_new fresh k_block_size;
      }

  fallback-IsValid :
      (fresh bytes : ℕ)
      → IsFresh fresh bytes arena
      → let (p, arena') = allocate_fallback fresh arena bytes in
        (p ≡ fresh) × IsValid arena' (region p bytes ∷ given)
  unfolding allocate_fallback
  fallback-IsValid fresh bytes new = elim (Bool-cases (ltb (k_block_size / 4) bytes)) [
    | inl large ↦ rw large (
      unfold allocate_new_block in refl,
      unfold allocate_new_block in own_block fresh bytes (rw large at new),
    )
    | inr small ↦ rw small (
      unfold allocate_new_block in refl,
      unfold allocate_new_block in shared_block fresh bytes (ground arith) (rw small at new),
    )
  ]

  -- `Allocate` of some bytes succeeds; the region that it returns lies in one block and is apart
  -- from all that were handed out, and the usage is still what the blocks cost.
  pub allocate-IsValid :
      (fresh bytes : ℕ)
      → 0 < bytes
      → IsFresh fresh bytes arena
      → (p : ℕ) × (arena' : Arena) × (allocate fresh arena bytes ≡ some (p, arena'))
        × IsValid arena' (region p bytes ∷ given)
  unfolding allocate
  allocate-IsValid fresh bytes pos new = elim (Bool-cases (leb bytes arena.alloc_bytes_remaining)) [
    | inl fits ↦ (
      arena.alloc_ptr,
      _,
      rw (lt→ltb 0 bytes pos) (rw fits refl),
      simp add-zero at (from_window 0 bytes pos (omega (arith, leb→le bytes _ fits))),
    )
    | inr large ↦
        let (same, is) = fallback-IsValid fresh bytes new in
        (
          (allocate_fallback fresh arena bytes).0,
          (allocate_fallback fresh arena bytes).1,
          rw (lt→ltb 0 bytes pos) (rw large refl),
          is,
        )
  ]

  slop_lem : ((arena.alloc_ptr + slop arena) % 8 ≡ 0) × (slop arena < 8)
  slop_lem = ground (arith, bit_and-ones 3 arena.alloc_ptr)

  -- `AllocateAligned` of one byte or more and of less than 2^64 - 7, where `bytes + slop` does not
  -- wrap, fails no assertion if `new` gives a block that starts at a multiple of eight and is apart
  -- from the arena's blocks; the region that it returns starts at a multiple of eight, lies in one
  -- block and is apart from all that were handed out, and the usage is still what the blocks cost.
  pub allocate_aligned-IsValid :
      (fresh bytes : ℕ)
      → 0 < bytes
      → bytes + 7 < 2 ^ 64
      → fresh % 8 ≡ 0
      → IsFresh fresh bytes arena
      → (p : ℕ) × (arena' : Arena) × (allocate_aligned fresh arena bytes ≡ some (p, arena'))
        × (p % 8 ≡ 0)
        × IsValid arena' (region p bytes ∷ given)
  unfolding allocate_aligned
  allocate_aligned-IsValid fresh bytes pos bound aligned new =
      let (on_eight, below) = slop_lem in
      let whole : (bytes + slop arena) % 2 ^ 64 ≡ bytes + slop arena = omega arith in
      rw whole (elim (Bool-cases (leb (bytes + slop arena) arena.alloc_bytes_remaining)) [
        | inl fits ↦ (
          arena.alloc_ptr + slop arena,
          _,
          rw fits (rw (bit_and-ones 3 (arena.alloc_ptr + slop arena), on_eight) refl),
          on_eight,
          from_window (slop arena) bytes pos (omega (arith, leb→le _ _ fits)),
        )
        | inr large ↦
            let (same, is) = fallback-IsValid fresh bytes new in
            let low : bit_and (allocate_fallback fresh arena bytes).0 7 ≡ 0 =
              bit_and-ones 3 (allocate_fallback fresh arena bytes).0 ∙ rw same aligned in
            (
              (allocate_fallback fresh arena bytes).0,
              (allocate_fallback fresh arena bytes).1,
              rw large (rw low refl),
              rw same aligned,
              is,
            )
      ])
