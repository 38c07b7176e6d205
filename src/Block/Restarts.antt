-- ===== src/Block/Restarts.antt =====
-- The constructor of `Block`, and the restart array.
use releveldb.Base.{
  ℕ, zero, suc, ◌+◌, ◌-◌, ◌*◌, ◌/◌, ◌%◌, ◌^◌, ◌≤◌, ◌<◌, ◌≡◌, ◌⊎◌, inl, inr, refl, arith, some, Bool,
  true, ltb, leb, ltb→lt, Bool-cases, length, drop, length-drop,
}
use releveldb.Slice.{size}
use releveldb.Coding.{decode_fixed32}
use releveldb.Coding.Fixed.{decode_fixed32_total}
use releveldb.Block.{BlockContents, Block, num_restarts, new_block}
use releveldb.Block.Iter.{Iter, advance_loop}

-- The constructor reads nothing outside contents of less than 2^32 bytes. It marks the block as
-- bad by the size 0, or else the restart array, with its count, ends exactly where the block ends.
pub new_block_bounds :
    (little : Bool) (unset : ℕ) (content : BlockContents)
    → size content.contents < 2 ^ 32
    → (block : Block) × (new_block little unset content ≡ some block)
      × ((block.size_ ≡ 0)
          ⊎ ((n : ℕ) × (num_restarts little block ≡ some n)
              × (block.restart_offset + n * 4 + 4 ≡ block.size_)
              × (block.size_ ≡ size content.contents)))
unfolding new_block num_restarts
new_block_bounds little unset content h = elim (Bool-cases (ltb (size content.contents) 4)) [
  | inl tiny ↦ (bad, rw tiny refl, inl refl)
  | inr enough ↦
      let (n, e) =
        decode_fixed32_total little (drop (size content.contents - 4) content.contents)
          (ground (arith, length-drop (size content.contents - 4) content.contents)) in
      let four : leb 4 (size content.contents) ≡ true = ground arith in
      elim (Bool-cases (ltb ((size content.contents - 4) / 4) n)) [
        | inl many ↦ (bad, rw enough (rw four (rw e (rw many refl))), inl refl)
        | inr fits ↦ (
          record {
            contents = content.contents;
            size_ = size content.contents;
            restart_offset = (size content.contents - (1 + n) % 2 ^ 32 * 4) % 2 ^ 32;
            owned = content.heap_allocated;
          },
          rw enough (rw four (rw e (rw fits refl))),
          inr (n, rw four (rw e refl), ground arith, refl),
        )
      ]
]
  where
    bad : Block
    bad = record {
      contents = content.contents;
      size_ = 0;
      restart_offset = unset;
      owned = content.heap_allocated;
    }

-- One round that goes on.
advance_step :
    (little : Bool) (fuel : ℕ) (it : Iter) (index point r : ℕ)
    → (index + 1) % 2 ^ 32 ≡ index + 1
    → ltb (index + 1) it.num_restarts ≡ true
    → decode_fixed32 little (drop (it.restarts + (index + 1) * 4) it.contents) ≡ some point
    → ltb point it.current ≡ true
    → advance_loop little fuel it (index + 1) ≡ some r
    → advance_loop little (suc fuel) it index ≡ some r
unfolding advance_loop
advance_step little fuel it index point r next more e go run = rw (next, more, e, go) run

-- The loop of `ParseNextKey` over the restart points ends.
pub advance_loop_total :
    (little : Bool) (fuel : ℕ) (it : Iter) (index : ℕ)
    → it.restarts + it.num_restarts * 4 ≤ length it.contents
    → it.num_restarts + 1 < 2 ^ 32
    → index ≤ it.num_restarts
    → it.num_restarts < index + fuel
    → (r : ℕ) × (advance_loop little fuel it index ≡ some r) × (index ≤ r) × (r ≤ it.num_restarts)
unfolding advance_loop
advance_loop_total little zero it index h small le lt = absurd (omega arith)
advance_loop_total little (suc fuel) it index h small le lt =
    let next : (index + 1) % 2 ^ 32 ≡ index + 1 = omega arith in
    elim (Bool-cases (ltb (index + 1) it.num_restarts)) [
      | inr last ↦ (index, rw next (rw last refl), omega arith, le)
      | inl more ↦
          let (point, e) =
            decode_fixed32_total little (drop (it.restarts + (index + 1) * 4) it.contents) (
              omega (
                arith,
                ltb→lt _ _ more,
                length-drop (it.restarts + (index + 1) * 4) it.contents,
              )) in
          elim (Bool-cases (ltb point it.current)) [
            | inr stop ↦ (index, rw next (rw more (rw e (rw stop refl))), omega arith, le)
            | inl go ↦
                let (r, run, lo, hi) =
                  advance_loop_total little fuel it (index + 1) h small
                    (omega (arith, ltb→lt _ _ more)) (omega arith) in
                (r, advance_step little fuel it index point r next more e go run, omega arith, hi)
          ]
    ]
