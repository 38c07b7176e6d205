-- ===== src/Arena/Release.antt =====
-- The destructor of `Arena`.
use releveldb.Base.{ℕ, ◌≡◌, refl, ap, List, [], ◌∷◌, ◌++◌}
use releveldb.Arena.{Region, region, Arena, allocate_new_block}

bases : List Region → List ℕ
bases [] = []
bases (r ∷ rs) = r.base ∷ bases rs

-- what `~Arena` gives to `delete[]`, in its order
pub delete_blocks : Arena → List ℕ
unfolding bases
delete_blocks arena = bases arena.blocks

bases-append : (rs : List Region) (r : Region) → bases (rs ++ (r ∷ [])) ≡ bases rs ++ (r.base ∷ [])
unfolding bases
bases-append [] r = refl
bases-append (x ∷ rs) r = ap (◌∷◌ x.base) (bases-append rs r)

-- A new block is given back by the destructor, once, after those before it.
pub delete_blocks-allocate_new_block :
    (fresh : ℕ) (arena : Arena) (bytes : ℕ)
    → delete_blocks (allocate_new_block fresh arena bytes).1 ≡ delete_blocks arena ++ (fresh ∷ [])
unfolding delete_blocks allocate_new_block
delete_blocks-allocate_new_block fresh arena bytes = bases-append arena.blocks (region fresh bytes)
