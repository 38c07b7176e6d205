-- ===== src/Arena/Regions.antt =====
-- Regions of memory: inside a block, apart from each other.
use releveldb.Base.{ℕ, ◌+◌, ◌≤◌, ◌≡◌, arith, List, [], ◌∷◌, ◌++◌, ◌⊎◌, inl, inr, All}
use releveldb.Arena.{Region}

abbrev pub Disjoint : Region → Region → Type 0
Disjoint r s = (r.base + r.bytes ≤ s.base) ⊎ (s.base + s.bytes ≤ r.base)

abbrev pub Inside : Region → Region → Type 0
Inside r s = (s.base ≤ r.base) × (r.base + r.bytes ≤ s.base + s.bytes)

abbrev pub InBlocks : Region → List Region → Type 0
InBlocks r [] = ⊥
InBlocks r (b ∷ bs) = Inside r b ⊎ InBlocks r bs

-- pairwise disjoint
abbrev pub Apart : List Region → Type 0
Apart [] = Unit {0}
Apart (r ∷ rs) = All (Disjoint r) rs × Apart rs

-- what the blocks cost: their bytes, and a pointer each
abbrev pub total : List Region → ℕ
total [] = 0
total (b ∷ bs) = b.bytes + 8 + total bs

pub total-append : (bs : List Region) (b : Region) → total (bs ++ (b ∷ [])) ≡ total bs + b.bytes + 8
total-append [] b = omega arith
total-append (c ∷ bs) b = omega (arith, total-append bs b)

pub InBlocks-append : (r : Region) (bs cs : List Region) → InBlocks r bs → InBlocks r (bs ++ cs)
InBlocks-append r [] cs h = absurd h
InBlocks-append r (b ∷ bs) cs (inl h) = inl h
InBlocks-append r (b ∷ bs) cs (inr h) = inr (InBlocks-append r bs cs h)

pub InBlocks-last : (r b : Region) (bs : List Region) → Inside r b → InBlocks r (bs ++ (b ∷ []))
InBlocks-last r b [] h = inl h
InBlocks-last r b (c ∷ bs) h = inr (InBlocks-last r b bs h)

pub InBlocks-trans : (r s : Region) (bs : List Region) → Inside r s → InBlocks s bs → InBlocks r bs
InBlocks-trans r s [] i h = h
InBlocks-trans r s (b ∷ bs) i (inl h) = inl (omega arith)
InBlocks-trans r s (b ∷ bs) i (inr h) = inr (InBlocks-trans r s bs i h)

-- A block that is apart from all blocks is apart from what lies in them.
pub Disjoint-of_InBlocks :
    (r f : Region) (bs : List Region) → All (Disjoint f) bs → InBlocks r bs → Disjoint r f
Disjoint-of_InBlocks r f [] a h = absurd h
Disjoint-of_InBlocks r f (b ∷ bs) a (inl h) = omega arith
Disjoint-of_InBlocks r f (b ∷ bs) a (inr h) = Disjoint-of_InBlocks r f bs a.1 h

pub All-map :
    {P Q : Region → Type 0} (rs : List Region) → ((r : Region) → P r → Q r) → All P rs → All Q rs
All-map [] f a = tt
All-map (r ∷ rs) f a = (f r a.0, All-map rs f a.1)
