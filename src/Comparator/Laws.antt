-- ===== src/Comparator/Laws.antt =====
-- What db/Comparator.h asks of a comparator, for clients that take one.
use releveldb.Base.{Ordering, some, ◌≡◌, ◌≢◌}
use releveldb.Slice.{Slice}
use releveldb.Slice.Order.{flip}
use releveldb.Comparator.{Comparator}

-- The comparator answers by the strict order `ord` on the slices that `P` holds of.
pub record Orders (c : Comparator) (P : Slice → Type 0) (ord : Slice → Slice → Ordering)
    : Type 0 where
  pub compare_ord : (a b : Slice) → P a → P b → c.compare a b ≡ some (ord a b)
  pub lt_trans :
      (a b d : Slice)
      → P a
      → P b
      → P d
      → ord a b ≡ Ordering.lt
      → ord b d ≡ Ordering.lt
      → ord a d ≡ Ordering.lt

-- The comparator answers by the order `ord`. Fields named after the operations state the contracts
-- in the header's comments; `separator_unordered` is what this code base's own comparator does on
-- arguments that are not ordered, where the header promises nothing.
pub record IsLawful (c : Comparator) (ord : Slice → Slice → Ordering) : Type 0 where
  pub compare_ord : (a b : Slice) → c.compare a b ≡ some (ord a b)
  pub ord_flip : (a b : Slice) → ord b a ≡ flip (ord a b)
  pub ord_refl : (a : Slice) → ord a a ≡ Ordering.eq
  pub lt_trans :
      (a b d : Slice) → ord a b ≡ Ordering.lt → ord b d ≡ Ordering.lt → ord a d ≡ Ordering.lt
  pub eq_left : (a b d : Slice) → ord a b ≡ Ordering.eq → ord a d ≡ ord b d
  pub separator :
      (s l : Slice)
      → ord s l ≡ Ordering.lt
      → (r : Slice) × (c.find_shortest_separator s l ≡ some r)
        × (ord s r ≢ Ordering.gt)
        × (ord r l ≡ Ordering.lt)
  pub separator_unordered :
      (s l : Slice) → ord s l ≢ Ordering.lt → c.find_shortest_separator s l ≡ some s
  pub successor :
      (k : Slice) → (r : Slice) × (c.find_short_successor k ≡ some r) × (ord k r ≢ Ordering.gt)

-- A lawful comparator orders all slices.
pub IsLawful-Orders :
    {c : Comparator} {ord : Slice → Slice → Ordering} → IsLawful c ord → Orders c (λ s. Unit) ord
IsLawful-Orders law = record {
  compare_ord = λ a b ha hb. law.compare_ord a b;
  lt_trans = λ a b d ha hb hd. law.lt_trans a b d;
}
