-- ===== src/Comparator/Bytewise.antt =====
-- The bytewise comparator keeps its contracts.
use releveldb.Base.{ℕ, ◌≤◌, ◌≡◌, arith, ◌∙◌, ap, List, some, length}
use releveldb.Slice.Order.{lex, compare_slice-lex, lex_refl, lex-flip, lex_trans, eq_of_lex}
use releveldb.Comparator.{bytewise_comparator, bytewise_successor}
use releveldb.Comparator.Laws.{IsLawful}
use releveldb.Comparator.Separate.{bump, successor_loop-bump, separate, bytewise_separator-separate}
use releveldb.Comparator.Separate.{
  separate_bounds, separate_unordered, length-separate, lex-bump, length-bump,
}

pub bytewise_successor-bump : (k : List ℕ) → bytewise_successor k ≡ some (bump k)
unfolding bytewise_successor
bytewise_successor-bump k = ap some (successor_loop-bump k)

-- `BytewiseComparatorImpl` orders the bytes lexicographically and keeps the interface's contracts;
-- its assertion never fails, and arguments that are not in order are left as they are.
pub bytewise_comparator-IsLawful : IsLawful bytewise_comparator lex
unfolding bytewise_comparator
bytewise_comparator-IsLawful = record {
  compare_ord = λ a b. ap some (compare_slice-lex a b);
  ord_flip = lex-flip;
  ord_refl = lex_refl;
  lt_trans = lex_trans;
  eq_left = λ a b d h. ap (λ x. lex x d) (eq_of_lex a b h);
  separator = λ s l h.
      let (above, below) = separate_bounds s l h in
      (separate s l, bytewise_separator-separate s l, above, below);
  separator_unordered =
      λ s l h. bytewise_separator-separate s l ∙ ap some (separate_unordered s l h);
  successor = λ k. (bump k, bytewise_successor-bump k, lex-bump k);
}

-- Neither operation lengthens the string.
pub bytewise_shorter :
    (s l r k : List ℕ)
    → bytewise_comparator.find_shortest_separator s l ≡ some r
    → bytewise_comparator.find_short_successor s ≡ some k
    → (length r ≤ length s) × (length k ≤ length s)
unfolding bytewise_comparator
bytewise_shorter s l r k e e' = ground (
  arith,
  bytewise_separator-separate s l,
  length-separate s l,
  bytewise_successor-bump s,
  length-bump s,
)
