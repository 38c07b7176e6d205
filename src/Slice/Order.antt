-- ===== src/Slice/Order.antt =====
-- `Slice::Compare` and `operator==`: a total order on the bytes.
use releveldb.Base.{compare, Ordering, [], ◌∷◌, ◌≡◌, refl, ◌↔◌}
use releveldb.Base.{true, arith, length}
use releveldb.Slice.{Slice, memcmp, compare_slice, ◌==s◌}

-- Lexicographic order, a proper prefix first: what `Compare` promises.
abbrev pub lex : Slice → Slice → Ordering
lex [] [] = Ordering.eq
lex [] (y ∷ t) = Ordering.lt
lex (x ∷ s) [] = Ordering.gt
lex (x ∷ s) (y ∷ t) = elim (compare x y) [
  | Ordering.eq ↦ lex s t
  | Ordering.lt ↦ Ordering.lt
  | Ordering.gt ↦ Ordering.gt
]

-- `Slice::Compare` is the lexicographic order of the bytes, on all slices.
pub compare_slice-lex : (s t : Slice) → compare_slice s t ≡ lex s t
unfolding compare_slice memcmp
compare_slice-lex [] [] = refl
compare_slice-lex [] (y ∷ t) = ground arith
compare_slice-lex (x ∷ s) [] = ground arith
compare_slice-lex (x ∷ s) (y ∷ t) = ground (arith, compare_slice-lex s t)

abbrev pub flip : Ordering → Ordering
flip Ordering.lt = Ordering.gt
flip Ordering.eq = Ordering.eq
flip Ordering.gt = Ordering.lt

pub lex-flip : (s t : Slice) → lex t s ≡ flip (lex s t)
lex-flip [] [] = refl
lex-flip [] (y ∷ t) = refl
lex-flip (x ∷ s) [] = refl
lex-flip (x ∷ s) (y ∷ t) = ground (arith, lex-flip s t)

pub lex_trans :
    (s t u : Slice) → lex s t ≡ Ordering.lt → lex t u ≡ Ordering.lt → lex s u ≡ Ordering.lt
lex_trans [] [] u h k = cc
lex_trans [] (y ∷ t) [] h k = cc
lex_trans [] (y ∷ t) (z ∷ u) h k = refl
lex_trans (x ∷ s) [] u h k = cc
lex_trans (x ∷ s) (y ∷ t) [] h k = cc
lex_trans (x ∷ s) (y ∷ t) (z ∷ u) h k = ground (arith, lex_trans s t u)

pub eq_of_lex : (s t : Slice) → lex s t ≡ Ordering.eq → s ≡ t
eq_of_lex [] [] h = refl
eq_of_lex [] (y ∷ t) h = cc
eq_of_lex (x ∷ s) [] h = cc
eq_of_lex (x ∷ s) (y ∷ t) h = ground (arith, eq_of_lex s t)

pub lex_refl : (s : Slice) → lex s s ≡ Ordering.eq
lex_refl [] = refl
lex_refl (x ∷ s) = ground (arith, lex_refl s)

-- On equal lengths `memcmp` is the lexicographic order.
memcmp-lex : (s t : Slice) → length s ≡ length t → memcmp s t (length s) ≡ lex s t
unfolding memcmp
memcmp-lex [] [] h = refl
memcmp-lex [] (y ∷ t) h = absurd (omega arith)
memcmp-lex (x ∷ s) [] h = absurd (omega arith)
memcmp-lex (x ∷ s) (y ∷ t) h = ground (arith, memcmp-lex s t (omega arith))

-- `==` on slices holds exactly when the bytes are the same.
pub ==s_iff : (s t : Slice) → ((s ==s t) ≡ true) ↔ (s ≡ t)
unfolding ◌==s◌
==s_iff s t = (
  λ h. ground (arith, memcmp-lex s t, eq_of_lex s t),
  λ e. rw e (ground (arith, memcmp-lex t t refl, lex_refl t)),
)

-- `Compare` answers 0 exactly on equal bytes, and the opposite sign on the exchanged arguments.
pub compare_slice_antisymm :
    (s t : Slice)
    → ((compare_slice s t ≡ Ordering.eq) ↔ (s ≡ t)) × (compare_slice t s ≡ flip (compare_slice s t))
compare_slice_antisymm s t =
    rw (compare_slice-lex s t, compare_slice-lex t s)
      ((λ h. eq_of_lex s t h, λ e. rw e (lex_refl t)), lex-flip s t)

-- "Less" by `Compare` is transitive.
pub compare_slice_trans :
    (s t u : Slice)
    → compare_slice s t ≡ Ordering.lt
    → compare_slice t u ≡ Ordering.lt
    → compare_slice s u ≡ Ordering.lt
compare_slice_trans s t u h k =
    ground
      (arith, compare_slice-lex s t, compare_slice-lex t u, compare_slice-lex s u, lex_trans s t u)
