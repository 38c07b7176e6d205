-- ===== src/Comparator/Separate.antt =====
-- The index loops of the bytewise comparator, by recursion on the strings.
use releveldb.Base.{
  ℕ, zero, suc, ◌+◌, ◌≤◌, ◌≡◌, ◌≢◌, refl, arith, Ordering, List, [], ◌∷◌, some, ◌&&◌, true,
  Bool-cases, inl, inr,
}
use releveldb.Base.{ltb, ◌==◌, ==_iff, if◌then◌else◌, length, get_or, set, take}
use native.Mathlib.Numerals.{towards_suc}
use releveldb.Slice.{Slice, compare_slice}
use releveldb.Slice.Order.{lex, compare_slice-lex, lex_refl}
use releveldb.Comparator.{diff_loop, shorten_at, bytewise_separator, successor_loop}

pub separate : List ℕ → Slice → List ℕ
separate [] limit = []
separate (x ∷ start) [] = x ∷ start
separate (x ∷ start) (y ∷ limit) =
    let rest = x ∷ separate start limit in
    if x == y then rest else if ltb x 0xff && ltb (x + 1) y then (x + 1) ∷ [] else x ∷ start

pub bump : List ℕ → List ℕ
bump [] = []
bump (b ∷ key) = let rest = b ∷ bump key in if b == 0xff then rest else (b + 1) ∷ []

diff_loop-suc : (s t : List ℕ) (i : ℕ) → diff_loop s t (i + 1) ≡ suc (diff_loop s t i)
unfolding diff_loop
diff_loop-suc [] t i = omega arith
diff_loop-suc (x ∷ s) [] i = omega arith
diff_loop-suc (x ∷ s) (y ∷ t) i = ground (arith, diff_loop-suc s t (i + 1))

successor_loop-cons :
    (r : ℕ) (b : ℕ) (key : List ℕ) (i : ℕ)
    → successor_loop r (b ∷ key) (suc i) ≡ b ∷ successor_loop r key i
unfolding successor_loop
successor_loop-cons zero b key i = refl
successor_loop-cons (suc r) b key i =
    simp towards_suc (ground (arith, successor_loop-cons r b key (suc i)))

pub successor_loop-bump : (key : List ℕ) → successor_loop (length key) key 0 ≡ bump key
unfolding successor_loop bump
successor_loop-bump [] = refl
successor_loop-bump (b ∷ key) =
    ground (arith, successor_loop-cons (length key) b key 0, successor_loop-bump key)

compare_slice-cons : (x : ℕ) (s t : Slice) → compare_slice (x ∷ s) (x ∷ t) ≡ compare_slice s t
compare_slice-cons x s t = rw compare_slice-lex (rw compare_slice-lex (ground arith))

shorten_at-cons :
    (x : ℕ) (s t : List ℕ) (d : ℕ) (r : List ℕ)
    → shorten_at s t d ≡ some r
    → shorten_at (x ∷ s) (x ∷ t) (suc d) ≡ some (x ∷ r)
unfolding shorten_at
shorten_at-cons x s t d r h = simp towards_suc (
    ground (
      arith,
      (simp towards_suc at h),
      compare_slice-cons x (take (suc d) (set s d (suc (get_or s d 0)))) t,
    ))

separator_same :
    (x : ℕ) (s t r : List ℕ)
    → bytewise_separator s t ≡ some r
    → bytewise_separator (x ∷ s) (x ∷ t) ≡ some (x ∷ r)
unfolding bytewise_separator diff_loop
separator_same x s t r h =
    let more : diff_loop s t 1 ≡ suc (diff_loop s t 0) = diff_loop-suc s t 0 in
    let same : (x == x) ≡ true = (==_iff x x).1 refl in
    rw same (rw more (shorten_at-cons x s t (diff_loop s t 0) r h))

separator_differ :
    (x y : ℕ) (s t : List ℕ)
    → x ≢ y
    → bytewise_separator (x ∷ s) (y ∷ t)
      ≡ some (if ltb x 0xff && ltb (x + 1) y then (x + 1) ∷ [] else x ∷ s)
unfolding bytewise_separator diff_loop shorten_at
separator_differ x y s t h = ground (arith, compare_slice-lex ((x + 1) ∷ []) (y ∷ t))

-- The code's assertion holds, and the result is `separate`.
pub bytewise_separator-separate : (s t : List ℕ) → bytewise_separator s t ≡ some (separate s t)
unfolding separate
bytewise_separator-separate [] t = unfold bytewise_separator in ground arith
bytewise_separator-separate (x ∷ s) [] = unfold bytewise_separator in ground arith
bytewise_separator-separate (x ∷ s) (y ∷ t) = elim (Bool-cases (x == y)) [
  | inl same ↦ rw same (
      rw (← (==_iff x y).0 same)
        (separator_same x s t (separate s t) (bytewise_separator-separate s t)))
  | inr ne ↦ rw ne (separator_differ x y s t (ground arith))
]

-- The contract of `FindShortestSeparator`, by the lexicographic order.
pub separate_bounds :
    (s t : List ℕ)
    → lex s t ≡ Ordering.lt
    → (lex s (separate s t) ≢ Ordering.gt) × (lex (separate s t) t ≡ Ordering.lt)
unfolding separate
separate_bounds [] t h = (λ e. cc, h)
separate_bounds (x ∷ s) [] h = cc
separate_bounds (x ∷ s) (y ∷ t) h = ground (arith, separate_bounds s t, lex_refl s)

pub separate_unordered : (s t : List ℕ) → lex s t ≢ Ordering.lt → separate s t ≡ s
unfolding separate
separate_unordered [] t h = refl
separate_unordered (x ∷ s) [] h = refl
separate_unordered (x ∷ s) (y ∷ t) h = ground (arith, separate_unordered s t)

pub length-separate : (s t : List ℕ) → length (separate s t) ≤ length s
unfolding separate
length-separate [] t = omega arith
length-separate (x ∷ s) [] = omega arith
length-separate (x ∷ s) (y ∷ t) = ground (arith, length-separate s t)

pub lex-bump : (k : List ℕ) → lex k (bump k) ≢ Ordering.gt
unfolding bump
lex-bump [] = λ e. cc
lex-bump (b ∷ k) = ground (arith, lex-bump k)

pub length-bump : (k : List ℕ) → length (bump k) ≤ length k
unfolding bump
length-bump [] = omega arith
length-bump (b ∷ k) = ground (arith, length-bump k)
