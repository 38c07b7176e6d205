-- ===== src/Slice/Prefix.antt =====
-- `Slice::StartsWith` and `DropFirstNBytes`.
use releveldb.Base.{◌≤◌, Ordering, [], ◌∷◌, ◌++◌, ◌≡◌, refl, ◌↔◌}
use releveldb.Base.{true, some, arith, length, length-append, drop}
use releveldb.Slice.{Slice, memcmp, starts_with, drop_first_n_bytes}

memcmp-append : (x r : Slice) → memcmp (x ++ r) x (length x) ≡ Ordering.eq
unfolding memcmp
memcmp-append [] r = refl
memcmp-append (b ∷ x) r = ground (arith, memcmp-append x r)

eq_of_memcmp :
    (s x : Slice)
    → length x ≤ length s
    → memcmp s x (length x) ≡ Ordering.eq
    → s ≡ x ++ drop (length x) s
unfolding memcmp
eq_of_memcmp s [] h e = refl
eq_of_memcmp [] (b ∷ x) h e = absurd (omega arith)
eq_of_memcmp (a ∷ s) (b ∷ x) h e = ground (arith, eq_of_memcmp s x (omega arith))

-- `StartsWith(x)` is true exactly when the slice is `x` followed by some bytes, and those bytes
-- are what `DropFirstNBytes(x.Size())` leaves, without failing its assertion.
pub starts_with_iff :
    (s x : Slice)
    → (starts_with s x ≡ true)
      ↔ ((r : Slice) × (s ≡ x ++ r) × (drop_first_n_bytes s (length x) ≡ some r))
unfolding starts_with drop_first_n_bytes
starts_with_iff s x = (
  λ h. (drop (length x) s, ground (arith, eq_of_memcmp s x), ground arith),
  λ (r, e, _). rw e (ground (arith, memcmp-append x r, length-append x r)),
)
