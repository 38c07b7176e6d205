-- ===== src/SkipList/Concurrent/Bound.antt =====
-- How many steps a reader of db/SkipList.h takes, whatever the writer does.
use releveldb.Base.{
  ℕ, suc, ◌+◌, ◌-◌, ◌<◌, ◌≤◌, ◌≡◌, ◌⊎◌, inl, inr, arith, ◌∙◌, false, Bool-cases, Ordering, length,
  ltb,
}
use releveldb.SkipList.{Ptr, SkipList}
use releveldb.SkipList.Chain.{Cells, IsSkipList}
use releveldb.SkipList.Find.{IsPreorder, member}
use releveldb.SkipList.Insert.{IsUnused, inserted, inserted_lem}
use releveldb.SkipList.Concurrent.{Pc, Reader, idle, at, stopped, linked}
use releveldb.SkipList.Concurrent.Ahead.{In, In-has, In-unique, above, above-length-In, above-lt}
use releveldb.SkipList.Concurrent.Writer.{IsWritten}
use releveldb.SkipList.Concurrent.Readers.{Closer, level_cells, In-grown}

module _ {K : Type 0} (compare : K → K → Ordering) (law : IsPreorder compare) (key : K)
    (s0 : SkipList K) (xs : Cells K) (ok : IsSkipList compare s0 xs) (fresh : Ptr) (raw : ℕ → Ptr)
    (unused : IsUnused s0.heap fresh) (absent : member compare key xs ≡ false) (target : K) where
  abbrev all_cells : Cells K
  all_cells = inserted compare law key s0 xs ok fresh

  -- The reader ends within `n` steps.
  abbrev pub Left : ℕ → Reader → Type 0
  Left n idle = length all_cells + 6 ≤ n
  Left n (at p l) =
      ((p ≡ s0.head) × (length all_cells + l < n))
      ⊎ ((k : K) × In p k all_cells × (above compare law target k all_cells + l < n))
  Left n (stopped q) = Unit

  level_In :
      (k l : ℕ) (p : Ptr) (j : K)
      → In p j (level_cells compare law key s0 xs ok fresh raw unused absent target k l)
      → In p j all_cells
  level_In k l p j i = elim (Bool-cases (ltb l k)) [
    | inl low ↦ rw low at i
    | inr high ↦ In-grown compare law key s0 xs ok fresh raw unused absent target p j (rw high at i)
  ]

  pub Closer-Left :
      (s : SkipList K) (pc : Pc) (is : IsWritten compare law key s0 xs ok fresh raw unused s pc)
      (n : ℕ) (r r' : Reader)
      → Closer compare law key s0 xs ok fresh raw unused absent target s pc is r r'
      → Left n r
      → (m : ℕ) × (n ≡ suc m) × Left m r'
  Closer-Left s pc is n idle idle c left = absurd c
  Closer-Left s pc is n idle (stopped q) c left = absurd c
  Closer-Left s pc is n (stopped p) r' c left = absurd c
  Closer-Left s pc is n (at p l) idle c left = absurd c
  Closer-Left s pc is n idle (at q l') (e, low) left = (n - 1, omega arith, inl (e, omega arith))
  Closer-Left s pc is n (at p l) (stopped q) c (inl left) = (n - 1, omega (arith, left.1), tt)
  Closer-Left s pc is n (at p l) (stopped q) c (inr left) = (n - 1, omega (arith, left.2), tt)
  Closer-Left s pc is n (at p l) (at q l') (inl (e, low)) (inl (e', left)) =
      (n - 1, omega arith, inl (e ∙ e', omega arith))
  Closer-Left s pc is n (at p l) (at q l') (inl (e, low)) (inr (k, i, left)) =
      (n - 1, omega arith, inr (k, rw e i, omega arith))
  Closer-Left s pc is n (at p l) (at q l') (inr (e, j, i, past)) (inl (e', left)) =
      let i' = level_In (linked pc) l q j i in
      (
        n - 1,
        omega arith,
        inr (j, i', omega (arith, above-length-In compare law target q j all_cells i', e)),
      )
  Closer-Left s pc is n (at p l) (at q l') (inr (e, j, i, inl e')) (inr (k, i', left)) =
      let (_, _, apart) = inserted_lem compare law key s0 xs ok fresh raw unused absent in
      absurd (ground (arith, In-has p k all_cells i', apart, e'))
  Closer-Left s pc is n (at p l) (at q l') (inr (e, j, i, inr (m, im, less))) (inr (k, i', left)) =
      let (_, distinct, _) = inserted_lem compare law key s0 xs ok fresh raw unused absent in
      let same : m ≡ k = In-unique p m k all_cells distinct (level_In (linked pc) l p m im) i' in
      let iq = level_In (linked pc) l q j i in
      let fewer = above-lt compare law target q k j all_cells (rw same at less) iq in
      (n - 1, omega arith, inr (j, iq, omega (arith, fewer, e)))
