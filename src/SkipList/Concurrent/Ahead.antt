-- ===== src/SkipList/Concurrent/Ahead.antt =====
-- What lies ahead of a reader of db/SkipList.h on a level of the list.
use releveldb.Base.{
  suc, ◌≤◌, ◌<◌, length, if◌then◌else◌, ℕ, ◌≡◌, ◌⊎◌, inl, inr, arith, ap, sym, ◌∙◌, [], ◌∷◌, ◌++◌,
  some, true, false, Ordering,
}
use releveldb.Slice.{is_lt}
use releveldb.SkipList.{Ptr, Heap}
use releveldb.SkipList.Chain.{has, Distinct, Cells, Chain, hd_ptr, eq-hd_ptr, Below, Sorted}
use releveldb.SkipList.Find.{IsPreorder, from}

module _ {K : Type 0} where
  -- the node with its key is one of the cells
  abbrev pub In : Ptr → K → Cells K → Type 0
  In p k [] = ⊥
  In p k ((a, j) ∷ xs) = ((p ≡ a) × (k ≡ j)) ⊎ In p k xs

  pub In-left : (p : Ptr) (k : K) (xs ys : Cells K) → In p k xs → In p k (xs ++ ys)
  In-left p k [] ys i = absurd i
  In-left p k (x ∷ xs) ys (inl here) = inl here
  In-left p k (x ∷ xs) ys (inr there) = inr (In-left p k xs ys there)

  pub In-right : (p : Ptr) (k : K) (xs ys : Cells K) → In p k ys → In p k (xs ++ ys)
  In-right p k [] ys i = i
  In-right p k (x ∷ xs) ys i = inr (In-right p k xs ys i)

  pub In-cases : (p : Ptr) (k : K) (xs ys : Cells K) → In p k (xs ++ ys) → In p k xs ⊎ In p k ys
  In-cases p k [] ys i = inr i
  In-cases p k (x ∷ xs) ys (inl here) = inl (inl here)
  In-cases p k (x ∷ xs) ys (inr there) = elim (In-cases p k xs ys there) [
    | inl a ↦ inl (inr a)
    | inr b ↦ inr b
  ]

  -- A node put in between stays among the cells, as the others do.
  pub In-between :
      (p : Ptr) (k : K) (front back mid : Cells K)
      → In p k (front ++ back)
      → In p k (front ++ (mid ++ back))
  In-between p k front back mid i = elim (In-cases p k front back i) [
    | inl a ↦ In-left p k front (mid ++ back) a
    | inr b ↦ In-right p k front (mid ++ back) (In-right p k mid back b)
  ]

  pub In-has : (p : Ptr) (k : K) (xs : Cells K) → In p k xs → has p xs ≡ true
  In-has p k [] i = absurd i
  In-has p k ((a, j) ∷ xs) (inl (same, key)) = ground arith
  In-has p k ((a, j) ∷ xs) (inr i) = ground (arith, In-has p k xs i)

  -- A node has one key.
  pub In-unique : (p : Ptr) (j k : K) (xs : Cells K) → Distinct xs → In p j xs → In p k xs → j ≡ k
  In-unique p j k [] d a b = absurd a
  In-unique p j k ((q, m) ∷ xs) d (inl (e, ej)) (inl (e', ek)) = ej ∙ sym ek
  In-unique p j k ((q, m) ∷ xs) d (inl (e, ej)) (inr b) =
      absurd (ground (arith, In-has p k xs b, d.0, e))
  In-unique p j k ((q, m) ∷ xs) d (inr a) (inl (e, ek)) =
      absurd (ground (arith, In-has p j xs a, d.0, e))
  In-unique p j k ((q, m) ∷ xs) d (inr a) (inr b) = In-unique p j k xs d.1 a b

  module _ (compare : K → K → Ordering) (law : IsPreorder compare) (target : K) where
    Below-In :
        (p : Ptr) (j k : K) (xs : Cells K)
        → Below compare j xs
        → Sorted compare xs
        → In p k xs
        → compare j k ≡ Ordering.lt
    Below-In p j k [] b s i = absurd i
    Below-In p j k ((a, m) ∷ xs) b s (inl (_, same)) = rw same b
    Below-In p j k ((a, m) ∷ xs) b s (inr i) = law.lt_trans j m k b (Below-In p m k xs s.0 s.1 i)

    -- The rest of a chain behind a node.
    pub record Ahead (h : Heap K) (l : ℕ) (p : Ptr) (xs : Cells K) (Past : K → Type 0)
        : Type 0 where
      pub back : Cells K
      pub next_ptr : h.next p l ≡ some (hd_ptr back)
      pub chained : Chain h l (hd_ptr back) back
      pub rest : from compare target xs ≡ from compare target back
      pub inside : (q : Ptr) (k : K) → In q k back → In q k xs
      pub further : (q : Ptr) (k : K) → In q k back → Past k

    -- Behind a node with a smaller key, what is not smaller is what is not smaller in the whole.
    pub ahead :
        (h : Heap K) (l : ℕ) (p0 p : Ptr) (k : K) (xs : Cells K)
        → Chain h l p0 xs
        → Sorted compare xs
        → In p k xs
        → compare k target ≡ Ordering.lt
        → Ahead h l p xs (λ j. compare k j ≡ Ordering.lt)
    ahead h l p0 p k [] c s i less = absurd i
    ahead h l p0 p k ((a, j) ∷ xs) (_, _, _, q, n, c) s (inl (same, key)) less =
        let e : q ≡ hd_ptr xs = eq-hd_ptr h l q xs c in
        record {
          back = xs;
          next_ptr = rw same (n ∙ ap some e);
          chained = rw (sym e) c;
          rest =
              let less' : compare j target ≡ Ordering.lt = rw (sym key) less in
              ground (arith, less');
          inside = λ q k i. inr i;
          further = λ q m i. rw key (Below-In q j m xs s.0 s.1 i);
        }
    ahead h l p0 p k ((a, j) ∷ xs) (_, _, _, q, n, c) s (inr i) less =
        let tail = ahead h l q p k xs c s.1 i less in
        let less' : compare j target ≡ Ordering.lt =
          law.lt_trans j k target (Below-In p j k xs s.0 s.1 i) less in
        record {
          back = tail.back;
          next_ptr = tail.next_ptr;
          chained = tail.chained;
          rest = rw less' tail.rest;
          inside = λ q k i'. inr (tail.inside q k i');
          further = tail.further;
        }

    -- how many keys are above a key
    abbrev pub above : K → Cells K → ℕ
    above k [] = 0
    above k ((a, j) ∷ xs) = if is_lt (compare k j) then suc (above k xs) else above k xs

    pub above-length : (k : K) (xs : Cells K) → above k xs ≤ length xs
    above-length k [] = omega arith
    above-length k ((a, j) ∷ xs) = ground (arith, above-length k xs)

    pub above-length-In : (q : Ptr) (k : K) (xs : Cells K) → In q k xs → above k xs < length xs
    above-length-In q k [] i = absurd i
    above-length-In q k ((a, j) ∷ xs) (inl (_, same)) =
        let self : is_lt (compare k j) ≡ false =
          rw (sym same) (ground (arith, law.compare_flip k k)) in
        ground (arith, above-length k xs, self)
    above-length-In q k ((a, j) ∷ xs) (inr i) = ground (arith, above-length-In q k xs i)

    above-le : (k m : K) (xs : Cells K) → compare k m ≡ Ordering.lt → above m xs ≤ above k xs
    above-le k m [] less = omega arith
    above-le k m ((a, j) ∷ xs) less = ground (arith, above-le k m xs less, law.lt_trans k m j less)

    -- Fewer keys are above a later one.
    pub above-lt :
        (q : Ptr) (k m : K) (xs : Cells K)
        → compare k m ≡ Ordering.lt
        → In q m xs
        → above m xs < above k xs
    above-lt q k m [] less i = absurd i
    above-lt q k m ((a, j) ∷ xs) less (inl (_, same)) =
        let self : is_lt (compare m j) ≡ false =
          rw (sym same) (ground (arith, law.compare_flip m m)) in
        let less' : compare k j ≡ Ordering.lt = rw (sym same) less in
        ground (arith, above-le k m xs less, self, less')
    above-lt q k m ((a, j) ∷ xs) less (inr i) =
        ground (arith, above-lt q k m xs less i, law.lt_trans k m j less)
