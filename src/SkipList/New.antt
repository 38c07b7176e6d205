-- ===== src/SkipList/New.antt =====
-- The constructor.
use releveldb.Base.{
  ℕ, zero, suc, ◌+◌, ◌<◌, ◌≤◌, ◌≡◌, ◌≢◌, refl, arith, ◌∙◌, [], Bool-cases, some, ◌==◌, ==_iff, inl,
  inr, Ordering, if◌then◌else◌, ◌&&◌,
}
use releveldb.SkipList.{
  Ptr, null, Heap, SkipList, set_next, new_node, clear_loop, new_skip_list, k_max_height,
}
use releveldb.SkipList.Chain.{IsSkipList}

module _ {K : Type 0} where
  -- The loop stores NULL on the levels from `i` up to `j`.
  clear_loop_lem :
      (rounds i j : ℕ) (h : Heap K) (head : Ptr)
      → i + rounds ≡ j
      → ((l : ℕ) → i ≤ l → l < j → (q : Ptr) × (h.next head l ≡ some q))
      → (h' : Heap K) × (clear_loop rounds i h head ≡ some h')
        × ((l : ℕ) → i ≤ l → l < j → h'.next head l ≡ some null)
        × ((l : ℕ) → l < i → h'.next head l ≡ h.next head l)
  unfolding clear_loop set_next
  clear_loop_lem zero i j h head e a = (h, refl, λ l lo hi. absurd (omega arith), λ l lo. refl)
  clear_loop_lem (suc rounds) i j h head e a =
      let (q, eq) = a i (omega arith) (omega arith) in
      let g : Heap K = record h {
        next = λ p m. if p == head && m == i then some null else h.next p m;
      } in
      let same : (l : ℕ) → l ≢ i → g.next head l ≡ h.next head l = λ l ne. ground arith in
      let (h', run, nulls, rest) =
        clear_loop_lem rounds (i + 1) j g head (omega arith)
          (λ l lo hi. let (q', e') = a l (omega arith) hi in (q', same l (omega arith) ∙ e')) in
      (
        h',
        ground (arith, eq, run),
        λ l lo hi. elim (Bool-cases (l == i)) [
          | inl at ↦
              let e' : l ≡ i = (==_iff l i).0 at in rw e' (rest i (omega arith) ∙ ground arith)
          | inr ne ↦ nulls l (ground arith) hi
        ],
        λ l lo. rest l (omega arith) ∙ same l (omega arith),
      )

  -- The constructor fails nowhere and gives a well-formed empty list.
  pub new_skip_list-IsSkipList :
      (compare : K → K → Ordering) (fresh : Ptr) (raw : ℕ → Ptr) (h : Heap K) (any : K)
      → (s : SkipList K) × (new_skip_list fresh raw h any ≡ some s) × IsSkipList compare s []
  unfolding new_skip_list
  new_skip_list-IsSkipList compare fresh raw h any =
      let h0 : Heap K = new_node fresh raw h any k_max_height in
      let (h', run, nulls, _) =
        clear_loop_lem 12 0 12 h0 fresh refl
          (λ l lo hi. (raw l, unfold new_node in ground arith)) in
      (
        record { heap = h'; head = fresh; max_height = 1 },
        rw run,
        record {
          levels = λ l hl. (null, nulls l (omega arith) (omega arith), refl);
          sorted = tt;
          distinct = tt;
          apart = refl;
          height = inr (refl, refl);
        },
      )
