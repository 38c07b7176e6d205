-- ===== src/SkipList/Link.antt =====
-- The loop of `Insert` that links the new node in, level by level.
use releveldb.Base.{
  ℕ, zero, suc, ◌+◌, ◌<◌, ◌≤◌, ◌≡◌, ◌≢◌, refl, arith, ◌∙◌, List, some, ◌==◌, ◌⊎◌, inl, inr,
  if◌then◌else◌, ◌>>=◌, ltb, Bool-cases, ◌&&◌, get_elem?,
}
use releveldb.SkipList.{Ptr, Heap, set_next, link_loop}

module _ {K : Type 0} where
  -- `h'` is `h` with `x` linked in behind `y` on the levels from `i` up to `j`.
  pub record Linked (h h' : Heap K) (x y : Ptr) (i j : ℕ) : Type 0 where
    pub keys : (p : Ptr) → h'.key p ≡ h.key p
    pub at_new : (l : ℕ) → i ≤ l → l < j → h'.next x l ≡ h.next y l
    pub at_place : (l : ℕ) → i ≤ l → l < j → h'.next y l ≡ some x
    pub others : (p : Ptr) (l : ℕ) → p ≢ x → p ≢ y → h'.next p l ≡ h.next p l
    pub levels : (p : Ptr) (l : ℕ) → (l < i) ⊎ (j ≤ l) → h'.next p l ≡ h.next p l

  -- one round
  link_step :
      (h : Heap K) (x y q r i : ℕ)
      → x ≢ y
      → h.next y i ≡ some q
      → h.next x i ≡ some r
      → (h' : Heap K) × ((set_next h x i q >>= λ g. set_next g y i x) ≡ some h')
        × Linked h h' x y i (i + 1)
  unfolding set_next
  link_step h x y q r i ne ey ex = (
    record h {
      next = λ p m.
          if p == y && m == i then some x else if p == x && m == i then some q else h.next p m;
    },
    ground arith,
    record {
      keys = λ p. refl;
      at_new = λ l lo hi. let e : l ≡ i = omega arith in rw e (ground arith);
      at_place = λ l lo hi. ground arith;
      others = λ p l nx ny. ground arith;
      levels = λ p l out. ground arith;
    },
  )

  Linked-trans :
      {h g h' : Heap K} {x y : Ptr} (i k j : ℕ)
      → i < k
      → Linked h g x y i k
      → Linked g h' x y k j
      → k ≤ j
      → Linked h h' x y i j
  Linked-trans {h} {g} {h'} {x} {y} i k j lt a b le = record {
    keys = λ p. b.keys p ∙ a.keys p;
    at_new = λ l lo hi. elim (Bool-cases (ltb l k)) [
      | inl low ↦ b.levels x l (inl (ground arith)) ∙ a.at_new l lo (ground arith)
      | inr up ↦ b.at_new l (ground arith) hi ∙ a.levels y l (inr (ground arith))
    ];
    at_place = λ l lo hi. elim (Bool-cases (ltb l k)) [
      | inl low ↦ b.levels y l (inl (ground arith)) ∙ a.at_place l lo (ground arith)
      | inr up ↦ b.at_place l (ground arith) hi
    ];
    others = λ p l nx ny. b.others p l nx ny ∙ a.others p l nx ny;
    levels = λ p l out. b.levels p l (omega arith) ∙ a.levels p l (omega arith);
  }

  -- The loop links `x` in behind `y` on the levels from `i` up to `j`, and fails nowhere.
  pub link_loop-Linked :
      (rounds i j : ℕ) (h : Heap K) (x y : Ptr) (prev : List Ptr)
      → i + rounds ≡ j
      → x ≢ y
      → ((l : ℕ) → i ≤ l → l < j → get_elem? prev l ≡ some y)
      → ((l : ℕ) → i ≤ l → l < j → (q : Ptr) × (h.next y l ≡ some q))
      → ((l : ℕ) → i ≤ l → l < j → (q : Ptr) × (h.next x l ≡ some q))
      → (h' : Heap K) × (link_loop rounds i h x prev ≡ some h') × Linked h h' x y i j
  unfolding link_loop
  link_loop-Linked zero i j h x y prev e ne ep ey ex = (
    h,
    refl,
    record {
      keys = λ p. refl;
      at_new = λ l lo hi. absurd (omega arith);
      at_place = λ l lo hi. absurd (omega arith);
      others = λ p l nx ny. refl;
      levels = λ p l out. refl;
    },
  )
  link_loop-Linked (suc rounds) i j h x y prev e ne ep ey ex =
      let (q, eq) = ey i (omega arith) (omega arith) in
      let (r, er) = ex i (omega arith) (omega arith) in
      let (g, step, linked) = link_step h x y q r i ne eq er in
      let (h', rest, more) =
        link_loop-Linked rounds (i + 1) j g x y prev (omega arith) ne
          (λ l lo hi. ep l (omega arith) hi)
          (λ l lo hi.
            let (q', e') = ey l (omega arith) hi in
            (q', linked.levels y l (inr (omega arith)) ∙ e'))
          (λ l lo hi.
            let (q', e') = ex l (omega arith) hi in
            (q', linked.levels x l (inr (omega arith)) ∙ e')) in
      (
        h',
        ground (arith, ep i (omega arith) (omega arith), eq, step, rest),
        Linked-trans i (i + 1) j (omega arith) linked more (omega arith),
      )
