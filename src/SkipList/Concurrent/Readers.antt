-- ===== src/SkipList/Concurrent/Readers.antt =====
-- A reader of db/SkipList.h beside the writer: where it is, and what it answers.
use releveldb.Base.{
  ℕ, zero, suc, ◌-◌, ◌<◌, ◌≤◌, ◌≡◌, ◌⊎◌, inl, inr, refl, arith, ap, sym, ◌∙◌, [], ◌∷◌, some, true,
  false, Bool-cases, Ordering, ltb,
}
use releveldb.Slice.{is_lt}
use releveldb.SkipList.{Ptr, null, SkipList, key_is_after_node}
use releveldb.SkipList.Chain.{Cells, Chain, hd_ptr, eq-hd_ptr, Sorted, IsSkipList}
use releveldb.SkipList.Find.{
  IsPreorder, before, from, before-append-from, member, member-head_equal, First, from_First,
  test_head,
}
use releveldb.SkipList.Insert.{IsUnused, inserted, insert-Sorted}
use releveldb.SkipList.Concurrent.{linked, Pc, Reader, idle, at, stopped, reader_step, answer}
use releveldb.SkipList.Concurrent.Ahead.{In, In-between, Ahead, ahead}
use releveldb.SkipList.Concurrent.Writer.{
  IsWritten, cells, IsWritten-Shown, IsWritten-old_key, IsWritten-height,
}

module _ {K : Type 0} (compare : K → K → Ordering) (law : IsPreorder compare) (key : K)
    (s0 : SkipList K) (xs : Cells K) (ok : IsSkipList compare s0 xs) (fresh : Ptr) (raw : ℕ → Ptr)
    (unused : IsUnused s0.heap fresh) (absent : member compare key xs ≡ false) (target : K) where
  abbrev new_cells : Cells K
  new_cells = inserted compare law key s0 xs ok fresh

  abbrev pub level_cells : ℕ → ℕ → Cells K
  level_cells = cells compare law key s0 xs ok fresh raw unused

  -- The reader's node is the head, or has a smaller key and is on the level.
  abbrev Seen : Cells K → Ptr → Type 0
  Seen ys p = (p ≡ s0.head) ⊎ ((k : K) × In p k ys × (compare k target ≡ Ordering.lt))

  pub In-grown : (p : Ptr) (k : K) → In p k xs → In p k new_cells
  In-grown p k i =
      In-between p k (before compare key xs) (from compare key xs) ((fresh, key) ∷ [])
        (rw (before-append-from compare key xs) i)

  -- What a level holds when more is linked in, or on the level below.
  Seen-grown :
      (k l k' l' : ℕ) (p : Ptr)
      → k ≤ k'
      → l' ≤ l
      → Seen (level_cells k l) p
      → Seen (level_cells k' l') p
  Seen-grown k l k' l' p more lower (inl e) = inl e
  Seen-grown k l k' l' p more lower (inr (j, i, less)) = elim (Bool-cases (ltb l k)) [
    | inl low ↦ let low' : ltb l' k' ≡ true = ground arith in inr (j, rw low' (rw low at i), less)
    | inr high ↦ elim (Bool-cases (ltb l' k')) [
      | inl low' ↦ inr (j, rw low' (In-grown p j (rw high at i)), less)
      | inr high' ↦ inr (j, rw high' (rw high at i), less)
    ]
  ]

  -- the node that the search of the one or the other list ends at
  abbrev Ended : Ptr → ℕ → Type 0
  Ended q k =
      (q ≡ hd_ptr (from compare target xs))
      ⊎ ((q ≡ hd_ptr (from compare target new_cells)) × (0 < k))

  abbrev pub IsReading : ℕ → Reader → Type 0
  IsReading k idle = Unit
  IsReading k (at p l) = (l < 5) × Seen (level_cells k l) p
  IsReading k (stopped q) = Ended q k

  -- The writer's steps leave the reader where it can be.
  pub IsReading-grown : (k k' : ℕ) (r : Reader) → k ≤ k' → IsReading k r → IsReading k' r
  IsReading-grown k k' idle le is = tt
  IsReading-grown k k' (at p l) le (hl, seen) = (hl, Seen-grown k l k' l p le (omega arith) seen)
  IsReading-grown k k' (stopped q) le (inl e) = inl e
  IsReading-grown k k' (stopped q) le (inr (e, pos)) = inr (e, omega (arith, pos))

  cells-Sorted : (k l : ℕ) → Sorted compare (level_cells k l)
  cells-Sorted k l = elim (Bool-cases (ltb l k)) [
    | inl low ↦ rw low (insert-Sorted compare key law fresh xs ok.sorted absent)
    | inr high ↦ rw high ok.sorted
  ]

  -- what is ahead of the reader
  -- The reader's node comes before a key.
  abbrev Past : ℕ → ℕ → Ptr → K → Type 0
  Past k l p j = (p ≡ s0.head) ⊎ ((i : K) × In p i (level_cells k l) × (compare i j ≡ Ordering.lt))

  ahead_of :
      (s : SkipList K) (pc : Pc) (l : ℕ) (p : Ptr)
      → IsWritten compare law key s0 xs ok fresh raw unused s pc
      → l < 5
      → Seen (level_cells (linked pc) l) p
      → Ahead compare law target s.heap l p (level_cells (linked pc) l) (Past (linked pc) l p)
  ahead_of s pc l p is hl seen =
      let (p0, n, c) = IsWritten-Shown compare law key s0 xs ok fresh raw unused s pc l is hl in
      let ys = level_cells (linked pc) l in
      elim seen [
        | inl e ↦
            let e' : p0 ≡ hd_ptr ys = eq-hd_ptr s.heap l p0 ys c in
            record {
              back = ys;
              next_ptr = rw e (n ∙ ap some e');
              chained = rw (sym e') c;
              rest = refl;
              inside = λ q k i. i;
              further = λ q k i. inl e;
            }
        | inr (k, i, less) ↦
            let a =
              ahead compare law target s.heap l p0 p k ys c (cells-Sorted (linked pc) l) i less in
            record {
              back = a.back;
              next_ptr = a.next_ptr;
              chained = a.chained;
              rest = a.rest;
              inside = a.inside;
              further = λ q j i'. inr (k, i, a.further q j i');
            }
      ]

  module _ (s : SkipList K) (pc : Pc)
      (is : IsWritten compare law key s0 xs ok fresh raw unused s pc) where
    abbrev k : ℕ
    k = linked pc

    -- a search that ends finds what is there at that moment
    abbrev pub Current : Reader → Type 0
    Current idle = Unit
    Current (at p l) = Unit
    Current (stopped q) = q ≡ hd_ptr (from compare target (level_cells k 0))

    -- a step comes closer to the end: down a level, or to a later node
    abbrev pub Closer : Reader → Reader → Type 0
    Closer idle idle = ⊥
    Closer idle (at q l') = (q ≡ s0.head) × (l' < 5)
    Closer idle (stopped q) = ⊥
    Closer (at p l) idle = ⊥
    Closer (at p l) (at q l') =
        ((q ≡ p) × (l' < l)) ⊎ ((l' ≡ l) × (j : K) × In q j (level_cells k l) × Past k l p j)
    Closer (at p l) (stopped q) = Unit
    Closer (stopped p) r' = ⊥

    abbrev Goes : Reader → Type 0
    Goes r =
        (r' : Reader) × (reader_step compare s target r ≡ some r')
        × IsReading k r'
        × Current r'
        × Closer r r'

    Ended-here : (q : Ptr) → q ≡ hd_ptr (from compare target (level_cells k 0)) → Ended q k
    Ended-here q e = elim (Bool-cases (ltb 0 k)) [
      | inl low ↦ inr (rw low at e, ground arith)
      | inr high ↦ inl (rw high at e)
    ]

    stop_or_down :
        (p q : Ptr) (l : ℕ)
        → l < 5
        → Seen (level_cells k l) p
        → s.heap.next p l ≡ some q
        → key_is_after_node compare s.heap target q ≡ some false
        → q ≡ hd_ptr (from compare target (level_cells k l))
        → Goes (at p l)
    unfolding reader_step
    stop_or_down p q zero hl seen n after e = (stopped q, rw (n, after) refl, Ended-here q e, e, tt)
    stop_or_down p q (suc l) hl seen n after e = (
      at p l,
      rw (n, after) (ground arith),
      (omega arith, Seen-grown k (suc l) k l p (omega arith) (omega arith) seen),
      tt,
      inl (refl, omega arith),
    )

    go_from :
        (p : Ptr) (l : ℕ) (back : Cells K)
        → l < 5
        → Seen (level_cells k l) p
        → s.heap.next p l ≡ some (hd_ptr back)
        → Chain s.heap l (hd_ptr back) back
        → from compare target (level_cells k l) ≡ from compare target back
        → ((q : Ptr) (j : K) → In q j back → In q j (level_cells k l))
        → ((q : Ptr) (j : K) → In q j back → Past k l p j)
        → Goes (at p l)
    go_from p l [] hl seen n c rest inside further =
        stop_or_down p null l hl seen n (unfold key_is_after_node in refl) (sym (ap hd_ptr rest))
    go_from p l ((a, j) ∷ back) hl seen n (_, na, ek, _, _, _) rest inside further =
        elim (Bool-cases (is_lt (compare j target))) [
          | inl less ↦ (
            at a l,
            unfold reader_step in rw n (ground arith),
            (hl, inr (j, inside a j (inl (refl, refl)), ground arith)),
            tt,
            inr (refl, j, inside a j (inl (refl, refl)), further a j (inl (refl, refl))),
          )
          | inr not_less ↦
              stop_or_down p a l hl seen n (unfold key_is_after_node in ground arith)
                (sym (ap hd_ptr rest ∙ rw not_less refl))
        ]

    -- A reader takes its next step without a fault, or has ended its search.
    pub reader_moves : (r : Reader) → IsReading k r → Goes r ⊎ ((q : Ptr) × (r ≡ stopped q))
    reader_moves idle reading = inl (
      at s.head (s.max_height - 1),
      unfold reader_step in refl,
      (
        omega (arith, IsWritten-height compare law key s0 xs ok fresh raw unused s pc is),
        inl is.head,
      ),
      tt,
      (is.head, omega (arith, IsWritten-height compare law key s0 xs ok fresh raw unused s pc is)),
    )
    reader_moves (at p l) (hl, seen) =
        let a = ahead_of s pc l p is hl seen in
        inl (go_from p l a.back hl seen a.next_ptr a.chained a.rest a.inside a.further)
    reader_moves (stopped q) reading = inr (q, refl)

    old_First : (ys : Cells K) → First compare target s0.heap ys → First compare target s.heap ys
    old_First [] f = tt
    old_First ((a, j) ∷ ys) (na, e) = (
      na,
      IsWritten-old_key compare law key s0 xs ok fresh raw unused s pc a is
            (λ same. absurd (ground (arith, unused.no_key, e, same)))
          ∙ e,
    )

    First-old : First compare target s.heap (from compare target xs)
    First-old =
        let (p, n, c) = ok.levels 0 (omega arith) in
        old_First (from compare target xs) (from_First compare target s0.heap 0 p xs c)

    First-new : 0 < k → First compare target s.heap (from compare target new_cells)
    First-new pos =
        let (p, n, c) =
          IsWritten-Shown compare law key s0 xs ok fresh raw unused s pc 0 is (omega arith) in
        let low : ltb 0 k ≡ true = ground arith in
        from_First compare target s.heap 0 p new_cells (rw low at c)

    -- What it answers if that is in the list with the new node.
    pub answer_new :
        (q : Ptr)
        → 0 < k
        → q ≡ hd_ptr (from compare target new_cells)
        → answer compare s target q ≡ some (member compare target new_cells)
    unfolding answer
    answer_new q pos e = rw e (
        test_head compare target s.heap (from compare target new_cells) (First-new pos)
        ∙ ap some (
            sym (
              member-head_equal compare law target new_cells
                (insert-Sorted compare key law fresh xs ok.sorted absent))))

    -- What a reader answers that has ended its search.
    pub answer_lem :
        (q : Ptr)
        → IsReading k (stopped q)
        → (answer compare s target q ≡ some (member compare target xs))
          ⊎ (answer compare s target q ≡ some (member compare target new_cells))
    unfolding answer
    answer_lem q (inl e) = inl (
        rw e (
          test_head compare target s.heap (from compare target xs) First-old
          ∙ ap some (sym (member-head_equal compare law target xs ok.sorted))))
    answer_lem q (inr (e, pos)) = inr (answer_new q pos e)
