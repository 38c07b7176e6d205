-- ===== src/SkipList/Insert.antt =====
-- `Insert` on a well-formed list.
use releveldb.Base.{
  ℕ, zero, suc, ◌+◌, ◌-◌, ◌<◌, ◌≤◌, ◌≡◌, ◌≢◌, refl, arith, ◌∙◌, List, [], ◌∷◌, ◌++◌, false, true,
  none, some, ◌==◌, ==_iff, inl, inr, Ordering, if◌then◌else◌, ltb, Bool-cases, get_elem?, set,
  length, length-set, get_elem?-set_self, get_elem?-set_ne,
}
use releveldb.SkipList.{
  Ptr, null, Heap, SkipList, raise_loop, new_node, equal, assert_absent, insert,
}
use releveldb.SkipList.Chain.{Cells, has, has-append, Distinct, Chain, hd_ptr, Sorted, IsSkipList}
use releveldb.SkipList.Find.{
  IsPreorder, before, from, before-append-from, member, head_equal, member-head_equal, First,
  from_First, fill, found, place, next-place, find_lem,
}
use releveldb.SkipList.Splice.{Spliced, Chain-splice}
use releveldb.SkipList.Link.{Linked, link_loop-Linked}

-- memory that no node uses
pub record IsUnused {K : Type 0} (h : Heap K) (p : Ptr) : Type 0 where
  pub not_null : p ≢ null
  pub no_key : h.key p ≡ none
  pub no_next : (i : ℕ) → h.next p i ≡ none

-- `prev` holds `y` on the levels below `j`.
abbrev pub Holds : List Ptr → ℕ → Ptr → Type 0
Holds prev j y = (l : ℕ) → l < j → get_elem? prev l ≡ some y

raise_loop_get :
    (rounds i j : ℕ) (prev : List Ptr) (y : Ptr)
    → i + rounds ≡ j
    → j ≤ length prev
    → Holds prev i y
    → Holds (raise_loop rounds i prev y) j y
unfolding raise_loop
raise_loop_get zero i j prev y e le h = λ l hl. h l (omega arith)
raise_loop_get (suc rounds) i j prev y e le h =
    raise_loop_get rounds (i + 1) j (set prev i y) y (omega arith)
      (omega (arith, length-set prev i y))
      (λ l hl. elim (Bool-cases (l == i)) [
        | inl same ↦ rw ((==_iff l i).0 same) (get_elem?-set_self prev i y (omega arith))
        | inr ne ↦ get_elem?-set_ne prev i l y (ground arith) ∙ h l (ground arith)
      ])

module _ {K : Type 0} (compare : K → K → Ordering) (key : K) where
  pub fill_get :
      (h : Heap K) (level : ℕ) (prev : List Ptr) (y : Ptr)
      → level < length prev
      → (prev' : List Ptr) × (fill compare key h (some prev) level y ≡ some prev')
        × (length prev' ≡ length prev)
        × Holds prev' (level + 1) y
        × ((l : ℕ) → level < l → get_elem? prev' l ≡ get_elem? prev l)
  fill_get h zero prev y lt = (
    set prev 0 y,
    refl,
    length-set prev 0 y,
    λ l hl. let e : l ≡ 0 = omega arith in rw e (get_elem?-set_self prev 0 y lt),
    λ l hl. get_elem?-set_ne prev 0 l y (omega arith),
  )
  fill_get h (suc level) prev y lt =
      let (prev', e, len, holds, rest) =
        fill_get h level (set prev (suc level) y) y
          (omega (arith, length-set prev (suc level) y)) in
      (
        prev',
        e,
        len ∙ length-set prev (suc level) y,
        λ l hl. elim (Bool-cases (l == suc level)) [
          | inl top ↦
              let e : l ≡ suc level = (==_iff l (suc level)).0 top in
              rw e (rest (suc level) (omega arith) ∙ get_elem?-set_self prev (suc level) y lt)
          | inr below ↦ holds l (ground arith)
        ],
        λ l hl. rest l (omega arith) ∙ get_elem?-set_ne prev (suc level) l y (omega arith),
      )

  module _ (law : IsPreorder compare) where
    -- The new key goes where the order wants it.
    pub insert-Sorted :
        (x : Ptr) (xs : Cells K)
        → Sorted compare xs
        → member compare key xs ≡ false
        → Sorted compare (before compare key xs ++ ((x, key) ∷ from compare key xs))
    insert-Sorted x [] s m = (tt, tt)
    insert-Sorted x ((a, k) ∷ []) s m = ground (arith, law.compare_flip k key)
    insert-Sorted x ((a, k) ∷ (b, j) ∷ xs) s m =
        ground (arith, law.compare_flip k key, insert-Sorted x ((b, j) ∷ xs) s.1)

    absent :
        (h : Heap K) (ys : Cells K)
        → First compare key h ys
        → head_equal compare key ys ≡ false
        → assert_absent compare h (hd_ptr ys) key ≡ some tt
    unfolding assert_absent equal
    absent h [] f e = refl
    absent h ((a, k) ∷ ys) f e = ground (arith, law.compare_flip k key)

    pub present :
        (h : Heap K) (ys : Cells K)
        → First compare key h ys
        → head_equal compare key ys ≡ true
        → assert_absent compare h (hd_ptr ys) key ≡ none
    unfolding assert_absent equal
    present h [] f e = cc
    present h ((a, k) ∷ ys) f e = ground (arith, law.compare_flip k key)

insert-Distinct :
    {K : Type 0} (x : Ptr) (k : K) (front back : Cells K)
    → Distinct (front ++ back)
    → has x (front ++ back) ≡ false
    → Distinct (front ++ ((x, k) ∷ back))
insert-Distinct x k [] back d f = (f, d)
insert-Distinct x k ((a, j) ∷ front) back d f = (
  ground (arith, has-append a front back, has-append a front ((x, k) ∷ back)),
  insert-Distinct x k front back d.1 (ground arith),
)

module _ {K : Type 0} (compare : K → K → Ordering) (law : IsPreorder compare) (key : K)
    (s : SkipList K) (xs : Cells K) (ok : IsSkipList compare s xs) where
  abbrev pub inserted : Ptr → Cells K
  inserted x = before compare key xs ++ ((x, key) ∷ from compare key xs)

  -- the array after the search and the raise
  abbrev pub Raised : List Ptr → Type 0
  Raised prev =
      Holds
        (if ltb s.max_height 5
          then raise_loop (5 - s.max_height) s.max_height prev s.head
          else prev)
        5 (place compare s xs ok key)

  pub Raised-Holds :
      (prev : List Ptr)
      → 5 ≤ length prev
      → Holds prev (s.max_height - 1 + 1) (place compare s xs ok key)
      → Raised prev
  Raised-Holds prev len h = elim ok.height [
    | inl five ↦ rw five (λ l hl. h l (omega arith))
    | inr (one, none_yet) ↦
        rw (one, none_yet)
          (raise_loop_get 4 1 5 prev s.head refl len (λ l hl. (rw none_yet at h) l (omega arith)))
  ]

  module _ (fresh : Ptr) (raw : ℕ → Ptr) (unused : IsUnused s.heap fresh) where
    pub fresh-ne-head : fresh ≢ s.head
    fresh-ne-head e = let (p, n, c) = ok.levels 0 (omega arith) in cc (unused.no_next 0)

    pub fresh_apart : (l : ℕ) (p : Ptr) (ys : Cells K) → Chain s.heap l p ys → has fresh ys ≡ false
    fresh_apart l p [] c = refl
    fresh_apart l p ((a, k) ∷ ys) (_, ne, ek, q, _, c) =
        ground (arith, unused.no_key, fresh_apart l q ys c)

    pub fresh-ne-place : fresh ≢ place compare s xs ok key
    fresh-ne-place e =
        let n : s.heap.next (place compare s xs ok key) 0 ≡ some (found compare s xs ok key) =
          next-place compare s xs ok key 0 (omega arith) in
        cc (unused.no_next 0)

    -- linking on all five levels is a splice on each
    Linked-Spliced :
        (h' : Heap K) (l : ℕ)
        → Linked (new_node fresh raw s.heap key 5) h' fresh (place compare s xs ok key) 0 5
        → l < 5
        → Spliced s.heap h' fresh (place compare s xs ok key) key l
    unfolding new_node
    Linked-Spliced h' l linked hl = record {
      new_next = linked.at_new l (omega arith) hl ∙ ground (arith, fresh-ne-place);
      place_next = linked.at_place l (omega arith) hl;
      other_next = λ p nx ny. linked.others p l nx ny ∙ ground arith;
      new_key = linked.keys fresh ∙ ground arith;
      other_key = λ p nx. linked.keys p ∙ ground arith;
    }

    -- the nodes with the new one among them
    pub inserted_lem :
        member compare key xs ≡ false
        → Sorted compare (inserted fresh)
          × Distinct (inserted fresh)
          × (has s.head (inserted fresh) ≡ false)
    inserted_lem m =
        let parts : before compare key xs ++ from compare key xs ≡ xs =
          before-append-from compare key xs in
        let (p0, n0, c0) = ok.levels 0 (omega arith) in
        let head_apart : has s.head (before compare key xs ++ from compare key xs) ≡ false =
          rw parts ok.apart in
        (
          insert-Sorted compare key law fresh xs ok.sorted m,
          insert-Distinct fresh key _ _ (rw parts ok.distinct) (rw parts (fresh_apart 0 p0 xs c0)),
          ground (
            arith,
            has-append s.head (before compare key xs) ((fresh, key) ∷ from compare key xs),
            has-append s.head (before compare key xs) (from compare key xs),
            head_apart,
            fresh-ne-head,
          ),
        )

    Linked-IsSkipList :
        (h' : Heap K)
        → Linked (new_node fresh raw s.heap key 5) h' fresh (place compare s xs ok key) 0 5
        → member compare key xs ≡ false
        → IsSkipList compare (record { heap = h'; head = s.head; max_height = 5 }) (inserted fresh)
    Linked-IsSkipList h' linked m =
        let parts : before compare key xs ++ from compare key xs ≡ xs =
          before-append-from compare key xs in
        let (p0, n0, c0) = ok.levels 0 (omega arith) in
        let apart : has fresh xs ≡ false = fresh_apart 0 p0 xs c0 in
        let (sorted, distinct, head_apart) = inserted_lem m in
        record {
          levels = λ l hl.
              let (p, n, c) = ok.levels l hl in
              Chain-splice (before compare key xs) (from compare key xs) s.head p
                (Linked-Spliced h' l linked hl) unused.not_null n (rw parts c)
                (rw parts ok.distinct) (rw parts ok.apart) (rw parts apart) fresh-ne-head;
          sorted = sorted;
          distinct = distinct;
          apart = head_apart;
          height = inl refl;
        }

    max_height_after : (if ltb s.max_height 5 then 5 else s.max_height) ≡ 5
    max_height_after = ground (arith, ok.height)

    new_next : (l : ℕ) → l < 5 → (new_node fresh raw s.heap key 5).next fresh l ≡ some (raw l)
    unfolding new_node
    new_next l hl = ground arith

    place_next :
        (l : ℕ)
        → l < 5
        → (new_node fresh raw s.heap key 5).next (place compare s xs ok key) l
          ≡ some (found compare s xs ok key)
    unfolding new_node
    place_next l hl = ground (arith, fresh-ne-place, next-place compare s xs ok key l hl)

    -- With enough fuel `Insert` of a key that is not there fails nowhere, and the new list is
    -- well formed with the new node in its place among the old ones.
    pub insert-IsSkipList :
        (fuel : ℕ) (junk : List Ptr)
        → length xs + 5 ≤ fuel
        → length junk ≡ 12
        → member compare key xs ≡ false
        → (s' : SkipList K) × (insert compare fuel fresh raw junk s key ≡ some s')
          × IsSkipList compare s' (inserted fresh)
    unfolding insert
    insert-IsSkipList fuel junk hf hj m =
        let (p0, n0, c0) = ok.levels 0 (omega arith) in
        let (prev, filled, len, holds, _) =
          fill_get compare key s.heap (s.max_height - 1) junk (place compare s xs ok key)
            (omega (arith, ok.height)) in
        let (h', linked, is) =
          link_loop-Linked 5 0 5 (new_node fresh raw s.heap key 5) fresh (place compare s xs ok key)
            (if ltb s.max_height 5
              then raise_loop (5 - s.max_height) s.max_height prev s.head
              else prev)
            refl fresh-ne-place (λ l lo hi. Raised-Holds prev (omega arith) holds l hi)
            (λ l lo hi. (_, place_next l hi)) (λ l lo hi. (_, new_next l hi)) in
        let gone : assert_absent compare s.heap (found compare s xs ok key) key ≡ some tt =
          absent compare key law s.heap (from compare key xs)
            (from_First compare key s.heap 0 p0 xs c0)
            (rw (member-head_equal compare law key xs ok.sorted) at m) in
        (
          record { heap = h'; head = s.head; max_height = 5 },
          rw (find_lem compare s xs ok key fuel (some junk) hf)
              (rw filled (rw gone (rw linked (rw max_height_after refl)))),
          Linked-IsSkipList h' is m,
        )
