-- ===== src/SkipList/Find.antt =====
-- `FindGreaterOrEqual` and `Contains` on a well-formed list.
use releveldb.Base.{
  ℕ, zero, suc, ◌+◌, ◌-◌, ◌<◌, ◌≤◌, ◌≡◌, ◌≢◌, refl, arith, ◌∙◌, List, [], ◌∷◌, ◌++◌, Bool, true,
  false, ◌||◌, Option, none, some, ◌==◌, inl, inr, Ordering, length, if◌then◌else◌, ◌>>=◌,
  Bool-cases,
}
use releveldb.Slice.{is_lt, is_eq}
use releveldb.Slice.Order.{flip}
use releveldb.SkipList.{
  Ptr, null, Heap, SkipList, store_prev, equal, key_is_after_node, find_loop, find_greater_or_equal,
  contains,
}
use releveldb.SkipList.Chain.{
  Cells, Chain, hd_ptr, last_ptr, next-last_ptr, Below, Sorted, IsSkipList,
}

-- The order that a list's comparator has to give.
pub record IsPreorder {K : Type 0} (compare : K → K → Ordering) : Type 0 where
  pub compare_flip : (a b : K) → compare b a ≡ flip (compare a b)
  pub lt_trans :
      (a b d : K)
      → compare a b ≡ Ordering.lt
      → compare b d ≡ Ordering.lt
      → compare a d ≡ Ordering.lt
  pub eq_left : (a b d : K) → compare a b ≡ Ordering.eq → compare a d ≡ compare b d

module _ {K : Type 0} (compare : K → K → Ordering) (key : K) where
  -- The nodes with smaller keys at the front, and the rest.
  abbrev pub before : Cells K → Cells K
  before [] = []
  before ((a, k) ∷ xs) = if is_lt (compare k key) then (a, k) ∷ before xs else []

  abbrev pub from : Cells K → Cells K
  from [] = []
  from ((a, k) ∷ xs) = if is_lt (compare k key) then from xs else (a, k) ∷ xs

  pub before-append-from : (xs : Cells K) → before xs ++ from xs ≡ xs
  before-append-from [] = refl
  before-append-from ((a, k) ∷ xs) = ground (arith, before-append-from xs)

  pub length-before : (xs : Cells K) → length (before xs) ≤ length xs
  length-before [] = omega arith
  length-before ((a, k) ∷ xs) = ground (arith, length-before xs)

  -- an entry that compares equal
  abbrev pub member : Cells K → Bool
  member [] = false
  member ((a, k) ∷ xs) = is_eq (compare key k) || member xs

  -- the first entry compares equal
  abbrev pub head_equal : Cells K → Bool
  head_equal [] = false
  head_equal ((a, k) ∷ xs) = is_eq (compare key k)

  module _ (h : Heap K) where
    -- One round that moves on, and one that goes down a level or ends.
    pass :
        (f : ℕ) (x a level : ℕ) (k : K) (prev : Option (List Ptr))
        → h.next x level ≡ some a
        → a ≢ null
        → h.key a ≡ some k
        → is_lt (compare k key) ≡ true
        → find_loop compare (suc f) h key x level prev ≡ find_loop compare f h key a level prev
    unfolding find_loop key_is_after_node
    pass f x a level k prev n ne e lt = ground arith

    stay :
        (f : ℕ) (x q level : ℕ) (prev : Option (List Ptr))
        → h.next x level ≡ some q
        → key_is_after_node compare h key q ≡ some false
        → find_loop compare (suc f) h key x level prev ≡ (
            if level == 0
            then some (q, store_prev prev level x)
            else find_loop compare f h key x (level - 1) (store_prev prev level x))
    unfolding find_loop
    stay f x q level prev n e = rw (n, e) refl

    -- On one level the search passes the smaller keys.
    walk :
        (xs : Cells K) (fuel f : ℕ) (x p : Ptr) (level : ℕ) (prev : Option (List Ptr))
        → fuel ≡ length (before xs) + f
        → h.next x level ≡ some p
        → Chain h level p xs
        → find_loop compare fuel h key x level prev
          ≡ find_loop compare f h key (last_ptr x (before xs)) level prev
    walk [] fuel f x p level prev e n c = let e' : fuel ≡ f = omega arith in rw e'
    walk ((a, k) ∷ xs) zero f x p level prev e n c = elim (Bool-cases (is_lt (compare k key))) [
      | inl lt ↦ absurd (omega (arith, (rw lt at e)))
      | inr ge ↦ rw ge (let e' : 0 ≡ f = omega (arith, (rw ge at e)) in rw e')
    ]
    walk ((a, k) ∷ xs) (suc g) f x p level prev e n c = elim (Bool-cases (is_lt (compare k key))) [
      | inl lt ↦ rw lt (
          pass g x a level k prev (rw c.0 at n) c.1 c.2 lt
          ∙ walk xs g f a c.3 level prev (omega (arith, (rw lt at e))) c.4 c.5)
      | inr ge ↦ rw ge (let e' : suc g ≡ f = omega (arith, (rw ge at e)) in rw e')
    ]

    -- The array after a search that went down from `level` to 0 beside the node `y`.
    abbrev pub fill : Option (List Ptr) → ℕ → Ptr → Option (List Ptr)
    fill prev zero y = store_prev prev 0 y
    fill prev (suc level) y = fill (store_prev prev (suc level) y) level y

    descend :
        (level fuel : ℕ) (y q : Ptr) (prev : Option (List Ptr))
        → level < fuel
        → ((i : ℕ) → i ≤ level → h.next y i ≡ some q)
        → key_is_after_node compare h key q ≡ some false
        → find_loop compare fuel h key y level prev ≡ some (q, fill prev level y)
    descend level zero y q prev l n e = absurd (omega arith)
    descend zero (suc fuel) y q prev l n e = stay fuel y q 0 prev (n 0 (omega arith)) e
    descend (suc level) (suc fuel) y q prev l n e =
        stay fuel y q (suc level) prev (n (suc level) (omega arith)) e
        ∙ ground (
          arith,
          descend level fuel y q (store_prev prev (suc level) y) (omega arith)
              (λ i hi. n i (omega arith)) e,
        )

    -- What follows the smaller keys is not smaller.
    from_stops :
        (level : ℕ) (p : Ptr) (xs : Cells K)
        → Chain h level p xs
        → key_is_after_node compare h key (hd_ptr (from xs)) ≡ some false
    unfolding key_is_after_node
    from_stops level p [] c = refl
    from_stops level p ((a, k) ∷ xs) (_, ne, e, q, _, c) = ground (arith, from_stops level q xs c)

    -- The node that the search stops at, if there is one, has a key.
    abbrev pub First : Cells K → Type 0
    First [] = Unit {0}
    First ((a, k) ∷ xs) = (a ≢ null) × (h.key a ≡ some k)

    pub from_First : (level : ℕ) (p : Ptr) (xs : Cells K) → Chain h level p xs → First (from xs)
    from_First level p [] c = tt
    from_First level p ((a, k) ∷ xs) (_, ne, e, q, _, c) =
        elim (Bool-cases (is_lt (compare k key))) [
          | inl lt ↦ rw lt (from_First level q xs c)
          | inr ge ↦ rw ge (ne, e)
        ]

    pub test_head :
        (ys : Cells K)
        → First ys
        → (if hd_ptr ys == null
            then some false
            else h.key (hd_ptr ys) >>= λ k. some (equal compare key k))
          ≡ some (head_equal ys)
    unfolding equal
    test_head [] f = refl
    test_head ((a, k) ∷ ys) f = ground arith

module _ {K : Type 0} (compare : K → K → Ordering) (law : IsPreorder compare) (key : K) where
  -- Behind a key that is not smaller no key is equal.
  member_above :
      (k : K) (xs : Cells K)
      → Below compare k xs
      → Sorted compare xs
      → compare k key ≢ Ordering.lt
      → member compare key xs ≡ false
  member_above k [] b s ge = refl
  member_above k ((a, j) ∷ xs) b s ge =
      let up : compare key j ≡ Ordering.lt = above j b in
      ground (arith, up, member_above j xs s.0 s.1 (λ h. ground (arith, law.compare_flip key j)))
    where
      above : (j : K) → compare k j ≡ Ordering.lt → compare key j ≡ Ordering.lt
      above j b = ground (
        arith,
        law.compare_flip k key,
        law.lt_trans key k j,
        law.eq_left key k j,
        law.compare_flip key k,
      )

  -- In a sorted list an equal key is the first that is not smaller.
  pub member-head_equal :
      (xs : Cells K)
      → Sorted compare xs
      → member compare key xs ≡ head_equal compare key (from compare key xs)
  member-head_equal [] s = refl
  member-head_equal ((a, k) ∷ xs) s =
      ground (arith, member-head_equal xs s.1, member_above k xs s.0 s.1, law.compare_flip k key)

-- A well-formed list.
module _ {K : Type 0} (compare : K → K → Ordering) (s : SkipList K) (xs : Cells K)
    (ok : IsSkipList compare s xs) (key : K) where
  abbrev pub found : Ptr
  found = hd_ptr (from compare key xs)

  abbrev pub place : Ptr
  place = last_ptr s.head (before compare key xs)

  pub next-place : (i : ℕ) → i < 5 → s.heap.next place i ≡ some found
  next-place i hi =
      let (p, n, c) = ok.levels i hi in
      next-last_ptr s.heap i s.head p (before compare key xs) (from compare key xs) n
        (rw before-append-from c)

  -- With one round for each node and each level the search ends. It stops at the first node whose
  -- key is not smaller, and `prev` holds the node before it on each level.
  pub find_lem :
      (fuel : ℕ) (prev : Option (List Ptr))
      → length xs + 5 ≤ fuel
      → find_greater_or_equal compare fuel s key prev
        ≡ some (found, fill compare key s.heap prev (s.max_height - 1) place)
  unfolding find_greater_or_equal
  find_lem fuel prev hf =
      let level : ℕ = s.max_height - 1 in
      let low : level < 5 = omega (arith, ok.height) in
      let (p, n, c) = ok.levels level low in
      let f : ℕ = fuel - length (before compare key xs) in
      walk compare key s.heap xs fuel f s.head p level prev
        (omega (arith, length-before compare key xs)) n c
      ∙ descend compare key s.heap level f place found prev
          (omega (arith, length-before compare key xs)) (λ i hi. next-place i (omega arith))
          (from_stops compare key s.heap level p xs c)

  -- `Contains` answers on every well-formed list, and says whether an equal key is there.
  pub contains-member :
      (law : IsPreorder compare) (fuel : ℕ)
      → length xs + 5 ≤ fuel
      → contains compare fuel s key ≡ some (member compare key xs)
  unfolding contains equal
  contains-member law fuel hf =
      let (p, _, c) = ok.levels 0 (omega arith) in
      rw (find_lem fuel none hf) (
        rw (member-head_equal compare law key xs ok.sorted) (
          test_head compare key s.heap (from compare key xs)
            (from_First compare key s.heap 0 p xs c)))
