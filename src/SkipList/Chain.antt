-- ===== src/SkipList/Chain.antt =====
-- What a level of the list holds: a chain of nodes, each an address with its key.
use releveldb.Base.{
  ℕ, ◌<◌, ◌≡◌, ◌≢◌, refl, arith, ap, List, [], ◌∷◌, ◌++◌, Bool, false, ◌||◌, some, ◌==◌, ◌⊎◌,
  Ordering,
}
use releveldb.SkipList.{Ptr, null, Heap, SkipList}

abbrev pub Cells : Type 0 → Type 0
Cells K = List (Ptr × K)

module _ {K : Type 0} where
  abbrev pub has : Ptr → Cells K → Bool
  has a [] = false
  has a ((p, _) ∷ xs) = (a == p) || has a xs

  -- no address twice
  abbrev pub Distinct : Cells K → Type 0
  Distinct [] = Unit {0}
  Distinct ((p, _) ∷ xs) = (has p xs ≡ false) × Distinct xs

  -- From `p` the pointers of level `i` lead through the nodes `xs` to NULL.
  abbrev pub Chain : Heap K → ℕ → Ptr → Cells K → Type 0
  Chain h i p [] = p ≡ null
  Chain h i p ((a, k) ∷ xs) =
      (p ≡ a) × (a ≢ null) × (h.key a ≡ some k) × (q : Ptr) × (h.next a i ≡ some q) × Chain h i q xs

  abbrev pub hd_ptr : Cells K → Ptr
  hd_ptr [] = null
  hd_ptr ((a, _) ∷ xs) = a

  abbrev pub last_ptr : Ptr → Cells K → Ptr
  last_ptr x [] = x
  last_ptr x ((a, _) ∷ xs) = last_ptr a xs

  pub eq-hd_ptr : (h : Heap K) (i : ℕ) (p : Ptr) (xs : Cells K) → Chain h i p xs → p ≡ hd_ptr xs
  eq-hd_ptr h i p [] c = c
  eq-hd_ptr h i p ((a, k) ∷ xs) c = c.0

  -- The pointer behind the front of a chain.
  pub next-last_ptr :
      (h : Heap K) (i : ℕ) (x p : Ptr) (front back : Cells K)
      → h.next x i ≡ some p
      → Chain h i p (front ++ back)
      → h.next (last_ptr x front) i ≡ some (hd_ptr back)
  next-last_ptr h i x p [] back e c = rw e (ap some (eq-hd_ptr h i p back c))
  next-last_ptr h i x p ((a, k) ∷ front) back e (_, _, _, q, eq, c) =
      next-last_ptr h i a q front back eq c

  pub has-append : (a : Ptr) (xs ys : Cells K) → has a (xs ++ ys) ≡ (has a xs || has a ys)
  has-append a [] ys = refl
  has-append a (x ∷ xs) ys = ground (arith, has-append a xs ys)

  -- The list from the writer's side: every level up to 5 holds the same nodes, in order of `lt`.
  abbrev pub Below : (K → K → Ordering) → K → Cells K → Type 0
  Below compare k [] = Unit {0}
  Below compare k ((_, j) ∷ xs) = compare k j ≡ Ordering.lt

  abbrev pub Sorted : (K → K → Ordering) → Cells K → Type 0
  Sorted compare [] = Unit {0}
  Sorted compare ((a, k) ∷ xs) = Below compare k xs × Sorted compare xs

  pub record IsSkipList (compare : K → K → Ordering) (s : SkipList K) (xs : Cells K) : Type 0 where
    pub levels : (i : ℕ) → i < 5 → (p : Ptr) × (s.heap.next s.head i ≡ some p) × Chain s.heap i p xs
    pub sorted : Sorted compare xs
    pub distinct : Distinct xs
    pub apart : has s.head xs ≡ false
    pub height : (s.max_height ≡ 5) ⊎ ((s.max_height ≡ 1) × (xs ≡ []))
