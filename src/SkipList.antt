-- ===== src/SkipList.antt =====
-- db/SkipList.h over an explicit heap. A node at an address has a key and its `next_` pointers;
-- `none` is a fault (a read of memory that is not there), a failed assertion, or fuel run out.
-- The arena's answer to `NewNode` comes as an argument: the address, and what the raw memory
-- holds there. The atomic accesses are plain ones: this is the list as its one writer sees it.
pub mod Chain
pub mod Find
pub mod Link
pub mod Splice
pub mod Insert
pub mod New
pub mod Contents
pub mod Concurrent
mod Tests
use releveldb.Base.{ℕ, zero, suc, ◌+◌, ◌-◌, Ordering, List, [], ◌∷◌, Bool, true, false, not, ◌||◌}
use releveldb.Base.{Option, none, some, ltb, ◌==◌, if◌then◌else◌, get_elem?, set, replicate, ◌&&◌}
use releveldb.Base.{◌>>=◌, ◌>>◌, assert}
use releveldb.Slice.{is_eq, is_lt}

abbrev pub Ptr : Type 0
Ptr = ℕ

abbrev pub null : Ptr
null = 0

abbrev pub k_max_height : ℕ
k_max_height = 12

-- if (prev != NULL) prev[level] = x
abbrev pub store_prev : Option (List Ptr) → ℕ → Ptr → Option (List Ptr)
store_prev none level x = none
store_prev (some prev) level x = some (set prev level x)

-- `key` and `next_[i]` of the node at an address; `none` where no such memory was handed out.
pub record Heap (K : Type 0) : Type 0 where
  pub key : Ptr → Option K
  pub next : Ptr → ℕ → Option Ptr

pub record SkipList (K : Type 0) : Type 0 where
  pub heap : Heap K
  pub head : Ptr
  pub max_height : ℕ

-- for (int i = GetMaxHeight(); i < height; i++) prev[i] = head_
pub raise_loop : ℕ → ℕ → List Ptr → Ptr → List Ptr
raise_loop zero i prev head = prev
raise_loop (suc rounds) i prev head = raise_loop rounds (i + 1) (set prev i head) head

module _ {K : Type 0} where
  -- `SetNext`, `NoBarrier_SetNext`
  unfoldable pub set_next : Heap K → Ptr → ℕ → Ptr → Option (Heap K)
  set_next h p n x = elim (h.next p n) [
    | none ↦ none
    | some _ ↦ some (record h { next = λ q m. if q == p && m == n then some x else h.next q m })
  ]

  -- `NewNode`: `fresh` is the memory that the arena gave, and `raw` what its pointers hold.
  unfoldable pub new_node : (fresh : Ptr) (raw : ℕ → Ptr) → Heap K → K → ℕ → Heap K
  new_node fresh raw h key height = record {
    key = λ q. if q == fresh then some key else h.key q;
    next = λ q m. if q == fresh then if ltb m height then some (raw m) else none else h.next q m;
  }

  -- for (int i = 0; i < kMaxHeight; i++) head_->SetNext(i, NULL)
  pub clear_loop : ℕ → ℕ → Heap K → Ptr → Option (Heap K)
  unfolding set_next
  clear_loop zero i h head = some h
  clear_loop (suc rounds) i h head = do
    h' ← set_next h head i null
    clear_loop rounds (i + 1) h' head

  -- The constructor; `any` stands for the key 0 of the head node.
  pub new_skip_list : (fresh : Ptr) (raw : ℕ → Ptr) → Heap K → K → Option (SkipList K)
  unfolding new_node clear_loop
  new_skip_list fresh raw h any = do
    h' ← clear_loop k_max_height 0 (new_node fresh raw h any k_max_height) fresh
    some (record { heap = h'; head = fresh; max_height = 1 })

  -- for (int i = 0; i < height; i++) link the node in at level i
  unfoldable pub link_loop : ℕ → ℕ → Heap K → Ptr → List Ptr → Option (Heap K)
  unfolding set_next
  link_loop zero i h x prev = some h
  link_loop (suc rounds) i h x prev = do
    p ← get_elem? prev i
    q ← h.next p i
    h' ← set_next h x i q
    h'' ← set_next h' p i x
    link_loop rounds (i + 1) h'' x prev

  module _ (compare : K → K → Ordering) where
    unfoldable pub equal : K → K → Bool
    equal a b = is_eq (compare a b)

    unfoldable pub key_is_after_node : Heap K → K → Ptr → Option Bool
    key_is_after_node h key n =
        if n == null then some false else do k ← h.key n; some (is_lt (compare k key))

    -- The loop of `FindGreaterOrEqual`. `prev` is `none` for NULL, or the array.
    unfoldable pub find_loop :
        ℕ → Heap K → K → Ptr → ℕ → Option (List Ptr) → Option (Ptr × Option (List Ptr))
    find_loop zero h key x level prev = none
    find_loop (suc fuel) h key x level prev = do
      next ← h.next x level
      after ← key_is_after_node h key next
      let prev' = store_prev prev level x
      let further = find_loop fuel h key next level prev
      let below = find_loop fuel h key x (level - 1) prev'
      if after then further else if level == 0 then some (next, prev') else below

    unfoldable pub find_greater_or_equal :
        ℕ → SkipList K → K → Option (List Ptr) → Option (Ptr × Option (List Ptr))
    find_greater_or_equal fuel s key prev = find_loop fuel s.heap key s.head (s.max_height - 1) prev

    unfoldable pub contains : ℕ → SkipList K → K → Option Bool
    contains fuel s key = do
      (x, _) ← find_greater_or_equal fuel s key none
      if x == null then some false else do k ← s.heap.key x; some (equal key k)

    -- the assertion that no equal key is there
    pub assert_absent : Heap K → Ptr → K → Option (Unit {0})
    assert_absent h x key =
        if x == null then some tt else do k ← h.key x; assert (not (equal k key))

    -- `junk` is what the uninitialised `prev` holds.
    unfoldable pub insert :
        ℕ → (fresh : Ptr) (raw : ℕ → Ptr) (junk : List Ptr) → SkipList K → K → Option (SkipList K)
    unfolding assert_absent raise_loop
    insert fuel fresh raw junk s key = do
      (x, found) ← find_greater_or_equal fuel s key (some junk)
      prev ← found
      assert_absent s.heap x key
      let height : ℕ = 5
      let raised = ltb s.max_height height
      let prev' =
          if raised then raise_loop (height - s.max_height) s.max_height prev s.head else prev
      let max_height = if raised then height else s.max_height
      h ← link_loop height 0 (new_node fresh raw s.heap key height) fresh prev'
      some (record s { heap = h; max_height = max_height })
