-- ===== src/SkipList/Concurrent.antt =====
-- `Insert` of db/SkipList.h beside a reader: every access of the one writer to a node's pointers or to
-- `max_height_` that others can see is a step, and so is every one of a reader in `Contains`.
pub mod Ahead
pub mod Writer
pub mod Readers
pub mod Runs
pub mod Bound
pub mod Alone
pub mod Safety
use releveldb.Base.{
  ℕ, zero, suc, ◌+◌, ◌-◌, ◌≡◌, List, Bool, true, false, Option, none, some, ltb, ◌==◌,
  if◌then◌else◌, get_elem?, ◌>>=◌, Ordering,
}
use releveldb.SkipList.{Ptr, null, Heap, SkipList, set_next, new_node, key_is_after_node, equal}

-- Where the writer is: before the store to `max_height_`, before `NewNode`, or in the loop on a
-- level, before `NoBarrier_SetNext` or before `SetNext`.
pub data Pc : Type 0 where
  raise : Pc
  make : Pc
  fill : ℕ → Pc
  publish : ℕ → Pc

-- Where the reader is: before `FindGreaterOrEqual` reads the height, at a node and a level, or
-- behind the search with its result.
pub data Reader : Type 0 where
  idle : Reader
  at : Ptr → ℕ → Reader
  stopped : Ptr → Reader

-- on how many levels the new node is to be seen
abbrev pub linked : Pc → ℕ
linked raise = 0
linked make = 0
linked (fill k) = k
linked (publish k) = k

module _ {K : Type 0} where
  -- A step of `Insert` behind its search, which left `prev` with `head_` on the new levels. `none` is
  -- a fault or the end of the loop.
  unfoldable pub writer_step :
      (fresh : Ptr) (raw : ℕ → Ptr) (prev : List Ptr)
      → K
      → SkipList K
      → Pc
      → Option (SkipList K × Pc)
  unfolding set_next new_node
  writer_step fresh raw prev key s raise =
      some (if ltb s.max_height 5 then record s { max_height = 5 } else s, make)
  writer_step fresh raw prev key s make =
      some (record s { heap = new_node fresh raw s.heap key 5 }, fill 0)
  writer_step fresh raw prev key s (fill i) =
      if ltb i 5
      then (do
        p ← get_elem? prev i
        q ← s.heap.next p i
        h ← set_next s.heap fresh i q
        some (record s { heap = h }, publish i))
      else none
  writer_step fresh raw prev key s (publish i) = do
    p ← get_elem? prev i
    h ← set_next s.heap p i fresh
    some (record s { heap = h }, fill (i + 1))

  module _ (compare : K → K → Ordering) where
    -- A step of `FindGreaterOrEqual` with NULL for `prev`.
    unfoldable pub reader_step : SkipList K → K → Reader → Option Reader
    unfolding key_is_after_node
    reader_step s target idle = some (at s.head (s.max_height - 1))
    reader_step s target (at x level) = do
      next ← s.heap.next x level
      after ← key_is_after_node compare s.heap target next
      some (if after then at next level else if level == 0 then stopped next else at x (level - 1))
    reader_step s target (stopped q) = none

    -- what `Contains` answers behind the search
    unfoldable pub answer : SkipList K → K → Ptr → Option Bool
    unfolding equal
    answer s target x =
        if x == null then some false else do k ← s.heap.key x; some (equal compare target k)

    pub record State : Type 0 where
      pub list : SkipList K
      pub pc : Pc
      pub reader : Reader

    -- before the steps of both
    abbrev pub begun : SkipList K → State
    begun s = record { list = s; pc = raise; reader = idle }

    module _ (fresh : Ptr) (raw : ℕ → Ptr) (prev : List Ptr) (key target : K) where
      -- The writer and the reader take their steps in any order.
      pub data Step : State → State → Type 0 where
        writes :
            (st : State) (s : SkipList K) (pc : Pc)
            → writer_step fresh raw prev key st.list st.pc ≡ some (s, pc)
            → Step st (record st { list = s; pc = pc })
        reads :
            (st : State) (r : Reader)
            → reader_step st.list target st.reader ≡ some r
            → Step st (record st { reader = r })

      pub data Reach (from : State) : State → Type 0 where
        start : Reach from from
        next : {st st' : State} → Reach from st → Step st st' → Reach from st'

      -- how many of the steps are the reader's
      pub reads_of : {from st : State} → Reach from st → ℕ
      reads_of start = 0
      reads_of (next reach (writes st s pc ran)) = reads_of reach
      reads_of (next reach (reads st r ran)) = suc (reads_of reach)
