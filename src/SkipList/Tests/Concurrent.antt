-- ===== src/SkipList/Tests/Concurrent.antt =====
-- A run of a writer and a reader of db/SkipList.h: the reader looks for 5 while 5 is linked in.
use releveldb.Base.{
  Option, ℕ, ◌≡◌, ◌⊎◌, ◌≤◌, refl, arith, compare, true, false, ◌||◌, List, [], ◌∷◌, replicate, none,
  some, ◌>>=◌, Bool,
}
use releveldb.Slice.{is_eq}
use releveldb.SkipList.{
  Ptr, SkipList, set_next, new_node, contains, find_greater_or_equal, find_loop, key_is_after_node,
}
use releveldb.SkipList.Chain.{IsSkipList}
use releveldb.SkipList.Concurrent.{
  Pc, fill, Reader, idle, stopped, writer_step, reader_step, answer, State, begun, writes, reads,
  Reach, start, next, reads_of, linked,
}
use releveldb.SkipList.Concurrent.Alone.{raised_prev}
use releveldb.SkipList.Concurrent.Safety.{reader-answer, reader-fresh, Reach-moves, reads_of-bound}
use releveldb.SkipList.Tests.{
  compare-IsPreorder, ten, ten_cells, ten-IsSkipList, three-IsUnused, raw, junk,
}

-- the head on the levels of the list, and what was there above
abbrev prev : List Ptr
prev = 1 ∷ 1 ∷ 1 ∷ 1 ∷ 1 ∷ 77 ∷ 77 ∷ 77 ∷ 77 ∷ 77 ∷ 77 ∷ 77 ∷ []

searched : find_greater_or_equal compare 7 ten 5 (some junk) ≡ some (2, some prev)
unfolding find_greater_or_equal find_loop key_is_after_node
searched = refl

abbrev Run : State compare → State compare → Type 0
Run = Reach compare 3 raw (raised_prev compare ten prev) 5 5

abbrev Some : State compare → Type 0
Some from = (st : State compare) × Run from st

wrote :
    {from : State compare} (st : State compare)
    → Run from st
    → (o : Option (SkipList ℕ × Pc))
    → writer_step 3 raw (raised_prev compare ten prev) 5 st.list st.pc ≡ o
    → Some from
wrote st reach none e = (st, reach)
wrote st reach (some (s, pc)) e = (_, next reach (writes st s pc e))

read :
    {from : State compare} (st : State compare)
    → Run from st
    → (o : Option Reader) → reader_step compare st.list 5 st.reader ≡ o
    → Some from
read st reach none e = (st, reach)
read st reach (some r) e = (_, next reach (reads st r e))

-- a run by a schedule: true for the writer, false for the reader
scheduled : {from : State compare} → List Bool → Some from → Some from
unfolding wrote read
scheduled [] run = run
scheduled (true ∷ turns) (st, reach) = scheduled turns (wrote st reach _ refl)
scheduled (false ∷ turns) (st, reach) = scheduled turns (read st reach _ refl)

-- the new node is linked in on the lowest level only, then the reader runs
abbrev visible : Some (begun compare ten)
visible = scheduled (true ∷ true ∷ true ∷ true ∷ []) (_, start)

abbrev ended : Some visible.0
ended = scheduled (replicate 7 false) (_, start)

-- the reader starts before the writer
abbrev early : Some (begun compare ten)
early = scheduled (false ∷ false ∷ true ∷ true ∷ true ∷ true ∷ replicate 7 false) (_, start)

early-stopped : early.0.reader ≡ stopped 3
unfolding scheduled wrote read writer_step reader_step set_next new_node key_is_after_node
early-stopped = refl

visible-linked : linked visible.0.pc ≡ 1
unfolding scheduled wrote read writer_step reader_step set_next new_node key_is_after_node
visible-linked = refl

visible-idle : visible.0.reader ≡ idle
unfolding scheduled wrote read writer_step reader_step set_next new_node key_is_after_node
visible-idle = refl

ended-stopped : ended.0.reader ≡ stopped 3
unfolding scheduled wrote read writer_step reader_step set_next new_node key_is_after_node
ended-stopped = refl

reader-answer_example :
    (answer compare early.0.list 5 3 ≡ contains compare 7 ten 5)
    ⊎ ((answer compare early.0.list 5 3 ≡ some true) × (is_eq (compare 5 5) ≡ true))
reader-answer_example =
    reader-answer compare compare-IsPreorder 5 ten ten_cells ten-IsSkipList 3 raw three-IsUnused
      refl 7 junk 2 prev (omega arith) refl searched 5 early.0 3 early.1 early-stopped

reader-fresh_example :
    answer compare ended.0.list 5 3
    ≡ (contains compare 7 ten 5 >>= λ old. some (is_eq (compare 5 5) || old))
reader-fresh_example =
    reader-fresh compare compare-IsPreorder 5 ten ten_cells ten-IsSkipList 3 raw three-IsUnused refl
      7 junk 2 prev (omega arith) refl searched 5 visible.0 ended.0 3 visible.1
      (omega (arith, visible-linked)) visible-idle ended.1 ended-stopped

reads_of-bound_example : reads_of compare 3 raw (raised_prev compare ten prev) 5 5 early.1 ≤ 8
reads_of-bound_example =
    reads_of-bound compare compare-IsPreorder 5 ten ten_cells ten-IsSkipList 3 raw three-IsUnused
      refl 7 junk 2 prev (omega arith) refl searched 5 early.0 early.1

Reach-moves_example :
    (((r : Reader) × (reader_step compare early.0.list 5 early.0.reader ≡ some r))
      ⊎ ((q : Ptr) × (b : Bool) × (early.0.reader ≡ stopped q)
          × (answer compare early.0.list 5 q ≡ some b)))
    × (((s : SkipList ℕ) × (pc : Pc) × (writer_step 3 raw
              (raised_prev compare ten prev)
              5
              early.0.list
              early.0.pc
            ≡ some (s, pc)))
        ⊎ ((early.0.pc ≡ fill 5) × IsSkipList compare early.0.list ((3, 5) ∷ (2, 10) ∷ [])))
Reach-moves_example =
    Reach-moves compare compare-IsPreorder 5 ten ten_cells ten-IsSkipList 3 raw three-IsUnused refl
      7 junk 2 prev (omega arith) refl searched 5 early.0 early.1
