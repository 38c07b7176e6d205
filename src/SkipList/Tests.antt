-- ===== src/SkipList/Tests.antt =====
-- Runs of the list of db/SkipList.h with numbers as keys.
mod Concurrent
use releveldb.Base.{
  ℕ, ◌≡◌, refl, arith, compare, true, false, ◌||◌, List, [], ◌∷◌, replicate, none, some, ◌>>=◌, inl,
  ltb, ◌==◌, if◌then◌else◌,
}
use releveldb.Slice.{is_eq}
use releveldb.SkipList.{
  Ptr, Heap, SkipList, new_skip_list, contains, insert, find_greater_or_equal, find_loop,
  key_is_after_node, equal,
}
use releveldb.SkipList.Chain.{Cells, IsSkipList}
use releveldb.SkipList.Find.{IsPreorder, member, fill, found, place, find_lem, contains-member}
use releveldb.SkipList.Insert.{IsUnused, insert-IsSkipList}
use releveldb.SkipList.New.{new_skip_list-IsSkipList}
use releveldb.SkipList.Contents.{contains-insert, insert_present}

pub compare-IsPreorder : IsPreorder compare
compare-IsPreorder = record {
  compare_flip = λ a b. ground arith;
  lt_trans = λ a b d h k. ground arith;
  eq_left = λ a b d h. ground arith;
}

-- the head at 1, and at 2 a node with the key 10
abbrev pub ten : SkipList ℕ
ten = record {
  heap = record {
    key = λ p. if p == 2 then some 10 else if p == 1 then some 0 else none;
    next = λ p l.
        if p == 1
        then if ltb l 5 then some 2 else if ltb l 12 then some 0 else none
        else if p == 2
        then if ltb l 5 then some 0 else none
        else none;
  };
  head = 1;
  max_height = 5;
}

abbrev pub ten_cells : Cells ℕ
ten_cells = (2, 10) ∷ []

pub ten-IsSkipList : IsSkipList compare ten ten_cells
ten-IsSkipList = record {
  levels = λ l hl. (2, ground arith, (refl, λ e. omega arith, refl, 0, ground arith, refl));
  sorted = (tt, tt);
  distinct = (refl, tt);
  apart = refl;
  height = inl refl;
}

pub three-IsUnused : IsUnused ten.heap 3
three-IsUnused = record { not_null = λ e. omega arith; no_key = refl; no_next = λ i. refl }

abbrev pub raw : ℕ → Ptr
raw l = 99

abbrev pub junk : List Ptr
junk = replicate 12 77

ten_absent : contains compare 7 ten 5 ≡ some false
unfolding contains find_greater_or_equal find_loop key_is_after_node equal
ten_absent = refl

ten_there : contains compare 7 ten 10 ≡ some true
unfolding contains find_greater_or_equal find_loop key_is_after_node equal
ten_there = refl

contains-insert_example :
    (s' : SkipList ℕ) × (insert compare 7 3 raw junk ten 5 ≡ some s')
    × (contains compare 7 s' 5
        ≡ (contains compare 7 ten 5 >>= λ old. some (is_eq (compare 5 5) || old)))
contains-insert_example =
    contains-insert compare compare-IsPreorder ten ten_cells ten-IsSkipList 5 3 raw junk 7 5
      three-IsUnused refl (omega arith) ten_absent

insert-IsSkipList_example :
    (s' : SkipList ℕ) × (insert compare 7 3 raw junk ten 5 ≡ some s')
    × IsSkipList compare s' ((3, 5) ∷ (2, 10) ∷ [])
insert-IsSkipList_example =
    insert-IsSkipList compare compare-IsPreorder 5 ten ten_cells ten-IsSkipList 3 raw three-IsUnused
      7 junk (omega arith) refl refl

contains-member_example : contains compare 7 ten 10 ≡ some (member compare 10 ten_cells)
contains-member_example =
    contains-member compare ten ten_cells ten-IsSkipList 10 compare-IsPreorder 7 (omega arith)

abbrev pub no_memory : Heap ℕ
no_memory = record { key = λ p. none; next = λ p l. none }

new_skip_list-IsSkipList_example :
    (s : SkipList ℕ) × (new_skip_list 1 raw no_memory 0 ≡ some s) × IsSkipList compare s []
new_skip_list-IsSkipList_example = new_skip_list-IsSkipList compare 1 raw no_memory 0
