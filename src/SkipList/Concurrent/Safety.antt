-- ===== src/SkipList/Concurrent/Safety.antt =====
-- A reader of db/SkipList.h beside an `Insert`, in every order of their steps: its answer, its steps,
-- and the list that the writer leaves.
use releveldb.Base.{
  ℕ, ◌+◌, ◌-◌, ◌<◌, ◌≤◌, ◌≡◌, ◌⊎◌, inl, inr, refl, arith, ap, sym, ◌∙◌, List, some, Bool, true,
  false, Bool-cases, Ordering, length, ◌||◌, ◌>>=◌,
}
use mathlib.Core.Option.{some-injective}
use releveldb.Slice.{is_eq}
use releveldb.SkipList.{Ptr, SkipList, contains, find_greater_or_equal}
use releveldb.SkipList.Concurrent.Runs.{IsConsistent, Reach-IsConsistent, fresh-Reach, Reach-Left}
use releveldb.SkipList.Concurrent.Alone.{raised_prev}
use releveldb.SkipList.Chain.{Cells, IsSkipList}
use releveldb.SkipList.Find.{IsPreorder, member, place, find_lem, contains-member}
use releveldb.SkipList.Insert.{IsUnused, Holds, inserted, fill_get, Raised-Holds}
use releveldb.SkipList.Contents.{member-inserted}
use releveldb.SkipList.Concurrent.{
  linked, Pc, fill, Reader, idle, stopped, writer_step, begun, reader_step, answer, State, reads_of,
  Reach,
}
use releveldb.SkipList.Concurrent.Writer.{moves, finished-IsSkipList}
use releveldb.SkipList.Concurrent.Readers.{reader_moves, answer_lem, answer_new}

-- The list is well formed and has no key that is equal to `key`; the search of `Insert` has filled
-- `prev`.
module _ {K : Type 0} (compare : K → K → Ordering) (law : IsPreorder compare) (key : K)
    (s0 : SkipList K) (xs : Cells K) (ok : IsSkipList compare s0 xs) (fresh : Ptr) (raw : ℕ → Ptr)
    (unused : IsUnused s0.heap fresh) (absent : member compare key xs ≡ false) (fuel : ℕ)
    (junk : List Ptr) (x : Ptr) (prev : List Ptr) (hf : length xs + 5 ≤ fuel)
    (hj : length junk ≡ 12)
    (ran : find_greater_or_equal compare fuel s0 key (some junk) ≡ some (x, some prev))
    (target : K) where
  raised : Holds (raised_prev compare s0 prev) 5 (place compare s0 xs ok key)
  raised =
      let (prev', filled, len, holds, _) =
        fill_get compare key s0.heap (s0.max_height - 1) junk (place compare s0 xs ok key)
          (omega (arith, ok.height)) in
      let same : some prev ≡ some prev' =
        ap (λ r. r.1)
          (some-injective _ _ (sym ran ∙ find_lem compare s0 xs ok key fuel (some junk) hf))
        ∙ filled in
      rw (some-injective _ _ same) (Raised-Holds compare law key s0 xs ok prev' (omega arith) holds)

  consistent :
      (st : State compare)
      → Reach compare fresh raw (raised_prev compare s0 prev) key target (begun compare s0) st
      → IsConsistent compare law key s0 xs ok fresh raw unused absent
          (raised_prev compare s0 prev)
          raised
          target
          st
  consistent =
      Reach-IsConsistent compare law key s0 xs ok fresh raw unused absent
        (raised_prev compare s0 prev) raised target

  -- While `Insert` links an absent key into a well-formed list, in memory that no node used, a
  -- reader of `Contains` may take its steps between those of the writer in any order. If its
  -- search for a key has ended, it answers what `Contains` answered before the `Insert`, or true,
  -- and that only if the key is equal to the new one.
  pub reader-answer :
      (st : State compare) (q : Ptr)
      → Reach compare fresh raw (raised_prev compare s0 prev) key target (begun compare s0) st
      → st.reader ≡ stopped q
      → (answer compare st.list target q ≡ contains compare fuel s0 target)
        ⊎ ((answer compare st.list target q ≡ some true) × (is_eq (compare target key) ≡ true))
  reader-answer st q reach e =
      let is = consistent st reach in
      let old = contains-member compare s0 xs ok target law fuel hf in
      elim (answer_lem compare law key s0 xs ok fresh raw unused absent target st.list st.pc
        is.writer q (rw e at is.reader)) [
          | inl as_before ↦ inl (as_before ∙ sym old)
          | inr as_after ↦ elim (Bool-cases (is_eq (compare target key))) [
            | inl same ↦ inr (
              as_after ∙ ap some (member-inserted compare key target fresh xs ∙ rw same refl),
              same,
            )
            | inr other ↦ inl (
                as_after
                ∙ ap some (member-inserted compare key target fresh xs ∙ rw other refl)
                ∙ sym old)
          ]
        ]

  -- In every state that the writer of an absent key and a reader can reach from a well-formed
  -- list, the reader can take its next step without a fault, or its search has ended and it has an
  -- answer; and the writer can take its next step without a fault, or it has ended and the list is
  -- well formed with the new node in its place.
  pub Reach-moves :
      (st : State compare)
      → Reach compare fresh raw (raised_prev compare s0 prev) key target (begun compare s0) st
      → (((r : Reader) × (reader_step compare st.list target st.reader ≡ some r))
          ⊎ ((q : Ptr) × (b : Bool) × (st.reader ≡ stopped q)
              × (answer compare st.list target q ≡ some b)))
        × (((s : SkipList K) × (pc : Pc) × (writer_step fresh raw
                  (raised_prev compare s0 prev)
                  key
                  st.list
                  st.pc
                ≡ some (s, pc)))
            ⊎ ((st.pc ≡ fill 5)
                × IsSkipList compare st.list (inserted compare law key s0 xs ok fresh)))
  Reach-moves st reach =
      let is = consistent st reach in
      (
        elim (reader_moves compare law key s0 xs ok fresh raw unused absent target st.list st.pc
            is.writer st.reader is.reader) [
              | inl (r, ran, _, _, _) ↦ inl (r, ran)
              | inr (q, e) ↦
                  elim (answer_lem compare law key s0 xs ok fresh raw unused absent target st.list
                    st.pc is.writer q (rw e at is.reader)) [
                      | inl a ↦ inr (q, _, e, a)
                      | inr a ↦ inr (q, _, e, a)
                    ]
            ],
        elim (moves compare law key s0 xs ok fresh raw unused (raised_prev compare s0 prev) raised
            st.list st.pc is.writer) [
              | inl (s, pc, ran, _, _) ↦ inl (s, pc, ran)
              | inr e ↦ inr (
                e,
                finished-IsSkipList compare law key s0 xs ok fresh raw unused st.list absent
                    (rw e at is.writer),
              )
            ],
      )

  -- A reader that starts when the new node is linked in on the lowest level of a well-formed list,
  -- or later, answers what `Contains` answered before the `Insert` of the absent key, and true for
  -- the keys that are equal to it, even if the writer has not yet linked the node in on the higher
  -- levels.
  pub reader-fresh :
      (st st' : State compare) (q : Ptr)
      → Reach compare fresh raw (raised_prev compare s0 prev) key target (begun compare s0) st
      → 0 < linked st.pc
      → st.reader ≡ idle
      → Reach compare fresh raw (raised_prev compare s0 prev) key target st st'
      → st'.reader ≡ stopped q
      → answer compare st'.list target q
        ≡ (contains compare fuel s0 target >>= λ old. some (is_eq (compare target key) || old))
  reader-fresh st st' q reach visible e reach' e' =
      let is =
        fresh-Reach compare law key s0 xs ok fresh raw unused absent (raised_prev compare s0 prev)
          raised target st st' reach'
          (record { consistent = consistent st reach; visible = visible; sees = rw e tt }) in
      answer_new compare law key s0 xs ok fresh raw unused absent target st'.list st'.pc
        is.consistent.writer q is.visible (rw e' at is.sees)
      ∙ ap some (member-inserted compare key target fresh xs)
      ∙ sym (rw (contains-member compare s0 xs ok target law fuel hf) refl)

  -- Beside an `Insert` of an absent key into a well-formed list, a reader takes at most one step
  -- for each node of the list and seven more, whatever the writer does between them.
  pub reads_of-bound :
      (st : State compare)
      (reach : Reach compare fresh raw
        (raised_prev compare s0 prev)
        key
        target
        (begun compare s0)
        st)
      → reads_of compare fresh raw (raised_prev compare s0 prev) key target reach ≤ length xs + 7
  reads_of-bound st reach =
      let (n, total, _) =
        Reach-Left compare law key s0 xs ok fresh raw unused absent (raised_prev compare s0 prev)
          raised target st reach in
      omega (arith, total)
