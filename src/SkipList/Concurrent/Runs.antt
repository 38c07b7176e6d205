-- ===== src/SkipList/Concurrent/Runs.antt =====
-- Runs of a writer and a reader of db/SkipList.h, in every order of their steps.
use releveldb.Base.{
  ℕ, ◌+◌, ◌<◌, ◌≤◌, ◌≡◌, inl, inr, refl, arith, ap, sym, subst, ◌∙◌, List, none, some, true, false,
  Ordering, length, ltb,
}
use mathlib.Core.Option.{some-injective, none-ne-some}
use releveldb.SkipList.{Ptr, SkipList}
use releveldb.SkipList.Chain.{hd_ptr, Cells, IsSkipList}
use releveldb.SkipList.Find.{IsPreorder, from, member, place}
use releveldb.SkipList.Insert.{IsUnused, Holds, inserted}
use releveldb.SkipList.Contents.{length-inserted}
use releveldb.SkipList.Concurrent.Bound.{Left, Closer-Left}
use releveldb.SkipList.Concurrent.{
  linked, Pc, fill, Reader, idle, at, stopped, writer_step, begun, reader_step, State, Step, writes,
  reads, reads_of, Reach, start, next,
}
use releveldb.SkipList.Concurrent.Writer.{IsWritten, moves, start-IsWritten}
use releveldb.SkipList.Concurrent.Readers.{
  IsReading, IsReading-grown, reader_moves, Current, Closer,
}

module _ {K : Type 0} (compare : K → K → Ordering) (law : IsPreorder compare) (key : K)
    (s0 : SkipList K) (xs : Cells K) (ok : IsSkipList compare s0 xs) (fresh : Ptr) (raw : ℕ → Ptr)
    (unused : IsUnused s0.heap fresh) (absent : member compare key xs ≡ false) (prev : List Ptr)
    (holds : Holds prev 5 (place compare s0 xs ok key)) (target : K) where
  pub record IsConsistent (st : State compare) : Type 0 where
    pub writer : IsWritten compare law key s0 xs ok fresh raw unused st.list st.pc
    pub reader :
        IsReading compare law key s0 xs ok fresh raw unused absent target (linked st.pc) st.reader

  writer_ends : (s : SkipList K) → writer_step fresh raw prev key s (fill 5) ≡ none
  unfolding writer_step
  writer_ends s = refl

  reader_ends : (s : SkipList K) (q : Ptr) → reader_step compare s target (stopped q) ≡ none
  unfolding reader_step
  reader_ends s q = refl

  abbrev Sees : Reader → Type 0
  Sees idle = Unit
  Sees (at p l) = Unit
  Sees (stopped q) = q ≡ hd_ptr (from compare target (inserted compare law key s0 xs ok fresh))

  Current-Sees :
      (st : State compare) (is : IsWritten compare law key s0 xs ok fresh raw unused st.list st.pc)
      → 0 < linked st.pc
      → (r : Reader)
      → Current compare law key s0 xs ok fresh raw unused absent target st.list st.pc is r
      → Sees r
  Current-Sees st is pos idle c = tt
  Current-Sees st is pos (at p l) c = tt
  Current-Sees st is pos (stopped q) c =
      let low : ltb 0 (linked st.pc) ≡ true = ground arith in rw low at c

  writes-IsConsistent :
      (st : State compare) (s : SkipList K) (pc : Pc)
      → writer_step fresh raw prev key st.list st.pc ≡ some (s, pc)
      → IsConsistent st
      → IsConsistent (record st { list = s; pc = pc }) × (linked st.pc ≤ linked pc)
  writes-IsConsistent st s pc ran is =
      elim (moves compare law key s0 xs ok fresh raw unused prev holds st.list st.pc is.writer) [
        | inl (s', pc', ran', written, more) ↦
            let same : (s', pc') ≡ (s, pc) = some-injective _ _ (sym ran' ∙ ran) in
            subst
              (λ x. IsConsistent (record st { list = x.0; pc = x.1 }) × (linked st.pc ≤ linked x.1))
              same
              ((
                record {
                  writer = written;
                  reader =
                      IsReading-grown compare law key s0 xs ok fresh raw unused absent target _ _
                        st.reader more is.reader;
                },
                more,
              ))
        | inr done ↦ absurd (
            none-ne-some _ (
              sym (writer_ends st.list)
              ∙ sym (ap (writer_step fresh raw prev key st.list) done)
              ∙ ran))
      ]

  reads-IsConsistent :
      (st : State compare) (r : Reader)
      → reader_step compare st.list target st.reader ≡ some r
      → (is : IsConsistent st)
      → IsConsistent (record st { reader = r })
        × ((0 < linked st.pc) → Sees r)
        × Closer compare law key s0 xs ok fresh raw unused absent target st.list st.pc is.writer
            st.reader r
  reads-IsConsistent st r ran is =
      elim (reader_moves compare law key s0 xs ok fresh raw unused absent target st.list st.pc
        is.writer st.reader is.reader) [
          | inl (r', ran', reading, current, closer) ↦
              let same : r' ≡ r = some-injective _ _ (sym ran' ∙ ran) in
              (
                record { writer = is.writer; reader = rw (sym same) reading },
                λ pos. rw (sym same) (Current-Sees st is.writer pos r' current),
                subst
                    (Closer compare law key s0 xs ok fresh raw unused absent target st.list st.pc
                      is.writer st.reader)
                    same closer,
              )
          | inr (q, e) ↦ absurd (
              none-ne-some r (
                sym (reader_ends st.list q)
                ∙ sym (ap (reader_step compare st.list target) e)
                ∙ ran))
        ]

  pub Reach-IsConsistent :
      (st : State compare)
      → Reach compare fresh raw prev key target (begun compare s0) st
      → IsConsistent st
  Reach-IsConsistent _ start = record {
    writer = start-IsWritten compare law key s0 xs ok fresh raw unused;
    reader = tt;
  }
  Reach-IsConsistent _ (next reach (writes st s pc ran)) =
      (writes-IsConsistent st s pc ran (Reach-IsConsistent st reach)).0
  Reach-IsConsistent _ (next reach (reads st r ran)) =
      (reads-IsConsistent st r ran (Reach-IsConsistent st reach)).0

  -- The new node is linked in on the lowest level, and a search that has ended has seen it.
  pub record IsFresh (st : State compare) : Type 0 where
    pub consistent : IsConsistent st
    pub visible : 0 < linked st.pc
    pub sees : Sees st.reader

  fresh-Step :
      (st st' : State compare)
      → Step compare fresh raw prev key target st st'
      → IsFresh st
      → IsFresh st'
  fresh-Step _ _ (writes st s pc ran) is =
      let (consistent, more) = writes-IsConsistent st s pc ran is.consistent in
      record { consistent = consistent; visible = omega (arith, is.visible, more); sees = is.sees }
  fresh-Step _ _ (reads st r ran) is =
      let (consistent, sees, _) = reads-IsConsistent st r ran is.consistent in
      record { consistent = consistent; visible = is.visible; sees = sees is.visible }

  pub fresh-Reach :
      (st st' : State compare)
      → Reach compare fresh raw prev key target st st'
      → IsFresh st
      → IsFresh st'
  fresh-Reach st _ start is = is
  fresh-Reach st st' (next {st = mid} reach step) is =
      fresh-Step mid st' step (fresh-Reach st mid reach is)

  -- Each of the reader's steps leaves it one less.
  pub Reach-Left :
      (st : State compare) (reach : Reach compare fresh raw prev key target (begun compare s0) st)
      → (n : ℕ) × (n + reads_of compare fresh raw prev key target reach ≡ length xs + 7)
        × Left compare law key s0 xs ok fresh raw unused absent target n st.reader
  unfolding reads_of
  Reach-Left _ start =
      (length xs + 7, omega arith, omega (arith, length-inserted compare key fresh xs))
  Reach-Left _ (next reach (writes st s pc ran)) = Reach-Left st reach
  Reach-Left _ (next reach (reads st r ran)) =
      let (n, total, left) = Reach-Left st reach in
      let is = Reach-IsConsistent st reach in
      let (_, _, closer) = reads-IsConsistent st r ran is in
      let (m, e, left') =
        Closer-Left compare law key s0 xs ok fresh raw unused absent target st.list st.pc is.writer
          n st.reader r closer left in
      (m, omega (arith, total, e), left')
