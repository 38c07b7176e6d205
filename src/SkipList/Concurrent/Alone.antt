-- ===== src/SkipList/Concurrent/Alone.antt =====
-- The steps of the writer and of a reader of db/SkipList.h, when nobody is beside them: the functions
-- `Insert` and `Contains`.
use releveldb.Base.{
  ℕ, zero, suc, ◌+◌, ◌-◌, ◌≡◌, inl, inr, refl, arith, ap, sym, ◌∙◌, List, Option, none, some, true,
  false, Bool-cases, Option-cases, Ordering, ltb, ◌==◌, get_elem?, if◌then◌else◌, ◌>>=◌, ◌>>◌,
}
use releveldb.SkipList.{
  Ptr, SkipList, set_next, new_node, link_loop, raise_loop, find_loop, find_greater_or_equal,
  contains, insert, assert_absent, key_is_after_node,
}
use releveldb.SkipList.Concurrent.{
  Pc, raise, make, fill, Reader, idle, at, stopped, writer_step, reader_step, answer,
}

abbrev pub twice : ℕ → ℕ
twice zero = zero
twice (suc n) = suc (suc (twice n))

module _ {K : Type 0} where
  -- the steps of the writer up to the end of its loop
  abbrev pub write :
      (fresh : Ptr) (raw : ℕ → Ptr) (prev : List Ptr)
      → K
      → ℕ
      → SkipList K
      → Pc
      → Option (SkipList K)
  write fresh raw prev key zero s pc = some s
  write fresh raw prev key (suc rounds) s pc = do
    (s', pc') ← writer_step fresh raw prev key s pc
    write fresh raw prev key rounds s' pc'

  module _ (fresh : Ptr) (raw : ℕ → Ptr) (prev : List Ptr) (key : K) where
    -- the loop on the levels
    write-link_loop :
        (rounds i : ℕ) (s : SkipList K)
        → i + rounds ≡ 5
        → write fresh raw prev key (twice rounds) s (fill i)
          ≡ (link_loop rounds i s.heap fresh prev >>= λ h. some (record s { heap = h }))
    unfolding writer_step link_loop
    write-link_loop zero i s e = refl
    write-link_loop (suc rounds) i s e =
        let go : ltb i 5 ≡ true = ground arith in
        elim (Option-cases (get_elem? prev i)) [
          | inl fails ↦ rw (go, fails) refl
          | inr (p, ep) ↦ elim (Option-cases (s.heap.next p i)) [
            | inl fails ↦ rw (go, ep) (rw (fails, ◌>>=◌) refl)
            | inr (q, eq) ↦ elim (Option-cases (set_next s.heap fresh i q)) [
              | inl fails ↦ rw (go, ep) (rw (eq, ◌>>=◌) (rw (fails, ◌>>=◌) refl))
              | inr (h, eh) ↦ elim (Option-cases (set_next h p i fresh)) [
                | inl fails ↦
                    rw (go, ep)
                      (rw (eq, ◌>>=◌) (rw (eh, ◌>>=◌) (rw (ep, ◌>>=◌) (rw (fails, ◌>>=◌) refl))))
                | inr (h', eh') ↦
                    rw (go, ep)
                      (rw (eq, ◌>>=◌)
                        (rw (eh, ◌>>=◌)
                          (rw (ep, ◌>>=◌)
                            (rw (eh', ◌>>=◌)
                              (write-link_loop rounds (i + 1) (record s { heap = h' })
                                (omega arith))))))
              ]
            ]
          ]
        ]

    write-next :
        (rounds : ℕ) (s s' : SkipList K) (pc pc' : Pc)
        → writer_step fresh raw prev key s pc ≡ some (s', pc')
        → write fresh raw prev key (suc rounds) s pc ≡ write fresh raw prev key rounds s' pc'
    write-next rounds s s' pc pc' e = rw (e, ◌>>=◌) refl

    write-make :
        (s u : SkipList K)
        → writer_step fresh raw prev key s raise ≡ some (u, make)
        → write fresh raw prev key (suc (suc (twice 5))) s raise ≡ (
            link_loop 5 0 (new_node fresh raw u.heap key 5) fresh prev >>= λ h.
            some (record u { heap = h }))
    write-make s u e =
        write-next (suc (twice 5)) s u raise make e
        ∙ write-next (twice 5) u (record u { heap = new_node fresh raw u.heap key 5 }) make (fill 0)
            (unfold writer_step in refl)
        ∙ write-link_loop 5 0 (record u { heap = new_node fresh raw u.heap key 5 }) refl

    -- all of it
    write-raised :
        (s : SkipList K)
        → write fresh raw prev key (suc (suc (twice 5))) s raise ≡ (
            link_loop 5 0 (new_node fresh raw s.heap key 5) fresh prev >>= λ h.
            some
              (record s { heap = h; max_height = if ltb s.max_height 5 then 5 else s.max_height }))
    write-raised s = elim (Bool-cases (ltb s.max_height 5)) [
      | inl low ↦
          write-make s (record s { max_height = 5 }) (unfold writer_step in rw low refl)
          ∙ rw low refl
      | inr high ↦ write-make s s (unfold writer_step in rw high refl) ∙ rw high refl
    ]

  module _ (compare : K → K → Ordering) where
    -- what `Insert` leaves in `prev` before its stores
    abbrev pub raised_prev : SkipList K → List Ptr → List Ptr
    raised_prev s prev =
        if ltb s.max_height 5 then raise_loop (5 - s.max_height) s.max_height prev s.head else prev

    -- `Insert` is its search, its assertion, and then the twelve steps of the writer, one after the other.
    pub insert-write :
        (fuel : ℕ) (fresh : Ptr) (raw : ℕ → Ptr) (junk : List Ptr) (s : SkipList K) (key : K)
        → insert compare fuel fresh raw junk s key ≡ (do
          (x, found) ← find_greater_or_equal compare fuel s key (some junk)
          prev ← found
          assert_absent compare s.heap x key
          write fresh raw (raised_prev s prev) key (suc (suc (twice 5))) s raise)
    unfolding insert
    insert-write fuel fresh raw junk s key =
        elim (Option-cases (find_greater_or_equal compare fuel s key (some junk))) [
          | inl fails ↦ rw (fails, ◌>>=◌) refl
          | inr ((x, found), e) ↦ elim (Option-cases found) [
            | inl fails ↦ rw (e, ◌>>=◌) (rw (fails, ◌>>=◌) refl)
            | inr (prev, e2) ↦
                rw (e, ◌>>=◌)
                  (rw (e2, ◌>>=◌)
                    (ap (λ m. assert_absent compare s.heap x key >> m)
                      (sym (write-raised fresh raw (raised_prev s prev) key s))))
          ]
        ]

    -- the steps of a reader up to the end of its search
    abbrev pub search : SkipList K → K → ℕ → Reader → Option Ptr
    search s target fuel (stopped q) = some q
    search s target zero r = none
    search s target (suc fuel) r = do r' ← reader_step compare s target r; search s target fuel r'

    search-find_loop :
        (fuel : ℕ) (s : SkipList K) (target : K) (x : Ptr) (level : ℕ)
        → find_loop compare fuel s.heap target x level none
          ≡ (search s target fuel (at x level) >>= λ q. some (q, none))
    unfolding find_loop reader_step
    search-find_loop zero s target x level = refl
    search-find_loop (suc fuel) s target x level = elim (Option-cases (s.heap.next x level)) [
      | inl fails ↦ rw (fails, ◌>>=◌) refl
      | inr (q, e) ↦ elim (Option-cases (key_is_after_node compare s.heap target q)) [
        | inl fails ↦ rw (e, ◌>>=◌) (rw (fails, ◌>>=◌) refl)
        | inr (true, after) ↦
            rw (e, ◌>>=◌) (rw (after, ◌>>=◌) (search-find_loop fuel s target q level))
        | inr (false, after) ↦ elim (Bool-cases (level == 0)) [
          | inl low ↦ rw (e, ◌>>=◌) (rw (after, ◌>>=◌) (rw low refl))
          | inr high ↦
              rw (e, ◌>>=◌)
                (rw (after, ◌>>=◌) (rw high (search-find_loop fuel s target x (level - 1))))
        ]
      ]
    ]

    -- `Contains` is the steps of a reader with nobody beside it, one for each round of the search and one
    -- before it, and then its answer.
    pub contains-search :
        (fuel : ℕ) (s : SkipList K) (target : K)
        → contains compare fuel s target
          ≡ (search s target (suc fuel) idle >>= λ q. answer compare s target q)
    unfolding contains find_greater_or_equal reader_step answer
    contains-search fuel s target =
        rw (search-find_loop fuel s target s.head (s.max_height - 1))
          (elim (Option-cases (search s target fuel (at s.head (s.max_height - 1)))) [
            | inl fails ↦ rw (fails, ◌>>=◌) refl
            | inr (q, e) ↦ rw (e, ◌>>=◌) refl
          ])
