-- ===== src/SkipList/Concurrent/Writer.antt =====
-- What the writer of db/SkipList.h has done at each of its steps.
use releveldb.Base.{
  ℕ, ◌+◌, ◌<◌, ◌≤◌, ◌≡◌, ◌≢◌, ◌⊎◌, inl, inr, refl, arith, ap, sym, ◌∙◌, List, [], ◌∷◌, some, true,
  false, Bool-cases, Ordering, ltb, ◌==◌, ◌&&◌, if◌then◌else◌, ◌>>=◌,
}
use releveldb.SkipList.{Ptr, Heap, SkipList, set_next, new_node}
use releveldb.SkipList.Chain.{Cells, has, Chain, IsSkipList}
use releveldb.SkipList.Find.{
  IsPreorder, before, from, before-append-from, member, place, found, next-place,
}
use releveldb.SkipList.Splice.{Spliced, Chain-splice}
use releveldb.SkipList.Insert.{
  IsUnused, Holds, inserted, inserted_lem, fresh-ne-head, fresh_apart, fresh-ne-place,
}
use releveldb.SkipList.Concurrent.{Pc, raise, make, fill, publish, linked, writer_step}

-- A store to one pointer.
abbrev stored : {K : Type 0} → Heap K → Ptr → ℕ → Ptr → Heap K
stored h p n x = record h { next = λ q m. if q == p && m == n then some x else h.next q m }

set_next-stored :
    {K : Type 0} (h : Heap K) (p : Ptr) (n : ℕ) (x r : Ptr)
    → h.next p n ≡ some r
    → set_next h p n x ≡ some (stored h p n x)
unfolding set_next
set_next-stored h p n x r e = ground arith

module _ {K : Type 0} (compare : K → K → Ordering) (law : IsPreorder compare) (key : K)
    (s0 : SkipList K) (xs : Cells K) (ok : IsSkipList compare s0 xs) (fresh : Ptr) (raw : ℕ → Ptr)
    (unused : IsUnused s0.heap fresh) where
  abbrev y : Ptr
  y = place compare s0 xs ok key

  -- The new node is linked in on the levels below `k`.
  pub record Partial (h : Heap K) (k : ℕ) : Type 0 where
    pub old_key : (p : Ptr) → p ≢ fresh → h.key p ≡ s0.heap.key p
    pub low : (l : ℕ) → l < k → Spliced s0.heap h fresh y key l
    pub high : (l : ℕ) (p : Ptr) → k ≤ l → p ≢ fresh → h.next p l ≡ s0.heap.next p l
    pub new_key : h.key fresh ≡ some key
    pub room : (l : ℕ) → l < 5 → (r : Ptr) × (h.next fresh l ≡ some r)

  ne : fresh ≢ y
  ne = fresh-ne-place compare law key s0 xs ok fresh raw unused

  new_node-Partial : Partial (new_node fresh raw s0.heap key 5) 0
  unfolding new_node
  new_node-Partial = record {
    old_key = λ p np. ground arith;
    low = λ l hl. absurd (omega arith);
    high = λ l p hl np. ground arith;
    new_key = ground arith;
    room = λ l hl. (raw l, ground arith);
  }

  -- the store to the new node
  stored-Partial : (h : Heap K) (k q : ℕ) → Partial h k → k < 5 → Partial (stored h fresh k q) k
  stored-Partial h k q part hk = record {
    old_key = part.old_key;
    low = λ l hl. record {
      new_next = let e = (part.low l hl).new_next in ground arith;
      place_next = let e = (part.low l hl).place_next in ground (arith, ne);
      other_next = λ p nx ny. let e = (part.low l hl).other_next p nx ny in ground arith;
      new_key = part.new_key;
      other_key = part.old_key;
    };
    high = λ l p hl np. let e = part.high l p hl np in ground arith;
    new_key = part.new_key;
    room = λ l hl.
        let (r, e) = part.room l hl in
        elim (Bool-cases (l == k)) [ inl same ↦ (q, ground arith) | inr other ↦ (r, ground arith) ];
  }

  -- the store that makes the new node visible on a level
  published-Partial :
      (h : Heap K) (k : ℕ)
      → Partial h k
      → k < 5
      → h.next fresh k ≡ s0.heap.next y k
      → Partial (stored h y k fresh) (k + 1)
  published-Partial h k part hk filled = record {
    old_key = part.old_key;
    low = λ l hl. elim (Bool-cases (l == k)) [
      | inl same ↦
          let e : l ≡ k = ground arith in
          rw e (record {
            new_next = ground (arith, ne, filled);
            place_next = ground arith;
            other_next = λ p nx ny. let e = part.high k p (omega arith) nx in ground arith;
            new_key = part.new_key;
            other_key = part.old_key;
          })
      | inr other ↦
          let below : l < k = ground arith in
          record {
            new_next = let e = (part.low l below).new_next in ground (arith, ne);
            place_next = let e = (part.low l below).place_next in ground arith;
            other_next = λ p nx ny. let e = (part.low l below).other_next p nx ny in ground arith;
            new_key = part.new_key;
            other_key = part.old_key;
          }
    ];
    high = λ l p hl np. let e = part.high l p (omega arith) np in ground arith;
    new_key = part.new_key;
    room = λ l hl. let (r, e) = part.room l hl in (r, ground (arith, ne));
  }

  -- what the writer has done so far
  abbrev pub Written : SkipList K → Pc → Type 0
  Written s raise = s.heap ≡ s0.heap
  Written s make = s.heap ≡ s0.heap
  Written s (fill k) = (k ≤ 5) × Partial s.heap k
  Written s (publish k) = (k < 5) × Partial s.heap k × (s.heap.next fresh k ≡ s0.heap.next y k)

  abbrev Raised : SkipList K → Pc → Type 0
  Raised s raise = (s.max_height ≡ 5) ⊎ ((s.max_height ≡ 1) × (xs ≡ []))
  Raised s make = s.max_height ≡ 5
  Raised s (fill k) = s.max_height ≡ 5
  Raised s (publish k) = s.max_height ≡ 5

  pub record IsWritten (s : SkipList K) (pc : Pc) : Type 0 where
    pub head : s.head ≡ s0.head
    pub height : Raised s pc
    pub written : Written s pc

  pub start-IsWritten : IsWritten s0 raise
  start-IsWritten = record { head = refl; height = ok.height; written = refl }

  raised :
      (s : SkipList K)
      → IsWritten s raise
      → IsWritten (if ltb s.max_height 5 then record s { max_height = 5 } else s) make
  raised s is = elim (Bool-cases (ltb s.max_height 5)) [
    | inl low ↦ rw low (record { head = is.head; height = refl; written = is.written })
    | inr high ↦
        rw high
          (record { head = is.head; height = ground (arith, is.height); written = is.written })
  ]

  pub IsWritten-height :
      (s : SkipList K) (pc : Pc) → IsWritten s pc → (s.max_height ≤ 5) × (0 < s.max_height)
  IsWritten-height s raise is = (omega (arith, is.height), omega (arith, is.height))
  IsWritten-height s make is = (omega (arith, is.height), omega (arith, is.height))
  IsWritten-height s (fill k) is = (omega (arith, is.height), omega (arith, is.height))
  IsWritten-height s (publish k) is = (omega (arith, is.height), omega (arith, is.height))

  module _ (prev : List Ptr) (holds : Holds prev 5 y) where
    -- the step of a writer, with what it leads to
    abbrev pub Moves : SkipList K → Pc → Type 0
    Moves s pc =
        (s' : SkipList K) × (pc' : Pc) × (writer_step fresh raw prev key s pc ≡ some (s', pc'))
        × IsWritten s' pc'
        × (linked pc ≤ linked pc')

    pub moves : (s : SkipList K) (pc : Pc) → IsWritten s pc → Moves s pc ⊎ (pc ≡ fill 5)
    unfolding writer_step
    moves s raise is = inl (
      if ltb s.max_height 5 then record s { max_height = 5 } else s,
      make,
      refl,
      raised s is,
      omega arith,
    )
    moves s make is = inl (
      record s { heap = new_node fresh raw s.heap key 5 },
      fill 0,
      refl,
      record {
        head = is.head;
        height = is.height;
        written = (omega arith, rw (is.written) new_node-Partial);
      },
      omega arith,
    )
    moves s (fill k) is = elim (Bool-cases (ltb k 5)) [
      | inr done ↦ inr (ap fill (ground (arith, is.written.0)))
      | inl go ↦
          let hk : k < 5 = ground arith in
          let part = is.written.1 in
          let (r, er) = part.room k hk in
          let at_place = part.high k y (omega arith) (λ e. ne (sym e)) in
          let q = found compare s0 xs ok key in
          let eq = at_place ∙ next-place compare s0 xs ok key k hk in
          inl (
            record s { heap = stored s.heap fresh k q },
            publish k,
            rw (go, holds k hk)
                (rw (eq, ◌>>=◌) (rw (set_next-stored s.heap fresh k q r er, ◌>>=◌) refl)),
            record {
              head = is.head;
              height = is.height;
              written = (
                hk,
                stored-Partial s.heap k q part hk,
                ground (arith, next-place compare s0 xs ok key k hk),
              );
            },
            omega arith,
          )
    ]
    moves s (publish k) is =
        let (hk, part, filled) = is.written in
        let eq =
          part.high k y (omega arith) (λ e. ne (sym e)) ∙ next-place compare s0 xs ok key k hk in
        inl (
          record s { heap = stored s.heap y k fresh },
          fill (k + 1),
          rw (holds k hk, ◌>>=◌) (rw (set_next-stored s.heap y k fresh _ eq, ◌>>=◌) refl),
          record {
            head = is.head;
            height = is.height;
            written = (omega arith, published-Partial s.heap k part hk filled);
          },
          omega arith,
        )

  -- what a reader finds on a level when the new node is linked in on `k` levels
  abbrev pub cells : ℕ → ℕ → Cells K
  cells k l = if ltb l k then inserted compare law key s0 xs ok fresh else xs

  framed :
      (h : Heap K) (l : ℕ) (p : Ptr) (ys : Cells K)
      → ((a : Ptr) → a ≢ fresh → h.next a l ≡ s0.heap.next a l)
      → ((a : Ptr) → a ≢ fresh → h.key a ≡ s0.heap.key a)
      → has fresh ys ≡ false
      → Chain s0.heap l p ys
      → Chain h l p ys
  framed h l p [] nexts keys apart c = c
  framed h l p ((a, k) ∷ ys) nexts keys apart (e, na, ek, q, en, c) =
      let np : a ≢ fresh = ground arith in
      (e, na, keys a np ∙ ek, q, nexts a np ∙ en, framed h l q ys nexts keys (ground arith) c)

  abbrev Shown : Heap K → ℕ → ℕ → Type 0
  Shown h k l = (p : Ptr) × (h.next s0.head l ≡ some p) × Chain h l p (cells k l)

  Partial-Shown : (h : Heap K) (k l : ℕ) → l < 5 → Partial h k → Shown h k l
  Partial-Shown h k l hl part =
      let (p, n, c) = ok.levels l hl in
      let apart = fresh_apart compare law key s0 xs ok fresh raw unused l p xs c in
      let parts = before-append-from compare key xs in
      let nh = fresh-ne-head compare law key s0 xs ok fresh raw unused in
      elim (Bool-cases (ltb l k)) [
        | inl low ↦ rw low (
            Chain-splice (before compare key xs) (from compare key xs) s0.head p
              (part.low l (ground arith)) unused.not_null n (rw parts c) (rw parts ok.distinct)
              (rw parts ok.apart) (rw parts apart) nh)
        | inr high ↦ rw high (
            let le : k ≤ l = ground arith in
            (
              p,
              part.high l s0.head le (λ e. nh (sym e)) ∙ n,
              framed h l p xs (λ a. part.high l a le) part.old_key apart c,
            ))
      ]

  untouched : (h : Heap K) (l : ℕ) → l < 5 → h ≡ s0.heap → Shown h 0 l
  untouched h l hl e =
      let none_low : ltb l 0 ≡ false = ground arith in rw e (rw none_low (ok.levels l hl))

  -- On every level a reader finds the old nodes, or the old ones with the new one in its place.
  pub IsWritten-Shown :
      (s : SkipList K) (pc : Pc) (l : ℕ) → IsWritten s pc → l < 5 → Shown s.heap (linked pc) l
  IsWritten-Shown s raise l is hl = untouched s.heap l hl is.written
  IsWritten-Shown s make l is hl = untouched s.heap l hl is.written
  IsWritten-Shown s (fill k) l is hl = Partial-Shown s.heap k l hl is.written.1
  IsWritten-Shown s (publish k) l is hl = Partial-Shown s.heap k l hl is.written.1

  -- The keys of the nodes that are linked in are there.
  pub IsWritten-old_key :
      (s : SkipList K) (pc : Pc) (a : Ptr)
      → IsWritten s pc
      → a ≢ fresh
      → s.heap.key a ≡ s0.heap.key a
  IsWritten-old_key s raise a is na = rw (is.written) refl
  IsWritten-old_key s make a is na = rw (is.written) refl
  IsWritten-old_key s (fill k) a is na = is.written.1.old_key a na
  IsWritten-old_key s (publish k) a is na = is.written.1.old_key a na

  -- The list that the writer leaves is well formed.
  pub finished-IsSkipList :
      (s : SkipList K)
      → member compare key xs ≡ false
      → IsWritten s (fill 5)
      → IsSkipList compare s (inserted compare law key s0 xs ok fresh)
  finished-IsSkipList s m is =
      let (sorted, distinct, apart) = inserted_lem compare law key s0 xs ok fresh raw unused m in
      record {
        levels = λ l hl.
            let (p, n, c) = Partial-Shown s.heap 5 l hl is.written.1 in
            let low : ltb l 5 ≡ true = ground arith in (p, rw is.head n, rw low at c);
        sorted = sorted;
        distinct = distinct;
        apart = rw is.head apart;
        height = inl is.height;
      }
