-- ===== src/Block/Parse.antt =====
-- `ParseNextKey` on a block that holds a well-formed entry.
use releveldb.Base.{
  ℕ, ◌+◌, ◌-◌, ◌*◌, ◌^◌, ◌≤◌, ◌<◌, ◌≡◌, refl, arith, ap, sym, ◌∙◌, List, ◌++◌, append_assoc, some,
  Bool, true, false, ltb, leb, lt→ltb, length, length-append, length-take, take, drop, drop-append,
  take-append, take-append_add,
}
use releveldb.Block.{decode_entry}
use releveldb.Block.Iter.{
  Iter, upto_limit, read_bytes, next_entry_offset, take_entry, advance_loop, parse_next_key, valid,
  key_of, value_of,
}
use releveldb.Block.Decode.{lengths_bytes, decode_entry-lengths_bytes, lengths_bytes-pos}
use releveldb.Block.Restarts.{advance_loop_total}

-- The entry at the offset `length front`: its lengths, the rest of its key, and its value.
pub record HasEntry (it : Iter) (front : List ℕ) (shared : ℕ) (delta value back : List ℕ)
    : Type 0 where
  pub at : next_entry_offset it ≡ some (length front)
  pub bytes :
      it.contents
      ≡ front ++ (lengths_bytes shared (length delta) (length value) ++ (delta ++ (value ++ back)))
  pub inside :
      length front
        + (length (lengths_bytes shared (length delta) (length value))
            + (length delta + length value))
      ≤ it.restarts
  pub shares : shared ≤ length it.key
  pub short : shared < 2 ^ 32

-- The restart array behind the entries lies in the block, whose size is a uint32_t.
pub record HasRestarts (it : Iter) : Type 0 where
  pub array : it.restarts + it.num_restarts * 4 ≤ length it.contents
  pub small : length it.contents < 2 ^ 32
  pub index : it.restart_index ≤ it.num_restarts

read-middle :
    (front mid back : List ℕ)
    → read_bytes (front ++ (mid ++ back)) (length front) (length mid) ≡ some mid
unfolding read_bytes
read-middle front mid back = rw (drop-append front (mid ++ back) (length front) refl) (
    rw (take-append mid back (length mid) refl)
      (ground (arith, length-append front (mid ++ back), length-append mid back)))

read_at :
    (contents front mid back : List ℕ) (n : ℕ)
    → contents ≡ front ++ (mid ++ back)
    → n ≡ length front
    → read_bytes contents n (length mid) ≡ some mid
read_at contents front mid back n e h = rw (e, h) (read-middle front mid back)

upto-entry :
    (front head tail : List ℕ) (restarts : ℕ)
    → length front + length head ≤ restarts
    → drop (length front) (take restarts (front ++ (head ++ tail)))
      ≡ head ++ take (restarts - (length front + length head)) tail
upto-entry front head tail restarts h =
    rw (take-append_add front (head ++ tail) restarts (restarts - length front) (omega arith)) (
      drop-append front _ (length front) refl
      ∙ take-append_add head tail (restarts - length front)
          (restarts - (length front + length head)) (omega arith))

module _ (little : Bool) (it : Iter) (front : List ℕ) (shared : ℕ) (delta value back : List ℕ)
    (entry : HasEntry it front shared delta value back) (whole : HasRestarts it) where
  head : List ℕ
  head = lengths_bytes shared (length delta) (length value)

  tail : List ℕ
  tail = delta ++ (value ++ back)

  past : ℕ
  past = length front + length head

  rest : List ℕ
  rest = take (it.restarts - past) tail

  length-contents : length it.contents ≡ past + length tail
  unfolding past head tail
  length-contents =
      ap length entry.bytes
      ∙ omega (arith, length-append front (head ++ tail), length-append head tail)

  inside_limit : past + (length delta + length value) ≤ it.restarts
  unfolding past head
  inside_limit = omega (arith, entry.inside)

  length-rest : length rest + past ≡ it.restarts
  unfolding rest
  length-rest =
      omega
        (arith, length-take (it.restarts - past) tail, length-contents, whole.array, inside_limit)

  enough : length delta + length value ≤ length rest
  enough = omega (arith, length-rest, inside_limit)

  decoded :
      decode_entry (upto_limit it (length front))
      ≡ some (record {
        shared = shared;
        non_shared = length delta;
        value_length = length value;
        rest = rest;
      })
  decoded =
      ap decode_entry front_cut
      ∙ (unfold head in
          decode_entry-lengths_bytes shared (length delta) (length value) rest entry.short enough
            (omega (arith, length-rest, whole.small, whole.array)))
    where
      front_cut : upto_limit it (length front) ≡ head ++ rest
      front_cut = rw entry.bytes (
          unfold rest tail past head in
          upto-entry front head tail it.restarts (omega (arith, inside_limit)))

  past-length : past ≡ length front + length head
  unfolding past
  past-length = refl

  behind_lengths : it.restarts - length rest ≡ past
  behind_lengths = omega (arith, length-rest)

  delta_read : read_bytes it.contents past (length delta) ≡ some delta
  delta_read =
      read_at it.contents (front ++ head) delta (value ++ back) past
        (unfold head in (entry.bytes ∙ sym (append_assoc front _ _)))
        (omega (arith, length-append front head, past-length))

  value_read : read_bytes it.contents (past + length delta) (length value) ≡ some value
  value_read =
      read_at it.contents ((front ++ head) ++ delta) value back _
        (unfold head in
          (entry.bytes ∙ sym (append_assoc front _ _) ∙ sym (append_assoc (front ++ _) delta _)))
        (omega (arith, length-append (front ++ head) delta, length-append front head, past-length))

  in_front : length front < it.restarts
  in_front = omega (arith, entry.inside, lengths_bytes-pos shared (length delta) (length value))

  -- the iterator at the entry
  after : ℕ → Iter
  after r = record it {
    current = length front;
    key = take shared it.key ++ delta;
    value = some (past + length delta, length value);
    restart_index = r;
  }

  parsed :
      (r : ℕ)
      → advance_loop little
          (it.num_restarts + 1)
          (record it { current = length front })
          it.restart_index
        ≡ some r
      → parse_next_key little it ≡ some (true, after r)
  unfolding parse_next_key take_entry after
  parsed r run =
      let going : leb it.restarts (length front) ≡ false = ground (arith, in_front) in
      let shares : ltb (length it.key) shared ≡ false = ground (arith, entry.shares) in
      rw (entry.at, going, decoded, shares) (rw behind_lengths (rw (delta_read, run) refl))

  at_entry :
      (r : ℕ)
      → (key_of (after r) ≡ some (take shared it.key ++ delta))
        × (value_of (after r) ≡ some value)
        × (next_entry_offset (after r) ≡ some (past + length delta + length value))
  unfolding after key_of value_of valid next_entry_offset
  at_entry r =
      let there : ltb (length front) it.restarts ≡ true = lt→ltb _ _ in_front in
      (
        rw there refl,
        rw there value_read,
        ap some (omega (arith, inside_limit, whole.array, whole.small)),
      )

  -- On an entry that lies between the iterator's position and the restart array, `ParseNextKey`
  -- returns true; the key is then the shared part of the old key with the entry's own part behind
  -- it, the value is the entry's value, and the next position is the end of the entry.
  pub parse_next_key-entry :
      (it' : Iter) × (parse_next_key little it ≡ some (true, it'))
      × (key_of it' ≡ some (take shared it.key ++ delta))
      × (value_of it' ≡ some value)
      × (next_entry_offset it'
          ≡ some (
              length front
              + length (lengths_bytes shared (length delta) (length value))
              + length delta
              + length value))
  parse_next_key-entry =
      let (r, run, _, _) =
        advance_loop_total little (it.num_restarts + 1) (record it { current = length front })
          it.restart_index whole.array (omega (arith, whole.array, whole.small)) whole.index
          (omega (arith, whole.index)) in
      let (k, v, n) = at_entry r in (after r, parsed r run, k, v, unfold past head in n)

  -- the same with what stays as it was
  pub parse_next_key-step :
      (it' : Iter) × (parse_next_key little it ≡ some (true, it'))
      × (it'.key ≡ take shared it.key ++ delta)
      × (key_of it' ≡ some (take shared it.key ++ delta))
      × (value_of it' ≡ some value)
      × (next_entry_offset it'
          ≡ some (
              length front
              + length (lengths_bytes shared (length delta) (length value))
              + length delta
              + length value))
      × (it'.status ≡ it.status)
      × (it'.contents ≡ it.contents)
      × (it'.restarts ≡ it.restarts)
      × HasRestarts it'
  unfolding after
  parse_next_key-step =
      let (r, run, _, le) =
        advance_loop_total little (it.num_restarts + 1) (record it { current = length front })
          it.restart_index whole.array (omega (arith, whole.array, whole.small)) whole.index
          (omega (arith, whole.index)) in
      let (k, v, n) = at_entry r in
      (
        after r,
        parsed r run,
        refl,
        k,
        v,
        (unfold past head in n),
        refl,
        refl,
        refl,
        record { array = whole.array; small = whole.small; index = le },
      )

  -- what the binary search reads of an entry
  pub entry_read :
      (rest : List ℕ) × (decode_entry (upto_limit it (length front))
        ≡ some (record {
          shared = shared;
          non_shared = length delta;
          value_length = length value;
          rest = rest;
        }))
      × (read_bytes it.contents (it.restarts - length rest) (length delta) ≡ some delta)
  entry_read = (rest, decoded, rw behind_lengths delta_read)
