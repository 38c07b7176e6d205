-- ===== src/Block/Corrupt.antt =====
-- `ParseNextKey` of db/Block.cpp on arbitrary bytes.
use releveldb.Base.{
  ℕ, ◌+◌, ◌-◌, ◌^◌, ◌≤◌, ◌<◌, ◌≡◌, ◌⊎◌, inl, inr, refl, arith, ap, List, [], ◌++◌, none, some,
  ◌>>=◌, Bool, true, false, ltb, leb, Bool-cases, Option-cases, length, length-take, length-drop,
  take, drop, codes,
}
use releveldb.Slice.{empty_slice}
use releveldb.Status.{k_corruption, is_code}
use releveldb.Status.Message.{corruption_lem}
use releveldb.Block.{Entry, decode_entry}
use releveldb.Block.Iter.{
  Iter, upto_limit, read_bytes, next_entry_offset, corruption_error, take_entry, parse_next_key,
  valid, key_of, value_of,
}
use releveldb.Block.Parse.{HasRestarts}
use releveldb.Block.Restarts.{advance_loop_total}
use releveldb.Block.Bounds.{decode_entry_bounds}

-- The message of a corrupt entry.
pub corrupted :
    (it : Iter)
    → (it' : Iter) × (corruption_error it ≡ some it')
      × (valid it' ≡ false)
      × (is_code k_corruption it'.status ≡ some true)
unfolding corruption_error valid
corrupted it =
    let (s, e, code) = corruption_lem (codes "bad entry in block") empty_slice (omega arith) in
    (
      record it {
        current = it.restarts;
        restart_index = it.num_restarts;
        status = s;
        key = [];
        value = none;
      },
      rw (e, ◌>>=◌) refl,
      ground arith,
      code,
    )

module _ (little : Bool) (it : Iter) (offset : ℕ) where
  -- the end of the entries
  abbrev pub AtEnd : Type 0
  AtEnd =
      (it' : Iter) × (parse_next_key little it ≡ some (false, it'))
      × (it.restarts ≤ offset)
      × (valid it' ≡ false)
      × (it'.status ≡ it.status)

  -- Bytes that are no entry: their lengths cannot be read or the entry does not fit, or it shares
  -- more bytes than the key before it has.
  abbrev pub IsNoEntry : Type 0
  IsNoEntry =
      (decode_entry (upto_limit it offset) ≡ none)
      ⊎ ((e : Entry) × (decode_entry (upto_limit it offset) ≡ some e) × (length it.key < e.shared))

  abbrev pub IsCorrupt : Type 0
  IsCorrupt =
      (it' : Iter) × (parse_next_key little it ≡ some (false, it'))
      × (offset < it.restarts)
      × IsNoEntry
      × (valid it' ≡ false)
      × (is_code k_corruption it'.status ≡ some true)

  -- an entry: its key and value are there, and what comes next lies further on
  abbrev pub IsEntry : Type 0
  IsEntry =
      (it' : Iter) × (value : List ℕ) × (parse_next_key little it ≡ some (true, it'))
      × (key_of it' ≡ some it'.key)
      × (value_of it' ≡ some value)
      × ((n : ℕ) × (next_entry_offset it' ≡ some n) × (offset < n) × (n ≤ it.restarts))
      × HasRestarts it'
      × (it'.restarts ≡ it.restarts)
      × (it'.contents ≡ it.contents)
      × (it'.status ≡ it.status)

  abbrev pub Wraps : Type 0
  Wraps =
      (e : Entry) × (decode_entry (upto_limit it offset) ≡ some e)
      × (2 ^ 32 ≤ e.non_shared + e.value_length)

module _ (little : Bool) (it : Iter) (offset : ℕ) (at : next_entry_offset it ≡ some offset)
    (whole : HasRestarts it) where
  ends : leb it.restarts offset ≡ true → AtEnd little it offset
  unfolding parse_next_key valid
  ends past = (
    record it { current = it.restarts; restart_index = it.num_restarts },
    rw (at, past) refl,
    ground arith,
    ground arith,
    refl,
  )

  corrupts :
      leb it.restarts offset ≡ false
      → decode_entry (upto_limit it offset) ≡ none
      → IsCorrupt little it offset
  unfolding parse_next_key
  corrupts inside fails =
      let (it', ran, v, c) = corrupted (record it { current = offset }) in
      (it', rw (at, inside, fails) (rw (ran, ◌>>=◌) refl), ground arith, inl fails, v, c)

  too_long :
      leb it.restarts offset ≡ false
      → (e : Entry) → decode_entry (upto_limit it offset) ≡ some e
      → ltb (length it.key) e.shared ≡ true
      → IsCorrupt little it offset
  unfolding parse_next_key
  too_long inside e decoded shares =
      let (it', ran, v, c) = corrupted (record it { current = offset }) in
      (
        it',
        rw (at, inside, decoded, shares) (rw (ran, ◌>>=◌) refl),
        ground arith,
        inr (e, decoded, ground arith),
        v,
        c,
      )

  module _ (e : Entry) (decoded : decode_entry (upto_limit it offset) ≡ some e)
      (fits : e.non_shared + e.value_length < 2 ^ 32) where
    left : length e.rest + 3 ≤ it.restarts - offset
    left = omega (
      arith,
      (decode_entry_bounds (upto_limit it offset) e decoded).0,
      length-take it.restarts it.contents,
      length-drop offset (take it.restarts it.contents),
      whole.array,
    )

    room : e.non_shared + e.value_length ≤ length e.rest
    room = omega (
      arith,
      (decode_entry_bounds (upto_limit it offset) e decoded).1,
      left,
      fits,
      whole.array,
      whole.small,
    )

    read :
        (p n : ℕ)
        → p + n ≤ it.restarts
        → (bytes : List ℕ) × (read_bytes it.contents p n ≡ some bytes)
    unfolding read_bytes
    read p n h =
        let inside : leb (p + n) (length it.contents) ≡ true = ground (arith, whole.array) in
        (take n (drop p it.contents), rw inside refl)

    entry :
        leb it.restarts offset ≡ false
        → ltb (length it.key) e.shared ≡ false
        → IsEntry little it offset
    unfolding parse_next_key take_entry
    entry inside shares =
        let p = it.restarts - length e.rest in
        let (delta, ed) = read p e.non_shared (omega (arith, room, left)) in
        let (value, ev) = read (p + e.non_shared) e.value_length (omega (arith, room, left)) in
        let (r, run, _, le) =
          advance_loop_total little (it.num_restarts + 1) (record it { current = offset })
            it.restart_index whole.array (omega (arith, whole.array, whole.small)) whole.index
            (omega (arith, whole.index)) in
        let there : ltb offset it.restarts ≡ true = ground arith in
        (
          record it {
            current = offset;
            key = take e.shared it.key ++ delta;
            value = some (p + e.non_shared, e.value_length);
            restart_index = r;
          },
          value,
          rw (at, inside, decoded, shares) (rw (ed, run) refl),
          (unfold key_of valid in rw there refl),
          (unfold value_of valid in rw there ev),
          (
            p + e.non_shared + e.value_length,
            (unfold next_entry_offset in
                ap some (omega (arith, room, left, whole.array, whole.small))),
            omega (arith, room, left),
            omega (arith, room, left),
          ),
          record { array = whole.array; small = whole.small; index = le },
          refl,
          refl,
          refl,
        )

  -- On any bytes before the restart array, and whatever the restart points say, `ParseNextKey` does
  -- one of three things, unless it reads lengths of a key and a value whose sum is 2^32 or more: at
  -- the end of the entries it returns false and leaves the status; on bytes that are no entry it
  -- returns false with a corruption status; or it returns true at an entry whose key and value are
  -- inside the block and whose end, where the next call goes on, lies behind its start. After false
  -- the iterator is not valid.
  pub parse_next_key_total :
      (AtEnd little it offset)
      ⊎ ((IsCorrupt little it offset) ⊎ ((IsEntry little it offset) ⊎ (Wraps little it offset)))
  parse_next_key_total = elim (Bool-cases (leb it.restarts offset)) [
    | inl past ↦ inl (ends past)
    | inr inside ↦ elim (Option-cases (decode_entry (upto_limit it offset))) [
      | inl fails ↦ inr (inl (corrupts inside fails))
      | inr (e, decoded) ↦ elim (Bool-cases (ltb (length it.key) e.shared)) [
        | inl shares ↦ inr (inl (too_long inside e decoded shares))
        | inr shares ↦ elim (Bool-cases (ltb (e.non_shared + e.value_length) (2 ^ 32))) [
          | inl fits ↦ inr (inr (inl (entry e decoded (ground arith) inside shares)))
          | inr wraps ↦ inr (inr (inr (e, decoded, ground arith)))
        ]
      ]
    ]
  ]
