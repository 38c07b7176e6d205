-- ===== src/Block/Iter.antt =====
-- `Block::Iter` of db/Block.cpp. `none` is a failed assertion, a read outside the block, a
-- difference of pointers into different objects, or fuel run out.
use releveldb.Base.{
  ℕ, ◌+◌, ◌-◌, ◌*◌, ◌/◌, ◌%◌, ◌^◌, List, [], ◌++◌, Option, none, some, ◌>>=◌, ◌>>◌, assert, Bool,
  true, false, ltb, leb, ◌==◌, if◌then◌else◌, length, take, drop, codes, zero, suc, not,
}
use releveldb.Slice.{Slice, empty_slice, is_lt}
use releveldb.Coding.{decode_fixed32}
use releveldb.Comparator.{Comparator}
use releveldb.Status.{Status, ok_status, corruption}
use releveldb.Block.{Entry, decode_entry}

-- `value_` is where it starts in `data_` and its size, or `none` for the empty literal of `Clear`.
pub record Iter : Type 0 where
  pub contents : List ℕ
  pub restarts : ℕ
  pub num_restarts : ℕ
  pub current : ℕ
  pub restart_index : ℕ
  pub key : List ℕ
  pub value : Option (ℕ × ℕ)
  pub status : Status

-- `current` and `restart_index` are not set by the constructor.
unfoldable pub new_iter : (current restart_index : ℕ) → List ℕ → ℕ → ℕ → Option Iter
new_iter current restart_index contents restarts num_restarts = do
  assert (ltb 0 num_restarts)
  some (record {
    contents = contents;
    restarts = restarts;
    num_restarts = num_restarts;
    current = current;
    restart_index = restart_index;
    key = [];
    value = none;
    status = ok_status;
  })

unfoldable pub valid : Iter → Bool
valid it = ltb it.current it.restarts

-- `Slice(data_ + offset, n)`, read
unfoldable pub read_bytes : List ℕ → ℕ → ℕ → Option (List ℕ)
read_bytes contents offset n = do
  assert (leb (offset + n) (length contents))
  some (take n (drop offset contents))

unfoldable pub key_of : Iter → Option Slice
unfolding valid
key_of it = do assert (valid it); some it.key

unfoldable pub value_of : Iter → Option Slice
unfolding valid read_bytes
value_of it = do
  assert (valid it)
  elim it.value [ none ↦ some empty_slice | some (offset, n) ↦ read_bytes it.contents offset n ]

-- the bytes between `data_ + offset` and `data_ + restarts_`
abbrev pub upto_limit : Iter → ℕ → List ℕ
upto_limit it offset = drop offset (take it.restarts it.contents)

unfoldable pub next_entry_offset : Iter → Option ℕ
next_entry_offset it = do (offset, n) ← it.value; some ((offset + n) % 2 ^ 32)

unfoldable pub corruption_error : Iter → Option Iter
corruption_error it = do
  status ← corruption (codes "bad entry in block") empty_slice
  some (record it {
    current = it.restarts;
    restart_index = it.num_restarts;
    status = status;
    key = [];
    value = none;
  })

module _ (little : Bool) where
  unfoldable pub get_restart_point : Iter → ℕ → Option ℕ
  get_restart_point it index = do
    assert (ltb index it.num_restarts)
    decode_fixed32 little (drop (it.restarts + index * 4) it.contents)

  unfoldable pub seek_to_restart_point : Iter → ℕ → Option Iter
  unfolding get_restart_point
  seek_to_restart_point it index = do
    offset ← get_restart_point it index
    some (record it { key = []; restart_index = index; value = some (offset, 0) })

  -- The while loop of `ParseNextKey`, with at most `num_restarts_` rounds.
  unfoldable pub advance_loop : ℕ → Iter → ℕ → Option ℕ
  unfolding get_restart_point
  advance_loop zero it restart_index = none
  advance_loop (suc fuel) it restart_index =
      let following = (restart_index + 1) % 2 ^ 32 in
      let more = advance_loop fuel it following in
      if ltb following it.num_restarts
      then (do
        point ← get_restart_point it following
        if ltb point it.current then more else some restart_index)
      else some restart_index

  -- the else branch, on a decoded entry
  unfoldable pub take_entry : Iter → Entry → Option Iter
  unfolding read_bytes advance_loop
  take_entry it e = do
    let p = it.restarts - length e.rest
    delta ← read_bytes it.contents p e.non_shared
    restart_index ← advance_loop (it.num_restarts + 1) it it.restart_index
    some (record it {
      key = take e.shared it.key ++ delta;
      value = some (p + e.non_shared, e.value_length);
      restart_index = restart_index;
    })

  unfoldable pub parse_next_key : Iter → Option (Bool × Iter)
  unfolding next_entry_offset corruption_error take_entry
  parse_next_key it = do
    current ← next_entry_offset it
    if leb it.restarts current
        then some (false, record it { current = it.restarts; restart_index = it.num_restarts })
        else elim (decode_entry (upto_limit it current)) [
          | none ↦ (do bad ← corruption_error (record it { current = current }); some (false, bad))
          | some e ↦
              if ltb (length it.key) e.shared
              then (do bad ← corruption_error (record it { current = current }); some (false, bad))
              else (do it' ← take_entry (record it { current = current }) e; some (true, it'))
        ]

  module _ (comparator : Comparator) where
    -- The binary search of `Seek`: the restart point to start at, or `none` for a corrupt entry.
    unfoldable pub search_loop : ℕ → Iter → Slice → ℕ → ℕ → Option (Option ℕ)
    unfolding get_restart_point read_bytes
    search_loop zero it target left right = none
    search_loop (suc fuel) it target left right =
        let mid = (left + right + 1) % 2 ^ 32 / 2 in
        let upper = search_loop fuel it target mid right in
        let lower = search_loop fuel it target left (mid - 1) in
        if ltb left right
        then (do
          region_offset ← get_restart_point it mid
          elim (decode_entry (upto_limit it region_offset)) [
            | none ↦ some none
            | some e ↦ if not (e.shared == 0) then some none else (do
              mid_key ← read_bytes it.contents (it.restarts - length e.rest) e.non_shared
              order ← comparator.compare mid_key target
              if is_lt order then upper else lower)
          ])
        else some (some left)

    -- The linear search of `Seek`.
    unfoldable pub scan_loop : ℕ → Iter → Slice → Option Iter
    unfolding parse_next_key
    scan_loop zero it target = none
    scan_loop (suc fuel) it target = do
      (more, it') ← parse_next_key it
      let onward = scan_loop fuel it' target
      if more
          then (do
            order ← comparator.compare it'.key target
            if is_lt order then onward else some it')
          else some it'

    unfoldable pub seek : ℕ → Iter → Slice → Option Iter
    unfolding search_loop scan_loop seek_to_restart_point corruption_error
    seek fuel it target = do
      found ← search_loop fuel it target 0 (it.num_restarts - 1)
      elim found [
        | none ↦ corruption_error it
        | some left ↦ (do it' ← seek_to_restart_point it left; scan_loop fuel it' target)
      ]
