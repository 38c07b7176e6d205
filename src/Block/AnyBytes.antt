-- ===== src/Block/AnyBytes.antt =====
-- `Block::Iter::Seek` on arbitrary bytes.
use releveldb.Base.{
  ℕ, ◌+◌, ◌-◌, ◌*◌, ◌%◌, ◌^◌, ◌≤◌, ◌<◌, ◌≡◌, ◌⊎◌, inl, inr, refl, arith, [], some, ◌>>=◌, Bool,
  true, false, Ordering, length,
}
use releveldb.Slice.{Slice}
use releveldb.Comparator.{Comparator}
use releveldb.Status.{is_code, k_corruption}
use releveldb.Block.Iter.{
  Iter, next_entry_offset, get_restart_point, seek_to_restart_point, seek, valid,
}
use releveldb.Block.Corrupt.{corrupted}
use releveldb.Block.Halves.{IsBadPoint, PointSays, point, search_loop_total}
use releveldb.Block.Stops.{HasStopped, WrapsSomewhere, scan_loop_total}

module _ (little : Bool) (comparator : Comparator) (target : Slice) (it : Iter) where
  -- where `SeekToRestartPoint` puts the iterator
  abbrev pub at_point : ℕ → ℕ → Iter
  at_point i offset = record it { key = []; restart_index = i; value = some (offset, 0) }

  -- Where `Seek` ends: with a corruption status at a restart point without a whole key, or where the
  -- linear search stops from a restart point whose key is below the target, or the first one, while
  -- the key of the next one is not, or there is no next one.
  abbrev pub HasSought : Iter → Type 0
  HasSought it' =
      ((i : ℕ) × (i < it.num_restarts)
        × IsBadPoint little it i
        × (valid it' ≡ false)
        × (is_code k_corruption it'.status ≡ some true))
      ⊎ ((l offset : ℕ) × (l < it.num_restarts)
          × (get_restart_point little it l ≡ some offset)
          × ((l ≡ 0) ⊎ PointSays little comparator target it true l)
          × ((l ≡ it.num_restarts - 1) ⊎ PointSays little comparator target it false (l + 1))
          × HasStopped little comparator target (at_point l offset) it')

  module _ (total : (a b : Slice) → (o : Ordering) × (comparator.compare a b ≡ some o))
      (array : it.restarts + it.num_restarts * 4 ≤ length it.contents)
      (small : length it.contents < 2 ^ 32) where
    -- On any bytes before a restart array of one restart point or more that lies in a block of less
    -- than 2^32 bytes, `Seek` with a comparator that always answers ends, with a round for each byte
    -- and each restart point and one more, unless there is an entry among the bytes whose lengths
    -- wrap. Either it ends at a restart point where no entry can be read or where the entry shares
    -- bytes with a key before it: then the status is a corruption and the iterator is not valid. Or
    -- the binary search finds a restart point that is the first or whose key is below the target, and
    -- that is the last or is followed by one whose key is not; from there the search passes entries
    -- whose keys are below the target, and then stops in one of three ways: behind the last entry,
    -- not valid and with the status left as it was; at bytes that are no entry, not valid and with a
    -- corruption status; or at an entry whose key is not below the target, with its key and value
    -- inside the block and the status left as it was.
    pub seek_total :
        (fuel : ℕ)
        → 0 < it.num_restarts
        → it.num_restarts ≤ fuel
        → it.restarts < fuel
        → ((it' : Iter) × (seek little comparator fuel it target ≡ some it') × HasSought it')
          ⊎ WrapsSomewhere little it
    unfolding seek seek_to_restart_point
    seek_total fuel some_restart rounds enough =
        elim (search_loop_total little comparator target it total array small fuel 0
          (it.num_restarts - 1) (omega arith) (omega (arith, some_restart))
          (omega (arith, rounds, some_restart))) [
            | inr wraps ↦ inr wraps
            | inl (inl (corrupt, (i, lt, bad))) ↦
                let (it', ran, invalid, code) = corrupted it in
                inl (it', rw (corrupt, ◌>>=◌) ran, inl (i, lt, bad, invalid, code))
            | inl (inr (l, found, lt, low, high)) ↦
                let (offset, at) = point little comparator target it total array small l lt in
                elim (scan_loop_total little comparator target total fuel (at_point l offset)
                  ((offset + 0) % 2 ^ 32) (unfold next_entry_offset in refl)
                  (record { array = array; small = small; index = omega (arith, lt) })
                  (omega (arith, enough))) [
                    | inl (it', ran, stopped) ↦ inl (
                      it',
                      rw (found, ◌>>=◌) (rw (at, ◌>>=◌) ran),
                      inr (l, offset, lt, at, low, high, stopped),
                    )
                    | inr wraps ↦ inr wraps
                  ]
          ]
