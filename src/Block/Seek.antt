-- ===== src/Block/Seek.antt =====
-- `Block::Iter::Seek` on a block of sorted entries.
use releveldb.Base.{
  ℕ, ◌+◌, ◌-◌, ◌*◌, ◌^◌, ◌≤◌, ◌<◌, ◌≡◌, refl, arith, ap, sym, subst, List, [], ◌∷◌, ◌++◌, some,
  ◌>>=◌, Bool, length, length-append, Ordering,
}
use releveldb.Slice.{Slice}
use releveldb.Comparator.{Comparator}
use releveldb.Comparator.Laws.{Orders}
use releveldb.Block.Iter.{Iter, next_entry_offset, seek_to_restart_point, seek, scan_loop}
use releveldb.Block.Parse.{HasRestarts}
use releveldb.Block.Layout.{KeyValue, AllKeys, AllKeys-append, Holds}
use releveldb.Block.Scan.{AllBelow, IsFirst, IsFirst-cons, scan_loop-IsFirst}
use releveldb.Block.Search.{search_loop-IsLeft}
use releveldb.Block.Sorted.{PointAt, IsSorted}

-- The iterator is over a block that holds these entries, sorted, with its restart array behind them
-- and each restart point at an entry.
pub record IsBlock (little : Bool) (P : Slice → Type 0) (ord : Slice → Slice → Ordering) (it : Iter)
    (entries : List KeyValue) : Type 0 where
  pub array : it.restarts + it.num_restarts * 4 ≤ length it.contents
  pub small : length it.contents < 2 ^ 32
  pub some_restart : 0 < it.num_restarts
  pub sorted : IsSorted ord entries
  pub keys : AllKeys P entries
  pub points : (i : ℕ) → i < it.num_restarts → PointAt little it entries i

IsFirst-append :
    (ord : Slice → Slice → Ordering) (target : Slice) (pre post : List KeyValue) (it : Iter)
    → AllBelow ord target pre
    → IsFirst ord target post it
    → IsFirst ord target (pre ++ post) it
IsFirst-append ord target [] post it all first = first
IsFirst-append ord target (e ∷ pre) post it (b, all) first =
    IsFirst-cons ord target e (pre ++ post) it b (IsFirst-append ord target pre post it all first)

Holds-le :
    (contents : List ℕ) (restarts offset : ℕ) (before : List ℕ) (es : List KeyValue)
    → Holds contents restarts offset before es
    → offset ≤ restarts
Holds-le contents restarts offset before [] h = omega (arith, h)
Holds-le contents restarts offset before (e ∷ es) (entry, h) = omega (arith, entry.at, entry.inside)

module _ (little : Bool) (comparator : Comparator) (P : Slice → Type 0)
    (ord : Slice → Slice → Ordering) (law : Orders comparator P ord) (target : Slice)
    (P_target : P target) (it : Iter) (entries : List KeyValue)
    (block : IsBlock little P ord it entries) where
  abbrev at_point : ℕ → ℕ → Iter
  at_point i offset = record it { key = []; restart_index = i; value = some (offset, 0) }

  -- the linear search from a restart point
  scan_from :
      (i fuel : ℕ) (at : PointAt little it entries i)
      → i < it.num_restarts
      → length entries < fuel
      → AllBelow ord target at.pre
      → (it' : Iter) × (scan_loop little comparator fuel (at_point i at.offset) target ≡ some it')
        × (it'.status ≡ it.status)
        × IsFirst ord target entries it'
  scan_from i fuel at ok enough below =
      let (it', ran, status, first) =
        scan_loop-IsFirst little comparator P ord law target P_target at.post (at_point i at.offset)
          at.offset fuel here whole at.holds
          (AllKeys-append P at.pre at.post (subst (AllKeys P) at.split block.keys)).1
          (omega (arith, enough, ap length at.split, length-append at.pre at.post)) in
      (
        it',
        ran,
        status,
        subst (λ es. IsFirst ord target es it') (sym at.split)
            (IsFirst-append ord target at.pre at.post it' below first),
      )
    where
      here : next_entry_offset (at_point i at.offset) ≡ some at.offset
      here =
          unfold next_entry_offset in
          ap some (
            omega (
              arith,
              Holds-le it.contents it.restarts at.offset [] at.post at.holds,
              block.array,
              block.small,
            ))

      whole : HasRestarts (at_point i at.offset)
      whole = record { array = block.array; small = block.small; index = omega (arith, ok) }

  -- In a block of entries that are sorted by an order that the comparator answers by on their keys
  -- and the target, `Seek` ends, with a round for each restart point and one for each entry and
  -- one more: at the first entry whose key is not below the target, with its key and its value, or
  -- behind the last entry if every key is below. It leaves the status as it was.
  pub seek-IsFirst :
      (fuel : ℕ)
      → it.num_restarts ≤ fuel
      → length entries < fuel
      → (it' : Iter) × (seek little comparator fuel it target ≡ some it')
        × (it'.status ≡ it.status)
        × IsFirst ord target entries it'
  unfolding seek seek_to_restart_point
  seek-IsFirst fuel rounds enough =
      let (l, ok, searched, left_of) =
        search_loop-IsLeft little comparator P ord law target P_target it block.array block.small
          entries block.sorted block.keys block.points fuel 0 (it.num_restarts - 1)
          block.some_restart (omega arith) (omega (arith, block.some_restart))
          (omega (arith, rounds, block.some_restart))
          (subst (AllBelow ord target) (sym ((block.points 0 block.some_restart).first refl)) tt) in
      let (it', scanned, status, first) = scan_from l fuel (block.points l ok) ok enough left_of in
      (it', rw (searched, ◌>>=◌) (rw ((block.points l ok).point, ◌>>=◌) scanned), status, first)
