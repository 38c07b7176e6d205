-- ===== src/Block/Search.antt =====
-- The binary search of `Block::Iter::Seek`.
use releveldb.Base.{
  ℕ, zero, suc, ◌+◌, ◌-◌, ◌*◌, ◌/◌, ◌%◌, ◌^◌, ◌≤◌, ◌<◌, ◌≡◌, ◌⊎◌, inl, inr, refl, arith, ap, sym,
  subst, ◌∙◌, List, [], ◌∷◌, ◌++◌, some, Bool, true, false, ltb, ◌==◌, if◌then◌else◌, Bool-cases,
  length, take, Ordering, ◌>>=◌,
}
use releveldb.Slice.{Slice, is_lt}
use releveldb.Comparator.{Comparator}
use releveldb.Comparator.Laws.{Orders}
use releveldb.Block.{Entry, decode_entry}
use releveldb.Block.Iter.{
  Iter, upto_limit, read_bytes, next_entry_offset, get_restart_point, search_loop,
}
use releveldb.Block.Parse.{HasEntry, HasRestarts, entry_read}
use releveldb.Block.Layout.{KeyValue, AllKeys, AllKeys-append, EntryAt, Holds}
use releveldb.Block.Scan.{AllBelow}
use releveldb.Block.Sorted.{PointAt, IsSorted, before-AllBelow}

module _ (little : Bool) (comparator : Comparator) (P : Slice → Type 0)
    (ord : Slice → Slice → Ordering) (law : Orders comparator P ord) (target : Slice)
    (P_target : P target) (it : Iter) where
  -- a round
  search_step :
      (fuel left right mid offset : ℕ) (e : Entry) (key : List ℕ)
      → P key
      → ltb left right ≡ true
      → (left + right + 1) % 2 ^ 32 / 2 ≡ mid
      → get_restart_point little it mid ≡ some offset
      → decode_entry (upto_limit it offset) ≡ some e
      → (e.shared == 0) ≡ true
      → read_bytes it.contents (it.restarts - length e.rest) e.non_shared ≡ some key
      → search_loop little comparator (suc fuel) it target left right ≡ (
          if is_lt (ord key target)
          then search_loop little comparator fuel it target mid right
          else search_loop little comparator fuel it target left (mid - 1))
  unfolding search_loop
  search_step fuel left right mid offset e key k go m point decoded z read =
      rw (go, m)
        (rw (point, ◌>>=◌)
          (rw (decoded, z)
            (rw (read, ◌>>=◌) (rw (law.compare_ord key target k P_target, ◌>>=◌) (rw m refl)))))

  search_end :
      (fuel left : ℕ)
      → search_loop little comparator (suc fuel) it target left left ≡ some (some left)
  unfolding search_loop
  search_end fuel left = let over : ltb left left ≡ false = ground arith in rw over refl

  -- what is left to search: every entry before the restart point is below the target
  abbrev pub IsLeft : {entries : List KeyValue} {i : ℕ} → PointAt little it entries i → Type 0
  IsLeft at = AllBelow ord target at.pre

  module _ (array : it.restarts + it.num_restarts * 4 ≤ length it.contents)
      (small : length it.contents < 2 ^ 32) (entries : List KeyValue)
      (sorted : IsSorted ord entries) (keys : AllKeys P entries)
      (points : (i : ℕ) → i < it.num_restarts → PointAt little it entries i) where
    -- the iterator that `SeekToRestartPoint` makes
    abbrev at_point : ℕ → ℕ → Iter
    at_point i offset = record it { key = []; restart_index = i; value = some (offset, 0) }

    -- what a round reads: the key of the first entry of its restart point
    abbrev Reads : ℕ → ℕ → KeyValue → Type 0
    Reads i offset x =
        (e : Entry) × (decode_entry (upto_limit it offset) ≡ some e)
        × ((e.shared == 0) ≡ true)
        × (read_bytes it.contents (it.restarts - length e.rest) e.non_shared ≡ some x.key)

    reads :
        (i offset : ℕ) (x : KeyValue)
        → i < it.num_restarts
        → EntryAt it.contents it.restarts offset [] x
        → Reads i offset x
    reads i offset x lt entry =
        let (rest, decoded, read) =
          entry_read little (at_point i offset) entry.front entry.shared entry.delta x.value
            entry.back has whole in
        (
          record {
            shared = entry.shared;
            non_shared = length entry.delta;
            value_length = length x.value;
            rest = rest;
          },
          ap (λ n. decode_entry (upto_limit it n)) (sym entry.at) ∙ decoded,
          ground (arith, none_shared),
          read ∙ ap some (sym spelled),
        )
      where
        none_shared : entry.shared ≡ 0
        none_shared = omega (arith, entry.shares)

        spelled : x.key ≡ entry.delta
        spelled = entry.spells ∙ ap (λ n. take n [] ++ entry.delta) none_shared

        has : HasEntry (at_point i offset) entry.front entry.shared entry.delta x.value entry.back
        has = record {
          at =
              unfold next_entry_offset in
              ap some (omega (arith, entry.at, entry.inside, array, small));
          bytes = entry.bytes;
          inside = entry.inside;
          shares = entry.shares;
          short = entry.short;
        }

        whole : HasRestarts (at_point i offset)
        whole = record { array = array; small = small; index = omega (arith, lt) }

    mid_bounds :
        (left right : ℕ)
        → left < right
        → right < 2 ^ 31
        → (mid : ℕ) × ((left + right + 1) % 2 ^ 32 / 2 ≡ mid) × (left < mid) × (mid ≤ right)
    mid_bounds left right lt h = ((left + right + 1) % 2 ^ 32 / 2, refl, omega arith, omega arith)

    -- the first entry of a restart point other than the first one
    first_entry :
        (i : ℕ) (at : PointAt little it entries i)
        → 0 < i
        → (e : KeyValue) × (es : List KeyValue) × (entries ≡ at.pre ++ (e ∷ es))
          × EntryAt it.contents it.restarts at.offset [] e
          × P e.key
    first_entry i at pos =
        let (e, es, same) = at.inhabited pos in
        let held : Holds it.contents it.restarts at.offset [] (e ∷ es) =
          subst (Holds it.contents it.restarts at.offset []) same at.holds in
        let split : entries ≡ at.pre ++ (e ∷ es) = at.split ∙ ap (◌++◌ at.pre) same in
        (
          e,
          es,
          split,
          held.0,
          (AllKeys-append P at.pre (e ∷ es) (subst (AllKeys P) split keys)).1.0,
        )

    -- a round at the restart point `mid`
    round_at :
        (fuel left right mid : ℕ) (ok : mid < it.num_restarts)
        → ltb left right ≡ true
        → (left + right + 1) % 2 ^ 32 / 2 ≡ mid
        → 0 < mid
        → (search_loop little comparator (suc fuel) it target left right
              ≡ search_loop little comparator fuel it target mid right)
            × IsLeft (points mid ok)
          ⊎ (search_loop little comparator (suc fuel) it target left right
              ≡ search_loop little comparator fuel it target left (mid - 1))
    round_at fuel left right mid ok go m pos =
        let (x, xs, split, entry, keyed) = first_entry mid (points mid ok) pos in
        let (e, decoded, z, read) = reads mid (points mid ok).offset x ok entry in
        let step =
          search_step fuel left right mid (points mid ok).offset e x.key keyed go m
            (points mid ok).point decoded z read in
        elim (Bool-cases (is_lt (ord x.key target))) [
          | inl below ↦ inl (
            step ∙ rw below refl,
            before-AllBelow comparator P ord law target P_target (points mid ok).pre x xs
                (subst (IsSorted ord) split sorted) (subst (AllKeys P) split keys) below,
          )
          | inr not_below ↦ inr (step ∙ rw not_below refl)
        ]

    -- The search ends at a restart point with nothing but entries below the target before it.
    abbrev Ends : ℕ → ℕ → ℕ → Type 0
    Ends fuel left right =
        (l : ℕ) × (ok : l < it.num_restarts) × (search_loop little comparator fuel it target left
            right
          ≡ some (some l))
        × IsLeft (points l ok)

    Ends-step :
        (fuel left right left' right' : ℕ)
        → search_loop little comparator (suc fuel) it target left right
          ≡ search_loop little comparator fuel it target left' right'
        → Ends fuel left' right'
        → Ends (suc fuel) left right
    Ends-step fuel left right left' right' step (l, ok, ran, left_of) = (l, ok, step ∙ ran, left_of)

    narrowed :
        (fuel left right mid : ℕ) (l_ok : left < it.num_restarts) (ok : mid < it.num_restarts)
        → ltb left right ≡ true
        → (left + right + 1) % 2 ^ 32 / 2 ≡ mid
        → left < mid
        → (IsLeft (points mid ok) → Ends fuel mid right)
        → Ends fuel left (mid - 1)
        → Ends (suc fuel) left right
    narrowed fuel left right mid l_ok ok go m above upper lower =
        elim (round_at fuel left right mid ok go m (omega (arith, above))) [
          | inl (step, good) ↦ Ends-step fuel left right mid right step (upper good)
          | inr step ↦ Ends-step fuel left right left (mid - 1) step lower
        ]

    -- With a round for each restart point the binary search ends, at a restart point with only
    -- entries before it that are below the target.
    pub search_loop-IsLeft :
        (fuel left right : ℕ) (l_ok : left < it.num_restarts)
        → left ≤ right
        → right < it.num_restarts
        → right < left + fuel
        → IsLeft (points left l_ok)
        → (l : ℕ) × (ok : l < it.num_restarts) × (search_loop little comparator fuel it target left
              right
            ≡ some (some l))
          × IsLeft (points l ok)
    search_loop-IsLeft zero left right l_ok le r_ok enough good = absurd (omega arith)
    search_loop-IsLeft (suc fuel) left right l_ok le r_ok enough good =
        elim (Bool-cases (ltb left right)) [
          | inr done ↦
              let same : right ≡ left = ground arith in
              (
                left,
                l_ok,
                ap (λ r. search_loop little comparator (suc fuel) it target left r) same
                    ∙ search_end fuel left,
                good,
              )
          | inl go ↦
              let (mid, m, above, upto) =
                mid_bounds left right (ground arith) (omega (arith, array, small, r_ok)) in
              let ok : mid < it.num_restarts = omega (arith, upto, r_ok) in
              narrowed fuel left right mid l_ok ok go m above
                (λ good'.
                  search_loop-IsLeft fuel mid right ok upto r_ok (omega (arith, enough, above))
                    good')
                (search_loop-IsLeft fuel left (mid - 1) l_ok (omega (arith, above))
                  (omega (arith, upto, r_ok)) (omega (arith, enough, upto, above)) good)
        ]
