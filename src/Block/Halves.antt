-- ===== src/Block/Halves.antt =====
-- The binary search of `Block::Iter::Seek` on arbitrary bytes.
use releveldb.Base.{
  sym, subst, ℕ, zero, suc, ◌+◌, ◌-◌, ◌*◌, ◌/◌, ◌%◌, ◌^◌, ◌≤◌, ◌<◌, ◌≡◌, ◌⊎◌, inl, inr, refl, arith,
  ◌∙◌, List, none, some, ◌>>=◌, Bool, true, false, ltb, leb, ◌==◌, if◌then◌else◌, Bool-cases,
  Option-cases, Ordering, length, length-take, length-drop, take, drop,
}
use releveldb.Slice.{Slice, is_lt}
use releveldb.Comparator.{Comparator}
use releveldb.Coding.Fixed.{decode_fixed32_total}
use releveldb.Block.{Entry, decode_entry}
use releveldb.Block.Iter.{Iter, upto_limit, read_bytes, get_restart_point, search_loop}
use releveldb.Block.Bounds.{decode_entry_bounds}
use releveldb.Block.Stops.{WrapsSomewhere}

module _ (little : Bool) (it : Iter) where
  -- a restart point at which there is no entry, or one that needs a key before it
  abbrev pub IsBadPoint : ℕ → Type 0
  IsBadPoint i =
      (offset : ℕ) × (get_restart_point little it i ≡ some offset)
      × ((decode_entry (upto_limit it offset) ≡ none)
          ⊎ ((e : Entry) × (decode_entry (upto_limit it offset) ≡ some e) × (0 < e.shared)))

module _ (little : Bool) (comparator : Comparator) (target : Slice) (it : Iter) where
  -- a restart point at which there is a whole key, which is below the target or is not
  abbrev pub PointSays : Bool → ℕ → Type 0
  PointSays below i =
      (offset : ℕ) × (e : Entry) × (key : List ℕ) × (o : Ordering) × (get_restart_point little it i
        ≡ some offset)
      × (decode_entry (upto_limit it offset) ≡ some e)
      × (e.shared ≡ 0)
      × (read_bytes it.contents (it.restarts - length e.rest) e.non_shared ≡ some key)
      × (comparator.compare key target ≡ some o)
      × (is_lt o ≡ below)

  -- The binary search ends: at a bad restart point, or at one whose key is below the target, or the
  -- first, while the key of the next is not below it, or it is the last.
  abbrev pub Found : ℕ → ℕ → ℕ → Type 0
  Found fuel left right =
      ((search_loop little comparator fuel it target left right ≡ some none)
        × ((i : ℕ) × (i < it.num_restarts) × IsBadPoint little it i))
      ⊎ ((l : ℕ) × (search_loop little comparator fuel it target left right ≡ some (some l))
          × (l < it.num_restarts)
          × ((l ≡ left) ⊎ PointSays true l)
          × ((l ≡ right) ⊎ PointSays false (l + 1)))

  abbrev pub Outcome : ℕ → ℕ → ℕ → Type 0
  Outcome fuel left right = Found fuel left right ⊎ WrapsSomewhere little it

  module _ (fuel left right mid : ℕ) where
    -- the search goes on in the upper half, or in the lower one
    upward :
        search_loop little comparator (suc fuel) it target left right
          ≡ search_loop little comparator fuel it target mid right
        → PointSays true mid
        → Outcome fuel mid right
        → Outcome (suc fuel) left right
    upward step says (inr wraps) = inr wraps
    upward step says (inl (inl (corrupt, bad))) = inl (inl (step ∙ corrupt, bad))
    upward step says (inl (inr (l, e, lt, low, high))) = inl (
        inr (
          l,
          step ∙ e,
          lt,
          elim low [
            | inl same ↦ inr (subst (PointSays true) (sym same) says)
            | inr below ↦ inr below
          ],
          high,
        ))

    downward :
        search_loop little comparator (suc fuel) it target left right
          ≡ search_loop little comparator fuel it target left (mid - 1)
        → 0 < mid
        → PointSays false mid
        → Outcome fuel left (mid - 1)
        → Outcome (suc fuel) left right
    downward step some_left says (inr wraps) = inr wraps
    downward step some_left says (inl (inl (corrupt, bad))) = inl (inl (step ∙ corrupt, bad))
    downward step some_left says (inl (inr (l, e, lt, low, high))) = inl (
        inr (
          l,
          step ∙ e,
          lt,
          low,
          elim high [
            | inl same ↦
                let next : mid ≡ l + 1 = omega (arith, same, some_left) in
                inr (subst (PointSays false) next says)
            | inr above ↦ inr above
          ],
        ))

  module _ (total : (a b : Slice) → (o : Ordering) × (comparator.compare a b ≡ some o))
      (array : it.restarts + it.num_restarts * 4 ≤ length it.contents)
      (small : length it.contents < 2 ^ 32) where
    pub point :
        (i : ℕ) → i < it.num_restarts → (offset : ℕ) × (get_restart_point little it i ≡ some offset)
    unfolding get_restart_point
    point i lt =
        let (offset, e) =
          decode_fixed32_total little (drop (it.restarts + i * 4) it.contents)
            (omega (arith, lt, array, length-drop (it.restarts + i * 4) it.contents)) in
        let go : ltb i it.num_restarts ≡ true = ground arith in (offset, rw go e)

    key_read :
        (offset : ℕ) (e : Entry)
        → decode_entry (upto_limit it offset) ≡ some e
        → e.non_shared + e.value_length < 2 ^ 32
        → (key : List ℕ) × (read_bytes it.contents (it.restarts - length e.rest) e.non_shared
            ≡ some key)
    unfolding read_bytes
    key_read offset e decoded fits =
        let (short, room) = decode_entry_bounds (upto_limit it offset) e decoded in
        let inside : leb (it.restarts - length e.rest + e.non_shared) (length it.contents) ≡ true =
          ground (
            arith,
            short,
            room,
            fits,
            small,
            array,
            length-take it.restarts it.contents,
            length-drop offset (take it.restarts it.contents),
          ) in
        (take e.non_shared (drop (it.restarts - length e.rest) it.contents), rw inside refl)

    module _ (fuel left right mid offset : ℕ) (go : ltb left right ≡ true)
        (m : (left + right + 1) % 2 ^ 32 / 2 ≡ mid) (lt : mid < it.num_restarts)
        (at : get_restart_point little it mid ≡ some offset) where
      no_entry : decode_entry (upto_limit it offset) ≡ none → Found (suc fuel) left right
      unfolding search_loop
      no_entry fails =
          inl (rw (go, m) (rw (at, ◌>>=◌) (rw fails refl)), (mid, lt, (offset, at, inl fails)))

      shares :
          (e : Entry)
          → decode_entry (upto_limit it offset) ≡ some e
          → (e.shared == 0) ≡ false
          → Found (suc fuel) left right
      unfolding search_loop
      shares e decoded some_shared = inl (
        rw (go, m) (rw (at, ◌>>=◌) (rw (decoded, some_shared) refl)),
        (mid, lt, (offset, at, inr (e, decoded, ground arith))),
      )

      compared :
          (e : Entry) (key : List ℕ) (o : Ordering)
          → decode_entry (upto_limit it offset) ≡ some e
          → (e.shared == 0) ≡ true
          → read_bytes it.contents (it.restarts - length e.rest) e.non_shared ≡ some key
          → comparator.compare key target ≡ some o
          → search_loop little comparator (suc fuel) it target left right ≡ (
              if is_lt o
              then search_loop little comparator fuel it target mid right
              else search_loop little comparator fuel it target left (mid - 1))
      unfolding search_loop
      compared e key o decoded z read ordered =
          rw (go, m)
            (rw (at, ◌>>=◌) (rw (decoded, z) (rw (read, ◌>>=◌) (rw (ordered, ◌>>=◌) (rw m refl)))))

    -- a round with what comes after it in the two halves
    round_total :
        (fuel left right mid : ℕ)
        → ltb left right ≡ true
        → (left + right + 1) % 2 ^ 32 / 2 ≡ mid
        → mid < it.num_restarts
        → 0 < mid
        → Outcome fuel mid right
        → Outcome fuel left (mid - 1)
        → Outcome (suc fuel) left right
    round_total fuel left right mid go m lt some_left upper lower =
        let (offset, at) = point mid lt in
        elim (Option-cases (decode_entry (upto_limit it offset))) [
          | inl fails ↦ inl (no_entry fuel left right mid offset go m lt at fails)
          | inr (e, decoded) ↦ elim (Bool-cases (e.shared == 0)) [
            | inr some_shared ↦
                inl (shares fuel left right mid offset go m lt at e decoded some_shared)
            | inl z ↦ elim (Bool-cases (ltb (e.non_shared + e.value_length) (2 ^ 32))) [
              | inr wraps ↦ inr (offset, (e, decoded, ground arith))
              | inl fits ↦
                  let (key, read) = key_read offset e decoded (ground arith) in
                  let (o, ordered) = total key target in
                  let step =
                    compared fuel left right mid offset go m lt at e key o decoded z read ordered in
                  let whole : e.shared ≡ 0 = ground arith in
                  elim (Bool-cases (is_lt o)) [
                    | inl below ↦
                        upward fuel left right mid (step ∙ rw below refl)
                          (offset, e, key, o, at, decoded, whole, read, ordered, below) upper
                    | inr not_below ↦
                        downward fuel left right mid (step ∙ rw not_below refl) some_left
                          (offset, e, key, o, at, decoded, whole, read, ordered, not_below) lower
                  ]
            ]
          ]
        ]

    pub search_loop_total :
        (fuel left right : ℕ)
        → left ≤ right
        → right < it.num_restarts
        → right < left + fuel
        → Outcome fuel left right
    search_loop_total zero left right le lt enough = absurd (omega arith)
    search_loop_total (suc fuel) left right le lt enough =
        let mid : ℕ = (left + right + 1) % 2 ^ 32 / 2 in
        elim (Bool-cases (ltb left right)) [
          | inr done ↦
              let same : left ≡ right = ground (arith, le) in
              inl (
                inr (
                  left,
                  unfold search_loop in rw done refl,
                  omega (arith, le, lt),
                  inl refl,
                  inl same,
                ))
          | inl go ↦
              let above : left < mid = ground (arith, array, small, lt) in
              let upto : mid ≤ right = ground (arith, array, small, lt) in
              round_total fuel left right mid go refl (omega (arith, upto, lt))
                (omega (arith, above))
                (search_loop_total fuel mid right upto lt (omega (arith, enough, above)))
                (search_loop_total fuel left (mid - 1) (omega (arith, above))
                  (omega (arith, upto, lt)) (omega (arith, enough, upto, above)))
        ]
