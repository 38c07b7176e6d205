-- ===== src/SkipList/Contents.antt =====
-- `Insert` and `Contains` together.
use releveldb.Base.{
  ℕ, suc, ◌+◌, ◌-◌, ◌≤◌, ◌≡◌, refl, arith, ap, ◌∙◌, List, [], ◌∷◌, ◌++◌, true, false, ◌||◌, none,
  some, Ordering, ◌>>=◌, length, length-append,
}
use releveldb.Slice.{is_eq}
use releveldb.SkipList.{Ptr, SkipList, contains, insert, assert_absent}
use releveldb.SkipList.Chain.{Cells, IsSkipList}
use releveldb.SkipList.Find.{
  IsPreorder, before, from, before-append-from, member, member-head_equal, from_First, find_lem,
  found, place, contains-member,
}
use releveldb.SkipList.Insert.{IsUnused, inserted, insert-IsSkipList, fill_get, present}

module _ {K : Type 0} (compare : K → K → Ordering) where
  member-append :
      (k : K) (xs ys : Cells K)
      → member compare k (xs ++ ys) ≡ (member compare k xs || member compare k ys)
  member-append k [] ys = refl
  member-append k ((a, j) ∷ xs) ys = ground (arith, member-append k xs ys)

  pub member-inserted :
      (key k : K) (x : Ptr) (xs : Cells K)
      → member compare k (before compare key xs ++ ((x, key) ∷ from compare key xs))
        ≡ (is_eq (compare k key) || member compare k xs)
  member-inserted key k x xs = ground (
    arith,
    member-append k (before compare key xs) ((x, key) ∷ from compare key xs),
    member-append k (before compare key xs) (from compare key xs),
    ap (member compare k) (before-append-from compare key xs),
  )

  pub length-inserted :
      (key : K) (x : Ptr) (xs : Cells K)
      → length (before compare key xs ++ ((x, key) ∷ from compare key xs)) ≡ suc (length xs)
  length-inserted key x xs = omega (
    arith,
    length-append (before compare key xs) ((x, key) ∷ from compare key xs),
    length-append (before compare key xs) (from compare key xs),
    ap length (before-append-from compare key xs),
  )

  module _ (law : IsPreorder compare) (s : SkipList K) (xs : Cells K) (ok : IsSkipList compare s xs)
      (key : K) where
    -- After an `Insert` of an absent key, `Contains` holds of the equal keys and of those before.
    pub contains-insert :
        (fresh : Ptr) (raw : ℕ → Ptr) (junk : List Ptr) (fuel : ℕ) (k : K)
        → IsUnused s.heap fresh
        → length junk ≡ 12
        → length xs + 6 ≤ fuel
        → contains compare fuel s key ≡ some false
        → (s' : SkipList K) × (insert compare fuel fresh raw junk s key ≡ some s')
          × (contains compare fuel s' k
              ≡ (contains compare fuel s k >>= λ old. some (is_eq (compare k key) || old)))
    contains-insert fresh raw junk fuel k unused hj hf absent =
        let m : member compare key xs ≡ false =
          cc (contains-member compare s xs ok key law fuel (omega arith)) in
        let (s', run, ok') =
          insert-IsSkipList compare law key s xs ok fresh raw unused fuel junk (omega arith) hj m in
        (
          s',
          run,
          contains-member compare s' (inserted compare law key s xs ok fresh) ok' k law fuel
                (omega (arith, length-inserted key fresh xs))
              ∙ rw (contains-member compare s xs ok k law fuel (omega arith))
                  (ap some (member-inserted key k fresh xs)),
        )

    -- `Insert` of a key that is there fails its assertion.
    pub insert_present :
        (fresh : Ptr) (raw : ℕ → Ptr) (junk : List Ptr) (fuel : ℕ)
        → length junk ≡ 12
        → length xs + 5 ≤ fuel
        → contains compare fuel s key ≡ some true
        → insert compare fuel fresh raw junk s key ≡ none
    unfolding insert
    insert_present fresh raw junk fuel hj hf there =
        let m : member compare key xs ≡ true =
          cc (contains-member compare s xs ok key law fuel hf) in
        let (p, _, c) = ok.levels 0 (omega arith) in
        let (prev, filled, _, _, _) =
          fill_get compare key s.heap (s.max_height - 1) junk (place compare s xs ok key)
            (omega (arith, ok.height)) in
        let fails : assert_absent compare s.heap (found compare s xs ok key) key ≡ none =
          present compare key law s.heap (from compare key xs)
            (from_First compare key s.heap 0 p xs c)
            (rw (member-head_equal compare law key xs ok.sorted) at m) in
        rw (find_lem compare s xs ok key fuel (some junk) hf) (rw filled (rw fails))
