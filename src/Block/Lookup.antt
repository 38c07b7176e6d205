-- ===== src/Block/Lookup.antt =====
-- `Block::Iter::Seek` of db/Block.cpp with the `InternalKeyComparator` of db/DBFormat.cpp: the look-up
-- of a user key at a sequence number, which is what `kValueTypeForSeek` of db/DBFormat.h is for.
use releveldb.Base.{
  ℕ, ◌+◌, ◌*◌, ◌^◌, ◌≤◌, ◌<◌, ◌≡◌, ◌≢◌, ◌⊎◌, inl, inr, refl, arith, ap, sym, ◌∙◌, subst, List, [],
  ◌∷◌, ◌++◌, some, Bool, true, false, Ordering, compare, length,
}
use releveldb.Slice.{Slice, is_lt}
use releveldb.Comparator.{Comparator}
use releveldb.Comparator.Laws.{IsLawful}
use releveldb.DbFormat.{
  ParsedInternalKey, append_internal_key, parse_internal_key, internal_key_comparator,
  k_max_sequence_number, k_value_type_for_seek,
}
use releveldb.DbFormat.Order.{then_by}
use releveldb.Block.Iter.{Iter, seek, valid, key_of, value_of}
use releveldb.Block.Layout.{map-AllKeys, join-AllKeys, KeyValue, AllKeys, AllKeys-append}
use releveldb.Block.Scan.{AllBelow, IsFirst}
use releveldb.Block.Sorted.{above-AllKeys, below-AllKeys, sorted_behind, IsSorted}
use releveldb.Block.Seek.{IsBlock, seek-IsFirst}
use releveldb.Slice.Order.{flip}
use releveldb.Block.Versions.{
  IsVersion, number, IsVersion-IsKey, IsVersion-parse, internal_order, internal_order-IsKey,
  internal-Orders,
}

module _ (little : Bool) (ord : Slice → Slice → Ordering) (u : Slice) (snapshot : ℕ) where
  -- a key that is no version of `u` as old as the snapshot
  abbrev IsHidden : Slice → Type 0
  IsHidden k =
      (x : ParsedInternalKey) × (parse_internal_key little k ≡ some x)
      × ((ord x.user_key u ≢ Ordering.eq) ⊎ (snapshot < x.sequence))

  -- a key that is hidden or not newer than `n`
  abbrev IsUpto : ℕ → Slice → Type 0
  IsUpto n k =
      IsHidden k
      ⊎ ((x : ParsedInternalKey) × (parse_internal_key little k ≡ some x) × (x.sequence ≤ n))

  -- The iterator stands at the newest version of `u` that the snapshot sees, or there is none.
  abbrev pub IsAnswer : List KeyValue → Iter → Type 0
  IsAnswer entries it =
      ((f : KeyValue) × (y : ParsedInternalKey) × (key_of it ≡ some f.key)
        × (value_of it ≡ some f.value)
        × (parse_internal_key little f.key ≡ some y)
        × (ord y.user_key u ≡ Ordering.eq)
        × (y.sequence ≤ snapshot)
        × ((pre : List KeyValue) × (post : List KeyValue) × (entries ≡ pre ++ (f ∷ post)))
        × AllKeys (IsUpto y.sequence) entries)
      ⊎ (AllKeys IsHidden entries
          × ((valid it ≡ false)
              ⊎ ((k : Slice) × (y : ParsedInternalKey) × (key_of it ≡ some k)
                  × (parse_internal_key little k ≡ some y)
                  × (ord y.user_key u ≢ Ordering.eq))))

module _ (little : Bool) (c : Comparator) (ord : Slice → Slice → Ordering) (law : IsLawful c ord)
    (u : Slice) (snapshot : ℕ) (target : Slice) (small : snapshot ≤ k_max_sequence_number)
    (sought : append_internal_key little []
        (record { user_key = u; sequence = snapshot; value_type = k_value_type_for_seek })
      ≡ some target) where
  abbrev sought_version : IsVersion little target
  sought_version = record {
    version = record { user_key = u; sequence = snapshot; value_type = k_value_type_for_seek };
    in_range = small;
    typed = omega arith;
    made = sought;
  }

  eq_or_not : (o : Ordering) → (o ≡ Ordering.eq) ⊎ (o ≢ Ordering.eq)
  eq_or_not Ordering.lt = inr (λ e. absurd (ground (arith, e)))
  eq_or_not Ordering.eq = inl refl
  eq_or_not Ordering.gt = inr (λ e. absurd (ground (arith, e)))

  order_at :
      {k : Slice} (v : IsVersion little k)
      → internal_order little ord k target
        ≡ then_by
            (ord v.version.user_key u)
            (compare (snapshot * 2 ^ 8 + 1) (number little v.version))
  order_at v =
      internal_order-IsKey little ord (IsVersion-IsKey little v)
        (IsVersion-IsKey little sought_version)

  below-IsHidden :
      {k : Slice} (v : IsVersion little k)
      → is_lt (internal_order little ord k target) ≡ true
      → IsHidden little ord u snapshot k
  below-IsHidden v b = (
    v.version,
    IsVersion-parse little v,
    elim (eq_or_not (ord v.version.user_key u)) [
      | inl same ↦ inr (ground (arith, order_at v, same, b, v.typed))
      | inr other ↦ inl other
    ],
  )

  visible_or_not :
      {k : Slice} (v : IsVersion little k)
      → is_lt (internal_order little ord k target) ≡ false
      → (ord v.version.user_key u ≡ Ordering.gt)
        ⊎ ((ord v.version.user_key u ≡ Ordering.eq) × (v.version.sequence ≤ snapshot))
  visible_or_not v b = ground (arith, order_at v, b, v.typed)

  above-IsUpto :
      {f k : Slice} (vf : IsVersion little f) (v : IsVersion little k)
      → ord vf.version.user_key u ≡ Ordering.eq
      → internal_order little ord f k ≡ Ordering.lt
      → IsUpto little ord u snapshot vf.version.sequence k
  above-IsUpto vf v same above =
      let order =
        internal_order-IsKey little ord (IsVersion-IsKey little vf) (IsVersion-IsKey little v) in
      elim (eq_or_not (ord v.version.user_key u)) [
        | inl same' ↦
            let both : ord vf.version.user_key v.version.user_key ≡ Ordering.eq =
              law.eq_left vf.version.user_key u v.version.user_key same
              ∙ law.ord_flip v.version.user_key u
              ∙ ap flip same' in
            inr (
              v.version,
              IsVersion-parse little v,
              ground (arith, sym order ∙ above, both, v.typed, vf.typed),
            )
        | inr other ↦ inl (v.version, IsVersion-parse little v, inl other)
      ]

  above-IsHidden :
      {f k : Slice} (vf : IsVersion little f) (v : IsVersion little k)
      → ord vf.version.user_key u ≡ Ordering.gt
      → internal_order little ord f k ≡ Ordering.lt
      → IsHidden little ord u snapshot k
  above-IsHidden vf v gt above =
      let order =
        internal_order-IsKey little ord (IsVersion-IsKey little vf) (IsVersion-IsKey little v) in
      (
        v.version,
        IsVersion-parse little v,
        inl (λ same.
            let other : ord vf.version.user_key v.version.user_key ≡ Ordering.gt =
              law.ord_flip v.version.user_key vf.version.user_key
              ∙ ap flip (
                  law.eq_left v.version.user_key u vf.version.user_key same
                  ∙ law.ord_flip vf.version.user_key u
                  ∙ ap flip gt) in
            absurd (ground (arith, sym order ∙ above, other))),
      )

  all-IsHidden :
      (pre : List KeyValue)
      → AllKeys (IsVersion little) pre
      → AllBelow (internal_order little ord) target pre
      → AllKeys (IsHidden little ord u snapshot) pre
  all-IsHidden pre keys all =
      map-AllKeys pre (λ k v b. below-IsHidden v b) keys
        (below-AllKeys (internal_order little ord) target pre all)

  pub IsFirst-IsAnswer :
      (entries : List KeyValue) (it : Iter)
      → IsSorted (internal_order little ord) entries
      → AllKeys (IsVersion little) entries
      → IsFirst (internal_order little ord) target entries it
      → IsAnswer little ord u snapshot entries it
  IsFirst-IsAnswer entries it sorted keys (inl (ended, all)) =
      inr (all-IsHidden entries keys all, inl ended)
  IsFirst-IsAnswer entries it sorted keys (inr (pre, f, post, split, all, here, key, value)) =
      let ((vf, later), above) = behind in
      elim (visible_or_not vf here) [
        | inl greater ↦
            let other : ord vf.version.user_key u ≢ Ordering.eq =
              λ same. absurd (ground (arith, same, greater)) in
            inr (
              whole (IsHidden little ord u snapshot) hidden_pre
                  (vf.version, IsVersion-parse little vf, inl other)
                  (map-AllKeys post (λ k v a. above-IsHidden vf v greater a) later above),
              inr (f.key, vf.version, key, IsVersion-parse little vf, other),
            )
        | inr (same, seen) ↦ inl (
          f,
          vf.version,
          key,
          value,
          IsVersion-parse little vf,
          same,
          seen,
          (pre, post, split),
          whole (IsUpto little ord u snapshot vf.version.sequence)
              (map-AllKeys pre (λ k h t. inl h) hidden_pre hidden_pre)
              (inr (vf.version, IsVersion-parse little vf, omega arith))
              (map-AllKeys post (λ k v a. above-IsUpto vf v same a) later above),
        )
      ]
    where
      parts : AllKeys (IsVersion little) pre × AllKeys (IsVersion little) (f ∷ post)
      parts =
          AllKeys-append (IsVersion little) pre (f ∷ post)
            (subst (AllKeys (IsVersion little)) split keys)

      behind :
          AllKeys (IsVersion little) (f ∷ post)
          × AllKeys (λ k. internal_order little ord f.key k ≡ Ordering.lt) post
      behind = (
        parts.1,
        above-AllKeys (internal_order little ord) f post (
            sorted_behind (internal_order little ord) pre f post
              (subst (IsSorted (internal_order little ord)) split sorted)),
      )

      hidden_pre : AllKeys (IsHidden little ord u snapshot) pre
      hidden_pre = all-IsHidden pre parts.0 all

      whole : (P : Slice → Type 0) → AllKeys P pre → P f.key → AllKeys P post → AllKeys P entries
      whole P a b d = subst (AllKeys P) (sym split) (join-AllKeys P pre (f ∷ post) a (b, d))

  -- In a block of internal keys that are sorted over a lawful user comparator, `Seek` with the
  -- comparator of internal keys, for a user key and a snapshot's sequence number in range, ends
  -- with a round for each restart point and one for each entry and one more. If the block has a
  -- version of the user key that is not newer than the snapshot, the iterator stands at the newest
  -- such version, with its key and its value. If it has none, the iterator is invalid or stands at
  -- another user key.
  pub seek-IsAnswer :
      (it : Iter) (entries : List KeyValue) (fuel : ℕ)
      → IsBlock little (IsVersion little) (internal_order little ord) it entries
      → it.num_restarts ≤ fuel
      → length entries < fuel
      → (it' : Iter) × (seek little (internal_key_comparator little c) fuel it target ≡ some it')
        × IsAnswer little ord u snapshot entries it'
  seek-IsAnswer it entries fuel block rounds enough =
      let (it', ran, status, first) =
        seek-IsFirst little (internal_key_comparator little c) (IsVersion little)
          (internal_order little ord) (internal-Orders little ord c law) target sought_version it
          entries block fuel rounds enough in
      (it', ran, IsFirst-IsAnswer entries it' block.sorted block.keys first)
